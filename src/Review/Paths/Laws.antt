-- ===== src/Review/Paths/Laws.antt =====
-- Reading a candidate after an assignment.
use recon_ai.Prelude.{ℕ, Option, none, some, List, [], ◌∷◌, ◌≡◌, refl, subst, ◌∙◌}
use recon_ai.Prelude.Text.{Text}
use recon_ai.Prelude.Json.{
  Json, null, bool, num, str, arr, obj, Fields, Items, get_key, put_key, get_item, put_item,
  get_key-put_key, get_item-put_item_self, text_eq_refl,
}
use recon_ai.Prelude.Check.{Check, ok, err, ◌>>=◌, bind-ok, ok_injective}
use recon_ai.Review.Coercion.{
  CandidatePathError, path_not_found, index_out_of_range, assigned_container,
  coerce_correction_value,
}
use recon_ai.Review.Paths.{
  Segment, path_segments, or_raise, member, element, indexed, step, get_at, get_field_value,
  replace_item, replace_indexed, replace_member, replace_child, assign_in, assign_leaf, set_at,
  set_field_value, fields_of,
}

-- The key of the last segment, after which the value is checked.
abbrev pub leaf_name : List (Option Segment) → Text
leaf_name [] = []
leaf_name (none ∷ []) = []
leaf_name (some (key, index) ∷ []) = key
leaf_name (s ∷ t ∷ segments) = leaf_name (t ∷ segments)

step-replace_item :
    (i : ℕ) (node child child' : Json)
    → element i node ≡ ok child
    → element i (replace_item i child' node) ≡ ok child'
step-replace_item i (arr xs) child child' h = found i xs child child' h
  where
    some-of : (o : Option Json) (c : Json) → or_raise index_out_of_range o ≡ ok c → o ≡ some c
    some-of none c h = cc
    some-of (some x) c h = cc

    found :
        (i : ℕ) (xs : Items) (child child' : Json)
        → or_raise index_out_of_range (get_item i xs) ≡ ok child
        → or_raise index_out_of_range (get_item i (put_item i child' xs)) ≡ ok child'
    found i xs child child' h =
        rw (get_item-put_item_self i child' child xs (some-of (get_item i xs) child h))
step-replace_item i null child child' h = cc
step-replace_item i (bool b) child child' h = cc
step-replace_item i (num t) child child' h = cc
step-replace_item i (str t) child child' h = cc
step-replace_item i (obj fs) child child' h = cc

indexed-replace_indexed :
    (index : Option ℕ) (node child child' : Json)
    → indexed index node ≡ ok child
    → indexed index (replace_indexed index child' node) ≡ ok child'
indexed-replace_indexed none node child child' h = refl
indexed-replace_indexed (some i) node child child' h = step-replace_item i node child child' h

get_key-put_key_self : (k : Text) (v : Json) (fs : Fields) → get_key k (put_key k v fs) ≡ some v
get_key-put_key_self k v fs = rw (get_key-put_key k k v fs, text_eq_refl k)

-- A replaced child is what the segment leads to.
pub step-replace_child :
    (s : Segment) (node child child' : Json)
    → step (some s) node ≡ ok child
    → step (some s) (replace_child s child' node) ≡ ok child'
unfolding step
step-replace_child (key, index) (obj fs) child child' h = from (get_key key fs) h
  where
    from :
        (o : Option Json)
        → (or_raise path_not_found o >>= indexed index) ≡ ok child
        → (member key (replace_member key index child' fs o) >>= indexed index) ≡ ok child'
    from none h = cc
    from (some old) h =
        rw (get_key-put_key_self key (replace_indexed index child' old) fs)
          (indexed-replace_indexed index old child child' h)
step-replace_child (key, index) null child child' h = cc
step-replace_child (key, index) (bool b) child child' h = cc
step-replace_child (key, index) (num t) child child' h = cc
step-replace_child (key, index) (str t) child child' h = cc
step-replace_child (key, index) (arr xs) child child' h = cc

-- The value read, and that the checks let it through.
abbrev Assigned : Text → Json → Check CandidatePathError Json → Type 0
Assigned key value read = (w : Json) × (coerce_correction_value key value ≡ ok w) × (read ≡ ok w)

assign_in-read :
    (key : Text) (value node node' : Json)
    → assign_in key value node ≡ ok node'
    → Assigned key value (step (some (key, none)) node')
unfolding step
assign_in-read key value (obj fs) node' h =
    let (w, checked, same) =
      bind-ok (coerce_correction_value key value) (λ v. ok (obj (put_key key v fs))) h in
    (
      w,
      checked,
      subst (λ n. (member key n >>= indexed none) ≡ ok w)
          (node_eq (obj (put_key key w fs)) node' same) (rw (get_key-put_key_self key w fs)),
    )
  where
    node_eq : (a b : Json) → ◌≡◌ {A = Check CandidatePathError Json} (ok a) (ok b) → a ≡ b
    node_eq a b h = cc
assign_in-read key value null node' h = cc
assign_in-read key value (bool b) node' h = cc
assign_in-read key value (num t) node' h = cc
assign_in-read key value (str t) node' h = cc
assign_in-read key value (arr xs) node' h = cc

read_leaf :
    (s : Option Segment) (node : Json) {w : Json} → step s node ≡ ok w → get_at (s ∷ []) node ≡ ok w
unfolding get_at
read_leaf s node h = rw h

pub no_leaf :
    (key : Text) (i : ℕ) (value node node' : Json)
    → assign_leaf (some (key, some i)) value node ≡ ok node'
    → ⊥
unfolding assign_leaf
no_leaf key i value node node' h = never (member key node) h
  where
    never_in :
        (e : CandidatePathError) (m : Check CandidatePathError Json)
        → (m >>= λ x. err e) ≡ ok node'
        → ⊥
    never_in e (ok x) h = cc
    never_in e (err d) h = cc

    never :
        (m : Check CandidatePathError Json)
        → (m >>= λ seq. element i seq >>= λ x. err assigned_container) ≡ ok node'
        → ⊥
    never (ok seq) h = never_in assigned_container (element i seq) h
    never (err d) h = cc

pub read_step :
    (s : Option Segment) (segments : List (Option Segment)) (node child : Json)
    → step s node ≡ ok child
    → get_at (s ∷ segments) node ≡ get_at segments child
unfolding get_at
read_step s segments node child h = rw h

-- What an assignment below a segment has done.
abbrev pub SetBelow : Segment → List (Option Segment) → Json → Json → Json → Type 0
SetBelow s segments value node node' =
    (child : Json) × (child' : Json) × (step (some s) node ≡ ok child)
    × (set_at segments value child ≡ ok child')
    × (replace_child s child' node ≡ node')

pub set_at-below :
    (s : Segment) (t : Option Segment) (segments : List (Option Segment)) (value node node' : Json)
    → set_at (some s ∷ t ∷ segments) value node ≡ ok node'
    → SetBelow s (t ∷ segments) value node node'
unfolding set_at
set_at-below s t segments value node node' h =
    let (child, found, rest) =
      bind-ok (step (some s) node)
        (λ child. set_at (t ∷ segments) value child >>= λ child'. ok (replace_child s child' node))
        h in
    let (child', written, same) =
      bind-ok (set_at (t ∷ segments) value child) (λ child'. ok (replace_child s child' node))
        rest in
    (child, child', found, written, ok_injective (replace_child s child' node) node' same)

get_at-set_at :
    (segments : List (Option Segment)) (value node node' : Json)
    → set_at segments value node ≡ ok node'
    → Assigned (leaf_name segments) value (get_at segments node')
unfolding set_at assign_leaf
get_at-set_at [] value node node' h = cc
get_at-set_at (none ∷ []) value node node' h = cc
get_at-set_at (some (key, none) ∷ []) value node node' h =
    let (w, checked, read) = assign_in-read key value node node' h in
    (w, checked, read_leaf (some (key, none)) node' read)
get_at-set_at (some (key, some i) ∷ []) value node node' h =
    absurd (no_leaf key i value node node' h)
get_at-set_at (none ∷ t ∷ segments) value node node' h = cc
get_at-set_at (some s ∷ t ∷ segments) value node node' h =
    let (child, child', found, written, same) = set_at-below s t segments value node node' h in
    let (w, checked, read) = get_at-set_at (t ∷ segments) value child child' written in
    let here =
      read_step (some s) (t ∷ segments) (replace_child s child' node) child'
        (step-replace_child s node child child' found) in
    (w, checked, subst (λ n. get_at (some s ∷ t ∷ segments) n ≡ ok w) same (here ∙ read))

fields_of-ok : (node : Json) (fs : Fields) → fields_of node ≡ ok fs → node ≡ obj fs
fields_of-ok (obj gs) fs h = cc
fields_of-ok null fs h = cc
fields_of-ok (bool b) fs h = cc
fields_of-ok (num t) fs h = cc
fields_of-ok (str t) fs h = cc
fields_of-ok (arr xs) fs h = cc

pub set_field_value-ok :
    (candidate candidate' : Fields) (path : Text) (value : Json)
    → set_field_value candidate path value ≡ ok candidate'
    → set_at (path_segments path) value (obj candidate) ≡ ok (obj candidate')
unfolding set_field_value
set_field_value-ok candidate candidate' path value h =
    let (node, written, same) =
      bind-ok (set_at (path_segments path) value (obj candidate)) fields_of h in
    subst (λ n. set_at (path_segments path) value (obj candidate) ≡ ok n)
      (fields_of-ok node candidate' same) written

-- What is read at a path after an assignment there is the assigned value, as the check of its field
-- gives it.
pub get_field_value-set_field_value :
    (candidate candidate' : Fields) (path : Text) (value : Json)
    → set_field_value candidate path value ≡ ok candidate'
    → (w : Json) × (coerce_correction_value (leaf_name (path_segments path)) value ≡ ok w)
      × (get_field_value candidate' path ≡ ok w)
unfolding get_field_value
get_field_value-set_field_value candidate candidate' path value h =
    get_at-set_at (path_segments path) value (obj candidate) (obj candidate')
      (set_field_value-ok candidate candidate' path value h)
