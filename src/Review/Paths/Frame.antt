-- ===== src/Review/Paths/Frame.antt =====
-- What an assignment to a candidate leaves alone: the paths apart from its own.
use recon_ai.Prelude.{
  ℕ, Bool, true, false, not, ◌&&◌, ◌||◌, Option, none, some, List, [], ◌∷◌, ◌≡◌, refl, sym, subst,
  ◌∙◌, inl, inr, arith, opt_eq, ◌==◌, Bool-cases, ==_iff,
}
use recon_ai.Prelude.Text.{Text, text_eq, text_eq_iff}
use recon_ai.Prelude.Json.{
  Json, null, bool, num, str, arr, obj, Fields, get_key, put_key, get_key-put_key,
  get_item-put_item_other,
}
use recon_ai.Prelude.Check.{ok, ◌>>=◌, bind-ok, ok_injective}
use recon_ai.Review.Coercion.{path_not_found, coerce_correction_value}
use recon_ai.Review.Paths.{
  Segment, path_segments, or_raise, member, element, indexed, step, get_at, get_field_value,
  replace_item, replace_indexed, replace_member, replace_child, assign_in, assign_leaf, set_at,
  set_field_value,
}
use recon_ai.Review.Paths.Laws.{
  set_at-below, set_field_value-ok, no_leaf, read_step, step-replace_child,
}

abbrev pub indices_differ : Option ℕ → Option ℕ → Bool
indices_differ (some i) (some j) = not (i == j)
indices_differ _ _ = false

-- Two paths part at some segment: by their keys, or at one key by their indices.
abbrev pub apart : List (Option Segment) → List (Option Segment) → Bool
apart (some (k, i) ∷ ps) (some (j, l) ∷ qs) =
    not (text_eq j k) || (indices_differ i l || opt_eq i l && apart ps qs)
apart _ _ = false

-- Another key of an object is read as before.
member_other :
    (j k : Text) (v : Json) (fs : Fields)
    → text_eq j k ≡ false
    → member j (obj (put_key k v fs)) ≡ member j (obj fs)
member_other j k v fs h = rw (get_key-put_key k j v fs, h)

other_key :
    (k j : Text) (i l : Option ℕ) (child node : Json)
    → text_eq j k ≡ false
    → step (some (j, l)) (replace_child (k, i) child node) ≡ step (some (j, l)) node
unfolding step
other_key k j i l child (obj fs) h = from (get_key k fs)
  where
    from :
        (o : Option Json)
        → (member j (replace_member k i child fs o) >>= indexed l)
          ≡ (member j (obj fs) >>= indexed l)
    from none = refl
    from (some old) = rw (member_other j k (replace_indexed i child old) fs h)
other_key k j i l child null h = refl
other_key k j i l child (bool b) h = refl
other_key k j i l child (num t) h = refl
other_key k j i l child (str t) h = refl
other_key k j i l child (arr xs) h = refl

other_item :
    (i l : ℕ) (child old : Json)
    → (i == l) ≡ false
    → element l (replace_item i child old) ≡ element l old
other_item i l child (arr xs) h =
    rw (get_item-put_item_other i l child xs (λ e. let same = (==_iff i l).1 e in cc))
other_item i l child null h = refl
other_item i l child (bool b) h = refl
other_item i l child (num t) h = refl
other_item i l child (str t) h = refl
other_item i l child (obj fs) h = refl

other_index :
    (k : Text) (i l : ℕ) (child node : Json)
    → (i == l) ≡ false
    → step (some (k, some l)) (replace_child (k, some i) child node) ≡ step (some (k, some l)) node
unfolding step
other_index k i l child (obj fs) h = from (get_key k fs) refl
  where
    from :
        (o : Option Json)
        → get_key k fs ≡ o
        → (member k (replace_member k (some i) child fs o) >>= element l)
          ≡ (or_raise path_not_found o >>= element l)
    from none e = rw e
    from (some old) e =
        rw (get_key-put_key k k (replace_item i child old) fs, (text_eq_iff k k).1 refl)
          (other_item i l child old h)
other_index k i l child null h = refl
other_index k i l child (bool b) h = refl
other_index k i l child (num t) h = refl
other_index k i l child (str t) h = refl
other_index k i l child (arr xs) h = refl

read_same :
    (s : Option Segment) (qs : List (Option Segment)) (node node' : Json)
    → step s node' ≡ step s node
    → get_at (s ∷ qs) node' ≡ get_at (s ∷ qs) node
unfolding get_at
read_same s qs node node' h = rw h

-- How two paths part at their first segments, or go on together.
data Parting (k : Text) (i : Option ℕ) (ps : List (Option Segment)) (j : Text) (l : Option ℕ)
    (qs : List (Option Segment)) : Type 0 where
  other_keys : text_eq j k ≡ false → Parting k i ps j l qs
  other_indices :
      (a b : ℕ) → j ≡ k → i ≡ some a → l ≡ some b → (a == b) ≡ false → Parting k i ps j l qs
  later : j ≡ k → l ≡ i → apart ps qs ≡ true → Parting k i ps j l qs

opt_eq-eq : (i l : Option ℕ) → opt_eq i l ≡ true → l ≡ i
opt_eq-eq none none h = refl
opt_eq-eq (some a) (some b) h = ground (arith, h)
opt_eq-eq none (some b) h = cc
opt_eq-eq (some a) none h = cc

Parting-at :
    (k : Text) (i : Option ℕ) (ps : List (Option Segment)) (j : Text) (l : Option ℕ)
    (qs : List (Option Segment))
    → j ≡ k
    → (indices_differ i l || opt_eq i l && apart ps qs) ≡ true
    → Parting k i ps j l qs
Parting-at k none ps j none qs same h = later same refl h
Parting-at k none ps j (some b) qs same h = cc
Parting-at k (some a) ps j none qs same h = cc
Parting-at k (some a) ps j (some b) qs same h = elim (Bool-cases (a == b)) [
  | inl e ↦ later same (opt_eq-eq (some a) (some b) e) (ground (arith, h, e))
  | inr e ↦ other_indices a b same refl refl e
]

parting :
    (k : Text) (i : Option ℕ) (ps : List (Option Segment)) (j : Text) (l : Option ℕ)
    (qs : List (Option Segment))
    → apart (some (k, i) ∷ ps) (some (j, l) ∷ qs) ≡ true
    → Parting k i ps j l qs
parting k i ps j l qs h = elim (Bool-cases (text_eq j k)) [
  | inl e ↦ Parting-at k i ps j l qs ((text_eq_iff j k).0 e) (ground (arith, h, e))
  | inr e ↦ other_keys e
]

-- A frame for one path, where the node is given by an equation.
abbrev Kept : List (Option Segment) → Json → Json → Type 0
Kept qs node node' = get_at qs node' ≡ get_at qs node

assign_in-kept :
    (k j : Text) (l : Option ℕ) (qs : List (Option Segment)) (value node node' : Json)
    → text_eq j k ≡ false
    → assign_in k value node ≡ ok node'
    → Kept (some (j, l) ∷ qs) node node'
unfolding step
assign_in-kept k j l qs value (obj fs) node' apart_keys h =
    let (w, checked, same) =
      bind-ok (coerce_correction_value k value) (λ v. ok (obj (put_key k v fs))) h in
    subst (Kept (some (j, l) ∷ qs) (obj fs)) (ok_injective (obj (put_key k w fs)) node' same) (
      read_same (some (j, l)) qs (obj fs) (obj (put_key k w fs))
        (rw (member_other j k w fs apart_keys)))
assign_in-kept k j l qs value null node' a h = cc
assign_in-kept k j l qs value (bool b) node' a h = cc
assign_in-kept k j l qs value (num t) node' a h = cc
assign_in-kept k j l qs value (str t) node' a h = cc
assign_in-kept k j l qs value (arr xs) node' a h = cc

index_kept :
    (k j : Text) (i l : Option ℕ) (a b : ℕ) (child node : Json)
    → j ≡ k
    → i ≡ some a
    → l ≡ some b
    → (a == b) ≡ false
    → step (some (j, l)) (replace_child (k, i) child node) ≡ step (some (j, l)) node
index_kept k j i l a b child node p q r h = rw (p, q, r) (other_index k a b child node h)

-- One more segment in front of paths that go on together.
together :
    (s : Segment) (t : Option Segment) (ps qs : List (Option Segment)) (child child' node : Json)
    → step (some s) node ≡ ok child
    → Kept qs child child'
    → Kept (some s ∷ qs) node (replace_child s child' node)
together s t ps qs child child' node found kept =
    read_step (some s) qs (replace_child s child' node) child'
      (step-replace_child s node child child' found)
    ∙ kept
    ∙ sym (read_step (some s) qs node child found)

set_at-kept :
    (ps qs : List (Option Segment)) (value node node' : Json)
    → set_at ps value node ≡ ok node'
    → apart ps qs ≡ true
    → Kept qs node node'
unfolding assign_leaf set_at
set_at-kept [] qs value node node' h away = cc
set_at-kept (none ∷ ps) qs value node node' h away = cc
set_at-kept (some (k, i) ∷ ps) [] value node node' h away = cc
set_at-kept (some (k, i) ∷ ps) (none ∷ qs) value node node' h away = cc
set_at-kept (some (k, some i) ∷ []) (some (j, l) ∷ qs) value node node' h away =
    absurd (no_leaf k i value node node' h)
set_at-kept (some (k, none) ∷ []) (some (j, l) ∷ qs) value node node' h away =
    elim (parting k none [] j l qs away) [
      | other_keys e ↦ assign_in-kept k j l qs value node node' e h
      | other_indices a b p q r e ↦ cc
      | later p q e ↦ cc
    ]
set_at-kept (some (k, i) ∷ t ∷ ps) (some (j, l) ∷ qs) value node node' h away =
    let (child, child', found, written, same) = set_at-below (k, i) t ps value node node' h in
    subst (Kept (some (j, l) ∷ qs) node) same (elim (parting k i (t ∷ ps) j l qs away) [
      | other_keys e ↦
          read_same (some (j, l)) qs node (replace_child (k, i) child' node)
            (other_key k j i l child' node e)
      | other_indices a b p q r e ↦
          read_same (some (j, l)) qs node (replace_child (k, i) child' node)
            (index_kept k j i l a b child' node p q r e)
      | later p q e ↦
          rw (p, q)
            (together (k, i) t ps qs child child' node found
              (set_at-kept (t ∷ ps) qs value child child' written e))
    ])

-- An assignment changes nothing at a path that parts from its own, by a key or by an index.
pub set_field_value-kept :
    (candidate candidate' : Fields) (path other : Text) (value : Json)
    → set_field_value candidate path value ≡ ok candidate'
    → apart (path_segments path) (path_segments other) ≡ true
    → get_field_value candidate' other ≡ get_field_value candidate other
unfolding get_field_value
set_field_value-kept candidate candidate' path other value h away =
    set_at-kept (path_segments path) (path_segments other) value (obj candidate) (obj candidate')
      (set_field_value-ok candidate candidate' path value h) away
