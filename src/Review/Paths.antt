-- ===== src/Review/Paths.antt =====
-- app/review/candidate_ops.py: `get_field_value` and `set_field_value`, which read and assign a field of
-- a candidate by a dotted path such as `lines[0].quantity`. The candidate is a tree of its own, a deep
-- copy, so assignment in place is the tree that comes back.
pub mod Laws
pub mod Frame
use recon_ai.Prelude.{
  ℕ, suc, Bool, true, false, not, ◌&&◌, ◌||◌, Option, none, some, List, [], ◌∷◌, ◌++◌,
  if◌then◌else◌, map, all, is_empty, leb, ◌==◌,
}
use recon_ai.Prelude.Text.{Text, codes, text_eq}
use recon_ai.Prelude.Json.{Json, arr, obj, Items, Fields, get_key, put_key, get_item, put_item}
use recon_ai.Prelude.Check.{Check, ok, err, ◌>>=◌}
use recon_ai.Review.Numbers.{is_digit, digits_value, prefix_of, rest_of}
use recon_ai.Review.Coercion.{
  CandidatePathError, invalid_segment, path_not_found, index_out_of_range, assigned_container,
  parent_not_object, coerce_correction_value,
}

-- A segment that `_PATH_SEGMENT` matches: its key and index.
abbrev pub Segment : Type 0
Segment = Text × Option ℕ

abbrev is_name_start : ℕ → Bool
is_name_start c = leb b'a' c && leb c b'z' || leb b'A' c && leb c b'Z' || c == b'_'

abbrev is_name_char : ℕ → Bool
is_name_char c = is_name_start c || is_digit c

-- What `$` matches: the end, also before a last newline.
abbrev at_end : Text → Bool
at_end [] = true
at_end (c ∷ s) = c == 10 && is_empty s

abbrev with_index : Text → Text → Text → Option Segment
with_index key digits [] = none
with_index key digits (c ∷ s) =
    if c == b']' && not (is_empty digits) && at_end s
    then some (key, some (digits_value 0 digits))
    else none

abbrev after_name : Text → Text → Option Segment
after_name key [] = some (key, none)
after_name key (c ∷ s) =
    if c == b'['
    then with_index key (prefix_of is_digit s) (rest_of is_digit s)
    else if at_end (c ∷ s)
    then some (key, none)
    else none

-- `_PATH_SEGMENT.match(segment)`
unfoldable pub parse_segment : Text → Option Segment
unfolding prefix_of rest_of digits_value
parse_segment [] = none
parse_segment (c ∷ s) =
    if is_name_start c
    then after_name (c ∷ prefix_of is_name_char s) (rest_of is_name_char s)
    else none

-- `text.split(".")`, with the segment that has begun.
abbrev push_char : ℕ → List Text → List Text
push_char c [] = (c ∷ []) ∷ []
push_char c (s ∷ ss) = (c ∷ s) ∷ ss

unfoldable pub split_dots : Text → List Text
split_dots [] = [] ∷ []
split_dots (c ∷ s) = let rest = split_dots s in if c == b'.' then [] ∷ rest else push_char c rest

unfoldable pub path_segments : Text → List (Option Segment)
unfolding parse_segment split_dots
path_segments path = map parse_segment (split_dots path)

abbrev pub or_raise : {E A : Type 0} → E → Option A → Check E A
or_raise e none = err e
or_raise e (some a) = ok a

-- `node[key]`, for a dictionary that has the key.
abbrev pub member : Text → Json → Check CandidatePathError Json
member key (obj fs) = or_raise path_not_found (get_key key fs)
member key _ = err path_not_found

-- `node[idx]`, for a list that is long enough.
abbrev pub element : ℕ → Json → Check CandidatePathError Json
element i (arr xs) = or_raise index_out_of_range (get_item i xs)
element i _ = err index_out_of_range

abbrev pub indexed : Option ℕ → Json → Check CandidatePathError Json
indexed none node = ok node
indexed (some i) node = element i node

-- One round of the loop over the segments.
unfoldable pub step : Option Segment → Json → Check CandidatePathError Json
step none node = err invalid_segment
step (some (key, index)) node = member key node >>= indexed index

unfoldable pub get_at : List (Option Segment) → Json → Check CandidatePathError Json
get_at [] node = ok node
get_at (s ∷ segments) node = step s node >>= get_at segments

unfoldable pub get_field_value : Fields → Text → Check CandidatePathError Json
get_field_value candidate path = get_at (path_segments path) (obj candidate)

-- The node with the child that `step` finds in it replaced.
abbrev pub replace_item : ℕ → Json → Json → Json
replace_item i child (arr xs) = arr (put_item i child xs)
replace_item i child node = node

abbrev pub replace_indexed : Option ℕ → Json → Json → Json
replace_indexed none child old = child
replace_indexed (some i) child old = replace_item i child old

abbrev pub replace_member : Text → Option ℕ → Json → Fields → Option Json → Json
replace_member key index child fs none = obj fs
replace_member key index child fs (some old) =
    obj (put_key key (replace_indexed index child old) fs)

abbrev pub replace_child : Segment → Json → Json → Json
replace_child (key, index) child (obj fs) = replace_member key index child fs (get_key key fs)
replace_child (key, index) child node = node

-- The last segment: a list's element is not assigned to.
abbrev pub assign_in : Text → Json → Json → Check CandidatePathError Json
assign_in key value (obj fs) = do
  coerced ← coerce_correction_value key value
  ok (obj (put_key key coerced fs))
assign_in key value _ = err parent_not_object

unfoldable pub assign_leaf : Option Segment → Json → Json → Check CandidatePathError Json
assign_leaf none value node = err invalid_segment
assign_leaf (some (key, none)) value node = assign_in key value node
assign_leaf (some (key, some i)) value node =
    member key node >>= λ seq. element i seq >>= λ x. err assigned_container

unfoldable pub set_at : List (Option Segment) → Json → Json → Check CandidatePathError Json
set_at [] value node = err invalid_segment
set_at (s ∷ []) value node = assign_leaf s value node
set_at (none ∷ t ∷ segments) value node = err invalid_segment
set_at (some s ∷ t ∷ segments) value node = do
  child ← step (some s) node
  child' ← set_at (t ∷ segments) value child
  ok (replace_child s child' node)

abbrev pub fields_of : Json → Check CandidatePathError Fields
fields_of (obj fs) = ok fs
fields_of _ = err parent_not_object

-- The candidate as the assignment leaves it.
unfoldable pub set_field_value : Fields → Text → Json → Check CandidatePathError Fields
set_field_value candidate path value =
    set_at (path_segments path) value (obj candidate) >>= fields_of
