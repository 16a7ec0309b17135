-- ===== src/Review/Coercion.antt =====
-- app/review/candidate_ops.py: `coerce_correction_value`, which checks a corrected value by the name of
-- its field.
use recon_ai.Prelude.{
  ℕ, Bool, true, false, not, ◌&&◌, ◌||◌, Option, none, some, List, [], ◌∷◌, ◌++◌, if◌then◌else◌,
  any, is_empty, length, ltb, ◌==◌,
}
use recon_ai.Prelude.Int.{ℤ, pos, ltb_ℤ}
use recon_ai.Prelude.Text.{Text, codes, text_eq, is_space, strip, hex_from, str_int}
use recon_ai.Prelude.Json.{
  Json, null, bool, num, str, arr, obj, Items, nil, cons, Fields, end, field,
}
use recon_ai.Prelude.Check.{Check, ok, err, ◌>>◌, raise_if}
use recon_ai.Extraction.Normalizer.{normalize_business_value}
use recon_ai.Review.Numbers.{
  Decimal, parse_decimal, decimal_text, below_zero, not_above_zero, int_of_number, int_of_text,
  int_text, iso_date,
}
use Prim.Native.String.{String}

-- `CandidatePathError`, by its message.
pub data CandidatePathError : Type 0 where
  invalid_segment path_not_found index_out_of_range assigned_container parent_not_object not_decimal
        not_positive negative not_date empty_text not_currency not_integer below_one :
      CandidatePathError

abbrev pub among : Text → List String → Bool
among t words = any (λ w. text_eq t (codes w)) words

unfoldable pub is_decimal_field : Text → Bool
unfolding text_eq
is_decimal_field f = among f (
    "quantity" ∷ "unit_price" ∷ "tax_rate" ∷ "subtotal" ∷ "tax_amount" ∷ "total_amount"
    ∷ "received_quantity" ∷ [])

unfoldable pub is_date_field : Text → Bool
unfolding text_eq
is_date_field f = among f ("order_date" ∷ "receipt_date" ∷ "invoice_date" ∷ [])

unfoldable pub is_text_field : Text → Bool
unfolding text_eq
is_text_field f = among f (
    "po_number" ∷ "grn_number" ∷ "invoice_number" ∷ "vendor_name" ∷ "currency" ∷ "description"
    ∷ "reference" ∷ [])

unfoldable pub is_business_field : Text → Bool
unfolding text_eq
is_business_field f = among f ("po_number" ∷ "grn_number" ∷ "invoice_number" ∷ "vendor_name" ∷ [])

-- One character in `repr` of a text that is quoted by `q`.
unfoldable pub repr_char : ℕ → ℕ → Text
unfolding hex_from
repr_char q c =
    if c == q || c == 92
    then 92 ∷ c ∷ []
    else if c == 10
    then codes "\\n"
    else if c == 13
    then codes "\\r"
    else if c == 9
    then codes "\\t"
    else if ltb c 32 || c == 127
    then codes "\\x" ++ hex_from 2 c []
    else c ∷ []

unfoldable pub repr_chars : ℕ → Text → Text
unfolding repr_char
repr_chars q [] = []
repr_chars q (c ∷ s) = repr_char q c ++ repr_chars q s

-- `repr(text)`: in double quotes if it has a single one and no double one.
unfoldable pub repr_text : Text → Text
unfolding repr_chars
repr_text s =
    let q = if any (λ c. c == 39) s && not (any (λ c. c == 34) s) then 34 else 39 in
    q ∷ (repr_chars q s ++ q ∷ [])

abbrev pub bool_text : Bool → Text
bool_text true = codes "True"
bool_text false = codes "False"

abbrev pub comma : Text → Text
comma [] = []
comma (c ∷ s) = codes ", " ++ c ∷ s

unfoldable mutual
  pub repr : Json → Text
  repr null = codes "None"
  repr (bool b) = bool_text b
  repr (num t) = t
  repr (str s) = repr_text s
  repr (arr xs) = b'[' ∷ (repr_items xs ++ b']' ∷ [])
  repr (obj fs) = b'{' ∷ (repr_fields fs ++ b'}' ∷ [])

  pub repr_items : Items → Text
  repr_items nil = []
  repr_items (cons x xs) = repr x ++ comma (repr_items xs)

  pub repr_fields : Fields → Text
  repr_fields end = []
  repr_fields (field k v fs) = repr_text k ++ (codes ": " ++ (repr v ++ comma (repr_fields fs)))

-- `str(value)`
unfoldable pub py_str : Json → Text
unfolding repr repr_text
py_str (str s) = s
py_str value = repr value

unfoldable pub check_decimal : Text → Option Decimal → Check CandidatePathError Json
unfolding text_eq not_above_zero below_zero decimal_text
check_decimal f none = err not_decimal
check_decimal f (some d) = do
  raise_if (among f ("quantity" ∷ "received_quantity" ∷ []) && not_above_zero d) not_positive
  raise_if
      (among f ("unit_price" ∷ "subtotal" ∷ "tax_amount" ∷ "total_amount" ∷ []) && below_zero d)
      negative
  raise_if (text_eq f (codes "tax_rate") && below_zero d) negative
  ok (str (decimal_text d))

unfoldable pub check_date : Option Text → Check CandidatePathError Json
check_date none = err not_date
check_date (some t) = ok (str t)

abbrev pub or_empty : Option Text → Text
or_empty none = []
or_empty (some t) = t

-- `text`, after `normalize_business_value` for the identifying fields.
unfoldable pub cleaned : Text → Text → Text
unfolding is_business_field normalize_business_value
cleaned f text =
    if is_business_field f then or_empty (normalize_business_value (some text)) else text

unfoldable pub check_text : Text → Text → Check CandidatePathError Json
unfolding text_eq
check_text f text = do
  raise_if (is_empty text) empty_text
  raise_if (text_eq f (codes "currency") && not (length text == 3)) not_currency
  ok (str text)

unfoldable pub check_number : Option ℤ → Check CandidatePathError Json
unfolding str_int
check_number none = err not_integer
check_number (some n) = do raise_if (ltb_ℤ n (pos 1)) below_one; ok (num (int_text n))

-- `int(value)`, none where it raises.
unfoldable pub py_int : Json → Option ℤ
unfolding int_of_number int_of_text
py_int (bool true) = some (pos 1)
py_int (bool false) = some (pos 0)
py_int (num t) = int_of_number t
py_int (str s) = int_of_text s
py_int _ = none

unfoldable pub coerce_present : Text → Json → Check CandidatePathError Json
unfolding is_decimal_field is_date_field is_text_field check_decimal parse_decimal py_str check_date
    iso_date strip is_space check_text cleaned check_number py_int text_eq
coerce_present f value =
    if is_decimal_field f
    then check_decimal f (parse_decimal (py_str value))
    else if is_date_field f
    then check_date (iso_date (strip is_space (py_str value)))
    else if is_text_field f
    then check_text f (cleaned f (strip is_space (py_str value)))
    else if text_eq f (codes "line_number")
    then check_number (py_int value)
    else ok value

unfoldable pub coerce_correction_value : Text → Json → Check CandidatePathError Json
unfolding coerce_present
coerce_correction_value f null = ok null
coerce_correction_value f value = coerce_present f value
