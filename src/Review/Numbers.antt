-- ===== src/Review/Numbers.antt =====
-- The conversions of Python's library that app/review/candidate_ops.py calls on a corrected value:
-- `Decimal(text)` and `str` of it, `int(value)`, and `date.fromisoformat`. The special values NaN and
-- Infinity, the ISO week dates and underscores between the digits of an `int` are not modelled: such
-- texts count as malformed.
use recon_ai.Prelude.{
  ℕ, zero, suc, ◌+◌, ◌-◌, ◌*◌, ◌/◌, ◌%◌, ◌^◌, Bool, true, false, not, ◌&&◌, ◌||◌, Option, none,
  some, [], ◌∷◌, ◌++◌, if◌then◌else◌, all, filter, is_empty, length, ltb, leb, ◌==◌,
}
use recon_ai.Prelude.Int.{ℤ, pos, negsuc, ◌+ℤ◌, ◌-ℤ◌}
use recon_ai.Prelude.Text.{Text, codes, str_int, is_space, strip}

-- A finite `Decimal`: its coefficient times a power of ten, with a sign that zero has too.
pub record Decimal : Type 0 where
  pub negative : Bool
  pub coefficient : ℕ
  pub exponent : ℤ

abbrev pub is_digit : ℕ → Bool
is_digit c = leb b'0' c && leb c b'9'

unfoldable pub digits_value : ℕ → Text → ℕ
digits_value acc [] = acc
digits_value acc (c ∷ s) = digits_value (acc * 10 + (c - b'0')) s

-- The longest prefix whose characters satisfy `p`, and the rest.
unfoldable pub prefix_of : (ℕ → Bool) → Text → Text
prefix_of p [] = []
prefix_of p (c ∷ s) = let rest = prefix_of p s in if p c then c ∷ rest else []

unfoldable pub rest_of : (ℕ → Bool) → Text → Text
rest_of p [] = []
rest_of p (c ∷ s) = if p c then rest_of p s else c ∷ s

abbrev pub sign_of : Text → Bool
sign_of [] = false
sign_of (c ∷ s) = c == b'-'

abbrev pub unsigned : Text → Text
unsigned [] = []
unsigned (c ∷ s) = if c == b'-' || c == b'+' then s else c ∷ s

-- -n for a natural number.
abbrev pub negate : Bool → ℕ → ℤ
negate true n = pos 0 -ℤ pos n
negate false n = pos n

-- A sign and digits.
unfoldable pub parse_signed : Text → Option ℤ
unfolding digits_value
parse_signed s =
    let digits = unsigned s in
    if not (is_empty digits) && all is_digit digits
    then some (negate (sign_of s) (digits_value 0 digits))
    else none

-- An exponent at the end, or nothing.
unfoldable pub parse_exponent : Text → Option ℤ
parse_exponent [] = some (pos 0)
parse_exponent (c ∷ s) = if c == b'e' || c == b'E' then parse_signed s else none

abbrev pub after_point : Text → Text
after_point [] = []
after_point (c ∷ s) = if c == b'.' then s else []

abbrev pub has_point : Text → Bool
has_point [] = false
has_point (c ∷ s) = c == b'.'

unfoldable pub decimal_of : Bool → Text → ℕ → Option ℤ → Option Decimal
decimal_of negative digits places none = none
decimal_of negative digits places (some e) =
    if is_empty digits
    then none
    else some (record {
      negative = negative;
      coefficient = digits_value 0 digits;
      exponent = e -ℤ pos places;
    })

-- `Decimal(text)`, none where it raises.
unfoldable pub parse_decimal : Text → Option Decimal
unfolding strip is_space prefix_of rest_of decimal_of parse_exponent parse_signed digits_value
parse_decimal text =
    let s = filter (λ c. not (c == b'_')) (strip is_space text) in
    let whole = prefix_of is_digit (unsigned s) in
    let rest = rest_of is_digit (unsigned s) in
    let fraction = prefix_of is_digit (after_point rest) in
    let end = if has_point rest then rest_of is_digit (after_point rest) else rest in
    decimal_of (sign_of s) (whole ++ fraction) (length fraction) (parse_exponent end)

abbrev pub is_zero : Decimal → Bool
is_zero d = d.coefficient == 0

-- `d < 0` and `d <= 0`
unfoldable pub below_zero : Decimal → Bool
below_zero d = d.negative && not (is_zero d)

unfoldable pub not_above_zero : Decimal → Bool
unfolding below_zero
not_above_zero d = d.negative || is_zero d

unfoldable pub zeros : ℕ → Text
zeros zero = []
zeros (suc n) = b'0' ∷ zeros n

-- The text with a point `places` digits before its end.
unfoldable pub with_point : Text → ℕ → Text
with_point [] places = []
with_point (c ∷ s) places = if length s == places then c ∷ b'.' ∷ s else c ∷ with_point s places

unfoldable pub plain_text : Text → ℕ → Text
plain_text digits places =
    if ltb places (length digits)
    then with_point digits places
    else codes "0." ++ (zeros (places - length digits) ++ digits)

abbrev pub point_after_first : Text → Text
point_after_first [] = []
point_after_first (c ∷ []) = c ∷ []
point_after_first (c ∷ d ∷ s) = c ∷ b'.' ∷ d ∷ s

-- `"%+d"`
abbrev pub signed_text : ℤ → Text
signed_text (pos n) = b'+' ∷ str_int n
signed_text (negsuc n) = b'-' ∷ str_int (suc n)

unfoldable pub scientific_text : Text → ℤ → Text
scientific_text digits e =
    point_after_first digits ++ (b'E' ∷ signed_text (e +ℤ pos (length digits) -ℤ pos 1))

unfoldable pub unsigned_text : Text → ℤ → Text
unsigned_text digits (pos zero) = digits
unsigned_text digits (pos (suc n)) = scientific_text digits (pos (suc n))
unsigned_text digits (negsuc n) =
    if ltb (suc n) (length digits + 6)
    then plain_text digits (suc n)
    else scientific_text digits (negsuc n)

-- `str(decimal)`
unfoldable pub decimal_text : Decimal → Text
unfolding str_int zeros with_point plain_text scientific_text unsigned_text ◌+ℤ◌ ◌-ℤ◌
decimal_text d =
    let body = unsigned_text (str_int d.coefficient) d.exponent in
    if d.negative then b'-' ∷ body else body

unfoldable pub scaled : ℕ → ℤ → ℕ
scaled c (pos e) = c * 10 ^ e
scaled c (negsuc e) = c / 10 ^ suc e

unfoldable pub truncated : Option Decimal → Option ℤ
unfolding scaled
truncated none = none
truncated (some d) = some (negate d.negative (scaled d.coefficient d.exponent))

-- `int` of a number that Python prints as `text`: it drops the fraction.
unfoldable pub int_of_number : Text → Option ℤ
unfolding truncated parse_decimal
int_of_number text = truncated (parse_decimal text)

-- `int(text)`
unfoldable pub int_of_text : Text → Option ℤ
unfolding parse_signed strip is_space
int_of_text text = parse_signed (strip is_space text)

abbrev pub int_text : ℤ → Text
int_text (pos n) = str_int n
int_text (negsuc n) = b'-' ∷ str_int (suc n)

abbrev pub is_leap : ℕ → Bool
is_leap y = y % 4 == 0 && (not (y % 100 == 0) || y % 400 == 0)

abbrev pub days_in_month : ℕ → ℕ → ℕ
days_in_month y m =
    if m == 2
    then (if is_leap y then 29 else 28)
    else if m == 4 || m == 6 || m == 9 || m == 11
    then 30
    else 31

-- The eight digits of a date, as `isoformat` writes them.
abbrev pub date_text : Text → Option Text
date_text (a ∷ b ∷ c ∷ d ∷ e ∷ f ∷ g ∷ h ∷ []) =
    let y = digits_value 0 (a ∷ b ∷ c ∷ d ∷ []) in
    let m = digits_value 0 (e ∷ f ∷ []) in
    let day = digits_value 0 (g ∷ h ∷ []) in
    if all is_digit (a ∷ b ∷ c ∷ d ∷ e ∷ f ∷ g ∷ h ∷ [])
      && leb 1 y
      && leb 1 m
      && leb m 12
      && leb 1 day
      && leb day (days_in_month y m)
    then some (a ∷ b ∷ c ∷ d ∷ b'-' ∷ e ∷ f ∷ b'-' ∷ g ∷ h ∷ [])
    else none
date_text _ = none

abbrev pub without_dashes : Text → Text
without_dashes (a ∷ b ∷ c ∷ d ∷ x ∷ e ∷ f ∷ y ∷ g ∷ h ∷ []) =
    if x == b'-' && y == b'-' then a ∷ b ∷ c ∷ d ∷ e ∷ f ∷ g ∷ h ∷ [] else []
without_dashes s = s

-- `date.fromisoformat(text).isoformat()`: YYYY-MM-DD or YYYYMMDD.
unfoldable pub iso_date : Text → Option Text
unfolding digits_value
iso_date text = date_text (without_dashes text)
