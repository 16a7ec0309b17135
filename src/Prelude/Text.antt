-- ===== src/Prelude/Text.antt =====
-- Text as a list of code points: equality, decimal and hexadecimal rendering, joining, and the
-- order by which Python sorts strings.
use recon_ai.Prelude.{
  ℕ, zero, suc, ◌+◌, ◌/◌, ◌%◌, ◌^◌, ◌≡◌, refl, ◌↔◌, Bool, true, false, ◌&&◌, List, [], ◌∷◌, ◌++◌,
  arith, ltb, ◌==◌, if◌then◌else◌, leb, ◌||◌, is_empty,
}
use Prim.Native.Char.{code}
use Prim.Native.String.{String}

abbrev pub Text : Type 0
Text = List ℕ

-- The code points of a literal.
abbrev pub codes : String → Text
codes String.[] = []
codes (String.◌∷◌ c s) = code c ∷ codes s

unfoldable pub text_eq : Text → Text → Bool
text_eq [] [] = true
text_eq (a ∷ s) (b ∷ t) = a == b && text_eq s t
text_eq _ _ = false

pub text_eq_iff : (s t : Text) → (text_eq s t ≡ true) ↔ (s ≡ t)
unfolding text_eq
text_eq_iff [] [] = (λ _. refl, λ _. refl)
text_eq_iff [] (b ∷ t) = (λ h. cc, λ h. cc)
text_eq_iff (a ∷ s) [] = (λ h. cc, λ h. cc)
text_eq_iff (a ∷ s) (b ∷ t) =
    let ih = text_eq_iff s t in (λ h. ground (arith, ih), λ h. ground (arith, ih))

-- Python's order of strings: by code points, a prefix first.
unfoldable pub text_leb : Text → Text → Bool
text_leb [] t = true
text_leb (a ∷ s) [] = false
text_leb (a ∷ s) (b ∷ t) = let rest = text_leb s t in if a == b then rest else ltb a b

unfoldable pub insert_sorted : Text → List Text → List Text
unfolding text_leb
insert_sorted s [] = s ∷ []
insert_sorted s (t ∷ ts) =
    let rest = insert_sorted s ts in if text_leb s t then s ∷ t ∷ ts else t ∷ rest

-- Python's `sorted` on strings.
unfoldable pub sorted : List Text → List Text
unfolding insert_sorted
sorted [] = []
sorted (s ∷ ts) = insert_sorted s (sorted ts)

-- `sep.join(parts)`
unfoldable pub join : Text → List Text → Text
join sep [] = []
join sep (s ∷ []) = s
join sep (s ∷ t ∷ ts) = s ++ (sep ++ join sep (t ∷ ts))

-- The decimal digits, most significant first; one round divides by ten, so `n + 1` rounds are enough.
unfoldable pub digits_from : ℕ → ℕ → Text → Text
digits_from zero n acc = acc
digits_from (suc f) n acc =
    let acc' = (b'0' + n % 10) ∷ acc in
    elim (n / 10 == 0) [ true ↦ acc' | false ↦ digits_from f (n / 10) acc' ]

-- `str` of a number
unfoldable pub str_int : ℕ → Text
unfolding digits_from
str_int n = digits_from (suc n) n []

abbrev hex_digit : ℕ → ℕ
hex_digit d = if ltb d 10 then b'0' + d else 87 + d

-- The last `k` hexadecimal digits of `n` in front of `acc`.
unfoldable pub hex_from : ℕ → ℕ → Text → Text
hex_from zero n acc = acc
hex_from (suc k) n acc = hex_from k (n / 16) (hex_digit (n % 16) ∷ acc)

-- `str` of a UUID, a number of 128 bits: its hexadecimal digits in groups of 8, 4, 4, 4 and 12.
unfoldable pub str_uuid : ℕ → Text
unfolding hex_from
str_uuid n =
    hex_from 8 (n / 2 ^ 96) []
    ++ (b'-' ∷ hex_from 4 (n / 2 ^ 80) []
        ++ (b'-' ∷ hex_from 4 (n / 2 ^ 64) []
            ++ (b'-' ∷ hex_from 4 (n / 2 ^ 48) [] ++ (b'-' ∷ hex_from 12 n []))))

-- `str.isspace` on ASCII, which is also `\s`.
unfoldable pub is_space : ℕ → Bool
is_space c = leb 9 c && leb c 13 || leb 28 c && leb c 32

unfoldable pub lstrip : (ℕ → Bool) → Text → Text
lstrip p [] = []
lstrip p (c ∷ s) = if p c then lstrip p s else c ∷ s

unfoldable pub rstrip : (ℕ → Bool) → Text → Text
rstrip p [] = []
rstrip p (c ∷ s) = let rest = rstrip p s in if is_empty rest && p c then [] else c ∷ rest

unfoldable pub strip : (ℕ → Bool) → Text → Text
unfolding lstrip rstrip
strip p s = rstrip p (lstrip p s)
