-- ===== src/Reconciliation/Identity.antt =====
-- app/reconciliation/rules.py: `normalize_invoice_number` and `build_fingerprint`. Text is ASCII here:
-- `casefold`, `strip` and `\s` are those of Python on ASCII characters.
pub mod Normal
pub mod Fixed
use recon_ai.Prelude.{ℕ, ◌+◌, Bool, false, ◌&&◌, ◌||◌, List, [], ◌∷◌, map, leb, ◌==◌, if◌then◌else◌}
use recon_ai.Prelude.Text.{Text, codes, join, str_int, str_uuid, is_space, strip}
use Prim.Native.String.{String}

unfoldable pub fold_char : ℕ → ℕ
fold_char c = if leb b'A' c && leb c b'Z' then c + 32 else c

-- The class `[\s_]`.
unfoldable pub is_separator : ℕ → Bool
unfolding is_space
is_separator c = is_space c || c == b'_'

unfoldable pub is_dash : ℕ → Bool
is_dash c = c == b'-'

-- `re.sub` of each run of matching characters by one dash; `run` says that one has begun.
unfoldable pub squash : (ℕ → Bool) → Bool → Text → Text
squash p run [] = []
squash p run (c ∷ s) =
    let rest = squash p (p c) s in if p c && run then rest else (if p c then b'-' else c) ∷ rest

unfoldable pub normalize_invoice_number : Text → Text
unfolding is_space fold_char is_separator is_dash squash strip
normalize_invoice_number value =
    let normalized = map fold_char (strip is_space value) in
    strip is_dash (squash is_dash false (squash is_separator false normalized))

-- The parts that fingerprints are built from, and Python's `str` of each.
pub data Part : Type 0 where
  str : String → Part
  text : Text → Part
  uuid : ℕ → Part
  int : ℕ → Part
  null : Part

unfoldable pub str_part : Part → Text
unfolding str_int str_uuid
str_part (Part.str s) = codes s
str_part (Part.text t) = t
str_part (Part.uuid i) = str_uuid i
str_part (Part.int n) = str_int n
str_part Part.null = []

-- `sha256` is hashlib's hexadecimal digest of the text's UTF-8 bytes.
unfoldable pub build_fingerprint : (Text → Text) → List Part → Text
unfolding str_part join
build_fingerprint sha256 parts = sha256 (join (codes "|") (map str_part parts))
