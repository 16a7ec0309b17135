-- ===== src/Extraction/Normalizer.antt =====
-- app/extraction/normalizer.py: identifiers and the texts that say that a value is missing. Text is
-- ASCII here, with Python's white space and case folding.
use recon_ai.Prelude.{Bool, true, false, Option, none, some, List, [], ◌∷◌, map, if◌then◌else◌, any}
use recon_ai.Prelude.Text.{Text, codes, text_eq, is_space, strip}
use recon_ai.Reconciliation.Identity.{fold_char}
use Prim.Native.String.{String}

-- `_MULTI_SPACE.sub(" ", s)`; `run` says that a run has begun.
unfoldable pub collapse : Bool → Text → Text
unfolding is_space
collapse run [] = []
collapse run (c ∷ s) =
    let rest = collapse (is_space c) s in
    if is_space c then (if run then rest else b' ' ∷ rest) else c ∷ rest

-- `text or None`
unfoldable pub or_none : Text → Option Text
or_none [] = none
or_none (c ∷ s) = some (c ∷ s)

unfoldable pub normalize_identifier : Option Text → Option Text
unfolding or_none collapse strip is_space
normalize_identifier none = none
normalize_identifier (some value) = or_none (collapse false (strip is_space value))

-- `_MISSING_VALUES`
abbrev pub missing_values : List String
missing_values =
    "not provided" ∷ "not available" ∷ "n/a" ∷ "na" ∷ "none" ∷ "null" ∷ "unknown" ∷ "not specified"
    ∷ "not applicable" ∷ "-" ∷ "--" ∷ []

-- `cleaned.casefold() in _MISSING_VALUES`, and absent text
unfoldable pub says_missing : Option Text → Bool
unfolding text_eq fold_char
says_missing none = true
says_missing (some cleaned) =
    let folded = map fold_char cleaned in any (λ w. text_eq folded (codes w)) missing_values

unfoldable pub is_missing_value : Option Text → Bool
unfolding says_missing normalize_identifier
is_missing_value value = says_missing (normalize_identifier value)

unfoldable pub normalize_business_value : Option Text → Option Text
unfolding is_missing_value normalize_identifier
normalize_business_value value = if is_missing_value value then none else normalize_identifier value
