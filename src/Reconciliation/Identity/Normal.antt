-- ===== src/Reconciliation/Identity/Normal.antt =====
-- `normalize_invoice_number` reaches a normal form: a number that has been normalised stays as it is.
use recon_ai.Prelude.{
  ℕ, Bool, true, false, not, ◌&&◌, List, [], ◌∷◌, map, ◌≡◌, refl, sym, ap, subst, ◌∙◌, ◌==◌,
  if◌then◌else◌, is_empty, All, Bool-cases, inl, inr, arith,
}
use recon_ai.Prelude.Strip.{StartsClear, lstrip-StartsClear, rstrip-StartsClear}
use recon_ai.Prelude.Text.{Text, is_space, lstrip, rstrip, strip}
use recon_ai.Reconciliation.Identity.{
  fold_char, is_separator, is_dash, squash, normalize_invoice_number,
}

-- A character that the normalisation leaves as it is: neither a capital, white space nor `_`.
abbrev pub is_clean : ℕ → Bool
is_clean c = not (is_separator c) && fold_char c == c

abbrev pub AllClean : Text → Type 0
AllClean = All (λ c. is_clean c ≡ true)

abbrev AllFolded : Text → Type 0
AllFolded = All (λ c. (fold_char c == c) ≡ true)

-- No dash follows a dash; `run` says that one stands before.
abbrev pub SingleDashes : Bool → Text → Type 0
SingleDashes run [] = Unit
SingleDashes run (c ∷ t) = ((is_dash c && run) ≡ false) × SingleDashes (is_dash c) t

fold_char-folded : (c : ℕ) → (fold_char (fold_char c) == fold_char c) ≡ true
unfolding fold_char
fold_char-folded c = ground arith

map-AllFolded : (t : Text) → AllFolded (map fold_char t)
map-AllFolded [] = tt
map-AllFolded (c ∷ t) = (fold_char-folded c, map-AllFolded t)

dash-clean : is_clean b'-' ≡ true
unfolding is_separator is_space fold_char
dash-clean = refl

-- What replaces a character of a text in `squash`.
either-clean :
    (p : ℕ → Bool) (c : ℕ)
    → (p c ≡ false → is_clean c ≡ true)
    → is_clean (if p c then b'-' else c) ≡ true
either-clean p c h = elim (Bool-cases (p c)) [ inl e ↦ rw e dash-clean | inr e ↦ rw e (h e) ]

if-All :
    {A : Type 0} (P : A → Type 0) (b : Bool) (c : A) (t : List A)
    → P c
    → All P t
    → All P (if b then t else c ∷ t)
if-All P true c t hc ht = ht
if-All P false c t hc ht = (hc, ht)

squash-AllClean :
    (p : ℕ → Bool) (run : Bool) (t : Text)
    → All (λ c. p c ≡ false → is_clean c ≡ true) t
    → AllClean (squash p run t)
unfolding squash
squash-AllClean p run [] h = tt
squash-AllClean p run (c ∷ t) h =
    if-All (λ c. is_clean c ≡ true) (p c && run) _ (squash p (p c) t) (either-clean p c h.0)
      (squash-AllClean p (p c) t h.1)

folded-separated :
    (t : Text) → AllFolded t → All (λ c. is_separator c ≡ false → is_clean c ≡ true) t
folded-separated [] h = tt
folded-separated (c ∷ t) h =
    ((λ e. let folded = h.0 in ground (arith, e, folded)), folded-separated t h.1)

clean-dashed : (t : Text) → AllClean t → All (λ c. is_dash c ≡ false → is_clean c ≡ true) t
clean-dashed [] h = tt
clean-dashed (c ∷ t) h = ((λ e. h.0), clean-dashed t h.1)

is_dash-either : (c : ℕ) → is_dash (if is_dash c then b'-' else c) ≡ is_dash c
unfolding is_dash
is_dash-either c = ground arith

squash-SingleDashes : (run : Bool) (t : Text) → SingleDashes run (squash is_dash run t)
unfolding squash
squash-SingleDashes run [] = tt
squash-SingleDashes run (c ∷ t) = elim (Bool-cases (is_dash c && run)) [
  | inl e ↦
      let dash : is_dash c ≡ true = ground (arith, e) in
      let ran : run ≡ true = ground (arith, e) in
      rw e (
        subst (λ b. SingleDashes b (squash is_dash (is_dash c) t)) (dash ∙ sym ran)
          (squash-SingleDashes (is_dash c) t))
  | inr e ↦ rw e (
    ap (λ b. b && run) (is_dash-either c) ∙ e,
    subst (λ b. SingleDashes b (squash is_dash (is_dash c) t)) (sym (is_dash-either c))
        (squash-SingleDashes (is_dash c) t),
  )
]

-- The first character is no dash.
weaken : (run : Bool) (t : Text) → SingleDashes run t → SingleDashes false t
weaken run [] h = tt
weaken run (c ∷ t) h = (right-false (is_dash c), h.1)
  where
    right-false : (b : Bool) → (b && false) ≡ false
    right-false true = refl
    right-false false = refl

lstrip-AllClean : (t : Text) → AllClean t → AllClean (lstrip is_dash t)
unfolding lstrip
lstrip-AllClean [] h = tt
lstrip-AllClean (c ∷ t) h = elim (Bool-cases (is_dash c)) [
  | inl e ↦ rw e (lstrip-AllClean t h.1)
  | inr e ↦ rw e h
]

lstrip-SingleDashes : (t : Text) → SingleDashes false t → SingleDashes false (lstrip is_dash t)
unfolding lstrip
lstrip-SingleDashes [] h = tt
lstrip-SingleDashes (c ∷ t) h = elim (Bool-cases (is_dash c)) [
  | inl e ↦ rw e (lstrip-SingleDashes t (weaken (is_dash c) t h.1))
  | inr e ↦ rw e h
]

-- What `rstrip` keeps of the text: all of it, or what it keeps of the rest.
module _ (P : Bool → Text → Type 0) (nil : (run : Bool) → P run [])
    (tail : (run : Bool) (c : ℕ) (t : Text) → P run (c ∷ t) → P (is_dash c) t)
    (cons : (run : Bool) (c : ℕ) (t s : Text)
      → P run (c ∷ t)
      → P (is_dash c) s
      → P run (c ∷ s)) where
  rstrip-keeps : (run : Bool) (t : Text) → P run t → P run (rstrip is_dash t)
  unfolding rstrip
  rstrip-keeps run [] h = h
  rstrip-keeps run (c ∷ t) h =
      let rest = rstrip is_dash t in
      either (is_empty rest && is_dash c) (nil run)
        (cons run c t rest h (rstrip-keeps (is_dash c) t (tail run c t h)))
    where
      either :
          (b : Bool)
          → P run []
          → P run (c ∷ rstrip is_dash t)
          → P run (if b then [] else c ∷ rstrip is_dash t)
      either true hn hc = hn
      either false hn hc = hc

rstrip-SingleDashes : (t : Text) → SingleDashes false t → SingleDashes false (rstrip is_dash t)
rstrip-SingleDashes =
    rstrip-keeps SingleDashes (λ run. tt) (λ run c t h. h.1) (λ run c t s h hs. (h.0, hs)) false

rstrip-AllClean : (t : Text) → AllClean t → AllClean (rstrip is_dash t)
rstrip-AllClean =
    rstrip-keeps (λ run t. AllClean t) (λ run. tt) (λ run c t h. h.1) (λ run c t s h hs. (h.0, hs))
      false

rstrip-settles : (t : Text) → rstrip is_dash (rstrip is_dash t) ≡ rstrip is_dash t
unfolding rstrip
rstrip-settles [] = refl
rstrip-settles (c ∷ t) = elim (Bool-cases (is_empty (rstrip is_dash t) && is_dash c)) [
  | inl e ↦ rw e refl
  | inr e ↦ let ih = rstrip-settles t in rw (e, ih, e) refl
]

-- The normal form.
pub record IsNormal (t : Text) : Type 0 where
  pub clean : AllClean t
  pub single : SingleDashes false t
  pub starts_clear : StartsClear is_dash t
  pub ends_clear : rstrip is_dash t ≡ t

pub normalize-IsNormal : (value : Text) → IsNormal (normalize_invoice_number value)
unfolding normalize_invoice_number strip
normalize-IsNormal value =
    let folded = map fold_char (strip is_space value) in
    let separated = squash is_separator false folded in
    let dashed = squash is_dash false separated in
    let separated_clean =
      squash-AllClean is_separator false folded
        (folded-separated folded (map-AllFolded (strip is_space value))) in
    let dashed_clean =
      squash-AllClean is_dash false separated (clean-dashed separated separated_clean) in
    record {
      clean = rstrip-AllClean (lstrip is_dash dashed) (lstrip-AllClean dashed dashed_clean);
      single =
          rstrip-SingleDashes (lstrip is_dash dashed)
            (lstrip-SingleDashes dashed (squash-SingleDashes false separated));
      starts_clear =
          rstrip-StartsClear is_dash (lstrip is_dash dashed) (lstrip-StartsClear is_dash dashed);
      ends_clear = rstrip-settles (lstrip is_dash dashed);
    }
