-- ===== src/Prelude/Strip.antt =====
-- Texts that are stripped, for a test of what is stripped.
use recon_ai.Prelude.{
  ℕ, suc, Bool, true, false, ◌&&◌, if◌then◌else◌, [], ◌∷◌, ◌≡◌, refl, ap, ◌∙◌, inl, inr, is_empty,
  length, ◌≤◌, Bool-cases, arith,
}
use recon_ai.Prelude.Text.{Text, lstrip, rstrip, strip}

-- Stripping twice is stripping once, and it never lengthens.
module _ (p : ℕ → Bool) where
  abbrev pub StartsClear : Text → Type 0
  StartsClear [] = Unit
  StartsClear (c ∷ s) = p c ≡ false

  pub lstrip-StartsClear : (s : Text) → StartsClear (lstrip p s)
  unfolding lstrip
  lstrip-StartsClear [] = tt
  lstrip-StartsClear (c ∷ s) = elim (Bool-cases (p c)) [
    | inl e ↦ rw e (lstrip-StartsClear s)
    | inr e ↦ rw e e
  ]

  pub rstrip-StartsClear : (s : Text) → StartsClear s → StartsClear (rstrip p s)
  unfolding rstrip
  rstrip-StartsClear [] h = tt
  rstrip-StartsClear (c ∷ s) h = kept (is_empty (rstrip p s))
    where
      kept : (b : Bool) → StartsClear (if b && p c then [] else c ∷ rstrip p s)
      kept true = rw h h
      kept false = h

  pub lstrip-clear : (s : Text) → StartsClear s → lstrip p s ≡ s
  unfolding lstrip
  lstrip-clear [] h = refl
  lstrip-clear (c ∷ s) h = rw h

  rstrip-again : (s : Text) → rstrip p (rstrip p s) ≡ rstrip p s
  unfolding rstrip
  rstrip-again [] = refl
  rstrip-again (c ∷ s) = kept (rstrip-again s) (is_empty (rstrip p s) && p c) refl
    where
      kept :
          rstrip p (rstrip p s) ≡ rstrip p s
          → (b : Bool) → (is_empty (rstrip p s) && p c) ≡ b
          → rstrip p (if b then [] else c ∷ rstrip p s) ≡ (if b then [] else c ∷ rstrip p s)
      kept ih true e = refl
      kept ih false e = rw (ih, e)

  pub strip-again : (s : Text) → strip p (strip p s) ≡ strip p s
  unfolding strip
  strip-again s =
      ap (rstrip p) (
        lstrip-clear (rstrip p (lstrip p s))
          (rstrip-StartsClear (lstrip p s) (lstrip-StartsClear s)))
      ∙ rstrip-again (lstrip p s)

  length-lstrip : (s : Text) → length (lstrip p s) ≤ length s
  unfolding lstrip
  length-lstrip [] = omega arith
  length-lstrip (c ∷ s) =
      let ih = length-lstrip s in
      elim (Bool-cases (p c)) [ inl e ↦ rw e (omega arith) | inr e ↦ rw e (omega arith) ]

  length-rstrip : (s : Text) → length (rstrip p s) ≤ length s
  unfolding rstrip
  length-rstrip [] = omega arith
  length-rstrip (c ∷ s) = kept (is_empty (rstrip p s) && p c) (length-rstrip s)
    where
      kept :
          (b : Bool)
          → length (rstrip p s) ≤ length s
          → length (if b then [] else c ∷ rstrip p s) ≤ suc (length s)
      kept true ih = omega arith
      kept false ih = omega arith

  pub length-strip : (s : Text) → length (strip p s) ≤ length s
  unfolding strip
  length-strip s = let a = length-rstrip (lstrip p s) in let b = length-lstrip s in omega arith
