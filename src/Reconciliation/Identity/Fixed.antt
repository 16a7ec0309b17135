-- ===== src/Reconciliation/Identity/Fixed.antt =====
-- A text in normal form is left as it is by each step of `normalize_invoice_number`.
use recon_ai.Prelude.{
  ℕ, Bool, true, false, ◌&&◌, [], ◌∷◌, map, ◌≡◌, refl, ap, ◌∙◌, ==_iff, if◌then◌else◌, is_empty,
  All, arith,
}
use recon_ai.Prelude.Strip.{lstrip-clear}
use recon_ai.Prelude.Text.{Text, is_space, lstrip, rstrip, strip}
use recon_ai.Reconciliation.Identity.{
  fold_char, is_separator, is_dash, squash, normalize_invoice_number,
}
use recon_ai.Reconciliation.Identity.Normal.{
  is_clean, AllClean, SingleDashes, IsNormal, normalize-IsNormal,
}

module _ (p : ℕ → Bool) where
  abbrev NoneOf : Text → Type 0
  NoneOf = All (λ c. p c ≡ false)

  lstrip-none : (t : Text) → NoneOf t → lstrip p t ≡ t
  unfolding lstrip
  lstrip-none [] h = refl
  lstrip-none (c ∷ t) h = rw h.0 refl

  rstrip-none : (t : Text) → NoneOf t → rstrip p t ≡ t
  unfolding rstrip
  rstrip-none [] h = refl
  rstrip-none (c ∷ t) h =
      stays (is_empty (rstrip p t)) (p c) h.0 ∙ ap (λ s. c ∷ s) (rstrip-none t h.1)
    where
      stays : (e b : Bool) → b ≡ false → (if e && b then [] else c ∷ rstrip p t) ≡ c ∷ rstrip p t
      stays true true h = cc
      stays true false h = refl
      stays false b h = refl

  strip-none : (t : Text) → NoneOf t → strip p t ≡ t
  unfolding strip
  strip-none t h = ap (rstrip p) (lstrip-none t h) ∙ rstrip-none t h

  squash-none : (run : Bool) (t : Text) → NoneOf t → squash p run t ≡ t
  unfolding squash
  squash-none run [] h = refl
  squash-none run (c ∷ t) h = rw h.0 (ap (λ s. c ∷ s) (squash-none false t h.1))

clean-parts :
    (c : ℕ)
    → is_clean c ≡ true
    → (is_space c ≡ false) × (is_separator c ≡ false) × (fold_char c ≡ c)
unfolding is_separator
clean-parts c h =
    (ground (arith, h), ground (arith, h), (==_iff (fold_char c) c).0 (ground (arith, h)))

map-fixed : (t : Text) → AllClean t → map fold_char t ≡ t
map-fixed [] h = refl
map-fixed (c ∷ t) h = rw ((clean-parts c h.0).2, map-fixed t h.1) refl

clean-not_space : (t : Text) → AllClean t → All (λ c. is_space c ≡ false) t
clean-not_space [] h = tt
clean-not_space (c ∷ t) h = ((clean-parts c h.0).0, clean-not_space t h.1)

clean-not_separator : (t : Text) → AllClean t → All (λ c. is_separator c ≡ false) t
clean-not_separator [] h = tt
clean-not_separator (c ∷ t) h = ((clean-parts c h.0).1, clean-not_separator t h.1)

dash-same : (c : ℕ) → (if is_dash c then b'-' else c) ≡ c
unfolding is_dash
dash-same c = ground arith

squash-single : (run : Bool) (t : Text) → SingleDashes run t → squash is_dash run t ≡ t
unfolding squash
squash-single run [] h = refl
squash-single run (c ∷ t) h = rw h.0 (rw (dash-same c, squash-single (is_dash c) t h.1) refl)

-- Normalising a normalised invoice number changes nothing.
pub normalize_invoice_number-settles :
    (value : Text)
    → normalize_invoice_number (normalize_invoice_number value) ≡ normalize_invoice_number value
unfolding normalize_invoice_number strip
normalize_invoice_number-settles value =
    fixed (normalize_invoice_number value) (normalize-IsNormal value)
  where
    fixed : (t : Text) → IsNormal t → normalize_invoice_number t ≡ t
    fixed t n =
        ap (λ s. strip is_dash (squash is_dash false (squash is_separator false (map fold_char s))))
          (strip-none is_space t (clean-not_space t n.clean))
        ∙ ap (λ s. strip is_dash (squash is_dash false (squash is_separator false s)))
            (map-fixed t n.clean)
        ∙ ap (λ s. strip is_dash (squash is_dash false s))
            (squash-none is_separator false t (clean-not_separator t n.clean))
        ∙ ap (strip is_dash) (squash-single false t n.single)
        ∙ ap (rstrip is_dash) (lstrip-clear is_dash t n.starts_clear)
        ∙ n.ends_clear
