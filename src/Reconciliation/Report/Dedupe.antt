-- ===== src/Reconciliation/Report/Dedupe.antt =====
-- What `_dedupe_drafts` keeps: the first draft of each fingerprint.
use recon_ai.Prelude.{false, ◌&&◌, ◌||◌, not, List, [], ◌∷◌, map, ◌≡◌, refl, ◌↔◌, arith, ap, ◌∙◌}
use recon_ai.Prelude.Text.{Text, text_eq, text_eq_iff}
use recon_ai.Reconciliation.Schemas.{ExceptionDraft}
use recon_ai.Reconciliation.Report.{seen_in, dedupe_from, dedupe_drafts}

abbrev pub fingerprints : List ExceptionDraft → List Text
fingerprints = map (λ d. d.fingerprint)

-- No fingerprint stands twice.
abbrev pub AreUnique : List ExceptionDraft → Type 0
AreUnique [] = Unit {0}
AreUnique (d ∷ ds) = (seen_in d.fingerprint (fingerprints ds) ≡ false) × AreUnique ds

seen_in-cons : (f g : Text) (gs : List Text) → seen_in f (g ∷ gs) ≡ (text_eq f g || seen_in f gs)
unfolding seen_in
seen_in-cons f g gs = refl

seen_in-nil : (f : Text) → seen_in f [] ≡ false
unfolding seen_in
seen_in-nil f = refl

-- A fingerprint is among those kept when it is among the drafts and had not been seen.
seen_in-dedupe_from :
    (f : Text) (seen : List Text) (ds : List ExceptionDraft)
    → seen_in f (fingerprints (dedupe_from seen ds))
      ≡ (seen_in f (fingerprints ds) && not (seen_in f seen))
unfolding dedupe_from
seen_in-dedupe_from f seen [] = rw seen_in-nil
seen_in-dedupe_from f seen (d ∷ ds) = ground (
  arith,
  text_eq_iff f d.fingerprint,
  seen_in-cons f d.fingerprint (fingerprints ds),
  seen_in-cons f d.fingerprint seen,
  seen_in-cons f d.fingerprint (fingerprints (dedupe_from (d.fingerprint ∷ seen) ds)),
  seen_in-dedupe_from f seen ds,
  seen_in-dedupe_from f (d.fingerprint ∷ seen) ds,
)

dedupe_from-AreUnique :
    (seen : List Text) (ds : List ExceptionDraft) → AreUnique (dedupe_from seen ds)
unfolding dedupe_from
dedupe_from-AreUnique seen [] = tt
dedupe_from-AreUnique seen (d ∷ ds) = ground (
  arith,
  dedupe_from-AreUnique seen ds,
  dedupe_from-AreUnique (d.fingerprint ∷ seen) ds,
  text_eq_iff d.fingerprint d.fingerprint,
  seen_in-cons d.fingerprint d.fingerprint seen,
  seen_in-dedupe_from d.fingerprint (d.fingerprint ∷ seen) ds,
)

-- Drafts whose fingerprints differ, and have not been seen, are all kept.
dedupe_from_id :
    (seen : List Text) (ds : List ExceptionDraft)
    → AreUnique ds
    → ((f : Text) → (seen_in f (fingerprints ds) && seen_in f seen) ≡ false)
    → dedupe_from seen ds ≡ ds
unfolding dedupe_from
dedupe_from_id seen [] u h = refl
dedupe_from_id seen (d ∷ ds) u h = ground (
  arith,
  h d.fingerprint,
  text_eq_iff d.fingerprint d.fingerprint,
  seen_in-cons d.fingerprint d.fingerprint (fingerprints ds),
  dedupe_from_id (d.fingerprint ∷ seen) ds u.1 apart,
)
  where
    apart : (f : Text) → (seen_in f (fingerprints ds) && seen_in f (d.fingerprint ∷ seen)) ≡ false
    apart f = ground (
      arith,
      h f,
      u.0,
      text_eq_iff f d.fingerprint,
      seen_in-cons f d.fingerprint (fingerprints ds),
      seen_in-cons f d.fingerprint seen,
    )

dedupe_from-eq-nil : (ds : List ExceptionDraft) → (dedupe_from [] ds ≡ []) → ds ≡ []
unfolding dedupe_from seen_in
dedupe_from-eq-nil [] h = refl
dedupe_from-eq-nil (d ∷ ds) h = cc

-- A run has an exception to report exactly when it drafted one.
pub dedupe_drafts-eq-nil : (ds : List ExceptionDraft) → (dedupe_drafts ds ≡ []) ↔ (ds ≡ [])
unfolding dedupe_drafts
dedupe_drafts-eq-nil ds = (dedupe_from-eq-nil ds, λ h. ap (dedupe_from []) h ∙ nil)
  where
    nil : dedupe_from [] [] ≡ []
    nil = unfold dedupe_from in refl

-- Deduplication keeps exactly the fingerprints of the drafts, each once; done again it changes
-- nothing.
pub dedupe_keeps_fingerprints :
    (ds : List ExceptionDraft)
    → AreUnique (dedupe_drafts ds)
      × ((f : Text) → seen_in f (fingerprints (dedupe_drafts ds)) ≡ seen_in f (fingerprints ds))
      × (dedupe_drafts (dedupe_drafts ds) ≡ dedupe_drafts ds)
unfolding dedupe_drafts
dedupe_keeps_fingerprints ds =
    let unique = dedupe_from-AreUnique [] ds in
    (
      unique,
      (λ f. ground (arith, seen_in-dedupe_from f [] ds, seen_in-nil f)),
      dedupe_from_id [] (dedupe_from [] ds) unique (λ f. ground (arith, seen_in-nil f)),
    )
