-- ===== src/Review/Runs/Approved.antt =====
-- What an approval proves of the candidate.
use recon_ai.Prelude.{Bool, true, false, some, ◌≡◌, any}
use recon_ai.Prelude.Json.{Fields}
use recon_ai.Domain.{DocumentType}
use recon_ai.Extraction.Validator.{Candidate, has_hard_validation_errors, validate_candidate}
use recon_ai.Review.Model.{CandidateModel}
use recon_ai.Review.Service.{is_ambiguous}

-- A candidate that its type's model reads, without errors and ambiguous fields.
pub record IsSound (model : CandidateModel) (detected : DocumentType) (payload : Fields)
    : Type 0 where
  pub candidate : Candidate
  pub read : model detected payload ≡ some candidate
  pub no_errors :
      has_hard_validation_errors (validate_candidate detected (some candidate) false) ≡ false
  pub no_ambiguity :
      any is_ambiguous (validate_candidate detected (some candidate) false).issues ≡ false

-- The candidate of a document type that has a model.
abbrev pub has_model : DocumentType → Bool
has_model DocumentType.unknown = false
has_model _ = true
