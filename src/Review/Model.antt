-- ===== src/Review/Model.antt =====
-- The rows of app/db/models.py that the review service reads and writes, its requests and its errors. The
-- columns that it does not read are left out. A `validation` column holds a dumped result, of which the
-- issues are read.
use recon_ai.Prelude.{ℕ, Option, List}
use recon_ai.Prelude.Text.{Text}
use recon_ai.Prelude.Json.{Json, Fields}
use recon_ai.Domain.{
  DocumentType, DocumentStatus, ExtractionOutcome, ReviewAction, ReviewPriority, ReviewStatus,
}
use recon_ai.Extraction.Validator.{Candidate, ValidationIssue}
use recon_ai.Resolution.Model.{Uuid}
use recon_ai.Review.Coercion.{CandidatePathError}

pub record ReviewTask : Type 0 where
  pub id : Uuid
  pub document_id : Uuid
  pub extraction_result_id : Uuid
  pub status : ReviewStatus
  pub reason : Option Text
  pub priority : ReviewPriority
  pub assigned_to : Option Text
  pub reviewed_candidate : Option Fields
  pub promoted_entity_id : Option Uuid
  pub completed_at : Option ℕ

-- `document_extraction_results`; `detected_type` is none where the text is no `DocumentType`.
pub record ExtractionResult : Type 0 where
  pub id : Uuid
  pub document_id : Uuid
  pub detected_type : Option DocumentType
  pub outcome : ExtractionOutcome
  pub candidate : Option Fields
  pub validation : Option (List ValidationIssue)
  pub message : Option Text

pub record DocumentRow : Type 0 where
  pub id : Uuid
  pub status : DocumentStatus

pub record ReviewDecision : Type 0 where
  pub review_task_id : Uuid
  pub action : ReviewAction
  pub field_path : Option Text
  pub original_value : Option Json
  pub corrected_value : Option Json
  pub reason : Option Text
  pub reviewer : Option Text
  pub evidence_ref : Option Text

pub record ReviewStore : Type 0 where
  pub tasks : List ReviewTask
  pub extractions : List ExtractionResult
  pub documents : List DocumentRow
  pub decisions : List ReviewDecision

-- One entry of `corrections`; `corrected_value` is none where the key is absent.
pub record Correction : Type 0 where
  pub field_path : Text
  pub corrected_value : Option Json
  pub reason : Option Text
  pub evidence_ref : Option Text

-- Who calls, why and when.
pub record Reviewing : Type 0 where
  pub reviewer : Option Text
  pub reason : Option Text
  pub now : ℕ

-- The Pydantic model of a document type on a candidate: none where it raises `ValidationError`.
abbrev pub CandidateModel : Type 0
CandidateModel = DocumentType → Fields → Option Candidate

-- The errors of the service, by class and message.
pub data ReviewError : Type 0 where
  task_not_found extraction_not_found document_not_found invalid_transition not_of_document
        validation_failure ambiguous_fields candidate_failed is_rejected is_approved is_finalized
        no_corrections no_candidate result_mismatch path_required value_required :
      ReviewError
  bad_path : CandidatePathError → ReviewError
