-- ===== src/Review/Service/Correct.antt =====
-- app/services/review_service.py: `correct`, with `_sync_outcome_after_correction`.
use recon_ai.Prelude.{
  Bool, false, not, Option, none, some, List, [], ◌∷◌, ◌++◌, if◌then◌else◌, is_empty, ◌==◌,
}
use recon_ai.Prelude.Text.{Text, is_space, strip}
use recon_ai.Prelude.Json.{Json, Fields}
use recon_ai.Prelude.Check.{Check, ok, err, ◌>>=◌, ◌>>◌, raise_if}
use recon_ai.Prelude.Table.{update_where}
use recon_ai.Domain.{DocumentType, DocumentStatus, ExtractionOutcome, ReviewAction, ReviewStatus}
use recon_ai.Extraction.Validator.{
  Candidate, ValidationResult, has_hard_validation_errors, validate_candidate,
}
use recon_ai.Resolution.Model.{Uuid}
use recon_ai.Review.Coercion.{CandidatePathError}
use recon_ai.Review.Paths.{get_field_value, set_field_value}
use recon_ai.Review.Model.{
  ReviewTask, ExtractionResult, ReviewDecision, ReviewStore, Correction, Reviewing, CandidateModel,
  no_corrections, no_candidate, result_mismatch, path_required, value_required, bad_path,
}
use recon_ai.Review.Service.{
  Result, or_error, get_task, extraction_of, put_task, set_document_status, assert_transition,
  replaced_by, current_candidate, coerce_candidate, ensure_active, into_review,
  candidate_still_invalid,
}

abbrev pub path_error : {A : Type 0} → Check CandidatePathError A → Result A
path_error (ok a) = ok a
path_error (err e) = err (bad_path e)

-- `str(text) if text else default`
abbrev pub given_or : Option Text → Option Text → Option Text
given_or (some (c ∷ s)) other = some (c ∷ s)
given_or _ other = other

abbrev pub field_decision :
    ReviewTask → Reviewing → Correction → Text → Json → Json → ReviewDecision
field_decision task by item path original new_value = record {
  review_task_id = task.id;
  action = ReviewAction.correct;
  field_path = some path;
  original_value = some original;
  corrected_value = some new_value;
  reason = given_or item.reason by.reason;
  reviewer = by.reviewer;
  evidence_ref = given_or item.evidence_ref none;
}

-- One round of the loop: the candidate as it becomes, and the decision that is recorded.
unfoldable pub apply_correction :
    ReviewTask → Reviewing → Fields → Correction → Result (Fields × ReviewDecision)
apply_correction task by working item = do
  let path = strip is_space item.field_path
  raise_if (is_empty path) path_required
  value ← or_error value_required item.corrected_value
  original ← path_error (get_field_value working path)
  working' ← path_error (set_field_value working path value)
  new_value ← path_error (get_field_value working' path)
  ok (working', field_decision task by item path original new_value)

unfoldable pub apply_corrections :
    ReviewTask → Reviewing → Fields → List Correction → Result (Fields × List ReviewDecision)
apply_corrections task by working [] = ok (working, [])
apply_corrections task by working (item ∷ items) = do
  first ← apply_correction task by working item
  others ← apply_corrections task by first.0 items
  ok (others.0, first.1 ∷ others.1)

unfoldable pub set_extraction : ExtractionResult → ReviewStore → ReviewStore
set_extraction e st = record st {
  extractions = update_where (λ x. x.id == e.id) (λ x. e) st.extractions;
}

abbrev pub sync_result :
    ReviewTask → ExtractionResult → ValidationResult → ReviewStore → ReviewStore
sync_result task e result st =
    if has_hard_validation_errors result
    then set_document_status task.document_id DocumentStatus.validation_failed (
        set_extraction
          (record e {
            validation = some result.issues;
            outcome = ExtractionOutcome.validation_failed;
          })
          st)
    else if result.is_valid
    then set_document_status task.document_id DocumentStatus.ready_for_reconciliation (
        set_extraction
          (record e {
            validation = some result.issues;
            outcome = ExtractionOutcome.ready_for_reconciliation;
          })
          st)
    else set_extraction (record e { validation = some result.issues }) st

abbrev pub sync_parsed :
    ReviewTask
    → ExtractionResult
    → DocumentType
    → Result (Option Candidate)
    → ReviewStore
    → ReviewStore
sync_parsed task e detected (err _) st = st
sync_parsed task e detected (ok parsed) st =
    sync_result task e (validate_candidate detected parsed false) st

abbrev pub sync_detected :
    CandidateModel
    → ReviewTask
    → ExtractionResult
    → Option DocumentType
    → Fields
    → ReviewStore
    → ReviewStore
sync_detected model task e none candidate st = st
sync_detected model task e (some detected) candidate st =
    sync_parsed task e detected (coerce_candidate model detected candidate) st

abbrev pub sync_extracted :
    CandidateModel → ReviewTask → Option ExtractionResult → Fields → ReviewStore → ReviewStore
sync_extracted model task none candidate st = st
sync_extracted model task (some e) candidate st =
    sync_detected model task e e.detected_type candidate st

-- `_sync_outcome_after_correction`
unfoldable pub sync_outcome : CandidateModel → ReviewTask → Fields → ReviewStore → ReviewStore
sync_outcome model task candidate st =
    sync_extracted model task (extraction_of task st) candidate st

abbrev pub mismatched : ReviewTask → Option ExtractionResult → Bool
mismatched task none = false
mismatched task (some e) = not (e.document_id == task.document_id)

-- `if reason and not task.reason`
abbrev pub kept_or : Option Text → Option Text → Option Text
kept_or (some (c ∷ s)) reason = some (c ∷ s)
kept_or old reason = replaced_by old reason

abbrev pub corrected_task : ReviewTask → Reviewing → Fields → ReviewTask
corrected_task task by working = record task {
  reviewed_candidate = some working;
  assigned_to = replaced_by task.assigned_to by.reviewer;
  reason = kept_or task.reason by.reason;
}

abbrev pub back_in_review : ReviewTask → ReviewTask
back_in_review task = record task { status = ReviewStatus.in_review; completed_at = none }

abbrev pub completed_task : ReviewTask → Reviewing → ReviewTask
completed_task task by = record task { status = ReviewStatus.corrected; completed_at = some by.now }

-- The end of `correct`, where the rows of the extraction and the document are written.
unfoldable pub finish_correction :
    ReviewStatus → ReviewTask → Reviewing → ReviewStore → Result ReviewStore
unfolding put_task
finish_correction current task by st =
    if candidate_still_invalid task st
    then ok (put_task (back_in_review task) st)
    else (assert_transition current ReviewStatus.corrected
        >> ok (put_task (completed_task task by) st))

unfoldable pub correct :
    CandidateModel → Uuid → List Correction → Reviewing → ReviewStore → Result ReviewStore
unfolding finish_correction
correct model i corrections by st = do
  raise_if (is_empty corrections) no_corrections
  task ← get_task i st
  ensure_active task st
  working ← or_error no_candidate (current_candidate task st)
  raise_if (mismatched task (extraction_of task st)) result_mismatch
  result ← apply_corrections task by working corrections
  finish_correction (into_review task.status) (corrected_task task by result.0) by
      (sync_outcome model task result.0 (record st { decisions = st.decisions ++ result.1 }))
