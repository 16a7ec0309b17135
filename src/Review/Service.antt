-- ===== src/Review/Service.antt =====
-- app/services/review_service.py: the operations of `ReviewService` that change rows. An operation that
-- raises commits nothing, and the request's session is closed: its outcome is the error alone. Times and
-- new ids are arguments.
pub mod Create
pub mod Correct
use recon_ai.Prelude.{
  ℕ, Bool, true, false, not, ◌&&◌, ◌||◌, Option, none, some, List, [], ◌∷◌, ◌++◌, if◌then◌else◌,
  any, is_empty, is_some, ◌==◌,
}
use recon_ai.Prelude.Text.{Text, codes, join}
use recon_ai.Prelude.Json.{Json, Fields}
use recon_ai.Prelude.Check.{Check, ok, err, ◌>>=◌, ◌>>◌, raise_if}
use recon_ai.Prelude.Table.{find, update_where}
use recon_ai.Domain.{
  DocumentType, DocumentStatus, ExtractionOutcome, ReviewAction, ReviewPriority, ReviewStatus,
}
use recon_ai.Extraction.Validator.{
  Candidate, IssueCode, ambiguous_field, ocr_unavailable, unknown_or_empty, ValidationIssue,
  ValidationResult, is_hard, has_hard_validation_errors, validate_candidate,
}
use recon_ai.Resolution.Model.{Uuid}
use recon_ai.Review.Transitions.{review_allowed, is_promotable}
use recon_ai.Review.Model.{
  ReviewTask, ExtractionResult, DocumentRow, ReviewDecision, ReviewStore, Reviewing, CandidateModel,
  ReviewError, task_not_found, extraction_not_found, document_not_found, invalid_transition,
  not_of_document, validation_failure, ambiguous_fields, candidate_failed, is_rejected, is_approved,
  is_finalized,
}

abbrev pub Result : Type 0 → Type 0
Result A = Check ReviewError A

abbrev pub or_error : {A : Type 0} → ReviewError → Option A → Result A
or_error e none = err e
or_error e (some a) = ok a

abbrev pub find_task : Uuid → ReviewStore → Option ReviewTask
find_task i st = find (λ t. t.id == i) st.tasks

-- `get_task`
unfoldable pub get_task : Uuid → ReviewStore → Result ReviewTask
get_task i st = or_error task_not_found (find_task i st)

abbrev pub extraction_of : ReviewTask → ReviewStore → Option ExtractionResult
extraction_of task st = find (λ e. e.id == task.extraction_result_id) st.extractions

-- The task's row as it is flushed.
unfoldable pub put_task : ReviewTask → ReviewStore → ReviewStore
put_task task st = record st { tasks = update_where (λ t. t.id == task.id) (λ t. task) st.tasks }

unfoldable pub set_document_status : Uuid → DocumentStatus → ReviewStore → ReviewStore
set_document_status i s st = record st {
  documents = update_where (λ d. d.id == i) (λ d. record d { status = s }) st.documents;
}

unfoldable pub add_decision : ReviewDecision → ReviewStore → ReviewStore
add_decision d st = record st { decisions = st.decisions ++ d ∷ [] }

-- `assert_transition`
abbrev pub assert_transition : ReviewStatus → ReviewStatus → Result (Unit {0})
assert_transition current target = raise_if (not (review_allowed current target)) invalid_transition

-- `if value: old = value`
abbrev pub replaced_by : Option Text → Option Text → Option Text
replaced_by old none = old
replaced_by old (some []) = old
replaced_by old (some (c ∷ s)) = some (c ∷ s)

unfoldable pub or_else {ℓ} : {A : Type ℓ} → Option A → Option A → Option A
or_else none b = b
or_else (some a) b = some a

abbrev pub extracted_candidate : Option ExtractionResult → Option Fields
extracted_candidate none = none
extracted_candidate (some e) = e.candidate

-- The working copy, or the extraction's candidate.
abbrev pub current_candidate : ReviewTask → ReviewStore → Option Fields
current_candidate task st =
    or_else task.reviewed_candidate (extracted_candidate (extraction_of task st))

-- `_has_ambiguous_fields`, `_has_hard_errors`
abbrev pub is_ambiguous : ValidationIssue → Bool
is_ambiguous i = elim i.code [ IssueCode.ambiguous_field ↦ true | _ ↦ false ]

abbrev pub issues_in : Option (List ValidationIssue) → List ValidationIssue
issues_in none = []
issues_in (some issues) = issues

unfoldable pub has_ambiguous_fields : Option (List ValidationIssue) → Bool
has_ambiguous_fields v = any is_ambiguous (issues_in v)

unfoldable pub has_hard_errors : Option (List ValidationIssue) → Bool
has_hard_errors v = any is_hard (issues_in v)

abbrev pub is_failed_outcome : ExtractionOutcome → Bool
is_failed_outcome ExtractionOutcome.validation_failed = true
is_failed_outcome _ = false

-- `_candidate_still_invalid`
unfoldable pub still_invalid : Option ExtractionResult → Bool
still_invalid none = false
still_invalid (some e) =
    is_failed_outcome e.outcome
    || (has_ambiguous_fields e.validation || has_hard_errors e.validation)

unfoldable pub candidate_still_invalid : ReviewTask → ReviewStore → Bool
candidate_still_invalid task st = still_invalid (extraction_of task st)

unfoldable pub is_eligible_for_promotion : ReviewTask → ReviewStore → Bool
is_eligible_for_promotion task st =
    is_promotable task.status
    && (not (candidate_still_invalid task st) && is_some (current_candidate task st))

-- `_ensure_active`
unfoldable pub ensure_active : ReviewTask → ReviewStore → Result (Unit {0})
ensure_active task st = elim task.status [
  | ReviewStatus.rejected ↦ err is_rejected
  | ReviewStatus.approved ↦ err is_approved
  | ReviewStatus.corrected ↦
      raise_if (is_some task.promoted_entity_id || not (candidate_still_invalid task st))
        is_finalized
  | ReviewStatus.pending ↦ ok tt
  | ReviewStatus.in_review ↦ ok tt
]

-- A pending task is taken into review on the way.
abbrev pub into_review : ReviewStatus → ReviewStatus
into_review ReviewStatus.pending = ReviewStatus.in_review
into_review s = s

-- `start_review`
unfoldable pub start_review : Uuid → Option Text → ReviewStore → Result ReviewStore
unfolding put_task
start_review i reviewer st = do
  task ← get_task i st
  assert_transition task.status ReviewStatus.in_review
  ok (
      put_task
        (record task {
          status = ReviewStatus.in_review;
          assigned_to = replaced_by task.assigned_to reviewer;
        })
        st)

abbrev pub typed_error : {A : Type 0} → Option A → Result (Option A)
typed_error none = err candidate_failed
typed_error (some c) = ok (some c)

-- `coerce_candidate`: the type UNKNOWN has no model.
unfoldable pub coerce_candidate : CandidateModel → DocumentType → Fields → Result (Option Candidate)
coerce_candidate model DocumentType.unknown payload = ok none
coerce_candidate model detected payload = typed_error (model detected payload)

-- The checks of a validation that has just run.
abbrev pub refuse_issues : ValidationResult → Result (Unit {0})
refuse_issues r = do
  raise_if (has_hard_validation_errors r) validation_failure
  raise_if (any is_ambiguous r.issues) ambiguous_fields

abbrev pub refuse_candidate :
    CandidateModel → Option DocumentType → Option Fields → Result (Unit {0})
refuse_candidate model none candidate = ok tt
refuse_candidate model (some detected) none = ok tt
refuse_candidate model (some detected) (some payload) = do
  parsed ← coerce_candidate model detected payload
  refuse_issues (validate_candidate detected parsed false)

-- `_refuse_invalid_approval`
unfoldable pub refuse_invalid_approval :
    CandidateModel → ExtractionResult → Option Fields → Result (Unit {0})
refuse_invalid_approval model extraction candidate = do
  raise_if (is_failed_outcome extraction.outcome) validation_failure
  raise_if (has_ambiguous_fields extraction.validation) ambiguous_fields
  refuse_candidate model extraction.detected_type candidate

abbrev pub refuse_if_extracted :
    CandidateModel → Option ExtractionResult → Option Fields → Result (Unit {0})
refuse_if_extracted model none candidate = ok tt
refuse_if_extracted model (some e) candidate = refuse_invalid_approval model e candidate

abbrev pub check_approvable : ReviewStatus → Result (Unit {0})
check_approvable ReviewStatus.rejected = err is_rejected
check_approvable ReviewStatus.approved = err is_approved
check_approvable s = assert_transition (into_review s) ReviewStatus.approved

-- A decision about the whole task.
abbrev pub task_decision : ReviewTask → ReviewAction → Reviewing → ReviewDecision
task_decision task action by = record {
  review_task_id = task.id;
  action = action;
  field_path = none;
  original_value = none;
  corrected_value = none;
  reason = by.reason;
  reviewer = by.reviewer;
  evidence_ref = none;
}

abbrev pub approved_task : ReviewTask → Reviewing → ReviewStore → ReviewTask
approved_task task by st = record task {
  status = ReviewStatus.approved;
  reviewed_candidate = current_candidate task st;
  completed_at = some by.now;
  assigned_to = replaced_by task.assigned_to by.reviewer;
}

unfoldable pub approve : CandidateModel → Uuid → Reviewing → ReviewStore → Result ReviewStore
unfolding put_task add_decision
approve model i by st = do
  task ← get_task i st
  refuse_if_extracted model (extraction_of task st) (current_candidate task st)
  check_approvable task.status
  ok (
      put_task (approved_task task by st)
        (add_decision (task_decision task ReviewAction.approve by) st))

abbrev pub rejected_task : ReviewTask → Reviewing → ReviewTask
rejected_task task by = record task {
  status = ReviewStatus.rejected;
  completed_at = some by.now;
  reason = replaced_by task.reason by.reason;
  assigned_to = replaced_by task.assigned_to by.reviewer;
}

unfoldable pub reject : Uuid → Reviewing → ReviewStore → Result ReviewStore
unfolding put_task add_decision set_document_status
reject i by st = do
  task ← get_task i st
  ensure_active task st
  assert_transition (into_review task.status) ReviewStatus.rejected
  ok (
      set_document_status task.document_id DocumentStatus.review_rejected (
        put_task (rejected_task task by)
          (add_decision (task_decision task ReviewAction.reject by) st)))
