-- ===== src/Review/Service/Create.antt =====
-- app/services/review_service.py: `create_review_task` and `create_from_extraction_if_needed`.
use recon_ai.Prelude.{
  Bool, true, false, not, ◌||◌, Option, none, some, List, [], ◌∷◌, ◌++◌, if◌then◌else◌, any, ◌==◌,
}
use recon_ai.Prelude.Text.{Text, codes, join}
use recon_ai.Prelude.Check.{ok, ◌>>=◌, ◌>>◌, raise_if}
use recon_ai.Prelude.Table.{find}
use recon_ai.Domain.{DocumentType, ExtractionOutcome, ReviewPriority, ReviewStatus}
use recon_ai.Extraction.Validator.{IssueCode, ValidationIssue}
use recon_ai.Resolution.Model.{Uuid}
use recon_ai.Review.Model.{
  ReviewTask, ExtractionResult, DocumentRow, ReviewStore, extraction_not_found, document_not_found,
  not_of_document,
}
use recon_ai.Review.Service.{Result, or_error, or_else, issues_in}

-- What `create_review_task` is asked for.
pub record NewTask : Type 0 where
  pub id : Uuid
  pub document_id : Uuid
  pub extraction_result_id : Uuid
  pub reason : Option Text
  pub priority : ReviewPriority
  pub assigned_to : Option Text

abbrev pub pending_task : NewTask → ExtractionResult → ReviewTask
pending_task new extraction = record {
  id = new.id;
  document_id = new.document_id;
  extraction_result_id = new.extraction_result_id;
  status = ReviewStatus.pending;
  reason = new.reason;
  priority = new.priority;
  assigned_to = new.assigned_to;
  reviewed_candidate = extraction.candidate;
  promoted_entity_id = none;
  completed_at = none;
}

abbrev pub task_for : Uuid → ReviewStore → Option ReviewTask
task_for extraction_id st = find (λ t. t.extraction_result_id == extraction_id) st.tasks

abbrev pub insert_task : NewTask → ReviewStore → Result (ReviewTask × ReviewStore)
insert_task new st = do
  extraction ←
      or_error extraction_not_found (find (λ e. e.id == new.extraction_result_id) st.extractions)
  document ← or_error document_not_found (find (λ d. d.id == new.document_id) st.documents)
  raise_if (not (extraction.document_id == new.document_id)) not_of_document
  ok (
    pending_task new extraction,
    record st { tasks = st.tasks ++ pending_task new extraction ∷ [] },
  )

abbrev pub create_unless :
    NewTask → ReviewStore → Option ReviewTask → Result (ReviewTask × ReviewStore)
create_unless new st (some existing) = ok (existing, st)
create_unless new st none = insert_task new st

-- `create_review_task`: the task, and the store that has it.
unfoldable pub create_review_task : NewTask → ReviewStore → Result (ReviewTask × ReviewStore)
create_review_task new st = create_unless new st (task_for new.extraction_result_id st)

abbrev pub is_review_required : ExtractionOutcome → Bool
is_review_required ExtractionOutcome.review_required = true
is_review_required _ = false

abbrev pub is_unknown : Option DocumentType → Bool
is_unknown (some DocumentType.unknown) = true
is_unknown _ = false

abbrev pub raises_priority : ValidationIssue → Bool
raises_priority i = elim i.code [
  | IssueCode.ocr_unavailable ↦ true
  | IssueCode.unknown_or_empty ↦ true
  | _ ↦ false
]

abbrev pub ocr_reason : ValidationIssue → List Text
ocr_reason i = elim i.code [ IssueCode.ocr_unavailable ↦ codes "OCR unavailable." ∷ [] | _ ↦ [] ]

unfoldable pub ocr_reasons : List ValidationIssue → List Text
ocr_reasons [] = []
ocr_reasons (i ∷ issues) = ocr_reason i ++ ocr_reasons issues

abbrev pub nonempty_text : Option Text → List Text
nonempty_text (some (c ∷ s)) = (c ∷ s) ∷ []
nonempty_text _ = []

unfoldable pub reason_parts : ExtractionResult → List ValidationIssue → List Text
unfolding ocr_reasons
reason_parts e issues =
    nonempty_text e.message
    ++ ((if is_unknown e.detected_type then codes "Document type is UNKNOWN." ∷ [] else [])
        ++ ocr_reasons issues)

abbrev pub reason_text : List Text → Text
reason_text [] = codes "Extraction requires human review."
reason_text (p ∷ parts) = join (codes " ") (p ∷ parts)

unfoldable pub priority_of : ExtractionResult → List ValidationIssue → ReviewPriority
priority_of e issues =
    if is_unknown e.detected_type || any raises_priority issues
    then ReviewPriority.high
    else ReviewPriority.medium

abbrev pub with_task : ReviewTask × ReviewStore → Option ReviewTask × ReviewStore
with_task (task, st) = (some task, st)

-- `create_from_extraction_if_needed`
unfoldable pub create_from_extraction_if_needed :
    Uuid
    → DocumentRow
    → ExtractionResult
    → ExtractionOutcome
    → Option (List ValidationIssue)
    → ReviewStore
    → Result (Option ReviewTask × ReviewStore)
create_from_extraction_if_needed i document extraction outcome validation st =
    let issues = issues_in (or_else validation extraction.validation) in
    if not (is_review_required outcome)
    then ok (none, st)
    else (create_review_task
          (record {
            id = i;
            document_id = document.id;
            extraction_result_id = extraction.id;
            reason = some (reason_text (reason_parts extraction issues));
            priority = priority_of extraction issues;
            assigned_to = none;
          })
          st
        >>= λ r. ok (with_task r))
