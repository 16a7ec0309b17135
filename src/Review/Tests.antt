-- ===== src/Review/Tests.antt =====
-- Concrete review tasks: a goods receipt whose quantity is corrected, and which is then approved.
mod Runs
use recon_ai.Prelude.{
  if◌then◌else◌, ◌++◌, true, false, Bool, [], ◌∷◌, none, some, ◌≡◌, refl, ◌⊎◌, List, Option,
  is_some, any, All,
}
use recon_ai.Prelude.Int.{ℤ, pos}
use recon_ai.Prelude.Text.{Text, codes, text_eq, strip, is_space}
use recon_ai.Prelude.Json.{Json, null, num, str, arr, obj, nil, cons, Fields, end, field}
use recon_ai.Prelude.Check.{ok, err, Check}
use recon_ai.Domain.{
  DocumentType, DocumentStatus, ExtractionOutcome, ReviewAction, ReviewPriority, ReviewStatus,
}
use recon_ai.Extraction.Normalizer.{is_missing_value}
use recon_ai.Extraction.Validator.{
  Candidate, goods_receipt, validate_candidate, conclude, ocr_issues, issues_of, validate_grn,
  validate_lines, issue_if, missing_identifier, absent, bad_quantity, bad_price,
  has_hard_validation_errors,
}
use recon_ai.Review.Transitions.{review_allowed, is_terminal_review}
use recon_ai.Review.Numbers.{parse_decimal, decimal_text, iso_date, Decimal}
use recon_ai.Review.Coercion.{CandidatePathError, coerce_correction_value, not_positive}
use recon_ai.Prelude.Json.{get_key, put_key, get_item, put_item}
use recon_ai.Review.Paths.{
  path_segments, get_field_value, set_field_value, get_at, set_at, step, assign_leaf,
}
use recon_ai.Review.Model.{
  ReviewTask, ExtractionResult, DocumentRow, ReviewStore, Correction, Reviewing, CandidateModel,
  validation_failure,
}
use recon_ai.Review.Service.{
  find_task, start_review, approve, reject, get_task, ensure_active, candidate_still_invalid,
  still_invalid, coerce_candidate, set_document_status, has_ambiguous_fields, has_hard_errors,
  or_else, refuse_invalid_approval,
}
use recon_ai.Review.Service.Create.{create_review_task}
use recon_ai.Review.Service.Correct.{
  correct, apply_corrections, apply_correction, sync_outcome, set_extraction,
}

abbrev pub candidate : Fields
candidate = field (codes "grn_number") (str (codes "GRN-1")) (
    field (codes "lines") (arr (cons (obj (field (codes "quantity") (str (codes "0")) end)) nil))
      end)

abbrev pub path : Text
path = codes "lines[0].quantity"

abbrev pub repaired : Fields
repaired = field (codes "grn_number") (str (codes "GRN-1")) (
    field (codes "lines") (arr (cons (obj (field (codes "quantity") (str (codes "2.50")) end)) nil))
      end)

abbrev shown : Option Decimal → Text
shown none = []
shown (some d) = decimal_text d

decimals :
    (shown (parse_decimal (codes " 007.50")) ≡ codes "7.50")
    × (shown (parse_decimal (codes "-1e3")) ≡ codes "-1E+3")
    × (shown (parse_decimal (codes "0.0000001")) ≡ codes "1E-7")
    × (parse_decimal (codes "1.2.3") ≡ none)
unfolding parse_decimal decimal_text
decimals = (refl, refl, refl, refl)

leap_day : iso_date (codes "2024-02-29") ≡ some (codes "2024-02-29")
unfolding iso_date
leap_day = refl

no_leap_day : iso_date (codes "2023-02-29") ≡ none
unfolding iso_date
no_leap_day = refl

-- The quantity at the path, before and after its correction.
pub sets : set_field_value candidate path (num (codes "2.50")) ≡ ok repaired
unfolding set_field_value path_segments set_at step assign_leaf get_key put_key get_item put_item
    coerce_correction_value
sets = refl

corrected_path :
    (get_field_value candidate path ≡ ok (str (codes "0")))
    × (set_field_value candidate path (num (codes "0")) ≡ err not_positive)
    × (coerce_correction_value (codes "vendor_name") (str (codes "  Acme   Ltd "))
        ≡ ok (str (codes "Acme Ltd")))
unfolding get_field_value set_field_value path_segments get_at set_at step assign_leaf get_key
    put_key get_item put_item coerce_correction_value
corrected_path = (refl, refl, refl)

-- A model that reads a goods receipt's quantity alone.
abbrev pub quantity_of : Check CandidatePathError Json → Option ℤ
quantity_of (ok (str t)) = if text_eq t (codes "0") then some (pos 0) else some (pos 25000)
quantity_of _ = none

abbrev pub receipt : Option ℤ → Candidate
receipt q = goods_receipt (record {
  grn_number = some (codes "GRN-1");
  po_number = none;
  receipt_date = some 100;
  vendor_name = none;
  lines =
      record {
        line_number = none;
        description = none;
        quantity = q;
        unit_price = none;
        tax_rate = none;
      }
      ∷ [];
})

abbrev pub model : CandidateModel
model DocumentType.grn payload = some (receipt (quantity_of (get_field_value payload path)))
model _ payload = none

abbrev pub task : ReviewTask
task = record {
  id = 1;
  document_id = 2;
  extraction_result_id = 3;
  status = ReviewStatus.pending;
  reason = none;
  priority = ReviewPriority.medium;
  assigned_to = none;
  reviewed_candidate = some candidate;
  promoted_entity_id = none;
  completed_at = none;
}

abbrev pub extraction : ExtractionResult
extraction = record {
  id = 3;
  document_id = 2;
  detected_type = some DocumentType.grn;
  outcome = ExtractionOutcome.validation_failed;
  candidate = some candidate;
  validation = none;
  message = none;
}

abbrev pub document : DocumentRow
document = record { id = 2; status = DocumentStatus.validation_failed }

abbrev pub st : ReviewStore
st = record {
  tasks = task ∷ [];
  extractions = extraction ∷ [];
  documents = document ∷ [];
  decisions = [];
}

abbrev pub ann : Reviewing
ann = record { reviewer = some (codes "ann"); reason = some (codes "typo"); now = 5 }

abbrev pub item : Correction
item = record {
  field_path = codes " lines[0].quantity";
  corrected_value = some (num (codes "2.50"));
  reason = none;
  evidence_ref = none;
}

abbrev pub fixed_task : ReviewTask
fixed_task = record task {
  status = ReviewStatus.corrected;
  reason = some (codes "typo");
  assigned_to = some (codes "ann");
  reviewed_candidate = some repaired;
  completed_at = some 5;
}

abbrev pub fixed : ReviewStore
fixed = record {
  tasks = fixed_task ∷ [];
  extractions =
      record extraction {
        outcome = ExtractionOutcome.ready_for_reconciliation;
        validation = some [];
      }
      ∷ [];
  documents = record { id = 2; status = DocumentStatus.ready_for_reconciliation } ∷ [];
  decisions =
      record {
        review_task_id = 1;
        action = ReviewAction.correct;
        field_path = some path;
        original_value = some (str (codes "0"));
        corrected_value = some (str (codes "2.50"));
        reason = some (codes "typo");
        reviewer = some (codes "ann");
        evidence_ref = none;
      }
      ∷ [];
}

abbrev pub approved_store : ReviewStore
approved_store = record fixed {
  tasks = record fixed_task { status = ReviewStatus.approved } ∷ [];
  decisions =
      fixed.decisions
      ++ record {
        review_task_id = 1;
        action = ReviewAction.approve;
        field_path = none;
        original_value = none;
        corrected_value = none;
        reason = some (codes "typo");
        reviewer = some (codes "ann");
        evidence_ref = none;
      }
        ∷ [];
}

pub fixes : correct model 1 (item ∷ []) ann st ≡ ok fixed
unfolding correct get_task ensure_active apply_corrections apply_correction sync_outcome
    candidate_still_invalid still_invalid coerce_candidate validate_candidate conclude ocr_issues
    issues_of validate_grn validate_lines issue_if missing_identifier is_missing_value absent
    bad_quantity bad_price set_extraction set_document_status has_hard_validation_errors
    has_ambiguous_fields has_hard_errors review_allowed or_else get_field_value set_field_value
    path_segments get_at set_at step assign_leaf get_key put_key get_item put_item
    coerce_correction_value text_eq strip is_space
fixes = refl

pub approves : approve model 1 ann fixed ≡ ok approved_store
unfolding approve get_task refuse_invalid_approval coerce_candidate validate_candidate conclude
    ocr_issues issues_of validate_grn validate_lines issue_if missing_identifier is_missing_value
    absent bad_quantity bad_price has_hard_validation_errors has_ambiguous_fields review_allowed
    or_else get_field_value path_segments get_at step get_key get_item text_eq
approves = refl

-- Before the correction, an approval is refused.
approve_refused : approve model 1 ann st ≡ err validation_failure
unfolding approve get_task refuse_invalid_approval or_else
approve_refused = refl
