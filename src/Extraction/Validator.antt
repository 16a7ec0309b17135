-- ===== src/Extraction/Validator.antt =====
-- app/extraction/schemas.py and app/extraction/validator.py: candidates of the three document types, and
-- the issues that validation finds in them. Messages and the evidence of fields are left out. A
-- `Decimal` is a whole number of units of its last decimal place, of which only the sign matters.
pub mod Complete
use recon_ai.Prelude.{
  ℕ, Bool, true, false, not, ◌&&◌, ◌||◌, Option, none, some, List, [], ◌∷◌, ◌++◌, if◌then◌else◌,
  any, is_empty,
}
use recon_ai.Prelude.Int.{ℤ, pos, ltb_ℤ}
use recon_ai.Prelude.Text.{Text}
use recon_ai.Domain.{DocumentType}
use recon_ai.Extraction.Normalizer.{is_missing_value}

pub record CandidateLine : Type 0 where
  pub line_number : Option ℕ
  pub description : Option Text
  pub quantity : Option ℤ
  pub unit_price : Option ℤ
  pub tax_rate : Option ℤ

pub record PurchaseOrderCandidate : Type 0 where
  pub po_number : Option Text
  pub vendor_name : Option Text
  pub order_date : Option ℕ
  pub currency : Option Text
  pub lines : List CandidateLine

pub record GoodsReceiptCandidate : Type 0 where
  pub grn_number : Option Text
  pub po_number : Option Text
  pub receipt_date : Option ℕ
  pub vendor_name : Option Text
  pub lines : List CandidateLine

pub record InvoiceCandidate : Type 0 where
  pub invoice_number : Option Text
  pub po_number : Option Text
  pub vendor_name : Option Text
  pub invoice_date : Option ℕ
  pub currency : Option Text
  pub subtotal : Option ℤ
  pub tax_amount : Option ℤ
  pub total_amount : Option ℤ
  pub lines : List CandidateLine

pub data Candidate : Type 0 where
  purchase_order : PurchaseOrderCandidate → Candidate
  goods_receipt : GoodsReceiptCandidate → Candidate
  invoice : InvoiceCandidate → Candidate

pub data IssueCode : Type 0 where
  ocr_unavailable unknown_or_empty missing_po_number missing_vendor missing_po_date missing_lines
        missing_grn_number missing_receipt_date missing_invoice_number missing_invoice_date
        invalid_quantity invalid_price ambiguous_field :
      IssueCode

pub data Severity : Type 0 where
  error review : Severity

pub record ValidationIssue : Type 0 where
  pub code : IssueCode
  pub severity : Severity

pub record ValidationResult : Type 0 where
  pub is_valid : Bool
  pub requires_review : Bool
  pub issues : List ValidationIssue

abbrev pub hard : IssueCode → ValidationIssue
hard c = record { code = c; severity = Severity.error }

abbrev pub for_review : IssueCode → ValidationIssue
for_review c = record { code = c; severity = Severity.review }

abbrev pub is_hard : ValidationIssue → Bool
is_hard i = elim i.severity [ Severity.error ↦ true | Severity.review ↦ false ]

abbrev pub is_for_review : ValidationIssue → Bool
is_for_review i = elim i.severity [ Severity.error ↦ false | Severity.review ↦ true ]

-- `has_hard_validation_errors`
unfoldable pub has_hard_validation_errors : ValidationResult → Bool
has_hard_validation_errors r = any is_hard r.issues

-- The issue with `code` where `b` holds.
unfoldable pub issue_if : Bool → IssueCode → List ValidationIssue
issue_if true code = hard code ∷ []
issue_if false code = []

-- `_missing_identifier`: an empty text is missing too, as `is_missing_value` says.
unfoldable pub missing_identifier : Option Text → Bool
missing_identifier value = is_missing_value value

unfoldable pub absent {ℓ} : {A : Type ℓ} → Option A → Bool
absent none = true
absent (some a) = false

unfoldable pub bad_quantity : Option ℤ → Bool
bad_quantity none = true
bad_quantity (some q) = not (ltb_ℤ (pos 0) q)

unfoldable pub bad_price : Option ℤ → Bool
bad_price none = true
bad_price (some p) = ltb_ℤ p (pos 0)

unfoldable pub validate_lines : List CandidateLine → Bool → List ValidationIssue
validate_lines [] require_price = []
validate_lines (line ∷ lines) require_price =
    issue_if (bad_quantity line.quantity) invalid_quantity
    ++ (issue_if (require_price && bad_price line.unit_price) invalid_price
        ++ validate_lines lines require_price)

unfoldable pub validate_po : PurchaseOrderCandidate → List ValidationIssue
validate_po c =
    issue_if (missing_identifier c.po_number) missing_po_number
    ++ (issue_if (missing_identifier c.vendor_name) missing_vendor
        ++ (issue_if (absent c.order_date) missing_po_date
            ++ (issue_if (is_empty c.lines) missing_lines ++ validate_lines c.lines true)))

-- Its loop over the lines is that of `_validate_lines` without prices.
unfoldable pub validate_grn : GoodsReceiptCandidate → List ValidationIssue
validate_grn c =
    issue_if (missing_identifier c.grn_number) missing_grn_number
    ++ (issue_if (absent c.receipt_date) missing_receipt_date
        ++ (issue_if (is_empty c.lines) missing_lines ++ validate_lines c.lines false))

unfoldable pub validate_invoice : InvoiceCandidate → List ValidationIssue
validate_invoice c =
    issue_if (missing_identifier c.invoice_number) missing_invoice_number
    ++ (issue_if (missing_identifier c.vendor_name) missing_vendor
        ++ (issue_if (absent c.invoice_date) missing_invoice_date
            ++ (issue_if (is_empty c.lines) missing_lines ++ validate_lines c.lines true)))

unfoldable pub issues_of : Candidate → List ValidationIssue
issues_of (purchase_order c) = validate_po c
issues_of (goods_receipt c) = validate_grn c
issues_of (invoice c) = validate_invoice c

-- The end of `validate_candidate`.
unfoldable pub conclude : Bool → List ValidationIssue → ValidationResult
conclude requires_review issues =
    let requires = requires_review || any is_for_review issues in
    record {
      is_valid = not (any is_hard issues) && not requires;
      requires_review = requires;
      issues = issues;
    }

-- `ocr` says that a warning of the extraction tells that OCR was unavailable.
unfoldable pub ocr_issues : Bool → List ValidationIssue
ocr_issues true = for_review ocr_unavailable ∷ []
ocr_issues false = []

abbrev pub unknown_result : Bool → ValidationResult
unknown_result ocr = record {
  is_valid = false;
  requires_review = true;
  issues = ocr_issues ocr ++ for_review unknown_or_empty ∷ [];
}

unfoldable pub validate_candidate : DocumentType → Option Candidate → Bool → ValidationResult
validate_candidate document_type none ocr = unknown_result ocr
validate_candidate DocumentType.unknown (some c) ocr = unknown_result ocr
validate_candidate _ (some c) ocr = conclude ocr (ocr_issues ocr ++ issues_of c)
