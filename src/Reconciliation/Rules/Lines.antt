-- ===== src/Reconciliation/Rules/Lines.antt =====
-- app/reconciliation/rules.py: `match_line_to_po`.
pub mod Found
use recon_ai.Prelude.{
  ℕ, List, [], ◌∷◌, Option, none, some, ◌==◌, length, filter, if◌then◌else◌, is_some,
}
use recon_ai.Prelude.Text.{Text}
use recon_ai.Domain.{identifier_mismatch, ExceptionSeverity}
use recon_ai.Reconciliation.Schemas.{
  Uuid, Value, EnginePurchaseOrderLine, EnginePurchaseOrder, ExceptionDraft, DocumentLabel,
  label_str, if_grn, if_invoice,
}
use recon_ai.Reconciliation.Identity.{Part, build_fingerprint}

-- `po_lines_by_id.get`: the dict keeps the last line of an id.
unfoldable pub line_by_id : Uuid → List EnginePurchaseOrderLine → Option EnginePurchaseOrderLine
line_by_id i [] = none
line_by_id i (l ∷ ls) =
    let later = line_by_id i ls in
    if is_some later then later else (if l.id == i then some l else none)

-- `po_lines_by_number.get`: all lines of a number, in order.
unfoldable pub lines_by_number : ℕ → List EnginePurchaseOrderLine → List EnginePurchaseOrderLine
lines_by_number n ls = filter (λ l. l.line_number == n) ls

module _ (sha256 : Text → Text) where
  unfoldable pub missing_reference :
      EnginePurchaseOrder → Uuid → DocumentLabel → Uuid → Uuid → ExceptionDraft
  missing_reference po ref label document_id line_id = record {
    exception_type = identifier_mismatch;
    severity = ExceptionSeverity.high;
    message =
        Value.str (label_str label)
        ∷ Value.str " line references purchase order line "
        ∷ Value.uuid ref
        ∷ Value.str " which does not exist on PO "
        ∷ Value.text po.po_number
        ∷ Value.str "."
        ∷ [];
    fingerprint = build_fingerprint sha256 (
        Part.str "IDENTIFIER_MISMATCH"
        ∷ Part.str "missing_po_line_ref"
        ∷ Part.uuid document_id
        ∷ Part.uuid line_id
        ∷ Part.uuid ref
        ∷ []);
    purchase_order_id = some po.id;
    goods_receipt_id = if_grn label document_id;
    invoice_id = if_invoice label document_id;
    source_document_ids = po.id ∷ document_id ∷ [];
    evidence =
        ("document_type", Value.str (label_str label))
        ∷ ("document_id", Value.uuid document_id)
        ∷ ("line_id", Value.uuid line_id)
        ∷ ("referenced_purchase_order_line_id", Value.uuid ref)
        ∷ ("purchase_order_id", Value.uuid po.id)
        ∷ [];
  }

  unfoldable pub ambiguous_line :
      EnginePurchaseOrder → ℕ → DocumentLabel → Uuid → Uuid → ℕ → ExceptionDraft
  ambiguous_line po line_number label document_id line_id candidate_count = record {
    exception_type = identifier_mismatch;
    severity = ExceptionSeverity.high;
    message =
        Value.str (label_str label)
        ∷ Value.str " line "
        ∷ Value.int line_number
        ∷ Value.str " cannot be matched confidently to a purchase order line on PO "
        ∷ Value.text po.po_number
        ∷ Value.str "."
        ∷ [];
    fingerprint = build_fingerprint sha256 (
        Part.str "IDENTIFIER_MISMATCH"
        ∷ Part.str "ambiguous_or_missing_line"
        ∷ Part.uuid document_id
        ∷ Part.uuid line_id
        ∷ Part.int line_number
        ∷ []);
    purchase_order_id = some po.id;
    goods_receipt_id = if_grn label document_id;
    invoice_id = if_invoice label document_id;
    source_document_ids = po.id ∷ document_id ∷ [];
    evidence =
        ("document_type", Value.str (label_str label))
        ∷ ("document_id", Value.uuid document_id)
        ∷ ("line_id", Value.uuid line_id)
        ∷ ("line_number", Value.int line_number)
        ∷ ("candidate_count", Value.int candidate_count)
        ∷ ("purchase_order_id", Value.uuid po.id)
        ∷ [];
  }

  abbrev pub by_reference :
      EnginePurchaseOrder
      → Uuid
      → DocumentLabel
      → Uuid
      → Uuid
      → Option EnginePurchaseOrderLine
      → Option EnginePurchaseOrderLine × Option ExceptionDraft
  by_reference po ref label document_id line_id none =
      (none, some (missing_reference po ref label document_id line_id))
  by_reference po ref label document_id line_id (some l) = (some l, none)

  abbrev pub by_number :
      EnginePurchaseOrder
      → ℕ
      → DocumentLabel
      → Uuid
      → Uuid
      → List EnginePurchaseOrderLine
      → Option EnginePurchaseOrderLine × Option ExceptionDraft
  by_number po number label document_id line_id (l ∷ []) = (some l, none)
  by_number po number label document_id line_id candidates =
      (none, some (ambiguous_line po number label document_id line_id (length candidates)))

  -- The matched line, or the exception that says why there is none.
  unfoldable pub match_line_to_po :
      EnginePurchaseOrder
      → Option Uuid
      → ℕ
      → DocumentLabel
      → Uuid
      → Uuid
      → Option EnginePurchaseOrderLine × Option ExceptionDraft
  match_line_to_po po (some ref) line_number label document_id line_id =
      by_reference po ref label document_id line_id (line_by_id ref po.lines)
  match_line_to_po po none line_number label document_id line_id =
      by_number po line_number label document_id line_id (lines_by_number line_number po.lines)
