-- ===== src/Reconciliation/Rules/Headers.antt =====
-- app/reconciliation/rules.py: `check_header_po_reference` and `date_exceptions`.
use recon_ai.Prelude.{List, [], ◌∷◌, ◌++◌, Option, none, some, ltb, ◌==◌, if◌then◌else◌}
use recon_ai.Prelude.Text.{Text}
use recon_ai.Domain.{identifier_mismatch, date_mismatch, ExceptionSeverity}
use recon_ai.Reconciliation.Schemas.{
  Uuid, Value, EnginePurchaseOrder, EngineGoodsReceipt, EngineInvoice, ExceptionDraft,
  DocumentLabel, label_str, if_grn, if_invoice,
}
use recon_ai.Reconciliation.Identity.{Part, build_fingerprint}

module _ (sha256 : Text → Text) where
  unfoldable pub header_missing : EnginePurchaseOrder → DocumentLabel → Uuid → ExceptionDraft
  header_missing po label document_id = record {
    exception_type = identifier_mismatch;
    severity = ExceptionSeverity.high;
    message = Value.str (label_str label) ∷ Value.str " does not reference a purchase order." ∷ [];
    fingerprint = build_fingerprint sha256 (
        Part.str "IDENTIFIER_MISMATCH"
        ∷ Part.str "missing_po_header_ref"
        ∷ Part.uuid document_id
        ∷ Part.uuid po.id
        ∷ []);
    purchase_order_id = some po.id;
    goods_receipt_id = if_grn label document_id;
    invoice_id = if_invoice label document_id;
    source_document_ids = po.id ∷ document_id ∷ [];
    evidence =
        ("document_type", Value.str (label_str label))
        ∷ ("document_id", Value.uuid document_id)
        ∷ ("expected_purchase_order_id", Value.uuid po.id)
        ∷ ("actual_purchase_order_id", Value.null)
        ∷ [];
  }

  unfoldable pub header_mismatch :
      EnginePurchaseOrder → Uuid → DocumentLabel → Uuid → ExceptionDraft
  header_mismatch po referenced label document_id = record {
    exception_type = identifier_mismatch;
    severity = ExceptionSeverity.high;
    message =
        Value.str (label_str label)
        ∷ Value.str " references PO "
        ∷ Value.uuid referenced
        ∷ Value.str " but reconciliation was run against PO "
        ∷ Value.uuid po.id
        ∷ Value.str "."
        ∷ [];
    fingerprint = build_fingerprint sha256 (
        Part.str "IDENTIFIER_MISMATCH"
        ∷ Part.str "po_header_mismatch"
        ∷ Part.uuid document_id
        ∷ Part.uuid referenced
        ∷ Part.uuid po.id
        ∷ []);
    purchase_order_id = some po.id;
    goods_receipt_id = if_grn label document_id;
    invoice_id = if_invoice label document_id;
    source_document_ids = po.id ∷ document_id ∷ [];
    evidence =
        ("document_type", Value.str (label_str label))
        ∷ ("document_id", Value.uuid document_id)
        ∷ ("expected_purchase_order_id", Value.uuid po.id)
        ∷ ("actual_purchase_order_id", Value.uuid referenced)
        ∷ [];
  }

  unfoldable pub check_header_po_reference :
      EnginePurchaseOrder → Option Uuid → DocumentLabel → Uuid → Option ExceptionDraft
  check_header_po_reference po none label document_id = some (header_missing po label document_id)
  check_header_po_reference po (some referenced) label document_id =
      if referenced == po.id then none else some (header_mismatch po referenced label document_id)

  unfoldable pub grn_before_po : EnginePurchaseOrder → EngineGoodsReceipt → ExceptionDraft
  grn_before_po po grn = record {
    exception_type = date_mismatch;
    severity = ExceptionSeverity.medium;
    message =
        Value.str "GRN "
        ∷ Value.text grn.grn_number
        ∷ Value.str " date "
        ∷ Value.date grn.receipt_date
        ∷ Value.str " is before PO "
        ∷ Value.text po.po_number
        ∷ Value.str " date "
        ∷ Value.date po.order_date
        ∷ Value.str "."
        ∷ [];
    fingerprint = build_fingerprint sha256 (
        Part.str "DATE_MISMATCH"
        ∷ Part.str "grn_before_po"
        ∷ Part.uuid po.id
        ∷ Part.uuid grn.id
        ∷ []);
    purchase_order_id = some po.id;
    goods_receipt_id = some grn.id;
    invoice_id = none;
    source_document_ids = po.id ∷ grn.id ∷ [];
    evidence =
        ("purchase_order_id", Value.uuid po.id)
        ∷ ("goods_receipt_id", Value.uuid grn.id)
        ∷ ("expected_value", Value.date po.order_date)
        ∷ ("actual_value", Value.date grn.receipt_date)
        ∷ ("rule", Value.str "grn_date_before_po_date")
        ∷ [];
  }

  unfoldable pub invoice_before_po : EnginePurchaseOrder → EngineInvoice → ExceptionDraft
  invoice_before_po po inv = record {
    exception_type = date_mismatch;
    severity = ExceptionSeverity.medium;
    message =
        Value.str "Invoice "
        ∷ Value.text inv.invoice_number
        ∷ Value.str " date "
        ∷ Value.date inv.invoice_date
        ∷ Value.str " is before PO "
        ∷ Value.text po.po_number
        ∷ Value.str " date "
        ∷ Value.date po.order_date
        ∷ Value.str "."
        ∷ [];
    fingerprint = build_fingerprint sha256 (
        Part.str "DATE_MISMATCH"
        ∷ Part.str "invoice_before_po"
        ∷ Part.uuid po.id
        ∷ Part.uuid inv.id
        ∷ []);
    purchase_order_id = some po.id;
    goods_receipt_id = none;
    invoice_id = some inv.id;
    source_document_ids = po.id ∷ inv.id ∷ [];
    evidence =
        ("purchase_order_id", Value.uuid po.id)
        ∷ ("invoice_id", Value.uuid inv.id)
        ∷ ("expected_value", Value.date po.order_date)
        ∷ ("actual_value", Value.date inv.invoice_date)
        ∷ ("rule", Value.str "invoice_date_before_po_date")
        ∷ [];
  }

  unfoldable pub grn_date_exceptions :
      EnginePurchaseOrder → List EngineGoodsReceipt → List ExceptionDraft
  grn_date_exceptions po [] = []
  grn_date_exceptions po (grn ∷ grns) =
      let rest = grn_date_exceptions po grns in
      if ltb grn.receipt_date po.order_date then grn_before_po po grn ∷ rest else rest

  unfoldable pub invoice_date_exceptions :
      EnginePurchaseOrder → Option EngineInvoice → List ExceptionDraft
  invoice_date_exceptions po none = []
  invoice_date_exceptions po (some inv) =
      if ltb inv.invoice_date po.order_date then invoice_before_po po inv ∷ [] else []

  unfoldable pub date_exceptions :
      EnginePurchaseOrder → List EngineGoodsReceipt → Option EngineInvoice → List ExceptionDraft
  date_exceptions po grns inv = grn_date_exceptions po grns ++ invoice_date_exceptions po inv
