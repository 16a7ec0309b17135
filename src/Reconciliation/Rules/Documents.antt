-- ===== src/Reconciliation/Rules/Documents.antt =====
-- app/reconciliation/rules.py: `missing_document_exception` and `duplicate_invoice_exception`.
use recon_ai.Prelude.{List, [], ◌∷◌, map, Option, none, some}
use recon_ai.Prelude.Text.{Text, sorted, str_uuid}
use recon_ai.Domain.{missing_document, duplicate_invoice, ExceptionSeverity}
use recon_ai.Reconciliation.Schemas.{Uuid, Value, EngineInvoice, ExceptionDraft, opt_uuid, sole}
use recon_ai.Reconciliation.Identity.{Part, build_fingerprint, normalize_invoice_number}
use Prim.Native.String.{String}

abbrev pub opt_part : Option Uuid → Part
opt_part none = Part.null
opt_part (some i) = Part.uuid i

module _ (sha256 : Text → Text) where
  unfoldable pub missing_document_exception :
      String → Option Uuid → Option Uuid → List Uuid → List Uuid → ExceptionDraft
  missing_document_exception missing po_id inv_id grn_ids source_ids = record {
    exception_type = missing_document;
    severity = ExceptionSeverity.critical;
    message = Value.str "Required document missing: " ∷ Value.str missing ∷ Value.str "." ∷ [];
    fingerprint = build_fingerprint sha256 (
        Part.str "MISSING_DOCUMENT"
        ∷ Part.str missing
        ∷ opt_part po_id
        ∷ opt_part inv_id
        ∷ map Part.text (sorted (map str_uuid grn_ids)));
    purchase_order_id = po_id;
    goods_receipt_id = sole grn_ids;
    invoice_id = inv_id;
    source_document_ids = source_ids;
    evidence =
        ("missing_document", Value.str missing)
        ∷ ("purchase_order_id", opt_uuid po_id)
        ∷ ("invoice_id", opt_uuid inv_id)
        ∷ ("goods_receipt_ids", Value.uuids grn_ids)
        ∷ [];
  }

  unfoldable pub duplicate_invoice_exception : EngineInvoice → Uuid → Text → ExceptionDraft
  duplicate_invoice_exception inv other_id other_number =
      let normalized = normalize_invoice_number inv.invoice_number in
      record {
        exception_type = duplicate_invoice;
        severity = ExceptionSeverity.critical;
        message =
            Value.str "Duplicate invoice identity for vendor "
            ∷ Value.uuid inv.vendor_id
            ∷ Value.str ": '"
            ∷ Value.text inv.invoice_number
            ∷ Value.str "' matches existing '"
            ∷ Value.text other_number
            ∷ Value.str "'."
            ∷ [];
        fingerprint = build_fingerprint sha256 (
            Part.str "DUPLICATE_INVOICE"
            ∷ Part.uuid inv.vendor_id
            ∷ Part.text normalized
            ∷ Part.uuid inv.id
            ∷ Part.uuid other_id
            ∷ []);
        purchase_order_id = inv.purchase_order_id;
        goods_receipt_id = none;
        invoice_id = some inv.id;
        source_document_ids = inv.id ∷ other_id ∷ [];
        evidence =
            ("vendor_id", Value.uuid inv.vendor_id)
            ∷ ("invoice_id", Value.uuid inv.id)
            ∷ ("invoice_number", Value.text inv.invoice_number)
            ∷ ("normalized_invoice_number", Value.text normalized)
            ∷ ("duplicate_invoice_id", Value.uuid other_id)
            ∷ ("duplicate_invoice_number", Value.text other_number)
            ∷ ("expected_value", Value.str "unique vendor + normalized invoice number")
            ∷ ("actual_value", Value.text normalized)
            ∷ [];
      }
