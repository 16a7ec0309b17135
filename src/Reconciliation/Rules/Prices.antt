-- ===== src/Reconciliation/Rules/Prices.antt =====
-- app/reconciliation/rules.py: `price_exception_for_line` and `tax_exception_for_line`.
use recon_ai.Prelude.{[], ◌∷◌, Option, none, some, if◌then◌else◌}
use recon_ai.Prelude.Int.{pos, ◌-ℤ◌, abs_ℕ}
use recon_ai.Prelude.Text.{Text}
use recon_ai.Domain.{price_mismatch, tax_mismatch, ExceptionSeverity}
use recon_ai.Reconciliation.Schemas.{
  Value, EnginePurchaseOrderLine, EnginePurchaseOrder, EngineInvoice, EngineInvoiceLine,
  ExceptionDraft, ReconciliationConfig,
}
use recon_ai.Reconciliation.Identity.{Part, build_fingerprint}
use recon_ai.Reconciliation.Variance.{percent_variance, exceeds_percent_tolerance}

module _ (sha256 : Text → Text) where
  unfoldable pub price_draft :
      EnginePurchaseOrder
      → EnginePurchaseOrderLine
      → EngineInvoice
      → EngineInvoiceLine
      → ReconciliationConfig
      → ExceptionDraft
  price_draft po po_line inv inv_line config =
      let expected = po_line.unit_price in
      let billed = inv_line.unit_price in
      record {
        exception_type = price_mismatch;
        severity = ExceptionSeverity.high;
        message =
            Value.str "Unit price mismatch on PO line "
            ∷ Value.int po_line.line_number
            ∷ Value.str ": expected "
            ∷ Value.dec expected
            ∷ Value.str ", billed "
            ∷ Value.dec billed
            ∷ Value.str "."
            ∷ [];
        fingerprint = build_fingerprint sha256 (
            Part.str "PRICE_MISMATCH"
            ∷ Part.uuid po.id
            ∷ Part.uuid po_line.id
            ∷ Part.uuid inv.id
            ∷ Part.uuid inv_line.id
            ∷ []);
        purchase_order_id = some po.id;
        goods_receipt_id = none;
        invoice_id = some inv.id;
        source_document_ids = po.id ∷ inv.id ∷ [];
        evidence =
            ("purchase_order_id", Value.uuid po.id)
            ∷ ("purchase_order_line_id", Value.uuid po_line.id)
            ∷ ("invoice_id", Value.uuid inv.id)
            ∷ ("invoice_line_id", Value.uuid inv_line.id)
            ∷ ("line_number", Value.int po_line.line_number)
            ∷ ("expected_unit_price", Value.dec expected)
            ∷ ("billed_unit_price", Value.dec billed)
            ∷ ("absolute_variance", Value.dec (pos (abs_ℕ (billed -ℤ expected))))
            ∷ ("percentage_variance", Value.ratio (percent_variance expected billed))
            ∷ ("price_tolerance_percent", Value.dec config.price_tolerance_percent)
            ∷ ("expected_value", Value.dec expected)
            ∷ ("actual_value", Value.dec billed)
            ∷ [];
      }

  unfoldable pub price_exception_for_line :
      EnginePurchaseOrder
      → EnginePurchaseOrderLine
      → EngineInvoice
      → EngineInvoiceLine
      → ReconciliationConfig
      → Option ExceptionDraft
  price_exception_for_line po po_line inv inv_line config =
      if exceeds_percent_tolerance po_line.unit_price inv_line.unit_price
        config.price_tolerance_percent
      then some (price_draft po po_line inv inv_line config)
      else none

  unfoldable pub tax_draft :
      EnginePurchaseOrder
      → EnginePurchaseOrderLine
      → EngineInvoice
      → EngineInvoiceLine
      → ReconciliationConfig
      → ExceptionDraft
  tax_draft po po_line inv inv_line config =
      let expected = po_line.tax_rate in
      let actual = inv_line.tax_rate in
      record {
        exception_type = tax_mismatch;
        severity = ExceptionSeverity.medium;
        message =
            Value.str "Tax rate mismatch on PO line "
            ∷ Value.int po_line.line_number
            ∷ Value.str ": expected "
            ∷ Value.dec expected
            ∷ Value.str ", invoiced "
            ∷ Value.dec actual
            ∷ Value.str "."
            ∷ [];
        fingerprint = build_fingerprint sha256 (
            Part.str "TAX_MISMATCH"
            ∷ Part.uuid po.id
            ∷ Part.uuid po_line.id
            ∷ Part.uuid inv.id
            ∷ Part.uuid inv_line.id
            ∷ []);
        purchase_order_id = some po.id;
        goods_receipt_id = none;
        invoice_id = some inv.id;
        source_document_ids = po.id ∷ inv.id ∷ [];
        evidence =
            ("purchase_order_id", Value.uuid po.id)
            ∷ ("purchase_order_line_id", Value.uuid po_line.id)
            ∷ ("invoice_id", Value.uuid inv.id)
            ∷ ("invoice_line_id", Value.uuid inv_line.id)
            ∷ ("line_number", Value.int po_line.line_number)
            ∷ ("expected_tax_rate", Value.dec expected)
            ∷ ("actual_tax_rate", Value.dec actual)
            ∷ ("absolute_variance", Value.dec (pos (abs_ℕ (actual -ℤ expected))))
            ∷ ("percentage_variance", Value.ratio (percent_variance expected actual))
            ∷ ("tax_rate_tolerance_percent", Value.dec config.tax_rate_tolerance_percent)
            ∷ ("expected_value", Value.dec expected)
            ∷ ("actual_value", Value.dec actual)
            ∷ [];
      }

  unfoldable pub tax_exception_for_line :
      EnginePurchaseOrder
      → EnginePurchaseOrderLine
      → EngineInvoice
      → EngineInvoiceLine
      → ReconciliationConfig
      → Option ExceptionDraft
  tax_exception_for_line po po_line inv inv_line config =
      if exceeds_percent_tolerance po_line.tax_rate inv_line.tax_rate
        config.tax_rate_tolerance_percent
      then some (tax_draft po po_line inv inv_line config)
      else none
