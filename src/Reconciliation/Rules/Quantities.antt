-- ===== src/Reconciliation/Rules/Quantities.antt =====
-- app/reconciliation/rules.py: `quantity_exceptions_for_line`.
use recon_ai.Prelude.{List, [], ◌∷◌, ◌++◌, some, if◌then◌else◌}
use recon_ai.Prelude.Int.{◌-ℤ◌}
use recon_ai.Prelude.Text.{Text}
use recon_ai.Domain.{quantity_mismatch, ExceptionSeverity}
use recon_ai.Reconciliation.Schemas.{
  Uuid, Decimal, Value, Message, EnginePurchaseOrderLine, EnginePurchaseOrder, ExceptionDraft,
  ReconciliationConfig, sole,
}
use recon_ai.Reconciliation.Identity.{Part, build_fingerprint}
use recon_ai.Reconciliation.Variance.{exceeds_quantity_tolerance}
use Prim.Native.String.{String}

-- The keyword arguments, which every check of one line shares. The only caller passes an invoice id.
pub record LineFacts : Type 0 where
  pub purchase_order : EnginePurchaseOrder
  pub po_line : EnginePurchaseOrderLine
  pub received_quantity : Decimal
  pub invoiced_quantity : Decimal
  pub grn_line_ids : List Uuid
  pub invoice_line_ids : List Uuid
  pub invoice_id : Uuid
  pub goods_receipt_ids : List Uuid
  pub config : ReconciliationConfig

unfoldable pub quantity_message : String → Decimal → String → Decimal → LineFacts → Message
quantity_message subject left object right facts =
    Value.str subject
    ∷ Value.dec left
    ∷ Value.str object
    ∷ Value.dec right
    ∷ Value.str " on PO line "
    ∷ Value.int facts.po_line.line_number
    ∷ Value.str "."
    ∷ []

module _ (sha256 : Text → Text) where
  unfoldable pub quantity_draft : LineFacts → String → Decimal → Decimal → Message → ExceptionDraft
  quantity_draft facts rule_key left right message = record {
    exception_type = quantity_mismatch;
    severity = ExceptionSeverity.high;
    message = message;
    fingerprint = build_fingerprint sha256 (
        Part.str "QUANTITY_MISMATCH"
        ∷ Part.str rule_key
        ∷ Part.uuid facts.purchase_order.id
        ∷ Part.uuid facts.po_line.id
        ∷ Part.uuid facts.invoice_id
        ∷ []);
    purchase_order_id = some facts.purchase_order.id;
    goods_receipt_id = sole facts.goods_receipt_ids;
    invoice_id = some facts.invoice_id;
    source_document_ids =
        facts.purchase_order.id ∷ (facts.goods_receipt_ids ++ facts.invoice_id ∷ []);
    evidence =
        ("rule", Value.str rule_key)
        ∷ ("purchase_order_id", Value.uuid facts.purchase_order.id)
        ∷ ("purchase_order_line_id", Value.uuid facts.po_line.id)
        ∷ ("line_number", Value.int facts.po_line.line_number)
        ∷ ("ordered_quantity", Value.dec facts.po_line.quantity)
        ∷ ("received_quantity", Value.dec facts.received_quantity)
        ∷ ("invoiced_quantity", Value.dec facts.invoiced_quantity)
        ∷ ("quantity_tolerance", Value.dec facts.config.quantity_tolerance)
        ∷ ("expected_value", Value.dec right)
        ∷ ("actual_value", Value.dec left)
        ∷ ("variance", Value.dec (left -ℤ right))
        ∷ ("grn_line_ids", Value.uuids facts.grn_line_ids)
        ∷ ("invoice_line_ids", Value.uuids facts.invoice_line_ids)
        ∷ ("goods_receipt_ids", Value.uuids facts.goods_receipt_ids)
        ∷ [];
  }

  -- One round of the loop over `checks`.
  unfoldable pub quantity_check :
      LineFacts → String → Decimal → Decimal → Message → List ExceptionDraft
  quantity_check facts rule_key left right message =
      if exceeds_quantity_tolerance left right facts.config.quantity_tolerance
      then quantity_draft facts rule_key left right message ∷ []
      else []

  unfoldable pub quantity_exceptions_for_line : LineFacts → List ExceptionDraft
  quantity_exceptions_for_line facts =
      let ordered = facts.po_line.quantity in
      let received = facts.received_quantity in
      let invoiced = facts.invoiced_quantity in
      quantity_check facts "invoiced_gt_received" invoiced received (
        quantity_message "Invoiced quantity " invoiced " exceeds received quantity " received facts)
      ++ (quantity_check facts "received_gt_ordered" received ordered (
            quantity_message "Received quantity " received " exceeds ordered quantity " ordered
              facts)
          ++ quantity_check facts "invoiced_gt_ordered" invoiced ordered (
              quantity_message "Invoiced quantity " invoiced " exceeds ordered quantity " ordered
                facts))
