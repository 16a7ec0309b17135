-- ===== src/Reconciliation/Matching.antt =====
-- app/reconciliation/engine.py: the loops of `reconcile` that match receipt and invoice lines to
-- purchase order lines and add up their quantities.
pub mod Totals
use recon_ai.Prelude.{List, [], ◌∷◌, ◌++◌, Option, none, some, ◌==◌, if◌then◌else◌, opt_list}
use recon_ai.Prelude.Int.{pos, ◌+ℤ◌}
use recon_ai.Prelude.Text.{Text}
use recon_ai.Reconciliation.Schemas.{
  Uuid, Decimal, EnginePurchaseOrderLine, EnginePurchaseOrder, EngineGoodsReceiptLine,
  EngineGoodsReceipt, EngineInvoiceLine, EngineInvoice, ExceptionDraft, ReconciliationConfig,
  DocumentLabel,
}
use recon_ai.Reconciliation.Rules.Lines.{match_line_to_po}
use recon_ai.Reconciliation.Rules.Prices.{price_exception_for_line, tax_exception_for_line}

-- `defaultdict(Decimal)` and `defaultdict(list)` by purchase order line, in insertion order.
abbrev pub Quantities : Type 0
Quantities = List (Uuid × Decimal)

abbrev pub LineIds : Type 0
LineIds = List (Uuid × List Uuid)

-- `quantities[i] += q`
unfoldable pub add_at : Uuid → Decimal → Quantities → Quantities
add_at i q [] = (i, pos 0 +ℤ q) ∷ []
add_at i q ((j, r) ∷ m) = if i == j then (j, r +ℤ q) ∷ m else (j, r) ∷ add_at i q m

-- `quantities.get(i, Decimal("0"))`
unfoldable pub quantity_at : Uuid → Quantities → Decimal
quantity_at i [] = pos 0
quantity_at i ((j, r) ∷ m) = if i == j then r else quantity_at i m

-- `line_ids[i].append(l)`
unfoldable pub append_at : Uuid → Uuid → LineIds → LineIds
append_at i l [] = (i, l ∷ []) ∷ []
append_at i l ((j, ls) ∷ m) = if i == j then (j, ls ++ l ∷ []) ∷ m else (j, ls) ∷ append_at i l m

-- `line_ids.get(i, [])`
unfoldable pub ids_at : Uuid → LineIds → List Uuid
ids_at i [] = []
ids_at i ((j, ls) ∷ m) = if i == j then ls else ids_at i m

-- `sum(quantities.values(), Decimal("0"))`
unfoldable pub sum_values : Quantities → Decimal
sum_values [] = pos 0
sum_values ((j, r) ∷ m) = r +ℤ sum_values m

-- The variables that one of the two matching loops changes.
pub record LineState : Type 0 where
  pub drafts : List ExceptionDraft
  pub quantities : Quantities
  pub line_ids : LineIds

abbrev pub start : LineState
start = record { drafts = []; quantities = []; line_ids = [] }

-- A line that matched is counted, one that did not is an exception. (No line has neither: the code
-- asserts it.)
unfoldable pub count_line :
    Uuid → Decimal → Option EnginePurchaseOrderLine × Option ExceptionDraft → LineState → LineState
count_line line_id quantity (l, some d) st = record st { drafts = st.drafts ++ d ∷ [] }
count_line line_id quantity (some l, none) st = record st {
  quantities = add_at l.id quantity st.quantities;
  line_ids = append_at l.id line_id st.line_ids;
}
count_line line_id quantity (none, none) st = st

module _ (sha256 : Text → Text) (po : EnginePurchaseOrder) where
  unfoldable pub grn_match :
      EngineGoodsReceipt
      → EngineGoodsReceiptLine
      → Option EnginePurchaseOrderLine × Option ExceptionDraft
  grn_match grn line =
      match_line_to_po sha256 po line.purchase_order_line_id line.line_number DocumentLabel.grn
        grn.id line.id

  unfoldable pub match_grn_lines :
      EngineGoodsReceipt → List EngineGoodsReceiptLine → LineState → LineState
  match_grn_lines grn [] st = st
  match_grn_lines grn (line ∷ lines) st =
      match_grn_lines grn lines (count_line line.id line.received_quantity (grn_match grn line) st)

  unfoldable pub match_grns : List EngineGoodsReceipt → LineState → LineState
  match_grns [] st = st
  match_grns (grn ∷ grns) st = match_grns grns (match_grn_lines grn grn.lines st)

  module _ (inv : EngineInvoice) (config : ReconciliationConfig) where
    unfoldable pub invoice_match :
        EngineInvoiceLine → Option EnginePurchaseOrderLine × Option ExceptionDraft
    invoice_match line =
        match_line_to_po sha256 po line.purchase_order_line_id line.line_number
          DocumentLabel.invoice inv.id line.id

    -- The price and tax rules of a matched line.
    unfoldable pub line_rules :
        EngineInvoiceLine
        → Option EnginePurchaseOrderLine × Option ExceptionDraft
        → List ExceptionDraft
    line_rules line (l, some d) = []
    line_rules line (none, none) = []
    line_rules line (some l, none) =
        opt_list (price_exception_for_line sha256 po l inv line config)
        ++ opt_list (tax_exception_for_line sha256 po l inv line config)

    unfoldable pub match_invoice_line : EngineInvoiceLine → LineState → LineState
    match_invoice_line line st =
        let found = invoice_match line in
        let counted = count_line line.id line.quantity found st in
        record counted { drafts = counted.drafts ++ line_rules line found }

    unfoldable pub match_invoice_lines : List EngineInvoiceLine → LineState → LineState
    match_invoice_lines [] st = st
    match_invoice_lines (line ∷ lines) st = match_invoice_lines lines (match_invoice_line line st)
