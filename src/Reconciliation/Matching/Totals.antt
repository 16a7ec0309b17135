-- ===== src/Reconciliation/Matching/Totals.antt =====
-- The quantities that the matching loops add up, against sums over the document's lines.
use recon_ai.Prelude.{
  List, [], ◌∷◌, Option, none, some, ◌≡◌, sym, ◌⊎◌, inl, inr, ◌==◌, ==_iff, if◌then◌else◌, arith,
  ◌∙◌, Bool-cases,
}
use recon_ai.Prelude.Int.{pos, ◌+ℤ◌, +ℤ_zero, zero_+ℤ, +ℤ_assoc}
use recon_ai.Prelude.Text.{Text}
use recon_ai.Reconciliation.Schemas.{
  Uuid, Decimal, EnginePurchaseOrderLine, EnginePurchaseOrder, EngineGoodsReceiptLine,
  EngineGoodsReceipt, EngineInvoiceLine, EngineInvoice, ReconciliationConfig, ExceptionDraft,
  DocumentLabel,
}
use recon_ai.Reconciliation.Rules.Lines.Found.{find_line, match_line_to_po-cases}
use recon_ai.Reconciliation.Matching.{
  Quantities, LineState, start, add_at, quantity_at, count_line, grn_match, match_grn_lines,
  match_grns, invoice_match, match_invoice_line, match_invoice_lines,
}

-- What a line adds to the total of purchase order line `i`.
abbrev pub share : Uuid → Decimal → Option EnginePurchaseOrderLine → Decimal
share i q none = pos 0
share i q (some l) = if i == l.id then q else pos 0

-- The quantity received for purchase order line `i`: the sum over the receipt lines that are found
-- to belong to it.
pub received_by : EnginePurchaseOrder → Uuid → List EngineGoodsReceiptLine → Decimal
received_by po i [] = pos 0
received_by po i (line ∷ lines) =
    share i line.received_quantity (find_line line.purchase_order_line_id line.line_number po.lines)
    +ℤ received_by po i lines

pub received_total : EnginePurchaseOrder → Uuid → List EngineGoodsReceipt → Decimal
received_total po i [] = pos 0
received_total po i (grn ∷ grns) = received_by po i grn.lines +ℤ received_total po i grns

pub invoiced_total : EnginePurchaseOrder → Uuid → List EngineInvoiceLine → Decimal
invoiced_total po i [] = pos 0
invoiced_total po i (line ∷ lines) =
    share i line.quantity (find_line line.purchase_order_line_id line.line_number po.lines)
    +ℤ invoiced_total po i lines

quantity_at-add_at :
    (i j : Uuid) (q : Decimal) (m : Quantities)
    → quantity_at i (add_at j q m) ≡ quantity_at i m +ℤ (if i == j then q else pos 0)
unfolding quantity_at add_at
quantity_at-add_at i j q [] = ground (arith, zero_+ℤ q, zero_+ℤ (pos 0))
quantity_at-add_at i j q ((k, r) ∷ m) = elim (Bool-cases (j == k)) [
  | inl here ↦ rw here (ground (arith, ==_iff j k, +ℤ_zero (quantity_at i m)))
  | inr later ↦ rw later (ground (arith, quantity_at-add_at i j q m, +ℤ_zero r))
]

-- A counted line adds its share.
count_line-share :
    (i : Uuid) (line_id : Uuid) (q : Decimal) (o : Option EnginePurchaseOrderLine)
    (r : Option EnginePurchaseOrderLine × Option ExceptionDraft) (st : LineState)
    → ((l : EnginePurchaseOrderLine) × (o ≡ some l) × (r ≡ (some l, none)))
      ⊎ ((d : ExceptionDraft) × (o ≡ none) × (r ≡ (none, some d)))
    → quantity_at i (count_line line_id q r st).quantities
      ≡ quantity_at i st.quantities +ℤ share i q o
unfolding count_line
count_line-share i line_id q o r st (inl (l, eo, er)) =
    rw (eo, er) (quantity_at-add_at i l.id q st.quantities)
count_line-share i line_id q o r st (inr (d, eo, er)) = rw (eo, er) (sym (+ℤ_zero _))

module _ (sha256 : Text → Text) (po : EnginePurchaseOrder) where
  match_grn_lines_total :
      (i : Uuid) (grn : EngineGoodsReceipt) (lines : List EngineGoodsReceiptLine) (st : LineState)
      → quantity_at i (match_grn_lines sha256 po grn lines st).quantities
        ≡ quantity_at i st.quantities +ℤ received_by po i lines
  unfolding match_grn_lines received_by grn_match
  match_grn_lines_total i grn [] st = sym (+ℤ_zero _)
  match_grn_lines_total i grn (line ∷ lines) st =
      let found = grn_match sha256 po grn line in
      match_grn_lines_total i grn lines (count_line line.id line.received_quantity found st)
      ∙ rw
          (count_line-share i line.id line.received_quantity _ found st (
            match_line_to_po-cases sha256 po line.purchase_order_line_id line.line_number
              DocumentLabel.grn grn.id line.id))
          (+ℤ_assoc _ _ _)

  match_grns_from_total :
      (i : Uuid) (grns : List EngineGoodsReceipt) (st : LineState)
      → quantity_at i (match_grns sha256 po grns st).quantities
        ≡ quantity_at i st.quantities +ℤ received_total po i grns
  unfolding match_grns received_total
  match_grns_from_total i [] st = sym (+ℤ_zero _)
  match_grns_from_total i (grn ∷ grns) st =
      match_grns_from_total i grns (match_grn_lines sha256 po grn grn.lines st)
      ∙ rw (match_grn_lines_total i grn grn.lines st) (+ℤ_assoc _ _ _)

  -- After the receipts of an order are matched, the received quantity of each line is the sum of the
  -- quantities of the receipt lines that belong to it.
  pub match_grns_total :
      (i : Uuid) (grns : List EngineGoodsReceipt)
      → quantity_at i (match_grns sha256 po grns start).quantities ≡ received_total po i grns
  unfolding quantity_at
  match_grns_total i grns = match_grns_from_total i grns start ∙ zero_+ℤ _

  module _ (inv : EngineInvoice) (config : ReconciliationConfig) where
    match_invoice_lines_from_total :
        (i : Uuid) (lines : List EngineInvoiceLine) (st : LineState)
        → quantity_at i (match_invoice_lines sha256 po inv config lines st).quantities
          ≡ quantity_at i st.quantities +ℤ invoiced_total po i lines
    unfolding match_invoice_lines match_invoice_line invoiced_total invoice_match
    match_invoice_lines_from_total i [] st = sym (+ℤ_zero _)
    match_invoice_lines_from_total i (line ∷ lines) st =
        let found = invoice_match sha256 po inv config line in
        match_invoice_lines_from_total i lines (match_invoice_line sha256 po inv config line st)
        ∙ rw
            (count_line-share i line.id line.quantity _ found st (
              match_line_to_po-cases sha256 po line.purchase_order_line_id line.line_number
                DocumentLabel.invoice inv.id line.id))
            (+ℤ_assoc _ _ _)

    -- After the invoice is matched, the invoiced quantity of each line of the order is the sum of the
    -- quantities of the invoice lines that belong to it.
    pub match_invoice_lines_total :
        (i : Uuid) (lines : List EngineInvoiceLine)
        → quantity_at i (match_invoice_lines sha256 po inv config lines start).quantities
          ≡ invoiced_total po i lines
    unfolding quantity_at
    match_invoice_lines_total i lines = match_invoice_lines_from_total i lines start ∙ zero_+ℤ _
