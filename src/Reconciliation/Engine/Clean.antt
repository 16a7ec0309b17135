-- ===== src/Reconciliation/Engine/Clean.antt =====
-- The outcome of `reconcile`: what MATCHED means, and when a run is INCOMPLETE.
use recon_ai.Prelude.{
  ◌≤◌, Bool, true, false, List, [], ◌∷◌, Option, none, some, ◌≡◌, ◌↔◌, arith, All, append-eq-nil,
  is_empty,
}
use recon_ai.Prelude.Text.{Text}
use recon_ai.Domain.{matched, incomplete}
use recon_ai.Reconciliation.Schemas.{
  EnginePurchaseOrderLine, EnginePurchaseOrder, EngineGoodsReceipt, EngineInvoice,
  ReconciliationInput, ExceptionDraft,
}
use recon_ai.Reconciliation.Matching.{start, match_grns, match_invoice_lines, quantity_at}
use recon_ai.Reconciliation.Matching.Totals.{
  received_total, invoiced_total, match_grns_total, match_invoice_lines_total,
}
use recon_ai.Reconciliation.Report.{resolve_status, dedupe_drafts}
use recon_ai.Reconciliation.Report.Dedupe.{dedupe_drafts-eq-nil}
use recon_ai.Reconciliation.Engine.{
  is_incomplete, missing_drafts, all_drafts, with_po, without_po, nothing_supplied,
  reconcile_documents, reconcile, match_invoice, quantity_phase,
}
use recon_ai.Reconciliation.Engine.Phases.{
  IsDuplicate, IsFound, IsPriced, QuantitiesAgree, duplicate_drafts-eq-nil,
  grn_header_drafts-eq-nil, invoice_header_drafts-eq-nil, date_exceptions-eq-nil,
}
use recon_ai.Reconciliation.Engine.Matches.{
  match_grns-eq-nil, match_invoice_lines-eq-nil, quantity_drafts-eq-nil,
}

-- The three documents agree.
pub record Agrees (po : EnginePurchaseOrder) (inv : EngineInvoice) (grns : List EngineGoodsReceipt)
    (payload : ReconciliationInput) : Type 0 where
  pub grns_refer : All (λ grn. grn.purchase_order_id ≡ po.id) grns
  pub invoice_refers : inv.purchase_order_id ≡ some po.id
  pub grns_dated : All (λ grn. po.order_date ≤ grn.receipt_date) grns
  pub invoice_dated : po.order_date ≤ inv.invoice_date
  pub not_duplicate : All (λ c. ¬ IsDuplicate inv c) payload.duplicate_candidates
  pub received_lines : All (λ grn. All (IsFound po) grn.lines) grns
  pub invoiced_lines : All (IsPriced po payload.config) inv.lines
  pub quantities :
      All
        (λ l.
          QuantitiesAgree payload.config l
            (received_total po l.id grns)
            (invoiced_total po l.id inv.lines))
        po.lines

-- A purchase order, an invoice and a goods receipt are supplied, and agree.
abbrev pub IsThreeWayMatch :
    Option EnginePurchaseOrder
    → Option EngineInvoice
    → List EngineGoodsReceipt
    → ReconciliationInput
    → Type 0
IsThreeWayMatch (some po) (some inv) grns payload =
    (is_empty grns ≡ false) × Agrees po inv grns payload
IsThreeWayMatch _ _ grns payload = ⊥

resolve_status-matched :
    (ds : List ExceptionDraft) (b : Bool)
    → (resolve_status ds b ≡ matched) ↔ ((b ≡ false) × (ds ≡ []))
unfolding resolve_status
resolve_status-matched [] b = (λ h. ground arith, λ h. ground arith)
resolve_status-matched (d ∷ ds) b = (λ h. ground arith, λ h. absurd (not_nil h.1))
  where
    not_nil : d ∷ ds ≡ [] → ⊥
    not_nil e = cc

module _ (sha256 : Text → Text) (po : EnginePurchaseOrder) where
  module _ (inv : EngineInvoice) (grns : List EngineGoodsReceipt)
      (payload : ReconciliationInput) where
    quantities_lem :
        (ls : List EnginePurchaseOrderLine)
        → All
            (λ l.
              QuantitiesAgree payload.config l
                (quantity_at l.id (match_grns sha256 po grns start).quantities)
                (quantity_at l.id
                  (match_invoice_lines sha256 po inv payload.config inv.lines start).quantities))
            ls
          ↔ All
              (λ l.
                QuantitiesAgree payload.config l
                  (received_total po l.id grns)
                  (invoiced_total po l.id inv.lines))
              ls
    quantities_lem [] = (λ h. h, λ h. h)
    quantities_lem (l ∷ ls) =
        let rest = quantities_lem ls in
        let r = match_grns_total sha256 po l.id grns in
        let i = match_invoice_lines_total sha256 po inv payload.config l.id inv.lines in
        (λ h. (rw (← r, ← i) h.0, rest.0 h.1), λ h. (rw (r, i) h.0, rest.1 h.1))

    no_drafts→Agrees :
        is_empty grns ≡ false
        → all_drafts sha256 po (some inv) grns payload ≡ []
        → Agrees po inv grns payload
    unfolding all_drafts
    no_drafts→Agrees some_grn h =
        let s1 = (append-eq-nil _ _).0 h in
        let s2 = (append-eq-nil _ _).0 s1.1 in
        let s3 = (append-eq-nil _ _).0 s2.1 in
        let s4 = (append-eq-nil _ _).0 s3.1 in
        let s5 = (append-eq-nil _ _).0 s4.1 in
        let s6 = (append-eq-nil _ _).0 s5.1 in
        let s7 = (append-eq-nil _ _).0 s6.1 in
        let dates = (date_exceptions-eq-nil sha256 po grns inv).0 s5.0 in
        record {
          grns_refer = (grn_header_drafts-eq-nil sha256 po grns).0 s3.0;
          invoice_refers = (invoice_header_drafts-eq-nil sha256 po inv).0 s4.0;
          grns_dated = dates.0;
          invoice_dated = dates.1;
          not_duplicate = (duplicate_drafts-eq-nil sha256 inv payload.duplicate_candidates).0 s2.0;
          received_lines = (match_grns-eq-nil sha256 po grns).0 s6.0;
          invoiced_lines =
              (match_invoice_lines-eq-nil sha256 po inv payload.config inv.lines).0 s7.0;
          quantities = (quantities_lem po.lines).0 (
              (quantity_drafts-eq-nil sha256 po inv payload (match_grns sha256 po grns start)
                  (match_invoice_lines sha256 po inv payload.config inv.lines start) po.lines).0
                (let q : quantity_phase sha256 po (some inv) grns payload
                        (match_grns sha256 po grns start)
                        (match_invoice sha256 po (some inv) payload)
                      ≡ [] =
                    s7.1 in
                  rw some_grn at q));
        }

    Agrees→no_drafts :
        is_empty grns ≡ false
        → Agrees po inv grns payload
        → all_drafts sha256 po (some inv) grns payload ≡ []
    unfolding all_drafts missing_drafts
    Agrees→no_drafts some_grn a = rw some_grn (
        (append-eq-nil _ _).1 (
          (duplicate_drafts-eq-nil sha256 inv payload.duplicate_candidates).1 a.not_duplicate,
          (append-eq-nil _ _).1 (
            (grn_header_drafts-eq-nil sha256 po grns).1 a.grns_refer,
            (append-eq-nil _ _).1 (
              (invoice_header_drafts-eq-nil sha256 po inv).1 a.invoice_refers,
              (append-eq-nil _ _).1 (
                (date_exceptions-eq-nil sha256 po grns inv).1 (a.grns_dated, a.invoice_dated),
                (append-eq-nil _ _).1 (
                  (match_grns-eq-nil sha256 po grns).1 a.received_lines,
                  (append-eq-nil _ _).1 (
                    (match_invoice_lines-eq-nil sha256 po inv payload.config inv.lines).1
                        a.invoiced_lines,
                    (quantity_drafts-eq-nil sha256 po inv payload (match_grns sha256 po grns start)
                          (match_invoice_lines sha256 po inv payload.config inv.lines start)
                          po.lines).1
                        ((quantities_lem po.lines).1 a.quantities),
                  ),
                ),
              ),
            ),
          ),
        ))

  with_po-matched :
      (inv : Option EngineInvoice) (grns : List EngineGoodsReceipt) (payload : ReconciliationInput)
      → ((with_po sha256 po inv grns payload).status ≡ matched)
        ↔ IsThreeWayMatch (some po) inv grns payload
  unfolding with_po is_incomplete
  with_po-matched none grns payload =
      (λ h. cc (((resolve_status-matched _ true).0 h).0), λ h. absurd h)
  with_po-matched (some inv) grns payload =
      let status =
        resolve_status-matched (dedupe_drafts (all_drafts sha256 po (some inv) grns payload))
          (is_empty grns) in
      let unique = dedupe_drafts-eq-nil (all_drafts sha256 po (some inv) grns payload) in
      (
        λ h. let r = status.0 h in (r.0, no_drafts→Agrees inv grns payload r.0 (unique.0 r.1)),
        λ h. status.1 (h.0, unique.1 (Agrees→no_drafts inv grns payload h.0 h.1)),
      )

incomplete_ne : {A : Type 0} → incomplete ≡ matched → A
incomplete_ne e = absurd (cc)

reconcile_documents-matched :
    (sha256 : Text → Text) (payload : ReconciliationInput) (po : Option EnginePurchaseOrder)
    (inv : Option EngineInvoice) (grns : List EngineGoodsReceipt)
    → ((reconcile_documents sha256 po inv grns payload).status ≡ matched)
      ↔ IsThreeWayMatch po inv grns payload
unfolding reconcile_documents nothing_supplied without_po resolve_status
reconcile_documents-matched sha256 payload (some po) inv grns =
    with_po-matched sha256 po inv grns payload
reconcile_documents-matched sha256 payload none none [] = (λ h. incomplete_ne h, λ h. absurd h)
reconcile_documents-matched sha256 payload none none (g ∷ gs) =
    (λ h. incomplete_ne h, λ h. absurd h)
reconcile_documents-matched sha256 payload none (some inv) grns =
    (λ h. incomplete_ne h, λ h. absurd h)

-- A run ends as MATCHED exactly when a purchase order, an invoice and at least one goods receipt are
-- supplied and agree: the headers refer to the order, no document is dated before it, the invoice
-- repeats none of the vendor's normalised invoice numbers, every receipt and invoice line belongs to
-- a line of the order, prices and tax rates keep within their tolerances, and for each order line
-- the totals over all lines that belong to it keep to one another within the quantity tolerance.
pub reconcile-matched :
    (sha256 : Text → Text) (payload : ReconciliationInput)
    → ((reconcile sha256 payload).status ≡ matched)
      ↔ IsThreeWayMatch payload.purchase_order payload.invoice payload.goods_receipts payload
unfolding reconcile
reconcile-matched sha256 payload =
    reconcile_documents-matched sha256 payload payload.purchase_order payload.invoice
      payload.goods_receipts
