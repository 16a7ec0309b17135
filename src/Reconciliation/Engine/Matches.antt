-- ===== src/Reconciliation/Engine/Matches.antt =====
-- When the matching of lines and the quantity rules draft nothing, said without their code.
use recon_ai.Prelude.{
  false, ◌&&◌, List, [], ◌∷◌, ◌++◌, Option, none, some, ◌≡◌, refl, sym, ◌↔◌, ◌⊎◌, inl, inr, arith,
  ◌∙◌, Bool-cases, All, append-eq-nil,
}
use recon_ai.Prelude.Int.{pos, ◌+ℤ◌, ◌≤ℤ◌, eqb_ℤ}
use recon_ai.Prelude.Text.{Text}
use recon_ai.Reconciliation.Schemas.{
  Uuid, Decimal, EnginePurchaseOrderLine, EnginePurchaseOrder, EngineGoodsReceiptLine,
  EngineGoodsReceipt, EngineInvoiceLine, EngineInvoice, ReconciliationConfig, ReconciliationInput,
  ExceptionDraft, DocumentLabel,
}
use recon_ai.Reconciliation.Variance.{exceeds_percent_tolerance, exceeds_quantity_tolerance}
use recon_ai.Reconciliation.Rules.Prices.{price_exception_for_line, tax_exception_for_line}
use recon_ai.Reconciliation.Rules.Quantities.{
  LineFacts, quantity_check, quantity_exceptions_for_line,
}
use recon_ai.Reconciliation.Rules.Lines.Found.{match_line_to_po-cases}
use recon_ai.Reconciliation.Matching.{
  LineState, start, count_line, grn_match, match_grn_lines, match_grns, invoice_match, line_rules,
  match_invoice_line, match_invoice_lines, quantity_at,
}
use recon_ai.Reconciliation.Engine.{line_facts, line_quantity_drafts, quantity_drafts}
use recon_ai.Reconciliation.Engine.Phases.{IsFound, IsPriced, QuantitiesAgree, both_zero_iff, clash}

module _ (sha256 : Text → Text) where
  -- A counted line leaves no draft exactly when there was none and the line is found.
  count_line-eq-nil :
      (line_id : Uuid) (q : Decimal) (o : Option EnginePurchaseOrderLine)
      (r : Option EnginePurchaseOrderLine × Option ExceptionDraft) (st : LineState)
      → ((l : EnginePurchaseOrderLine) × (o ≡ some l) × (r ≡ (some l, none)))
        ⊎ ((d : ExceptionDraft) × (o ≡ none) × (r ≡ (none, some d)))
      → ((count_line line_id q r st).drafts ≡ [])
        ↔ ((st.drafts ≡ []) × ((l : EnginePurchaseOrderLine) × (o ≡ some l)))
  unfolding count_line
  count_line-eq-nil line_id q o r st (inl (l, eo, er)) = rw er (λ h. (h, (l, eo)), λ h. h.0)
  count_line-eq-nil line_id q o r st (inr (d, eo, er)) = rw er (
    λ h. absurd (not_nil ((append-eq-nil st.drafts (d ∷ [])).0 h).1),
    λ h. absurd (not_found (sym eo ∙ h.1.1)),
  )
    where
      not_nil : d ∷ [] ≡ [] → ⊥
      not_nil e = cc

      not_found : {l : EnginePurchaseOrderLine} → none ≡ some l → ⊥
      not_found e = cc

  module _ (po : EnginePurchaseOrder) where
    match_grn_lines-eq-nil :
        (grn : EngineGoodsReceipt) (lines : List EngineGoodsReceiptLine) (st : LineState)
        → ((match_grn_lines sha256 po grn lines st).drafts ≡ [])
          ↔ ((st.drafts ≡ []) × All (IsFound po) lines)
    unfolding match_grn_lines grn_match
    match_grn_lines-eq-nil grn [] st = (λ h. (h, tt), λ h. h.0)
    match_grn_lines-eq-nil grn (line ∷ lines) st =
        let found = grn_match sha256 po grn line in
        let here = count_line-eq-nil line.id line.received_quantity _ found st (
          match_line_to_po-cases sha256 po line.purchase_order_line_id line.line_number
            DocumentLabel.grn grn.id line.id) in
        let rest =
          match_grn_lines-eq-nil grn lines (count_line line.id line.received_quantity found st) in
        (
          λ h. let first = here.0 (rest.0 h).0 in (first.0, (first.1, (rest.0 h).1)),
          λ h. rest.1 (here.1 (h.0, h.1.0), h.1.1),
        )

    match_grns_from-eq-nil :
        (grns : List EngineGoodsReceipt) (st : LineState)
        → ((match_grns sha256 po grns st).drafts ≡ [])
          ↔ ((st.drafts ≡ []) × All (λ grn. All (IsFound po) grn.lines) grns)
    unfolding match_grns
    match_grns_from-eq-nil [] st = (λ h. (h, tt), λ h. h.0)
    match_grns_from-eq-nil (grn ∷ grns) st =
        let here = match_grn_lines-eq-nil grn grn.lines st in
        let rest = match_grns_from-eq-nil grns (match_grn_lines sha256 po grn grn.lines st) in
        (
          λ h. let first = here.0 (rest.0 h).0 in (first.0, (first.1, (rest.0 h).1)),
          λ h. rest.1 (here.1 (h.0, h.1.0), h.1.1),
        )

    pub match_grns-eq-nil :
        (grns : List EngineGoodsReceipt)
        → ((match_grns sha256 po grns start).drafts ≡ [])
          ↔ All (λ grn. All (IsFound po) grn.lines) grns
    match_grns-eq-nil grns =
        let from = match_grns_from-eq-nil grns start in (λ h. (from.0 h).1, λ h. from.1 (refl, h))

    module _ (inv : EngineInvoice) (config : ReconciliationConfig) where
      price-eq-nil :
          (l : EnginePurchaseOrderLine) (line : EngineInvoiceLine)
          → (line_rules sha256 po inv config line (some l, none) ≡ []) ↔ (
              (exceeds_percent_tolerance l.unit_price line.unit_price config.price_tolerance_percent
                ≡ false)
              × (exceeds_percent_tolerance l.tax_rate line.tax_rate
                    config.tax_rate_tolerance_percent
                  ≡ false))
      unfolding line_rules price_exception_for_line tax_exception_for_line
      price-eq-nil l line = (λ h. ground arith, λ h. ground arith)

      invoice_step-eq-nil :
          (line : EngineInvoiceLine) (o : Option EnginePurchaseOrderLine)
          (r : Option EnginePurchaseOrderLine × Option ExceptionDraft) (st : LineState)
          → ((l : EnginePurchaseOrderLine) × (o ≡ some l) × (r ≡ (some l, none)))
            ⊎ ((d : ExceptionDraft) × (o ≡ none) × (r ≡ (none, some d)))
          → ((count_line line.id line.quantity r st).drafts
                ++ line_rules sha256 po inv config line r
              ≡ [])
            ↔ ((st.drafts ≡ [])
                × (l : EnginePurchaseOrderLine) × (o ≡ some l)
                × (exceeds_percent_tolerance l.unit_price line.unit_price
                      config.price_tolerance_percent
                    ≡ false)
                × (exceeds_percent_tolerance l.tax_rate line.tax_rate
                      config.tax_rate_tolerance_percent
                    ≡ false))
      unfolding count_line
      invoice_step-eq-nil line o r st (inl (l, eo, er)) =
          let split =
            append-eq-nil st.drafts (line_rules sha256 po inv config line (some l, none)) in
          let priced = price-eq-nil l line in
          rw er (
            λ h. let p = priced.0 (split.0 h).1 in ((split.0 h).0, l, eo, p.0, p.1),
            λ h.
                let same : l ≡ h.1 = cc (eo, h.2) in
                split.1 (h.0, priced.1 (rw same h.3, rw same h.4)),
          )
      invoice_step-eq-nil line o r st (inr (d, eo, er)) = rw er (
        λ h. absurd (
            not_nil
              ((append-eq-nil st.drafts (d ∷ [])).0
                ((append-eq-nil (st.drafts ++ d ∷ []) _).0 h).0).1),
        λ h. absurd (not_found (sym eo ∙ h.2)),
      )
        where
          not_nil : d ∷ [] ≡ [] → ⊥
          not_nil e = cc

          not_found : {l : EnginePurchaseOrderLine} → none ≡ some l → ⊥
          not_found e = cc

      match_invoice_line-eq-nil :
          (line : EngineInvoiceLine) (st : LineState)
          → ((match_invoice_line sha256 po inv config line st).drafts ≡ [])
            ↔ ((st.drafts ≡ []) × IsPriced po config line)
      unfolding match_invoice_line invoice_match
      match_invoice_line-eq-nil line st =
          let found = invoice_match sha256 po inv config line in
          let step = invoice_step-eq-nil line _ found st (
            match_line_to_po-cases sha256 po line.purchase_order_line_id line.line_number
              DocumentLabel.invoice inv.id line.id) in
          (
            λ h. let r = step.0 h in (r.0, (r.1, r.2, r.3, r.4)),
            λ h. step.1 (h.0, h.1.0, h.1.1, h.1.2, h.1.3),
          )

      match_invoice_lines_from-eq-nil :
          (lines : List EngineInvoiceLine) (st : LineState)
          → ((match_invoice_lines sha256 po inv config lines st).drafts ≡ [])
            ↔ ((st.drafts ≡ []) × All (IsPriced po config) lines)
      unfolding match_invoice_lines
      match_invoice_lines_from-eq-nil [] st = (λ h. (h, tt), λ h. h.0)
      match_invoice_lines_from-eq-nil (line ∷ lines) st =
          let here = match_invoice_line-eq-nil line st in
          let rest =
            match_invoice_lines_from-eq-nil lines
              (match_invoice_line sha256 po inv config line st) in
          (
            λ h. let first = here.0 (rest.0 h).0 in (first.0, (first.1, (rest.0 h).1)),
            λ h. rest.1 (here.1 (h.0, h.1.0), h.1.1),
          )

      pub match_invoice_lines-eq-nil :
          (lines : List EngineInvoiceLine)
          → ((match_invoice_lines sha256 po inv config lines start).drafts ≡ [])
            ↔ All (IsPriced po config) lines
      match_invoice_lines-eq-nil lines =
          let from = match_invoice_lines_from-eq-nil lines start in
          (λ h. (from.0 h).1, λ h. from.1 (refl, h))

  pub quantity_exceptions-eq-nil :
      (facts : LineFacts)
      → (quantity_exceptions_for_line sha256 facts ≡ []) ↔ (
          (facts.invoiced_quantity ≤ℤ facts.received_quantity +ℤ facts.config.quantity_tolerance)
          × (facts.received_quantity ≤ℤ facts.po_line.quantity +ℤ facts.config.quantity_tolerance)
          × (facts.invoiced_quantity ≤ℤ facts.po_line.quantity +ℤ facts.config.quantity_tolerance))
  unfolding quantity_exceptions_for_line quantity_check exceeds_quantity_tolerance
  quantity_exceptions-eq-nil facts = (λ h. ground arith, λ h. ground arith)

  module _ (po : EnginePurchaseOrder) (inv : EngineInvoice) (payload : ReconciliationInput)
      (grn_state inv_state : LineState) where
    line_quantity_drafts-eq-nil :
        (l : EnginePurchaseOrderLine)
        → (line_quantity_drafts sha256 po inv payload grn_state inv_state l ≡ [])
          ↔ QuantitiesAgree payload.config l
              (quantity_at l.id grn_state.quantities)
              (quantity_at l.id inv_state.quantities)
    unfolding line_quantity_drafts
    line_quantity_drafts-eq-nil l =
        let received = quantity_at l.id grn_state.quantities in
        let invoiced = quantity_at l.id inv_state.quantities in
        let facts = line_facts po inv payload grn_state inv_state l in
        let rules = quantity_exceptions-eq-nil facts in
        elim (Bool-cases (eqb_ℤ received (pos 0) && eqb_ℤ invoiced (pos 0))) [
          | inl idle ↦ rw idle (λ h. inl ((both_zero_iff received invoiced).0 idle), λ h. refl)
          | inr active ↦ rw active (
            λ h. inr (rules.0 h),
            λ h. elim h [
              | inl idle ↦ absurd (clash ((both_zero_iff received invoiced).1 idle) active)
              | inr agree ↦ rules.1 agree
            ],
          )
        ]

    pub quantity_drafts-eq-nil :
        (ls : List EnginePurchaseOrderLine)
        → (quantity_drafts sha256 po inv payload grn_state inv_state ls ≡ [])
          ↔ All
              (λ l.
                QuantitiesAgree payload.config l
                  (quantity_at l.id grn_state.quantities)
                  (quantity_at l.id inv_state.quantities))
              ls
    unfolding quantity_drafts
    quantity_drafts-eq-nil [] = (λ h. tt, λ h. refl)
    quantity_drafts-eq-nil (l ∷ ls) =
        let split =
          append-eq-nil (line_quantity_drafts sha256 po inv payload grn_state inv_state l)
            (quantity_drafts sha256 po inv payload grn_state inv_state ls) in
        let here = line_quantity_drafts-eq-nil l in
        let rest = quantity_drafts-eq-nil ls in
        (λ h. (here.0 (split.0 h).0, rest.0 (split.0 h).1), λ h. split.1 (here.1 h.0, rest.1 h.1))
