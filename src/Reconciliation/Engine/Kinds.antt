-- ===== src/Reconciliation/Engine/Kinds.antt =====
-- Which types of exception each phase of `reconcile` may draft, and what a run with a document
-- missing may report.
use recon_ai.Prelude.{
  ℕ, Bool, true, false, List, [], ◌∷◌, Option, none, some, ◌≡◌, refl, inl, inr, if◌then◌else◌,
  arith, Bool-cases, All, All-append, opt_list,
}
use Prim.Native.String.{String}
use recon_ai.Prelude.Text.{Text}
use recon_ai.Domain.{
  ExceptionType, quantity_mismatch, price_mismatch, tax_mismatch, identifier_mismatch,
  duplicate_invoice, date_mismatch, missing_document,
}
use recon_ai.Reconciliation.Schemas.{
  Uuid, Decimal, Message, EnginePurchaseOrderLine, EnginePurchaseOrder, EngineGoodsReceipt,
  EngineGoodsReceiptLine, EngineInvoice, EngineInvoiceLine, DuplicateInvoiceCandidate,
  ReconciliationInput, ReconciliationConfig, ExceptionDraft, DocumentLabel,
}
use recon_ai.Reconciliation.Rules.Lines.{
  missing_reference, ambiguous_line, match_line_to_po, line_by_id, lines_by_number, by_reference,
  by_number,
}
use recon_ai.Reconciliation.Rules.Headers.{
  header_missing, header_mismatch, check_header_po_reference, grn_before_po, invoice_before_po,
  grn_date_exceptions, invoice_date_exceptions, date_exceptions,
}
use recon_ai.Reconciliation.Rules.Prices.{
  price_draft, price_exception_for_line, tax_draft, tax_exception_for_line,
}
use recon_ai.Reconciliation.Rules.Quantities.{
  LineFacts, quantity_draft, quantity_check, quantity_exceptions_for_line,
}
use recon_ai.Reconciliation.Rules.Documents.{
  missing_document_exception, duplicate_invoice_exception,
}
use recon_ai.Reconciliation.Matching.{
  LineState, start, count_line, grn_match, match_grn_lines, match_grns, invoice_match, line_rules,
  match_invoice_line, match_invoice_lines,
}
use recon_ai.Reconciliation.Report.{seen_in, dedupe_from}
use recon_ai.Reconciliation.Engine.{
  is_incomplete, is_duplicate, missing_drafts, all_drafts, duplicate_drafts, grn_header_drafts,
  invoice_header_drafts, line_facts, line_quantity_drafts, quantity_drafts,
}

-- Every draft has a type that `p` admits.
abbrev pub AllOf : (ExceptionType → Bool) → List ExceptionDraft → Type 0
AllOf p = All (λ d. p d.exception_type ≡ true)

module _ (p : ExceptionType → Bool) where
  pub dedupe_from-AllOf :
      (seen : List Text) (ds : List ExceptionDraft) → AllOf p ds → AllOf p (dedupe_from seen ds)
  unfolding dedupe_from
  dedupe_from-AllOf seen [] h = tt
  dedupe_from-AllOf seen (d ∷ ds) h = elim (Bool-cases (seen_in d.fingerprint seen)) [
    | inl old ↦ rw (old, dedupe_from) (dedupe_from-AllOf seen ds h.1)
    | inr new ↦ rw (new, dedupe_from) (h.0, dedupe_from-AllOf (d.fingerprint ∷ seen) ds h.1)
  ]

  unless-AllOf : (b : Bool) (ds : List ExceptionDraft) → AllOf p ds → AllOf p (if b then [] else ds)
  unless-AllOf true ds h = tt
  unless-AllOf false ds h = h

  module _ (sha256 : Text → Text) where
    pub duplicate_drafts-AllOf :
        p duplicate_invoice ≡ true
        → (inv : EngineInvoice) (cs : List DuplicateInvoiceCandidate)
        → AllOf p (duplicate_drafts sha256 inv cs)
    unfolding duplicate_drafts duplicate_invoice_exception
    duplicate_drafts-AllOf h inv [] = tt
    duplicate_drafts-AllOf h inv (c ∷ cs) = elim (Bool-cases (is_duplicate inv c)) [
      | inl dup ↦ rw dup (h, duplicate_drafts-AllOf h inv cs)
      | inr new ↦ rw new (duplicate_drafts-AllOf h inv cs)
    ]

    pub missing_drafts-AllOf :
        p missing_document ≡ true
        → (po : Option EnginePurchaseOrder) (inv : Option EngineInvoice)
          (grns : List EngineGoodsReceipt) (payload : ReconciliationInput)
        → AllOf p (missing_drafts sha256 po inv grns payload)
    unfolding missing_drafts missing_document_exception
    missing_drafts-AllOf h none none grns payload = (h, (h, tt))
    missing_drafts-AllOf h none (some inv) grns payload = (h, tt)
    missing_drafts-AllOf h (some po) none grns payload = (h, tt)
    missing_drafts-AllOf h (some po) (some inv) [] payload = (h, tt)
    missing_drafts-AllOf h (some po) (some inv) (g ∷ gs) payload = tt

    module _ (po : EnginePurchaseOrder) where
      header-AllOf :
          p identifier_mismatch ≡ true
          → (ref : Option Uuid) (label : DocumentLabel) (i : Uuid)
          → AllOf p (opt_list (check_header_po_reference sha256 po ref label i))
      unfolding check_header_po_reference header_missing header_mismatch
      header-AllOf h none label i = (h, tt)
      header-AllOf h (some r) label i = ground arith

      grn_header_drafts-AllOf :
          p identifier_mismatch ≡ true
          → (grns : List EngineGoodsReceipt) → AllOf p (grn_header_drafts sha256 po grns)
      unfolding grn_header_drafts
      grn_header_drafts-AllOf h [] = tt
      grn_header_drafts-AllOf h (grn ∷ grns) =
          All-append _ _ _ (header-AllOf h (some grn.purchase_order_id) DocumentLabel.grn grn.id)
            (grn_header_drafts-AllOf h grns)

      invoice_header_drafts-AllOf :
          p identifier_mismatch ≡ true
          → (inv : Option EngineInvoice) → AllOf p (invoice_header_drafts sha256 po inv)
      unfolding invoice_header_drafts
      invoice_header_drafts-AllOf h none = tt
      invoice_header_drafts-AllOf h (some inv) =
          header-AllOf h inv.purchase_order_id DocumentLabel.invoice inv.id

      grn_date_exceptions-AllOf :
          p date_mismatch ≡ true
          → (grns : List EngineGoodsReceipt) → AllOf p (grn_date_exceptions sha256 po grns)
      unfolding grn_date_exceptions grn_before_po
      grn_date_exceptions-AllOf h [] = tt
      grn_date_exceptions-AllOf h (grn ∷ grns) = ground (arith, grn_date_exceptions-AllOf h grns)

      date_exceptions-AllOf :
          p date_mismatch ≡ true
          → (grns : List EngineGoodsReceipt) (inv : Option EngineInvoice)
          → AllOf p (date_exceptions sha256 po grns inv)
      unfolding date_exceptions invoice_date_exceptions invoice_before_po
      date_exceptions-AllOf h grns none = All-append _ _ _ (grn_date_exceptions-AllOf h grns) tt
      date_exceptions-AllOf h grns (some inv) =
          All-append _ _ _ (grn_date_exceptions-AllOf h grns) (ground arith)

      match-AllOf :
          p identifier_mismatch ≡ true
          → (ref : Option Uuid) (n : ℕ) (label : DocumentLabel) (document_id line_id : Uuid)
          → AllOf p (opt_list (match_line_to_po sha256 po ref n label document_id line_id).1)
      unfolding match_line_to_po missing_reference ambiguous_line
      match-AllOf h (some ref) n label document_id line_id = go (line_by_id ref po.lines)
        where
          go :
              (o : Option EnginePurchaseOrderLine)
              → AllOf p (opt_list (by_reference sha256 po ref label document_id line_id o).1)
          go none = (h, tt)
          go (some l) = tt
      match-AllOf h none n label document_id line_id = go (lines_by_number n po.lines)
        where
          go :
              (ls : List EnginePurchaseOrderLine)
              → AllOf p (opt_list (by_number sha256 po n label document_id line_id ls).1)
          go [] = (h, tt)
          go (l ∷ []) = tt
          go (l ∷ m ∷ ls) = (h, tt)

      count_line-AllOf :
          (line_id : Uuid) (q : Decimal)
          (r : Option EnginePurchaseOrderLine × Option ExceptionDraft) (st : LineState)
          → AllOf p (opt_list r.1)
          → AllOf p st.drafts
          → AllOf p (count_line line_id q r st).drafts
      unfolding count_line
      count_line-AllOf line_id q (l, some d) st h hs = All-append _ _ _ hs h
      count_line-AllOf line_id q (some l, none) st h hs = hs
      count_line-AllOf line_id q (none, none) st h hs = hs

      match_grn_lines-AllOf :
          p identifier_mismatch ≡ true
          → (grn : EngineGoodsReceipt) (lines : List EngineGoodsReceiptLine) (st : LineState)
          → AllOf p st.drafts
          → AllOf p (match_grn_lines sha256 po grn lines st).drafts
      unfolding match_grn_lines grn_match
      match_grn_lines-AllOf h grn [] st hs = hs
      match_grn_lines-AllOf h grn (line ∷ lines) st hs = match_grn_lines-AllOf h grn lines _ (
          count_line-AllOf line.id line.received_quantity _ st
            (match-AllOf h line.purchase_order_line_id line.line_number DocumentLabel.grn grn.id
              line.id)
            hs)

      match_grns-AllOf :
          p identifier_mismatch ≡ true
          → (grns : List EngineGoodsReceipt) (st : LineState) → AllOf p st.drafts
          → AllOf p (match_grns sha256 po grns st).drafts
      unfolding match_grns
      match_grns-AllOf h [] st hs = hs
      match_grns-AllOf h (grn ∷ grns) st hs =
          match_grns-AllOf h grns _ (match_grn_lines-AllOf h grn grn.lines st hs)

      module _ (inv : EngineInvoice) (config : ReconciliationConfig) (hp : p price_mismatch ≡ true)
          (ht : p tax_mismatch ≡ true) where
        line_rules-AllOf :
            (line : EngineInvoiceLine) (r : Option EnginePurchaseOrderLine × Option ExceptionDraft)
            → AllOf p (line_rules sha256 po inv config line r)
        unfolding line_rules price_exception_for_line tax_exception_for_line price_draft tax_draft
        line_rules-AllOf line (l, some d) = tt
        line_rules-AllOf line (none, none) = tt
        line_rules-AllOf line (some l, none) = ground arith

        match_invoice_lines-AllOf :
            p identifier_mismatch ≡ true
            → (lines : List EngineInvoiceLine) (st : LineState) → AllOf p st.drafts
            → AllOf p (match_invoice_lines sha256 po inv config lines st).drafts
        unfolding match_invoice_lines match_invoice_line invoice_match
        match_invoice_lines-AllOf h [] st hs = hs
        match_invoice_lines-AllOf h (line ∷ lines) st hs = match_invoice_lines-AllOf h lines _ (
            All-append _ _ _
              (count_line-AllOf line.id line.quantity _ st
                (match-AllOf h line.purchase_order_line_id line.line_number DocumentLabel.invoice
                  inv.id line.id)
                hs)
              (line_rules-AllOf line _))

      quantity_check-AllOf :
          p quantity_mismatch ≡ true
          → (facts : LineFacts) (key : String) (left right : Decimal) (m : Message)
          → AllOf p (quantity_check sha256 facts key left right m)
      unfolding quantity_check quantity_draft
      quantity_check-AllOf h facts key left right m = ground arith

      quantity_drafts-AllOf :
          p quantity_mismatch ≡ true
          → (inv : EngineInvoice) (payload : ReconciliationInput) (gs is : LineState)
            (ls : List EnginePurchaseOrderLine)
          → AllOf p (quantity_drafts sha256 po inv payload gs is ls)
      unfolding quantity_drafts line_quantity_drafts quantity_exceptions_for_line
      quantity_drafts-AllOf h inv payload gs is [] = tt
      quantity_drafts-AllOf h inv payload gs is (l ∷ ls) =
          let facts = line_facts po inv payload gs is l in
          All-append _ _ _
            (unless-AllOf _ _ (
              All-append _ _ _ (quantity_check-AllOf h facts _ _ _ _) (
                All-append _ _ _ (quantity_check-AllOf h facts _ _ _ _)
                  (quantity_check-AllOf h facts _ _ _ _))))
            (quantity_drafts-AllOf h inv payload gs is ls)

      -- With all three documents nothing is missing.
      missing_drafts_none :
          (inv : Option EngineInvoice) (grns : List EngineGoodsReceipt)
          (payload : ReconciliationInput)
          → is_incomplete (some po) inv grns ≡ false
          → AllOf p (missing_drafts sha256 (some po) inv grns payload)
      unfolding missing_drafts is_incomplete
      missing_drafts_none none grns payload h = cc
      missing_drafts_none (some inv) [] payload h = cc
      missing_drafts_none (some inv) (g ∷ gs) payload h = tt

      -- All drafts of a run with a purchase order; quantity rules ran only with an invoice and a
      -- goods receipt, and missing documents are drafted only when the run is incomplete.
      pub all_drafts-AllOf :
          p price_mismatch ≡ true
          → p tax_mismatch ≡ true
          → p identifier_mismatch ≡ true
          → p duplicate_invoice ≡ true
          → p date_mismatch ≡ true
          → (inv : Option EngineInvoice) (grns : List EngineGoodsReceipt)
            (payload : ReconciliationInput)
          → (is_incomplete (some po) inv grns ≡ true → p missing_document ≡ true)
          → (is_incomplete (some po) inv grns ≡ false → p quantity_mismatch ≡ true)
          → AllOf p (all_drafts sha256 po inv grns payload)
      unfolding all_drafts is_incomplete
      all_drafts-AllOf hp ht hi hd hdate none grns payload hm hq =
          All-append _ _ _ (missing_drafts-AllOf (hm refl) (some po) none grns payload) (
            All-append _ _ _ (grn_header_drafts-AllOf hi grns) (
              All-append _ _ _ (invoice_header_drafts-AllOf hi none) (
                All-append _ _ _ (date_exceptions-AllOf hdate grns none)
                  (All-append _ _ _ (match_grns-AllOf hi grns start tt) tt))))
      all_drafts-AllOf hp ht hi hd hdate (some inv) [] payload hm hq =
          All-append _ _ _ (missing_drafts-AllOf (hm refl) (some po) (some inv) [] payload) (
            All-append _ _ _ (duplicate_drafts-AllOf hd inv payload.duplicate_candidates) (
              All-append _ _ _ (grn_header_drafts-AllOf hi []) (
                All-append _ _ _ (invoice_header_drafts-AllOf hi (some inv)) (
                  All-append _ _ _ (date_exceptions-AllOf hdate [] (some inv)) (
                    All-append _ _ _ (match_grns-AllOf hi [] start tt) (
                      All-append _ _ _
                        (match_invoice_lines-AllOf inv payload.config hp ht hi inv.lines start tt)
                        tt))))))
      all_drafts-AllOf hp ht hi hd hdate (some inv) (g ∷ gs) payload hm hq =
          All-append _ _ _ (missing_drafts_none (some inv) (g ∷ gs) payload refl) (
            All-append _ _ _ (duplicate_drafts-AllOf hd inv payload.duplicate_candidates) (
              All-append _ _ _ (grn_header_drafts-AllOf hi (g ∷ gs)) (
                All-append _ _ _ (invoice_header_drafts-AllOf hi (some inv)) (
                  All-append _ _ _ (date_exceptions-AllOf hdate (g ∷ gs) (some inv)) (
                    All-append _ _ _ (match_grns-AllOf hi (g ∷ gs) start tt) (
                      All-append _ _ _
                        (match_invoice_lines-AllOf inv payload.config hp ht hi inv.lines start tt)
                        (quantity_drafts-AllOf (hq refl) inv payload _ _ po.lines)))))))
