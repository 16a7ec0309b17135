-- ===== src/Reconciliation/Engine/Phases.antt =====
-- When each phase of `reconcile` drafts nothing, said without the phase's own code.
use recon_ai.Prelude.{
  ◌≤◌, Bool, true, false, ◌&&◌, List, [], ◌∷◌, Option, none, some, ◌≡◌, ◌≢◌, refl, ◌↔◌, ◌⊎◌, inl,
  inr, arith, ap, Bool-cases, All, append-eq-nil, opt_list,
}
use recon_ai.Prelude.Int.{ℤ, pos, ◌+ℤ◌, ◌≤ℤ◌, eqb_ℤ}
use recon_ai.Prelude.Text.{Text, text_eq_iff}
use recon_ai.Reconciliation.Schemas.{
  Uuid, Decimal, EnginePurchaseOrderLine, EnginePurchaseOrder, EngineGoodsReceiptLine,
  EngineGoodsReceipt, EngineInvoiceLine, EngineInvoice, DuplicateInvoiceCandidate,
  ReconciliationConfig, ExceptionDraft, DocumentLabel,
}
use recon_ai.Reconciliation.Identity.{normalize_invoice_number}
use recon_ai.Reconciliation.Variance.{exceeds_percent_tolerance}
use recon_ai.Reconciliation.Rules.Headers.{
  check_header_po_reference, grn_date_exceptions, invoice_date_exceptions, date_exceptions,
}
use recon_ai.Reconciliation.Rules.Lines.Found.{find_line}
use recon_ai.Reconciliation.Engine.{
  is_duplicate, duplicate_drafts, grn_header_drafts, invoice_header_drafts,
}

-- Another invoice of the vendor with the same normalised number.
abbrev pub IsDuplicate : EngineInvoice → DuplicateInvoiceCandidate → Type 0
IsDuplicate inv c =
    (c.id ≢ inv.id)
    × (c.vendor_id ≡ inv.vendor_id)
    × (normalize_invoice_number c.invoice_number ≡ normalize_invoice_number inv.invoice_number)

-- The line belongs to a line of the purchase order.
abbrev pub IsFound : EnginePurchaseOrder → EngineGoodsReceiptLine → Type 0
IsFound po line =
    (l : EnginePurchaseOrderLine) × (find_line line.purchase_order_line_id line.line_number po.lines
      ≡ some l)

-- The line belongs to one whose price and tax rate it keeps to.
abbrev pub IsPriced : EnginePurchaseOrder → ReconciliationConfig → EngineInvoiceLine → Type 0
IsPriced po config line =
    (l : EnginePurchaseOrderLine) × (find_line line.purchase_order_line_id line.line_number po.lines
      ≡ some l)
    × (exceeds_percent_tolerance l.unit_price line.unit_price config.price_tolerance_percent
        ≡ false)
    × (exceeds_percent_tolerance l.tax_rate line.tax_rate config.tax_rate_tolerance_percent ≡ false)

-- The quantities of a purchase order line agree: nothing was received or invoiced, or neither
-- exceeds what it may.
abbrev pub QuantitiesAgree :
    ReconciliationConfig → EnginePurchaseOrderLine → Decimal → Decimal → Type 0
QuantitiesAgree config l received invoiced =
    ((received ≡ pos 0) × (invoiced ≡ pos 0))
    ⊎ ((invoiced ≤ℤ received +ℤ config.quantity_tolerance)
        × (received ≤ℤ l.quantity +ℤ config.quantity_tolerance)
        × (invoiced ≤ℤ l.quantity +ℤ config.quantity_tolerance))

is_duplicate_iff :
    (inv : EngineInvoice) (c : DuplicateInvoiceCandidate)
    → (is_duplicate inv c ≡ true) ↔ IsDuplicate inv c
unfolding is_duplicate
is_duplicate_iff inv c =
    let same =
      text_eq_iff (normalize_invoice_number c.invoice_number)
        (normalize_invoice_number inv.invoice_number) in
    (λ h. ground (arith, same), λ h. ground (arith, same))

pub both_zero_iff :
    (r i : ℤ) → ((eqb_ℤ r (pos 0) && eqb_ℤ i (pos 0)) ≡ true) ↔ ((r ≡ pos 0) × (i ≡ pos 0))
both_zero_iff r i = (λ h. ground arith, λ h. ground arith)

pub clash : {b : Bool} → b ≡ true → b ≡ false → ⊥
clash p q = cc

module _ (sha256 : Text → Text) where
  pub duplicate_drafts-eq-nil :
      (inv : EngineInvoice) (cs : List DuplicateInvoiceCandidate)
      → (duplicate_drafts sha256 inv cs ≡ []) ↔ All (λ c. ¬ IsDuplicate inv c) cs
  unfolding duplicate_drafts
  duplicate_drafts-eq-nil inv [] = (λ h. tt, λ h. refl)
  duplicate_drafts-eq-nil inv (c ∷ cs) = elim (Bool-cases (is_duplicate inv c)) [
    | inl dup ↦
        (λ h. absurd (cons_ne (rw dup at h)), λ h. absurd (h.0 ((is_duplicate_iff inv c).0 dup)))
    | inr fresh ↦ rw fresh (
      λ h. (λ d. cc (fresh, (is_duplicate_iff inv c).1 d), (duplicate_drafts-eq-nil inv cs).0 h),
      λ h. (duplicate_drafts-eq-nil inv cs).1 h.1,
    )
  ]
    where
      cons_ne : {d : ExceptionDraft} {ds : List ExceptionDraft} → d ∷ ds ≡ [] → ⊥
      cons_ne e = cc

  header-eq-nil :
      (po : EnginePurchaseOrder) (ref : Option Uuid) (label : DocumentLabel) (i : Uuid)
      → (opt_list (check_header_po_reference sha256 po ref label i) ≡ []) ↔ (ref ≡ some po.id)
  unfolding check_header_po_reference
  header-eq-nil po none label i = (λ h. cc, λ h. cc)
  header-eq-nil po (some r) label i = (λ h. ground arith, λ h. ground arith)

  pub grn_header_drafts-eq-nil :
      (po : EnginePurchaseOrder) (grns : List EngineGoodsReceipt)
      → (grn_header_drafts sha256 po grns ≡ []) ↔ All (λ grn. grn.purchase_order_id ≡ po.id) grns
  unfolding grn_header_drafts
  grn_header_drafts-eq-nil po [] = (λ h. tt, λ h. refl)
  grn_header_drafts-eq-nil po (grn ∷ grns) =
      let split =
        append-eq-nil
          (opt_list (
            check_header_po_reference sha256 po (some grn.purchase_order_id) DocumentLabel.grn
              grn.id))
          (grn_header_drafts sha256 po grns) in
      let here = header-eq-nil po (some grn.purchase_order_id) DocumentLabel.grn grn.id in
      let rest = grn_header_drafts-eq-nil po grns in
      (
        λ h. (ground (arith, here.0 (split.0 h).0), rest.0 (split.0 h).1),
        λ h. split.1 (here.1 (ap some h.0), rest.1 h.1),
      )

  pub invoice_header_drafts-eq-nil :
      (po : EnginePurchaseOrder) (inv : EngineInvoice)
      → (invoice_header_drafts sha256 po (some inv) ≡ []) ↔ (inv.purchase_order_id ≡ some po.id)
  unfolding invoice_header_drafts
  invoice_header_drafts-eq-nil po inv =
      header-eq-nil po inv.purchase_order_id DocumentLabel.invoice inv.id

  grn_date_exceptions-eq-nil :
      (po : EnginePurchaseOrder) (grns : List EngineGoodsReceipt)
      → (grn_date_exceptions sha256 po grns ≡ [])
        ↔ All (λ grn. po.order_date ≤ grn.receipt_date) grns
  unfolding grn_date_exceptions
  grn_date_exceptions-eq-nil po [] = (λ h. tt, λ h. refl)
  grn_date_exceptions-eq-nil po (grn ∷ grns) =
      let rest = grn_date_exceptions-eq-nil po grns in
      (λ h. ground (arith, rest), λ h. ground (arith, rest))

  pub date_exceptions-eq-nil :
      (po : EnginePurchaseOrder) (grns : List EngineGoodsReceipt) (inv : EngineInvoice)
      → (date_exceptions sha256 po grns (some inv) ≡ [])
        ↔ (All (λ grn. po.order_date ≤ grn.receipt_date) grns × (po.order_date ≤ inv.invoice_date))
  unfolding date_exceptions invoice_date_exceptions
  date_exceptions-eq-nil po grns inv =
      let split =
        append-eq-nil (grn_date_exceptions sha256 po grns)
          (invoice_date_exceptions sha256 po (some inv)) in
      let rest = grn_date_exceptions-eq-nil po grns in
      (
        λ h. (rest.0 (split.0 h).0, ground (arith, (split.0 h).1)),
        λ h. split.1 (rest.1 h.0, ground arith),
      )
