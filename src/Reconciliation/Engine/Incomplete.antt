-- ===== src/Reconciliation/Engine/Incomplete.antt =====
-- When a run is INCOMPLETE, and what it reports then.
use recon_ai.Prelude.{
  Bool, true, false, not, ◌&&◌, List, [], ◌∷◌, Option, none, some, ◌≡◌, refl, ◌↔◌, arith,
  All-append, any, is_empty, is_some,
}
use recon_ai.Prelude.Text.{Text}
use recon_ai.Domain.{
  incomplete, ExceptionType, quantity_mismatch, missing_document, duplicate_invoice,
}
use recon_ai.Reconciliation.Schemas.{
  EnginePurchaseOrder, EngineGoodsReceipt, EngineInvoice, ReconciliationInput, ExceptionDraft,
}
use recon_ai.Reconciliation.Rules.Documents.{missing_document_exception}
use recon_ai.Reconciliation.Report.{is_missing_document, resolve_status, dedupe_drafts}
use recon_ai.Reconciliation.Engine.{
  is_incomplete, all_drafts, with_po, without_po, nothing_supplied, reconcile_documents, reconcile,
}
use recon_ai.Reconciliation.Engine.Kinds.{
  AllOf, dedupe_from-AllOf, duplicate_drafts-AllOf, missing_drafts-AllOf, all_drafts-AllOf,
}

-- A purchase order, an invoice and at least one goods receipt are supplied.
abbrev pub has_all_documents :
    Option EnginePurchaseOrder → Option EngineInvoice → List EngineGoodsReceipt → Bool
has_all_documents po inv grns = is_some po && (is_some inv && not (is_empty grns))

abbrev pub not_missing : ExceptionType → Bool
not_missing missing_document = false
not_missing _ = true

abbrev pub not_quantity : ExceptionType → Bool
not_quantity quantity_mismatch = false
not_quantity _ = true

-- The types that a run without a purchase order can justify.
abbrev pub is_documentary : ExceptionType → Bool
is_documentary missing_document = true
is_documentary duplicate_invoice = true
is_documentary _ = false

any-missing : (ds : List ExceptionDraft) → AllOf not_missing ds → any is_missing_document ds ≡ false
any-missing [] h = refl
any-missing (d ∷ ds) h = ground (arith, any-missing ds h.1)

resolve_status-incomplete :
    (ds : List ExceptionDraft) (b : Bool)
    → (b ≡ false → AllOf not_missing ds)
    → (resolve_status ds b ≡ incomplete) ↔ (b ≡ true)
unfolding resolve_status
resolve_status-incomplete ds true h = (λ e. refl, λ e. refl)
resolve_status-incomplete ds false h = (λ e. absurd (go ds (any-missing ds (h refl)) e), λ e. cc)
  where
    go :
        (ds : List ExceptionDraft)
        → any is_missing_document ds ≡ false
        → resolve_status ds false ≡ incomplete
        → ⊥
    go [] f e = cc
    go (d ∷ ds) f e = ground arith

weaken : (ds : List ExceptionDraft) → AllOf is_documentary ds → AllOf not_quantity ds
weaken [] h = tt
weaken (d ∷ ds) h = (ground arith, weaken ds h.1)

module _ (sha256 : Text → Text) (payload : ReconciliationInput) where
  with_po-AllOf :
      (p : ExceptionType → Bool) (po : EnginePurchaseOrder) (inv : Option EngineInvoice)
      (grns : List EngineGoodsReceipt)
      → AllOf p (all_drafts sha256 po inv grns payload)
      → AllOf p (with_po sha256 po inv grns payload).exceptions
  unfolding with_po dedupe_drafts
  with_po-AllOf p po inv grns h = dedupe_from-AllOf p [] _ h

  with_po-not_missing :
      (po : EnginePurchaseOrder) (inv : Option EngineInvoice) (grns : List EngineGoodsReceipt)
      → is_incomplete (some po) inv grns ≡ false
      → AllOf not_missing (with_po sha256 po inv grns payload).exceptions
  with_po-not_missing po inv grns h = with_po-AllOf not_missing po inv grns (
      all_drafts-AllOf not_missing sha256 po refl refl refl refl refl inv grns payload
        (λ e. absurd (clash e h)) (λ e. refl))
    where
      clash : {b : Bool} → b ≡ true → b ≡ false → ⊥
      clash e f = cc

  with_po-not_quantity :
      (po : EnginePurchaseOrder) (inv : Option EngineInvoice) (grns : List EngineGoodsReceipt)
      → is_incomplete (some po) inv grns ≡ true
      → AllOf not_quantity (with_po sha256 po inv grns payload).exceptions
  with_po-not_quantity po inv grns h = with_po-AllOf not_quantity po inv grns (
      all_drafts-AllOf not_quantity sha256 po refl refl refl refl refl inv grns payload (λ e. refl)
        (λ e. absurd (clash h e)))
    where
      clash : {b : Bool} → b ≡ true → b ≡ false → ⊥
      clash e f = cc

  without_po-AllOf :
      (inv : Option EngineInvoice) (grns : List EngineGoodsReceipt)
      → AllOf is_documentary (without_po sha256 inv grns payload).exceptions
  unfolding without_po dedupe_drafts
  without_po-AllOf none grns =
      dedupe_from-AllOf is_documentary [] _ (
        All-append _ _ _ (missing_drafts-AllOf is_documentary sha256 refl none none grns payload)
          tt)
  without_po-AllOf (some inv) grns = dedupe_from-AllOf is_documentary [] _ (
      All-append _ _ _
        (missing_drafts-AllOf is_documentary sha256 refl none (some inv) grns payload)
        (duplicate_drafts-AllOf is_documentary sha256 refl inv payload.duplicate_candidates))

  documents-incomplete :
      (po : Option EnginePurchaseOrder) (inv : Option EngineInvoice)
      (grns : List EngineGoodsReceipt)
      → ((reconcile_documents sha256 po inv grns payload).status ≡ incomplete)
        ↔ (has_all_documents po inv grns ≡ false)
  unfolding reconcile_documents nothing_supplied without_po with_po resolve_status
  documents-incomplete none none [] = (λ h. refl, λ h. refl)
  documents-incomplete none none (g ∷ gs) = (λ h. refl, λ h. refl)
  documents-incomplete none (some inv) grns = (λ h. refl, λ h. refl)
  documents-incomplete (some po) inv grns =
      let status =
        resolve_status-incomplete (with_po sha256 po inv grns payload).exceptions
          (is_incomplete (some po) inv grns) (with_po-not_missing po inv grns) in
      (λ h. flag→false inv grns (status.0 h), λ h. status.1 (false→flag inv grns h))
    where
      flag→false :
          (inv : Option EngineInvoice) (grns : List EngineGoodsReceipt)
          → is_incomplete (some po) inv grns ≡ true
          → has_all_documents (some po) inv grns ≡ false
      flag→false none grns h = refl
      flag→false (some inv) [] h = refl
      flag→false (some inv) (g ∷ gs) h = unfold is_incomplete in cc h

      false→flag :
          (inv : Option EngineInvoice) (grns : List EngineGoodsReceipt)
          → has_all_documents (some po) inv grns ≡ false
          → is_incomplete (some po) inv grns ≡ true
      false→flag none grns h = unfold is_incomplete in refl
      false→flag (some inv) [] h = unfold is_incomplete in refl
      false→flag (some inv) (g ∷ gs) h = cc h

  documents-not_quantity :
      (po : Option EnginePurchaseOrder) (inv : Option EngineInvoice)
      (grns : List EngineGoodsReceipt)
      → has_all_documents po inv grns ≡ false
      → AllOf not_quantity (reconcile_documents sha256 po inv grns payload).exceptions
  unfolding reconcile_documents nothing_supplied missing_document_exception is_incomplete
  documents-not_quantity none none [] h = (refl, tt)
  documents-not_quantity none none (g ∷ gs) h = weaken _ (without_po-AllOf none (g ∷ gs))
  documents-not_quantity none (some inv) grns h = weaken _ (without_po-AllOf (some inv) grns)
  documents-not_quantity (some po) none grns h = with_po-not_quantity po none grns refl
  documents-not_quantity (some po) (some inv) [] h = with_po-not_quantity po (some inv) [] refl
  documents-not_quantity (some po) (some inv) (g ∷ gs) h = cc

  documents-documentary :
      (po : Option EnginePurchaseOrder) (inv : Option EngineInvoice)
      (grns : List EngineGoodsReceipt)
      → po ≡ none
      → AllOf is_documentary (reconcile_documents sha256 po inv grns payload).exceptions
  unfolding reconcile_documents nothing_supplied missing_document_exception
  documents-documentary none none [] h = (refl, tt)
  documents-documentary none none (g ∷ gs) h = without_po-AllOf none (g ∷ gs)
  documents-documentary none (some inv) grns h = without_po-AllOf (some inv) grns
  documents-documentary (some po) inv grns h = cc

  -- A run is INCOMPLETE exactly when the purchase order, the invoice or every goods receipt is
  -- missing.
  pub reconcile-incomplete :
      ((reconcile sha256 payload).status ≡ incomplete)
      ↔ (has_all_documents payload.purchase_order payload.invoice payload.goods_receipts ≡ false)
  unfolding reconcile
  reconcile-incomplete =
      documents-incomplete payload.purchase_order payload.invoice payload.goods_receipts

  -- With the purchase order, the invoice or every goods receipt missing, a run reports no quantity
  -- mismatch.
  pub incomplete_no_quantity :
      has_all_documents payload.purchase_order payload.invoice payload.goods_receipts ≡ false
      → AllOf not_quantity (reconcile sha256 payload).exceptions
  unfolding reconcile
  incomplete_no_quantity h =
      documents-not_quantity payload.purchase_order payload.invoice payload.goods_receipts h

  -- Without a purchase order, a run reports nothing but missing documents and duplicate invoices.
  pub no_po_documentary :
      payload.purchase_order ≡ none → AllOf is_documentary (reconcile sha256 payload).exceptions
  unfolding reconcile
  no_po_documentary h =
      documents-documentary payload.purchase_order payload.invoice payload.goods_receipts h
