-- ===== src/Reconciliation/Engine/Counted.antt =====
-- The counts that `reconcile` reports.
use recon_ai.Prelude.{
  ℕ, ◌+◌, List, [], ◌∷◌, Option, none, some, ◌≡◌, refl, ◌∙◌, arith, length, filter,
}
use recon_ai.Prelude.Text.{Text}
use recon_ai.Domain.{ExceptionType}
use recon_ai.Reconciliation.Schemas.{
  EnginePurchaseOrder, EngineGoodsReceipt, EngineInvoice, ReconciliationInput, ExceptionDraft,
  ReconciliationResult,
}
use recon_ai.Reconciliation.Matching.{Quantities}
use recon_ai.Reconciliation.Report.{build_summary}
use recon_ai.Reconciliation.Report.Counts.{count_of, is_of, count_of-count_by_type}
use recon_ai.Reconciliation.Engine.{
  nothing_supplied, without_po, with_po, reconcile_documents, reconcile,
}

-- The counts of a result are those of its exceptions.
abbrev pub IsCounted : ReconciliationResult → Type 0
IsCounted r =
    (r.exception_count ≡ length r.exceptions)
    × ((t : ExceptionType)
        → count_of t r.summary.exception_count_by_type ≡ length (filter (is_of t) r.exceptions))

zero_left : (n : ℕ) → 0 + n ≡ n
zero_left n = omega arith

build_summary-counts :
    (payload : ReconciliationInput) (ds : List ExceptionDraft) (received invoiced : Quantities)
    (t : ExceptionType)
    → count_of t (build_summary payload ds received invoiced).exception_count_by_type
      ≡ length (filter (is_of t) ds)
unfolding build_summary
build_summary-counts payload ds received invoiced t = count_of-count_by_type t ds [] ∙ zero_left _

module _ (sha256 : Text → Text) (payload : ReconciliationInput) where
  documents-IsCounted :
      (po : Option EnginePurchaseOrder) (inv : Option EngineInvoice)
      (grns : List EngineGoodsReceipt)
      → IsCounted (reconcile_documents sha256 po inv grns payload)
  unfolding reconcile_documents nothing_supplied without_po with_po
  documents-IsCounted (some po) inv grns = (refl, build_summary-counts payload _ _ _)
  documents-IsCounted none none [] = (refl, build_summary-counts payload _ _ _)
  documents-IsCounted none none (g ∷ gs) = (refl, build_summary-counts payload _ _ _)
  documents-IsCounted none (some inv) grns = (refl, build_summary-counts payload _ _ _)

  -- The reported exception count is the number of the exceptions, and for each type the summary's
  -- count is the number of the exceptions of that type.
  pub reconcile-IsCounted : IsCounted (reconcile sha256 payload)
  unfolding reconcile
  reconcile-IsCounted =
      documents-IsCounted payload.purchase_order payload.invoice payload.goods_receipts
