-- ===== src/Reconciliation/Report.antt =====
-- app/reconciliation/engine.py: the helpers that turn the drafts of a run into its result.
pub mod Dedupe
pub mod Counts
use recon_ai.Prelude.{
  ℕ, suc, ◌+◌, Bool, true, false, ◌||◌, List, [], ◌∷◌, ◌++◌, map, Option, none, some, if◌then◌else◌,
  length, ◌==◌, is_empty, any, opt_list,
}
use recon_ai.Prelude.Int.{pos, ◌+ℤ◌}
use recon_ai.Prelude.Text.{Text, text_eq}
use recon_ai.Domain.{
  ExceptionType, missing_document, ReconciliationStatus, matched, exceptions_found, incomplete,
}
use recon_ai.Reconciliation.Schemas.{
  Uuid, Decimal, EnginePurchaseOrderLine, EnginePurchaseOrder, EngineInvoice, ReconciliationInput,
  ExceptionDraft, ReconciliationSummary,
}
use recon_ai.Reconciliation.Matching.{Quantities, sum_values}

unfoldable pub seen_in : Text → List Text → Bool
seen_in f seen = any (text_eq f) seen

unfoldable pub dedupe_from : List Text → List ExceptionDraft → List ExceptionDraft
dedupe_from seen [] = []
dedupe_from seen (d ∷ ds) = elim (seen_in d.fingerprint seen) [
  | true ↦ dedupe_from seen ds
  | false ↦ d ∷ dedupe_from (d.fingerprint ∷ seen) ds
]

-- `_dedupe_drafts`
unfoldable pub dedupe_drafts : List ExceptionDraft → List ExceptionDraft
dedupe_drafts drafts = dedupe_from [] drafts

-- `_collect_document_ids`
unfoldable pub collect_document_ids : ReconciliationInput → List Uuid
collect_document_ids payload =
    map (λ po. po.id) (opt_list payload.purchase_order)
    ++ (map (λ grn. grn.id) payload.goods_receipts
        ++ map (λ inv. inv.id) (opt_list payload.invoice))

abbrev pub type_index : ExceptionType → ℕ
type_index ExceptionType.quantity_mismatch = 0
type_index ExceptionType.price_mismatch = 1
type_index ExceptionType.tax_mismatch = 2
type_index ExceptionType.identifier_mismatch = 3
type_index ExceptionType.duplicate_invoice = 4
type_index ExceptionType.date_mismatch = 5
type_index ExceptionType.missing_document = 6
type_index ExceptionType.other = 7

-- `by_type[t] += 1` on a defaultdict.
unfoldable pub add_type : ExceptionType → List (ExceptionType × ℕ) → List (ExceptionType × ℕ)
add_type t [] = (t, 1) ∷ []
add_type t ((u, n) ∷ m) =
    let rest = add_type t m in
    if type_index t == type_index u then (u, suc n) ∷ m else (u, n) ∷ rest

-- The loop that counts drafts by type.
unfoldable pub count_by_type :
    List ExceptionDraft → List (ExceptionType × ℕ) → List (ExceptionType × ℕ)
count_by_type [] m = m
count_by_type (d ∷ ds) m = count_by_type ds (add_type d.exception_type m)

unfoldable pub sum_quantities : List EnginePurchaseOrderLine → Decimal
sum_quantities [] = pos 0
sum_quantities (l ∷ ls) = l.quantity +ℤ sum_quantities ls

abbrev pub po_lines : Option EnginePurchaseOrder → List EnginePurchaseOrderLine
po_lines none = []
po_lines (some po) = po.lines

abbrev pub invoice_line_count : Option EngineInvoice → ℕ
invoice_line_count none = 0
invoice_line_count (some inv) = length inv.lines

-- `_build_summary`
unfoldable pub build_summary :
    ReconciliationInput → List ExceptionDraft → Quantities → Quantities → ReconciliationSummary
build_summary payload drafts received invoiced = record {
  exception_count_by_type = count_by_type drafts [];
  po_line_count = length (po_lines payload.purchase_order);
  grn_count = length payload.goods_receipts;
  invoice_line_count = invoice_line_count payload.invoice;
  total_ordered_quantity = sum_quantities (po_lines payload.purchase_order);
  total_received_quantity = sum_values received;
  total_invoiced_quantity = sum_values invoiced;
}

abbrev pub is_missing_document : ExceptionDraft → Bool
is_missing_document d = elim d.exception_type [ missing_document ↦ true | _ ↦ false ]

-- `_resolve_status`
unfoldable pub resolve_status : List ExceptionDraft → Bool → ReconciliationStatus
resolve_status drafts incomplete_ =
    if incomplete_ || any is_missing_document drafts
    then incomplete
    else (if is_empty drafts then matched else exceptions_found)
