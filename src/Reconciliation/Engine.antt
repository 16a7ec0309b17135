-- ===== src/Reconciliation/Engine.antt =====
-- app/reconciliation/engine.py: the phases of `reconcile`, in the order of the code.
pub mod Phases
pub mod Matches
pub mod Clean
pub mod Kinds
pub mod Incomplete
pub mod Counted
use recon_ai.Prelude.{
  ℕ, Bool, true, false, ◌&&◌, not, List, [], ◌∷◌, ◌++◌, map, Option, none, some, ◌==◌,
  if◌then◌else◌, length, is_empty, opt_list,
}
use recon_ai.Prelude.Int.{pos, eqb_ℤ}
use recon_ai.Prelude.Text.{Text, text_eq}
use recon_ai.Domain.{incomplete}
use recon_ai.Reconciliation.Schemas.{
  Uuid, EnginePurchaseOrderLine, EnginePurchaseOrder, EngineGoodsReceipt, EngineInvoice,
  DuplicateInvoiceCandidate, ReconciliationInput, ExceptionDraft, ReconciliationResult,
  DocumentLabel,
}
use recon_ai.Reconciliation.Identity.{normalize_invoice_number}
use recon_ai.Reconciliation.Rules.Headers.{check_header_po_reference, date_exceptions}
use recon_ai.Reconciliation.Rules.Quantities.{LineFacts, quantity_exceptions_for_line}
use recon_ai.Reconciliation.Rules.Documents.{
  missing_document_exception, duplicate_invoice_exception,
}
use recon_ai.Reconciliation.Matching.{
  LineState, start, quantity_at, ids_at, match_grns, match_invoice_lines,
}
use recon_ai.Reconciliation.Report.{
  dedupe_drafts, collect_document_ids, build_summary, resolve_status,
}

-- Whether the missing-document checks set `incomplete`.
unfoldable pub is_incomplete :
    Option EnginePurchaseOrder → Option EngineInvoice → List EngineGoodsReceipt → Bool
is_incomplete none inv grns = true
is_incomplete (some po) none grns = true
is_incomplete (some po) (some inv) grns = is_empty grns

abbrev pub opt_id : Option EngineInvoice → Option Uuid
opt_id none = none
opt_id (some inv) = some inv.id

unfoldable pub is_duplicate : EngineInvoice → DuplicateInvoiceCandidate → Bool
is_duplicate inv candidate =
    not (candidate.id == inv.id)
    && (candidate.vendor_id == inv.vendor_id
        && text_eq (normalize_invoice_number candidate.invoice_number)
            (normalize_invoice_number inv.invoice_number))

-- What the quantity rules are told of a purchase order line.
abbrev pub line_facts :
    EnginePurchaseOrder
    → EngineInvoice
    → ReconciliationInput
    → LineState
    → LineState
    → EnginePurchaseOrderLine
    → LineFacts
line_facts po inv payload grn_state inv_state po_line = record {
  purchase_order = po;
  po_line = po_line;
  received_quantity = quantity_at po_line.id grn_state.quantities;
  invoiced_quantity = quantity_at po_line.id inv_state.quantities;
  grn_line_ids = ids_at po_line.id grn_state.line_ids;
  invoice_line_ids = ids_at po_line.id inv_state.line_ids;
  invoice_id = inv.id;
  goods_receipt_ids = map (λ grn. grn.id) payload.goods_receipts;
  config = payload.config;
}

module _ (sha256 : Text → Text) where
  -- The missing-document drafts.
  unfoldable pub missing_drafts :
      Option EnginePurchaseOrder
      → Option EngineInvoice
      → List EngineGoodsReceipt
      → ReconciliationInput
      → List ExceptionDraft
  missing_drafts none none grns payload =
      let grn_ids = map (λ grn. grn.id) grns in
      missing_document_exception sha256 "PO" none none grn_ids (collect_document_ids payload)
      ∷ missing_document_exception sha256 "INVOICE" none none grn_ids (collect_document_ids payload)
      ∷ []
  missing_drafts none (some inv) grns payload =
      let grn_ids = map (λ grn. grn.id) grns in
      missing_document_exception sha256 "PO" none (some inv.id) grn_ids
        (collect_document_ids payload)
      ∷ []
  missing_drafts (some po) none grns payload =
      let grn_ids = map (λ grn. grn.id) grns in
      missing_document_exception sha256 "INVOICE" (some po.id) none grn_ids
        (collect_document_ids payload)
      ∷ []
  missing_drafts (some po) (some inv) grns payload =
      if is_empty grns
      then missing_document_exception sha256 "GRN" (some po.id) (some inv.id) []
          (po.id ∷ inv.id ∷ [])
        ∷ []
      else []

  unfoldable pub duplicate_drafts :
      EngineInvoice → List DuplicateInvoiceCandidate → List ExceptionDraft
  duplicate_drafts inv [] = []
  duplicate_drafts inv (c ∷ cs) =
      let rest = duplicate_drafts inv cs in
      if is_duplicate inv c
      then duplicate_invoice_exception sha256 inv c.id c.invoice_number ∷ rest
      else rest

  abbrev pub opt_duplicates :
      Option EngineInvoice → List DuplicateInvoiceCandidate → List ExceptionDraft
  opt_duplicates none cs = []
  opt_duplicates (some inv) cs = duplicate_drafts inv cs

  unfoldable pub grn_header_drafts :
      EnginePurchaseOrder → List EngineGoodsReceipt → List ExceptionDraft
  grn_header_drafts po [] = []
  grn_header_drafts po (grn ∷ grns) =
      opt_list
        (check_header_po_reference sha256 po (some grn.purchase_order_id) DocumentLabel.grn grn.id)
      ++ grn_header_drafts po grns

  unfoldable pub invoice_header_drafts :
      EnginePurchaseOrder → Option EngineInvoice → List ExceptionDraft
  invoice_header_drafts po none = []
  invoice_header_drafts po (some inv) =
      opt_list
        (check_header_po_reference sha256 po inv.purchase_order_id DocumentLabel.invoice inv.id)

  abbrev pub match_invoice :
      EnginePurchaseOrder → Option EngineInvoice → ReconciliationInput → LineState
  match_invoice po none payload = start
  match_invoice po (some inv) payload =
      match_invoice_lines sha256 po inv payload.config inv.lines start

  -- The quantity rules of one purchase order line; a line with no activity is skipped.
  unfoldable pub line_quantity_drafts :
      EnginePurchaseOrder
      → EngineInvoice
      → ReconciliationInput
      → LineState
      → LineState
      → EnginePurchaseOrderLine
      → List ExceptionDraft
  line_quantity_drafts po inv payload grn_state inv_state po_line =
      let received = quantity_at po_line.id grn_state.quantities in
      let invoiced = quantity_at po_line.id inv_state.quantities in
      if eqb_ℤ received (pos 0) && eqb_ℤ invoiced (pos 0)
      then []
      else quantity_exceptions_for_line sha256
          (line_facts po inv payload grn_state inv_state po_line)

  unfoldable pub quantity_drafts :
      EnginePurchaseOrder
      → EngineInvoice
      → ReconciliationInput
      → LineState
      → LineState
      → List EnginePurchaseOrderLine
      → List ExceptionDraft
  quantity_drafts po inv payload grn_state inv_state [] = []
  quantity_drafts po inv payload grn_state inv_state (l ∷ ls) =
      line_quantity_drafts po inv payload grn_state inv_state l
      ++ quantity_drafts po inv payload grn_state inv_state ls

  -- The rules run only with an invoice and at least one goods receipt.
  abbrev pub quantity_phase :
      EnginePurchaseOrder
      → Option EngineInvoice
      → List EngineGoodsReceipt
      → ReconciliationInput
      → LineState
      → LineState
      → List ExceptionDraft
  quantity_phase po none grns payload grn_state inv_state = []
  quantity_phase po (some inv) grns payload grn_state inv_state =
      if is_empty grns then [] else quantity_drafts po inv payload grn_state inv_state po.lines

  -- All drafts of a run that has a purchase order, in the order in which the code appends them.
  unfoldable pub all_drafts :
      EnginePurchaseOrder
      → Option EngineInvoice
      → List EngineGoodsReceipt
      → ReconciliationInput
      → List ExceptionDraft
  all_drafts po inv grns payload =
      let grn_state = match_grns sha256 po grns start in
      let inv_state = match_invoice po inv payload in
      missing_drafts (some po) inv grns payload
      ++ (opt_duplicates inv payload.duplicate_candidates
          ++ (grn_header_drafts po grns
              ++ (invoice_header_drafts po inv
                  ++ (date_exceptions sha256 po grns inv
                      ++ (grn_state.drafts
                          ++ (inv_state.drafts
                              ++ quantity_phase po inv grns payload grn_state inv_state))))))

  unfoldable pub nothing_supplied : ReconciliationInput → ReconciliationResult
  nothing_supplied payload =
      let drafts = missing_document_exception sha256 "PO" none none [] [] ∷ [] in
      record {
        status = incomplete;
        exception_count = length drafts;
        exceptions = drafts;
        summary = build_summary payload drafts [] [];
        document_ids = collect_document_ids payload;
        purchase_order_id = none;
        invoice_id = none;
        goods_receipt_ids = [];
      }

  unfoldable pub without_po :
      Option EngineInvoice → List EngineGoodsReceipt → ReconciliationInput → ReconciliationResult
  without_po inv grns payload =
      let unique =
        dedupe_drafts (
          missing_drafts none inv grns payload
          ++ opt_duplicates inv payload.duplicate_candidates) in
      record {
        status = resolve_status unique true;
        exception_count = length unique;
        exceptions = unique;
        summary = build_summary payload unique [] [];
        document_ids = collect_document_ids payload;
        purchase_order_id = none;
        invoice_id = opt_id inv;
        goods_receipt_ids = map (λ grn. grn.id) grns;
      }

  unfoldable pub with_po :
      EnginePurchaseOrder
      → Option EngineInvoice
      → List EngineGoodsReceipt
      → ReconciliationInput
      → ReconciliationResult
  with_po po inv grns payload =
      let unique = dedupe_drafts (all_drafts po inv grns payload) in
      record {
        status = resolve_status unique (is_incomplete (some po) inv grns);
        exception_count = length unique;
        exceptions = unique;
        summary =
            build_summary payload unique (match_grns sha256 po grns start).quantities
              (match_invoice po inv payload).quantities;
        document_ids = collect_document_ids payload;
        purchase_order_id = some po.id;
        invoice_id = opt_id inv;
        goods_receipt_ids = map (λ grn. grn.id) grns;
      }

  unfoldable pub reconcile_documents :
      Option EnginePurchaseOrder
      → Option EngineInvoice
      → List EngineGoodsReceipt
      → ReconciliationInput
      → ReconciliationResult
  reconcile_documents none none [] payload = nothing_supplied payload
  reconcile_documents none inv grns payload = without_po inv grns payload
  reconcile_documents (some po) inv grns payload = with_po po inv grns payload

  unfoldable pub reconcile : ReconciliationInput → ReconciliationResult
  reconcile payload =
      reconcile_documents payload.purchase_order payload.invoice payload.goods_receipts payload
