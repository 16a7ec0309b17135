-- ===== src/Reconciliation/Tests.antt =====
-- Concrete documents of app/reconciliation: an order, its receipts and its invoice.
use recon_ai.Prelude.{false, [], ◌∷◌, none, some, ◌≡◌, refl, ◌↔◌}
use recon_ai.Prelude.Int.{pos}
use recon_ai.Prelude.Text.{Text, codes}
use recon_ai.Domain.{matched, incomplete, ExceptionType, ExceptionSeverity}
use recon_ai.Reconciliation.Schemas.{
  EnginePurchaseOrderLine, EnginePurchaseOrder, EngineGoodsReceipt, EngineInvoice,
  DuplicateInvoiceCandidate, ReconciliationConfig, ReconciliationInput, ExceptionDraft,
}
use recon_ai.Reconciliation.Identity.{normalize_invoice_number}
use recon_ai.Reconciliation.Identity.Fixed.{normalize_invoice_number-settles}
use recon_ai.Reconciliation.Matching.{start, quantity_at, match_grns}
use recon_ai.Reconciliation.Matching.Totals.{received_total, match_grns_total}
use recon_ai.Reconciliation.Report.{seen_in, dedupe_drafts}
use recon_ai.Reconciliation.Report.Dedupe.{AreUnique, fingerprints, dedupe_keeps_fingerprints}
use recon_ai.Reconciliation.Engine.{reconcile}
use recon_ai.Reconciliation.Engine.Clean.{IsThreeWayMatch, reconcile-matched}
use recon_ai.Reconciliation.Engine.Kinds.{AllOf}
use recon_ai.Reconciliation.Engine.Incomplete.{
  has_all_documents, not_quantity, reconcile-incomplete, incomplete_no_quantity,
}
use recon_ai.Reconciliation.Engine.Counted.{IsCounted, reconcile-IsCounted}

-- A digest that keeps its text.
abbrev digest : Text → Text
digest t = t

abbrev po_line : EnginePurchaseOrderLine
po_line = record {
  id = 11;
  line_number = 1;
  description = none;
  quantity = pos 100000;
  unit_price = pos 50000;
  tax_rate = pos 180000;
}

abbrev po : EnginePurchaseOrder
po = record {
  id = 1;
  po_number = codes "PO-1";
  vendor_id = 7;
  order_date = 738000;
  currency = codes "INR";
  lines = po_line ∷ [];
}

abbrev grn : EngineGoodsReceipt
grn = record {
  id = 2;
  grn_number = codes "GRN-1";
  purchase_order_id = 1;
  receipt_date = 738005;
  lines =
      record {
        id = 21;
        line_number = 1;
        received_quantity = pos 60000;
        purchase_order_line_id = some 11;
      }
      ∷ record {
        id = 22;
        line_number = 1;
        received_quantity = pos 40000;
        purchase_order_line_id = none;
      }
      ∷ [];
}

abbrev invoice : EngineInvoice
invoice = record {
  id = 3;
  invoice_number = codes "INV 1";
  vendor_id = 7;
  purchase_order_id = some 1;
  invoice_date = 738006;
  currency = codes "INR";
  lines =
      record {
        id = 31;
        line_number = 1;
        description = none;
        quantity = pos 100000;
        unit_price = pos 50000;
        tax_rate = pos 180000;
        purchase_order_line_id = some 11;
      }
      ∷ [];
}

abbrev config : ReconciliationConfig
config = record {
  quantity_tolerance = pos 0;
  price_tolerance_percent = pos 10000;
  tax_rate_tolerance_percent = pos 0;
}

abbrev earlier : DuplicateInvoiceCandidate
earlier = record { id = 4; vendor_id = 7; invoice_number = codes "inv-1" }

abbrev documents : ReconciliationInput
documents = record {
  purchase_order = some po;
  goods_receipts = grn ∷ [];
  invoice = some invoice;
  duplicate_candidates = earlier ∷ [];
  config = config;
}

abbrev orphaned : ReconciliationInput
orphaned = record documents { purchase_order = none }

abbrev draft : ExceptionDraft
draft = record {
  exception_type = ExceptionType.date_mismatch;
  severity = ExceptionSeverity.high;
  message = [];
  fingerprint = codes "a";
  purchase_order_id = none;
  goods_receipt_id = none;
  invoice_id = none;
  source_document_ids = [];
  evidence = [];
}

reconcile-matched_example :
    ((reconcile digest documents).status ≡ matched)
    ↔ IsThreeWayMatch documents.purchase_order documents.invoice documents.goods_receipts documents
reconcile-matched_example = reconcile-matched digest documents

reconcile-incomplete_example :
    ((reconcile digest orphaned).status ≡ incomplete)
    ↔ (has_all_documents orphaned.purchase_order orphaned.invoice orphaned.goods_receipts ≡ false)
reconcile-incomplete_example = reconcile-incomplete digest orphaned

incomplete_no_quantity_example : AllOf not_quantity (reconcile digest orphaned).exceptions
incomplete_no_quantity_example = incomplete_no_quantity digest orphaned refl

reconcile-IsCounted_example : IsCounted (reconcile digest documents)
reconcile-IsCounted_example = reconcile-IsCounted digest documents

match_grns_total_example :
    quantity_at 11 (match_grns digest po (grn ∷ []) start).quantities
    ≡ received_total po 11 (grn ∷ [])
match_grns_total_example = match_grns_total digest po 11 (grn ∷ [])

dedupe_keeps_fingerprints_example :
    AreUnique (dedupe_drafts (draft ∷ draft ∷ []))
    × ((f : Text)
        → seen_in f (fingerprints (dedupe_drafts (draft ∷ draft ∷ [])))
          ≡ seen_in f (fingerprints (draft ∷ draft ∷ [])))
    × (dedupe_drafts (dedupe_drafts (draft ∷ draft ∷ [])) ≡ dedupe_drafts (draft ∷ draft ∷ []))
dedupe_keeps_fingerprints_example = dedupe_keeps_fingerprints (draft ∷ draft ∷ [])

normalize_invoice_number-settles_example :
    normalize_invoice_number (normalize_invoice_number (codes " INV__7 -"))
    ≡ normalize_invoice_number (codes " INV__7 -")
normalize_invoice_number-settles_example = normalize_invoice_number-settles (codes " INV__7 -")
