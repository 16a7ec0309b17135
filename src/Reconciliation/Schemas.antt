-- ===== src/Reconciliation/Schemas.antt =====
-- app/reconciliation/schemas.py: the plain data of a reconciliation run.
-- A UUID is a number of 128 bits, a date its proleptic ordinal, a line number a natural number.
-- A `Decimal` is a whole number of 10^-4 units, the scale of every money, quantity and tax column,
-- on which sums, differences and comparisons are exact.
use recon_ai.Prelude.{ℕ, List, [], ◌∷◌, Option, none, some}
use recon_ai.Prelude.Int.{ℤ}
use recon_ai.Prelude.Text.{Text}
use recon_ai.Domain.{ExceptionType, ExceptionSeverity, ReconciliationStatus}
use Prim.Native.String.{String}

abbrev pub Uuid : Type 0
Uuid = ℕ

abbrev pub Decimal : Type 0
Decimal = ℤ

-- The quotient of a division, `coefficient` times 10 to the minus `scale`.
pub record Ratio : Type 0 where
  pub coefficient : ℕ
  pub scale : ℕ

-- What a piece of evidence or of a message holds; its text form is Python's `str`, or
-- `_decimal_str` for a Decimal.
pub data Value : Type 0 where
  str : String → Value
  text : Text → Value
  uuid : Uuid → Value
  uuids : List Uuid → Value
  dec : Decimal → Value
  ratio : Ratio → Value
  int : ℕ → Value
  date : ℕ → Value
  null : Value

-- The pieces of an f-string, in order.
abbrev pub Message : Type 0
Message = List Value

abbrev pub Evidence : Type 0
Evidence = List (String × Value)

pub record ReconciliationConfig : Type 0 where
  pub quantity_tolerance : Decimal
  pub price_tolerance_percent : Decimal
  pub tax_rate_tolerance_percent : Decimal

pub record EnginePurchaseOrderLine : Type 0 where
  pub id : Uuid
  pub line_number : ℕ
  pub description : Option Text
  pub quantity : Decimal
  pub unit_price : Decimal
  pub tax_rate : Decimal

pub record EnginePurchaseOrder : Type 0 where
  pub id : Uuid
  pub po_number : Text
  pub vendor_id : Uuid
  pub order_date : ℕ
  pub currency : Text
  pub lines : List EnginePurchaseOrderLine

pub record EngineGoodsReceiptLine : Type 0 where
  pub id : Uuid
  pub line_number : ℕ
  pub received_quantity : Decimal
  pub purchase_order_line_id : Option Uuid

pub record EngineGoodsReceipt : Type 0 where
  pub id : Uuid
  pub grn_number : Text
  pub purchase_order_id : Uuid
  pub receipt_date : ℕ
  pub lines : List EngineGoodsReceiptLine

pub record EngineInvoiceLine : Type 0 where
  pub id : Uuid
  pub line_number : ℕ
  pub description : Option Text
  pub quantity : Decimal
  pub unit_price : Decimal
  pub tax_rate : Decimal
  pub purchase_order_line_id : Option Uuid

pub record EngineInvoice : Type 0 where
  pub id : Uuid
  pub invoice_number : Text
  pub vendor_id : Uuid
  pub purchase_order_id : Option Uuid
  pub invoice_date : ℕ
  pub currency : Text
  pub lines : List EngineInvoiceLine

pub record DuplicateInvoiceCandidate : Type 0 where
  pub id : Uuid
  pub vendor_id : Uuid
  pub invoice_number : Text

pub record ReconciliationInput : Type 0 where
  pub purchase_order : Option EnginePurchaseOrder
  pub goods_receipts : List EngineGoodsReceipt
  pub invoice : Option EngineInvoice
  pub duplicate_candidates : List DuplicateInvoiceCandidate
  pub config : ReconciliationConfig

pub record ExceptionDraft : Type 0 where
  pub exception_type : ExceptionType
  pub severity : ExceptionSeverity
  pub message : Message
  pub fingerprint : Text
  pub purchase_order_id : Option Uuid
  pub goods_receipt_id : Option Uuid
  pub invoice_id : Option Uuid
  pub source_document_ids : List Uuid
  pub evidence : Evidence

pub record ReconciliationSummary : Type 0 where
  pub exception_count_by_type : List (ExceptionType × ℕ)
  pub po_line_count : ℕ
  pub grn_count : ℕ
  pub invoice_line_count : ℕ
  pub total_ordered_quantity : Decimal
  pub total_received_quantity : Decimal
  pub total_invoiced_quantity : Decimal

pub record ReconciliationResult : Type 0 where
  pub status : ReconciliationStatus
  pub exception_count : ℕ
  pub exceptions : List ExceptionDraft
  pub summary : ReconciliationSummary
  pub document_ids : List Uuid
  pub purchase_order_id : Option Uuid
  pub invoice_id : Option Uuid
  pub goods_receipt_ids : List Uuid

-- The two texts that rules.py is given as `document_label`.
pub data DocumentLabel : Type 0 where
  grn invoice : DocumentLabel

abbrev pub label_str : DocumentLabel → String
label_str grn = "GRN"
label_str invoice = "Invoice"

-- `document_id if document_label == … else None`
abbrev pub if_grn : DocumentLabel → Uuid → Option Uuid
if_grn grn i = some i
if_grn invoice i = none

abbrev pub if_invoice : DocumentLabel → Uuid → Option Uuid
if_invoice grn i = none
if_invoice invoice i = some i

abbrev pub opt_uuid : Option Uuid → Value
opt_uuid none = null
opt_uuid (some i) = uuid i

-- `ids[0] if len(ids) == 1 else None`
abbrev pub sole : List Uuid → Option Uuid
sole [] = none
sole (i ∷ []) = some i
sole (i ∷ j ∷ is) = none
