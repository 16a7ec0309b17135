-- ===== src/Resolution/Contracts.antt =====
-- app/resolution/contracts.py: the parameter models. Pydantic's readings of identifiers and dates in JSON
-- are arguments; a model that raises gives nothing.
pub mod Clean
pub mod Valid
use recon_ai.Prelude.{
  ℕ, zero, suc, if◌then◌else◌, Bool, true, false, not, ◌&&◌, ◌||◌, Option, none, some, List, [],
  ◌∷◌, any, is_empty, leb, length,
}
use recon_ai.Prelude.Text.{Text, codes, text_eq, is_space, strip}
use recon_ai.Prelude.Json.{Json, Items, Fields, null, str, arr, obj, nil, cons, end, field, get_key}
use recon_ai.Prelude.Check.{Check, ok, err, ◌>>=◌, ◌>>◌, raise_if}
use recon_ai.Domain.{ActionType}
use recon_ai.Resolution.Model.{Uuid}

-- A `ValidationError`.
pub data ParameterError : Type 0 where
  invalid_parameters : ParameterError

abbrev pub Parsed : Type 0 → Type 0
Parsed A = Check ParameterError A

pub data EscalationPriority : Type 0 where
  low medium high : EscalationPriority

pub record RouteToReview : Type 0 where
  pub review_queue : Text
  pub reason : Option Text
  pub assigned_to : Option Text
  pub document_id : Option Uuid
  pub extraction_result_id : Option Uuid

pub record VendorClarification (Date : Type 0) : Type 0 where
  pub question : Text
  pub vendor_id : Option Uuid
  pub vendor_reference : Option Text
  pub reason : Option Text
  pub fields : List Text
  pub due_date : Option Date

pub record MissingDocument : Type 0 where
  pub document_type : Text
  pub reason : Text
  pub vendor_id : Option Uuid
  pub vendor_reference : Option Text

pub record Escalation : Type 0 where
  pub reason : Text
  pub priority : EscalationPriority
  pub destination : Option Text

pub data ActionParameters (Date : Type 0) : Type 0 where
  route_to_review : RouteToReview → ActionParameters Date
  request_vendor_clarification : VendorClarification Date → ActionParameters Date
  request_missing_document : MissingDocument → ActionParameters Date
  escalate_to_manager : Escalation → ActionParameters Date

-- `Field(max_length=…)` on a string.
abbrev pub text_within : ℕ → Json → Parsed Text
text_within bound (str t) = raise_if (not (leb (length t) bound)) invalid_parameters >> ok t
text_within bound _ = err invalid_parameters

-- `_strip_nonempty`
abbrev pub nonblank : Text → Parsed Text
nonblank t = raise_if (is_empty t) invalid_parameters >> ok t

abbrev pub clean_text : ℕ → Json → Parsed Text
clean_text bound j = text_within bound j >>= λ t. nonblank (strip is_space t)

-- A required string; one that is empty is blank too.
abbrev pub required : ℕ → Option Json → Parsed Text
required bound none = err invalid_parameters
required bound (some j) = clean_text bound j

abbrev pub given : {A : Type 0} → Parsed A → Parsed (Option A)
given m = m >>= λ a. ok (some a)

abbrev pub optional : {A : Type 0} → (Json → Parsed A) → Option Json → Parsed (Option A)
optional read none = ok none
optional read (some null) = ok none
optional read (some j) = given (read j)

-- `extra="forbid"`
unfoldable pub only_keys : List Text → Fields → Parsed (Unit {0})
only_keys keys end = ok tt
only_keys keys (field k v fs) = do
  raise_if (not (any (text_eq k) keys)) invalid_parameters
  only_keys keys fs

abbrev pub any_text : Json → Parsed Text
any_text (str t) = ok t
any_text _ = err invalid_parameters

abbrev pub short_text : Text → Parsed Text
short_text t = raise_if (not (leb (length t) 128)) invalid_parameters >> ok t

-- `_clean_fields`, on a list that Pydantic has read.
unfoldable pub clean_fields : Items → Parsed (List Text)
clean_fields nil = ok []
clean_fields (cons j js) = do
  t ← any_text j
  t ← nonblank (strip is_space t)
  t ← short_text t
  ts ← clean_fields js
  ok (t ∷ ts)

abbrev pub count_items : Items → ℕ
count_items nil = zero
count_items (cons j js) = suc (count_items js)

abbrev pub field_list : Option Json → Parsed (List Text)
field_list none = ok []
field_list (some (arr js)) =
    raise_if (not (leb (count_items js) 32)) invalid_parameters >> clean_fields js
field_list (some _) = err invalid_parameters

abbrev pub priority_named : Text → Parsed EscalationPriority
priority_named t =
    if text_eq t (codes "LOW")
    then ok low
    else if text_eq t (codes "MEDIUM")
    then ok medium
    else if text_eq t (codes "HIGH")
    then ok high
    else err invalid_parameters

abbrev pub priority_or_medium : Option Json → Parsed EscalationPriority
priority_or_medium none = ok medium
priority_or_medium (some (str t)) = priority_named t
priority_or_medium (some _) = err invalid_parameters

abbrev pub is_none : {A : Type 0} → Option A → Bool
is_none none = true
is_none (some a) = false

-- `(a is None) ^ (b is None)`
abbrev pub differ : Bool → Bool → Bool
differ true b = not b
differ false b = b

module _ {Date : Type 0} (read_uuid : Json → Option Uuid) (read_date : Json → Option Date) where
  abbrev pub or_invalid : {A : Type 0} → Option A → Parsed A
  or_invalid none = err invalid_parameters
  or_invalid (some a) = ok a

  abbrev pub uuid : Json → Parsed Uuid
  uuid j = or_invalid (read_uuid j)

  unfoldable pub parse_route : Fields → Parsed RouteToReview
  parse_route fs = do
    only_keys
        (codes "review_queue"
          ∷ codes "reason"
          ∷ codes "assigned_to"
          ∷ codes "document_id"
          ∷ codes "extraction_result_id"
          ∷ [])
        fs
    review_queue ← required 128 (get_key (codes "review_queue") fs)
    reason ← optional (clean_text 2000) (get_key (codes "reason") fs)
    assigned_to ← optional (clean_text 255) (get_key (codes "assigned_to") fs)
    document_id ← optional uuid (get_key (codes "document_id") fs)
    extraction_result_id ← optional uuid (get_key (codes "extraction_result_id") fs)
    raise_if (differ (is_none document_id) (is_none extraction_result_id)) invalid_parameters
    ok (record {
      review_queue = review_queue;
      reason = reason;
      assigned_to = assigned_to;
      document_id = document_id;
      extraction_result_id = extraction_result_id;
    })

  unfoldable pub parse_clarification : Fields → Parsed (VendorClarification Date)
  parse_clarification fs = do
    only_keys
        (codes "question"
          ∷ codes "vendor_id"
          ∷ codes "vendor_reference"
          ∷ codes "reason"
          ∷ codes "fields"
          ∷ codes "due_date"
          ∷ [])
        fs
    question ← required 4000 (get_key (codes "question") fs)
    vendor_id ← optional uuid (get_key (codes "vendor_id") fs)
    vendor_reference ← optional (clean_text 255) (get_key (codes "vendor_reference") fs)
    reason ← optional (clean_text 2000) (get_key (codes "reason") fs)
    fields ← field_list (get_key (codes "fields") fs)
    due_date ← optional (λ j. or_invalid (read_date j)) (get_key (codes "due_date") fs)
    raise_if (is_none vendor_id && is_none vendor_reference) invalid_parameters
    ok (record {
      question = question;
      vendor_id = vendor_id;
      vendor_reference = vendor_reference;
      reason = reason;
      fields = fields;
      due_date = due_date;
    })

  unfoldable pub parse_missing : Fields → Parsed MissingDocument
  parse_missing fs = do
    only_keys
        (codes "document_type" ∷ codes "reason" ∷ codes "vendor_id" ∷ codes "vendor_reference" ∷ [])
        fs
    document_type ← required 64 (get_key (codes "document_type") fs)
    reason ← required 2000 (get_key (codes "reason") fs)
    vendor_id ← optional uuid (get_key (codes "vendor_id") fs)
    vendor_reference ← optional (clean_text 255) (get_key (codes "vendor_reference") fs)
    ok (record {
      document_type = document_type;
      reason = reason;
      vendor_id = vendor_id;
      vendor_reference = vendor_reference;
    })

  unfoldable pub parse_escalation : Fields → Parsed Escalation
  parse_escalation fs = do
    only_keys (codes "reason" ∷ codes "priority" ∷ codes "destination" ∷ []) fs
    reason ← required 2000 (get_key (codes "reason") fs)
    priority ← priority_or_medium (get_key (codes "priority") fs)
    destination ← optional (clean_text 128) (get_key (codes "destination") fs)
    ok (record { reason = reason; priority = priority; destination = destination })

  -- `parameter_model_for` and `model_validate`
  abbrev pub parse_fields : ActionType → Fields → Parsed (ActionParameters Date)
  parse_fields ActionType.route_to_review fs = parse_route fs >>= λ p. ok (route_to_review p)
  parse_fields ActionType.request_vendor_clarification fs =
      parse_clarification fs >>= λ p. ok (request_vendor_clarification p)
  parse_fields ActionType.request_missing_document fs =
      parse_missing fs >>= λ p. ok (request_missing_document p)
  parse_fields ActionType.escalate_to_manager fs =
      parse_escalation fs >>= λ p. ok (escalate_to_manager p)

  -- `parse_action_parameters`
  unfoldable pub parse_action_parameters : ActionType → Json → Parsed (ActionParameters Date)
  parse_action_parameters t (obj fs) = parse_fields t fs
  parse_action_parameters t _ = err invalid_parameters
