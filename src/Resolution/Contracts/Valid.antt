-- ===== src/Resolution/Contracts/Valid.antt =====
-- What parsed parameters satisfy.
use recon_ai.Prelude.{All, Bool, true, false, ◌&&◌, Option, ◌≡◌, refl, sym, subst, leb, length}
use recon_ai.Prelude.Text.{codes}
use recon_ai.Prelude.Json.{Json, Fields, null, bool, num, str, arr, obj, get_key}
use recon_ai.Prelude.Check.{ok, ◌>>=◌, bind-ok, guard-ok, ok_injective}
use recon_ai.Domain.{ActionType}
use recon_ai.Resolution.Model.{Uuid}
use recon_ai.Resolution.Contracts.{
  invalid_parameters, Parsed, RouteToReview, VendorClarification, MissingDocument, Escalation,
  ActionParameters, route_to_review, request_vendor_clarification, request_missing_document,
  escalate_to_manager, clean_text, required, optional, only_keys, field_list, priority_or_medium,
  is_none, differ, parse_route, parse_clarification, parse_missing, parse_escalation,
  parse_action_parameters, or_invalid, uuid,
}
use recon_ai.Resolution.Contracts.Clean.{
  IsClean, MaybeClean, required-IsClean, optional-MaybeClean, field_list-AllClean,
}

-- The clauses of the models of contracts.py.
abbrev pub IsValid : {Date : Type 0} → ActionType → ActionParameters Date → Type 0
IsValid ActionType.route_to_review (route_to_review p) =
    IsClean 128 p.review_queue
    × MaybeClean 2000 p.reason
    × MaybeClean 255 p.assigned_to
    × (is_none p.document_id ≡ is_none p.extraction_result_id)
IsValid ActionType.request_vendor_clarification (request_vendor_clarification p) =
    IsClean 4000 p.question
    × MaybeClean 255 p.vendor_reference
    × MaybeClean 2000 p.reason
    × All (IsClean 128) p.fields
    × (leb (length p.fields) 32 ≡ true)
    × ((is_none p.vendor_id && is_none p.vendor_reference) ≡ false)
IsValid ActionType.request_missing_document (request_missing_document p) =
    IsClean 64 p.document_type × IsClean 2000 p.reason × MaybeClean 255 p.vendor_reference
IsValid ActionType.escalate_to_manager (escalate_to_manager p) =
    IsClean 2000 p.reason × MaybeClean 128 p.destination
IsValid _ _ = ⊥

alike : (a b : Bool) → differ a b ≡ false → a ≡ b
alike true true h = refl
alike true false h = cc
alike false b h = sym h

module _ {Date : Type 0} (read_uuid : Json → Option Uuid) (read_date : Json → Option Date) where
  route-IsValid :
      (fs : Fields) {p : RouteToReview}
      → parse_route read_uuid read_date fs ≡ ok p
      → IsValid {Date = Date} ActionType.route_to_review (route_to_review p)
  unfolding parse_route
  route-IsValid fs h =
      let (u, known_keys, h1) = bind-ok (only_keys _ fs) _ h in
      let (queue, is_queue, h2) = bind-ok (required 128 (get_key (codes "review_queue") fs)) _ h1 in
      let (reason, is_reason, h3) =
        bind-ok (optional (clean_text 2000) (get_key (codes "reason") fs)) _ h2 in
      let (assigned, is_assigned, h4) =
        bind-ok (optional (clean_text 255) (get_key (codes "assigned_to") fs)) _ h3 in
      let (document, is_document, h5) =
        bind-ok (optional (uuid read_uuid read_date) (get_key (codes "document_id") fs)) _ h4 in
      let (extraction, is_extraction, h6) =
        bind-ok (optional (uuid read_uuid read_date) (get_key (codes "extraction_result_id") fs)) _
          h5 in
      let (paired, same) =
        guard-ok (differ (is_none document) (is_none extraction)) invalid_parameters _ h6 in
      subst (λ p. IsValid {Date = Date} ActionType.route_to_review (route_to_review p))
        (ok_injective _ _ same)
        (
          required-IsClean 128 (get_key (codes "review_queue") fs) is_queue,
          optional-MaybeClean 2000 (get_key (codes "reason") fs) is_reason,
          optional-MaybeClean 255 (get_key (codes "assigned_to") fs) is_assigned,
          alike (is_none document) (is_none extraction) paired,
        )

  clarification-IsValid :
      (fs : Fields) {p : VendorClarification Date}
      → parse_clarification read_uuid read_date fs ≡ ok p
      → IsValid ActionType.request_vendor_clarification (request_vendor_clarification p)
  unfolding parse_clarification
  clarification-IsValid fs h =
      let (u, known_keys, h1) = bind-ok (only_keys _ fs) _ h in
      let (question, is_question, h2) =
        bind-ok (required 4000 (get_key (codes "question") fs)) _ h1 in
      let (vendor, is_vendor, h3) =
        bind-ok (optional (uuid read_uuid read_date) (get_key (codes "vendor_id") fs)) _ h2 in
      let (reference, is_reference, h4) =
        bind-ok (optional (clean_text 255) (get_key (codes "vendor_reference") fs)) _ h3 in
      let (reason, is_reason, h5) =
        bind-ok (optional (clean_text 2000) (get_key (codes "reason") fs)) _ h4 in
      let (fields, are_fields, h6) = bind-ok (field_list (get_key (codes "fields") fs)) _ h5 in
      let (due, is_due, h7) =
        bind-ok
          (optional (λ j. or_invalid read_uuid read_date (read_date j))
            (get_key (codes "due_date") fs))
          _ h6 in
      let (vendored, same) =
        guard-ok (is_none vendor && is_none reference) invalid_parameters _ h7 in
      let (all_clean, few) = field_list-AllClean (get_key (codes "fields") fs) are_fields in
      subst (λ p. IsValid ActionType.request_vendor_clarification (request_vendor_clarification p))
        (ok_injective _ _ same)
        (
          required-IsClean 4000 (get_key (codes "question") fs) is_question,
          optional-MaybeClean 255 (get_key (codes "vendor_reference") fs) is_reference,
          optional-MaybeClean 2000 (get_key (codes "reason") fs) is_reason,
          all_clean,
          few,
          vendored,
        )

  missing-IsValid :
      (fs : Fields) {p : MissingDocument}
      → parse_missing read_uuid read_date fs ≡ ok p
      → IsValid {Date = Date} ActionType.request_missing_document (request_missing_document p)
  unfolding parse_missing
  missing-IsValid fs h =
      let (u, known_keys, h1) = bind-ok (only_keys _ fs) _ h in
      let (kind, is_kind, h2) = bind-ok (required 64 (get_key (codes "document_type") fs)) _ h1 in
      let (reason, is_reason, h3) = bind-ok (required 2000 (get_key (codes "reason") fs)) _ h2 in
      let (vendor, is_vendor, h4) =
        bind-ok (optional (uuid read_uuid read_date) (get_key (codes "vendor_id") fs)) _ h3 in
      let (reference, is_reference, same) =
        bind-ok (optional (clean_text 255) (get_key (codes "vendor_reference") fs)) _ h4 in
      subst
        (λ p.
          IsValid {Date = Date} ActionType.request_missing_document (request_missing_document p))
        (ok_injective _ _ same)
        (
          required-IsClean 64 (get_key (codes "document_type") fs) is_kind,
          required-IsClean 2000 (get_key (codes "reason") fs) is_reason,
          optional-MaybeClean 255 (get_key (codes "vendor_reference") fs) is_reference,
        )

  escalation-IsValid :
      (fs : Fields) {p : Escalation}
      → parse_escalation read_uuid read_date fs ≡ ok p
      → IsValid {Date = Date} ActionType.escalate_to_manager (escalate_to_manager p)
  unfolding parse_escalation
  escalation-IsValid fs h =
      let (u, known_keys, h1) = bind-ok (only_keys _ fs) _ h in
      let (reason, is_reason, h2) = bind-ok (required 2000 (get_key (codes "reason") fs)) _ h1 in
      let (priority, is_priority, h3) =
        bind-ok (priority_or_medium (get_key (codes "priority") fs)) _ h2 in
      let (destination, is_destination, same) =
        bind-ok (optional (clean_text 128) (get_key (codes "destination") fs)) _ h3 in
      subst (λ p. IsValid {Date = Date} ActionType.escalate_to_manager (escalate_to_manager p))
        (ok_injective _ _ same)
        (
          required-IsClean 2000 (get_key (codes "reason") fs) is_reason,
          optional-MaybeClean 128 (get_key (codes "destination") fs) is_destination,
        )

  tagged :
      {A : Type 0} (m : Parsed A) (make : A → ActionParameters Date) (t : ActionType)
      → ((a : A) → m ≡ ok a → IsValid t (make a))
      → {p : ActionParameters Date} → (m >>= λ a. ok (make a)) ≡ ok p
      → IsValid t p
  tagged m make t valid h =
      let (a, read, same) = bind-ok m _ h in
      subst (IsValid t) (ok_injective (make a) _ same) (valid a read)

  -- Parameters that are parsed are of the model of their type, and valid: each text is not blank, without
  -- space around it and within its bound; a route names a document and its extraction both or neither; and
  -- a clarification names a vendor, and at most 32 fields.
  pub parse_action_parameters-IsValid :
      (t : ActionType) (j : Json) (p : ActionParameters Date)
      → parse_action_parameters read_uuid read_date t j ≡ ok p
      → IsValid t p
  unfolding parse_action_parameters
  parse_action_parameters-IsValid ActionType.route_to_review (obj fs) p h =
      tagged _ route_to_review ActionType.route_to_review (λ a. route-IsValid fs {p = a}) h
  parse_action_parameters-IsValid ActionType.request_vendor_clarification (obj fs) p h =
      tagged _ request_vendor_clarification ActionType.request_vendor_clarification
        (λ a. clarification-IsValid fs {p = a}) h
  parse_action_parameters-IsValid ActionType.request_missing_document (obj fs) p h =
      tagged _ request_missing_document ActionType.request_missing_document
        (λ a. missing-IsValid fs {p = a}) h
  parse_action_parameters-IsValid ActionType.escalate_to_manager (obj fs) p h =
      tagged _ escalate_to_manager ActionType.escalate_to_manager
        (λ a. escalation-IsValid fs {p = a}) h
  parse_action_parameters-IsValid t null p h = cc
  parse_action_parameters-IsValid t (bool b) p h = cc
  parse_action_parameters-IsValid t (num n) p h = cc
  parse_action_parameters-IsValid t (str s) p h = cc
  parse_action_parameters-IsValid t (arr js) p h = cc
