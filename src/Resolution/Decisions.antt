-- ===== src/Resolution/Decisions.antt =====
-- app/services/resolution_service.py: `_record_decision`, behind `approve_action` and `reject_action`, with
-- app/resolution/reviewer.py. A decision that raises or replays an
-- earlier one commits nothing. What other transactions insert between the look for a key and the insert
-- under it is an argument of the call.
pub mod Prior
pub mod Writes
pub mod Cases
pub mod Authorizes
pub mod Replays
pub mod Plans
pub mod Succeeds
use recon_ai.Prelude.{
  ℕ, Bool, true, false, not, ◌&&◌, ◌||◌, Option, none, some, List, [], ◌∷◌, ◌++◌, if◌then◌else◌,
  any, all, filter, is_empty, leb, ◌==◌, length,
}
use recon_ai.Prelude.Text.{Text, text_eq, is_space, strip}
use recon_ai.Prelude.Json.{Json}
use recon_ai.Prelude.Check.{Check, ok, err, ◌>>=◌, ◌>>◌, raise_if}
use recon_ai.Prelude.Table.{find, update_where}
use recon_ai.Domain.{ApprovalDecision, ProposedActionStatus, ResolutionPlanStatus}
use recon_ai.Resolution.Transitions.{plan_allowed, action_allowed}
use recon_ai.Resolution.Model.{
  Uuid, ResolutionPlan, ProposedAction, ActionApproval, AuditEventType, action_approved,
  action_rejected, Store,
}
use recon_ai.Resolution.Guardrails.{
  latest, is_pending, is_approval, is_approved, is_rejected, has_status,
}
use recon_ai.Resolution.Immutability.{ActionFlush, is_refused}
use recon_ai.Resolution.Refresh.{refresh_after_decision}
use recon_ai.Resolution.Rows.{record_event, siblings_of, approvals_of}

pub data DecisionError : Type 0 where
  invalid_reviewer blank_key plan_not_found plan_cancelled action_not_found key_of_other
        key_conflict not_decidable invalid_transition hash_replaced :
      DecisionError

abbrev pub Decided : Type 0 → Type 0
Decided A = Check DecisionError A

-- The arguments of a decision, with what it takes from outside: the id, the times of the service and of
-- the database, and the rows that other transactions insert.
pub record DecisionRequest : Type 0 where
  pub plan_id : Uuid
  pub action_id : Uuid
  pub decision : ApprovalDecision
  pub reviewer : Text
  pub reason : Option Text
  pub idempotency_key : Option Text
  pub approval_id : Uuid
  pub now : ℕ
  pub created_at : ℕ
  pub raced : List ActionApproval

-- `[\w.@+\- :/]` on ASCII.
abbrev is_reviewer_char : ℕ → Bool
is_reviewer_char c =
    leb b'a' c && leb c b'z'
    || (leb b'A' c && leb c b'Z'
        || (leb b'0' c && leb c b'9'
            || any (λ x. x == c) (b'_' ∷ b'.' ∷ b'@' ∷ b'+' ∷ b'-' ∷ b' ' ∷ b':' ∷ b'/' ∷ [])))

-- `validate_reviewer`
unfoldable pub validate_reviewer : Text → Decided Text
validate_reviewer reviewer = do
  let normalized = strip is_space reviewer
  raise_if (is_empty normalized || not (leb (length normalized) 255)) invalid_reviewer
  raise_if (not (all is_reviewer_char normalized)) invalid_reviewer
  ok normalized

-- The stripped key, which must not be blank.
abbrev pub some_key : Text → Decided (Option Text)
some_key key = raise_if (is_empty key) blank_key >> ok (some key)

unfoldable pub validate_key : Option Text → Decided (Option Text)
validate_key none = ok none
validate_key (some key) = some_key (strip is_space key)

abbrev pub or_missing : {A : Type 0} → DecisionError → Option A → Decided A
or_missing e none = err e
or_missing e (some a) = ok a

abbrev pub is_cancelled_plan : ResolutionPlanStatus → Bool
is_cancelled_plan ResolutionPlanStatus.cancelled = true
is_cancelled_plan _ = false

abbrev pub find_plan : Uuid → Store → Option ResolutionPlan
find_plan i st = find (λ p. p.id == i) st.plans

-- `get_action`
abbrev pub find_action : Uuid → Uuid → Store → Option ProposedAction
find_action plan_id i st = find (λ a. a.id == i && a.resolution_plan_id == plan_id) st.actions

abbrev pub has_key : Text → ActionApproval → Bool
has_key key a = elim a.idempotency_key [ none ↦ false | some k ↦ text_eq k key ]

abbrev pub same_decision : ApprovalDecision → ApprovalDecision → Bool
same_decision ApprovalDecision.approved ApprovalDecision.approved = true
same_decision ApprovalDecision.rejected ApprovalDecision.rejected = true
same_decision _ _ = false

-- The approval that a used key gives back.
abbrev pub replay : ProposedAction → ApprovalDecision → ActionApproval → Decided ActionApproval
replay action decision existing = do
  raise_if (not (existing.proposed_action_id == action.id)) key_of_other
  raise_if (not (same_decision existing.decision decision)) key_conflict
  ok existing

abbrev pub find_key : Option Text → List ActionApproval → Option ActionApproval
find_key none approvals = none
find_key (some key) approvals = find (has_key key) approvals

abbrev pub is_undecidable : ProposedActionStatus → Bool
is_undecidable ProposedActionStatus.completed = true
is_undecidable ProposedActionStatus.executing = true
is_undecidable ProposedActionStatus.cancelled = true
is_undecidable ProposedActionStatus.failed = true
is_undecidable _ = false

abbrev pub target_of : ApprovalDecision → ProposedActionStatus
target_of ApprovalDecision.approved = ProposedActionStatus.approved
target_of ApprovalDecision.rejected = ProposedActionStatus.rejected

abbrev pub has_target : ApprovalDecision → ProposedActionStatus → Bool
has_target ApprovalDecision.approved s = is_approved s
has_target ApprovalDecision.rejected s = is_rejected s

-- The latest earlier decision of the same kind, where the action has its status already.
unfoldable pub prior_decision : ProposedAction → ApprovalDecision → Store → Option ActionApproval
prior_decision action decision st =
    if has_target decision action.status
    then latest (filter (λ a. same_decision a.decision decision) (approvals_of action st))
    else none

-- The action as a decision leaves it: `ensure_hash_on_approve` keeps the hash of its parameters.
abbrev pub decided_action : (Json → Text) → ApprovalDecision → ProposedAction → ProposedAction
decided_action hash ApprovalDecision.approved action = record action {
  status = ProposedActionStatus.approved;
  approved_parameters_hash = some (hash action.parameters);
}
decided_action hash ApprovalDecision.rejected action = record action {
  status = ProposedActionStatus.rejected;
}

-- The change of the row, which leaves the protected fields alone.
abbrev pub decision_flush : (Json → Text) → ApprovalDecision → ProposedAction → ActionFlush
decision_flush hash decision action =
    let decided = decided_action hash decision action in
    record {
      prior_status = action.status;
      new_status = decided.status;
      changed = [];
      hash_before = action.approved_parameters_hash;
      hash_after = decided.approved_parameters_hash;
    }

unfoldable pub put_action : ProposedAction → Store → Store
put_action action st = record st {
  actions = update_where (λ a. a.id == action.id) (λ a. action) st.actions;
}

abbrev pub new_approval : DecisionRequest → Text → Option Text → ProposedAction → ActionApproval
new_approval rq reviewer key action = record {
  id = rq.approval_id;
  proposed_action_id = action.id;
  decision = rq.decision;
  reviewer = reviewer;
  reason = rq.reason;
  idempotency_key = key;
  created_at = rq.created_at;
  decided_at = rq.now;
}

unfoldable pub add_approvals : List ActionApproval → Store → Store
add_approvals rows st = record st { approvals = st.approvals ++ rows }

abbrev pub decision_event : ApprovalDecision → AuditEventType
decision_event ApprovalDecision.approved = action_approved
decision_event ApprovalDecision.rejected = action_rejected

module _ (hash : Json → Text) where
  -- The rows of a new decision, and the refreshed plan.
  unfoldable pub write_decision :
      DecisionRequest
      → Text
      → Option Text
      → ResolutionPlan
      → ProposedAction
      → Store
      → ActionApproval × Store
  write_decision rq reviewer key plan action st =
      let approval = new_approval rq reviewer key action in
      (
        approval,
        refresh_after_decision plan (
            record_event (decision_event rq.decision) plan action none (
              add_approvals (approval ∷ [])
                (put_action (decided_action hash rq.decision action) st))),
      )

  -- The insert, where another transaction may have taken the key meanwhile.
  abbrev pub insert_decision :
      DecisionRequest
      → Text
      → Option Text
      → ResolutionPlan
      → ProposedAction
      → Store
      → Option ActionApproval
      → Decided (ActionApproval × Store)
  insert_decision rq reviewer key plan action st none =
      ok (write_decision rq reviewer key plan action st)
  insert_decision rq reviewer key plan action st (some existing) = do
    a ← replay action rq.decision existing
    ok (a, st)

  abbrev pub decide_new :
      DecisionRequest
      → Text
      → Option Text
      → ResolutionPlan
      → ProposedAction
      → Store
      → Option ActionApproval
      → Decided (ActionApproval × Store)
  decide_new rq reviewer key plan action st (some prior) = ok (prior, st)
  decide_new rq reviewer key plan action st none = do
    raise_if
        (not (has_target rq.decision action.status)
          && not (action_allowed action.status (target_of rq.decision)))
        invalid_transition
    raise_if (is_refused (decision_flush hash rq.decision action)) hash_replaced
    insert_decision rq reviewer key plan action (add_approvals rq.raced st) (find_key key rq.raced)

  abbrev pub decide_unless :
      DecisionRequest
      → Text
      → Option Text
      → ResolutionPlan
      → ProposedAction
      → Store
      → Option ActionApproval
      → Decided (ActionApproval × Store)
  decide_unless rq reviewer key plan action st (some existing) = do
    a ← replay action rq.decision existing
    ok (a, st)
  decide_unless rq reviewer key plan action st none = do
    raise_if (is_undecidable action.status) not_decidable
    decide_new rq reviewer key plan action st (prior_decision action rq.decision st)

  -- `_record_decision`: the approval row, and the store.
  unfoldable pub record_decision : DecisionRequest → Store → Decided (ActionApproval × Store)
  record_decision rq st = do
    reviewer ← validate_reviewer rq.reviewer
    key ← validate_key rq.idempotency_key
    plan ← or_missing plan_not_found (find_plan rq.plan_id st)
    raise_if (is_cancelled_plan plan.status) plan_cancelled
    action ← or_missing action_not_found (find_action rq.plan_id rq.action_id st)
    decide_unless rq reviewer key plan action st (find_key key st.approvals)
