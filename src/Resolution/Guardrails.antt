-- ===== src/Resolution/Guardrails.antt =====
-- app/resolution/guardrails.py and the hash check of app/resolution/immutability.py.
use recon_ai.Prelude.{
  Bool, true, false, ◌&&◌, ◌||◌, not, List, [], ◌∷◌, Option, none, some, ltb, ◌==◌, if◌then◌else◌,
  any, all, filter, is_empty,
}
use recon_ai.Prelude.Text.{Text, text_eq}
use recon_ai.Domain.{ApprovalDecision, ExecutionStatus, ProposedActionStatus, ResolutionPlanStatus}
use recon_ai.Prelude.Check.{Check, ok, err, ◌>>◌, raise_if, when}
use recon_ai.Resolution.Transitions.{is_non_executable}
use recon_ai.Prelude.Json.{Json}
use recon_ai.Resolution.Model.{
  ActionName, known, unknown, ResolutionPlan, ProposedAction, ActionApproval, ActionExecution,
  ActionHandler, ActionRegistry, GuardrailError, plan_not_executable, action_rejected,
  action_cancelled, action_completed, action_executing, unregistered_type, approval_required,
  malformed_parameters, prior_unfinished, was_rejected, latest_rejected, not_approved, key_required,
  key_of_other_action, active_or_done, HashError, hash_missing, hash_differs,
}

abbrev pub Guard : Type 0
Guard = Check GuardrailError (Unit {0})

-- `registry.get`: none where it raises KeyError, as for a type that is no `ActionType`.
abbrev pub handler_for : ActionRegistry → ActionName → Option ActionHandler
handler_for registry (known t) = registry t
handler_for registry (unknown name) = none

abbrev pub is_pending : ProposedActionStatus → Bool
is_pending ProposedActionStatus.pending = true
is_pending _ = false

abbrev pub check_action_status : ProposedActionStatus → Guard
check_action_status ProposedActionStatus.rejected = err action_rejected
check_action_status ProposedActionStatus.cancelled = err action_cancelled
check_action_status ProposedActionStatus.completed = err action_completed
check_action_status ProposedActionStatus.executing = err action_executing
check_action_status _ = ok tt

abbrev pub check_parameters : Option Json → Guard
check_parameters none = err malformed_parameters
check_parameters (some typed) = ok tt

abbrev pub check_handler : Option ActionHandler → ProposedAction → Guard
check_handler none action = err unregistered_type
check_handler (some handler) action = do
  raise_if (handler.requires_approval && is_pending action.status) approval_required
  check_parameters (handler.validate_parameters action.parameters)

unfoldable pub validate_action : ProposedAction → ResolutionPlan → ActionRegistry → Guard
validate_action action plan registry = do
  raise_if (is_non_executable plan.status) plan_not_executable
  check_action_status action.status
  check_handler (handler_for registry action.action_type) action

-- `_PRIOR_TERMINAL`
abbrev pub is_prior_terminal : ProposedActionStatus → Bool
is_prior_terminal ProposedActionStatus.completed = true
is_prior_terminal ProposedActionStatus.rejected = true
is_prior_terminal ProposedActionStatus.cancelled = true
is_prior_terminal _ = false

-- An earlier sibling that is not finished.
abbrev pub blocks : ProposedAction → ProposedAction → Bool
blocks action prior =
    not (prior.id == action.id)
    && (ltb prior.action_order action.action_order && not (is_prior_terminal prior.status))

unfoldable pub validate_action_order : ProposedAction → List ProposedAction → Guard
validate_action_order action [] = ok tt
validate_action_order action (prior ∷ siblings) = do
  raise_if (blocks action prior) prior_unfinished
  validate_action_order action siblings

abbrev pub is_approval : ActionApproval → Bool
is_approval a = elim a.decision [
  | ApprovalDecision.approved ↦ true
  | ApprovalDecision.rejected ↦ false
]

-- The order of the keys `(created_at, decided_at, str(id))`; texts of UUIDs are ordered as the
-- numbers are.
abbrev pub approval_before : ActionApproval → ActionApproval → Bool
approval_before a b =
    ltb a.created_at b.created_at
    || (a.created_at == b.created_at
        && (ltb a.decided_at b.decided_at || (a.decided_at == b.decided_at && ltb a.id b.id)))

-- `max`: the first of the greatest.
unfoldable pub latest_from : ActionApproval → List ActionApproval → ActionApproval
latest_from best [] = best
latest_from best (a ∷ others) = latest_from (if approval_before best a then a else best) others

unfoldable pub latest : List ActionApproval → Option ActionApproval
latest [] = none
latest (a ∷ others) = some (latest_from a others)

abbrev pub registry_requires : Option ActionHandler → ProposedAction → Bool
registry_requires none action = action.requires_approval
registry_requires (some handler) action = handler.requires_approval

abbrev pub check_latest : Option ActionApproval → Guard
check_latest none = err not_approved
check_latest (some a) = if is_approval a then ok tt else err latest_rejected

abbrev pub is_rejected : ProposedActionStatus → Bool
is_rejected ProposedActionStatus.rejected = true
is_rejected _ = false

-- The decisions on an action that needs one.
abbrev pub check_decisions : List ActionApproval → Guard
check_decisions approvals = do
  raise_if (any (λ a. not (is_approval a)) approvals && not (any is_approval approvals))
      was_rejected
  check_latest (latest approvals)

unfoldable pub validate_approval : ProposedAction → List ActionApproval → ActionRegistry → Guard
validate_approval action approvals registry = do
  raise_if (is_rejected action.status) action_rejected
  when (registry_requires (handler_for registry action.action_type) action)
      (check_decisions approvals)

abbrev pub is_active_or_done : ActionExecution → Bool
is_active_or_done e = elim e.execution_status [ ExecutionStatus.failed ↦ false | _ ↦ true ]

abbrev pub by_key :
    ProposedAction
    → List ActionExecution
    → Option ActionExecution
    → Check GuardrailError (Option ActionExecution)
by_key action existing none = raise_if (any is_active_or_done existing) active_or_done >> ok none
by_key action existing (some e) =
    if e.proposed_action_id == action.id then ok (some e) else err key_of_other_action

-- The execution to replay, or none to go on. The key has been stripped.
unfoldable pub validate_execution :
    ProposedAction
    → Text
    → Option ActionExecution
    → List ActionExecution
    → Check GuardrailError (Option ActionExecution)
validate_execution action key existing_by_key existing = do
  raise_if (is_empty key) key_required
  by_key action existing existing_by_key

abbrev pub compare_hash : Text → Option Text → Check HashError (Unit {0})
compare_hash found none = err hash_missing
compare_hash found (some approved) = do
  raise_if (is_empty approved) hash_missing
  raise_if (not (text_eq found approved)) hash_differs

-- `assert_parameters_match_approved_hash`; `hash` is `compute_parameters_hash`.
unfoldable pub check_hash : (Json → Text) → ProposedAction → Check HashError (Unit {0})
check_hash hash action = compare_hash (hash action.parameters) action.approved_parameters_hash

abbrev pub has_status : (ProposedActionStatus → Bool) → ProposedAction → Bool
has_status p a = p a.status

abbrev pub is_executing : ProposedActionStatus → Bool
is_executing ProposedActionStatus.executing = true
is_executing _ = false

abbrev pub is_failed : ProposedActionStatus → Bool
is_failed ProposedActionStatus.failed = true
is_failed _ = false

abbrev pub is_completed : ProposedActionStatus → Bool
is_completed ProposedActionStatus.completed = true
is_completed _ = false

abbrev pub is_approved : ProposedActionStatus → Bool
is_approved ProposedActionStatus.approved = true
is_approved _ = false

-- Neither REJECTED nor CANCELLED.
abbrev pub is_executable : ProposedActionStatus → Bool
is_executable ProposedActionStatus.rejected = false
is_executable ProposedActionStatus.cancelled = false
is_executable _ = true

unfoldable pub aggregate_plan_status : List ProposedAction → Option ResolutionPlanStatus
aggregate_plan_status [] = none
aggregate_plan_status (a ∷ others) =
    let actions = a ∷ others in
    let executable = filter (has_status is_executable) actions in
    if any (has_status is_executing) actions
    then some ResolutionPlanStatus.executing
    else if any (has_status is_pending) actions
    then some ResolutionPlanStatus.approval_required
    else if any (has_status is_failed) actions
    then some ResolutionPlanStatus.failed
    else if is_empty executable
    then some ResolutionPlanStatus.rejected
    else if all (has_status is_completed) executable
    then some ResolutionPlanStatus.completed
    else if any (has_status is_approved) executable
    then some ResolutionPlanStatus.approved
    else none
