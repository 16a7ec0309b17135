-- ===== src/Resolution/Tests.antt =====
-- Concrete rows of app/resolution: a plan with one approved action that routes an exception to review.
pub mod Decisions
pub mod Proposals
use recon_ai.Prelude.{true, false, [], ◌∷◌, none, some, ◌≡◌, refl, ◌⊎◌, any, is_empty}
use recon_ai.Prelude.Text.{Text, codes, text_eq, strip, is_space}
use recon_ai.Domain.{
  ActionType, ApprovalDecision, ExceptionStatus, ExecutionStatus, ProposedActionStatus,
  ResolutionPlanStatus,
}
use recon_ai.Resolution.Transitions.{action_allowed, is_non_executable}
use recon_ai.Prelude.Json.{Json, str}
use recon_ai.Resolution.Model.{
  known, ResolutionPlan, ProposedAction, ActionApproval, ActionExecution, ExceptionRow, Store,
  ActionHandler, ActionRegistry, created,
}
use recon_ai.Resolution.Guardrails.{
  latest, latest_from, validate_action, validate_action_order, validate_approval,
  validate_execution, check_hash, is_active_or_done,
}
use recon_ai.Resolution.Rows.{Request, find_execution, executions_of}
use recon_ai.Resolution.Execution.{check_all, run_handler, execute_action}
use recon_ai.Resolution.Execution.Cases.{Found, key_of}
use recon_ai.Resolution.Execution.Authorized.{IsAuthorized, execute_action-IsAuthorized}
use recon_ai.Resolution.Execution.Keys.{used_key_unchanged, retry_unchanged}
use recon_ai.Resolution.Execution.Outcomes.{result}
use recon_ai.Resolution.Execution.Completed.{running, execute_action-completes}
use recon_ai.Resolution.Execution.Truth.{KeepsStatus, exception_status_kept}

abbrev pub route : ActionHandler
route = record {
  action_type = ActionType.route_to_review;
  requires_approval = true;
  validate_parameters = λ p. some p;
  execute = λ p plan action w. (created, w);
}

abbrev pub registry : ActionRegistry
registry ActionType.route_to_review = some route
registry _ = none

-- A hash that tells nothing apart.
abbrev pub constant_hash : Json → Text
constant_hash p = codes "h"

abbrev pub action : ProposedAction
action = record {
  id = 20;
  resolution_plan_id = 10;
  action_type = known ActionType.route_to_review;
  action_order = 1;
  parameters = str (codes "p");
  requires_approval = true;
  approved_parameters_hash = some (codes "h");
  status = ProposedActionStatus.approved;
}

abbrev pub plan : ResolutionPlan
plan = record { id = 10; reconciliation_exception_id = 5; status = ResolutionPlanStatus.approved }

abbrev pub exception : ExceptionRow
exception = record { id = 5; status = ExceptionStatus.open_ }

abbrev pub approval : ActionApproval
approval = record {
  id = 30;
  proposed_action_id = 20;
  decision = ApprovalDecision.approved;
  reviewer = codes "ann";
  reason = none;
  idempotency_key = none;
  created_at = 1;
  decided_at = 1;
}

abbrev pub st : Store
st = record {
  plans = plan ∷ [];
  actions = action ∷ [];
  approvals = approval ∷ [];
  executions = [];
  audit = [];
  world = record { exceptions = exception ∷ []; workflow = [] };
}

abbrev pub rq : Request
rq = record {
  plan_id = 10;
  action_id = 20;
  idempotency_key = codes " k ";
  execution_id = 40;
  now = 2;
  completed_at = 3;
  raced = [];
}

abbrev done : ActionExecution
done = record {
  id = 41;
  proposed_action_id = 20;
  execution_status = ExecutionStatus.succeeded;
  idempotency_key = codes "k";
  started_at = some 0;
  completed_at = some 0;
  error_code = none;
}

-- The rows after an earlier execution.
abbrev executed : Store
executed = record st { executions = done ∷ [] }

keyed : is_empty (key_of rq) ≡ false
unfolding strip is_space
keyed = refl

abbrev found : Found rq st
found = record {
  action = action;
  plan = plan;
  before = exception;
  has_key = keyed;
  action_found = refl;
  plan_found = refl;
  exception_found = refl;
}

execute_action-IsAuthorized_example :
    ((execute_action registry constant_hash rq st).1.world ≡ st.world)
      × ((execute_action registry constant_hash rq st).1.executions ≡ st.executions)
      × ((execute_action registry constant_hash rq st).1.plans ≡ st.plans)
      × ((execute_action registry constant_hash rq st).1.actions ≡ st.actions)
    ⊎ ((f : Found rq st) × IsAuthorized registry constant_hash f.plan f.action st
        × (find_execution (key_of rq) st.executions ≡ none)
        × (any is_active_or_done (executions_of f.action st) ≡ false))
execute_action-IsAuthorized_example = execute_action-IsAuthorized registry constant_hash rq st

used_key_unchanged_example : (execute_action registry constant_hash rq executed).1 ≡ executed
unfolding text_eq strip is_space
used_key_unchanged_example = used_key_unchanged registry constant_hash rq executed refl

retry_unchanged_example :
    let after = (execute_action registry constant_hash rq st).1 in
    ((execute_action registry constant_hash rq after).1 ≡ after)
    ⊎ (after ≡ record st { audit = after.audit })
retry_unchanged_example = retry_unchanged registry constant_hash rq rq st refl

execute_action-completes_example :
    (execute_action registry constant_hash rq st).0
    ≡ result 3
        (run_handler registry constant_hash plan action st.world).0
        (some (running rq action))
unfolding validate_execution check_all validate_action validate_action_order validate_approval
    latest latest_from check_hash action_allowed strip is_space text_eq is_non_executable
execute_action-completes_example =
    execute_action-completes registry constant_hash rq st found refl refl refl refl refl

exception_status_kept_example :
    KeepsStatus exception (execute_action registry constant_hash rq st).1.world
exception_status_kept_example = exception_status_kept registry constant_hash rq st found
