-- ===== src/Resolution/Model.antt =====
-- The rows that the resolution services read and write (app/db/models.py), the registered handlers
-- (app/resolution/registry.py), and the errors of the guardrails and of the execution service. A
-- status column holds one of the values of its enumeration. The columns that no service reads are
-- left out: rationale, summaries, tenants.
use recon_ai.Prelude.{ℕ, Bool, List, Option}
use recon_ai.Prelude.Text.{Text}
use recon_ai.Prelude.Json.{Json}
use recon_ai.Domain.{
  ActionType, ApprovalDecision, ExceptionStatus, ExecutionStatus, ProposedActionStatus,
  ResolutionPlanStatus,
}

abbrev pub Uuid : Type 0
Uuid = ℕ

-- The text in `proposed_actions.action_type`, as `ActionType(…)` reads it.
pub data ActionName : Type 0 where
  known : ActionType → ActionName
  unknown : Text → ActionName

pub record ResolutionPlan : Type 0 where
  pub id : Uuid
  pub reconciliation_exception_id : Uuid
  pub status : ResolutionPlanStatus

pub record ProposedAction : Type 0 where
  pub id : Uuid
  pub resolution_plan_id : Uuid
  pub action_type : ActionName
  pub action_order : ℕ
  pub parameters : Json
  pub requires_approval : Bool
  pub approved_parameters_hash : Option Text
  pub status : ProposedActionStatus

pub record ActionApproval : Type 0 where
  pub id : Uuid
  pub proposed_action_id : Uuid
  pub decision : ApprovalDecision
  pub reviewer : Text
  pub reason : Option Text
  pub idempotency_key : Option Text
  pub created_at : ℕ
  pub decided_at : ℕ

pub record ActionExecution : Type 0 where
  pub id : Uuid
  pub proposed_action_id : Uuid
  pub execution_status : ExecutionStatus
  pub idempotency_key : Text
  pub started_at : Option ℕ
  pub completed_at : Option ℕ
  pub error_code : Option Text

pub data AuditEventType : Type 0 where
  plan_created action_proposed action_approved action_rejected execution_started execution_succeeded
        execution_failed workflow_created workflow_reused :
      AuditEventType

-- A row of the audit trail, without its `event_data`.
pub record AuditEvent : Type 0 where
  pub event_type : AuditEventType
  pub resolution_plan_id : Uuid
  pub proposed_action_id : Option Uuid
  pub action_execution_id : Option Uuid

-- `reconciliation_exceptions`: the columns that matter here.
pub record ExceptionRow : Type 0 where
  pub id : Uuid
  pub status : ExceptionStatus

-- What handlers write: a workflow row for an action, of the action's type.
pub record WorkflowRow : Type 0 where
  pub id : Uuid
  pub proposed_action_id : Uuid
  pub action_type : ActionType
  pub parameters : Json

-- The tables that a handler may write.
pub record World : Type 0 where
  pub exceptions : List ExceptionRow
  pub workflow : List WorkflowRow

pub record Store : Type 0 where
  pub plans : List ResolutionPlan
  pub actions : List ProposedAction
  pub approvals : List ActionApproval
  pub executions : List ActionExecution
  pub audit : List AuditEvent
  pub world : World

-- `ActionResult.status`, `reported_failure` for "failed"; a handler that raises is `raised` with the name of the exception's type.
pub data HandlerOutcome : Type 0 where
  created already_exists reported_failure : HandlerOutcome
  raised : Text → HandlerOutcome

-- An `ActionHandler`. `validate_parameters` is the Pydantic model of the action's type: the validated
-- parameters, or nothing where it raises. `execute` may leave any rows behind.
pub record ActionHandler : Type 0 where
  pub action_type : ActionType
  pub requires_approval : Bool
  pub validate_parameters : Json → Option Json
  pub execute : Json → ResolutionPlan → ProposedAction → World → HandlerOutcome × World

-- An `ActionRegistry`: the handler registered for a type.
abbrev pub ActionRegistry : Type 0
ActionRegistry = ActionType → Option ActionHandler

pub data GuardrailError : Type 0 where
  plan_not_executable action_rejected action_cancelled action_completed action_executing
        unregistered_type approval_required malformed_parameters prior_unfinished was_rejected
        latest_rejected not_approved key_required key_of_other_action active_or_done :
      GuardrailError

-- `ProposedActionImmutabilityError` in `assert_parameters_match_approved_hash`
pub data HashError : Type 0 where
  hash_missing hash_differs : HashError

-- The errors of `ResolutionExecutionService`, by class and message.
pub data ExecutionError : Type 0 where
  not_found_action not_found_plan not_found_exception : ExecutionError
  invalid : GuardrailError → ExecutionError
  invalid_hash : HashError → ExecutionError
  plan_cannot_start action_cannot_start handler_failed plan_transition : ExecutionError
  conflict : ExecutionError
