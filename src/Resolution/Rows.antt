-- ===== src/Resolution/Rows.antt =====
-- Reads and writes of rows as the execution service makes them through its session, and the
-- arguments and outcomes of its calls.
use recon_ai.Prelude.{ℕ, List, [], ◌∷◌, ◌++◌, Option, some, ◌==◌, filter}
use recon_ai.Prelude.Text.{Text, text_eq}
use recon_ai.Domain.{ExceptionStatus, ProposedActionStatus, ResolutionPlanStatus}
use recon_ai.Prelude.Table.{find, update_where}
use recon_ai.Resolution.Model.{
  Uuid, ResolutionPlan, ProposedAction, ActionApproval, ActionExecution, AuditEventType, World,
  Store, ExecutionError,
}

-- A call ends with an execution row, as it is read back, or an error, and leaves a store either way.
pub data Outcome : Type 0 where
  returned : Option ActionExecution → Outcome
  raises : ExecutionError → Outcome

-- The arguments of a call, with what it takes from outside: the ids and times it is given, and the
-- executions that other transactions insert between its check of the key and its own insert.
pub record Request : Type 0 where
  pub plan_id : Uuid
  pub action_id : Uuid
  pub idempotency_key : Text
  pub execution_id : Uuid
  pub now : ℕ
  pub completed_at : ℕ
  pub raced : List ActionExecution

-- Writes of one attribute of a row.
unfoldable pub set_plan_status : Uuid → ResolutionPlanStatus → Store → Store
set_plan_status i s st = record st {
  plans = update_where (λ p. p.id == i) (λ p. record p { status = s }) st.plans;
}

unfoldable pub set_action_status : Uuid → ProposedActionStatus → Store → Store
set_action_status i s st = record st {
  actions = update_where (λ a. a.id == i) (λ a. record a { status = s }) st.actions;
}

unfoldable pub set_execution : Uuid → (ActionExecution → ActionExecution) → Store → Store
set_execution i f st = record st { executions = update_where (λ e. e.id == i) f st.executions }

unfoldable pub set_exception_status : Uuid → ExceptionStatus → World → World
set_exception_status i s w = record w {
  exceptions = update_where (λ x. x.id == i) (λ x. record x { status = s }) w.exceptions;
}

-- `ResolutionAuditWriter.record`
unfoldable pub record_event :
    AuditEventType → ResolutionPlan → ProposedAction → Option Uuid → Store → Store
record_event event plan action execution_id st = record st {
  audit =
      st.audit
      ++ record {
        event_type = event;
        resolution_plan_id = plan.id;
        proposed_action_id = some action.id;
        action_execution_id = execution_id;
      }
        ∷ [];
}

abbrev pub find_execution : Text → List ActionExecution → Option ActionExecution
find_execution key = find (λ e. text_eq e.idempotency_key key)

abbrev pub executions_of : ProposedAction → Store → List ActionExecution
executions_of action st = filter (λ e. e.proposed_action_id == action.id) st.executions

abbrev pub siblings_of : Uuid → Store → List ProposedAction
siblings_of plan_id st = filter (λ a. a.resolution_plan_id == plan_id) st.actions

abbrev pub approvals_of : ProposedAction → Store → List ActionApproval
approvals_of action st = filter (λ a. a.proposed_action_id == action.id) st.approvals
