-- ===== src/Resolution/Execution/Outcomes.antt =====
-- What a call of `execute_action` ends with once it has passed the checks, and the status of the
-- exception after it.
use recon_ai.Prelude.{ℕ, true, Option, none, some, ◌≡◌, refl, ap, ◌∙◌, ◌==◌, any}
use recon_ai.Prelude.Text.{Text}
use recon_ai.Domain.{ExecutionStatus, ProposedActionStatus, ResolutionPlanStatus}
use recon_ai.Prelude.Json.{Json}
use recon_ai.Resolution.Model.{
  Uuid, ResolutionPlan, ProposedAction, ActionExecution, ActionRegistry, AuditEventType,
  execution_succeeded, workflow_created, workflow_reused, ExceptionRow, World, Store,
  HandlerOutcome, created, already_exists, reported_failure, raised, ExecutionError, handler_failed,
}
use recon_ai.Prelude.Table.{find, opt_map, find-update_where}
use recon_ai.Resolution.Rows.{
  Outcome, returned, raises, Request, set_plan_status, set_action_status, set_execution,
  set_exception_status, record_event,
}
use recon_ai.Resolution.Execution.{finish, after_failure, run_handler, succeed, fail, close, run}
use recon_ai.Resolution.Status.{plan_status, update_plan, refresh_plan, restore_exception}
use recon_ai.Resolution.Execution.Writes.{update_plan-keeps, refresh_plan-keeps}
use recon_ai.Resolution.Execution.Settled.{is_row, update_plan-none, refresh_plan-none}

finish-none :
    (i : Uuid) (x : ExceptionRow) (r : Option ExecutionError × Store)
    → r.0 ≡ none
    → finish i x r ≡ (returned (find (λ e. e.id == i) r.1.executions), restore_exception x r.1)
unfolding finish
finish-none i x (some e, st) h = cc
finish-none i x (none, st) h = refl

after_failure-none :
    (plan : ResolutionPlan) (action : ProposedAction) (x : ExceptionRow) (i : Uuid)
    (r : Option ExecutionError × Store)
    → r.0 ≡ none
    → ((after_failure plan action x i r).0 ≡ raises handler_failed)
      × ((after_failure plan action x i r).1.world ≡ set_exception_status x.id x.status r.1.world)
unfolding after_failure restore_exception record_event
after_failure-none plan action x i (some e, st) h = cc
after_failure-none plan action x i (none, st) h = (refl, refl)

-- The rows of the executions and of the handlers' tables after the plan's update.
SameRows : Store → Store → Type 0
SameRows st after = (after.executions ≡ st.executions) × (after.world ≡ st.world)

update_plan-SameRows :
    (i : Uuid) (s : ResolutionPlanStatus) (st : Store) → SameRows st (update_plan i s st).1
unfolding set_plan_status SameRows
update_plan-SameRows i s st = update_plan-keeps (SameRows st) (λ i s t h. h) i s st (refl, refl)

refresh_plan-SameRows : (i : Uuid) (st : Store) → SameRows st (refresh_plan i st).1
unfolding set_plan_status SameRows
refresh_plan-SameRows i st = refresh_plan-keeps (SameRows st) (λ i s t h. h) i st (refl, refl)

-- An execution that has succeeded.
abbrev pub succeeded : ℕ → ActionExecution → ActionExecution
succeeded at e = record e { execution_status = ExecutionStatus.succeeded; completed_at = some at }

-- How the handler's run ends the call; `found` is the execution that was running.
abbrev pub result : ℕ → HandlerOutcome → Option ActionExecution → Outcome
result at (raised name) found = raises handler_failed
result at created found = returned (opt_map (succeeded at) found)
result at already_exists found = returned (opt_map (succeeded at) found)
result at reported_failure found = returned (opt_map (succeeded at) found)

module _ (registry : ActionRegistry) (compute_hash : Json → Text) (rq : Request)
    (plan : ResolutionPlan) (action : ProposedAction) (before : ExceptionRow) (st : Store)
    (executing : plan_status plan.id st ≡ some ResolutionPlanStatus.executing)
    (mine : any (is_row action.id plan.id) st.actions ≡ true) where
  -- The statuses of the exception, put back.
  abbrev restored : World → World
  restored w = set_exception_status before.id before.status w

  succeed-outcome :
      (event : AuditEventType)
      → ((succeed registry compute_hash rq plan action before event st).0
          ≡ returned (
              opt_map
                (succeeded rq.completed_at)
                (find (λ e. e.id == rq.execution_id) st.executions)))
        × ((succeed registry compute_hash rq plan action before event st).1.world
            ≡ restored st.world)
  unfolding succeed set_action_status set_execution record_event restore_exception SameRows
  succeed-outcome event =
      let written = record_event execution_succeeded plan action (some rq.execution_id) (
        record_event event plan action (some rq.execution_id)
          (set_execution rq.execution_id (succeeded rq.completed_at) st)) in
      let done = set_action_status action.id ProposedActionStatus.completed written in
      let rows = refresh_plan-SameRows plan.id done in
      let r =
        finish-none rq.execution_id before (refresh_plan plan.id done)
          (refresh_plan-none action.id plan.id written executing mine) in
      (
        ap (λ q. q.0) r
            ∙ ap (λ es. returned (find (λ e. e.id == rq.execution_id) es)) rows.0
            ∙ ap returned (
                find-update_where (λ e. e.id == rq.execution_id) (succeeded rq.completed_at)
                  (λ e. refl) st.executions),
        ap (λ q. q.1.world) r ∙ ap restored rows.1,
      )

  fail-outcome :
      (name : Text)
      → ((fail registry compute_hash rq plan action before name st).0 ≡ raises handler_failed)
        × ((fail registry compute_hash rq plan action before name st).1.world ≡ restored st.world)
  unfolding fail set_action_status set_execution SameRows
  fail-outcome name =
      let failed = set_action_status action.id ProposedActionStatus.failed (
        set_execution rq.execution_id
          (λ e. record e {
            execution_status = ExecutionStatus.failed;
            completed_at = some rq.completed_at;
            error_code = some name;
          })
          st) in
      let r =
        after_failure-none plan action before rq.execution_id
          (update_plan plan.id ResolutionPlanStatus.failed failed)
          (update_plan-none ResolutionPlanStatus.failed plan.id failed executing refl) in
      (r.0, r.1 ∙ ap restored (update_plan-SameRows plan.id ResolutionPlanStatus.failed failed).1)

  close-outcome :
      (o : HandlerOutcome)
      → ((close registry compute_hash rq plan action before o st).0
          ≡ result rq.completed_at o (find (λ e. e.id == rq.execution_id) st.executions))
        × ((close registry compute_hash rq plan action before o st).1.world ≡ restored st.world)
  close-outcome created = succeed-outcome workflow_created
  close-outcome already_exists = succeed-outcome workflow_reused
  close-outcome reported_failure = succeed-outcome workflow_created
  close-outcome (raised name) = fail-outcome name

module _ (registry : ActionRegistry) (compute_hash : Json → Text) (rq : Request)
    (plan : ResolutionPlan) (action : ProposedAction) (before : ExceptionRow) (st : Store)
    (executing : plan_status plan.id st ≡ some ResolutionPlanStatus.executing)
    (mine : any (is_row action.id plan.id) st.actions ≡ true) where
  pub run-outcome :
      let ran = run_handler registry compute_hash plan action st.world in
      let after = run registry compute_hash rq plan action before st in
      (after.0 ≡ result rq.completed_at ran.0 (find (λ e. e.id == rq.execution_id) st.executions))
      × (after.1.world ≡ set_exception_status before.id before.status ran.1)
  unfolding run
  run-outcome =
      let ran = run_handler registry compute_hash plan action st.world in
      close-outcome registry compute_hash rq plan action before (record st { world = ran.1 })
        executing mine ran.0
