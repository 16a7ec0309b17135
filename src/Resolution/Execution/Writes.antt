-- ===== src/Resolution/Execution/Writes.antt =====
-- What a run writes, once an execution is inserted: a property that every single write keeps holds of
-- the store that the run leaves.
use recon_ai.Prelude.{
  ℕ, Bool, true, false, List, [], ◌∷◌, ◌++◌, Option, none, some, ◌≡◌, refl, if◌then◌else◌,
}
use recon_ai.Prelude.Text.{Text}
use recon_ai.Domain.{ProposedActionStatus, ResolutionPlanStatus}
use recon_ai.Prelude.Json.{Json}
use recon_ai.Resolution.Model.{
  Uuid, ResolutionPlan, ProposedAction, ActionExecution, ActionRegistry, AuditEventType,
  execution_started, execution_succeeded, execution_failed, workflow_created, workflow_reused,
  ExceptionRow, World, Store, HandlerOutcome, created, already_exists, reported_failure, raised,
  ExecutionError, plan_transition, plan_cannot_start,
}
use recon_ai.Prelude.Check.{Check, ok, err}
use recon_ai.Resolution.Rows.{
  Request, set_plan_status, set_action_status, set_execution, record_event,
}
use recon_ai.Resolution.Transitions.{plan_allowed}
use recon_ai.Resolution.Execution.{
  close, insert_into, finish, after_failure, new_execution, succeed, fail, run, start_run,
}
use recon_ai.Resolution.Status.{
  plan_may_start, plan_executing, advance_action, advance_to_executing, write_status, write_applied,
  update_from, refresh_to, update_plan, refresh_plan, restore_exception,
}

-- A property of stores that no write of a run changes. A write to an execution leaves its key, its
-- action and its id.
pub record Kept (P : Store → Type 0) : Type 0 where
  pub plan_kept :
      (i : Uuid) (s : ResolutionPlanStatus) (st : Store) → P st → P (set_plan_status i s st)
  pub action_kept :
      (i : Uuid) (s : ProposedActionStatus) (st : Store) → P st → P (set_action_status i s st)
  pub execution_kept :
      (i : Uuid) (f : ActionExecution → ActionExecution) (st : Store)
      → ((e : ActionExecution) → (f e).idempotency_key ≡ e.idempotency_key)
      → P st
      → P (set_execution i f st)
  pub event_kept :
      (event : AuditEventType) (plan : ResolutionPlan) (action : ProposedAction) (i : Option Uuid)
      (st : Store)
      → P st
      → P (record_event event plan action i st)
  pub world_kept : (w : World) (st : Store) → P st → P (record st { world = w })

-- The plan's update writes nothing but the plan's status.
module _ (P : Store → Type 0)
    (plan_kept : (i : Uuid) (s : ResolutionPlanStatus) (st : Store)
      → P st
      → P (set_plan_status i s st)) where
  write_status-keeps :
      (i : Uuid) (s : Option ResolutionPlanStatus) (st : Store) → P st → P (write_status i s st)
  write_status-keeps i none st h = h
  write_status-keeps i (some s) st h = plan_kept i s st h

  write_applied-keeps :
      (i : Uuid) (st : Store) (c : Check ExecutionError (Option ResolutionPlanStatus))
      → P st
      → P (write_applied i st c).1
  write_applied-keeps i st (ok written) h = write_status-keeps i written st h
  write_applied-keeps i st (err e) h = h

  update_from-keeps :
      (i : Uuid) (s : ResolutionPlanStatus) (st : Store) (o : Option ResolutionPlanStatus)
      → P st
      → P (update_from i s st o).1
  update_from-keeps i s st none h = h
  update_from-keeps i s st (some current) h = write_applied-keeps i st _ h

  pub update_plan-keeps :
      (i : Uuid) (s : ResolutionPlanStatus) (st : Store) → P st → P (update_plan i s st).1
  unfolding update_plan
  update_plan-keeps i s st h = update_from-keeps i s st _ h

  refresh_to-keeps :
      (i : Uuid) (st : Store) (o : Option ResolutionPlanStatus) → P st → P (refresh_to i st o).1
  refresh_to-keeps i st none h = h
  refresh_to-keeps i st (some s) h = update_plan-keeps i s st h

  pub refresh_plan-keeps : (i : Uuid) (st : Store) → P st → P (refresh_plan i st).1
  unfolding refresh_plan
  refresh_plan-keeps i st h = refresh_to-keeps i st _ h

module _ (P : Store → Type 0) (kept : Kept P) where
  either :
      (b : Bool) (x y : Option ExecutionError × Store) → P x.1 → P y.1 → P (if b then x else y).1
  either true x y hx hy = hx
  either false x y hx hy = hy

  restore_exception-keeps : (x : ExceptionRow) (st : Store) → P st → P (restore_exception x st)
  unfolding restore_exception
  restore_exception-keeps x st h = kept.world_kept _ st h

  finish-keeps :
      (i : Uuid) (x : ExceptionRow) (r : Option ExecutionError × Store) → P r.1 → P (finish i x r).1
  unfolding finish
  finish-keeps i x (some e, st) h = h
  finish-keeps i x (none, st) h = restore_exception-keeps x st h

  after_failure-keeps :
      (plan : ResolutionPlan) (action : ProposedAction) (x : ExceptionRow) (i : Uuid)
      (r : Option ExecutionError × Store)
      → P r.1
      → P (after_failure plan action x i r).1
  unfolding after_failure
  after_failure-keeps plan action x i (some e, st) h = h
  after_failure-keeps plan action x i (none, st) h =
      restore_exception-keeps x _ (kept.event_kept execution_failed plan action (some i) st h)

  advance_action-keeps :
      (action : ProposedAction) (execution : ActionExecution) (now : ℕ) (st : Store)
      → P st
      → P (advance_action action execution now st).1
  unfolding advance_action
  advance_action-keeps action execution now st h =
      either _ _ _
        (kept.execution_kept execution.id _ _ (λ e. refl)
          (kept.action_kept action.id ProposedActionStatus.executing st h))
        h

  advance_to_executing-keeps :
      (plan : ResolutionPlan) (action : ProposedAction) (execution : ActionExecution) (now : ℕ)
      (st : Store)
      → P st
      → P (advance_to_executing plan action execution now st).1
  unfolding advance_to_executing
  advance_to_executing-keeps plan action execution now st h =
      let started = set_plan_status plan.id ResolutionPlanStatus.executing st in
      let first = advance_action action execution now started in
      let again = advance_action action execution now st in
      let allowed = plan_allowed plan.status ResolutionPlanStatus.executing in
      either (plan_may_start plan.status) (if allowed then first else (some plan_transition, st))
        (if plan_executing plan.status then again else (some plan_cannot_start, st))
        (either allowed first (some plan_transition, st)
          (advance_action-keeps action execution now started (kept.plan_kept plan.id _ st h)) h)
        (either (plan_executing plan.status) again (some plan_cannot_start, st)
          (advance_action-keeps action execution now st h) h)

  module _ (registry : ActionRegistry) (compute_hash : Json → Text) (rq : Request)
      (plan : ResolutionPlan) (action : ProposedAction) (before : ExceptionRow) where
    succeed-keeps :
        (event : AuditEventType) (st : Store)
        → P st
        → P (succeed registry compute_hash rq plan action before event st).1
    unfolding succeed
    succeed-keeps event st h =
        let done =
          kept.action_kept action.id ProposedActionStatus.completed _
            (kept.execution_kept rq.execution_id _ st (λ e. refl) h) in
        let audited =
          kept.event_kept execution_succeeded plan action (some rq.execution_id) _
            (kept.event_kept event plan action (some rq.execution_id) _ done) in
        finish-keeps rq.execution_id before _
          (refresh_plan-keeps P kept.plan_kept plan.id _ audited)

    fail-keeps :
        (name : Text) (st : Store)
        → P st
        → P (fail registry compute_hash rq plan action before name st).1
    unfolding fail
    fail-keeps name st h = after_failure-keeps plan action before rq.execution_id _ (
        update_plan-keeps P kept.plan_kept plan.id ResolutionPlanStatus.failed _ (
          kept.action_kept action.id ProposedActionStatus.failed _
            (kept.execution_kept rq.execution_id _ st (λ e. refl) h)))

    close-keeps :
        (o : HandlerOutcome) (st : Store)
        → P st
        → P (close registry compute_hash rq plan action before o st).1
    close-keeps created st h = succeed-keeps workflow_created st h
    close-keeps already_exists st h = succeed-keeps workflow_reused st h
    close-keeps reported_failure st h = succeed-keeps workflow_created st h
    close-keeps (raised name) st h = fail-keeps name st h

    start_run-keeps :
        (r : Option ExecutionError × Store)
        → P r.1
        → P (start_run registry compute_hash rq plan action before r).1
    unfolding start_run run
    start_run-keeps (some e, st) h = h
    start_run-keeps (none, st) h = close-keeps _ _ (
        kept.world_kept _ _
          (kept.event_kept execution_started plan action (some rq.execution_id) st h))

    pub inserted-keeps :
        (key : Text) (table : List ActionExecution) (st : Store)
        → P (record st { executions = table ++ new_execution rq key action ∷ [] })
        → P (insert_into registry compute_hash rq key plan action before table st none).1
    inserted-keeps key table st h =
        start_run-keeps _ (advance_to_executing-keeps plan action _ rq.now _ h)

    -- After the insert, or after it was refused.
    pub insert_into-keeps :
        (key : Text) (table : List ActionExecution) (st : Store) (o : Option ActionExecution)
        → P (record st { executions = table })
        → P (record st { executions = table ++ new_execution rq key action ∷ [] })
        → P (insert_into registry compute_hash rq key plan action before table st o).1
    insert_into-keeps key table st none raced inserted = inserted-keeps key table st inserted
    insert_into-keeps key table st (some e) raced inserted = raced
