-- ===== src/Resolution/Execution.antt =====
-- app/services/resolution_execution_service.py: `execute_action` and its helpers. The store is the
-- session's view of the tables; a commit changes nothing in it.
pub mod Cases
pub mod Authorized
pub mod Writes
pub mod Keys
pub mod Started
pub mod Settled
pub mod Outcomes
pub mod Completed
pub mod Truth
use recon_ai.Prelude.{
  ℕ, Bool, true, false, ◌&&◌, ◌||◌, not, List, [], ◌∷◌, ◌++◌, Option, none, some, ◌==◌,
  if◌then◌else◌, is_empty, is_some,
}
use recon_ai.Prelude.Text.{Text, codes, is_space, strip}
use recon_ai.Domain.{ExecutionStatus, ProposedActionStatus, ResolutionPlanStatus}
use recon_ai.Resolution.Transitions.{plan_allowed, action_allowed}
use recon_ai.Prelude.Json.{Json}
use recon_ai.Resolution.Model.{
  Uuid, ResolutionPlan, ProposedAction, ActionExecution, AuditEventType, execution_started,
  execution_succeeded, execution_failed, workflow_created, workflow_reused, ExceptionRow, World,
  Store, HandlerOutcome, created, already_exists, reported_failure, raised, ActionHandler,
  ActionRegistry, GuardrailError, key_required, HashError, ExecutionError, not_found_action,
  not_found_plan, not_found_exception, invalid, invalid_hash, plan_cannot_start,
  action_cannot_start, handler_failed, plan_transition, conflict,
}
use recon_ai.Prelude.Check.{Check, ok, err, ◌>>=◌, ◌>>◌, when}
use recon_ai.Resolution.Guardrails.{
  Guard, handler_for, validate_action, validate_action_order, validate_approval, validate_execution,
  check_hash, aggregate_plan_status,
}
use recon_ai.Resolution.Status.{advance_to_executing, update_plan, refresh_plan, restore_exception}
use recon_ai.Prelude.Table.{find}
use recon_ai.Resolution.Rows.{
  Outcome, returned, raises, Request, set_plan_status, set_action_status, set_execution,
  set_exception_status, record_event, find_execution, executions_of, siblings_of, approvals_of,
}

-- The checks before an execution is written: the guardrails, then the hash of what was approved.
pub data Refusal : Type 0 where
  guard : GuardrailError → Refusal
  hash : HashError → Refusal

abbrev pub lift_guard : Guard → Check Refusal (Unit {0})
lift_guard (ok u) = ok u
lift_guard (err e) = err (guard e)

abbrev pub lift_hash : Check HashError (Unit {0}) → Check Refusal (Unit {0})
lift_hash (ok u) = ok u
lift_hash (err e) = err (hash e)

-- `if handler.requires_approval or action.approved_parameters_hash`
abbrev pub hash_is_checked : Option ActionHandler → ProposedAction → Bool
hash_is_checked none action = false
hash_is_checked (some handler) action =
    handler.requires_approval
    || elim action.approved_parameters_hash [ none ↦ false | some h ↦ not (is_empty h) ]

-- `begin_nested`: what is written before an exception is rolled back.
abbrev pub savepoint : World → HandlerOutcome × World → HandlerOutcome × World
savepoint before (raised name, after) = (raised name, before)
savepoint before (created, after) = (created, after)
savepoint before (already_exists, after) = (already_exists, after)
savepoint before (reported_failure, after) = (reported_failure, after)

abbrev pub new_execution : Request → Text → ProposedAction → ActionExecution
new_execution rq key action = record {
  id = rq.execution_id;
  proposed_action_id = action.id;
  execution_status = ExecutionStatus.pending;
  idempotency_key = key;
  started_at = none;
  completed_at = none;
  error_code = none;
}

-- The returned execution is read back; an error of the plan's update is raised before the
-- exception's status is restored.
unfoldable pub finish : Uuid → ExceptionRow → Option ExecutionError × Store → Outcome × Store
finish execution_id before (some e, st) = (raises e, st)
finish execution_id before (none, st) =
    (returned (find (λ e. e.id == execution_id) st.executions), restore_exception before st)

unfoldable pub after_failure :
    ResolutionPlan
    → ProposedAction
    → ExceptionRow
    → Uuid
    → Option ExecutionError × Store
    → Outcome × Store
after_failure plan action before execution_id (some e, st) = (raises e, st)
after_failure plan action before execution_id (none, st) = (
  raises handler_failed,
  restore_exception before (record_event execution_failed plan action (some execution_id) st),
)

module _ (registry : ActionRegistry) (compute_hash : Json → Text) where
  unfoldable pub check_all : ResolutionPlan → ProposedAction → Store → Check Refusal (Unit {0})
  check_all plan action st = do
    lift_guard (validate_action action plan registry)
    lift_guard (validate_action_order action (siblings_of plan.id st))
    lift_guard (validate_approval action (approvals_of action st) registry)
    when (hash_is_checked (handler_for registry action.action_type) action)
        (lift_hash (check_hash compute_hash action))

  -- The handler's run: what it returns or raises, with the tables as its savepoint leaves them.
  unfoldable pub run_handler : ResolutionPlan → ProposedAction → World → HandlerOutcome × World
  run_handler plan action w = elim (handler_for registry action.action_type) [
    | none ↦ (raised (codes "KeyError"), w)
    | some handler ↦ elim (handler.validate_parameters action.parameters) [
      | none ↦ (raised (codes "ValidationError"), w)
      | some typed ↦ savepoint w (handler.execute typed plan action w)
    ]
  ]

  -- The end of a run whose handler returned.
  unfoldable pub succeed :
      Request
      → ResolutionPlan
      → ProposedAction
      → ExceptionRow
      → AuditEventType
      → Store
      → Outcome × Store
  succeed rq plan action before event st =
      let done = set_action_status action.id ProposedActionStatus.completed (
        set_execution rq.execution_id
          (λ e. record e {
            execution_status = ExecutionStatus.succeeded;
            completed_at = some rq.completed_at;
          })
          st) in
      let audited =
        record_event execution_succeeded plan action (some rq.execution_id)
          (record_event event plan action (some rq.execution_id) done) in
      finish rq.execution_id before (refresh_plan plan.id audited)

  -- The end of a run whose handler raised an exception of the type called `name`.
  unfoldable pub fail :
      Request → ResolutionPlan → ProposedAction → ExceptionRow → Text → Store → Outcome × Store
  fail rq plan action before name st =
      let failed = set_action_status action.id ProposedActionStatus.failed (
        set_execution rq.execution_id
          (λ e. record e {
            execution_status = ExecutionStatus.failed;
            completed_at = some rq.completed_at;
            error_code = some name;
          })
          st) in
      after_failure plan action before rq.execution_id
        (update_plan plan.id ResolutionPlanStatus.failed failed)

  abbrev pub close :
      Request
      → ResolutionPlan
      → ProposedAction
      → ExceptionRow
      → HandlerOutcome
      → Store
      → Outcome × Store
  close rq plan action before created ran = succeed rq plan action before workflow_created ran
  close rq plan action before already_exists ran = succeed rq plan action before workflow_reused ran
  close rq plan action before reported_failure ran =
      succeed rq plan action before workflow_created ran
  close rq plan action before (raised name) ran = fail rq plan action before name ran

  unfoldable pub run :
      Request → ResolutionPlan → ProposedAction → ExceptionRow → Store → Outcome × Store
  run rq plan action before st =
      let ran = run_handler plan action st.world in
      close rq plan action before ran.0 (record st { world = ran.1 })

  unfoldable pub start_run :
      Request
      → ResolutionPlan
      → ProposedAction
      → ExceptionRow
      → Option ExecutionError × Store
      → Outcome × Store
  start_run rq plan action before (some e, st) = (raises e, st)
  start_run rq plan action before (none, st) =
      run rq plan action before
        (record_event execution_started plan action (some rq.execution_id) st)

  -- After the insert was refused: the execution that is there.
  abbrev pub replay_raced : ProposedAction → ActionExecution → Outcome
  replay_raced action e =
      if e.proposed_action_id == action.id then returned (some e) else raises conflict

  abbrev pub insert_into :
      Request
      → Text
      → ResolutionPlan
      → ProposedAction
      → ExceptionRow
      → List ActionExecution
      → Store
      → Option ActionExecution
      → Outcome × Store
  insert_into rq key plan action before table st (some e) =
      (replay_raced action e, record st { executions = table })
  insert_into rq key plan action before table st none = start_run rq plan action before (
      advance_to_executing plan action (new_execution rq key action) rq.now
        (record st { executions = table ++ new_execution rq key action ∷ [] }))

  -- The insert, and what follows it. The database refuses a key that is in the table, as
  -- `uq_action_executions_idempotency_key` of models.py has it; the refusal raises IntegrityError.
  unfoldable pub insert_and_run :
      Request → Text → ResolutionPlan → ProposedAction → ExceptionRow → Store → Outcome × Store
  insert_and_run rq key plan action before st =
      let table = st.executions ++ rq.raced in
      insert_into rq key plan action before table st (find_execution key table)

  unfoldable pub refuse : ResolutionPlan → ProposedAction → Refusal → Store → Outcome × Store
  refuse plan action (guard e) st = (raises (invalid e), st)
  refuse plan action (hash e) st =
      (raises (invalid_hash e), record_event execution_failed plan action none st)

  unfoldable pub check_and_run :
      Request → Text → ResolutionPlan → ProposedAction → ExceptionRow → Store → Outcome × Store
  check_and_run rq key plan action before st = elim (check_all plan action st) [
    | err e ↦ refuse plan action e st
    | ok u ↦ insert_and_run rq key plan action before st
  ]

  -- The idempotent replay, or the run.
  unfoldable pub execute_locked :
      Request → Text → ResolutionPlan → ProposedAction → ExceptionRow → Store → Outcome × Store
  execute_locked rq key plan action before st =
      elim (validate_execution action key (find_execution key st.executions)
        (executions_of action st)) [
          | err e ↦ (raises (invalid e), st)
          | ok (some e) ↦ (returned (some e), st)
          | ok none ↦ check_and_run rq key plan action before st
        ]

  unfoldable pub execute_action : Request → Store → Outcome × Store
  execute_action rq st =
      let key = strip is_space rq.idempotency_key in
      if is_empty key
      then (raises (invalid key_required), st)
      else elim (find (λ a. a.id == rq.action_id && a.resolution_plan_id == rq.plan_id)
          st.actions) [
            | none ↦ (raises not_found_action, st)
            | some action ↦ elim (find (λ p. p.id == rq.plan_id) st.plans) [
              | none ↦ (raises not_found_plan, st)
              | some plan ↦
                  elim (find (λ x. x.id == plan.reconciliation_exception_id) st.world.exceptions) [
                    | none ↦ (raises not_found_exception, st)
                    | some before ↦ execute_locked rq key plan action before st
                  ]
            ]
          ]
