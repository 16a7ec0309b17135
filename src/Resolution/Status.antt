-- ===== src/Resolution/Status.antt =====
-- app/services/resolution_execution_service.py: the writes of statuses, `_advance_to_executing`,
-- `_refresh_plan_after_execution`, `_apply_plan_status` and `_restore_exception_status`.
use recon_ai.Prelude.{ℕ, Bool, true, false, ◌&&◌, ◌||◌, Option, none, some, ◌==◌, if◌then◌else◌}
use recon_ai.Domain.{ExecutionStatus, ProposedActionStatus, ResolutionPlanStatus}
use recon_ai.Resolution.Transitions.{plan_allowed, action_allowed}
use recon_ai.Resolution.Model.{
  Uuid, ResolutionPlan, ProposedAction, ActionExecution, ExceptionRow, Store, ExecutionError,
  plan_cannot_start, action_cannot_start, plan_transition,
}
use recon_ai.Prelude.Check.{Check, ok, err}
use recon_ai.Resolution.Guardrails.{aggregate_plan_status}
use recon_ai.Prelude.Table.{find}
use recon_ai.Resolution.Rows.{
  set_plan_status, set_action_status, set_execution, set_exception_status, siblings_of,
}

abbrev pub plan_may_start : ResolutionPlanStatus → Bool
plan_may_start ResolutionPlanStatus.approved = true
plan_may_start ResolutionPlanStatus.approval_required = true
plan_may_start ResolutionPlanStatus.failed = true
plan_may_start _ = false

abbrev pub plan_executing : ResolutionPlanStatus → Bool
plan_executing ResolutionPlanStatus.executing = true
plan_executing _ = false

abbrev pub action_may_start : ProposedActionStatus → Bool
action_may_start ProposedActionStatus.approved = true
action_may_start ProposedActionStatus.pending = true
action_may_start ProposedActionStatus.failed = true
action_may_start _ = false

-- `_advance_to_executing`: the store it leaves, and whether it raises.
unfoldable pub advance_action :
    ProposedAction → ActionExecution → ℕ → Store → Option ExecutionError × Store
advance_action action execution now st =
    if action_may_start action.status && action_allowed action.status ProposedActionStatus.executing
    then (
      none,
      set_execution execution.id
          (λ e. record e { execution_status = ExecutionStatus.running; started_at = some now })
          (set_action_status action.id ProposedActionStatus.executing st),
    )
    else (some action_cannot_start, st)

unfoldable pub advance_to_executing :
    ResolutionPlan → ProposedAction → ActionExecution → ℕ → Store → Option ExecutionError × Store
advance_to_executing plan action execution now st =
    if plan_may_start plan.status
    then (if plan_allowed plan.status ResolutionPlanStatus.executing
        then advance_action action execution now
            (set_plan_status plan.id ResolutionPlanStatus.executing st)
        else (some plan_transition, st))
    else (if plan_executing plan.status
        then advance_action action execution now st
        else (some plan_cannot_start, st))

abbrev pub plan_frozen : ResolutionPlanStatus → Bool
plan_frozen ResolutionPlanStatus.cancelled = true
plan_frozen ResolutionPlanStatus.completed = true
plan_frozen ResolutionPlanStatus.no_action_recommended = true
plan_frozen _ = false

abbrev pub status_index : ResolutionPlanStatus → ℕ
status_index ResolutionPlanStatus.proposed = 0
status_index ResolutionPlanStatus.approval_required = 1
status_index ResolutionPlanStatus.approved = 2
status_index ResolutionPlanStatus.rejected = 3
status_index ResolutionPlanStatus.executing = 4
status_index ResolutionPlanStatus.completed = 5
status_index ResolutionPlanStatus.failed = 6
status_index ResolutionPlanStatus.cancelled = 7
status_index ResolutionPlanStatus.no_action_recommended = 8

-- `_apply_plan_status` on a plan in status `current`: the status written, none if nothing is
-- written, or an error.
unfoldable pub apply_plan_status :
    ResolutionPlanStatus → ResolutionPlanStatus → Check ExecutionError (Option ResolutionPlanStatus)
apply_plan_status current desired =
    if status_index current == status_index desired || plan_frozen current
    then ok none
    else (if plan_allowed current desired then ok (some desired) else err plan_transition)

abbrev pub write_status : Uuid → Option ResolutionPlanStatus → Store → Store
write_status plan_id none st = st
write_status plan_id (some s) st = set_plan_status plan_id s st

abbrev pub status_of : Option ResolutionPlan → Option ResolutionPlanStatus
status_of none = none
status_of (some p) = some p.status

abbrev pub plan_status : Uuid → Store → Option ResolutionPlanStatus
plan_status plan_id st = status_of (find (λ p. p.id == plan_id) st.plans)

abbrev pub write_applied :
    Uuid
    → Store
    → Check ExecutionError (Option ResolutionPlanStatus)
    → Option ExecutionError × Store
write_applied plan_id st (ok written) = (none, write_status plan_id written st)
write_applied plan_id st (err e) = (some e, st)

abbrev pub update_from :
    Uuid
    → ResolutionPlanStatus
    → Store
    → Option ResolutionPlanStatus
    → Option ExecutionError × Store
update_from plan_id desired st none = (none, st)
update_from plan_id desired st (some current) =
    write_applied plan_id st (apply_plan_status current desired)

-- Applies a status to the plan's row; the row was found before.
unfoldable pub update_plan : Uuid → ResolutionPlanStatus → Store → Option ExecutionError × Store
update_plan plan_id desired st = update_from plan_id desired st (plan_status plan_id st)

abbrev pub refresh_to : Uuid → Store → Option ResolutionPlanStatus → Option ExecutionError × Store
refresh_to plan_id st none = (none, st)
refresh_to plan_id st (some desired) = update_plan plan_id desired st

-- `_refresh_plan_after_execution`
unfoldable pub refresh_plan : Uuid → Store → Option ExecutionError × Store
refresh_plan plan_id st = refresh_to plan_id st (aggregate_plan_status (siblings_of plan_id st))

-- `_restore_exception_status`
unfoldable pub restore_exception : ExceptionRow → Store → Store
restore_exception before st = record st {
  world = set_exception_status before.id before.status st.world;
}
