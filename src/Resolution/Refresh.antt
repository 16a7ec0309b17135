-- ===== src/Resolution/Refresh.antt =====
-- app/services/resolution_service.py: `_refresh_plan_after_decision`, the plan's status from those of its
-- actions.
pub mod Written
use recon_ai.Prelude.{
  Bool, true, false, not, ◌&&◌, ◌||◌, Option, none, some, List, [], ◌∷◌, if◌then◌else◌, any, all,
  ◌==◌,
}
use recon_ai.Prelude.Table.{update_where}
use recon_ai.Domain.{ResolutionPlanStatus}
use recon_ai.Resolution.Model.{ResolutionPlan, ProposedAction, Store}
use recon_ai.Resolution.Guardrails.{is_pending, is_approved, is_rejected, has_status}
use recon_ai.Resolution.Rows.{siblings_of}

abbrev pub is_settled_plan : ResolutionPlanStatus → Bool
is_settled_plan ResolutionPlanStatus.cancelled = true
is_settled_plan ResolutionPlanStatus.completed = true
is_settled_plan ResolutionPlanStatus.executing = true
is_settled_plan ResolutionPlanStatus.no_action_recommended = true
is_settled_plan _ = false

-- PROPOSED or APPROVAL_REQUIRED
abbrev pub is_undecided_plan : ResolutionPlanStatus → Bool
is_undecided_plan ResolutionPlanStatus.proposed = true
is_undecided_plan ResolutionPlanStatus.approval_required = true
is_undecided_plan _ = false

-- The status that a refresh writes; its transitions are all allowed, as a lemma shows.
unfoldable pub refreshed_status :
    ResolutionPlanStatus → List ProposedAction → Option ResolutionPlanStatus
refreshed_status current [] = none
refreshed_status current (a ∷ others) =
    let actions = a ∷ others in
    if is_settled_plan current
    then none
    else if any (has_status is_pending) actions
    then (if is_undecided_plan current then some ResolutionPlanStatus.approval_required else none)
    else if all (has_status is_rejected) actions
        || any (has_status is_rejected) actions && not (any (has_status is_approved) actions)
    then some ResolutionPlanStatus.rejected
    else if any (has_status is_approved) actions && is_undecided_plan current
    then some ResolutionPlanStatus.approved
    else none

unfoldable pub put_plan : ResolutionPlan → Store → Store
put_plan plan st = record st { plans = update_where (λ p. p.id == plan.id) (λ p. plan) st.plans }

abbrev pub with_status : ResolutionPlan → Option ResolutionPlanStatus → ResolutionPlan
with_status plan none = plan
with_status plan (some s) = record plan { status = s }

-- `_refresh_plan_after_decision`
unfoldable pub refresh_after_decision : ResolutionPlan → Store → Store
refresh_after_decision plan st =
    put_plan (with_status plan (refreshed_status plan.status (siblings_of plan.id st))) st
