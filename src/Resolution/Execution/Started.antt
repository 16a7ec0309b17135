-- ===== src/Resolution/Execution/Started.antt =====
-- `_advance_to_executing` after the guardrails: it does not raise unless the plan is still PROPOSED,
-- and the tables it leaves.
use recon_ai.Prelude.{
  ℕ, Bool, true, false, none, some, ◌≡◌, refl, ap, ◌∙◌, ◌⊎◌, inl, inr, ◌==◌, if◌then◌else◌,
}
use recon_ai.Domain.{ExecutionStatus, ProposedActionStatus, ResolutionPlanStatus}
use recon_ai.Resolution.Transitions.{plan_allowed, action_allowed, is_non_executable}
use recon_ai.Resolution.Model.{
  ResolutionPlan, ProposedAction, ActionExecution, Store, plan_cannot_start,
}
use recon_ai.Prelude.Table.{find, opt_map, find-update_where}
use recon_ai.Resolution.Rows.{set_plan_status, set_action_status, set_execution}
use recon_ai.Resolution.Status.{
  plan_may_start, action_may_start, plan_status, status_of, advance_action, advance_to_executing,
}

-- A plan of status PROPOSED.
abbrev pub is_proposed : ResolutionPlanStatus → Bool
is_proposed ResolutionPlanStatus.proposed = true
is_proposed _ = false

-- The plans once the run has started.
abbrev pub with_plan_started : ResolutionPlan → Store → Store
with_plan_started plan st =
    if plan_may_start plan.status
    then set_plan_status plan.id ResolutionPlanStatus.executing st
    else st

-- The tables once the run has started.
abbrev pub started : ResolutionPlan → ProposedAction → ActionExecution → ℕ → Store → Store
started plan action execution now st =
    set_execution execution.id
      (λ e. record e { execution_status = ExecutionStatus.running; started_at = some now })
      (set_action_status action.id ProposedActionStatus.executing (with_plan_started plan st))

action-may-start :
    (s : ProposedActionStatus)
    → action_allowed s ProposedActionStatus.executing ≡ true
    → action_may_start s ≡ true
unfolding action_allowed
action-may-start ProposedActionStatus.pending h = refl
action-may-start ProposedActionStatus.approved h = refl
action-may-start ProposedActionStatus.failed h = refl
action-may-start ProposedActionStatus.rejected h = cc
action-may-start ProposedActionStatus.executing h = cc
action-may-start ProposedActionStatus.completed h = cc
action-may-start ProposedActionStatus.cancelled h = cc

advance_action-started :
    (action : ProposedAction) (execution : ActionExecution) (now : ℕ) (st : Store)
    → action_allowed action.status ProposedActionStatus.executing ≡ true
    → advance_action action execution now st ≡ (
      none,
      set_execution execution.id
          (λ e. record e { execution_status = ExecutionStatus.running; started_at = some now })
          (set_action_status action.id ProposedActionStatus.executing st),
    )
unfolding advance_action
advance_action-started action execution now st h = rw (action-may-start action.status h, h)

-- How an executable plan starts.
plan-may-start-cases :
    (s : ResolutionPlanStatus)
    → is_non_executable s ≡ false
    → is_proposed s ≡ false
    → ((plan_may_start s ≡ true) × (plan_allowed s ResolutionPlanStatus.executing ≡ true))
      ⊎ ((plan_may_start s ≡ false) × (s ≡ ResolutionPlanStatus.executing))
unfolding is_non_executable plan_allowed
plan-may-start-cases ResolutionPlanStatus.proposed open_plan h = cc
plan-may-start-cases ResolutionPlanStatus.approval_required open_plan h = inl (refl, refl)
plan-may-start-cases ResolutionPlanStatus.approved open_plan h = inl (refl, refl)
plan-may-start-cases ResolutionPlanStatus.failed open_plan h = inl (refl, refl)
plan-may-start-cases ResolutionPlanStatus.executing open_plan h = inr (refl, refl)
plan-may-start-cases ResolutionPlanStatus.rejected open_plan h = cc
plan-may-start-cases ResolutionPlanStatus.cancelled open_plan h = cc
plan-may-start-cases ResolutionPlanStatus.completed open_plan h = cc
plan-may-start-cases ResolutionPlanStatus.no_action_recommended open_plan h = cc

is_proposed-eq :
    (s : ResolutionPlanStatus) → is_proposed s ≡ true → s ≡ ResolutionPlanStatus.proposed
is_proposed-eq ResolutionPlanStatus.proposed h = refl
is_proposed-eq ResolutionPlanStatus.approval_required h = cc
is_proposed-eq ResolutionPlanStatus.approved h = cc
is_proposed-eq ResolutionPlanStatus.failed h = cc
is_proposed-eq ResolutionPlanStatus.executing h = cc
is_proposed-eq ResolutionPlanStatus.rejected h = cc
is_proposed-eq ResolutionPlanStatus.cancelled h = cc
is_proposed-eq ResolutionPlanStatus.completed h = cc
is_proposed-eq ResolutionPlanStatus.no_action_recommended h = cc

module _ (plan : ResolutionPlan) (action : ProposedAction) (execution : ActionExecution) (now : ℕ)
    (st : Store) where
  pub advance_to_executing-started :
      is_non_executable plan.status ≡ false
      → is_proposed plan.status ≡ false
      → action_allowed action.status ProposedActionStatus.executing ≡ true
      → advance_to_executing plan action execution now st
        ≡ (none, started plan action execution now st)
  unfolding advance_to_executing
  advance_to_executing-started open_plan ready open_action =
      elim (plan-may-start-cases plan.status open_plan ready) [
        | inl (may, allowed) ↦
            rw (may, allowed) (advance_action-started action execution now _ open_action)
        | inr (not_may, executing) ↦
            rw (executing) (advance_action-started action execution now _ open_action)
      ]

  pub advance_to_executing-proposed :
      is_proposed plan.status ≡ true
      → advance_to_executing plan action execution now st ≡ (some plan_cannot_start, st)
  unfolding advance_to_executing
  advance_to_executing-proposed h = rw (is_proposed-eq plan.status h)

  set_plan_status-executing :
      find (λ p. p.id == plan.id) st.plans ≡ some plan
      → plan_status plan.id (set_plan_status plan.id ResolutionPlanStatus.executing st)
        ≡ some ResolutionPlanStatus.executing
  unfolding set_plan_status
  set_plan_status-executing found = ap status_of (
      find-update_where (λ p. p.id == plan.id)
        (λ p. record p { status = ResolutionPlanStatus.executing }) (λ p. refl) st.plans
      ∙ ap (opt_map (λ p. record p { status = ResolutionPlanStatus.executing })) found)

  pub plan_status-started :
      is_non_executable plan.status ≡ false
      → is_proposed plan.status ≡ false
      → find (λ p. p.id == plan.id) st.plans ≡ some plan
      → plan_status plan.id (with_plan_started plan st) ≡ some ResolutionPlanStatus.executing
  plan_status-started open_plan ready found =
      elim (plan-may-start-cases plan.status open_plan ready) [
        | inl (may, allowed) ↦ rw may (set_plan_status-executing found)
        | inr (not_may, executing) ↦ rw (executing, found, executing)
      ]
