-- ===== src/Resolution/Execution/Settled.antt =====
-- The end of a run: `_refresh_plan_after_execution` and `_apply_plan_status` never raise, and what the
-- call returns.
use recon_ai.Prelude.{
  Bool, true, false, not, ◌&&◌, List, [], ◌∷◌, Option, none, some, ◌≡◌, refl, ap, ◌∙◌, inl, inr,
  ◌==◌, if◌then◌else◌, any, filter, is_empty, Bool-cases, arith,
}
use recon_ai.Domain.{ProposedActionStatus, ResolutionPlanStatus}
use recon_ai.Resolution.Transitions.{plan_allowed}
use recon_ai.Resolution.Model.{Uuid, ProposedAction, Store}
use recon_ai.Resolution.Guardrails.{
  has_status, is_executing, is_pending, is_failed, is_executable, aggregate_plan_status,
}
use recon_ai.Prelude.Table.{update_where, is_empty-filter, any-filter}
use recon_ai.Resolution.Rows.{set_action_status, siblings_of}
use recon_ai.Resolution.Status.{
  plan_status, apply_plan_status, update_plan, update_from, write_applied, refresh_plan, refresh_to,
}

-- What an executing plan may become.
abbrev follows_executing : ResolutionPlanStatus → Bool
follows_executing ResolutionPlanStatus.executing = true
follows_executing ResolutionPlanStatus.completed = true
follows_executing ResolutionPlanStatus.failed = true
follows_executing ResolutionPlanStatus.approved = true
follows_executing ResolutionPlanStatus.approval_required = true
follows_executing _ = false

apply_plan_status-ok :
    (d : ResolutionPlanStatus) (i : Uuid) (st : Store)
    → follows_executing d ≡ true
    → (write_applied i st (apply_plan_status ResolutionPlanStatus.executing d)).0 ≡ none
unfolding apply_plan_status plan_allowed
apply_plan_status-ok ResolutionPlanStatus.executing i st h = refl
apply_plan_status-ok ResolutionPlanStatus.completed i st h = refl
apply_plan_status-ok ResolutionPlanStatus.failed i st h = refl
apply_plan_status-ok ResolutionPlanStatus.approved i st h = refl
apply_plan_status-ok ResolutionPlanStatus.approval_required i st h = refl
apply_plan_status-ok ResolutionPlanStatus.proposed i st h = cc
apply_plan_status-ok ResolutionPlanStatus.rejected i st h = cc
apply_plan_status-ok ResolutionPlanStatus.cancelled i st h = cc
apply_plan_status-ok ResolutionPlanStatus.no_action_recommended i st h = cc

pub update_plan-none :
    (d : ResolutionPlanStatus) (i : Uuid) (st : Store)
    → plan_status i st ≡ some ResolutionPlanStatus.executing
    → follows_executing d ≡ true
    → (update_plan i d st).0 ≡ none
unfolding update_plan
update_plan-none d i st executing h =
    ap (λ o. (update_from i d st o).0) executing ∙ apply_plan_status-ok d i st h

-- A status to write, if there is one, follows EXECUTING.
abbrev Follows : Option ResolutionPlanStatus → Type 0
Follows none = Unit
Follows (some d) = follows_executing d ≡ true

if-Follows :
    (b : Bool) (x y : Option ResolutionPlanStatus)
    → Follows x
    → Follows y
    → Follows (if b then x else y)
if-Follows true x y hx hy = hx
if-Follows false x y hx hy = hy

-- The last tests of the aggregate, where something executable is left.
settled-Follows :
    (nothing done ready : Bool)
    → nothing ≡ false
    → Follows (
        if nothing
        then some ResolutionPlanStatus.rejected
        else if done
        then some ResolutionPlanStatus.completed
        else if ready
        then some ResolutionPlanStatus.approved
        else none)
settled-Follows true done ready h = cc
settled-Follows false true ready h = refl
settled-Follows false false true h = refl
settled-Follows false false false h = tt

-- A plan with an action neither rejected nor cancelled is not rejected as a whole.
aggregate_plan_status-Follows :
    (actions : List ProposedAction)
    → any (has_status is_executable) actions ≡ true
    → Follows (aggregate_plan_status actions)
unfolding aggregate_plan_status
aggregate_plan_status-Follows [] h = tt
aggregate_plan_status-Follows (a ∷ others) h =
    let actions = a ∷ others in
    let executable = filter (has_status is_executable) actions in
    let some_left : is_empty executable ≡ false =
      is_empty-filter (has_status is_executable) actions ∙ ap not h in
    if-Follows (any (has_status is_executing) actions) _ _ refl (
      if-Follows (any (has_status is_pending) actions) _ _ refl (
        if-Follows (any (has_status is_failed) actions) _ _ refl (settled-Follows _ _ _ some_left)))

module _ (i p : Uuid) where
  -- The row of the action.
  abbrev pub is_row : ProposedAction → Bool
  is_row a = a.id == i && a.resolution_plan_id == p

  completed-any :
      (xs : List ProposedAction)
      → any is_row xs ≡ true
      → any
          (λ a. a.resolution_plan_id == p && is_executable a.status)
          (update_where
            (λ a. a.id == i)
            (λ a. record a { status = ProposedActionStatus.completed })
            xs)
        ≡ true
  completed-any [] h = cc
  completed-any (x ∷ xs) h = elim (Bool-cases (is_row x)) [
    | inl here ↦
        let same : (x.id == i) ≡ true = ground (arith, here) in
        let mine : (x.resolution_plan_id == p) ≡ true = ground (arith, here) in rw (same, mine)
    | inr elsewhere ↦
        let rest : any is_row xs ≡ true = ground (arith, h, elsewhere) in
        let ih = completed-any xs rest in ground (arith, ih)
  ]

  pub refresh_plan-none :
      (st : Store)
      → plan_status p st ≡ some ResolutionPlanStatus.executing
      → any is_row st.actions ≡ true
      → (refresh_plan p (set_action_status i ProposedActionStatus.completed st)).0 ≡ none
  unfolding refresh_plan set_action_status
  refresh_plan-none st executing mine =
      let done = set_action_status i ProposedActionStatus.completed st in
      let left : any (has_status is_executable) (siblings_of p done) ≡ true =
        any-filter (has_status is_executable) (λ a. a.resolution_plan_id == p) done.actions
        ∙ completed-any st.actions mine in
      refresh_to-none done executing _ (aggregate_plan_status-Follows _ left)
    where
      refresh_to-none :
          (done : Store)
          → plan_status p done ≡ some ResolutionPlanStatus.executing
          → (o : Option ResolutionPlanStatus) → Follows o
          → (refresh_to p done o).0 ≡ none
      refresh_to-none done executing none h = refl
      refresh_to-none done executing (some d) h = update_plan-none d p done executing h
