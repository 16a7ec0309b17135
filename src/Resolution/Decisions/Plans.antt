-- ===== src/Resolution/Decisions/Plans.antt =====
-- The plan's row after a decision about one of its actions.
use recon_ai.Prelude.{Option, none, some, ◌≡◌, refl, sym, subst, ◌∙◌, ◌⊎◌, inl, inr}
use recon_ai.Prelude.Text.{Text}
use recon_ai.Prelude.Json.{Json}
use recon_ai.Prelude.Check.{ok}
use recon_ai.Domain.{ResolutionPlanStatus}
use recon_ai.Resolution.Model.{ResolutionPlan, ActionApproval, Store}
use recon_ai.Resolution.Rows.{siblings_of, record_event}
use recon_ai.Resolution.Refresh.{with_status, put_plan, refreshed_status, refresh_after_decision}
use recon_ai.Resolution.Refresh.Written.{IsRefresh, refreshed_status_iff}
use recon_ai.Resolution.Decisions.{
  DecisionRequest, write_decision, put_action, add_approvals, find_plan, record_decision,
}
use recon_ai.Resolution.Decisions.Cases.{IsRecorded, IsReplayed, record_decision-Outcome}
use recon_ai.Resolution.Decisions.Replays.{plan_there, plan', mid}

-- The plan has the status that its actions call for, or is as before where they call for none.
abbrev pub Follows : ResolutionPlan → Store → ResolutionPlan → Type 0
Follows plan st' now =
    IsRefresh plan.status (siblings_of plan.id st') now.status
    ⊎ ((now ≡ plan)
        × ((s : ResolutionPlanStatus) → IsRefresh plan.status (siblings_of plan.id st') s → ⊥))

pub record IsFollowed (rq : DecisionRequest) (st st' : Store) : Type 0 where
  pub plan : ResolutionPlan
  pub before : find_plan rq.plan_id st ≡ some plan
  pub now : ResolutionPlan
  pub after : find_plan rq.plan_id st' ≡ some now
  pub follows : Follows plan st' now

refreshed-Follows :
    (plan : ResolutionPlan) (st' : Store) (o : Option ResolutionPlanStatus)
    → refreshed_status plan.status (siblings_of plan.id st') ≡ o
    → Follows plan st' (with_status plan o)
refreshed-Follows plan st' none h = inr (
  refl,
  λ s r. let bad = sym h ∙ (refreshed_status_iff plan.status s (siblings_of plan.id st')).1 r in cc,
)
refreshed-Follows plan st' (some s) h =
    inl ((refreshed_status_iff plan.status s (siblings_of plan.id st')).0 h)

recorded-IsFollowed :
    (hash : Json → Text) (rq : DecisionRequest) (st : Store) {a : ActionApproval} {st' : Store}
    → IsRecorded hash rq st a st'
    → IsFollowed rq st st'
unfolding write_decision refresh_after_decision put_plan record_event add_approvals put_action
recorded-IsFollowed hash rq st r =
    subst (λ x. IsFollowed rq st x.1) r.written
      (record {
        plan = r.plan;
        before = r.plan_found;
        now = plan' hash rq st r;
        after = plan_there hash rq st r;
        follows = refreshed-Follows r.plan (mid hash rq st r) _ refl;
      })

-- A decision that succeeds gives an earlier one back, or the plan that is stored afterwards follows its
-- actions as they are stored: where it is not settled, it waits for approval if it is undecided and one is
-- pending; it is rejected if none is pending, none approved and one rejected; it is approved if it is
-- undecided, none is pending and one approved; and it is as before only where none of these holds.
pub record_decision-IsFollowed :
    (hash : Json → Text) (rq : DecisionRequest) (st st' : Store) (a : ActionApproval)
    → record_decision hash rq st ≡ ok (a, st')
    → IsFollowed rq st st' ⊎ IsReplayed rq st a st'
record_decision-IsFollowed hash rq st st' a h = elim (record_decision-Outcome hash rq st st' a h) [
  | inl r ↦ inl (recorded-IsFollowed hash rq st r)
  | inr r ↦ inr r
]
