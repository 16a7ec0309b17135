-- ===== src/Resolution/Refresh/Written.antt =====
-- When a refresh writes a status, and which.
use recon_ai.Prelude.{
  Bool, true, false, Option, none, some, List, [], ◌∷◌, ◌≡◌, refl, sym, ◌∙◌, ◌↔◌, ◌&&◌, ◌||◌, not,
  if◌then◌else◌, ◌⊎◌, inl, inr, any, all, arith,
}
use recon_ai.Domain.{ProposedActionStatus, ResolutionPlanStatus}
use recon_ai.Resolution.Transitions.{plan_allowed}
use recon_ai.Resolution.Model.{ProposedAction}
use recon_ai.Resolution.Guardrails.{is_pending, is_approved, is_rejected, has_status}
use recon_ai.Resolution.Refresh.{is_settled_plan, is_undecided_plan, refreshed_status}

-- The reason for a written status, from the tests on the plan's status and on its actions.
abbrev Reason : ResolutionPlanStatus → Bool → Bool → Bool → Bool → Type 0
Reason written undecided pending rejected approved =
    (written ≡ ResolutionPlanStatus.approval_required) × (pending ≡ true) × (undecided ≡ true)
    ⊎ ((written ≡ ResolutionPlanStatus.rejected)
        × (pending ≡ false)
        × (rejected ≡ true)
        × (approved ≡ false))
    ⊎ ((written ≡ ResolutionPlanStatus.approved)
        × (pending ≡ false)
        × (approved ≡ true)
        × (undecided ≡ true))

-- A refresh writes this status: the plan is not settled, and it waits for approval where an action is
-- pending, and else is rejected where one is rejected and none approved, and approved where one is.
pub record IsRefresh (current : ResolutionPlanStatus) (actions : List ProposedAction)
    (written : ResolutionPlanStatus) : Type 0 where
  pub unsettled : is_settled_plan current ≡ false
  pub reason :
      Reason written
        (is_undecided_plan current)
        (any (has_status is_pending) actions)
        (any (has_status is_rejected) actions)
        (any (has_status is_approved) actions)

rejected-unapproved : (s : ProposedActionStatus) → is_rejected s ≡ true → is_approved s ≡ false
rejected-unapproved ProposedActionStatus.rejected h = refl
rejected-unapproved ProposedActionStatus.pending h = refl
rejected-unapproved ProposedActionStatus.approved h = cc
rejected-unapproved ProposedActionStatus.executing h = refl
rejected-unapproved ProposedActionStatus.completed h = refl
rejected-unapproved ProposedActionStatus.failed h = refl
rejected-unapproved ProposedActionStatus.cancelled h = refl

all_rejected-none_approved :
    (xs : List ProposedAction)
    → all (has_status is_rejected) xs ≡ true
    → any (has_status is_approved) xs ≡ false
all_rejected-none_approved [] h = refl
all_rejected-none_approved (x ∷ xs) h =
    let rest : all (has_status is_rejected) xs ≡ true = ground (arith, h) in
    let ih = all_rejected-none_approved xs rest in
    let here = rejected-unapproved x.status (ground (arith, h)) in rw (here, ih)

some_injective :
    {s t : ResolutionPlanStatus} → ◌≡◌ {A = Option ResolutionPlanStatus} (some s) (some t) → t ≡ s
some_injective h = cc

tests-Reason :
    (undecided pending all_rejected rejected approved : Bool) (written : ResolutionPlanStatus)
    → (all_rejected ≡ true → approved ≡ false)
    → (all_rejected ≡ true → rejected ≡ true)
    → (if pending
        then (if undecided then some ResolutionPlanStatus.approval_required else none)
        else if all_rejected || rejected && not approved
        then some ResolutionPlanStatus.rejected
        else if approved && undecided
        then some ResolutionPlanStatus.approved
        else none)
      ≡ some written
    → Reason written undecided pending rejected approved
tests-Reason true true l r a w none_approved some_rejected h = inl (some_injective h, refl, refl)
tests-Reason false true l r a w none_approved some_rejected h = cc
tests-Reason u false true r a w none_approved some_rejected h =
    inr (inl (some_injective h, refl, some_rejected refl, none_approved refl))
tests-Reason u false false true false w none_approved some_rejected h =
    inr (inl (some_injective h, refl, refl, refl))
tests-Reason true false false true true w none_approved some_rejected h =
    inr (inr (some_injective h, refl, refl, refl))
tests-Reason true false false false true w none_approved some_rejected h =
    inr (inr (some_injective h, refl, refl, refl))
tests-Reason false false false true true w none_approved some_rejected h = cc
tests-Reason false false false false true w none_approved some_rejected h = cc
tests-Reason u false false false false w none_approved some_rejected h = cc

or_true : (b : Bool) → (b || true) ≡ true
or_true true = refl
or_true false = refl

and_false : (b : Bool) → (b && false) ≡ false
and_false true = refl
and_false false = refl

not_all : (l : Bool) {a : Bool} → (l ≡ true → a ≡ false) → a ≡ true → l ≡ false
not_all true f h = sym h ∙ f refl
not_all false f h = refl

status_written :
    (current written : ResolutionPlanStatus) (actions : List ProposedAction)
    → refreshed_status current actions ≡ some written
    → IsRefresh current actions written
unfolding refreshed_status
status_written current written [] h = cc
status_written current written (a ∷ others) h =
    let open_ : is_settled_plan current ≡ false = ground (arith, h) in
    record {
      unsettled = open_;
      reason =
          tests-Reason (is_undecided_plan current) (any (has_status is_pending) (a ∷ others))
            (all (has_status is_rejected) (a ∷ others)) (any (has_status is_rejected) (a ∷ others))
            (any (has_status is_approved) (a ∷ others)) written
            (all_rejected-none_approved (a ∷ others)) (λ e. ground (arith, e))
            (ground (arith, h, open_));
    }

written_status :
    (current written : ResolutionPlanStatus) (actions : List ProposedAction)
    → IsRefresh current actions written
    → refreshed_status current actions ≡ some written
unfolding refreshed_status
written_status current written [] r = elim r.reason [
  | inl (w, p, u) ↦ cc
  | inr q ↦ elim q [ inl (w, p, j, n) ↦ cc | inr (w, p, y, u) ↦ cc ]
]
written_status current written (a ∷ others) r = elim r.reason [
  | inl (w, p, u) ↦ rw (r.unsettled, p, u, w)
  | inr q ↦ elim q [
    | inl (w, p, j, n) ↦
        rw (r.unsettled, p, j, n, or_true (all (has_status is_rejected) (a ∷ others)), w)
    | inr (w, p, y, u) ↦ rw (
      r.unsettled,
      p,
      not_all (all (has_status is_rejected) (a ∷ others)) (all_rejected-none_approved (a ∷ others))
          y,
      y,
      and_false (any (has_status is_rejected) (a ∷ others)),
      u,
      w,
    )
  ]
]

-- When a refresh writes a status.
pub refreshed_status_iff :
    (current written : ResolutionPlanStatus) (actions : List ProposedAction)
    → (refreshed_status current actions ≡ some written) ↔ IsRefresh current actions written
refreshed_status_iff current written actions =
    (status_written current written actions, written_status current written actions)

allowed :
    (c written : ResolutionPlanStatus) (pending rejected approved : Bool)
    → Reason written (is_undecided_plan c) pending rejected approved
    → is_undecided_plan c ≡ true
    → (written ≡ c) ⊎ (plan_allowed c written ≡ true)
unfolding plan_allowed
allowed ResolutionPlanStatus.proposed w p r a x u = inr (elim x [
  | inl (e, q, z) ↦ rw e
  | inr n ↦ elim n [ inl (e, q, z, y) ↦ rw e | inr (e, q, z, y) ↦ rw e ]
])
allowed ResolutionPlanStatus.approval_required w p r a x u = elim x [
  | inl (e, q, z) ↦ inl e
  | inr n ↦ elim n [ inl (e, q, z, y) ↦ inr (rw e) | inr (e, q, z, y) ↦ inr (rw e) ]
]
allowed ResolutionPlanStatus.approved w p r a x u = cc
allowed ResolutionPlanStatus.rejected w p r a x u = cc
allowed ResolutionPlanStatus.executing w p r a x u = cc
allowed ResolutionPlanStatus.completed w p r a x u = cc
allowed ResolutionPlanStatus.failed w p r a x u = cc
allowed ResolutionPlanStatus.cancelled w p r a x u = cc
allowed ResolutionPlanStatus.no_action_recommended w p r a x u = cc

-- On an undecided plan a refresh writes the status that is there or one that the transition table allows.
pub refreshed_status-IsAllowed :
    (current written : ResolutionPlanStatus) (actions : List ProposedAction)
    → is_undecided_plan current ≡ true
    → refreshed_status current actions ≡ some written
    → (written ≡ current) ⊎ (plan_allowed current written ≡ true)
refreshed_status-IsAllowed current written actions u h =
    let r = status_written current written actions h in
    allowed current written (any (has_status is_pending) actions)
      (any (has_status is_rejected) actions) (any (has_status is_approved) actions) r.reason u
