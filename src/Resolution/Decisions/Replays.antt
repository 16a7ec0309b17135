-- ===== src/Resolution/Decisions/Replays.antt =====
-- A decision that is repeated under its key.
use recon_ai.Prelude.{
  Bool, true, false, Option, none, some, List, [], ◌∷◌, ◌++◌, ◌≡◌, refl, sym, ap, subst, ◌∙◌, inl,
  inr, is_empty, ◌==◌, ==_refl, arith,
}
use recon_ai.Prelude.Text.{Text, text_eq, is_space, strip}
use recon_ai.Prelude.Json.{Json, text_eq_refl}
use recon_ai.Prelude.Check.{ok, ◌>>=◌, guard-ok, ok_injective}
use recon_ai.Prelude.Table.{find, find-holds, find-put_row_found, find-append_none}
use recon_ai.Domain.{ApprovalDecision, ResolutionPlanStatus}
use recon_ai.Resolution.Model.{ResolutionPlan, ProposedAction, ActionApproval, Store}
use recon_ai.Resolution.Rows.{siblings_of, record_event}
use recon_ai.Resolution.Decisions.Writes.{decided_id, action_there}
use recon_ai.Resolution.Decisions.Cases.{IsRecorded, IsReplayed, record_decision-Outcome}
use recon_ai.Resolution.Decisions.Prior.{with_store}
use recon_ai.Resolution.Decisions.{
  prior_decision, is_undecidable, new_approval, decided_action, put_action, has_key,
  DecisionRequest, blank_key, decision_event, validate_reviewer, validate_key, is_cancelled_plan,
  find_plan, find_action, same_decision, replay, find_key, add_approvals, write_decision,
  decide_unless, record_decision,
}
use recon_ai.Resolution.Refresh.{put_plan, refresh_after_decision, refreshed_status, with_status}

some_key-some :
    (given key : Option Text) (t : Text)
    → given ≡ some t
    → validate_key given ≡ ok key
    → (k : Text) × (key ≡ some k)
unfolding validate_key
some_key-some none key t e h = cc
some_key-some (some s) key t e h =
    let (nonblank, same) = guard-ok (is_empty (strip is_space s)) blank_key _ h in
    (strip is_space s, sym (ok_injective _ key same))

same_decision_refl : (d : ApprovalDecision) → same_decision d d ≡ true
same_decision_refl ApprovalDecision.approved = refl
same_decision_refl ApprovalDecision.rejected = refl

-- A refresh never cancels a plan.
refreshed_active :
    (plan : ResolutionPlan) (actions : List ProposedAction)
    → is_cancelled_plan plan.status ≡ false
    → is_cancelled_plan (with_status plan (refreshed_status plan.status actions)).status ≡ false
unfolding refreshed_status
refreshed_active plan [] h = h
refreshed_active plan (a ∷ others) h = ground (arith, h)

status_id :
    (plan : ResolutionPlan) (o : Option ResolutionPlanStatus) → (with_status plan o).id ≡ plan.id
status_id plan none = refl
status_id plan (some s) = refl

module _ (hash : Json → Text) (rq : DecisionRequest) (st : Store) {a : ActionApproval} {st' : Store}
    (r : IsRecorded hash rq st a st') where
  abbrev row : ProposedAction
  row = decided_action hash rq.decision r.action

  abbrev fresh : ActionApproval
  fresh = new_approval rq r.reviewer r.key r.action

  abbrev pub before_refresh : Store
  before_refresh =
      record_event (decision_event rq.decision) r.plan r.action none
        (add_approvals (fresh ∷ []) (put_action row (add_approvals rq.raced st)))

  abbrev pub plan' : ResolutionPlan
  plan' = with_status r.plan (refreshed_status r.plan.status (siblings_of r.plan.id before_refresh))

  abbrev pub mid : Store
  mid = (write_decision hash rq r.reviewer r.key r.plan r.action (add_approvals rq.raced st)).1

  pub plan_there : find_plan rq.plan_id mid ≡ some plan'
  unfolding write_decision refresh_after_decision put_plan record_event add_approvals put_action
  plan_there =
      find-put_row_found (λ p. p.id == rq.plan_id) (λ p. p.id == plan'.id) plan' r.plan
        (rw
          (status_id r.plan (refreshed_status r.plan.status (siblings_of r.plan.id before_refresh)))
          here)
        (rw
          (status_id r.plan (refreshed_status r.plan.status (siblings_of r.plan.id before_refresh)))
          (==_refl r.plan.id))
        st.plans r.plan_found
    where
      here : (r.plan.id == rq.plan_id) ≡ true
      here = find-holds (λ p. p.id == rq.plan_id) st.plans r.plan r.plan_found

  module _ (k : Text) (keyed : r.key ≡ some k) where
    absent : (xs : List ActionApproval) → find_key r.key xs ≡ none → find (has_key k) xs ≡ none
    absent xs h = ap (λ o. find_key o xs) (sym keyed) ∙ h

    key_there : find_key r.key mid.approvals ≡ some fresh
    unfolding write_decision refresh_after_decision put_plan record_event add_approvals put_action
    key_there =
        ap (λ o. find_key o mid.approvals) keyed
        ∙ find-append_none (has_key k) (st.approvals ++ rq.raced) (fresh ∷ []) (
            find-append_none (has_key k) st.approvals rq.raced (absent st.approvals r.key_free)
            ∙ absent rq.raced r.not_raced)
        ∙ here
      where
        own_key : has_key k fresh ≡ true
        own_key =
            subst (λ o. elim o as (λ x. Bool) [ none ↦ false | some j ↦ text_eq j k ] ≡ true)
              (sym keyed) (text_eq_refl k)

        here : find (has_key k) (fresh ∷ []) ≡ some fresh
        here = rw own_key

    replays : replay row rq.decision fresh ≡ ok fresh
    replays =
        rw (
          decided_id hash rq.decision r.action,
          ==_refl r.action.id,
          same_decision_refl rq.decision,
        )

-- A further call, about the same action and with the same decision, reviewer and key.
pub record Repeats (rq again : DecisionRequest) : Type 0 where
  pub same_plan : again.plan_id ≡ rq.plan_id
  pub same_action : again.action_id ≡ rq.action_id
  pub same_choice : again.decision ≡ rq.decision
  pub same_reviewer : again.reviewer ≡ rq.reviewer
  pub same_key : again.idempotency_key ≡ rq.idempotency_key

-- A call whose checks pass comes to its look for the key.
pub through :
    (hash : Json → Text) (again : DecisionRequest) (s : Store) {reviewer : Text} {key : Option Text}
    {plan : ResolutionPlan} {action : ProposedAction}
    → validate_reviewer again.reviewer ≡ ok reviewer
    → validate_key again.idempotency_key ≡ ok key
    → find_plan again.plan_id s ≡ some plan
    → is_cancelled_plan plan.status ≡ false
    → find_action again.plan_id again.action_id s ≡ some action
    → record_decision hash again s
      ≡ decide_unless hash again reviewer key plan action s (find_key key s.approvals)
unfolding record_decision
through hash again s v k p c x = rw (v, k, p, c, x)

found_again :
    (hash : Json → Text) (again : DecisionRequest) (reviewer : Text) (key : Option Text)
    (plan : ResolutionPlan) (action : ProposedAction) (s : Store) (existing : ActionApproval)
    → find_key key s.approvals ≡ some existing
    → replay action again.decision existing ≡ ok existing
    → decide_unless hash again reviewer key plan action s (find_key key s.approvals)
      ≡ ok (existing, s)
found_again hash again reviewer key plan action s existing h replays =
    ap (decide_unless hash again reviewer key plan action s) h
    ∙ ap (λ m. m >>= with_store s) replays

recorded_again :
    (hash : Json → Text) (rq again : DecisionRequest) (st : Store) {a : ActionApproval}
    {st' : Store} (t : Text)
    → IsRecorded hash rq st a st'
    → rq.idempotency_key ≡ some t
    → Repeats rq again
    → record_decision hash again st' ≡ ok (a, st')
unfolding write_decision
recorded_again hash rq again st {a} {st'} t r keyed same =
    let (k, is_key) = some_key-some rq.idempotency_key r.key t keyed r.key_valid in
    let plan_here =
      ap (λ i. find_plan i (mid hash rq st r)) same.same_plan ∙ plan_there hash rq st r in
    let action_here =
      ap (λ i. find_action i again.action_id (mid hash rq st r)) same.same_plan
      ∙ ap (λ i. find_action rq.plan_id i (mid hash rq st r)) same.same_action
      ∙ action_there hash rq r.reviewer r.key r.plan r.action st r.action_found in
    let replays_here =
      ap (λ d. replay (row hash rq st r) d (fresh hash rq st r)) same.same_choice
      ∙ replays hash rq st r k is_key in
    let result =
      through hash again (mid hash rq st r)
        (ap validate_reviewer same.same_reviewer ∙ r.reviewer_valid)
        (ap validate_key same.same_key ∙ r.key_valid) plan_here
        (refreshed_active r.plan _ r.plan_active) action_here
      ∙ found_again hash again r.reviewer r.key (plan' hash rq st r) (row hash rq st r)
          (mid hash rq st r) (fresh hash rq st r) (key_there hash rq st r k is_key) replays_here in
    subst (λ x. record_decision hash again (x.1) ≡ ok x) (pair_of hash rq st r) result
  where
    pair_of :
        (hash : Json → Text) (rq : DecisionRequest) (st : Store) (r : IsRecorded hash rq st a st')
        → ◌≡◌ {A = ActionApproval × Store} (fresh hash rq st r, mid hash rq st r) (a, st')
    pair_of hash rq st r = r.written

prior_again :
    (hash : Json → Text) (again : DecisionRequest) (reviewer : Text) (key : Option Text)
    (plan : ResolutionPlan) (action : ProposedAction) (s : Store) (prior : ActionApproval)
    → find_key key s.approvals ≡ none
    → is_undecidable action.status ≡ false
    → prior_decision action again.decision s ≡ some prior
    → decide_unless hash again reviewer key plan action s (find_key key s.approvals) ≡ ok (prior, s)
prior_again hash again reviewer key plan action s prior free decidable found =
    ap (decide_unless hash again reviewer key plan action s) free ∙ (rw (decidable, found))

-- A key that is found among the rows of another transaction is found in the table.
key_appended :
    (key : Option Text) (xs ys : List ActionApproval) {a : ActionApproval}
    → find_key key xs ≡ none
    → find_key key ys ≡ some a
    → find_key key (xs ++ ys) ≡ some a
key_appended none xs ys free h = cc
key_appended (some k) xs ys free h = find-append_none (has_key k) xs ys free ∙ h

-- The same call finds what it found.
module _ (hash : Json → Text) (rq again : DecisionRequest) (st : Store) {a : ActionApproval}
    {st' : Store} (r : IsReplayed rq st a st') (same : Repeats rq again) where
  agreed : replay r.action again.decision a ≡ ok a
  agreed = ap (λ d. replay r.action d a) same.same_choice ∙ (rw (r.own, r.agrees))

  checked :
      (s : Store)
      → find_plan rq.plan_id s ≡ some r.plan
      → find_action rq.plan_id rq.action_id s ≡ some r.action
      → record_decision hash again s
        ≡ decide_unless hash again r.reviewer r.key r.plan r.action s (find_key r.key s.approvals)
  checked s plan_there action_there =
      through hash again s (ap validate_reviewer same.same_reviewer ∙ r.reviewer_valid)
        (ap validate_key same.same_key ∙ r.key_valid)
        (ap (λ i. find_plan i s) same.same_plan ∙ plan_there) r.plan_active
        (ap (λ i. find_action i again.action_id s) same.same_plan
          ∙ ap (λ i. find_action rq.plan_id i s) same.same_action
          ∙ action_there)

  by_key :
      (s : Store)
      → find_plan rq.plan_id s ≡ some r.plan
      → find_action rq.plan_id rq.action_id s ≡ some r.action
      → find_key r.key s.approvals ≡ some a
      → record_decision hash again s ≡ ok (a, s)
  by_key s plan_there action_there found =
      checked s plan_there action_there
      ∙ found_again hash again r.reviewer r.key r.plan r.action s a found agreed

  replayed_again : record_decision hash again st' ≡ ok (a, st')
  unfolding add_approvals
  replayed_again = elim r.source [
    | inl (found, e) ↦
        subst (λ s. record_decision hash again s ≡ ok (a, s)) (sym e)
          (by_key st r.plan_found r.action_found found)
    | inr other ↦ elim other [
      | inl (free, decidable, found, e) ↦
          subst (λ s. record_decision hash again s ≡ ok (a, s)) (sym e)
            (checked st r.plan_found r.action_found
              ∙ prior_again hash again r.reviewer r.key r.plan r.action st a free decidable
                  (ap (λ d. prior_decision r.action d st) same.same_choice ∙ found))
      | inr (raced, free, e) ↦
          subst (λ s. record_decision hash again s ≡ ok (a, s)) (sym e)
            (by_key (add_approvals rq.raced st) r.plan_found r.action_found
              (key_appended r.key st.approvals rq.raced free raced))
    ]
  ]

-- After a decision under a key that succeeds, a further call about the same action with the same decision,
-- reviewer and key, whatever its reason, times and new id are and whatever rows are inserted meanwhile,
-- gives the same approval and changes nothing.
pub record_decision-again :
    (hash : Json → Text) (rq again : DecisionRequest) (st st' : Store) (a : ActionApproval)
    (t : Text)
    → rq.idempotency_key ≡ some t
    → Repeats rq again
    → record_decision hash rq st ≡ ok (a, st')
    → record_decision hash again st' ≡ ok (a, st')
record_decision-again hash rq again st st' a t keyed same h =
    elim (record_decision-Outcome hash rq st st' a h) [
      | inl r ↦ recorded_again hash rq again st t r keyed same
      | inr r ↦ replayed_again hash rq again st r same
    ]
