-- ===== src/Resolution/Decisions/Cases.antt =====
-- What a decision that succeeds has done: it records a new row, or gives an earlier one back.
use recon_ai.Resolution.Immutability.{is_refused}
use recon_ai.Resolution.Decisions.Writes.{IsWritten, write_decision-IsWritten}
use recon_ai.Resolution.Decisions.Prior.{
  IsStored, find_key-IsStored, append-IsStored, prior-IsStored, prior-own, replay-own,
  or_missing-ok, not_both, with_store, replay_pair,
}
use recon_ai.Prelude.{
  true, false, not, ◌&&◌, ◌||◌, Option, none, some, ◌≡◌, refl, subst, ◌⊎◌, inl, inr, ◌==◌,
}
use recon_ai.Prelude.Text.{Text}
use recon_ai.Prelude.Json.{Json}
use recon_ai.Prelude.Check.{ok, ◌>>=◌, bind-ok, guard-ok, ok_injective}
use recon_ai.Resolution.Transitions.{action_allowed}
use recon_ai.Resolution.Model.{ResolutionPlan, ProposedAction, ActionApproval, Store}
use recon_ai.Resolution.Decisions.{
  DecisionRequest, plan_not_found, plan_cancelled, action_not_found, not_decidable,
  invalid_transition, hash_replaced, validate_reviewer, validate_key, or_missing, is_cancelled_plan,
  find_plan, find_action, same_decision, replay, find_key, is_undecidable, target_of, has_target,
  prior_decision, decision_flush, add_approvals, write_decision, insert_decision, decide_new,
  decide_unless, record_decision,
}

-- A new decision.
pub record IsRecorded (hash : Json → Text) (rq : DecisionRequest) (st : Store) (a : ActionApproval)
    (st' : Store) : Type 0 where
  pub reviewer : Text
  pub key : Option Text
  pub plan : ResolutionPlan
  pub action : ProposedAction
  pub reviewer_valid : validate_reviewer rq.reviewer ≡ ok reviewer
  pub key_valid : validate_key rq.idempotency_key ≡ ok key
  pub plan_found : find_plan rq.plan_id st ≡ some plan
  pub plan_active : is_cancelled_plan plan.status ≡ false
  pub action_found : find_action rq.plan_id rq.action_id st ≡ some action
  pub decidable : is_undecidable action.status ≡ false
  pub allowed :
      (has_target rq.decision action.status || action_allowed action.status (target_of rq.decision))
      ≡ true
  pub hash_kept : is_refused (decision_flush hash rq.decision action) ≡ false
  pub key_free : find_key key st.approvals ≡ none
  pub not_raced : find_key key rq.raced ≡ none
  pub written :
      write_decision hash rq reviewer key plan action (add_approvals rq.raced st) ≡ (a, st')
  pub facts : IsWritten rq reviewer key action st a st'

-- Where the approval that is given back was found: under the key; as an earlier decision of an action that
-- has its status already; or under the key among the rows that other transactions inserted meanwhile.
abbrev pub Source :
    DecisionRequest → Store → Option Text → ProposedAction → ActionApproval → Store → Type 0
Source rq st key action a st' =
    ((find_key key st.approvals ≡ some a) × (st' ≡ st))
    ⊎ (((find_key key st.approvals ≡ none)
          × (is_undecidable action.status ≡ false)
          × (prior_decision action rq.decision st ≡ some a)
          × (st' ≡ st))
        ⊎ ((find_key key rq.raced ≡ some a)
            × (find_key key st.approvals ≡ none)
            × (st' ≡ add_approvals rq.raced st)))

-- A row that is stored, about the action and of the same kind, with nothing written by this call.
pub record IsReplayed (rq : DecisionRequest) (st : Store) (a : ActionApproval) (st' : Store)
    : Type 0 where
  pub reviewer : Text
  pub key : Option Text
  pub plan : ResolutionPlan
  pub action : ProposedAction
  pub reviewer_valid : validate_reviewer rq.reviewer ≡ ok reviewer
  pub key_valid : validate_key rq.idempotency_key ≡ ok key
  pub plan_found : find_plan rq.plan_id st ≡ some plan
  pub plan_active : is_cancelled_plan plan.status ≡ false
  pub action_found : find_action rq.plan_id rq.action_id st ≡ some action
  pub stored : IsStored a st'.approvals
  pub own : (a.proposed_action_id == action.id) ≡ true
  pub agrees : same_decision a.decision rq.decision ≡ true
  pub source : Source rq st key action a st'

abbrev pub Outcome : (Json → Text) → DecisionRequest → Store → ActionApproval → Store → Type 0
Outcome hash rq st a st' = IsRecorded hash rq st a st' ⊎ IsReplayed rq st a st'

-- The parts of a call that has passed its checks.
module _ (hash : Json → Text) (rq : DecisionRequest) (st : Store) (reviewer : Text)
    (key : Option Text) (plan : ResolutionPlan) (action : ProposedAction)
    (reviewer_valid : validate_reviewer rq.reviewer ≡ ok reviewer)
    (key_valid : validate_key rq.idempotency_key ≡ ok key)
    (plan_found : find_plan rq.plan_id st ≡ some plan)
    (plan_active : is_cancelled_plan plan.status ≡ false)
    (action_found : find_action rq.plan_id rq.action_id st ≡ some action) where
  given_back :
      {a : ActionApproval} {st' : Store}
      → IsStored a st'.approvals
      → (a.proposed_action_id == action.id) ≡ true
      → same_decision a.decision rq.decision ≡ true
      → Source rq st key action a st'
      → IsReplayed rq st a st'
  given_back stored own agrees source = record {
    reviewer = reviewer;
    key = key;
    plan = plan;
    action = action;
    reviewer_valid = reviewer_valid;
    key_valid = key_valid;
    plan_found = plan_found;
    plan_active = plan_active;
    action_found = action_found;
    stored = stored;
    own = own;
    agrees = agrees;
    source = source;
  }

  replayed :
      (s : Store) (existing : ActionApproval) {a : ActionApproval} {st' : Store}
      → IsStored existing s.approvals
      → Source rq st key action existing s
      → (replay action rq.decision existing >>= with_store s) ≡ ok (a, st')
      → IsReplayed rq st a st'
  replayed s existing {a} {st'} stored source h =
      let (given, same) = replay_pair action rq.decision existing s h in
      let (own, agrees, e) = replay-own action rq.decision existing given in
      subst (λ t. IsReplayed rq st a t) same
        (subst (λ x. IsReplayed rq st x s) e (given_back stored own agrees source))

  raced-IsStored :
      (x : ActionApproval) → IsStored x rq.raced → IsStored x (add_approvals rq.raced st).approvals
  unfolding add_approvals
  raced-IsStored x h = append-IsStored x st.approvals rq.raced h

  module _ (decidable : is_undecidable action.status ≡ false)
      (key_free : find_key key st.approvals ≡ none) {a : ActionApproval} {st' : Store} where
    inserted :
        (o : Option ActionApproval)
        → find_key key rq.raced ≡ o
        → (has_target rq.decision action.status
            || action_allowed action.status (target_of rq.decision))
          ≡ true
        → is_refused (decision_flush hash rq.decision action) ≡ false
        → insert_decision hash rq reviewer key plan action (add_approvals rq.raced st) o
          ≡ ok (a, st')
        → Outcome hash rq st a st'
    inserted none e allowed kept h = inl (record {
      reviewer = reviewer;
      key = key;
      plan = plan;
      action = action;
      reviewer_valid = reviewer_valid;
      key_valid = key_valid;
      plan_found = plan_found;
      plan_active = plan_active;
      action_found = action_found;
      decidable = decidable;
      allowed = allowed;
      hash_kept = kept;
      key_free = key_free;
      not_raced = e;
      written = ok_injective _ _ h;
      facts =
          subst (λ y. IsWritten rq reviewer key action st y.0 y.1) (ok_injective _ (a, st') h)
            (write_decision-IsWritten hash rq reviewer key plan action st action_found);
    })
    inserted (some existing) e allowed kept h = inr (
        replayed (add_approvals rq.raced st) existing
          (raced-IsStored existing (find_key-IsStored key rq.raced e))
          (inr (inr (e, key_free, refl))) h)

    decided_new :
        (o : Option ActionApproval)
        → prior_decision action rq.decision st ≡ o
        → decide_new hash rq reviewer key plan action st o ≡ ok (a, st')
        → Outcome hash rq st a st'
    decided_new (some prior) e h =
        let pairs = ok_injective (prior, st) (a, st') h in
        let (own, agrees) = prior-own action rq.decision st e in
        inr (
          subst (λ y. IsReplayed rq st y.0 y.1) pairs
            (given_back (prior-IsStored action rq.decision st e) own agrees
              (inr (inl (key_free, decidable, e, refl)))))
    decided_new none e h =
        let (allowed, h1) =
          guard-ok
            (not (has_target rq.decision action.status)
              && not (action_allowed action.status (target_of rq.decision)))
            invalid_transition _ h in
        let (kept, h2) =
          guard-ok (is_refused (decision_flush hash rq.decision action)) hash_replaced _ h1 in
        inserted (find_key key rq.raced) refl
          (not_both (has_target rq.decision action.status)
            (action_allowed action.status (target_of rq.decision)) allowed)
          kept h2

  decided :
      (o : Option ActionApproval) {a : ActionApproval} {st' : Store}
      → find_key key st.approvals ≡ o
      → decide_unless hash rq reviewer key plan action st o ≡ ok (a, st')
      → Outcome hash rq st a st'
  decided (some existing) e h =
      inr (replayed st existing (find_key-IsStored key st.approvals e) (inl (e, refl)) h)
  decided none e h =
      let (decidable, h1) = guard-ok (is_undecidable action.status) not_decidable _ h in
      decided_new decidable e (prior_decision action rq.decision st) refl h1

-- A decision that succeeds either appends one new row, by a valid reviewer, under a free key, on an action
-- of a plan that is not cancelled, whose status may become the decision's and whose hash is not replaced,
-- and then the action has the decision's status and nothing is executed; or it gives back a stored row of
-- the same kind about the same action, which it found under its key or, for an action that has its status
-- already, as an earlier decision, and then the call itself writes nothing.
pub record_decision-Outcome :
    (hash : Json → Text) (rq : DecisionRequest) (st st' : Store) (a : ActionApproval)
    → record_decision hash rq st ≡ ok (a, st')
    → IsRecorded hash rq st a st' ⊎ IsReplayed rq st a st'
unfolding record_decision
record_decision-Outcome hash rq st st' a h =
    let (reviewer, reviewer_valid, h1) = bind-ok (validate_reviewer rq.reviewer) _ h in
    let (key, key_valid, h2) = bind-ok (validate_key rq.idempotency_key) _ h1 in
    let (plan, plan_there, h3) =
      bind-ok (or_missing plan_not_found (find_plan rq.plan_id st)) _ h2 in
    let (active, h4) = guard-ok (is_cancelled_plan plan.status) plan_cancelled _ h3 in
    let (action, action_there, h5) =
      bind-ok (or_missing action_not_found (find_action rq.plan_id rq.action_id st)) _ h4 in
    decided hash rq st reviewer key plan action reviewer_valid key_valid
      (or_missing-ok plan_not_found (find_plan rq.plan_id st) plan_there) active
      (or_missing-ok action_not_found (find_action rq.plan_id rq.action_id st) action_there)
      (find_key key st.approvals) refl h5
