-- ===== src/Resolution/Decisions/Authorizes.antt =====
-- An approval that is recorded is what the guardrails of an execution ask for.
use recon_ai.Prelude.{
  Bool, true, false, not, ◌&&◌, ◌||◌, Option, some, List, [], ◌∷◌, ◌++◌, ◌≡◌, refl, ap, subst, ◌∙◌,
  ◌⊎◌, inl, inr, if◌then◌else◌, any, all, filter, is_empty, ltb, ◌==◌, ==_refl, arith,
}
use recon_ai.Prelude.Text.{Text}
use recon_ai.Prelude.Json.{Json, text_eq_refl}
use recon_ai.Prelude.Check.{Check, ok, ◌>>◌, raise_if, when}
use recon_ai.Prelude.Table.{
  find, update_where, find-holds, find-put_row_found, filter-append_last, any-append_right,
}
use recon_ai.Domain.{ApprovalDecision, ProposedActionStatus}
use recon_ai.Resolution.Model.{
  ResolutionPlan, ProposedAction, ActionApproval, Store, ActionRegistry, GuardrailError,
  was_rejected,
}
use recon_ai.Resolution.Guardrails.{
  latest, latest_from, approval_before, is_approval, check_decisions, check_latest,
  validate_approval, registry_requires, handler_for, check_hash,
}
use recon_ai.Resolution.Rows.{approvals_of, record_event}
use recon_ai.Resolution.Decisions.Cases.{IsReplayed, record_decision-Outcome}
use recon_ai.Resolution.Decisions.{
  new_approval, decided_action, put_action, DecisionRequest, find_action, add_approvals,
  write_decision, record_decision,
}
use recon_ai.Resolution.Refresh.{put_plan, refresh_after_decision}

latest_from-last :
    (best a : ActionApproval) (xs : List ActionApproval)
    → approval_before best a ≡ true
    → all (λ x. approval_before x a) xs ≡ true
    → latest_from best (xs ++ a ∷ []) ≡ a
unfolding latest_from
latest_from-last best a [] here h = rw here
latest_from-last best a (x ∷ xs) here h =
    latest_from-last (if approval_before best x then x else best) a xs
      (better (approval_before best x)) (ground (arith, h))
  where
    this : approval_before x a ≡ true
    this = ground (arith, h)

    better : (b : Bool) → approval_before (if b then x else best) a ≡ true
    better true = this
    better false = here

latest-last :
    (a : ActionApproval) (xs : List ActionApproval)
    → all (λ x. approval_before x a) xs ≡ true
    → latest (xs ++ a ∷ []) ≡ some a
unfolding latest latest_from
latest-last a [] h = refl
latest-last a (x ∷ xs) h =
    ap (λ y. some y) (latest_from-last x a xs (ground (arith, h)) (ground (arith, h)))

older_before :
    (p : ActionApproval → Bool) (a : ActionApproval) (xs : List ActionApproval)
    → all (λ x. ltb x.created_at a.created_at) xs ≡ true
    → all (λ x. approval_before x a) (filter p xs) ≡ true
older_before p a [] h = refl
older_before p a (x ∷ xs) h =
    let rest : all (λ y. ltb y.created_at a.created_at) xs ≡ true = ground (arith, h) in
    let here : ltb x.created_at a.created_at ≡ true = ground (arith, h) in
    let ih = older_before p a xs rest in kept (p x) (rw here) ih
  where
    kept :
        (b : Bool)
        → approval_before x a ≡ true
        → all (λ y. approval_before y a) (filter p xs) ≡ true
        → all (λ y. approval_before y a) (if b then x ∷ filter p xs else filter p xs) ≡ true
    kept true e ih = rw e ih
    kept false e ih = ih

when-ok : (b : Bool) (g : Check GuardrailError (Unit {0})) → g ≡ ok tt → when b g ≡ ok tt
when-ok true g h = h
when-ok false g h = refl

-- The decisions of an action whose last one is a later approval.
last_approves :
    (a : ActionApproval) (xs : List ActionApproval)
    → is_approval a ≡ true
    → all (λ x. approval_before x a) xs ≡ true
    → check_decisions (xs ++ a ∷ []) ≡ ok tt
last_approves a xs yes_a older =
    rw (any-append_right is_approval xs (a ∷ []) (ap (λ b. b || false) yes_a)) (
      unblocked (any (λ x. not (is_approval x)) (xs ++ a ∷ []))
        (rw (latest-last a xs older, yes_a)))
  where
    unblocked :
        (b : Bool)
        → check_latest (latest (xs ++ a ∷ [])) ≡ ok tt
        → (raise_if (b && false) was_rejected >> check_latest (latest (xs ++ a ∷ []))) ≡ ok tt
    unblocked true h = h
    unblocked false h = h

-- What the execution's guardrails say of the action that was approved.
pub record IsReady (hash : Json → Text) (registry : ActionRegistry) (rq : DecisionRequest)
    (st' : Store) : Type 0 where
  pub action : ProposedAction
  pub found : find_action rq.plan_id rq.action_id st' ≡ some action
  pub approved : action.status ≡ ProposedActionStatus.approved
  pub decisions_pass : validate_approval action (approvals_of action st') registry ≡ ok tt
  pub hash_passes : check_hash hash action ≡ ok tt

module _ (hash : Json → Text) (rq : DecisionRequest) (reviewer : Text) (key : Option Text)
    (plan : ResolutionPlan) (action : ProposedAction) (st : Store) where
  abbrev after : Store
  after = (write_decision hash rq reviewer key plan action (add_approvals rq.raced st)).1

  abbrev own : ActionApproval → Bool
  own x = x.proposed_action_id == action.id

  written_actions :
      after.actions
      ≡ update_where
          (λ a. a.id == (decided_action hash rq.decision action).id)
          (λ a. decided_action hash rq.decision action)
          st.actions
  unfolding write_decision refresh_after_decision put_plan record_event add_approvals put_action
  written_actions = refl

  written_approvals :
      after.approvals ≡ (st.approvals ++ rq.raced) ++ new_approval rq reviewer key action ∷ []
  unfolding write_decision refresh_after_decision put_plan record_event add_approvals put_action
  written_approvals = refl

  module _ (decides : rq.decision ≡ ApprovalDecision.approved)
      (digest : (p : Json) → is_empty (hash p) ≡ false)
      (older : all (λ x. ltb x.created_at rq.created_at) (st.approvals ++ rq.raced) ≡ true)
      (found : find_action rq.plan_id rq.action_id st ≡ some action) where
    abbrev approved_row : ProposedAction
    approved_row = decided_action hash ApprovalDecision.approved action

    matches : ((action.id == rq.action_id) && (action.resolution_plan_id == rq.plan_id)) ≡ true
    matches =
        find-holds (λ a. a.id == rq.action_id && a.resolution_plan_id == rq.plan_id) st.actions
          action found

    row_found : find_action rq.plan_id rq.action_id after ≡ some approved_row
    row_found =
        ap (find (λ a. a.id == rq.action_id && a.resolution_plan_id == rq.plan_id)) (
          written_actions
          ∙ ap
              (λ d.
                update_where (λ a. a.id == (decided_action hash d action).id)
                  (λ a. decided_action hash d action) st.actions)
              decides)
        ∙ find-put_row_found (λ a. a.id == rq.action_id && a.resolution_plan_id == rq.plan_id)
            (λ a. a.id == action.id) approved_row action matches (==_refl action.id) st.actions
            found

    own_approvals :
        approvals_of approved_row after
        ≡ filter own (st.approvals ++ rq.raced) ++ new_approval rq reviewer key action ∷ []
    own_approvals =
        ap (filter own) written_approvals
        ∙ filter-append_last own (st.approvals ++ rq.raced) (new_approval rq reviewer key action)
            (==_refl action.id)

    is_yes : is_approval (new_approval rq reviewer key action) ≡ true
    is_yes = rw decides

    decisions_pass :
        (registry : ActionRegistry)
        → validate_approval approved_row (approvals_of approved_row after) registry ≡ ok tt
    unfolding validate_approval
    decisions_pass registry =
        when-ok (registry_requires (handler_for registry action.action_type) approved_row)
          (check_decisions (approvals_of approved_row after))
          (ap check_decisions own_approvals
            ∙ last_approves (new_approval rq reviewer key action)
                (filter own (st.approvals ++ rq.raced)) is_yes
                (older_before own (new_approval rq reviewer key action) (st.approvals ++ rq.raced)
                  older))

    hash_passes : check_hash hash approved_row ≡ ok tt
    unfolding check_hash
    hash_passes = rw (digest action.parameters, text_eq_refl (hash action.parameters))

    pub ready : (registry : ActionRegistry) → IsReady hash registry rq after
    ready registry = record {
      action = approved_row;
      found = row_found;
      approved = refl;
      decisions_pass = decisions_pass registry;
      hash_passes = hash_passes;
    }

-- Where digests are not empty and every approval row is older, an approval that succeeds either makes its
-- action ready, that is approved with the latest decision and the hash that the guardrails of an execution
-- ask for, whatever the registry; or it gives back a stored approval of the action, and writes nothing.
pub approve-IsReady :
    (hash : Json → Text) (registry : ActionRegistry) (rq : DecisionRequest) (st st' : Store)
    (a : ActionApproval)
    → rq.decision ≡ ApprovalDecision.approved
    → ((p : Json) → is_empty (hash p) ≡ false)
    → all (λ x. ltb x.created_at rq.created_at) (st.approvals ++ rq.raced) ≡ true
    → record_decision hash rq st ≡ ok (a, st')
    → IsReady hash registry rq st' ⊎ IsReplayed rq st a st'
approve-IsReady hash registry rq st st' a decides digest older h =
    elim (record_decision-Outcome hash rq st st' a h) [
      | inl r ↦ inl (
          subst (IsReady hash registry rq) (ap (λ x. x.1) r.written) (
            ready hash rq r.reviewer r.key r.plan r.action st decides digest older r.action_found
              registry))
      | inr r ↦ inr r
    ]
