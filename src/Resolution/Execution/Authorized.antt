-- ===== src/Resolution/Execution/Authorized.antt =====
-- What the guardrails guarantee of an action whose handler is run.
use recon_ai.Prelude.{
  Bool, true, false, not, ◌&&◌, List, [], ◌∷◌, Option, none, some, ◌≡◌, refl, sym, ap, ◌∙◌, ◌⊎◌,
  inl, inr, ◌==◌, if◌then◌else◌, Bool-cases, is_empty, any, All,
}
use recon_ai.Prelude.Text.{Text, text_eq_iff}
use recon_ai.Domain.{ApprovalDecision}
use recon_ai.Resolution.Transitions.{is_non_executable, action_allowed}
use recon_ai.Domain.{ProposedActionStatus}
use recon_ai.Prelude.Json.{Json}
use recon_ai.Resolution.Model.{
  ResolutionPlan, ProposedAction, ActionApproval, ActionExecution, ActionHandler, ActionRegistry,
  Store, GuardrailError, HashError, latest_rejected,
}
use recon_ai.Prelude.Check.{Check, ok, err, ◌>>◌, raise_if, when}
use recon_ai.Resolution.Guardrails.{
  handler_for, check_handler, check_parameters, check_action_status, check_latest, check_decisions,
  registry_requires, by_key, is_active_or_done, is_approval, is_rejected, is_pending, blocks,
  latest, check_hash, compare_hash, validate_action, validate_action_order, validate_approval,
  validate_execution,
}
use recon_ai.Resolution.Rows.{
  Request, find_execution, executions_of, siblings_of, approvals_of, record_event,
}
use recon_ai.Resolution.Execution.{
  lift_guard, lift_hash, check_all, hash_is_checked, execute_action,
}
use recon_ai.Resolution.Execution.Cases.{Found, key_of, execute_action-cases}

-- The latest decision on the action is an approval.
abbrev pub IsApproved : List ActionApproval → Type 0
IsApproved approvals =
    (a : ActionApproval) × (latest approvals ≡ some a) × (a.decision ≡ ApprovalDecision.approved)

-- What must hold before the handler of an action may run.
pub record IsAuthorized (registry : ActionRegistry) (compute_hash : Json → Text)
    (plan : ResolutionPlan) (action : ProposedAction) (st : Store) : Type 0 where
  pub handler : ActionHandler
  pub registered : handler_for registry action.action_type ≡ some handler
  pub typed : (p : Json) × (handler.validate_parameters action.parameters ≡ some p)
  pub plan_open : is_non_executable plan.status ≡ false
  pub action_open : action_allowed action.status ProposedActionStatus.executing ≡ true
  pub prior_finished : All (λ prior. blocks action prior ≡ false) (siblings_of plan.id st)
  pub decided :
      (handler.requires_approval ≡ false)
      ⊎ (IsApproved (approvals_of action st)
          × (action.approved_parameters_hash ≡ some (compute_hash action.parameters))
          × (is_pending action.status ≡ false))

>>-ok : {E : Type 0} (m k : Check E (Unit {0})) → (m >> k) ≡ ok tt → (m ≡ ok tt) × (k ≡ ok tt)
>>-ok (ok u) k h = (refl, h)
>>-ok (err e) k h = cc

raise_if-ok : {E : Type 0} (b : Bool) (e : E) → raise_if b e ≡ ok tt → b ≡ false
raise_if-ok true e h = cc
raise_if-ok false e h = refl

validate_action_order-All :
    (action : ProposedAction) (siblings : List ProposedAction)
    → validate_action_order action siblings ≡ ok tt
    → All (λ prior. blocks action prior ≡ false) siblings
unfolding validate_action_order
validate_action_order-All action [] h = tt
validate_action_order-All action (prior ∷ siblings) h =
    let parts = >>-ok (raise_if (blocks action prior) _) _ h in
    (raise_if-ok _ _ parts.0, validate_action_order-All action siblings parts.1)

check_parameters-ok : (o : Option Json) → check_parameters o ≡ ok tt → (p : Json) × (o ≡ some p)
check_parameters-ok none h = cc
check_parameters-ok (some p) h = (p, refl)

check_handler-ok :
    (o : Option ActionHandler) (action : ProposedAction)
    → check_handler o action ≡ ok tt
    → (h : ActionHandler) × (o ≡ some h)
      × ((p : Json) × (h.validate_parameters action.parameters ≡ some p))
      × ((h.requires_approval && is_pending action.status) ≡ false)
check_handler-ok none action h = cc
check_handler-ok (some handler) action h =
    let parts = >>-ok (raise_if (handler.requires_approval && is_pending action.status) _) _ h in
    (handler, refl, check_parameters-ok _ parts.1, raise_if-ok _ _ parts.0)

check_action_status-ok :
    (s : ProposedActionStatus)
    → check_action_status s ≡ ok tt
    → action_allowed s ProposedActionStatus.executing ≡ true
unfolding action_allowed
check_action_status-ok ProposedActionStatus.pending h = refl
check_action_status-ok ProposedActionStatus.approved h = refl
check_action_status-ok ProposedActionStatus.failed h = refl
check_action_status-ok ProposedActionStatus.rejected h = cc
check_action_status-ok ProposedActionStatus.executing h = cc
check_action_status-ok ProposedActionStatus.completed h = cc
check_action_status-ok ProposedActionStatus.cancelled h = cc

is_approval-ok :
    (d : ApprovalDecision)
    → (if elim d [ ApprovalDecision.approved ↦ true | ApprovalDecision.rejected ↦ false ]
        then ok tt
        else err latest_rejected)
      ≡ ok tt
    → d ≡ ApprovalDecision.approved
is_approval-ok ApprovalDecision.approved h = refl
is_approval-ok ApprovalDecision.rejected h = cc

check_latest-ok :
    (o : Option ActionApproval)
    → check_latest o ≡ ok tt
    → (a : ActionApproval) × (o ≡ some a) × (a.decision ≡ ApprovalDecision.approved)
check_latest-ok none h = cc
check_latest-ok (some a) h = (a, refl, is_approval-ok a.decision h)

-- What the guardrail of the approvals asks, given that the action needs one.
check_decisions-ok :
    (approvals : List ActionApproval) → check_decisions approvals ≡ ok tt → IsApproved approvals
check_decisions-ok approvals h =
    check_latest-ok (latest approvals)
      (>>-ok
        (raise_if (any (λ a. not (is_approval a)) approvals && not (any is_approval approvals)) _) _
        h).1

when-ok : {E : Type 0} (b : Bool) (m : Check E (Unit {0})) → when b m ≡ ok tt → b ≡ true → m ≡ ok tt
when-ok true m h e = h
when-ok false m h e = cc

not-false : (b : Bool) → not b ≡ false → b ≡ true
not-false true h = refl
not-false false h = cc

and-false : (a b : Bool) → (a && b) ≡ false → a ≡ true → b ≡ false
and-false true b h e = h
and-false false b h e = cc

compare_hash-ok : (found : Text) (o : Option Text) → compare_hash found o ≡ ok tt → o ≡ some found
compare_hash-ok found none h = cc
compare_hash-ok found (some approved) h =
    let parts = >>-ok (raise_if (is_empty approved) _) _ h in
    ap some (sym ((text_eq_iff found approved).0 (not-false _ (raise_if-ok _ _ parts.1))))

lift_guard-ok : (m : Check GuardrailError (Unit {0})) → lift_guard m ≡ ok tt → m ≡ ok tt
lift_guard-ok (ok u) h = refl
lift_guard-ok (err e) h = cc

lift_hash-ok : (m : Check HashError (Unit {0})) → lift_hash m ≡ ok tt → m ≡ ok tt
lift_hash-ok (ok u) h = refl
lift_hash-ok (err e) h = cc

abbrev no_replay : Check GuardrailError (Option ActionExecution)
no_replay = ok none

unraised : (b : Bool) (e : GuardrailError) → (raise_if b e >> no_replay) ≡ no_replay → b ≡ false
unraised true e h = cc
unraised false e h = refl

not_replayed :
    {A : Type 0} (b : Bool) (x : ActionExecution) (e : GuardrailError)
    → (if b then ok (some x) else err e) ≡ ok none
    → A
not_replayed true x e h = cc
not_replayed false x e h = cc

by_key-none :
    (action : ProposedAction) (existing : List ActionExecution) (o : Option ActionExecution)
    → by_key action existing o ≡ ok none
    → (o ≡ none) × (any is_active_or_done existing ≡ false)
by_key-none action existing none h = (refl, unraised _ _ h)
by_key-none action existing (some e) h = not_replayed (e.proposed_action_id == action.id) e _ h

module _ (registry : ActionRegistry) (compute_hash : Json → Text) where
  pub check_all-IsAuthorized :
      (plan : ResolutionPlan) (action : ProposedAction) (st : Store)
      → check_all registry compute_hash plan action st ≡ ok tt
      → IsAuthorized registry compute_hash plan action st
  unfolding check_all validate_action validate_approval check_hash
  check_all-IsAuthorized plan action st h =
      let p1 = >>-ok (lift_guard (validate_action action plan registry)) _ h in
      let p2 = >>-ok (lift_guard (validate_action_order action (siblings_of plan.id st))) _ p1.1 in
      let p3 =
        >>-ok (lift_guard (validate_approval action (approvals_of action st) registry)) _ p2.1 in
      let va = >>-ok (raise_if (is_non_executable plan.status) _) _ (lift_guard-ok _ p1.0) in
      let vb = >>-ok (check_action_status action.status) _ va.1 in
      let (handler, registered, typed, pending) =
        check_handler-ok (handler_for registry action.action_type) action vb.1 in
      let approval =
        (>>-ok (raise_if (is_rejected action.status) _) _
          (lift_guard-ok (validate_approval action (approvals_of action st) registry) p3.0)).1 in
      record {
        handler = handler;
        registered = registered;
        typed = typed;
        plan_open = raise_if-ok _ _ va.0;
        action_open = check_action_status-ok action.status vb.0;
        prior_finished = validate_action_order-All action _ (lift_guard-ok _ p2.0);
        decided = elim (Bool-cases handler.requires_approval) [
          | inl needed ↦ inr (
            check_decisions-ok _ (
                when-ok (registry_requires (handler_for registry action.action_type) action) _
                  approval (rw (registered, needed))),
            compare_hash-ok _ _ (
                lift_hash-ok _ (
                  when-ok (hash_is_checked (handler_for registry action.action_type) action) _ p3.1
                    (rw (registered, needed)))),
            and-false _ _ pending needed,
          )
          | inr free ↦ inl free
        ];
      }

  pub unused-key :
      (rq : Request) (st : Store) (f : Found rq st)
      → validate_execution f.action
          (key_of rq)
          (find_execution (key_of rq) st.executions)
          (executions_of f.action st)
        ≡ ok none
      → (find_execution (key_of rq) st.executions ≡ none)
        × (any is_active_or_done (executions_of f.action st) ≡ false)
  unfolding validate_execution
  unused-key rq st f valid =
      by_key-none f.action (executions_of f.action st) _ (sym (rw f.has_key) ∙ valid)

  -- A call leaves the handler's tables, the plans, the actions and the executions as they are; or its
  -- plan and its action are open, the action's handler is registered and accepts the parameters, every
  -- earlier action of the plan is finished, and, where the handler requires approval, the latest
  -- decision approves the action, its approved hash is that of its parameters, and it is not PENDING;
  -- and no execution had the key, and no earlier execution of the action is active or succeeded.
  pub execute_action-IsAuthorized :
      (rq : Request) (st : Store)
      → ((execute_action registry compute_hash rq st).1.world ≡ st.world)
          × ((execute_action registry compute_hash rq st).1.executions ≡ st.executions)
          × ((execute_action registry compute_hash rq st).1.plans ≡ st.plans)
          × ((execute_action registry compute_hash rq st).1.actions ≡ st.actions)
        ⊎ ((f : Found rq st) × IsAuthorized registry compute_hash f.plan f.action st
            × (find_execution (key_of rq) st.executions ≡ none)
            × (any is_active_or_done (executions_of f.action st) ≡ false))
  unfolding record_event
  execute_action-IsAuthorized rq st = elim (execute_action-cases registry compute_hash rq st) [
    | inl (o, called) ↦ inl (rw called, rw called, rw called, rw called)
    | inr (inl (f, valid, e, called)) ↦ inl (rw called, rw called, rw called, rw called)
    | inr (inr (f, valid, passed, called)) ↦ inr (
      f,
      check_all-IsAuthorized f.plan f.action st passed,
      (unused-key rq st f valid).0,
      (unused-key rq st f valid).1,
    )
  ]
