-- ===== src/Resolution/Execution/Cases.antt =====
-- How a call of `execute_action` goes: it stops with the store as it was, it records a hash mismatch,
-- or it passes every check and inserts an execution.
use recon_ai.Prelude.{
  false, ◌&&◌, none, some, ◌≡◌, refl, ◌∙◌, ◌⊎◌, inl, inr, ◌==◌, Bool-cases, Option-cases, is_empty,
}
use recon_ai.Prelude.Text.{Text, is_space, strip}
use recon_ai.Prelude.Json.{Json}
use recon_ai.Resolution.Model.{
  ResolutionPlan, ProposedAction, ActionRegistry, ExceptionRow, Store, HashError, execution_failed,
  key_required, not_found_action, not_found_plan, not_found_exception, invalid, invalid_hash,
}
use recon_ai.Prelude.Check.{Check, ok, err}
use recon_ai.Resolution.Guardrails.{validate_execution}
use recon_ai.Prelude.Table.{find}
use recon_ai.Resolution.Rows.{
  Outcome, returned, raises, Request, find_execution, executions_of, record_event,
}
use recon_ai.Resolution.Execution.{
  guard, hash, check_all, refuse, check_and_run, insert_and_run, execute_locked, execute_action,
}

abbrev pub key_of : Request → Text
key_of rq = strip is_space rq.idempotency_key

-- The rows that a call works on.
pub record Found (rq : Request) (st : Store) : Type 0 where
  pub action : ProposedAction
  pub plan : ResolutionPlan
  pub before : ExceptionRow
  pub has_key : is_empty (key_of rq) ≡ false
  pub action_found :
      find (λ a. a.id == rq.action_id && a.resolution_plan_id == rq.plan_id) st.actions
      ≡ some action
  pub plan_found : find (λ p. p.id == rq.plan_id) st.plans ≡ some plan
  pub exception_found :
      find (λ x. x.id == plan.reconciliation_exception_id) st.world.exceptions ≡ some before

pub Check-cases : {E A : Type 0} (c : Check E A) → ((e : E) × (c ≡ err e)) ⊎ ((a : A) × (c ≡ ok a))
Check-cases (ok a) = inr (a, refl)
Check-cases (err e) = inl (e, refl)

module _ (registry : ActionRegistry) (compute_hash : Json → Text) (rq : Request) (st : Store) where
  -- The call ends before it writes anything.
  abbrev pub Stops : Type 0
  Stops = (o : Outcome) × (execute_action registry compute_hash rq st ≡ (o, st))

  -- The call finds that the parameters are not those that were approved, and records it.
  abbrev pub Mismatches : Type 0
  Mismatches =
      (f : Found rq st) × (validate_execution f.action (key_of rq)
          (find_execution (key_of rq) st.executions) (executions_of f.action st)
        ≡ ok none)
      × (e : HashError) × (execute_action registry compute_hash rq st
          ≡ (raises (invalid_hash e), record_event execution_failed f.plan f.action none st))

  -- The call passes every check.
  abbrev pub Passes : Type 0
  Passes =
      (f : Found rq st) × (validate_execution f.action (key_of rq)
          (find_execution (key_of rq) st.executions) (executions_of f.action st)
        ≡ ok none)
      × (check_all registry compute_hash f.plan f.action st ≡ ok tt)
      × (execute_action registry compute_hash rq st
          ≡ insert_and_run registry compute_hash rq (key_of rq) f.plan f.action f.before st)

  checked-cases :
      (f : Found rq st)
      → execute_action registry compute_hash rq st
        ≡ execute_locked registry compute_hash rq (key_of rq) f.plan f.action f.before st
      → Stops ⊎ (Mismatches ⊎ Passes)
  unfolding execute_locked check_and_run refuse
  checked-cases f called =
      elim (Check-cases (
        validate_execution f.action (key_of rq) (find_execution (key_of rq) st.executions)
          (executions_of f.action st))) [
            | inl (e, failed) ↦ inl (raises (invalid e), called ∙ rw (failed, execute_locked))
            | inr (some e, valid) ↦ inl (returned (some e), called ∙ rw (valid, execute_locked))
            | inr (none, valid) ↦
                elim (Check-cases (check_all registry compute_hash f.plan f.action st)) [
                  | inl (guard e, failed) ↦ inl (
                    raises (invalid e),
                    called ∙ rw (valid, failed, execute_locked, check_and_run),
                  )
                  | inl (hash e, failed) ↦ inr (
                      inl (f, valid, e, called ∙ rw (valid, failed, execute_locked, check_and_run)))
                  | inr (u, passed) ↦ inr (
                      inr (
                        f,
                        valid,
                        passed,
                        called ∙ rw (valid, passed, execute_locked, check_and_run),
                      ))
                ]
          ]

  pub execute_action-cases : Stops ⊎ (Mismatches ⊎ Passes)
  unfolding execute_action
  execute_action-cases = elim (Bool-cases (is_empty (key_of rq))) [
    | inl blank ↦ inl (raises (invalid key_required), rw blank)
    | inr keyed ↦
        elim (Option-cases
          (find (λ a. a.id == rq.action_id && a.resolution_plan_id == rq.plan_id) st.actions)) [
            | inl ea ↦ inl (raises not_found_action, rw (keyed, ea))
            | inr (action, ea) ↦ elim (Option-cases (find (λ p. p.id == rq.plan_id) st.plans)) [
              | inl ep ↦ inl (raises not_found_plan, rw (keyed, ea, ep))
              | inr (plan, ep) ↦
                  elim (Option-cases
                    (find (λ x. x.id == plan.reconciliation_exception_id) st.world.exceptions)) [
                      | inl ex ↦ inl (raises not_found_exception, rw (keyed, ea, ep, ex))
                      | inr (before, ex) ↦
                          checked-cases
                            (record {
                              action = action;
                              plan = plan;
                              before = before;
                              has_key = keyed;
                              action_found = ea;
                              plan_found = ep;
                              exception_found = ex;
                            })
                            (rw (keyed, ea, ep, ex))
                    ]
            ]
          ]
  ]
