-- ===== src/Resolution/Execution/Completed.antt =====
-- A call of `execute_action` as a whole.
use recon_ai.Prelude.{
  Bool, true, false, ◌&&◌, [], ◌∷◌, ◌++◌, none, some, ◌≡◌, refl, ap, ◌∙◌, ◌==◌, if◌then◌else◌, any,
  arith, ==_refl, ==_iff,
}
use recon_ai.Prelude.Text.{Text}
use recon_ai.Domain.{ExecutionStatus, ProposedActionStatus, ResolutionPlanStatus}
use recon_ai.Prelude.Json.{Json}
use recon_ai.Resolution.Model.{
  ResolutionPlan, ProposedAction, ActionExecution, ActionRegistry, execution_started, Store,
}
use recon_ai.Prelude.Check.{ok}
use recon_ai.Resolution.Guardrails.{validate_execution}
use recon_ai.Prelude.Table.{
  find, opt_map, find-update_where, find-holds, find-any, find-append, any-update_where,
}
use recon_ai.Resolution.Rows.{
  Request, set_plan_status, set_action_status, set_execution, set_exception_status, record_event,
  find_execution, executions_of,
}
use recon_ai.Resolution.Execution.{
  new_execution, check_all, run_handler, run, start_run, insert_into, insert_and_run,
  execute_locked, check_and_run, execute_action,
}
use recon_ai.Resolution.Status.{plan_may_start, plan_status}
use recon_ai.Resolution.Execution.Cases.{Found, key_of}
use recon_ai.Resolution.Execution.Authorized.{check_all-IsAuthorized}
use recon_ai.Resolution.Execution.Started.{
  is_proposed, started, with_plan_started, advance_to_executing-started, plan_status-started,
}
use recon_ai.Resolution.Execution.Settled.{is_row}
use recon_ai.Resolution.Execution.Outcomes.{result, run-outcome}

-- The execution of a call while its handler runs.
abbrev pub running : Request → ProposedAction → ActionExecution
running rq action = record (new_execution rq (key_of rq) action) {
  execution_status = ExecutionStatus.running;
  started_at = some rq.now;
}

if-same :
    {A : Type 0} (g : Store → A) (b : Bool) (x y : Store) → g x ≡ g y → g (if b then x else y) ≡ g y
if-same g true x y h = h
if-same g false x y h = refl

-- The start changes the plans alone.
with_plan_started-rest :
    (plan : ResolutionPlan) (st : Store)
    → ((with_plan_started plan st).actions ≡ st.actions)
      × ((with_plan_started plan st).executions ≡ st.executions)
      × ((with_plan_started plan st).world ≡ st.world)
unfolding set_plan_status
with_plan_started-rest plan st =
    let b = plan_may_start plan.status in
    let x = set_plan_status plan.id ResolutionPlanStatus.executing st in
    (
      if-same (λ s. s.actions) b x st refl,
      if-same (λ s. s.executions) b x st refl,
      if-same (λ s. s.world) b x st refl,
    )

module _ (rq : Request) (st : Store) (f : Found rq st) where
  plan_id-eq : f.plan.id ≡ rq.plan_id
  plan_id-eq =
      (==_iff f.plan.id rq.plan_id).0
        (find-holds (λ p. p.id == rq.plan_id) st.plans f.plan f.plan_found)

  own-plan : find (λ p. p.id == f.plan.id) st.plans ≡ some f.plan
  own-plan = ap (λ j. find (λ p. p.id == j) st.plans) plan_id-eq ∙ f.plan_found

  own-row : any (is_row f.action.id f.plan.id) st.actions ≡ true
  own-row =
      let p = λ (a : ProposedAction). a.id == rq.action_id && a.resolution_plan_id == rq.plan_id in
      let found = find-any p st.actions f.action f.action_found in
      let holds = find-holds p st.actions f.action f.action_found in
      let same : f.action.id ≡ rq.action_id = ground (arith, holds) in rw (plan_id-eq, same) found

  -- The tables with the execution inserted.
  abbrev pub inserted : Store
  inserted = record st {
    executions = (st.executions ++ rq.raced) ++ new_execution rq (key_of rq) f.action ∷ [];
  }

  -- The tables as the handler's run begins.
  abbrev pub begun : Store
  begun =
      record_event execution_started f.plan f.action (some rq.execution_id)
        (started f.plan f.action (new_execution rq (key_of rq) f.action) rq.now inserted)

  begun-world : begun.world ≡ st.world
  unfolding record_event set_execution set_action_status
  begun-world = (with_plan_started-rest f.plan inserted).2

  begun-row : any (is_row f.action.id f.plan.id) begun.actions ≡ true
  unfolding record_event set_execution set_action_status
  begun-row =
      any-update_where (is_row f.action.id f.plan.id)
        (λ a. record a { status = ProposedActionStatus.executing }) (λ a. refl)
        (λ a. a.id == f.action.id) (with_plan_started f.plan inserted).actions
      ∙ ap (any (is_row f.action.id f.plan.id)) (with_plan_started-rest f.plan inserted).0
      ∙ own-row

  begun-execution :
      any (λ e. e.id == rq.execution_id) (st.executions ++ rq.raced) ≡ false
      → find (λ e. e.id == rq.execution_id) begun.executions ≡ some (running rq f.action)
  unfolding record_event set_execution set_action_status
  begun-execution fresh =
      let p = λ (e : ActionExecution). e.id == rq.execution_id in
      let start = λ (e : ActionExecution). record e {
        execution_status = ExecutionStatus.running;
        started_at = some rq.now;
      } in
      let new = new_execution rq (key_of rq) f.action in
      let here : find p (new ∷ []) ≡ some new = rw (==_refl rq.execution_id) in
      find-update_where p start (λ e. refl) _
      ∙ ap (λ es. opt_map start (find p es)) (with_plan_started-rest f.plan inserted).1
      ∙ ap (opt_map start) (find-append p (st.executions ++ rq.raced) (new ∷ []) fresh ∙ here)

module _ (registry : ActionRegistry) (compute_hash : Json → Text) (rq : Request) (st : Store) where
  pub execute_action-found :
      (f : Found rq st)
      → execute_action registry compute_hash rq st
        ≡ execute_locked registry compute_hash rq (key_of rq) f.plan f.action f.before st
  unfolding execute_action
  execute_action-found f = rw (f.has_key, f.action_found, f.plan_found, f.exception_found)

  pub insert_and_run-begun :
      (f : Found rq st)
      → check_all registry compute_hash f.plan f.action st ≡ ok tt
      → is_proposed f.plan.status ≡ false
      → find_execution (key_of rq) (st.executions ++ rq.raced) ≡ none
      → insert_and_run registry compute_hash rq (key_of rq) f.plan f.action f.before st
        ≡ run registry compute_hash rq f.plan f.action f.before (begun rq st f)
  unfolding insert_and_run start_run
  insert_and_run-begun f passed ready unused =
      let authorized = check_all-IsAuthorized registry compute_hash f.plan f.action st passed in
      let start =
        advance_to_executing-started f.plan f.action (new_execution rq (key_of rq) f.action) rq.now
          (inserted rq st f) authorized.plan_open ready authorized.action_open in
      ap
        (insert_into registry compute_hash rq (key_of rq) f.plan f.action f.before
          (st.executions ++ rq.raced) st)
        unused
      ∙ ap (start_run registry compute_hash rq f.plan f.action f.before) start

  begun-executing :
      (f : Found rq st)
      → check_all registry compute_hash f.plan f.action st ≡ ok tt
      → is_proposed f.plan.status ≡ false
      → plan_status f.plan.id (begun rq st f) ≡ some ResolutionPlanStatus.executing
  unfolding record_event set_execution set_action_status
  begun-executing f passed ready =
      let authorized = check_all-IsAuthorized registry compute_hash f.plan f.action st passed in
      plan_status-started f.plan f.action (new_execution rq (key_of rq) f.action) rq.now
        (inserted rq st f) authorized.plan_open ready (own-plan rq st f)

  pub begun-outcome :
      (f : Found rq st)
      → check_all registry compute_hash f.plan f.action st ≡ ok tt
      → is_proposed f.plan.status ≡ false
      → let ran = run_handler registry compute_hash f.plan f.action (begun rq st f).world in
        let after = run registry compute_hash rq f.plan f.action f.before (begun rq st f) in
        (after.0
          ≡ result rq.completed_at ran.0
              (find (λ e. e.id == rq.execution_id) (begun rq st f).executions))
        × (after.1.world ≡ set_exception_status f.before.id f.before.status ran.1)
  begun-outcome f passed ready =
      run-outcome registry compute_hash rq f.plan f.action f.before (begun rq st f)
        (begun-executing f passed ready) (begun-row rq st f)

  -- A call that passes every check, on a plan that is not PROPOSED, under a key that no transaction
  -- takes before it and with a fresh execution id, raises a failure where its handler raises, and returns
  -- its execution, SUCCEEDED, with its times and its key, where the handler returns: also where the
  -- result that it returns says `failed`. The handler works on the tables as they were before the call.
  pub execute_action-completes :
      (f : Found rq st)
      → validate_execution f.action
          (key_of rq)
          (find_execution (key_of rq) st.executions)
          (executions_of f.action st)
        ≡ ok none
      → check_all registry compute_hash f.plan f.action st ≡ ok tt
      → is_proposed f.plan.status ≡ false
      → find_execution (key_of rq) (st.executions ++ rq.raced) ≡ none
      → any (λ e. e.id == rq.execution_id) (st.executions ++ rq.raced) ≡ false
      → (execute_action registry compute_hash rq st).0
        ≡ result rq.completed_at
            (run_handler registry compute_hash f.plan f.action st.world).0
            (some (running rq f.action))
  unfolding execute_locked check_and_run
  execute_action-completes f valid passed ready unused fresh =
      let checked : execute_locked registry compute_hash rq (key_of rq) f.plan f.action f.before st
          ≡ insert_and_run registry compute_hash rq (key_of rq) f.plan f.action f.before st =
        rw (valid, passed, execute_locked, check_and_run) in
      ap (λ r. r.0) (execute_action-found f ∙ checked ∙ insert_and_run-begun f passed ready unused)
      ∙ (begun-outcome f passed ready).0
      ∙ ap
          (λ w.
            result rq.completed_at (run_handler registry compute_hash f.plan f.action w).0
              (find (λ e. e.id == rq.execution_id) (begun rq st f).executions))
          (begun-world rq st f)
      ∙ ap (result rq.completed_at (run_handler registry compute_hash f.plan f.action st.world).0)
          (begun-execution rq st f fresh)
