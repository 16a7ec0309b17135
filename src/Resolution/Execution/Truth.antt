-- ===== src/Resolution/Execution/Truth.antt =====
-- The status of the exception under a plan, which `_restore_exception_status` puts back.
use recon_ai.Prelude.{
  ◌++◌, Option, none, some, ◌≡◌, refl, sym, ap, ◌∙◌, inl, inr, ◌==◌, Bool-cases, Option-cases,
  ==_iff, subst,
}
use recon_ai.Prelude.Text.{Text}
use recon_ai.Prelude.Json.{Json}
use recon_ai.Resolution.Model.{ActionRegistry, ExceptionRow, World, Store}
use recon_ai.Prelude.Check.{ok}
use recon_ai.Prelude.Table.{find, opt_map, find-update_where, find-holds}
use recon_ai.Resolution.Rows.{Request, set_exception_status, record_event, find_execution}
use recon_ai.Resolution.Execution.{
  check_all, start_run, insert_and_run, execute_action, new_execution,
}
use recon_ai.Resolution.Execution.Cases.{Found, key_of, execute_action-cases}
use recon_ai.Resolution.Execution.Started.{is_proposed, advance_to_executing-proposed}
use recon_ai.Resolution.Execution.Completed.{inserted, insert_and_run-begun, begun-outcome}

-- Any row that is found under the exception's id has the exception's status.
abbrev pub KeepsStatus : ExceptionRow → World → Type 0
KeepsStatus before w =
    (y : ExceptionRow)
    → find (λ x. x.id == before.id) w.exceptions ≡ some y
    → y.status ≡ before.status

map-some :
    (f : ExceptionRow → ExceptionRow) (o : Option ExceptionRow) (y : ExceptionRow)
    → opt_map f o ≡ some y
    → (x : ExceptionRow) × (f x ≡ y)
map-some f none y h = cc
map-some f (some x) y h = (x, cc)

set_exception_status-KeepsStatus :
    (before : ExceptionRow) (w : World)
    → KeepsStatus before (set_exception_status before.id before.status w)
unfolding set_exception_status
set_exception_status-KeepsStatus before w y h =
    let put = λ (x : ExceptionRow). record x { status = before.status } in
    let (x, same) =
      map-some put _ y
        (sym (find-update_where (λ x. x.id == before.id) put (λ x. refl) w.exceptions) ∙ h) in
    ap (λ x. x.status) (sym same)

module _ (registry : ActionRegistry) (compute_hash : Json → Text) (rq : Request) (st : Store) where
  own-exception : (f : Found rq st) → KeepsStatus f.before st.world
  own-exception f y h =
      let id : f.before.id ≡ f.plan.reconciliation_exception_id = (==_iff _ _).0 (
        find-holds (λ x. x.id == f.plan.reconciliation_exception_id) st.world.exceptions f.before
          f.exception_found) in
      let found : find (λ x. x.id == f.plan.reconciliation_exception_id) st.world.exceptions
          ≡ some y =
        ap (λ j. find (λ x. x.id == j) st.world.exceptions) (sym id) ∙ h in
      let same : f.before ≡ y = cc (found, f.exception_found) in ap (λ x. x.status) (sym same)

  -- The rows of a call are determined.
  same-before : (f g : Found rq st) → f.before ≡ g.before
  same-before f g =
      let plan : f.plan ≡ g.plan = cc (f.plan_found, g.plan_found) in
      let found : find (λ x. x.id == f.plan.reconciliation_exception_id) st.world.exceptions
          ≡ some g.before =
        ap (λ p. find (λ x. x.id == p.reconciliation_exception_id) st.world.exceptions) plan
        ∙ g.exception_found in
      cc (found, f.exception_found)

  insert_and_run-KeepsStatus :
      (f : Found rq st)
      → check_all registry compute_hash f.plan f.action st ≡ ok tt
      → KeepsStatus f.before
          (insert_and_run registry compute_hash rq (key_of rq) f.plan f.action f.before st).1.world
  unfolding insert_and_run start_run
  insert_and_run-KeepsStatus f passed =
      elim (Option-cases (find_execution (key_of rq) (st.executions ++ rq.raced))) [
        | inr (e, found) ↦ rw found (own-exception f)
        | inl unused ↦ elim (Bool-cases (is_proposed f.plan.status)) [
          | inl proposed ↦
              rw
                (
                  unused,
                  advance_to_executing-proposed f.plan f.action
                      (new_execution rq (key_of rq) f.action) rq.now (inserted rq st f) proposed,
                )
                (own-exception f)
          | inr ready ↦
              subst (λ r. KeepsStatus f.before r.1.world)
                (sym (insert_and_run-begun registry compute_hash rq st f passed ready unused))
                (subst (KeepsStatus f.before)
                  (sym (begun-outcome registry compute_hash rq st f passed ready).1)
                  (set_exception_status-KeepsStatus f.before _))
        ]
      ]

  -- Whatever the handler does and however the call ends, the row that is found under the id of the
  -- plan's exception, if there is one, has the status that the exception had before the call.
  pub exception_status_kept :
      (f : Found rq st) → KeepsStatus f.before (execute_action registry compute_hash rq st).1.world
  unfolding record_event
  exception_status_kept f = elim (execute_action-cases registry compute_hash rq st) [
    | inl (o, called) ↦ rw called (own-exception f)
    | inr (inl (g, valid, e, called)) ↦ rw called (own-exception f)
    | inr (inr (g, valid, passed, called)) ↦ rw called (
        subst
          (λ b.
            KeepsStatus b
              (insert_and_run registry compute_hash rq (key_of rq) g.plan g.action g.before
                st).1.world)
          (same-before g f) (insert_and_run-KeepsStatus g passed))
  ]
