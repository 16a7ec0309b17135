-- ===== src/Resolution/Proposals/Created.antt =====
-- The rows of a plan that `create_plan` returns.
use recon_ai.Resolution.Proposals.Requests.{
  AllProposed, rows_from, parse_all-typed, rows-AllProposed,
}
use recon_ai.Prelude.{
  ℕ, suc, Bool, true, false, ◌||◌, Option, none, some, List, [], ◌∷◌, ◌++◌, ◌≡◌, refl, sym, ap,
  subst, ◌∙◌, ◌⊎◌, inl, inr, if◌then◌else◌, any, is_empty, ◌==◌, ==_refl,
}
use mathlib.Core.List.{append_assoc, append-nil}
use recon_ai.Prelude.Check.{ok, bind-ok, guard-ok, ok_injective}
use recon_ai.Prelude.Table.{find, find-append_none, find-put_row_found}
use recon_ai.Domain.{ResolutionPlanStatus}
use recon_ai.Resolution.Model.{ResolutionPlan, ProposedAction, Store, ActionRegistry}
use recon_ai.Resolution.Rows.{record_event}
use recon_ai.Resolution.Decisions.{find_plan}
use recon_ai.Resolution.Refresh.{put_plan, with_status}
use recon_ai.Resolution.Proposals.{
  ActionRequest, PolicyGrounding, Proposal, Models, parse_all, Handled, with_handlers,
  check_grounding, is_missing, exception_not_found, new_plan, new_action, insert_plan,
  insert_action, insert_actions, needs_approval, created_status, write_plan, create_plan,
}

-- What the plan's status says of its actions.
abbrev pub IsInitial : ResolutionPlanStatus → List ProposedAction → Type 0
IsInitial status actions =
    (status ≡ ResolutionPlanStatus.approval_required)
      × (any (λ a. a.requires_approval) actions ≡ true)
    ⊎ ((status ≡ ResolutionPlanStatus.approved)
        × (any (λ a. a.requires_approval) actions ≡ false)
        × (is_empty actions ≡ false))
    ⊎ ((status ≡ ResolutionPlanStatus.proposed) × (actions ≡ []))

pub record IsCreated (models : Models) (registry : ActionRegistry) (p : Proposal) (st : Store)
    (plan : ResolutionPlan) (st' : Store) : Type 0 where
  pub requests : List ActionRequest
  pub rows : List ProposedAction
  pub parsed : parse_all models p.actions ≡ ok requests
  pub proposed : AllProposed models registry p 0 requests rows
  pub plan_there : find_plan p.plan_id st' ≡ some plan
  pub initial : IsInitial plan.status rows
  pub appended : st'.actions ≡ st.actions ++ rows
  pub approvals_kept : st'.approvals ≡ st.approvals
  pub executions_kept : st'.executions ≡ st.executions
  pub world_kept : st'.world ≡ st.world

-- The loop only appends the rows, and events.
module _ (p : Proposal) (plan : ResolutionPlan) where
  inserted :
      (order : ℕ) (xs : List Handled) (st : Store)
      → ((insert_actions p plan order xs st).actions ≡ st.actions ++ rows_from p order xs)
        × ((insert_actions p plan order xs st).plans ≡ st.plans)
        × ((insert_actions p plan order xs st).approvals ≡ st.approvals)
        × ((insert_actions p plan order xs st).executions ≡ st.executions)
        × ((insert_actions p plan order xs st).world ≡ st.world)
  unfolding insert_actions record_event
  inserted order [] st = (sym (append-nil st.actions), refl, refl, refl, refl)
  inserted order (x ∷ xs) st =
      let (a, b, c, d, e) =
        inserted (suc order) xs (insert_action plan (new_action p order x) st) in
      (
        a ∙ append_assoc st.actions (new_action p order x ∷ []) (rows_from p (suc order) xs),
        b,
        c,
        d,
        e,
      )

any_rows :
    (p : Proposal) (order : ℕ) (xs : List Handled)
    → any (λ a. a.requires_approval) (rows_from p order xs) ≡ any needs_approval xs
any_rows p order [] = refl
any_rows p order ((r, handler) ∷ xs) =
    ap (λ b. handler.requires_approval || b) (any_rows p (suc order) xs)

-- The plan's first status.
created-IsInitial :
    (p : Proposal) (xs : List Handled)
    → IsInitial (with_status (new_plan p) (created_status xs)).status (rows_from p 0 xs)
unfolding created_status
created-IsInitial p [] = inr (inr (refl, refl))
created-IsInitial p (x ∷ xs) = by_need (any needs_approval (x ∷ xs)) refl
  where
    by_need :
        (b : Bool)
        → any needs_approval (x ∷ xs) ≡ b
        → IsInitial
            (with_status (new_plan p) (
              if b
              then some ResolutionPlanStatus.approval_required
              else some ResolutionPlanStatus.approved)).status
            (rows_from p 0 (x ∷ xs))
    by_need true e = inl (refl, any_rows p 0 (x ∷ xs) ∙ e)
    by_need false e = inr (inl (refl, any_rows p 0 (x ∷ xs) ∙ e, refl))

module _ (models : Models) (registry : ActionRegistry) (p : Proposal) (st : Store)
    (requests : List ActionRequest) (xs : List Handled) (fresh : find_plan p.plan_id st ≡ none)
    (parsed : parse_all models p.actions ≡ ok requests)
    (handled : with_handlers registry requests ≡ ok xs) where
  abbrev final : ResolutionPlan
  final = with_status (new_plan p) (created_status xs)

  final_id : final.id ≡ p.plan_id
  final_id = kept (created_status xs)
    where
      kept : (o : Option ResolutionPlanStatus) → (with_status (new_plan p) o).id ≡ p.plan_id
      kept none = refl
      kept (some s) = refl

  plan_stored : find_plan p.plan_id (write_plan p xs st).1 ≡ some final
  unfolding write_plan put_plan
  plan_stored =
      find-put_row_found (λ x. x.id == p.plan_id) (λ x. x.id == final.id) final (new_plan p)
        (rw final_id (==_refl p.plan_id)) (rw final_id (==_refl p.plan_id)) _
        (ap (find (λ x. x.id == p.plan_id))
            (inserted p (new_plan p) 0 xs (insert_plan (new_plan p) st)).1
          ∙ find-append_none (λ x. x.id == p.plan_id) st.plans (new_plan p ∷ []) fresh
          ∙ (rw (==_refl p.plan_id)))

  written : IsCreated models registry p st (write_plan p xs st).0 (write_plan p xs st).1
  unfolding write_plan put_plan
  written =
      let all_in = inserted p (new_plan p) 0 xs (insert_plan (new_plan p) st) in
      record {
        requests = requests;
        rows = rows_from p 0 xs;
        parsed = parsed;
        proposed =
            rows-AllProposed models registry p 0 requests xs
              (parse_all-typed models p.actions parsed) handled;
        plan_there = plan_stored;
        initial = created-IsInitial p xs;
        appended = all_in.0;
        approvals_kept = all_in.2;
        executions_kept = all_in.3;
        world_kept = all_in.4;
      }

-- A plan that `create_plan` returns under a new id is stored with one row for each request, in order:
-- numbered from 0, of the request's type and parameters, which its model accepts, pending, without a hash, and for approval exactly
-- where the registered handler says so. It waits for approval where a row does, is approved where none does
-- and there is one, and stays proposed where there is none. No other table but the audit is written.
pub create_plan-IsCreated :
    (models : Models) (registry : ActionRegistry) (groundings : List PolicyGrounding) (p : Proposal)
    (st st' : Store) (plan : ResolutionPlan)
    → find_plan p.plan_id st ≡ none
    → create_plan models registry groundings p st ≡ ok (plan, st')
    → IsCreated models registry p st plan st'
unfolding create_plan
create_plan-IsCreated models registry groundings p st st' plan fresh h =
    let (there, h1) =
      guard-ok (is_missing (find (λ x. x.id == p.reconciliation_exception_id) st.world.exceptions))
        exception_not_found _ h in
    let (u, grounded, h2) =
      bind-ok
        (check_grounding p.reconciliation_exception_id p.policy_grounding_result_id groundings) _
        h1 in
    let (requests, parsed, h3) = bind-ok (parse_all models p.actions) _ h2 in
    let (xs, handled, h4) = bind-ok (with_handlers registry requests) _ h3 in
    subst (λ r. IsCreated models registry p st r.0 r.1) (ok_injective _ (plan, st') h4)
      (written models registry p st requests xs fresh parsed handled)
