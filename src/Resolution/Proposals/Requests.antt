-- ===== src/Resolution/Proposals/Requests.antt =====
-- The rows that stand for the requests of a plan.
use recon_ai.Prelude.{All, ℕ, suc, Option, none, some, List, [], ◌∷◌, ◌≡◌, refl, ap, subst, ◌∙◌}
use recon_ai.Prelude.Check.{err, ok, bind-ok, ok_injective}
use recon_ai.Domain.{ProposedActionStatus}
use recon_ai.Resolution.Model.{known, ProposedAction, ActionHandler, ActionRegistry}
use recon_ai.Resolution.Contracts.{Parsed, ActionParameters}
use recon_ai.Resolution.Proposals.{
  Payload, ActionRequest, Proposal, Models, typed, with_parameters, check_request, read_payload,
  parse_action_request, parse_all, Handled, registered, with_handlers, new_action,
}

-- The row of a request: pending, at its place, without a hash, and for approval where the handler of its
-- type says so.
pub record IsProposed (models : Models) (registry : ActionRegistry) (p : Proposal) (order : ℕ)
    (r : ActionRequest) (a : ProposedAction) : Type 0 where
  pub of_plan : a.resolution_plan_id ≡ p.plan_id
  pub order_kept : a.action_order ≡ order
  pub type_kept : a.action_type ≡ known r.action_type
  pub parameters_kept : a.parameters ≡ r.parameters
  pub accepted : (q : ActionParameters ℕ) × (typed models r ≡ ok q)
  pub undecided : a.status ≡ ProposedActionStatus.pending
  pub unhashed : a.approved_parameters_hash ≡ none
  pub handler : ActionHandler
  pub is_registered : registry r.action_type ≡ some handler
  pub gated : a.requires_approval ≡ handler.requires_approval

-- The rows of the requests, in their order and numbered from an order on.
abbrev pub AllProposed :
    Models → ActionRegistry → Proposal → ℕ → List ActionRequest → List ProposedAction → Type 0
AllProposed models registry p order [] [] = Unit
AllProposed models registry p order (r ∷ rs) (a ∷ actions) =
    IsProposed models registry p order r a × AllProposed models registry p (suc order) rs actions
AllProposed models registry p order _ _ = ⊥

abbrev pub rows_from : Proposal → ℕ → List Handled → List ProposedAction
rows_from p order [] = []
rows_from p order (x ∷ xs) = new_action p order x ∷ rows_from p (suc order) xs

-- Requests that are read have parameters of their type.
check_request-typed :
    (models : Models) (o : Option ActionRequest) {r : ActionRequest}
    → check_request models o ≡ ok r
    → (q : ActionParameters ℕ) × (typed models r ≡ ok q)
check_request-typed models none h = cc
check_request-typed models (some r) h = passed (typed models r) refl h
  where
    passed :
        {r' : ActionRequest} (m : Parsed (ActionParameters ℕ))
        → typed models r ≡ m
        → with_parameters models r m ≡ ok r'
        → (q : ActionParameters ℕ) × (typed models r' ≡ ok q)
    passed (err e) same h = cc
    passed (ok q) same h =
        subst (λ x. (q : ActionParameters ℕ) × (typed models x ≡ ok q)) (ok_injective r _ h)
          (q, same)

pub parse_all-typed :
    (models : Models) (payloads : List Payload) {rs : List ActionRequest}
    → parse_all models payloads ≡ ok rs
    → All (λ r. (q : ActionParameters ℕ) × (typed models r ≡ ok q)) rs
unfolding parse_all
parse_all-typed models [] {rs} h =
    subst (All (λ r. (q : ActionParameters ℕ) × (typed models r ≡ ok q))) (ok_injective [] rs h) tt
parse_all-typed models (payload ∷ payloads) {rs} h =
    let (r, here, h1) = bind-ok (parse_action_request models payload) _ h in
    let (rest, later, h2) = bind-ok (parse_all models payloads) _ h1 in
    subst (All (λ r. (q : ActionParameters ℕ) × (typed models r ≡ ok q)))
      (ok_injective (r ∷ rest) rs h2)
      (
        check_request-typed models (read_payload models payload) here,
        parse_all-typed models payloads later,
      )

registered-ok :
    (r : ActionRequest) (o : Option ActionHandler) {x : Handled}
    → registered r o ≡ ok x
    → (handler : ActionHandler) × (o ≡ some handler) × (◌≡◌ {A = Handled} (r, handler) x)
registered-ok r none h = cc
registered-ok r (some handler) h = (handler, refl, ok_injective _ _ h)

pub rows-AllProposed :
    (models : Models) (registry : ActionRegistry) (p : Proposal) (order : ℕ)
    (rs : List ActionRequest) (xs : List Handled)
    → All (λ r. (q : ActionParameters ℕ) × (typed models r ≡ ok q)) rs
    → with_handlers registry rs ≡ ok xs
    → AllProposed models registry p order rs (rows_from p order xs)
unfolding with_handlers
rows-AllProposed models registry p order [] [] fine h = tt
rows-AllProposed models registry p order [] (x ∷ xs) fine h = cc
rows-AllProposed models registry p order (r ∷ rs) xs fine h =
    let (x, here, h1) = bind-ok (registered r (registry r.action_type)) _ h in
    let (rest, later, h2) = bind-ok (with_handlers registry rs) _ h1 in
    let (handler, found, same) = registered-ok r (registry r.action_type) here in
    let row : IsProposed models registry p order r (new_action p order (r, handler)) = record {
      of_plan = refl;
      order_kept = refl;
      type_kept = refl;
      parameters_kept = refl;
      accepted = fine.0;
      undecided = refl;
      unhashed = refl;
      handler = handler;
      is_registered = found;
      gated = refl;
    } in
    subst (λ ys. AllProposed models registry p order (r ∷ rs) (rows_from p order ys))
      (ap (λ y. y ∷ rest) same ∙ ok_injective _ _ h2)
      (row, rows-AllProposed models registry p (suc order) rs rest (fine.1) later)
