-- ===== src/Resolution/Proposals/Gated.antt =====
-- An action that waits for a person's approval is not executed.
use recon_ai.Prelude.{
  All, Bool, true, ℕ, suc, List, [], ◌∷◌, none, some, ◌≡◌, sym, ap, subst, ◌∙◌, inl, inr, ◌==◌,
  ◌&&◌,
}
use recon_ai.Prelude.Json.{Json}
use recon_ai.Prelude.Text.{Text}
use recon_ai.Prelude.Check.{ok}
use recon_ai.Prelude.Table.{find, find-append_none, All-find}
use recon_ai.Domain.{ProposedActionStatus}
use recon_ai.Resolution.Model.{ResolutionPlan, ProposedAction, Store, ActionHandler, ActionRegistry}
use recon_ai.Resolution.Guardrails.{handler_for, is_pending}
use recon_ai.Resolution.Rows.{Request}
use recon_ai.Resolution.Execution.{execute_action}
use recon_ai.Resolution.Execution.Authorized.{IsAuthorized, execute_action-IsAuthorized}
use recon_ai.Resolution.Decisions.{find_plan, find_action}
use recon_ai.Resolution.Proposals.{ActionRequest, PolicyGrounding, Proposal, Models, create_plan}
use recon_ai.Resolution.Proposals.Created.{create_plan-IsCreated}
use recon_ai.Resolution.Proposals.Requests.{AllProposed}

-- A pending action whose registered handler asks for approval.
pub record IsWaiting (registry : ActionRegistry) (a : ProposedAction) : Type 0 where
  pub undecided : a.status ≡ ProposedActionStatus.pending
  pub handler : ActionHandler
  pub registered : handler_for registry a.action_type ≡ some handler
  pub gated : handler.requires_approval ≡ true

-- The tables that an execution writes are as before.
abbrev pub Untouched : Store → Store → Type 0
Untouched before after =
    (after.world ≡ before.world)
    × (after.executions ≡ before.executions)
    × (after.plans ≡ before.plans)
    × (after.actions ≡ before.actions)

-- The row that a call names.
abbrev is_asked : Request → ProposedAction → Bool
is_asked rq x = x.id == rq.action_id && x.resolution_plan_id == rq.plan_id

waiting_unexecuted :
    (registry : ActionRegistry) (hash : Json → Text) (rq : Request) (st : Store)
    (a : ProposedAction)
    → find_action rq.plan_id rq.action_id st ≡ some a
    → IsWaiting registry a
    → Untouched st (execute_action registry hash rq st).1
waiting_unexecuted registry hash rq st a found w =
    elim (execute_action-IsAuthorized registry hash rq st) [
      | inl same ↦ same
      | inr (f, auth, unused, idle) ↦
          let same : f.action ≡ a = cc in
          absurd (refused (subst (λ x. IsAuthorized registry hash f.plan x st) same auth))
    ]
  where
    refused : {plan : ResolutionPlan} → IsAuthorized registry hash plan a st → ⊥
    refused auth =
        let one : auth.handler ≡ w.handler = cc in
        elim auth.decided [
          | inl open_ ↦
              let bad : auth.handler.requires_approval ≡ true =
                ap (λ h. h.requires_approval) one ∙ w.gated in
              cc
          | inr (approved, hashed, decided) ↦
              let bad : is_pending a.status ≡ true = ap is_pending w.undecided in cc
        ]

proposed-IsWaiting :
    (models : Models) (registry : ActionRegistry) (p : Proposal) (order : ℕ)
    (rs : List ActionRequest) (rows : List ProposedAction)
    → AllProposed models registry p order rs rows
    → All (λ a. a.requires_approval ≡ true → IsWaiting registry a) rows
proposed-IsWaiting models registry p order [] [] h = tt
proposed-IsWaiting models registry p order [] (a ∷ rows) h = absurd h
proposed-IsWaiting models registry p order (r ∷ rs) [] h = absurd h
proposed-IsWaiting models registry p order (r ∷ rs) (a ∷ rows) (here, later) = (
  λ g. record {
    undecided = here.undecided;
    handler = here.handler;
    registered = ap (handler_for registry) here.type_kept ∙ here.is_registered;
    gated = sym here.gated ∙ g;
  },
  proposed-IsWaiting models registry p (suc order) rs rows later,
)

-- Right after `create_plan` under a new id, an execution of any of its actions that needs approval changes
-- neither what handlers write nor executions, plans or actions.
pub created_unexecuted :
    (models : Models) (registry : ActionRegistry) (groundings : List PolicyGrounding)
    (hash : Json → Text) (p : Proposal) (st st' : Store) (plan : ResolutionPlan) (rq : Request)
    (a : ProposedAction)
    → find_plan p.plan_id st ≡ none
    → find_action rq.plan_id rq.action_id st ≡ none
    → create_plan models registry groundings p st ≡ ok (plan, st')
    → find_action rq.plan_id rq.action_id st' ≡ some a
    → a.requires_approval ≡ true
    → Untouched st' (execute_action registry hash rq st').1
created_unexecuted models registry groundings hash p st st' plan rq a fresh new h found gated =
    let c = create_plan-IsCreated models registry groundings p st st' plan fresh h in
    let in_rows =
      sym (find-append_none (is_asked rq) st.actions c.rows new)
      ∙ ap (find (is_asked rq)) (sym c.appended)
      ∙ found in
    waiting_unexecuted registry hash rq st' a found (
      All-find (λ x. x.requires_approval ≡ true → IsWaiting registry x) (is_asked rq) c.rows a
        (proposed-IsWaiting models registry p 0 c.requests c.rows c.proposed) in_rows gated)
