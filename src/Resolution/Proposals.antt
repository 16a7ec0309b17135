-- ===== src/Resolution/Proposals.antt =====
-- app/services/resolution_service.py: `create_plan`, with `parse_action_request` of
-- app/resolution/contracts.py. What Pydantic reads from a document, an identifier and a date is an
-- argument; so are the ids of new rows.
pub mod Requests
pub mod Created
pub mod Gated
use recon_ai.Prelude.{
  ℕ, suc, Bool, true, false, not, ◌||◌, Option, none, some, List, [], ◌∷◌, ◌++◌, if◌then◌else◌, any,
  is_empty, ◌==◌,
}
use recon_ai.Prelude.Json.{Json}
use recon_ai.Prelude.Check.{Check, ok, err, ◌>>=◌, ◌>>◌, raise_if}
use recon_ai.Prelude.Table.{find}
use recon_ai.Domain.{ActionType, ProposedActionStatus, ResolutionPlanStatus}
use recon_ai.Resolution.Model.{
  Uuid, known, ResolutionPlan, ProposedAction, AuditEventType, plan_created, action_proposed, Store,
  ActionHandler, ActionRegistry,
}
use recon_ai.Resolution.Rows.{record_event}
use recon_ai.Resolution.Contracts.{Parsed, ActionParameters, parse_action_parameters}
use recon_ai.Resolution.Refresh.{put_plan, with_status}

pub data ProposalError : Type 0 where
  exception_not_found grounding_not_found grounding_of_other invalid_request unregistered_action :
      ProposalError

abbrev pub Proposed : Type 0 → Type 0
Proposed A = Check ProposalError A

-- An `ActionRequest`; its rationale is left out, and `requires_approval` is ignored.
pub record ActionRequest : Type 0 where
  pub action_type : ActionType
  pub parameters : Json

-- `ActionRequest | dict`
pub data Payload : Type 0 where
  request : ActionRequest → Payload
  document : Json → Payload

-- `policy_grounding_results`
pub record PolicyGrounding : Type 0 where
  pub id : Uuid
  pub reconciliation_exception_id : Uuid

-- The arguments of a call, with the ids of the rows that it inserts.
pub record Proposal : Type 0 where
  pub reconciliation_exception_id : Uuid
  pub policy_grounding_result_id : Option Uuid
  pub actions : List Payload
  pub plan_id : Uuid
  pub action_id : ℕ → Uuid

-- What Pydantic reads: a request, an identifier and a date.
pub record Models : Type 0 where
  pub read_request : Json → Option ActionRequest
  pub read_uuid : Json → Option Uuid
  pub read_date : Json → Option ℕ

module _ (models : Models) where
  abbrev pub read_payload : Payload → Option ActionRequest
  read_payload (request r) = some r
  read_payload (document d) = models.read_request d

  -- `parse_action_parameters` on a request's parameters.
  abbrev pub typed : ActionRequest → Parsed (ActionParameters ℕ)
  typed r = parse_action_parameters models.read_uuid models.read_date r.action_type r.parameters

  abbrev pub with_parameters : ActionRequest → Parsed (ActionParameters ℕ) → Proposed ActionRequest
  with_parameters r (err e) = err invalid_request
  with_parameters r (ok parameters) = ok r

  abbrev pub check_request : Option ActionRequest → Proposed ActionRequest
  check_request none = err invalid_request
  check_request (some r) = with_parameters r (typed r)

  -- `parse_action_request`
  abbrev pub parse_action_request : Payload → Proposed ActionRequest
  parse_action_request payload = check_request (read_payload payload)

  unfoldable pub parse_all : List Payload → Proposed (List ActionRequest)
  parse_all [] = ok []
  parse_all (payload ∷ payloads) = do
    r ← parse_action_request payload
    rs ← parse_all payloads
    ok (r ∷ rs)

-- A request and the handler of its type.
abbrev pub Handled : Type 0
Handled = ActionRequest × ActionHandler

abbrev pub registered : ActionRequest → Option ActionHandler → Proposed Handled
registered r none = err unregistered_action
registered r (some handler) = ok (r, handler)

-- Every type must be registered; `get` gives the handler then.
unfoldable pub with_handlers : ActionRegistry → List ActionRequest → Proposed (List Handled)
with_handlers registry [] = ok []
with_handlers registry (r ∷ rs) = do
  x ← registered r (registry r.action_type)
  xs ← with_handlers registry rs
  ok (x ∷ xs)

abbrev pub grounding_belongs : Uuid → Option PolicyGrounding → Proposed (Unit {0})
grounding_belongs exception_id none = err grounding_not_found
grounding_belongs exception_id (some g) =
    raise_if (not (g.reconciliation_exception_id == exception_id)) grounding_of_other

abbrev pub check_grounding : Uuid → Option Uuid → List PolicyGrounding → Proposed (Unit {0})
check_grounding exception_id none groundings = ok tt
check_grounding exception_id (some i) groundings =
    grounding_belongs exception_id (find (λ g. g.id == i) groundings)

abbrev pub is_missing : {A : Type 0} → Option A → Bool
is_missing none = true
is_missing (some a) = false

abbrev pub new_plan : Proposal → ResolutionPlan
new_plan p = record {
  id = p.plan_id;
  reconciliation_exception_id = p.reconciliation_exception_id;
  status = ResolutionPlanStatus.proposed;
}

-- The registry says whether the action needs approval.
abbrev pub new_action : Proposal → ℕ → Handled → ProposedAction
new_action p order (r, handler) = record {
  id = p.action_id order;
  resolution_plan_id = p.plan_id;
  action_type = known r.action_type;
  action_order = order;
  parameters = r.parameters;
  requires_approval = handler.requires_approval;
  approved_parameters_hash = none;
  status = ProposedActionStatus.pending;
}

abbrev pub insert_plan : ResolutionPlan → Store → Store
insert_plan plan st = record st {
  plans = st.plans ++ plan ∷ [];
  audit =
      st.audit
      ++ record {
        event_type = plan_created;
        resolution_plan_id = plan.id;
        proposed_action_id = none;
        action_execution_id = none;
      }
        ∷ [];
}

abbrev pub insert_action : ResolutionPlan → ProposedAction → Store → Store
insert_action plan action st =
    record_event action_proposed plan action none
      (record st { actions = st.actions ++ action ∷ [] })

-- The loop over the requests, from an order on.
unfoldable pub insert_actions : Proposal → ResolutionPlan → ℕ → List Handled → Store → Store
insert_actions p plan order [] st = st
insert_actions p plan order (x ∷ xs) st =
    insert_actions p plan (suc order) xs (insert_action plan (new_action p order x) st)

abbrev pub needs_approval : Handled → Bool
needs_approval (r, handler) = handler.requires_approval

unfoldable pub created_status : List Handled → Option ResolutionPlanStatus
created_status xs =
    if any needs_approval xs
    then some ResolutionPlanStatus.approval_required
    else if is_empty xs
    then none
    else some ResolutionPlanStatus.approved

unfoldable pub write_plan : Proposal → List Handled → Store → ResolutionPlan × Store
write_plan p xs st =
    let plan = with_status (new_plan p) (created_status xs) in
    (plan, put_plan plan (insert_actions p (new_plan p) 0 xs (insert_plan (new_plan p) st)))

-- `create_plan`: the plan's row, and the store.
unfoldable pub create_plan :
    Models
    → ActionRegistry
    → List PolicyGrounding
    → Proposal
    → Store
    → Proposed (ResolutionPlan × Store)
create_plan models registry groundings p st = do
  raise_if (is_missing (find (λ x. x.id == p.reconciliation_exception_id) st.world.exceptions))
      exception_not_found
  check_grounding p.reconciliation_exception_id p.policy_grounding_result_id groundings
  requests ← parse_all models p.actions
  xs ← with_handlers registry requests
  ok (write_plan p xs st)
