-- ===== src/Resolution/Tests/Proposals.antt =====
-- Creation of a plan with two actions, on concrete rows.
use recon_ai.Prelude.{ℕ, ◌+◌, List, [], ◌∷◌, none, some, ◌≡◌, refl}
use recon_ai.Prelude.Text.{text_eq, strip, is_space, codes}
use recon_ai.Prelude.Json.{str, obj, field, end, get_key}
use recon_ai.Prelude.Check.{ok, err}
use recon_ai.Domain.{ActionType, ResolutionPlanStatus}
use recon_ai.Resolution.Model.{ResolutionPlan, Store}
use recon_ai.Resolution.Rows.{record_event}
use recon_ai.Resolution.Execution.{execute_action}
use recon_ai.Resolution.Tests.{registry, route, constant_hash, plan, st, rq}
use recon_ai.Resolution.Refresh.{put_plan}
use recon_ai.Resolution.Contracts.Valid.{IsValid, parse_action_parameters-IsValid}
use recon_ai.Resolution.Contracts.{
  ActionParameters, route_to_review, invalid_parameters, parse_action_parameters, parse_route,
  only_keys,
}
use recon_ai.Resolution.Proposals.{
  ActionRequest, request, document, PolicyGrounding, Proposal, Models, parse_all, with_handlers,
  insert_actions, created_status, write_plan, create_plan, invalid_request, unregistered_action,
  grounding_of_other,
}
use recon_ai.Resolution.Proposals.Created.{IsCreated, create_plan-IsCreated}
use recon_ai.Resolution.Proposals.Gated.{Untouched, created_unexecuted}

-- No document, identifier or date is read.
abbrev models : Models
models = record { read_request = λ d. none; read_uuid = λ j. none; read_date = λ j. none }

abbrev route_request : ActionRequest
route_request = record {
  action_type = ActionType.route_to_review;
  parameters = obj (field (codes "review_queue") (str (codes " ap ")) end);
}

abbrev proposal : Proposal
proposal = record {
  reconciliation_exception_id = 5;
  policy_grounding_result_id = some 3;
  actions = request route_request ∷ request route_request ∷ [];
  plan_id = 10;
  action_id = λ i. 20 + i;
}

abbrev groundings : List PolicyGrounding
groundings = record { id = 3; reconciliation_exception_id = 5 } ∷ []

abbrev before : Store
before = record st { plans = []; actions = []; approvals = [] }

abbrev made : ResolutionPlan
made = record plan { status = ResolutionPlanStatus.approval_required }

abbrev after : Store
after = (write_plan proposal ((route_request, route) ∷ (route_request, route) ∷ []) before).1

abbrev routed : ActionParameters ℕ
routed = route_to_review (record {
  review_queue = codes "ap";
  reason = none;
  assigned_to = none;
  document_id = none;
  extraction_result_id = none;
})

reads :
    parse_action_parameters
      (λ j. none)
      (λ j. none)
      ActionType.route_to_review
      route_request.parameters
    ≡ ok routed
unfolding parse_action_parameters parse_route only_keys text_eq get_key strip is_space
reads = refl

-- A document without its extraction is refused.
unpaired :
    parse_action_parameters {Date = ℕ}
      (λ j. some 1)
      (λ j. none)
      ActionType.route_to_review
      (obj (
        field (codes "review_queue") (str (codes "ap")) (field (codes "document_id") (str []) end)))
    ≡ err invalid_parameters
unfolding parse_action_parameters parse_route only_keys text_eq get_key strip is_space
unpaired = refl

parse_action_parameters-IsValid_example : IsValid ActionType.route_to_review routed
parse_action_parameters-IsValid_example =
    parse_action_parameters-IsValid (λ j. none) (λ j. none) ActionType.route_to_review
      route_request.parameters routed reads

creates : create_plan models registry groundings proposal before ≡ ok (made, after)
unfolding create_plan parse_all with_handlers write_plan created_status parse_action_parameters
    parse_route only_keys text_eq get_key strip is_space
creates = refl

unread :
    create_plan models registry groundings
      (record proposal { actions = document (str []) ∷ [] })
      before
    ≡ err invalid_request
unfolding create_plan parse_all
unread = refl

unregistered : create_plan models (λ t. none) groundings proposal before ≡ err unregistered_action
unfolding create_plan parse_all with_handlers parse_action_parameters parse_route only_keys text_eq
    get_key strip is_space
unregistered = refl

other_grounding :
    create_plan models registry
      (record { id = 3; reconciliation_exception_id = 6 } ∷ [])
      proposal
      before
    ≡ err grounding_of_other
unfolding create_plan
other_grounding = refl

create_plan-IsCreated_example : IsCreated models registry proposal before made after
create_plan-IsCreated_example =
    create_plan-IsCreated models registry groundings proposal before after made refl creates

created_unexecuted_example : Untouched after (execute_action registry constant_hash rq after).1
unfolding write_plan put_plan insert_actions record_event
created_unexecuted_example =
    created_unexecuted models registry groundings constant_hash proposal before after made rq _ refl
      refl creates refl refl
