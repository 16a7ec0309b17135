-- ===== src/Resolution/Decisions/Writes.antt =====
-- The rows that a new decision writes.
use recon_ai.Prelude.{true, ◌&&◌, some, [], ◌∷◌, ◌++◌, ◌≡◌, refl, ◌==◌, ==_refl, Option}
use recon_ai.Prelude.Text.{Text}
use recon_ai.Prelude.Json.{Json}
use recon_ai.Prelude.Table.{find-holds, find-put_row_found}
use recon_ai.Domain.{ApprovalDecision}
use recon_ai.Resolution.Model.{ResolutionPlan, ProposedAction, ActionApproval, Store}
use recon_ai.Resolution.Rows.{record_event}
use recon_ai.Resolution.Refresh.{put_plan, refresh_after_decision}
use recon_ai.Resolution.Decisions.{
  DecisionRequest, find_action, target_of, decided_action, put_action, add_approvals,
  write_decision,
}

-- One approval is appended, about the action, with the decision, its reviewer and its key; the action has
-- the decision's status; and nothing is executed.
pub record IsWritten (rq : DecisionRequest) (reviewer : Text) (key : Option Text)
    (action : ProposedAction) (st : Store) (a : ActionApproval) (st' : Store) : Type 0 where
  pub appended : st'.approvals ≡ (st.approvals ++ rq.raced) ++ a ∷ []
  pub about : a.proposed_action_id ≡ action.id
  pub kind : a.decision ≡ rq.decision
  pub signed : a.reviewer ≡ reviewer
  pub keyed : a.idempotency_key ≡ key
  pub row : ProposedAction
  pub row_found : find_action rq.plan_id rq.action_id st' ≡ some row
  pub row_decided : row.status ≡ target_of rq.decision
  pub parameters_kept : row.parameters ≡ action.parameters
  pub executions_kept : st'.executions ≡ st.executions
  pub world_kept : st'.world ≡ st.world

module _ (hash : Json → Text) where
  pub decided_id : (d : ApprovalDecision) (x : ProposedAction) → (decided_action hash d x).id ≡ x.id
  decided_id ApprovalDecision.approved x = refl
  decided_id ApprovalDecision.rejected x = refl

  decided_plan :
      (d : ApprovalDecision) (x : ProposedAction)
      → (decided_action hash d x).resolution_plan_id ≡ x.resolution_plan_id
  decided_plan ApprovalDecision.approved x = refl
  decided_plan ApprovalDecision.rejected x = refl

  decided_status :
      (d : ApprovalDecision) (x : ProposedAction) → (decided_action hash d x).status ≡ target_of d
  decided_status ApprovalDecision.approved x = refl
  decided_status ApprovalDecision.rejected x = refl

  decided_parameters :
      (d : ApprovalDecision) (x : ProposedAction)
      → (decided_action hash d x).parameters ≡ x.parameters
  decided_parameters ApprovalDecision.approved x = refl
  decided_parameters ApprovalDecision.rejected x = refl

  module _ (rq : DecisionRequest) (reviewer : Text) (key : Option Text) (plan : ResolutionPlan)
      (action : ProposedAction) (st : Store)
      (found : find_action rq.plan_id rq.action_id st ≡ some action) where
    pub action_there :
        find_action rq.plan_id rq.action_id
          (write_decision hash rq reviewer key plan action (add_approvals rq.raced st)).1
        ≡ some (decided_action hash rq.decision action)
    unfolding write_decision refresh_after_decision put_plan record_event add_approvals put_action
    action_there =
        find-put_row_found (λ x. x.id == rq.action_id && x.resolution_plan_id == rq.plan_id)
          (λ x. x.id == (decided_action hash rq.decision action).id)
          (decided_action hash rq.decision action) action
          (rw (decided_id rq.decision action, decided_plan rq.decision action) here)
          (rw (decided_id rq.decision action) (==_refl action.id)) st.actions found
      where
        here : ((action.id == rq.action_id) && (action.resolution_plan_id == rq.plan_id)) ≡ true
        here =
            find-holds (λ x. x.id == rq.action_id && x.resolution_plan_id == rq.plan_id) st.actions
              action found

    pub write_decision-IsWritten :
        let written = write_decision hash rq reviewer key plan action (add_approvals rq.raced st) in
        IsWritten rq reviewer key action st written.0 written.1
    unfolding write_decision refresh_after_decision put_plan record_event add_approvals put_action
    write_decision-IsWritten = record {
      appended = refl;
      about = refl;
      kind = refl;
      signed = refl;
      keyed = refl;
      row = decided_action hash rq.decision action;
      row_found = action_there;
      row_decided = decided_status rq.decision action;
      parameters_kept = decided_parameters rq.decision action;
      executions_kept = refl;
      world_kept = refl;
    }
