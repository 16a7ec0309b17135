-- ===== src/Resolution/Decisions/Succeeds.antt =====
-- An approval of a pending action succeeds.
use recon_ai.Prelude.{false, Option, none, some, ◌≡◌}
use recon_ai.Prelude.Text.{Text}
use recon_ai.Prelude.Json.{Json}
use recon_ai.Prelude.Check.{Check, ok}
use recon_ai.Domain.{ApprovalDecision, ProposedActionStatus}
use recon_ai.Resolution.Model.{ResolutionPlan, ProposedAction, Store}
use recon_ai.Resolution.Decisions.{
  DecisionRequest, validate_reviewer, validate_key, is_cancelled_plan, find_plan, find_action,
  find_key,
}

-- A call that may approve: its arguments are well formed, its plan is not cancelled, its action is pending
-- and has no hash, and no row has its key.
pub record IsApproval (rq : DecisionRequest) (st : Store) : Type 0 where
  pub reviewer : Text
  pub key : Option Text
  pub plan : ResolutionPlan
  pub action : ProposedAction
  pub approves : rq.decision ≡ ApprovalDecision.approved
  pub reviewer_valid : validate_reviewer rq.reviewer ≡ ok reviewer
  pub key_valid : validate_key rq.idempotency_key ≡ ok key
  pub plan_found : find_plan rq.plan_id st ≡ some plan
  pub plan_active : is_cancelled_plan plan.status ≡ false
  pub action_found : find_action rq.plan_id rq.action_id st ≡ some action
  pub undecided : action.status ≡ ProposedActionStatus.pending
  pub unhashed : action.approved_parameters_hash ≡ none
  pub key_free : find_key key st.approvals ≡ none
  pub not_raced : find_key key rq.raced ≡ none
