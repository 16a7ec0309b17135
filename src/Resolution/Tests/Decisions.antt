-- ===== src/Resolution/Tests/Decisions.antt =====
-- Decisions about a pending action, on concrete rows.
use recon_ai.Prelude.{[], ◌∷◌, none, some, ◌≡◌, refl, ◌⊎◌}
use recon_ai.Prelude.Text.{codes, text_eq, strip, is_space}
use recon_ai.Prelude.Check.{ok, err}
use recon_ai.Domain.{ApprovalDecision, ProposedActionStatus, ResolutionPlanStatus}
use recon_ai.Resolution.Transitions.{action_allowed}
use recon_ai.Resolution.Model.{ResolutionPlan, ProposedAction, ActionApproval, Store}
use recon_ai.Resolution.Rows.{record_event}
use recon_ai.Resolution.Tests.{registry, constant_hash, action, plan, st}
use recon_ai.Resolution.Decisions.{
  DecisionRequest, validate_reviewer, validate_key, prior_decision, put_action, add_approvals,
  write_decision, record_decision, key_conflict, invalid_transition,
}
use recon_ai.Resolution.Refresh.{refreshed_status, put_plan, refresh_after_decision}
use recon_ai.Resolution.Decisions.Cases.{IsRecorded, IsReplayed, record_decision-Outcome}
use recon_ai.Resolution.Decisions.Authorizes.{IsReady, approve-IsReady}
use recon_ai.Resolution.Decisions.Replays.{record_decision-again}
use recon_ai.Resolution.Decisions.Plans.{IsFollowed, record_decision-IsFollowed}

abbrev pending_action : ProposedAction
pending_action = record action {
  approved_parameters_hash = none;
  status = ProposedActionStatus.pending;
}

abbrev waiting_plan : ResolutionPlan
waiting_plan = record plan { status = ResolutionPlanStatus.approval_required }

-- The rows before a decision, and after it.
abbrev undecided : Store
undecided = record st { plans = waiting_plan ∷ []; actions = pending_action ∷ []; approvals = [] }

abbrev rq : DecisionRequest
rq = record {
  plan_id = 10;
  action_id = 20;
  decision = ApprovalDecision.approved;
  reviewer = codes " ann ";
  reason = none;
  idempotency_key = some (codes "k");
  approval_id = 31;
  now = 5;
  created_at = 4;
  raced = [];
}

abbrev recorded : ActionApproval
recorded = record {
  id = 31;
  proposed_action_id = 20;
  decision = ApprovalDecision.approved;
  reviewer = codes "ann";
  reason = none;
  idempotency_key = some (codes "k");
  created_at = 4;
  decided_at = 5;
}

abbrev decided : Store
decided =
    (write_decision constant_hash rq (codes "ann") (some (codes "k")) waiting_plan pending_action
      undecided).1

approves : record_decision constant_hash rq undecided ≡ ok (recorded, decided)
unfolding record_decision validate_reviewer strip is_space validate_key prior_decision
    action_allowed write_decision add_approvals
approves = refl

-- The approved action's plan is approved, and a further decision under the key is refused where it differs.
plan_decided : decided.plans ≡ plan ∷ []
unfolding write_decision refresh_after_decision put_plan record_event add_approvals put_action
    refreshed_status
plan_decided = refl

other_choice :
    record_decision constant_hash (record rq { decision = ApprovalDecision.rejected }) decided
    ≡ err key_conflict
unfolding record_decision validate_reviewer strip is_space validate_key write_decision
    refresh_after_decision put_plan record_event add_approvals put_action refreshed_status text_eq
other_choice = refl

withdrawn :
    record_decision constant_hash
      (record rq { decision = ApprovalDecision.rejected; idempotency_key = none })
      decided
    ≡ err invalid_transition
unfolding record_decision validate_reviewer strip is_space validate_key write_decision
    refresh_after_decision put_plan record_event add_approvals put_action refreshed_status
    prior_decision action_allowed
withdrawn = refl

record_decision-Outcome_example :
    IsRecorded constant_hash rq undecided recorded decided
    ⊎ IsReplayed rq undecided recorded decided
record_decision-Outcome_example =
    record_decision-Outcome constant_hash rq undecided decided recorded approves

approve-IsReady_example :
    IsReady constant_hash registry rq decided ⊎ IsReplayed rq undecided recorded decided
approve-IsReady_example =
    approve-IsReady constant_hash registry rq undecided decided recorded refl (λ p. refl) refl
      approves

record_decision-again_example :
    record_decision constant_hash (record rq { now = 9; approval_id = 32 }) decided
    ≡ ok (recorded, decided)
record_decision-again_example =
    record_decision-again constant_hash rq (record rq { now = 9; approval_id = 32 }) undecided
      decided recorded (codes "k") refl
      (record {
        same_plan = refl;
        same_action = refl;
        same_choice = refl;
        same_reviewer = refl;
        same_key = refl;
      })
      approves

record_decision-IsFollowed_example :
    IsFollowed rq undecided decided ⊎ IsReplayed rq undecided recorded decided
record_decision-IsFollowed_example =
    record_decision-IsFollowed constant_hash rq undecided decided recorded approves

-- A plan whose actions needed no approval leaves APPROVED when they are rejected, unlike in the table.
approved_plan_rejected :
    refreshed_status ResolutionPlanStatus.approved
      (record action { status = ProposedActionStatus.rejected } ∷ [])
    ≡ some ResolutionPlanStatus.rejected
unfolding refreshed_status
approved_plan_rejected = refl
