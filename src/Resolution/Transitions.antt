-- ===== src/Resolution/Transitions.antt =====
-- app/resolution/transitions.py: which status changes are allowed.
use recon_ai.Prelude.{Bool, true, false}
use recon_ai.Domain.{ResolutionPlanStatus, ProposedActionStatus, ExecutionStatus}

-- `target in PLAN_ALLOWED_TRANSITIONS[current]`, which `assert_plan_transition` tests
unfoldable pub plan_allowed : ResolutionPlanStatus → ResolutionPlanStatus → Bool
plan_allowed ResolutionPlanStatus.proposed ResolutionPlanStatus.approval_required = true
plan_allowed ResolutionPlanStatus.proposed ResolutionPlanStatus.approved = true
plan_allowed ResolutionPlanStatus.proposed ResolutionPlanStatus.rejected = true
plan_allowed ResolutionPlanStatus.proposed ResolutionPlanStatus.cancelled = true
plan_allowed ResolutionPlanStatus.approval_required ResolutionPlanStatus.approved = true
plan_allowed ResolutionPlanStatus.approval_required ResolutionPlanStatus.rejected = true
plan_allowed ResolutionPlanStatus.approval_required ResolutionPlanStatus.executing = true
plan_allowed ResolutionPlanStatus.approval_required ResolutionPlanStatus.cancelled = true
plan_allowed ResolutionPlanStatus.approved ResolutionPlanStatus.executing = true
plan_allowed ResolutionPlanStatus.approved ResolutionPlanStatus.cancelled = true
plan_allowed ResolutionPlanStatus.executing ResolutionPlanStatus.completed = true
plan_allowed ResolutionPlanStatus.executing ResolutionPlanStatus.failed = true
plan_allowed ResolutionPlanStatus.executing ResolutionPlanStatus.cancelled = true
plan_allowed ResolutionPlanStatus.executing ResolutionPlanStatus.approved = true
plan_allowed ResolutionPlanStatus.executing ResolutionPlanStatus.approval_required = true
plan_allowed ResolutionPlanStatus.failed ResolutionPlanStatus.executing = true
plan_allowed ResolutionPlanStatus.failed ResolutionPlanStatus.approved = true
plan_allowed ResolutionPlanStatus.failed ResolutionPlanStatus.approval_required = true
plan_allowed ResolutionPlanStatus.failed ResolutionPlanStatus.completed = true
plan_allowed _ _ = false

-- `target in ACTION_ALLOWED_TRANSITIONS[current]`
unfoldable pub action_allowed : ProposedActionStatus → ProposedActionStatus → Bool
action_allowed ProposedActionStatus.pending ProposedActionStatus.approved = true
action_allowed ProposedActionStatus.pending ProposedActionStatus.rejected = true
action_allowed ProposedActionStatus.pending ProposedActionStatus.cancelled = true
action_allowed ProposedActionStatus.pending ProposedActionStatus.executing = true
action_allowed ProposedActionStatus.approved ProposedActionStatus.executing = true
action_allowed ProposedActionStatus.approved ProposedActionStatus.cancelled = true
action_allowed ProposedActionStatus.executing ProposedActionStatus.completed = true
action_allowed ProposedActionStatus.executing ProposedActionStatus.failed = true
action_allowed ProposedActionStatus.failed ProposedActionStatus.executing = true
action_allowed _ _ = false

-- `target in EXECUTION_ALLOWED_TRANSITIONS[current]`
unfoldable pub execution_allowed : ExecutionStatus → ExecutionStatus → Bool
execution_allowed ExecutionStatus.pending ExecutionStatus.running = true
execution_allowed ExecutionStatus.pending ExecutionStatus.failed = true
execution_allowed ExecutionStatus.running ExecutionStatus.succeeded = true
execution_allowed ExecutionStatus.running ExecutionStatus.failed = true
execution_allowed _ _ = false

-- `NON_EXECUTABLE_PLAN_STATUSES`
unfoldable pub is_non_executable : ResolutionPlanStatus → Bool
is_non_executable ResolutionPlanStatus.rejected = true
is_non_executable ResolutionPlanStatus.cancelled = true
is_non_executable ResolutionPlanStatus.completed = true
is_non_executable ResolutionPlanStatus.no_action_recommended = true
is_non_executable _ = false

-- `TERMINAL_PLAN_STATUSES`
unfoldable pub is_terminal_plan : ResolutionPlanStatus → Bool
is_terminal_plan ResolutionPlanStatus.rejected = true
is_terminal_plan ResolutionPlanStatus.completed = true
is_terminal_plan ResolutionPlanStatus.failed = true
is_terminal_plan ResolutionPlanStatus.cancelled = true
is_terminal_plan _ = false
