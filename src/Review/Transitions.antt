-- ===== src/Review/Transitions.antt =====
-- app/review/transitions.py: the state machine of a review task.
use recon_ai.Prelude.{Bool, true, false}
use recon_ai.Domain.{ReviewStatus}

-- `target in ALLOWED_TRANSITIONS[current]`, which `assert_transition` tests
unfoldable pub review_allowed : ReviewStatus → ReviewStatus → Bool
review_allowed ReviewStatus.pending ReviewStatus.in_review = true
review_allowed ReviewStatus.pending ReviewStatus.approved = true
review_allowed ReviewStatus.pending ReviewStatus.corrected = true
review_allowed ReviewStatus.pending ReviewStatus.rejected = true
review_allowed ReviewStatus.in_review ReviewStatus.approved = true
review_allowed ReviewStatus.in_review ReviewStatus.corrected = true
review_allowed ReviewStatus.in_review ReviewStatus.rejected = true
review_allowed ReviewStatus.corrected ReviewStatus.approved = true
review_allowed _ _ = false

-- `TERMINAL_STATUSES`
unfoldable pub is_terminal_review : ReviewStatus → Bool
is_terminal_review ReviewStatus.approved = true
is_terminal_review ReviewStatus.corrected = true
is_terminal_review ReviewStatus.rejected = true
is_terminal_review _ = false

-- `PROMOTABLE_STATUSES`
unfoldable pub is_promotable : ReviewStatus → Bool
is_promotable ReviewStatus.approved = true
is_promotable ReviewStatus.corrected = true
is_promotable _ = false
