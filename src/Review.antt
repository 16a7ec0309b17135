-- ===== src/Review.antt =====
-- app/review and app/services/review_service.py: the human review of extracted candidates.
mod Tests
pub mod Numbers
pub mod Coercion
pub mod Paths
pub mod Transitions
pub mod Model
pub mod Service
pub mod Runs
