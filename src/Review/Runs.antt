-- ===== src/Review/Runs.antt =====
-- Sequences of operations on the review tasks, in any order, by any reviewers; and what each operation
-- may do to a task.
pub mod Moves
pub mod Corrections
pub mod Final
pub mod Eligible
pub mod Approved
pub mod Decided
pub mod Created
use recon_ai.Prelude.{
  Option, List, [], ◌∷◌, ◌++◌, ◌≡◌, ◌⊎◌, Bool, true, false, any, ◌&&◌, ◌==◌, is_some, some, none,
}
use recon_ai.Prelude.Text.{Text}
use recon_ai.Prelude.Check.{ok}
use recon_ai.Domain.{ReviewStatus, ReviewAction}
use recon_ai.Resolution.Model.{Uuid}
use recon_ai.Review.Transitions.{review_allowed, is_terminal_review}
use recon_ai.Review.Model.{
  ReviewTask, ReviewDecision, ReviewStore, Correction, Reviewing, CandidateModel,
}
use recon_ai.Review.Service.{
  find_task, put_task, start_review, approve, reject, candidate_still_invalid,
}
use recon_ai.Review.Service.Create.{NewTask, create_review_task}
use recon_ai.Review.Service.Correct.{correct}

-- One operation that succeeds.
pub data Step (model : CandidateModel) (st st' : ReviewStore) : Type 0 where
  created :
      (new : NewTask) (task : ReviewTask)
      → create_review_task new st ≡ ok (task, st')
      → Step model st st'
  started :
      (i : Uuid) (reviewer : Option Text) → start_review i reviewer st ≡ ok st' → Step model st st'
  approved : (i : Uuid) (by : Reviewing) → approve model i by st ≡ ok st' → Step model st st'
  corrected :
      (i : Uuid) (items : List Correction) (by : Reviewing)
      → correct model i items by st ≡ ok st'
      → Step model st st'
  rejected : (i : Uuid) (by : Reviewing) → reject i by st ≡ ok st' → Step model st st'

pub data Run (model : CandidateModel) (st : ReviewStore) : ReviewStore → Type 0 where
  done : Run model st st
  next : {mid st' : ReviewStore} → Run model st mid → Step model mid st' → Run model st st'

-- A move of a task that the table of transitions allows, or one back into review with a candidate that
-- is still invalid; who owns the task and what it is about stay, and it is completed if it is closed.
pub record Moved (st' : ReviewStore) (t t' : ReviewTask) : Type 0 where
  pub same_id : t'.id ≡ t.id
  pub same_document : t'.document_id ≡ t.document_id
  pub same_extraction : t'.extraction_result_id ≡ t.extraction_result_id
  pub not_promoted : t'.promoted_entity_id ≡ t.promoted_entity_id
  pub move :
      (review_allowed t.status t'.status ≡ true)
      ⊎ ((t'.status ≡ ReviewStatus.in_review) × (candidate_still_invalid t' st' ≡ true))
  pub leaves_open : (t.status ≡ ReviewStatus.approved → ⊥) × (t.status ≡ ReviewStatus.rejected → ⊥)
  pub completed :
      is_some t.completed_at ≡ is_terminal_review t.status
      → is_some t'.completed_at ≡ is_terminal_review t'.status

-- Every task is there afterwards, as it was or moved.
abbrev pub Refines : ReviewStore → ReviewStore → Type 0
Refines st st' =
    (i : Uuid) (t : ReviewTask)
    → find_task i st ≡ some t
    → (t' : ReviewTask) × (find_task i st' ≡ some t') × ((t' ≡ t) ⊎ Moved st' t t')

abbrev pub same_action : ReviewAction → ReviewAction → Bool
same_action ReviewAction.approve ReviewAction.approve = true
same_action ReviewAction.correct ReviewAction.correct = true
same_action ReviewAction.reject ReviewAction.reject = true
same_action _ _ = false

abbrev pub decides : ReviewAction → Uuid → ReviewDecision → Bool
decides action i d = same_action action d.action && d.review_task_id == i

-- A closed task has a decision of its kind in the trail.
abbrev pub decided : ReviewStatus → Uuid → List ReviewDecision → Bool
decided ReviewStatus.approved i ds = any (decides ReviewAction.approve i) ds
decided ReviewStatus.corrected i ds = any (decides ReviewAction.correct i) ds
decided ReviewStatus.rejected i ds = any (decides ReviewAction.reject i) ds
decided ReviewStatus.pending i ds = true
decided ReviewStatus.in_review i ds = true

-- What an operation does to the tasks and the trail: it writes one task, adding its decisions, or adds a
-- pending one, or leaves them alone.
pub data Effect (st st' : ReviewStore) : Type 0 where
  writes :
      (j : Uuid) (task task' : ReviewTask) (extra : List ReviewDecision)
      → find_task j st ≡ some task
      → (st'.tasks ≡ (put_task task' st).tasks)
      → (st'.decisions ≡ st.decisions ++ extra)
      → decided task'.status task'.id extra ≡ true
      → Moved st' task task'
      → Effect st st'
  inserts :
      (task : ReviewTask)
      → (st'.tasks ≡ st.tasks ++ task ∷ [])
      → st'.decisions ≡ st.decisions
      → task.status ≡ ReviewStatus.pending
      → task.completed_at ≡ none
      → Effect st st'
  leaves : st'.tasks ≡ st.tasks → st'.decisions ≡ st.decisions → Effect st st'
