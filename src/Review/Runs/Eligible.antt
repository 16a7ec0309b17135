-- ===== src/Review/Runs/Eligible.antt =====
-- What a correction leaves: a task that may be promoted, or one that is still under review.
use recon_ai.Prelude.{
  Bool, true, false, not, ◌&&◌, none, some, List, ◌++◌, ◌≡◌, refl, sym, ap, subst, ◌∙◌, ◌⊎◌, inl,
  inr, ◌==◌, is_some,
}
use recon_ai.Prelude.Json.{Fields}
use recon_ai.Prelude.Check.{ok}
use recon_ai.Prelude.Table.{find}
use recon_ai.Domain.{ReviewStatus}
use recon_ai.Resolution.Model.{Uuid}
use recon_ai.Review.Transitions.{review_allowed, is_promotable}
use recon_ai.Review.Model.{ReviewTask, ReviewStore, Correction, Reviewing, CandidateModel}
use recon_ai.Review.Service.{
  find_task, put_task, into_review, candidate_still_invalid, is_eligible_for_promotion, or_else,
}
use recon_ai.Review.Service.Correct.{corrected_task, back_in_review, completed_task, correct}
use recon_ai.Review.Runs.Moves.{find_task-put_task}
use recon_ai.Review.Runs.Corrections.{
  sync_outcome-SameTrail, Corrected, sent_back, closed, correct-CorrectedBy,
}

abbrev pub is_corrected : ReviewStatus → Bool
is_corrected ReviewStatus.corrected = true
is_corrected _ = false

-- A correction's task: closed and ready to be promoted, or back in review and not.
pub record IsCorrected (before task' : ReviewTask) (st' : ReviewStore) : Type 0 where
  pub status : task'.status ≡ ReviewStatus.corrected
  pub was_open : before.status ≡ ReviewStatus.corrected → ⊥
  pub valid : candidate_still_invalid task' st' ≡ false
  pub eligible : is_eligible_for_promotion task' st' ≡ true
  pub completed : is_some task'.completed_at ≡ true

pub record IsSentBack (task' : ReviewTask) (st' : ReviewStore) : Type 0 where
  pub status : task'.status ≡ ReviewStatus.in_review
  pub invalid : candidate_still_invalid task' st' ≡ true
  pub not_eligible : is_eligible_for_promotion task' st' ≡ false
  pub not_completed : task'.completed_at ≡ none

not_again :
    (s : ReviewStatus)
    → review_allowed (into_review s) ReviewStatus.corrected ≡ true
    → s ≡ ReviewStatus.corrected
    → ⊥
unfolding review_allowed
not_again ReviewStatus.pending h e = cc
not_again ReviewStatus.in_review h e = cc
not_again ReviewStatus.corrected h e = cc
not_again ReviewStatus.approved h e = cc
not_again ReviewStatus.rejected h e = cc

abbrev After : Uuid → ReviewTask → ReviewStore → Type 0
After i before st' =
    (task' : ReviewTask) × (find_task i st' ≡ some task')
    × (IsCorrected before task' st' ⊎ IsSentBack task' st')

module _ (i : Uuid) (task : ReviewTask) (by : Reviewing) (c : Fields) (st st1 : ReviewStore)
    (found : find_task i st ≡ some task) (same_tasks : st1.tasks ≡ st.tasks) where
  written :
      (task' : ReviewTask) → task'.id ≡ task.id → find_task i (put_task task' st1) ≡ some task'
  written task' same =
      find_task-put_task task task' st1 i (ap (find (λ t. t.id == i)) same_tasks ∙ found) same

  ended :
      (st' : ReviewStore) → Corrected task (corrected_task task by c) by st1 st' → After i task st'
  unfolding put_task candidate_still_invalid is_eligible_for_promotion is_promotable or_else
  ended st' (sent_back invalid same) =
      let task' = back_in_review (corrected_task task by c) in
      subst (After i task) same (
        task',
        written task' refl,
        inr (record {
          status = refl;
          invalid = invalid;
          not_eligible = refl;
          not_completed = refl;
        }),
      )
  ended st' (closed valid allowed same) =
      let task' = completed_task (corrected_task task by c) by in
      subst (After i task) same (
        task',
        written task' refl,
        inl (record {
          status = refl;
          was_open = not_again task.status allowed;
          valid = valid;
          eligible = ap (λ b. not b && true) valid;
          completed = refl;
        }),
      )

-- After a correction the task is either CORRECTED, completed and eligible for promotion, or IN_REVIEW,
-- not completed, not eligible and its candidate still invalid; and a task that was CORRECTED before the
-- correction can only be the latter.
pub correct-After :
    (model : CandidateModel) (i : Uuid) (items : List Correction) (by : Reviewing)
    (st st' : ReviewStore) (task : ReviewTask)
    → find_task i st ≡ some task
    → correct model i items by st ≡ ok st'
    → (task' : ReviewTask) × (find_task i st' ≡ some task')
      × (IsCorrected task task' st' ⊎ IsSentBack task' st')
correct-After model i items by st st' task here h =
    let parts = correct-CorrectedBy model i items by st st' h in
    let logged = record st { decisions = st.decisions ++ parts.result.1 } in
    let same : some parts.task ≡ some task = sym parts.found ∙ here in
    let same_task : parts.task ≡ task = cc in
    subst (λ t. After i t st') same_task
      (ended i parts.task by (parts.result.0) st _ parts.found
        ((sync_outcome-SameTrail parts.task (parts.result.0) logged model).0) st' parts.end)
