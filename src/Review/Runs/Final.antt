-- ===== src/Review/Runs/Final.antt =====
-- Runs of the operations of the review service refine the moves of tasks: an approved or rejected task is final, and a task is
-- completed exactly when it is closed.
use recon_ai.Prelude.{
  All, All-append, Bool, true, false, some, [], ◌∷◌, ◌≡◌, refl, sym, ap, subst, ◌∙◌, ◌⊎◌, inl, inr,
  is_some, ◌==◌, ==_iff, Bool-cases,
}
use recon_ai.Prelude.Table.{
  find, find-put_row_other, find-append_some, find-holds, All-put_row, All-find,
}
use recon_ai.Domain.{ReviewStatus}
use recon_ai.Resolution.Model.{Uuid}
use recon_ai.Review.Transitions.{is_terminal_review}
use recon_ai.Review.Model.{ReviewTask, ReviewStore, CandidateModel}
use recon_ai.Review.Service.{find_task, put_task}
use recon_ai.Review.Runs.{
  Step, created, started, approved, corrected, rejected, Run, done, next, Moved, Refines, Effect,
  writes, inserts, leaves,
}
use recon_ai.Review.Runs.Moves.{
  find_task-put_task, some_injective, start_review-Effect, approve-Effect, reject-Effect,
  create_review_task-Effect,
}
use recon_ai.Review.Runs.Corrections.{correct-Effect}

find_task-put_other :
    (task' : ReviewTask) (st : ReviewStore) (i : Uuid)
    → (task'.id == i) ≡ false
    → find_task i (put_task task' st) ≡ find_task i st
unfolding put_task
find_task-put_other task' st i away =
    find-put_row_other (λ t. t.id == i) (λ t. t.id == task'.id) task' away
      (λ x h. let e : x.id ≡ task'.id = (==_iff x.id task'.id).0 h in rw e away) st.tasks

-- An operation that writes one task, as a move of it, refines the moves.
pub writes-Refines :
    (j : Uuid) (task task' : ReviewTask) (st st' : ReviewStore)
    → find_task j st ≡ some task
    → (st'.tasks ≡ (put_task task' st).tasks)
    → Moved st' task task'
    → Refines st st'
writes-Refines j task task' st st' found written moved i t here =
    elim (Bool-cases (task'.id == i)) [
      | inl e ↦ (task', at_task e, inr (subst (λ x. Moved st' x task') (same_task e) moved))
      | inr e ↦ (t, in_tables i ∙ find_task-put_other task' st i e ∙ here, inl refl)
    ]
  where
    in_tables : (i : Uuid) → find_task i st' ≡ find_task i (put_task task' st)
    in_tables i = ap (find (λ x. x.id == i)) written

    ids : task'.id ≡ task.id
    ids = moved.same_id

    j_id : task.id ≡ j
    j_id = (==_iff task.id j).0 (find-holds (λ x. x.id == j) st.tasks task found)

    i_j : (task'.id == i) ≡ true → i ≡ j
    i_j e = sym ((==_iff task'.id i).0 e) ∙ ids ∙ j_id

    found_i : (task'.id == i) ≡ true → find_task i st ≡ some task
    found_i e = rw (i_j e) found

    same_task : (task'.id == i) ≡ true → task ≡ t
    same_task e = some_injective task t (sym (found_i e) ∙ here)

    at_task : (task'.id == i) ≡ true → find_task i st' ≡ some task'
    at_task e = in_tables i ∙ find_task-put_task task task' st i (found_i e) ids

Effect-Refines : (st st' : ReviewStore) → Effect st st' → Refines st st'
Effect-Refines st st' (writes j task task' extra found written trail own moved) =
    writes-Refines j task task' st st' found written moved
Effect-Refines st st' (inserts task tasks trail pending fresh) = λ i t here. (
  t,
  ap (find (λ x. x.id == i)) tasks ∙ find-append_some (λ x. x.id == i) st.tasks (task ∷ []) t here,
  inl refl,
)
Effect-Refines st st' (leaves same trail) =
    λ i t here. (t, ap (find (λ x. x.id == i)) same ∙ here, inl refl)

module _ (model : CandidateModel) (st st' : ReviewStore) where
  pub Step-Effect : Step model st st' → Effect st st'
  Step-Effect (created new task h) = create_review_task-Effect new st st' task h
  Step-Effect (started i reviewer h) = start_review-Effect i reviewer st st' h
  Step-Effect (approved i by h) = approve-Effect model i by st st' h
  Step-Effect (corrected i items by h) = correct-Effect model i items by st st' h
  Step-Effect (rejected i by h) = reject-Effect i by st st' h

  -- Each of start_review, approve, correct, reject and create_review_task leaves each task that is there
  -- alone, or moves it as the table of transitions allows, or sends it back into review with a candidate that
  -- is still invalid. What a task is about and its promotion stay, an approved or rejected task is not
  -- moved, and where a moved task had a time of completion exactly when it was closed, it has so again.
  pub Step-Refines : Step model st st' → Refines st st'
  Step-Refines step = Effect-Refines st st' (Step-Effect step)

abbrev pub is_final : ReviewStatus → Bool
is_final ReviewStatus.approved = true
is_final ReviewStatus.rejected = true
is_final _ = false

final_cases :
    (s : ReviewStatus)
    → is_final s ≡ true
    → (s ≡ ReviewStatus.approved) ⊎ (s ≡ ReviewStatus.rejected)
final_cases ReviewStatus.approved h = inl refl
final_cases ReviewStatus.rejected h = inr refl
final_cases ReviewStatus.pending h = cc
final_cases ReviewStatus.in_review h = cc
final_cases ReviewStatus.corrected h = cc

final_unmoved :
    {st' : ReviewStore} {t t' : ReviewTask} → is_final t.status ≡ true → Moved st' t t' → ⊥
final_unmoved {t} h moved = elim (final_cases t.status h) [
  | inl e ↦ moved.leaves_open.0 e
  | inr e ↦ moved.leaves_open.1 e
]

module _ (model : CandidateModel) (i : Uuid) (t : ReviewTask)
    (final : is_final t.status ≡ true) where
  step_final :
      (mid st' : ReviewStore)
      → Step model mid st'
      → find_task i mid ≡ some t
      → find_task i st' ≡ some t
  step_final mid st' step here =
      let (t', there, how) = Step-Refines model mid st' step i t here in
      elim how [
        | inl same ↦ there ∙ ap (λ x. some x) same
        | inr moved ↦ absurd (final_unmoved final moved)
      ]

  -- An approved or rejected task stays as it is, with its candidate, decision time and reviewer, whatever
  -- calls of start_review, approve, correct, reject and create_review_task follow; promotion, which notes
  -- the promoted entity on an approved task, is not among them.
  pub Run-final :
      {st st' : ReviewStore} → find_task i st ≡ some t → Run model st st' → find_task i st' ≡ some t
  Run-final here done = here
  Run-final {st'} here (next {mid} run step) = step_final mid st' step (Run-final here run)

-- Completed exactly when closed.
abbrev pub IsSettled : ReviewTask → Type 0
IsSettled t = is_some t.completed_at ≡ is_terminal_review t.status

Effect-IsSettled :
    (st st' : ReviewStore) → Effect st st' → All IsSettled st.tasks → All IsSettled st'.tasks
unfolding put_task is_terminal_review
Effect-IsSettled st st' (writes j task task' extra found written trail own moved) all =
    subst (All IsSettled) (sym written) (
      All-put_row IsSettled (λ t. t.id == task'.id) (λ t. task')
        (λ t h. moved.completed (All-find IsSettled (λ t. t.id == j) st.tasks task all found))
        st.tasks all)
Effect-IsSettled st st' (inserts task tasks trail pending fresh) all =
    subst (All IsSettled) (sym tasks)
      (All-append IsSettled st.tasks (task ∷ []) all (rw (pending, fresh) refl, tt))
Effect-IsSettled st st' (leaves same trail) all = subst (All IsSettled) (sym same) all

-- Whatever calls of start_review, approve, correct, reject and create_review_task run, a review task has a time of completion exactly when it is approved, corrected
-- or rejected, where the tasks at the start are so.
pub Run-IsSettled :
    (model : CandidateModel) {st st' : ReviewStore}
    → All IsSettled st.tasks
    → Run model st st'
    → All IsSettled st'.tasks
Run-IsSettled model all done = all
Run-IsSettled model {st'} all (next {mid} run step) =
    Effect-IsSettled mid st' (Step-Effect model mid st' step) (Run-IsSettled model all run)
