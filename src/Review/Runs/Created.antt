-- ===== src/Review/Runs/Created.antt =====
-- An extraction gets one review task.
use recon_ai.Prelude.{not, Option, none, some, [], ◌∷◌, ◌≡◌, refl, ap, subst, ◌∙◌, ◌==◌, ==_refl}
use recon_ai.Prelude.Check.{ok, bind-ok, guard-ok, ok_injective}
use recon_ai.Prelude.Table.{find, find-append_none}
use recon_ai.Review.Model.{
  ReviewTask, ExtractionResult, ReviewStore, extraction_not_found, document_not_found,
  not_of_document,
}
use recon_ai.Review.Service.{or_error}
use recon_ai.Review.Service.Create.{
  NewTask, pending_task, task_for, insert_task, create_unless, create_review_task,
}

insert_task-found :
    (new : NewTask) (st st' : ReviewStore) (task : ReviewTask)
    → task_for new.extraction_result_id st ≡ none
    → insert_task new st ≡ ok (task, st')
    → task_for new.extraction_result_id st' ≡ some task
insert_task-found new st st' task absent h =
    let (extraction, found, h1) =
      bind-ok
        (or_error extraction_not_found
          (find (λ e. e.id == new.extraction_result_id) st.extractions))
        _ h in
    let (document, there, h2) =
      bind-ok (or_error document_not_found (find (λ d. d.id == new.document_id) st.documents)) _
        h1 in
    let (own, same) =
      guard-ok (not (extraction.document_id == new.document_id)) not_of_document _ h2 in
    let pairs = ok_injective _ _ same in
    subst (λ s. task_for new.extraction_result_id s ≡ some task) (ap (λ r. r.1) pairs)
      (find-append_none (λ t. t.extraction_result_id == new.extraction_result_id) st.tasks _ absent
        ∙ here extraction
        ∙ ap (λ r. some (r.0)) pairs)
  where
    here :
        (e : ExtractionResult)
        → find (λ t. t.extraction_result_id == new.extraction_result_id) (pending_task new e ∷ [])
          ≡ some (pending_task new e)
    here e = rw (==_refl new.extraction_result_id)

create_unless-found :
    (new : NewTask) (st st' : ReviewStore) (task : ReviewTask) (existing : Option ReviewTask)
    → task_for new.extraction_result_id st ≡ existing
    → create_unless new st existing ≡ ok (task, st')
    → task_for new.extraction_result_id st' ≡ some task
create_unless-found new st st' task none e h = insert_task-found new st st' task e h
create_unless-found new st st' task (some existing) e h =
    let same = ok_injective (existing, st) (task, st') h in
    subst (λ s. task_for new.extraction_result_id s ≡ some task) (ap (λ r. r.1) same)
      (e ∙ ap (λ r. some (r.0)) same)

-- Once a task has been created for an extraction, a further creation for it, with whatever reason,
-- priority or document, returns that task and changes nothing.
pub create_review_task-twice :
    (new again : NewTask) (st st' : ReviewStore) (task : ReviewTask)
    → create_review_task new st ≡ ok (task, st')
    → again.extraction_result_id ≡ new.extraction_result_id
    → create_review_task again st' ≡ ok (task, st')
unfolding create_review_task
create_review_task-twice new again st st' task h same = ap (create_unless again st') (
    ap (λ i. task_for i st') same
    ∙ create_unless-found new st st' task (task_for new.extraction_result_id st) refl h)
