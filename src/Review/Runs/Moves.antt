-- ===== src/Review/Runs/Moves.antt =====
-- What each operation but a correction does to the table of tasks.
use recon_ai.Prelude.{
  Bool, true, false, not, Option, none, some, [], ◌∷◌, ◌++◌, ◌≡◌, refl, sym, ap, subst, ◌∙◌, inl,
  is_some, any, ◌==◌, ==_iff, ==_refl,
}
use recon_ai.Prelude.Text.{Text}
use recon_ai.Prelude.Check.{Check, ok, bind-ok, guard-ok, ok_injective}
use recon_ai.Prelude.Table.{find, update_where, opt_map, find-put_row, find-holds}
use recon_ai.Domain.{ReviewAction, ReviewStatus}
use recon_ai.Resolution.Model.{Uuid}
use recon_ai.Review.Transitions.{review_allowed, is_terminal_review}
use recon_ai.Review.Model.{
  ReviewTask, ReviewStore, Reviewing, CandidateModel, ReviewError, task_not_found,
  extraction_not_found, document_not_found, not_of_document, invalid_transition,
}
use recon_ai.Review.Service.{
  or_error, find_task, get_task, extraction_of, put_task, current_candidate, ensure_active,
  into_review, start_review, refuse_if_extracted, check_approvable, approved_task, task_decision,
  approve, rejected_task, reject, replaced_by,
}
use recon_ai.Review.Service.Create.{
  NewTask, create_unless, insert_task, task_for, create_review_task,
}
use recon_ai.Review.Runs.{same_action, decides, Moved, Effect, writes, inserts, leaves}
use mathlib.Core.List.{append-nil}

pub or_error-ok :
    {A : Type 0} (e : ReviewError) (o : Option A) {a : A} → or_error e o ≡ ok a → o ≡ some a
or_error-ok e none h = cc
or_error-ok e (some a) h = cc

pub get_task-ok :
    (i : Uuid) (st : ReviewStore) {t : ReviewTask} → get_task i st ≡ ok t → find_task i st ≡ some t
unfolding get_task
get_task-ok i st h = or_error-ok task_not_found (find_task i st) h

pub some_injective : {A : Type 0} (a b : A) → some a ≡ some b → a ≡ b
some_injective a b h = cc

pub find_task-put_task :
    (task task' : ReviewTask) (st : ReviewStore) (i : Uuid)
    → find_task i st ≡ some task
    → task'.id ≡ task.id
    → find_task i (put_task task' st) ≡ some task'
unfolding put_task
find_task-put_task task task' st i found same =
    let here : (task.id == i) ≡ true = find-holds (λ t. t.id == i) st.tasks task found in
    let id_here : task.id ≡ i = (==_iff task.id i).0 here in
    let id_new : task'.id ≡ i = same ∙ id_here in
    subst
      (λ n.
        find (λ t. t.id == i) (update_where (λ t. t.id == n) (λ t. task') st.tasks) ≡ some task')
      (sym id_new)
      (find-put_row (λ t. t.id == i) task' ((==_iff task'.id i).1 id_new) st.tasks
        ∙ ap (opt_map (λ x. task')) found)

pub allowed_open :
    (s s' : ReviewStatus)
    → review_allowed s s' ≡ true
    → (s ≡ ReviewStatus.approved → ⊥) × (s ≡ ReviewStatus.rejected → ⊥)
unfolding review_allowed
allowed_open ReviewStatus.pending s' h = (λ e. cc, λ e. cc)
allowed_open ReviewStatus.in_review s' h = (λ e. cc, λ e. cc)
allowed_open ReviewStatus.corrected s' h = (λ e. cc, λ e. cc)
allowed_open ReviewStatus.approved s' h = cc
allowed_open ReviewStatus.rejected s' h = cc

pub not-false : (b : Bool) → not b ≡ false → b ≡ true
not-false true h = refl
not-false false h = cc

-- A task that is taken into review.
started_completed :
    (s : ReviewStatus) (b : Bool)
    → review_allowed s ReviewStatus.in_review ≡ true
    → b ≡ is_terminal_review s
    → b ≡ is_terminal_review ReviewStatus.in_review
unfolding review_allowed is_terminal_review
started_completed ReviewStatus.pending b h e = e
started_completed ReviewStatus.in_review b h e = e
started_completed ReviewStatus.corrected b h e = cc
started_completed ReviewStatus.approved b h e = cc
started_completed ReviewStatus.rejected b h e = cc

started-Moved :
    (task : ReviewTask) (assigned : Option Text) (st' : ReviewStore)
    → review_allowed task.status ReviewStatus.in_review ≡ true
    → Moved st' task (record task { status = ReviewStatus.in_review; assigned_to = assigned })
started-Moved task assigned st' h = record {
  same_id = refl;
  same_document = refl;
  same_extraction = refl;
  not_promoted = refl;
  move = inl h;
  leaves_open = allowed_open task.status ReviewStatus.in_review h;
  completed = started_completed task.status (is_some task.completed_at) h;
}

pub start_review-Effect :
    (i : Uuid) (reviewer : Option Text) (st st' : ReviewStore)
    → start_review i reviewer st ≡ ok st'
    → Effect st st'
unfolding start_review
start_review-Effect i reviewer st st' h =
    let (task, got, rest) = bind-ok (get_task i st) _ h in
    let (allowed, same) =
      guard-ok (not (review_allowed task.status ReviewStatus.in_review)) invalid_transition _
        rest in
    writes i task _ [] (get_task-ok i st got) (ap (λ s. s.tasks) (sym (ok_injective _ _ same)))
      (ap (λ s. s.decisions) (sym (ok_injective _ _ same)) ∙ sym (append-nil st.decisions)) refl
      (started-Moved task (replaced_by task.assigned_to reviewer) st' (not-false _ allowed))

same_action_refl : (a : ReviewAction) → same_action a a ≡ true
same_action_refl ReviewAction.approve = refl
same_action_refl ReviewAction.correct = refl
same_action_refl ReviewAction.reject = refl

-- The decision that goes with a write is the task's own.
own_decision :
    (task : ReviewTask) (action : ReviewAction) (by : Reviewing)
    → any (decides action task.id) (task_decision task action by ∷ []) ≡ true
own_decision task action by = rw (same_action_refl action, ==_refl task.id)

-- What `check_approvable` lets through.
pub approvable_allowed :
    (s : ReviewStatus) → check_approvable s ≡ ok tt → review_allowed s ReviewStatus.approved ≡ true
unfolding review_allowed
approvable_allowed ReviewStatus.pending h = refl
approvable_allowed ReviewStatus.in_review h = refl
approvable_allowed ReviewStatus.corrected h = refl
approvable_allowed ReviewStatus.approved h = cc
approvable_allowed ReviewStatus.rejected h = cc

approved-Moved :
    (task : ReviewTask) (by : Reviewing) (st st' : ReviewStore)
    → review_allowed task.status ReviewStatus.approved ≡ true
    → Moved st' task (approved_task task by st)
unfolding is_terminal_review
approved-Moved task by st st' h = record {
  same_id = refl;
  same_document = refl;
  same_extraction = refl;
  not_promoted = refl;
  move = inl h;
  leaves_open = allowed_open task.status ReviewStatus.approved h;
  completed = λ e. refl;
}

pub unit_ok : (m : Check ReviewError (Unit {0})) (u : Unit {0}) → m ≡ ok u → m ≡ ok tt
unit_ok m tt h = h

pub approve-Effect :
    (model : CandidateModel) (i : Uuid) (by : Reviewing) (st st' : ReviewStore)
    → approve model i by st ≡ ok st'
    → Effect st st'
unfolding approve
approve-Effect model i by st st' h =
    let (task, got, rest) = bind-ok (get_task i st) _ h in
    let (u, unrefused, rest') =
      bind-ok (refuse_if_extracted model (extraction_of task st) (current_candidate task st)) _
        rest in
    let (v, approvable, same) = bind-ok (check_approvable task.status) _ rest' in
    writes i task (approved_task task by st) (task_decision task ReviewAction.approve by ∷ [])
      (get_task-ok i st got) (ap (λ s. s.tasks) (sym (ok_injective _ _ same)))
      (ap (λ s. s.decisions) (sym (ok_injective _ _ same)))
      (own_decision task ReviewAction.approve by)
      (approved-Moved task by st st'
        (approvable_allowed task.status (unit_ok (check_approvable task.status) v approvable)))

into_review_rejected :
    (s : ReviewStatus)
    → review_allowed (into_review s) ReviewStatus.rejected ≡ true
    → review_allowed s ReviewStatus.rejected ≡ true
unfolding review_allowed
into_review_rejected ReviewStatus.pending h = refl
into_review_rejected ReviewStatus.in_review h = refl
into_review_rejected ReviewStatus.corrected h = h
into_review_rejected ReviewStatus.approved h = h
into_review_rejected ReviewStatus.rejected h = h

rejected-Moved :
    (task : ReviewTask) (by : Reviewing) (st' : ReviewStore)
    → review_allowed task.status ReviewStatus.rejected ≡ true
    → Moved st' task (rejected_task task by)
unfolding is_terminal_review
rejected-Moved task by st' h = record {
  same_id = refl;
  same_document = refl;
  same_extraction = refl;
  not_promoted = refl;
  move = inl h;
  leaves_open = allowed_open task.status ReviewStatus.rejected h;
  completed = λ e. refl;
}

pub reject-Effect :
    (i : Uuid) (by : Reviewing) (st st' : ReviewStore) → reject i by st ≡ ok st' → Effect st st'
unfolding reject
reject-Effect i by st st' h =
    let (task, got, rest) = bind-ok (get_task i st) _ h in
    let (u, active, rest') = bind-ok (ensure_active task st) _ rest in
    let (allowed, same) =
      guard-ok (not (review_allowed (into_review task.status) ReviewStatus.rejected))
        invalid_transition _ rest' in
    writes i task (rejected_task task by) (task_decision task ReviewAction.reject by ∷ [])
      (get_task-ok i st got) (ap (λ s. s.tasks) (sym (ok_injective _ _ same)))
      (ap (λ s. s.decisions) (sym (ok_injective _ _ same)))
      (own_decision task ReviewAction.reject by)
      (rejected-Moved task by st' (into_review_rejected task.status (not-false _ allowed)))

insert_task-Effect :
    (new : NewTask) (st st' : ReviewStore) (task : ReviewTask)
    → insert_task new st ≡ ok (task, st')
    → Effect st st'
insert_task-Effect new st st' task h =
    let (extraction, found, h1) =
      bind-ok
        (or_error extraction_not_found
          (find (λ e. e.id == new.extraction_result_id) st.extractions))
        _ h in
    let (document, there, h2) =
      bind-ok (or_error document_not_found (find (λ d. d.id == new.document_id) st.documents)) _
        h1 in
    let (own, same) =
      guard-ok (not (extraction.document_id == new.document_id)) not_of_document _ h2 in
    let pairs = ok_injective _ _ same in
    inserts task (ap (λ r. (r.1).tasks) (sym pairs) ∙ ap (λ r. st.tasks ++ r.0 ∷ []) pairs)
      (ap (λ r. (r.1).decisions) (sym pairs)) (ap (λ r. (r.0).status) (sym pairs))
      (ap (λ r. (r.0).completed_at) (sym pairs))

create_unless-Effect :
    (new : NewTask) (st st' : ReviewStore) (task : ReviewTask) (existing : Option ReviewTask)
    → create_unless new st existing ≡ ok (task, st')
    → Effect st st'
create_unless-Effect new st st' task (some existing) h =
    let same = sym (ok_injective (existing, st) (task, st') h) in
    leaves (ap (λ r. (r.1).tasks) same) (ap (λ r. (r.1).decisions) same)
create_unless-Effect new st st' task none h = insert_task-Effect new st st' task h

pub create_review_task-Effect :
    (new : NewTask) (st st' : ReviewStore) (task : ReviewTask)
    → create_review_task new st ≡ ok (task, st')
    → Effect st st'
unfolding create_review_task
create_review_task-Effect new st st' task h =
    create_unless-Effect new st st' task (task_for new.extraction_result_id st) h
