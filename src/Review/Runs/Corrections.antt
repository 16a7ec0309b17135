-- ===== src/Review/Runs/Corrections.antt =====
-- The parts of a successful correction, and what it does to the table of tasks.
use recon_ai.Prelude.{
  Bool, true, false, not, Option, none, some, List, [], ◌∷◌, ◌++◌, ◌≡◌, refl, sym, ap, subst, ◌∙◌,
  inl, inr, if◌then◌else◌, is_empty, any, ◌||◌, ==_refl, Bool-cases,
}
use recon_ai.Prelude.Text.{is_space, strip}
use recon_ai.Prelude.Json.{Fields}
use recon_ai.Prelude.Check.{ok, err, bind-ok, guard-ok, ok_injective}
use recon_ai.Domain.{DocumentType, ReviewAction, ReviewStatus}
use recon_ai.Extraction.Validator.{Candidate, ValidationResult, has_hard_validation_errors}
use recon_ai.Resolution.Model.{Uuid}
use recon_ai.Review.Transitions.{review_allowed, is_terminal_review}
use recon_ai.Review.Model.{
  ReviewTask, ExtractionResult, ReviewDecision, ReviewStore, Correction, Reviewing, CandidateModel,
  invalid_transition, no_corrections, no_candidate, result_mismatch, path_required, value_required,
}
use recon_ai.Review.Service.{
  Result, or_error, find_task, get_task, extraction_of, put_task, set_document_status,
  current_candidate, ensure_active, into_review, candidate_still_invalid, coerce_candidate,
}
use recon_ai.Review.Service.Correct.{
  path_error, apply_correction, apply_corrections, corrected_task, set_extraction, sync_result,
  sync_parsed, sync_detected, sync_extracted, sync_outcome, back_in_review, completed_task,
  finish_correction, correct, mismatched,
}
use recon_ai.Review.Paths.{get_field_value, set_field_value}
use recon_ai.Review.Runs.{decides, Effect, writes}
use recon_ai.Review.Runs.Moves.{get_task-ok, not-false}

-- Writing the outcome of a correction leaves the tasks and the trail alone.
abbrev pub SameTrail : ReviewStore → ReviewStore → Type 0
SameTrail st st' = (st'.tasks ≡ st.tasks) × (st'.decisions ≡ st.decisions)

module _ (task : ReviewTask) (candidate : Fields) (st : ReviewStore) where
  either-SameTrail :
      (b : Bool) (x y : ReviewStore)
      → SameTrail st x
      → SameTrail st y
      → SameTrail st (if b then x else y)
  either-SameTrail true x y p q = p
  either-SameTrail false x y p q = q

  sync_result-SameTrail :
      (e : ExtractionResult) (result : ValidationResult)
      → SameTrail st (sync_result task e result st)
  unfolding set_document_status set_extraction
  sync_result-SameTrail e result =
      either-SameTrail (has_hard_validation_errors result) _ _ (refl, refl)
        (either-SameTrail result.is_valid _ _ (refl, refl) (refl, refl))

  sync_parsed-SameTrail :
      (e : ExtractionResult) (detected : DocumentType) (parsed : Result (Option Candidate))
      → SameTrail st (sync_parsed task e detected parsed st)
  sync_parsed-SameTrail e detected (ok parsed) = sync_result-SameTrail e _
  sync_parsed-SameTrail e detected (err x) = (refl, refl)

  sync_detected-SameTrail :
      (model : CandidateModel) (e : ExtractionResult) (detected : Option DocumentType)
      → SameTrail st (sync_detected model task e detected candidate st)
  sync_detected-SameTrail model e none = (refl, refl)
  sync_detected-SameTrail model e (some d) =
      sync_parsed-SameTrail e d (coerce_candidate model d candidate)

  sync_extracted-SameTrail :
      (model : CandidateModel) (e : Option ExtractionResult)
      → SameTrail st (sync_extracted model task e candidate st)
  sync_extracted-SameTrail model none = (refl, refl)
  sync_extracted-SameTrail model (some e) = sync_detected-SameTrail model e e.detected_type

  pub sync_outcome-SameTrail :
      (model : CandidateModel) → SameTrail st (sync_outcome model task candidate st)
  unfolding sync_outcome
  sync_outcome-SameTrail model = sync_extracted-SameTrail model (extraction_of task st)

into_review_corrected :
    (s : ReviewStatus)
    → review_allowed (into_review s) ReviewStatus.corrected ≡ true
    → review_allowed s ReviewStatus.corrected ≡ true
unfolding review_allowed
into_review_corrected ReviewStatus.pending h = refl
into_review_corrected ReviewStatus.in_review h = refl
into_review_corrected ReviewStatus.corrected h = h
into_review_corrected ReviewStatus.approved h = h
into_review_corrected ReviewStatus.rejected h = h

active_open :
    (task : ReviewTask) (st : ReviewStore) (u : Unit {0})
    → ensure_active task st ≡ ok u
    → (task.status ≡ ReviewStatus.approved → ⊥) × (task.status ≡ ReviewStatus.rejected → ⊥)
unfolding ensure_active
active_open task st u h = (λ e. let bad = rw e at h in cc, λ e. let bad = rw e at h in cc)

-- The two ends of a correction, from the task as it was.
pub data Corrected (task task1 : ReviewTask) (by : Reviewing) (st1 : ReviewStore)
    : ReviewStore → Type 0 where
  sent_back :
      {st' : ReviewStore}
      → candidate_still_invalid task1 st1 ≡ true
      → put_task (back_in_review task1) st1 ≡ st'
      → Corrected task task1 by st1 st'
  closed :
      {st' : ReviewStore}
      → candidate_still_invalid task1 st1 ≡ false
      → review_allowed (into_review task.status) ReviewStatus.corrected ≡ true
      → put_task (completed_task task1 by) st1 ≡ st'
      → Corrected task task1 by st1 st'

finished :
    (task task1 : ReviewTask) (by : Reviewing) (st1 st' : ReviewStore)
    → finish_correction (into_review task.status) task1 by st1 ≡ ok st'
    → Corrected task task1 by st1 st'
unfolding finish_correction
finished task task1 by st1 st' h = elim (Bool-cases (candidate_still_invalid task1 st1)) [
  | inl e ↦ sent_back e (ok_injective _ _ (rw e at h))
  | inr e ↦
      let (allowed, same) =
        guard-ok (not (review_allowed (into_review task.status) ReviewStatus.corrected))
          invalid_transition _ (rw e at h) in
      closed e (not-false _ allowed) (ok_injective _ _ same)
]

-- What a successful correction has done: its parts.
pub record CorrectedBy (model : CandidateModel) (i : Uuid) (items : List Correction)
    (by : Reviewing) (st st' : ReviewStore) : Type 0 where
  pub task : ReviewTask
  pub working : Fields
  pub result : Fields × List ReviewDecision
  pub found : find_task i st ≡ some task
  pub nonempty : is_empty items ≡ false
  pub open_task :
      (task.status ≡ ReviewStatus.approved → ⊥) × (task.status ≡ ReviewStatus.rejected → ⊥)
  pub applied : apply_corrections task by working items ≡ ok result
  pub end :
      Corrected task
        (corrected_task task by (result.0))
        by
        (sync_outcome model task (result.0) (record st { decisions = st.decisions ++ result.1 }))
        st'

pub correct-CorrectedBy :
    (model : CandidateModel) (i : Uuid) (items : List Correction) (by : Reviewing)
    (st st' : ReviewStore)
    → correct model i items by st ≡ ok st'
    → CorrectedBy model i items by st st'
unfolding correct
correct-CorrectedBy model i items by st st' h =
    let (nonempty, h1) = guard-ok (is_empty items) no_corrections _ h in
    let (task, got, h2) = bind-ok (get_task i st) _ h1 in
    let (u, active, h3) = bind-ok (ensure_active task st) _ h2 in
    let (working, present, h4) = bind-ok (or_error no_candidate (current_candidate task st)) _ h3 in
    let (matching, h5) = guard-ok (mismatched task (extraction_of task st)) result_mismatch _ h4 in
    let (result, applied, h6) = bind-ok (apply_corrections task by working items) _ h5 in
    record {
      task = task;
      working = working;
      result = result;
      found = get_task-ok i st got;
      nonempty = nonempty;
      open_task = active_open task st u active;
      applied = applied;
      end = finished task (corrected_task task by (result.0)) by _ st' h6;
    }

-- Each correction leaves a decision of the task.
apply_correction-decides :
    (task : ReviewTask) (by : Reviewing) (working : Fields) (item : Correction)
    {r : Fields × ReviewDecision}
    → apply_correction task by working item ≡ ok r
    → decides ReviewAction.correct task.id (r.1) ≡ true
unfolding apply_correction
apply_correction-decides task by working item h =
    let path = strip is_space item.field_path in
    let (nonempty, h1) = guard-ok (is_empty path) path_required _ h in
    let (value, given, h2) = bind-ok (or_error value_required item.corrected_value) _ h1 in
    let (original, read, h3) = bind-ok (path_error (get_field_value working path)) _ h2 in
    let (working', written, h4) = bind-ok (path_error (set_field_value working path value)) _ h3 in
    let (new_value, read', same) = bind-ok (path_error (get_field_value working' path)) _ h4 in
    subst (λ d. decides ReviewAction.correct task.id d ≡ true)
      (ap (λ x. x.1) (ok_injective _ _ same)) (==_refl task.id)

apply_corrections-decides :
    (task : ReviewTask) (by : Reviewing) (working : Fields) (items : List Correction)
    {r : Fields × List ReviewDecision}
    → is_empty items ≡ false
    → apply_corrections task by working items ≡ ok r
    → any (decides ReviewAction.correct task.id) (r.1) ≡ true
unfolding apply_corrections
apply_corrections-decides task by working [] e h = cc
apply_corrections-decides task by working (item ∷ items) e h =
    let (first, one, h1) = bind-ok (apply_correction task by working item) _ h in
    let (others, rest, same) = bind-ok (apply_corrections task by (first.0) items) _ h1 in
    let own = apply_correction-decides task by working item one in
    subst (λ ds. any (decides ReviewAction.correct task.id) ds ≡ true)
      (ap (λ x. x.1) (ok_injective _ _ same))
      (ap (λ b. b || any (decides ReviewAction.correct task.id) (others.1)) own)

-- The end of a correction as a write of the task.
module _ (i : Uuid) (task : ReviewTask) (by : Reviewing) (c : Fields) (extra : List ReviewDecision)
    (st st1 st' : ReviewStore) (found : find_task i st ≡ some task)
    (trail : SameTrail (record st { decisions = st.decisions ++ extra }) st1)
    (own : any (decides ReviewAction.correct task.id) extra ≡ true)
    (open_task : (task.status ≡ ReviewStatus.approved → ⊥)
      × (task.status ≡ ReviewStatus.rejected → ⊥)) where
  put_tasks : (t : ReviewTask) → (put_task t st1).tasks ≡ (put_task t st).tasks
  unfolding put_task
  put_tasks t = rw (trail.0)

  put_decisions : (t : ReviewTask) → (put_task t st1).decisions ≡ st.decisions ++ extra
  unfolding put_task
  put_decisions t = trail.1

  end-Effect : Corrected task (corrected_task task by c) by st1 st' → Effect st st'
  unfolding put_task is_terminal_review candidate_still_invalid
  end-Effect (sent_back invalid same) =
      let task' = back_in_review (corrected_task task by c) in
      writes i task task' extra found (ap (λ s. s.tasks) (sym same) ∙ put_tasks task')
        (ap (λ s. s.decisions) (sym same) ∙ put_decisions task') refl
        (record {
          same_id = refl;
          same_document = refl;
          same_extraction = refl;
          not_promoted = refl;
          move = inr (
            refl,
            subst
                (λ s. candidate_still_invalid (back_in_review (corrected_task task by c)) s ≡ true)
                same invalid,
          );
          leaves_open = open_task;
          completed = λ e. refl;
        })
  end-Effect (closed valid allowed same) =
      let task' = completed_task (corrected_task task by c) by in
      writes i task task' extra found (ap (λ s. s.tasks) (sym same) ∙ put_tasks task')
        (ap (λ s. s.decisions) (sym same) ∙ put_decisions task') own
        (record {
          same_id = refl;
          same_document = refl;
          same_extraction = refl;
          not_promoted = refl;
          move = inl (into_review_corrected task.status allowed);
          leaves_open = open_task;
          completed = λ e. refl;
        })

pub correct-Effect :
    (model : CandidateModel) (i : Uuid) (items : List Correction) (by : Reviewing)
    (st st' : ReviewStore)
    → correct model i items by st ≡ ok st'
    → Effect st st'
correct-Effect model i items by st st' h =
    let parts = correct-CorrectedBy model i items by st st' h in
    let logged = record st { decisions = st.decisions ++ parts.result.1 } in
    end-Effect i parts.task by (parts.result.0) (parts.result.1) st
      (sync_outcome model parts.task (parts.result.0) logged) st' parts.found
      (sync_outcome-SameTrail parts.task (parts.result.0) logged model)
      (apply_corrections-decides parts.task by parts.working items parts.nonempty parts.applied)
      parts.open_task parts.end
