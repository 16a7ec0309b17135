-- ===== src/Review/Runs/Decided.antt =====
-- The audit trail has a decision for every closed review task.
use recon_ai.Prelude.{true, List, [], ◌∷◌, ◌++◌, ◌≡◌, refl, sym, subst, ◌==◌, All, All-append}
use recon_ai.Prelude.Table.{any-append_left, any-append_right, All-put_row, All-map}
use recon_ai.Domain.{ReviewAction, ReviewStatus}
use recon_ai.Resolution.Model.{Uuid}
use recon_ai.Review.Model.{ReviewTask, ReviewDecision, ReviewStore, CandidateModel}
use recon_ai.Review.Service.{put_task}
use recon_ai.Review.Runs.{Run, done, next, Effect, writes, inserts, leaves, decides, decided}
use recon_ai.Review.Runs.Final.{Step-Effect}

decided_before :
    (s : ReviewStatus) (i : Uuid) (ds es : List ReviewDecision)
    → decided s i ds ≡ true
    → decided s i (ds ++ es) ≡ true
decided_before ReviewStatus.approved i ds es h =
    any-append_left (decides ReviewAction.approve i) ds es h
decided_before ReviewStatus.corrected i ds es h =
    any-append_left (decides ReviewAction.correct i) ds es h
decided_before ReviewStatus.rejected i ds es h =
    any-append_left (decides ReviewAction.reject i) ds es h
decided_before ReviewStatus.pending i ds es h = refl
decided_before ReviewStatus.in_review i ds es h = refl

decided_after :
    (s : ReviewStatus) (i : Uuid) (ds es : List ReviewDecision)
    → decided s i es ≡ true
    → decided s i (ds ++ es) ≡ true
decided_after ReviewStatus.approved i ds es h =
    any-append_right (decides ReviewAction.approve i) ds es h
decided_after ReviewStatus.corrected i ds es h =
    any-append_right (decides ReviewAction.correct i) ds es h
decided_after ReviewStatus.rejected i ds es h =
    any-append_right (decides ReviewAction.reject i) ds es h
decided_after ReviewStatus.pending i ds es h = refl
decided_after ReviewStatus.in_review i ds es h = refl

abbrev pub IsDecided : List ReviewDecision → ReviewTask → Type 0
IsDecided ds t = decided t.status t.id ds ≡ true

abbrev pub AllDecided : ReviewStore → Type 0
AllDecided st = All (IsDecided st.decisions) st.tasks

pending-IsDecided :
    (t : ReviewTask) (ds : List ReviewDecision) → t.status ≡ ReviewStatus.pending → IsDecided ds t
pending-IsDecided t ds h = subst (λ s. decided s t.id ds ≡ true) (sym h) refl

module _ (st st' : ReviewStore) where
  with_trail :
      (tasks : List ReviewTask) (ds : List ReviewDecision)
      → (st'.tasks ≡ tasks)
      → (st'.decisions ≡ ds)
      → All (IsDecided ds) tasks
      → AllDecided st'
  with_trail tasks ds same trail all =
      subst (λ d. All (IsDecided d) st'.tasks) (sym trail)
        (subst (All (IsDecided ds)) (sym same) all)

  Effect-decided : Effect st st' → AllDecided st → AllDecided st'
  unfolding put_task
  Effect-decided (writes j task task' extra found written trail own moved) all =
      with_trail _ (st.decisions ++ extra) written trail (
        All-put_row (IsDecided (st.decisions ++ extra)) (λ t. t.id == task'.id) (λ t. task')
          (λ t h. decided_after task'.status task'.id st.decisions extra own) st.tasks
          (All-map (IsDecided st.decisions) (IsDecided (st.decisions ++ extra))
            (λ t h. decided_before t.status t.id st.decisions extra h) st.tasks all))
  Effect-decided (inserts task tasks trail pending fresh) all =
      with_trail (st.tasks ++ task ∷ []) st.decisions tasks trail (
        All-append (IsDecided st.decisions) st.tasks (task ∷ []) all
          (pending-IsDecided task st.decisions pending, tt))
  Effect-decided (leaves same trail) all = with_trail st.tasks st.decisions same trail all

-- Whatever operations run, each approved, corrected or rejected task has a decision of that kind in the
-- trail, where the tasks at the start have.
pub Run-AllDecided :
    (model : CandidateModel) {st st' : ReviewStore}
    → AllDecided st
    → Run model st st'
    → AllDecided st'
Run-AllDecided model all done = all
Run-AllDecided model {st'} all (next {mid} run step) =
    Effect-decided mid st' (Step-Effect model mid st' step) (Run-AllDecided model all run)
