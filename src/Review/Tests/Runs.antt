-- ===== src/Review/Tests/Runs.antt =====
-- The theorems on the review at the concrete tasks.
use recon_ai.Prelude.{[], ◌∷◌, none, some, ◌≡◌, refl, ◌⊎◌, All}
use recon_ai.Prelude.Text.{codes, text_eq}
use recon_ai.Prelude.Json.{Json, num}
use recon_ai.Prelude.Check.{ok}
use recon_ai.Domain.{ReviewPriority, ReviewStatus}
use recon_ai.Review.Coercion.{coerce_correction_value}
use recon_ai.Review.Paths.{path_segments, get_field_value}
use recon_ai.Review.Paths.Laws.{leaf_name, get_field_value-set_field_value}
use recon_ai.Review.Paths.Frame.{set_field_value-kept}
use recon_ai.Review.Transitions.{is_terminal_review}
use recon_ai.Review.Model.{ReviewTask, ReviewStore}
use recon_ai.Review.Service.{find_task}
use recon_ai.Review.Service.Create.{NewTask, create_review_task}
use recon_ai.Review.Runs.{done, next, corrected, approved, created, Refines}
use recon_ai.Review.Runs.Final.{IsSettled, Step-Refines, Run-final, Run-IsSettled}
use recon_ai.Review.Runs.Decided.{AllDecided, Run-AllDecided}
use recon_ai.Review.Runs.Eligible.{IsCorrected, IsSentBack, correct-After}
use recon_ai.Review.Runs.Created.{create_review_task-twice}
use recon_ai.Review.Tests.{
  candidate, path, repaired, sets, model, task, st, ann, item, fixed_task, fixed, approved_store,
  fixes, approves,
}

get_field_value-set_field_value_example :
    (w : Json) × (coerce_correction_value (leaf_name (path_segments path)) (num (codes "2.50"))
      ≡ ok w)
    × (get_field_value repaired path ≡ ok w)
get_field_value-set_field_value_example =
    get_field_value-set_field_value candidate repaired path (num (codes "2.50")) sets

set_field_value-kept_example :
    get_field_value repaired (codes "grn_number") ≡ get_field_value candidate (codes "grn_number")
unfolding path_segments text_eq
set_field_value-kept_example =
    set_field_value-kept candidate repaired path (codes "grn_number") (num (codes "2.50")) sets refl

Step-Refines_example : Refines st fixed
Step-Refines_example = Step-Refines model st fixed (corrected 1 (item ∷ []) ann fixes)

abbrev again : NewTask
again = record {
  id = 9;
  document_id = 2;
  extraction_result_id = 3;
  reason = none;
  priority = ReviewPriority.low;
  assigned_to = none;
}

abbrev final_task : ReviewTask
final_task = record fixed_task { status = ReviewStatus.approved }

exists : create_review_task again approved_store ≡ ok (final_task, approved_store)
unfolding create_review_task
exists = refl

Run-final_example : find_task 1 approved_store ≡ some final_task
Run-final_example =
    Run-final model 1 final_task refl refl (next done (created again final_task exists))

unsettled : All IsSettled st.tasks
unfolding is_terminal_review
unsettled = (refl, tt)

Run-IsSettled_example : All IsSettled approved_store.tasks
Run-IsSettled_example =
    Run-IsSettled model unsettled
      (next (next done (corrected 1 (item ∷ []) ann fixes)) (approved 1 ann approves))

Run-AllDecided_example : AllDecided approved_store
Run-AllDecided_example =
    Run-AllDecided model {st = st} (refl, tt)
      (next (next done (corrected 1 (item ∷ []) ann fixes)) (approved 1 ann approves))

correct-After_example :
    (task' : ReviewTask) × (find_task 1 fixed ≡ some task')
    × (IsCorrected task task' fixed ⊎ IsSentBack task' fixed)
correct-After_example = correct-After model 1 (item ∷ []) ann st fixed task refl fixes

abbrev empty_store : ReviewStore
empty_store = record st { tasks = [] }

created_once :
    create_review_task again empty_store
    ≡ ok (
      record task { id = 9; priority = ReviewPriority.low },
      record st { tasks = record task { id = 9; priority = ReviewPriority.low } ∷ [] },
    )
unfolding create_review_task
created_once = refl

create_review_task-twice_example :
    create_review_task
      (record again { id = 10 })
      (record st { tasks = record task { id = 9; priority = ReviewPriority.low } ∷ [] })
    ≡ ok (
      record task { id = 9; priority = ReviewPriority.low },
      record st { tasks = record task { id = 9; priority = ReviewPriority.low } ∷ [] },
    )
create_review_task-twice_example =
    create_review_task-twice again (record again { id = 10 }) empty_store _ _ created_once refl
