-- ===== src/Jobs/Tests.antt =====
-- A queue with one job.
use recon_ai.Prelude.{Bool, true, false, List, [], ◌∷◌, none, ◌≡◌, refl, All, any}
use recon_ai.Prelude.Text.{codes}
use recon_ai.Domain.{JobType}
use recon_ai.Jobs.{Job, new_job}
use recon_ai.Jobs.Worker.{
  unlocked, claimed as claimed_job, is_expired, recover_expired_leases, claim, mark_failed,
}
use recon_ai.Jobs.Claimed.{recover_expired_leases-settles, claim-exclusive}
use recon_ai.Jobs.Runs.{Run, begin, claimed, marked_failed}
use recon_ai.Jobs.Consistent.{IsConsistent, Run-IsConsistent}
use recon_ai.Jobs.Attempts.{IsBounded, Run-IsBounded}

abbrev jobs : List Job
jobs = new_job 1 7 JobType.llm_understand (codes "document") 9 100 ∷ []

-- The job is claimed by one worker, and fails.
abbrev after_failure : List Job
after_failure =
    mark_failed 1 (codes "worker_error") false 130
      (claim unlocked (codes "w") 120 (λ js. js) jobs).1

failing : (r : Bool) → Run r jobs after_failure
failing r =
    marked_failed r 1 (codes "worker_error") false 130 jobs
      (claim unlocked (codes "w") 120 (λ js. js) jobs).1
      (claimed r unlocked (codes "w") 120 (λ js. js) jobs jobs (begin r jobs)
        (begin r (recover_expired_leases 120 jobs).1))

Run-IsConsistent_example : All IsConsistent after_failure
Run-IsConsistent_example = Run-IsConsistent jobs after_failure (failing true) ((refl, refl), tt)

Run-IsBounded_example : All IsBounded after_failure
Run-IsBounded_example = Run-IsBounded jobs after_failure (failing false) ((refl, λ w. refl), tt)

claim-exclusive_example :
    (claim unlocked (codes "b") 120 (λ js. (claim unlocked (codes "a") 120 (λ x. x) js).1) jobs).0
    ≡ none
claim-exclusive_example = claim-exclusive (codes "a") (codes "b") 120 jobs

recover_expired_leases-settles_example :
    let after = (recover_expired_leases 120 jobs).1 in
    (any (is_expired 120) after ≡ false) × ((recover_expired_leases 120 after).1 ≡ after)
recover_expired_leases-settles_example = recover_expired_leases-settles 120 jobs

abbrev job : Job
job = new_job 1 7 JobType.llm_understand (codes "document") 9 100
