-- ===== src/Jobs/Consistent.antt =====
-- What the columns of a job say of one another, whatever sequence of operations has run.
use recon_ai.Prelude.{
  ℕ, Bool, true, false, not, ◌||◌, List, ◌≡◌, refl, ◌∙◌, inl, inr, is_some, All, Bool-cases, leb,
}
use recon_ai.Prelude.Text.{Text}
use recon_ai.Domain.{JobStatus}
use recon_ai.Jobs.{Job, is_running, is_failed, is_waiting, retry_job, cancel_job}
use recon_ai.Jobs.Runs.{Run, KeptByJobs, Run-All}
use recon_ai.Jobs.Worker.{fail_or_retry, claimed, succeeded, failed}

-- SUCCEEDED, FAILED or CANCELLED.
abbrev pub is_finished : JobStatus → Bool
is_finished s = not (is_waiting s || is_running s)

-- A job is leased exactly while it is running, and has an end exactly when it is finished.
abbrev pub IsConsistent : Job → Type 0
IsConsistent job =
    (is_some job.leased_until ≡ is_running job.status)
    × (is_some job.finished_at ≡ is_finished job.status)

waiting-not_running : (s : JobStatus) → is_waiting s ≡ true → is_running s ≡ false
waiting-not_running JobStatus.queued h = refl
waiting-not_running JobStatus.running h = cc
waiting-not_running JobStatus.succeeded h = refl
waiting-not_running JobStatus.failed h = refl
waiting-not_running JobStatus.retry_scheduled h = refl
waiting-not_running JobStatus.cancelled h = refl

waiting-not_finished : (s : JobStatus) → is_waiting s ≡ true → is_finished s ≡ false
waiting-not_finished JobStatus.queued h = refl
waiting-not_finished JobStatus.running h = refl
waiting-not_finished JobStatus.succeeded h = cc
waiting-not_finished JobStatus.failed h = cc
waiting-not_finished JobStatus.retry_scheduled h = refl
waiting-not_finished JobStatus.cancelled h = cc

pub retry_job-IsConsistent :
    (now : ℕ) (job : Job) → IsConsistent job → IsConsistent (retry_job now job)
unfolding retry_job
retry_job-IsConsistent now job h = elim (Bool-cases (is_failed job.status)) [
  | inl e ↦ rw e (refl, refl)
  | inr e ↦ rw e h
]

pub cancel_job-IsConsistent :
    (now : ℕ) (job : Job) → IsConsistent job → IsConsistent (cancel_job now job)
unfolding cancel_job
cancel_job-IsConsistent now job h = elim (Bool-cases (is_waiting job.status)) [
  | inl e ↦ rw e (h.0 ∙ waiting-not_running job.status e, refl)
  | inr e ↦ rw e h
]

pub fail_or_retry-IsConsistent :
    (code : Text) (now : ℕ) (job : Job) → IsConsistent (fail_or_retry code now job)
unfolding fail_or_retry
fail_or_retry-IsConsistent code now job =
    elim (Bool-cases (leb job.max_attempts job.attempt_count)) [
      | inl e ↦ rw e (refl, refl)
      | inr e ↦ rw e (refl, refl)
    ]

pub failed-IsConsistent :
    (code : Text) (b : Bool) (now : ℕ) (job : Job) → IsConsistent (failed code b now job)
unfolding failed
failed-IsConsistent code true now job = (refl, refl)
failed-IsConsistent code false now job = fail_or_retry-IsConsistent code now job

claimed-IsConsistent :
    (worker_id : Text) (now : ℕ) (job : Job)
    → is_waiting job.status ≡ true
    → IsConsistent job
    → IsConsistent (claimed worker_id now job)
unfolding claimed
claimed-IsConsistent worker_id now job waiting h =
    (refl, h.1 ∙ waiting-not_finished job.status waiting)

-- Every operation keeps the columns consistent.
IsConsistent-Kept : KeptByJobs true IsConsistent
unfolding succeeded
IsConsistent-Kept = record {
  fresh = λ id tenant t resource_type resource_id now. (refl, refl);
  retry_kept = λ allowed now j h. retry_job-IsConsistent now j h;
  cancel_kept = λ now j h. cancel_job-IsConsistent now j h;
  retry_or_fail_kept = λ code now j h. fail_or_retry-IsConsistent code now j;
  claim_kept = λ worker_id now j waiting h. claimed-IsConsistent worker_id now j waiting h;
  success_kept = λ now j h. (refl, refl);
  failure_kept = λ code is_permanent now j h. failed-IsConsistent code is_permanent now j;
}

-- Whatever operations run on the queue, by whatever workers, a job is leased exactly while it is
-- running and has an end exactly when it has succeeded, failed or been cancelled, where the jobs at
-- the start are so.
pub Run-IsConsistent : (s t : List Job) → Run true s t → All IsConsistent s → All IsConsistent t
Run-IsConsistent s t = Run-All true IsConsistent IsConsistent-Kept s t
