-- ===== src/Jobs/Attempts.antt =====
-- The bound on attempts: a job is claimed at most `max_attempts` times, as long as nobody retries it by
-- hand.
use recon_ai.Prelude.{
  ℕ, Bool, true, false, List, ◌≡◌, refl, inl, inr, leb, ltb, All, Bool-cases, arith,
}
use recon_ai.Prelude.Text.{Text}
use recon_ai.Jobs.{Job, is_waiting, cancel_job}
use recon_ai.Jobs.Worker.{fail_or_retry, claimed, succeeded, failed}
use recon_ai.Jobs.Runs.{Run, KeptByJobs, Run-All}

-- No more attempts than allowed, and fewer while the job waits for another.
abbrev pub IsBounded : Job → Type 0
IsBounded job =
    (leb job.attempt_count job.max_attempts ≡ true)
    × (is_waiting job.status ≡ true → ltb job.attempt_count job.max_attempts ≡ true)

cancel_job-IsBounded : (now : ℕ) (job : Job) → IsBounded job → IsBounded (cancel_job now job)
unfolding cancel_job
cancel_job-IsBounded now job h = elim (Bool-cases (is_waiting job.status)) [
  | inl e ↦ rw e (h.0, λ w. cc w)
  | inr e ↦ rw e h
]

fail_or_retry-IsBounded :
    (code : Text) (now : ℕ) (job : Job) → IsBounded job → IsBounded (fail_or_retry code now job)
unfolding fail_or_retry
fail_or_retry-IsBounded code now job h =
    elim (Bool-cases (leb job.max_attempts job.attempt_count)) [
      | inl e ↦ rw e (h.0, λ w. cc w)
      | inr e ↦ rw e (h.0, λ w. ground (arith, e))
    ]

claimed-IsBounded :
    (worker_id : Text) (now : ℕ) (job : Job)
    → is_waiting job.status ≡ true
    → IsBounded job
    → IsBounded (claimed worker_id now job)
unfolding claimed
claimed-IsBounded worker_id now job waiting h =
    let fewer = h.1 waiting in (ground (arith, fewer), λ w. cc w)

failed-IsBounded :
    (code : Text) (is_permanent : Bool) (now : ℕ) (job : Job)
    → IsBounded job
    → IsBounded (failed code is_permanent now job)
unfolding failed
failed-IsBounded code true now job h = (h.0, λ w. cc w)
failed-IsBounded code false now job h = fail_or_retry-IsBounded code now job h

IsBounded-Kept : KeptByJobs false IsBounded
unfolding succeeded
IsBounded-Kept = record {
  fresh = λ id tenant t resource_type resource_id now. (refl, λ w. refl);
  retry_kept = λ allowed now j h. cc allowed;
  cancel_kept = λ now j h. cancel_job-IsBounded now j h;
  retry_or_fail_kept = λ code now j h. fail_or_retry-IsBounded code now j h;
  claim_kept = λ worker_id now j waiting h. claimed-IsBounded worker_id now j waiting h;
  success_kept = λ now j h. (h.0, λ w. cc w);
  failure_kept = λ code is_permanent now j h. failed-IsBounded code is_permanent now j h;
}

-- In any sequence of operations without a retry by hand, a job is claimed at most as often as it may
-- be attempted, and one that waits less often, where this holds at the start.
pub Run-IsBounded : (s t : List Job) → Run false s t → All IsBounded s → All IsBounded t
Run-IsBounded s t = Run-All false IsBounded IsBounded-Kept s t
