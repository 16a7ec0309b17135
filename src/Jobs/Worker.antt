-- ===== src/Jobs/Worker.antt =====
-- app/services/job_service.py, the worker's side of the queue, and app/workers/runner.py.
use recon_ai.Prelude.{
  ℕ, zero, suc, ◌+◌, Bool, true, false, not, ◌&&◌, List, [], ◌∷◌, Option, none, some, ltb, leb,
  ◌==◌, if◌then◌else◌, length, filter, is_empty,
}
use recon_ai.Prelude.Text.{Text, codes}
use recon_ai.Domain.{JobStatus}
use recon_ai.Prelude.Table.{find, update_where}
use recon_ai.Jobs.{Uuid, Job, permanent, transient, is_running, is_waiting, take}

-- `_LEASE`
abbrev pub lease : ℕ
lease = 300

-- `_BACKOFF_SECONDS[min(attempt_count, 3) - 1]`; the index -1 is the last.
unfoldable pub backoff : ℕ → ℕ
backoff attempts =
    if attempts == 0 then 60 else if attempts == 1 then 5 else if attempts == 2 then 20 else 60

-- `_fail_or_retry`
unfoldable pub fail_or_retry : Text → ℕ → Job → Job
fail_or_retry code now job =
    let row = record job {
      error_code = some (take 64 code);
      leased_until = none;
      leased_by = none;
      error_category = some transient;
    } in
    if leb job.max_attempts job.attempt_count
    then record row { status = JobStatus.failed; finished_at = some now }
    else record row {
      status = JobStatus.retry_scheduled;
      run_after = now + backoff job.attempt_count;
      finished_at = none;
    }

abbrev pub lease_before : ℕ → Option ℕ → Bool
lease_before now none = false
lease_before now (some until) = ltb until now

abbrev pub is_expired : ℕ → Job → Bool
is_expired now job = is_running job.status && lease_before now job.leased_until

-- `recover_expired_leases`: the number of the rows it changes, and the rows.
unfoldable pub recover_expired_leases : ℕ → List Job → ℕ × List Job
recover_expired_leases now jobs = (
  length (filter (is_expired now) jobs),
  update_where (is_expired now) (fail_or_retry (codes "lease_expired") now) jobs,
)

abbrev pub is_due : ℕ → Job → Bool
is_due now job = is_waiting job.status && leb job.run_after now

-- The first of the oldest: `order_by(created_at).limit(1)`.
abbrev pub older : Job → Option Job → Job
older job none = job
older job (some best) = if ltb best.created_at job.created_at then best else job

unfoldable pub oldest_due : ℕ → List Job → Option Job
oldest_due now [] = none
oldest_due now (job ∷ jobs) =
    let rest = oldest_due now jobs in if is_due now job then some (older job rest) else rest

abbrev pub status_index : JobStatus → ℕ
status_index JobStatus.queued = 0
status_index JobStatus.running = 1
status_index JobStatus.succeeded = 2
status_index JobStatus.failed = 3
status_index JobStatus.retry_scheduled = 4
status_index JobStatus.cancelled = 5

unfoldable pub claimed : Text → ℕ → Job → Job
claimed worker_id now job = record job {
  status = JobStatus.running;
  attempt_count = suc job.attempt_count;
  leased_until = some (now + lease);
  leased_by = some worker_id;
  started_at = some now;
}

-- The row that the conditional update changes.
abbrev pub is_unchanged : Job → Job → Bool
is_unchanged candidate job =
    job.id == candidate.id && status_index job.status == status_index candidate.status

-- The database: PostgreSQL, with the rows that other transactions hold locked, or one without row locks,
-- as SQLite.
pub data Database : Type 0 where
  postgresql : (Job → Bool) → Database
  unlocked : Database

-- The candidate: with `FOR UPDATE SKIP LOCKED`, the oldest due job that nobody has locked.
abbrev pub read_candidate : Database → ℕ → List Job → Option Job
read_candidate (postgresql locked) now jobs = oldest_due now (filter (λ j. not (locked j)) jobs)
read_candidate unlocked now jobs = oldest_due now jobs

-- The rows when the candidate is updated, after what others commit: with its lock held, its row is as it was.
abbrev pub committed : Database → Job → (List Job → List Job) → List Job → List Job
committed (postgresql locked) candidate others jobs =
    update_where (λ j. j.id == candidate.id) (λ j. candidate) (others jobs)
committed unlocked candidate others jobs = others jobs

-- The conditional update of the candidate, on the rows that other workers have left. No row, and it is
-- rolled back; else the candidate is read again.
abbrev pub take_candidate :
    Database → Text → ℕ → Option Job → List Job → (List Job → List Job) → Option Job × List Job
take_candidate database worker_id now none jobs others = (none, jobs)
take_candidate database worker_id now (some candidate) jobs others =
    let found = committed database candidate others jobs in
    if is_empty (filter (is_unchanged candidate) found) then (none, found) else (
      find (λ j. j.id == candidate.id)
          (update_where (is_unchanged candidate) (claimed worker_id now) found),
      update_where (is_unchanged candidate) (claimed worker_id now) found,
    )

-- `claim`; `others` is what other workers commit between its read and its update.
unfoldable pub claim :
    Database → Text → ℕ → (List Job → List Job) → List Job → Option Job × List Job
claim database worker_id now others jobs =
    let recovered = (recover_expired_leases now jobs).1 in
    take_candidate database worker_id now (read_candidate database now recovered) recovered others

unfoldable pub succeeded : ℕ → Job → Job
succeeded now job = record job {
  status = JobStatus.succeeded;
  finished_at = some now;
  leased_until = none;
  error_category = none;
  error_code = none;
}

-- `mark_succeeded`; an unknown id changes nothing.
unfoldable pub mark_succeeded : Uuid → ℕ → List Job → List Job
mark_succeeded id now jobs = update_where (λ j. j.id == id) (succeeded now) jobs

unfoldable pub failed : Text → Bool → ℕ → Job → Job
failed code is_permanent now job =
    if is_permanent
    then record job {
      status = JobStatus.failed;
      error_category = some permanent;
      finished_at = some now;
      leased_until = none;
      error_code = some (take 64 code);
    }
    else fail_or_retry code now job

-- `mark_failed`
unfoldable pub mark_failed : Uuid → Text → Bool → ℕ → List Job → List Job
mark_failed id code is_permanent now jobs =
    update_where (λ j. j.id == id) (failed code is_permanent now) jobs

-- How `_dispatch` ends: it returns, it raises one of `_PERMANENT`, or another exception.
pub data Dispatched : Type 0 where
  finished other_error : Dispatched
  permanent_error : Text → Dispatched

-- `_execute`
unfoldable pub execute : (Job → Dispatched) → Job → ℕ → List Job → List Job
execute dispatch job now jobs = elim (dispatch job) [
  | finished ↦ mark_succeeded job.id now jobs
  | permanent_error name ↦ mark_failed job.id name true now jobs
  | other_error ↦ mark_failed job.id (codes "worker_error") false now jobs
]

-- `run_available`: the number of the jobs it claims; round `n` runs at the time `clock n`.
unfoldable pub run_available :
    Database → (Job → Dispatched) → Text → (ℕ → ℕ) → ℕ → List Job → ℕ × List Job
run_available database dispatch worker_id clock zero jobs = (0, jobs)
run_available database dispatch worker_id clock (suc limit) jobs =
    let taken = claim database worker_id (clock limit) (λ js. js) jobs in
    elim taken.0 [
      | none ↦ (0, taken.1)
      | some job ↦
          let rest =
            run_available database dispatch worker_id clock limit
              (execute dispatch job (clock limit) taken.1) in
          (suc rest.0, rest.1)
    ]
