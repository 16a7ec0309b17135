-- ===== src/Jobs.antt =====
-- app/services/job_service.py: the queue of background jobs. The database table is a list of rows in
-- the order of their insertion. One reading of the clock serves a whole operation. The error message
-- and the correlation id, which nothing reads, are left out.
mod Tests
pub mod Worker
pub mod Claimed
pub mod Runs
pub mod Consistent
pub mod Attempts
use recon_ai.Prelude.{
  ℕ, suc, ◌+◌, ◌-◌, Bool, true, false, not, ◌&&◌, ◌||◌, List, [], ◌∷◌, ◌++◌, Option, none, some,
  ltb, leb, ◌==◌, if◌then◌else◌, length, filter,
}
use recon_ai.Prelude.Text.{Text, codes, text_eq, str_uuid}
use recon_ai.Domain.{JobStatus, JobType}
use recon_ai.Prelude.Table.{find, update_where}

abbrev pub Uuid : Type 0
Uuid = ℕ

pub data ErrorCategory : Type 0 where
  permanent transient : ErrorCategory

-- `ProcessingJob`; times are in seconds.
pub record Job : Type 0 where
  pub id : Uuid
  pub tenant_id : Uuid
  pub job_type : JobType
  pub status : JobStatus
  pub resource_type : Text
  pub resource_id : Uuid
  pub idempotency_key : Text
  pub attempt_count : ℕ
  pub max_attempts : ℕ
  pub run_after : ℕ
  pub leased_until : Option ℕ
  pub leased_by : Option Text
  pub started_at : Option ℕ
  pub finished_at : Option ℕ
  pub error_category : Option ErrorCategory
  pub error_code : Option Text
  pub created_at : ℕ

abbrev pub is_running : JobStatus → Bool
is_running JobStatus.running = true
is_running _ = false

abbrev pub is_failed : JobStatus → Bool
is_failed JobStatus.failed = true
is_failed _ = false

-- QUEUED or RETRY_SCHEDULED.
abbrev pub is_waiting : JobStatus → Bool
is_waiting JobStatus.queued = true
is_waiting JobStatus.retry_scheduled = true
is_waiting _ = false

-- `_ACTIVE`
abbrev pub is_active : JobStatus → Bool
is_active s = is_waiting s || is_running s

abbrev pub job_type_value : JobType → Text
job_type_value JobType.document_understand = codes "document_understand"
job_type_value JobType.llm_understand = codes "llm_understand"

-- The tenant filter of a read: without a tenant it hides nothing.
abbrev pub is_visible : Option Uuid → Job → Bool
is_visible none job = true
is_visible (some t) job = job.tenant_id == t

-- `text[:64]`
abbrev pub take : ℕ → Text → Text
take n [] = []
take n (c ∷ t) = let rest = take (n - 1) t in if n == 0 then [] else c ∷ rest

unfoldable pub job_key : JobType → Uuid → Text
job_key t i = job_type_value t ++ (codes ":" ++ str_uuid i)

abbrev pub new_job : Uuid → Uuid → JobType → Text → Uuid → ℕ → Job
new_job id tenant t resource_type resource_id now = record {
  id = id;
  tenant_id = tenant;
  job_type = t;
  status = JobStatus.queued;
  resource_type = resource_type;
  resource_id = resource_id;
  idempotency_key = job_key t resource_id;
  attempt_count = 0;
  max_attempts = 3;
  run_after = now;
  leased_until = none;
  leased_by = none;
  started_at = none;
  finished_at = none;
  error_category = none;
  error_code = none;
  created_at = now;
}

-- What `enqueue` returns: the RuntimeError, or the job and whether it was there.
pub data Enqueued : Type 0 where
  no_tenant : Enqueued
  queued_job : Job → Bool → Enqueued

-- The job that is there, or the new one, inserted.
abbrev pub or_insert : Job → List Job → Option Job → Enqueued × List Job
or_insert new jobs (some existing) = (queued_job existing true, jobs)
or_insert new jobs none = (queued_job new false, jobs ++ new ∷ [])

unfoldable pub enqueue :
    Option Uuid → Uuid → JobType → Text → Uuid → ℕ → List Job → Enqueued × List Job
enqueue none id t resource_type resource_id now jobs = (no_tenant, jobs)
enqueue (some tenant) id t resource_type resource_id now jobs =
    or_insert (new_job id tenant t resource_type resource_id now) jobs (
      find
        (λ j.
          is_visible (some tenant) j
          && (text_eq j.idempotency_key (job_key t resource_id) && is_active j.status))
        jobs)

-- `get`: none where it raises JobNotFoundError.
unfoldable pub get : Option Uuid → Uuid → List Job → Option Job
get tenant id jobs = find (λ j. j.id == id && is_visible tenant j) jobs

abbrev pub retried : ℕ → Job → Job
retried now job = record job {
  status = JobStatus.queued;
  run_after = now;
  finished_at = none;
  error_category = none;
  error_code = none;
  leased_until = none;
  leased_by = none;
}

-- A change of the rows that the caller sees under an id.
abbrev pub change : Option Uuid → Uuid → (Job → Job) → List Job → List Job
change tenant id f = update_where (λ j. j.id == id && is_visible tenant j) f

-- A change of the row that `get` found, if it found one.
abbrev pub change_found :
    Option Uuid → Uuid → (Job → Job) → List Job → Option Job → Option Job × List Job
change_found tenant id f jobs none = (none, jobs)
change_found tenant id f jobs (some job) = (some (f job), change tenant id f jobs)

-- `retry`: a job that has not failed is left as it is.
unfoldable pub retry_job : ℕ → Job → Job
retry_job now job = if is_failed job.status then retried now job else job

unfoldable pub retry : Option Uuid → Uuid → ℕ → List Job → Option Job × List Job
retry tenant id now jobs = change_found tenant id (retry_job now) jobs (get tenant id jobs)

unfoldable pub cancel_job : ℕ → Job → Job
cancel_job now job =
    if is_waiting job.status
    then record job { status = JobStatus.cancelled; finished_at = some now }
    else job

unfoldable pub cancel : Option Uuid → Uuid → ℕ → List Job → Option Job × List Job
cancel tenant id now jobs = change_found tenant id (cancel_job now) jobs (get tenant id jobs)
