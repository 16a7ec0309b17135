-- ===== src/Jobs/Runs.antt =====
-- Sequences of operations on the queue, with the operations of other workers between the two halves
-- of a claim.
use recon_ai.Prelude.{
  not, subst, ℕ, Bool, true, false, ◌&&◌, List, [], ◌∷◌, Option, none, some, ◌≡◌, refl, ◌==◌, All,
  All-append, Bool-cases, inl, inr, is_empty, filter, if◌then◌else◌, ltb, sym, ◌∙◌, arith,
}
use recon_ai.Prelude.Text.{Text, codes}
use recon_ai.Domain.{JobStatus, JobType}
use recon_ai.Prelude.Table.{update_where}
use recon_ai.Jobs.{
  Uuid, Job, is_visible, new_job, or_insert, enqueue, change_found, retry_job, retry, cancel_job,
  cancel, is_waiting,
}
use recon_ai.Jobs.Worker.{
  Database, postgresql, unlocked, read_candidate, committed, fail_or_retry, is_expired,
  recover_expired_leases, older, oldest_due, is_due, status_index, is_unchanged,
  claimed as claimed_job, take_candidate, claim, succeeded, mark_succeeded, failed, mark_failed,
}

-- `Run r s t`: some sequence of operations leads from the rows `s` to the rows `t`; `retry` is among
-- them only where `r` is true.
pub data Run : Bool → List Job → List Job → Type 0 where
  begin : (r : Bool) (s : List Job) → Run r s s
  enqueued :
      (r : Bool) (tenant : Option Uuid) (id : Uuid) (t : JobType) (resource_type : Text)
      (resource_id : Uuid) (now : ℕ) (s jobs : List Job)
      → Run r s jobs
      → Run r s (enqueue tenant id t resource_type resource_id now jobs).1
  retried :
      (r : Bool) (allowed : r ≡ true) (tenant : Option Uuid) (id : Uuid) (now : ℕ)
      (s jobs : List Job)
      → Run r s jobs
      → Run r s (retry tenant id now jobs).1
  cancelled :
      (r : Bool) (tenant : Option Uuid) (id : Uuid) (now : ℕ) (s jobs : List Job)
      → Run r s jobs
      → Run r s (cancel tenant id now jobs).1
  recovered :
      (r : Bool) (now : ℕ) (s jobs : List Job)
      → Run r s jobs
      → Run r s (recover_expired_leases now jobs).1
  claimed :
      (r : Bool) (database : Database) (worker_id : Text) (now : ℕ) (others : List Job → List Job)
      (s jobs : List Job)
      → Run r s jobs
      → Run r (recover_expired_leases now jobs).1 (others (recover_expired_leases now jobs).1)
      → Run r s (claim database worker_id now others jobs).1
  marked_succeeded :
      (r : Bool) (id : Uuid) (now : ℕ) (s jobs : List Job)
      → Run r s jobs
      → Run r s (mark_succeeded id now jobs)
  marked_failed :
      (r : Bool) (id : Uuid) (code : Text) (is_permanent : Bool) (now : ℕ) (s jobs : List Job)
      → Run r s jobs
      → Run r s (mark_failed id code is_permanent now jobs)

pub All-update_where :
    {A : Type 0} (P : A → Type 0) (p : A → Bool) (f : A → A)
    → ((x : A) → p x ≡ true → P x → P (f x))
    → (xs : List A) → All P xs
    → All P (update_where p f xs)
All-update_where P p f keeps [] h = tt
All-update_where P p f keeps (x ∷ xs) h = (either (p x) refl, All-update_where P p f keeps xs h.1)
  where
    either : (b : Bool) → p x ≡ b → P (if b then f x else x)
    either true e = keeps x e h.0
    either false e = h.0

-- A status of the same index as one that waits.
pub is_waiting-same :
    (s t : JobStatus)
    → (status_index s == status_index t) ≡ true
    → is_waiting t ≡ true
    → is_waiting s ≡ true
is_waiting-same JobStatus.queued JobStatus.queued e h = refl
is_waiting-same JobStatus.running JobStatus.queued e h = cc
is_waiting-same JobStatus.succeeded JobStatus.queued e h = cc
is_waiting-same JobStatus.failed JobStatus.queued e h = cc
is_waiting-same JobStatus.retry_scheduled JobStatus.queued e h = refl
is_waiting-same JobStatus.cancelled JobStatus.queued e h = cc
is_waiting-same s JobStatus.running e h = cc
is_waiting-same s JobStatus.succeeded e h = cc
is_waiting-same s JobStatus.failed e h = cc
is_waiting-same JobStatus.queued JobStatus.retry_scheduled e h = refl
is_waiting-same JobStatus.running JobStatus.retry_scheduled e h = cc
is_waiting-same JobStatus.succeeded JobStatus.retry_scheduled e h = cc
is_waiting-same JobStatus.failed JobStatus.retry_scheduled e h = cc
is_waiting-same JobStatus.retry_scheduled JobStatus.retry_scheduled e h = refl
is_waiting-same JobStatus.cancelled JobStatus.retry_scheduled e h = cc
is_waiting-same s JobStatus.cancelled e h = cc

older-is_due :
    (now : ℕ) (job : Job) (o : Option Job)
    → is_due now job ≡ true
    → ((c : Job) → o ≡ some c → is_due now c ≡ true)
    → is_due now (older job o) ≡ true
older-is_due now job none due rest = due
older-is_due now job (some best) due rest = elim (Bool-cases (ltb best.created_at job.created_at)) [
  | inl e ↦ rw e (rest best refl)
  | inr e ↦ rw e due
]

-- What `claim` reads is due.
pub oldest_due-is_due :
    (now : ℕ) (jobs : List Job) (c : Job) → oldest_due now jobs ≡ some c → is_due now c ≡ true
unfolding oldest_due
oldest_due-is_due now [] c h = cc
oldest_due-is_due now (job ∷ jobs) c h = elim (Bool-cases (is_due now job)) [
  | inl due ↦
      let found : some (older job (oldest_due now jobs)) ≡ some c = sym (rw due) ∙ h in
      let same : older job (oldest_due now jobs) ≡ c = cc found in
      rw same at (older-is_due now job (oldest_due now jobs) due (oldest_due-is_due now jobs))
  | inr not_due ↦
      let found : oldest_due now jobs ≡ some c = sym (rw not_due) ∙ h in
      oldest_due-is_due now jobs c found
]

pub oldest_due-All :
    (P : Job → Type 0) (now : ℕ) (jobs : List Job)
    → All P jobs
    → (c : Job) → oldest_due now jobs ≡ some c
    → P c
unfolding oldest_due
oldest_due-All P now [] h c found = cc
oldest_due-All P now (job ∷ jobs) h c found =
    let later : (x : Job) → oldest_due now jobs ≡ some x → P x = oldest_due-All P now jobs h.1 in
    elim (Bool-cases (is_due now job)) [
      | inl due ↦
          let same : some (older job (oldest_due now jobs)) ≡ some c = sym (rw due) ∙ found in
          subst P (cc same) (either (oldest_due now jobs) later)
      | inr not_due ↦ later c (sym (rw not_due) ∙ found)
    ]
  where
    either : (o : Option Job) → ((x : Job) → o ≡ some x → P x) → P (older job o)
    either none rest = h.0
    either (some best) rest = chosen (ltb best.created_at job.created_at) (rest best refl)
      where
        chosen : (b : Bool) → P best → P (if b then best else job)
        chosen true ok = ok
        chosen false ok = h.0

filter-All : (P : Job → Type 0) (p : Job → Bool) (xs : List Job) → All P xs → All P (filter p xs)
filter-All P p [] h = tt
filter-All P p (x ∷ xs) h = kept (p x) (filter-All P p xs h.1)
  where
    kept : (b : Bool) → All P (filter p xs) → All P (if b then x ∷ filter p xs else filter p xs)
    kept true rest = (h.0, rest)
    kept false rest = rest

-- What `claim` reads, whatever the database, is one of the rows, and due.
pub read_candidate-All :
    (P : Job → Type 0) (database : Database) (now : ℕ) (jobs : List Job)
    → All P jobs
    → (c : Job) → read_candidate database now jobs ≡ some c
    → P c
read_candidate-All P (postgresql locked) now jobs h =
    oldest_due-All P now (filter (λ j. not (locked j)) jobs)
      (filter-All P (λ j. not (locked j)) jobs h)
read_candidate-All P unlocked now jobs h = oldest_due-All P now jobs h

pub read_candidate-is_due :
    (database : Database) (now : ℕ) (jobs : List Job) (c : Job)
    → read_candidate database now jobs ≡ some c
    → is_due now c ≡ true
read_candidate-is_due (postgresql locked) now jobs =
    oldest_due-is_due now (filter (λ j. not (locked j)) jobs)
read_candidate-is_due unlocked now jobs = oldest_due-is_due now jobs

due-waiting : (now : ℕ) (c : Job) → is_due now c ≡ true → is_waiting c.status ≡ true
due-waiting now c h = ground (arith, h)

-- A property of jobs that no operation takes away; `retry` is considered only where `r` is true.
pub record KeptByJobs (r : Bool) (P : Job → Type 0) : Type 0 where
  pub fresh :
      (id tenant : Uuid) (t : JobType) (resource_type : Text) (resource_id : Uuid) (now : ℕ)
      → P (new_job id tenant t resource_type resource_id now)
  pub retry_kept : r ≡ true → (now : ℕ) (j : Job) → P j → P (retry_job now j)
  pub cancel_kept : (now : ℕ) (j : Job) → P j → P (cancel_job now j)
  pub retry_or_fail_kept : (code : Text) (now : ℕ) (j : Job) → P j → P (fail_or_retry code now j)
  pub claim_kept :
      (worker_id : Text) (now : ℕ) (j : Job)
      → is_waiting j.status ≡ true
      → P j
      → P (claimed_job worker_id now j)
  pub success_kept : (now : ℕ) (j : Job) → P j → P (succeeded now j)
  pub failure_kept :
      (code : Text) (is_permanent : Bool) (now : ℕ) (j : Job)
      → P j
      → P (failed code is_permanent now j)

module _ (r : Bool) (P : Job → Type 0) (kept : KeptByJobs r P) where
  or_insert-All :
      (new : Job) (jobs : List Job) (o : Option Job)
      → P new
      → All P jobs
      → All P (or_insert new jobs o).1
  or_insert-All new jobs none ok h = All-append P jobs (new ∷ []) h (ok, tt)
  or_insert-All new jobs (some existing) ok h = h

  enqueue-All :
      (tenant : Option Uuid) (id : Uuid) (t : JobType) (resource_type : Text) (resource_id : Uuid)
      (now : ℕ) (jobs : List Job)
      → All P jobs
      → All P (enqueue tenant id t resource_type resource_id now jobs).1
  unfolding enqueue
  enqueue-All none id t resource_type resource_id now jobs h = h
  enqueue-All (some tenant) id t resource_type resource_id now jobs h =
      or_insert-All (new_job id tenant t resource_type resource_id now) jobs _
        (kept.fresh id tenant t resource_type resource_id now) h

  change_found-All :
      (tenant : Option Uuid) (id : Uuid) (f : Job → Job) (jobs : List Job) (o : Option Job)
      → ((j : Job) → P j → P (f j))
      → All P jobs
      → All P (change_found tenant id f jobs o).1
  change_found-All tenant id f jobs none keeps h = h
  change_found-All tenant id f jobs (some job) keeps h =
      All-update_where P (λ j. j.id == id && is_visible tenant j) f (λ j e c. keeps j c) jobs h

  recover-All : (now : ℕ) (jobs : List Job) → All P jobs → All P (recover_expired_leases now jobs).1
  unfolding recover_expired_leases
  recover-All now jobs h =
      let code = codes "lease_expired" in
      All-update_where P (is_expired now) (fail_or_retry code now)
        (λ j e c. kept.retry_or_fail_kept code now j c) jobs h

  committed-All :
      (database : Database) (c : Job) (others : List Job → List Job) (jobs : List Job)
      → P c
      → All P (others jobs)
      → All P (committed database c others jobs)
  committed-All (postgresql locked) c others jobs ok h =
      All-update_where P (λ j. j.id == c.id) (λ j. c) (λ j e x. ok) (others jobs) h
  committed-All unlocked c others jobs ok h = h

  take_candidate-All :
      (database : Database) (worker_id : Text) (now : ℕ) (o : Option Job) (jobs : List Job)
      (others : List Job → List Job)
      → ((c : Job) → o ≡ some c → is_due now c ≡ true)
      → ((c : Job) → o ≡ some c → P c)
      → All P jobs
      → All P (others jobs)
      → All P (take_candidate database worker_id now o jobs others).1
  take_candidate-All database worker_id now none jobs others due ok h after = h
  take_candidate-All database worker_id now (some c) jobs others due ok h after =
      let found = committed-All database c others jobs (ok c refl) after in
      elim (Bool-cases (is_empty (filter (is_unchanged c) (committed database c others jobs)))) [
        | inl e ↦ rw e found
        | inr e ↦ rw e (
            All-update_where P (is_unchanged c) (claimed_job worker_id now)
              (λ job same ok.
                kept.claim_kept worker_id now job
                  (is_waiting-same job.status c.status (ground (arith, same))
                    (due-waiting now c (due c refl)))
                  ok)
              (committed database c others jobs) found)
      ]

  -- What every operation keeps holds after any sequence of them.
  pub Run-All : (s t : List Job) → Run r s t → All P s → All P t
  unfolding retry cancel claim mark_succeeded mark_failed
  Run-All _ _ (begin r s) h = h
  Run-All _ _ (enqueued r tenant id ty resource_type resource_id now s jobs before) h =
      enqueue-All tenant id ty resource_type resource_id now jobs (Run-All s jobs before h)
  Run-All _ _ (retried r allowed tenant id now s jobs before) h =
      change_found-All tenant id (retry_job now) jobs _ (kept.retry_kept allowed now)
        (Run-All s jobs before h)
  Run-All _ _ (cancelled r tenant id now s jobs before) h =
      change_found-All tenant id (cancel_job now) jobs _ (kept.cancel_kept now)
        (Run-All s jobs before h)
  Run-All _ _ (recovered r now s jobs before) h = recover-All now jobs (Run-All s jobs before h)
  Run-All _ _ (claimed r database worker_id now others s jobs before between) h =
      let read = (recover_expired_leases now jobs).1 in
      let ok = recover-All now jobs (Run-All s jobs before h) in
      take_candidate-All database worker_id now (read_candidate database now read) read others
        (read_candidate-is_due database now read) (read_candidate-All P database now read ok) ok
        (Run-All read (others read) between ok)
  Run-All _ _ (marked_succeeded r id now s jobs before) h =
      All-update_where P (λ j. j.id == id) (succeeded now) (λ j e c. kept.success_kept now j c) jobs
        (Run-All s jobs before h)
  Run-All _ _ (marked_failed r id code is_permanent now s jobs before) h =
      All-update_where P (λ j. j.id == id) (failed code is_permanent now)
        (λ j e c. kept.failure_kept code is_permanent now j c) jobs (Run-All s jobs before h)
