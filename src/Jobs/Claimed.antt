-- ===== src/Jobs/Claimed.antt =====
-- `claim` and `recover_expired_leases`: expired leases, and two workers that read the queue at once, with and
-- without row locks.
use recon_ai.Prelude.{
  some, ℕ, Bool, true, false, List, [], ◌∷◌, none, some, ◌≡◌, refl, ap, ◌∙◌, inl, inr, ◌==◌,
  if◌then◌else◌, any, filter, is_empty, Bool-cases, Option-cases, leb, arith,
}
use recon_ai.Prelude.Text.{Text, codes}
use recon_ai.Domain.{JobStatus}
use recon_ai.Prelude.Table.{update_where}
use recon_ai.Jobs.{Job, is_running, is_waiting}
use recon_ai.Jobs.Worker.{
  unlocked, fail_or_retry, is_expired, recover_expired_leases, is_due, oldest_due, status_index,
  claimed, is_unchanged, take_candidate, claim,
}
use recon_ai.Jobs.Runs.{oldest_due-is_due}

-- The loop of a recovery.
abbrev recovered : ℕ → List Job → List Job
recovered now jobs = update_where (is_expired now) (fail_or_retry (codes "lease_expired") now) jobs

fail_or_retry-not_running :
    (code : Text) (now : ℕ) (job : Job) → is_running (fail_or_retry code now job).status ≡ false
unfolding fail_or_retry
fail_or_retry-not_running code now job =
    elim (Bool-cases (leb job.max_attempts job.attempt_count)) [ inl e ↦ rw e | inr e ↦ rw e ]

not_expired : (now : ℕ) (job : Job) → is_running job.status ≡ false → is_expired now job ≡ false
not_expired now job e = rw e

recovered-none_expired :
    (now : ℕ) (jobs : List Job) → any (is_expired now) (recovered now jobs) ≡ false
recovered-none_expired now [] = refl
recovered-none_expired now (job ∷ jobs) =
    let rest = recovered-none_expired now jobs in
    let first = settled (is_expired now job) refl in ground (arith, rest, first)
  where
    settled :
        (b : Bool)
        → is_expired now job ≡ b
        → is_expired now (if b then fail_or_retry (codes "lease_expired") now job else job) ≡ false
    settled true e =
        not_expired now (fail_or_retry (codes "lease_expired") now job)
          (fail_or_retry-not_running (codes "lease_expired") now job)
    settled false e = e

update_where-none :
    (p : Job → Bool) (f : Job → Job) (xs : List Job) → any p xs ≡ false → update_where p f xs ≡ xs
update_where-none p f [] h = refl
update_where-none p f (x ∷ xs) h =
    let here : p x ≡ false = ground (arith, h) in
    let rest : any p xs ≡ false = ground (arith, h) in
    (rw here) ∙ ap (λ l. x ∷ l) (update_where-none p f xs rest)

-- After a recovery no job runs under a lease that has passed, and a second recovery at that time
-- changes nothing.
pub recover_expired_leases-settles :
    (now : ℕ) (jobs : List Job)
    → let after = (recover_expired_leases now jobs).1 in
      (any (is_expired now) after ≡ false) × ((recover_expired_leases now after).1 ≡ after)
unfolding recover_expired_leases
recover_expired_leases-settles now jobs =
    let none_left = recovered-none_expired now jobs in
    (none_left, update_where-none (is_expired now) _ (recovered now jobs) none_left)

waiting-not_taken :
    (s : JobStatus)
    → is_waiting s ≡ true
    → (status_index JobStatus.running == status_index s) ≡ false
waiting-not_taken JobStatus.queued h = refl
waiting-not_taken JobStatus.retry_scheduled h = refl
waiting-not_taken JobStatus.running h = cc
waiting-not_taken JobStatus.succeeded h = cc
waiting-not_taken JobStatus.failed h = cc
waiting-not_taken JobStatus.cancelled h = cc

module _ (worker_id : Text) (now : ℕ) (c : Job) (waiting : is_waiting c.status ≡ true) where
  filter-drop :
      (x : Job) (l : List Job)
      → is_unchanged c x ≡ false
      → filter (is_unchanged c) l ≡ []
      → filter (is_unchanged c) (x ∷ l) ≡ []
  filter-drop x l e h = (rw e) ∙ h

  claimed-changed : (x : Job) → is_unchanged c (claimed worker_id now x) ≡ false
  unfolding claimed
  claimed-changed x = let gone = waiting-not_taken c.status waiting in ground (arith, gone)

  -- Once taken, a row is not what was read.
  taken-filter :
      (xs : List Job)
      → filter (is_unchanged c) (update_where (is_unchanged c) (claimed worker_id now) xs) ≡ []
  taken-filter [] = refl
  taken-filter (x ∷ xs) = elim (Bool-cases (is_unchanged c x)) [
    | inl e ↦
        rw (e, update_where)
          (filter-drop (claimed worker_id now x) _ (claimed-changed x) (taken-filter xs))
    | inr e ↦ rw (e, update_where) (filter-drop x _ e (taken-filter xs))
  ]

  pub nothing-left :
      (jobs : List Job)
      → is_empty
          (filter (is_unchanged c) (take_candidate unlocked worker_id now (some c) jobs (λ x. x)).1)
        ≡ true
  nothing-left jobs = elim (Bool-cases (is_empty (filter (is_unchanged c) jobs))) [
    | inl e ↦ rw e e
    | inr e ↦ rw e (ap is_empty (taken-filter jobs))
  ]

  pub candidate-lost :
      (jobs : List Job) (others : List Job → List Job)
      → is_empty (filter (is_unchanged c) (others jobs)) ≡ true
      → (take_candidate unlocked worker_id now (some c) jobs others).0 ≡ none
  candidate-lost jobs others gone = rw gone

-- On a database without row locks: where the whole claim of one worker falls between another's read of the
-- queue and its update, at the same time, the other gets no job.
pub claim-exclusive :
    (first second : Text) (now : ℕ) (jobs : List Job)
    → (claim unlocked second now (λ js. (claim unlocked first now (λ x. x) js).1) jobs).0 ≡ none
unfolding claim
claim-exclusive first second now jobs =
    let read = (recover_expired_leases now jobs).1 in
    let others = λ (js : List Job). (claim unlocked first now (λ x. x) js).1 in
    elim (Option-cases (oldest_due now read)) [
      | inl e ↦ ap (λ o. (take_candidate unlocked second now o read others).0) e
      | inr (c, e) ↦
          let waiting = due-waiting c (oldest_due-is_due now read c e) in
          let inner : others read ≡ (take_candidate unlocked first now (some c) read (λ x. x)).1 =
            ap (λ js. (take_candidate unlocked first now (oldest_due now js) js (λ x. x)).1)
              (recover_expired_leases-settles now jobs).1
            ∙ ap (λ o. (take_candidate unlocked first now o read (λ x. x)).1) e in
          ap (λ o. (take_candidate unlocked second now o read others).0) e
          ∙ candidate-lost second now c waiting read others (
              ap (λ js. is_empty (filter (is_unchanged c) js)) inner
              ∙ nothing-left first now c waiting read)
    ]
  where
    due-waiting : (c : Job) → is_due now c ≡ true → is_waiting c.status ≡ true
    due-waiting c h = ground (arith, h)

-- The rows that hold a candidate as it was read, and its update.
module _ (worker_id : Text) (now : ℕ) (c : Job) where
  abbrev kept : List Job → List Job
  kept rows = update_where (λ j. j.id == c.id) (λ j. c) rows
