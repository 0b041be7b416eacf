-- ===== src/Services/Queue.antt =====
-- backend/app/services/queue.py: the table of jobs. A job is known by a number, times are numbers of
-- seconds; the type, the payload and the text of the last error are left out.
pub mod Attempts
mod Examples
use owen_main.Common.{
  ℕ, suc, ◌+◌, ◌*◌, List, [], ◌∷◌, ◌++◌, Bool, true, false, ◌&&◌, Option, none, some, leb, ltb,
  ◌==◌, if◌then◌else◌,
}

pub data Status : Type 0 where
  pending running done failed : Status

pub record Job : Type 0 where
  pub id : ℕ
  pub status : Status
  pub attempts : ℕ
  pub run_after : ℕ

abbrev pub max_attempts : ℕ
max_attempts = 5

-- A new row: `run_after` is the time of the insertion unless there is a delay.
unfoldable pub enqueue : ℕ → ℕ → ℕ → List Job → List Job
enqueue id delay now jobs =
    jobs ++ (record { id = id; status = pending; attempts = 0; run_after = now + delay } ∷ [])

unfoldable pub is_due : ℕ → Job → Bool
is_due now job = elim job.status [ pending ↦ leb job.run_after now | _ ↦ false ]

unfoldable pub sooner : Job → Option Job → Option Job
sooner job none = some job
sooner job (some other) = if leb job.run_after other.run_after then some job else some other

-- `ORDER BY run_after LIMIT 1` over the jobs that are due.
unfoldable pub next_due : ℕ → List Job → Option Job
unfolding is_due sooner
next_due now [] = none
next_due now (job ∷ jobs) =
    let rest = next_due now jobs in if is_due now job then sooner job rest else rest

-- A change of the row with that number.
unfoldable pub change : (Job → Job) → ℕ → List Job → List Job
change f id [] = []
change f id (job ∷ jobs) =
    let rest = change f id jobs in if job.id == id then f job ∷ rest else job ∷ rest

unfoldable pub start_run : Job → Job
start_run job = record job { status = running; attempts = suc job.attempts }

unfoldable pub claim_found : Option Job → List Job → Option Job × List Job
unfolding change start_run
claim_found none jobs = (none, jobs)
claim_found (some job) jobs = (some (start_run job), change start_run job.id jobs)

unfoldable pub claim_one : ℕ → List Job → Option Job × List Job
unfolding next_due claim_found
claim_one now jobs = claim_found (next_due now jobs) jobs

unfoldable pub end_run : Job → Job
end_run job = record job { status = done }

unfoldable pub complete : Job → List Job → List Job
unfolding change end_run
complete job jobs = change end_run job.id jobs

-- The row is the one that was claimed, so its attempts are those of the job at hand.
unfoldable pub fail_run : ℕ → Job → Job
fail_run now job =
    if leb max_attempts job.attempts
    then record job { status = failed }
    else record job { status = pending; run_after = now + 30 * job.attempts }

unfoldable pub fail : ℕ → Job → List Job → List Job
unfolding change fail_run
fail now job jobs = change (fail_run now) job.id jobs
