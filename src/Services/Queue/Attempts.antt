-- ===== src/Services/Queue/Attempts.antt =====
-- No job is started more often than five times.
use owen_main.Common.{ℕ, ◌≤◌, ◌<◌, List, [], ◌∷◌, ◌≢◌, Option, All}
use owen_main.Services.Queue.{
  Status, pending, running, done, failed, Job, max_attempts, enqueue, claim_one, complete, fail,
}

-- At most five starts, and fewer for a job that waits to be started.
abbrev pub Within : Status → ℕ → Type 0
Within pending n = n < max_attempts
Within running n = n ≤ max_attempts
Within done n = n ≤ max_attempts
Within failed n = n ≤ max_attempts

abbrev pub Bounded : Job → Type 0
Bounded job = Within job.status job.attempts

-- The row is that of another job.
abbrev Other : ℕ → Job → Type 0
Other id job = job.id ≢ id

abbrev pub Distinct : List Job → Type 0
Distinct [] = Unit
Distinct (job ∷ jobs) = All (Other job.id) jobs × Distinct jobs

-- Well-formed tables: each number once, and each job bounded.
abbrev pub Fine : List Job → Type 0
Fine jobs = Distinct jobs × All Bounded jobs

-- The moves of the workers; a new job has a number of its own, and the jobs that end are any.
pub data Moves : List Job → Type 0 where
  start : Moves []
  enqueuing :
      {jobs : List Job} (id delay now : ℕ)
      → Moves jobs
      → All (Other id) jobs
      → Moves (enqueue id delay now jobs)
  claiming : {jobs : List Job} (now : ℕ) → Moves jobs → Moves (claim_one now jobs).1
  completing : {jobs : List Job} (job : Job) → Moves jobs → Moves (complete job jobs)
  failing : {jobs : List Job} (now : ℕ) (job : Job) → Moves jobs → Moves (fail now job jobs)
