-- ===== src/Services/Queue/Examples.antt =====
-- A job that is claimed.
use owen_main.Common.{List, []}
use owen_main.Services.Queue.{Job, enqueue, claim_one}
use owen_main.Services.Queue.Attempts.{Moves, start, enqueuing, claiming}

-- Number 7, due at once.
abbrev waiting : List Job
waiting = enqueue 7 0 100 []

abbrev claimed_once : Moves (claim_one 100 waiting).1
claimed_once = claiming 100 (enqueuing 7 0 100 start tt)
