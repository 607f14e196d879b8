-- ===== src/Distributed/Queue.antt =====
-- coflowai/distributed/queue.py: `Job` and `InMemoryJobQueue`. A job object has one copy here: it
-- stands in the queue, among the jobs in flight or with the dead letters.
pub mod Places
pub mod Attempts
use coflowai.Base.{
  ℕ, ◌+◌, String, Option, none, some, Bool, ◌&&◌, List, [], ◌∷◌, ◌++◌, ltb, length, Value,
  if◌then◌else◌,
}
use coflowai.Base.Dict
use coflowai.Base.Dict.{Dict}
use coflowai.Policies.Policy.{PolicyDict}

pub record Job : Type 0 where
  pub kind : String
  pub execution_id : String
  pub executable : String
  pub input : Value
  pub policy : Option PolicyDict
  pub metadata : Dict Value
  pub job_id : String
  pub attempts : ℕ

pub record JobQueue : Type 0 where
  pub queue : List Job
  pub in_flight : Dict Job
  pub dead_letter : List Job
  pub max_attempts : ℕ

abbrev pub new_queue : ℕ → JobQueue
new_queue max_attempts = record {
  queue = [];
  in_flight = [];
  dead_letter = [];
  max_attempts = max_attempts;
}

unfoldable pub enqueue : JobQueue → Job → JobQueue
enqueue q job = record q { queue = q.queue ++ job ∷ [] }

-- `job.attempts += 1`
abbrev pub leased : Job → Job
leased job = record job { attempts = job.attempts + 1 }

-- `none` is the time out on an empty queue.
unfoldable pub dequeue_from : JobQueue → List Job → Option Job × JobQueue
dequeue_from q [] = (none, q)
dequeue_from q (job ∷ rest) = (
  some (leased job),
  record q { queue = rest; in_flight = Dict.put q.in_flight job.job_id (leased job) },
)

unfoldable pub dequeue : JobQueue → Option Job × JobQueue
unfolding dequeue_from
dequeue q = dequeue_from q q.queue

unfoldable pub ack : JobQueue → Job → JobQueue
ack q job = record q { in_flight = Dict.remove q.in_flight job.job_id }

unfoldable pub nack : JobQueue → Job → (requeue : Bool) → JobQueue
nack q job requeue =
    let in_flight' = Dict.remove q.in_flight job.job_id in
    if requeue && ltb job.attempts q.max_attempts
    then record q { in_flight = in_flight'; queue = q.queue ++ job ∷ [] }
    else record q { in_flight = in_flight'; dead_letter = q.dead_letter ++ job ∷ [] }

unfoldable pub depth : JobQueue → ℕ
depth q = length q.queue
