-- ===== src/Distributed/Queue/Attempts.antt =====
-- The runs of `InMemoryJobQueue` of coflowai/distributed/queue.py: the steps that a service and its
-- workers make, with the answers of `run_once` of coflowai/distributed/worker.py, and what holds of
-- every queue that they reach.
use coflowai.Base.{
  ℕ, ◌+◌, ◌≤◌, ◌<◌, ◌≡◌, refl, ap, ◌∙◌, subst, String, some, Bool, true, false, ◌&&◌, List, [], ◌∷◌,
  ◌++◌, ltb, All, All-append, str_eq, eq_iff, eq_refl, arith, Bool-cases, inl, inr,
}
use coflowai.Base.Dict
use coflowai.Base.Dict.{get-put, get-remove, has_of_get}
use coflowai.Distributed.Queue.{
  Job, JobQueue, new_queue, enqueue, dequeue_from, dequeue, ack, nack, leased,
}
use coflowai.Distributed.Queue.Places.{
  places, count, count-append, one_if, IsUnique, places-enqueue, places-dequeue, places-nack,
  places-nack_absent, places-ack,
}

-- The queue, and the jobs that were acked and whose worker has not left `run_once` yet: it still
-- calls `on_result`.
pub record System : Type 0 where
  pub jobs : JobQueue
  pub answered : List Job

abbrev pub new_system : ℕ → System
new_system max_attempts = record { jobs = new_queue max_attempts; answered = [] }

-- A job is submitted under a new id with no attempts. A worker answers a job in flight: it acks it
-- and calls `on_result`, or it nacks it, where the execution raised or was cancelled. A worker that
-- has acked its job leaves, or, where the call raised or was cancelled, nacks it after all.
pub data Step (s : System) : System → Type 0 where
  submit :
      (job : Job)
      → places job.job_id s.jobs ≡ 0
      → count job.job_id s.answered ≡ 0
      → job.attempts ≡ 0
      → Step s (record s { jobs = enqueue s.jobs job })
  lease : Step s (record s { jobs = (dequeue s.jobs).1 })
  finish :
      (job : Job)
      → Dict.get s.jobs.in_flight job.job_id ≡ some job
      → Step s (record { jobs = ack s.jobs job; answered = job ∷ s.answered })
  refuse :
      (job : Job) (requeue : Bool)
      → Dict.get s.jobs.in_flight job.job_id ≡ some job
      → Step s (record s { jobs = nack s.jobs job requeue })
  leave :
      (job : Job) (before rest : List Job)
      → s.answered ≡ before ++ job ∷ rest
      → Step s (record s { answered = before ++ rest })
  refuse_answered :
      (job : Job) (before rest : List Job) (requeue : Bool)
      → s.answered ≡ before ++ job ∷ rest
      → Step s (record { jobs = nack s.jobs job requeue; answered = before ++ rest })

pub data Reach (s : System) : System → Type 0 where
  here : Reach s s
  next : {t u : System} → Reach s t → Step t u → Reach s u

-- Every job is in one place at most, one of which is a worker that has acked it.
pub record IsApart (s : System) : Type 0 where
  pub once : (id : String) → places id s.jobs + count id s.answered ≤ 1

count-taken :
    (id : String) (before rest l : List Job) (job : Job)
    → l ≡ before ++ job ∷ rest
    → count id l ≡ count id (before ++ rest) + one_if (str_eq job.job_id id)
count-taken id before rest l job e =
    ap (count id) e
    ∙ omega (arith, count-append id before (job ∷ rest), count-append id before rest)

-- A job that a worker has acked stands nowhere else.
acked_absent :
    (s : System) (job : Job) (before rest : List Job)
    → IsApart s
    → s.answered ≡ before ++ job ∷ rest
    → Dict.has s.jobs.in_flight job.job_id ≡ false
acked_absent s job before rest u e = ground (
  arith,
  u.once job.job_id,
  count-taken job.job_id before rest s.answered job e,
  eq_refl job.job_id,
)

same_id :
    (s : System) (a b : String)
    → places a s.jobs ≡ 0
    → count a s.answered ≡ 0
    → str_eq a b ≡ true
    → places b s.jobs + count b s.answered ≡ 0
same_id s a b f g e =
    subst (λ i. places i s.jobs + count i s.answered ≡ 0) ((eq_iff a b).0 e) (omega (arith, f, g))

Step-IsApart : {s t : System} → IsApart s → Step s t → IsApart t
Step-IsApart {s} u (submit job fresh new a) = record {
  once = λ id.
      ground (arith, places-enqueue s.jobs job id, u.once id, same_id s job.job_id id fresh new);
}
Step-IsApart {s} u lease =
    let alone : IsUnique s.jobs = record { once = λ id. omega (arith, u.once id) } in
    record { once = λ id. omega (arith, places-dequeue s.jobs id alone, u.once id) }
Step-IsApart {s} u (finish job f) = record {
  once = λ id.
      omega
        (arith, places-ack s.jobs job id (has_of_get s.jobs.in_flight job.job_id job f), u.once id);
}
Step-IsApart {s} u (refuse job requeue f) = record {
  once = λ id. omega (
    arith,
    places-nack s.jobs job requeue id (has_of_get s.jobs.in_flight job.job_id job f),
    u.once id,
  );
}
Step-IsApart {s} u (leave job before rest e) = record {
  once = λ id. omega (arith, count-taken id before rest s.answered job e, u.once id);
}
Step-IsApart {s} u (refuse_answered job before rest requeue e) = record {
  once = λ id. omega (
    arith,
    places-nack_absent s.jobs job requeue id (acked_absent s job before rest u e),
    count-taken id before rest s.answered job e,
    u.once id,
  );
}

-- A queued job may still be leased, and no job was leased more than `max_attempts` times.
pub record IsBounded (q : JobQueue) : Type 0 where
  pub queued : All (λ (j : Job). j.attempts < q.max_attempts) q.queue
  pub flying :
      (id : String) (j : Job) → Dict.get q.in_flight id ≡ some j → j.attempts ≤ q.max_attempts
  pub dead : All (λ (j : Job). j.attempts ≤ q.max_attempts) q.dead_letter

lease-IsBounded :
    (q : JobQueue) (l : List Job) → q.queue ≡ l → IsBounded q → IsBounded (dequeue_from q l).1
unfolding dequeue_from
lease-IsBounded q [] e b = b
lease-IsBounded q (job ∷ rest) e b =
    let all : All (λ (j : Job). j.attempts < q.max_attempts) (job ∷ rest) =
      subst (All (λ (j : Job). j.attempts < q.max_attempts)) e b.queued in
    record {
      queued = all.1;
      flying = λ id j g.
          ground (arith, all.0, b.flying id j, get-put q.in_flight job.job_id id (leased job));
      dead = b.dead;
    }

nack-IsBounded :
    (q : JobQueue) (job : Job) (requeue : Bool)
    → IsBounded q
    → job.attempts ≤ q.max_attempts
    → IsBounded (nack q job requeue)
unfolding nack
nack-IsBounded q job requeue b a =
    let still : (id : String) (j : Job)
        → Dict.get (Dict.remove q.in_flight job.job_id) id ≡ some j
        → j.attempts ≤ q.max_attempts =
      λ id j g. ground (arith, b.flying id j, get-remove q.in_flight job.job_id id) in
    elim (Bool-cases (requeue && ltb job.attempts q.max_attempts)) [
      | inl e ↦
          rw (e, nack)
            (record {
              queued = All-append _ q.queue (job ∷ []) b.queued (ground arith, tt);
              flying = still;
              dead = b.dead;
            })
      | inr e ↦
          rw (e, nack)
            (record {
              queued = b.queued;
              flying = still;
              dead = All-append _ q.dead_letter (job ∷ []) b.dead (a, tt);
            })
    ]

All-taken :
    (n : ℕ) (before rest : List Job) (job : Job)
    → All (λ (j : Job). j.attempts ≤ n) (before ++ job ∷ rest)
    → All (λ (j : Job). j.attempts ≤ n) (before ++ rest) × (job.attempts ≤ n)
All-taken n [] rest job h = (h.1, h.0)
All-taken n (x ∷ xs) rest job h = let (all, one) = All-taken n xs rest job h.1 in ((h.0, all), one)

ack-IsBounded : (q : JobQueue) (job : Job) → IsBounded q → IsBounded (ack q job)
unfolding ack
ack-IsBounded q job b = record {
  queued = b.queued;
  flying = λ id j g. ground (arith, b.flying id j, get-remove q.in_flight job.job_id id);
  dead = b.dead;
}

enqueue-IsBounded :
    (q : JobQueue) (job : Job)
    → job.attempts < q.max_attempts
    → IsBounded q
    → IsBounded (enqueue q job)
unfolding enqueue
enqueue-IsBounded q job a b = record {
  queued = All-append _ q.queue (job ∷ []) b.queued (a, tt);
  flying = b.flying;
  dead = b.dead;
}

nack-max_attempts :
    (q : JobQueue) (job : Job) (requeue : Bool) → (nack q job requeue).max_attempts ≡ q.max_attempts
unfolding nack
nack-max_attempts q job requeue = ground arith

dequeue-max_attempts : (q : JobQueue) → (dequeue q).1.max_attempts ≡ q.max_attempts
unfolding dequeue
dequeue-max_attempts q = by_queue q.queue
  where
    by_queue : (l : List Job) → (dequeue_from q l).1.max_attempts ≡ q.max_attempts
    by_queue [] = unfold dequeue_from in refl
    by_queue (job ∷ rest) = unfold dequeue_from in refl

-- What holds of the queue and the answered jobs in every run.
pub record IsSound (limit : ℕ) (s : System) : Type 0 where
  pub apart : IsApart s
  pub bounded : IsBounded s.jobs
  pub answered_bounded : All (λ (j : Job). j.attempts ≤ limit) s.answered
  pub limit_kept : s.jobs.max_attempts ≡ limit

Step-IsSound : {limit : ℕ} {s t : System} → 0 < limit → IsSound limit s → Step s t → IsSound limit t
unfolding enqueue ack
Step-IsSound {limit} {s} l i (submit job fresh new a) = record {
  apart = Step-IsApart i.apart (submit job fresh new a);
  bounded = enqueue-IsBounded s.jobs job (omega (arith, i.limit_kept)) i.bounded;
  answered_bounded = i.answered_bounded;
  limit_kept = i.limit_kept;
}
Step-IsSound {limit} {s} l i lease = record {
  apart = Step-IsApart i.apart lease;
  bounded = unfold dequeue in lease-IsBounded s.jobs s.jobs.queue refl i.bounded;
  answered_bounded = i.answered_bounded;
  limit_kept = dequeue-max_attempts s.jobs ∙ i.limit_kept;
}
Step-IsSound {limit} {s} l i (finish job f) = record {
  apart = Step-IsApart i.apart (finish job f);
  bounded = ack-IsBounded s.jobs job i.bounded;
  answered_bounded =
      (omega (arith, i.bounded.flying job.job_id job f, i.limit_kept), i.answered_bounded);
  limit_kept = i.limit_kept;
}
Step-IsSound {limit} {s} l i (refuse job requeue f) = record {
  apart = Step-IsApart i.apart (refuse job requeue f);
  bounded = nack-IsBounded s.jobs job requeue i.bounded (i.bounded.flying job.job_id job f);
  answered_bounded = i.answered_bounded;
  limit_kept = nack-max_attempts s.jobs job requeue ∙ i.limit_kept;
}
Step-IsSound {limit} {s} l i (leave job before rest e) =
    let all = subst (All (λ (j : Job). j.attempts ≤ limit)) e i.answered_bounded in
    record {
      apart = Step-IsApart i.apart (leave job before rest e);
      bounded = i.bounded;
      answered_bounded = (All-taken limit before rest job all).0;
      limit_kept = i.limit_kept;
    }
Step-IsSound {limit} {s} l i (refuse_answered job before rest requeue e) =
    let all = subst (All (λ (j : Job). j.attempts ≤ limit)) e i.answered_bounded in
    let taken = All-taken limit before rest job all in
    record {
      apart = Step-IsApart i.apart (refuse_answered job before rest requeue e);
      bounded = nack-IsBounded s.jobs job requeue i.bounded (omega (arith, taken.1, i.limit_kept));
      answered_bounded = taken.0;
      limit_kept = nack-max_attempts s.jobs job requeue ∙ i.limit_kept;
    }

new_system-IsSound : (limit : ℕ) → IsSound limit (new_system limit)
unfolding Dict.has Dict.get
new_system-IsSound limit = record {
  apart = record { once = λ id. omega arith };
  bounded = record { queued = tt; flying = λ id j g. cc; dead = tt };
  answered_bounded = tt;
  limit_kept = refl;
}

pub Reach-IsSound :
    (limit : ℕ) {s : System} → 0 < limit → Reach (new_system limit) s → IsSound limit s
Reach-IsSound limit l here = new_system-IsSound limit
Reach-IsSound limit l (next r st) = Step-IsSound l (Reach-IsSound limit l r) st
