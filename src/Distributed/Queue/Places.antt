-- ===== src/Distributed/Queue/Places.antt =====
-- Where a job stands in `InMemoryJobQueue` of coflowai/distributed/queue.py: no operation loses or
-- doubles one.
use coflowai.Base.{
  ℕ, ◌+◌, ◌≤◌, ◌≡◌, refl, ap, subst, String, Bool, true, false, List, [], ◌∷◌, ◌++◌, sum_by, str_eq,
  eq_iff, arith, if◌then◌else◌,
}
use coflowai.Base.Dict
use coflowai.Base.Dict.{has-put, has-remove}
use coflowai.Distributed.Queue.{Job, JobQueue, enqueue, dequeue_from, dequeue, ack, nack, leased}

abbrev pub one_if : Bool → ℕ
one_if b = if b then 1 else 0

abbrev pub count : String → List Job → ℕ
count id l = sum_by (λ (j : Job). one_if (str_eq j.job_id id)) l

-- In how many places the job with the id stands.
abbrev pub places : String → JobQueue → ℕ
places id q = count id q.queue + one_if (Dict.has q.in_flight id) + count id q.dead_letter

-- Every job stands in one place at most.
pub record IsUnique (q : JobQueue) : Type 0 where
  pub once : (id : String) → places id q ≤ 1

pub count-append :
    (id : String) (xs ys : List Job) → count id (xs ++ ys) ≡ count id xs + count id ys
count-append id [] ys = omega arith
count-append id (x ∷ xs) ys = omega (arith, count-append id xs ys)

dequeue_from-places :
    (q : JobQueue) (l : List Job) (id : String)
    → q.queue ≡ l
    → IsUnique q
    → places id (dequeue_from q l).1 ≡ places id q
unfolding dequeue_from
dequeue_from-places q [] id e u = refl
dequeue_from-places q (job ∷ rest) id e u =
    ground (arith, ap (count id) e, u.once id, has-put q.in_flight job.job_id id (leased job))

pub places-dequeue :
    (q : JobQueue) (id : String) → IsUnique q → places id (dequeue q).1 ≡ places id q
unfolding dequeue
places-dequeue q id u = dequeue_from-places q q.queue id refl u

has_same :
    (d : Dict.Dict Job) (k j : String)
    → Dict.has d k ≡ true
    → str_eq k j ≡ true
    → Dict.has d j ≡ true
has_same d k j h e = subst (λ i. Dict.has d i ≡ true) ((eq_iff k j).0 e) h

pub places-nack :
    (q : JobQueue) (job : Job) (requeue : Bool) (id : String)
    → Dict.has q.in_flight job.job_id ≡ true
    → places id (nack q job requeue) ≡ places id q
unfolding nack
places-nack q job requeue id h = ground (
  arith,
  count-append id q.queue (job ∷ []),
  count-append id q.dead_letter (job ∷ []),
  has-remove q.in_flight job.job_id id,
  has_same q.in_flight job.job_id id,
)

not_has_same :
    (d : Dict.Dict Job) (k j : String)
    → Dict.has d k ≡ false
    → str_eq k j ≡ true
    → Dict.has d j ≡ false
not_has_same d k j h e = subst (λ i. Dict.has d i ≡ false) ((eq_iff k j).0 e) h

-- A job that was not in flight any more comes back.
pub places-nack_absent :
    (q : JobQueue) (job : Job) (requeue : Bool) (id : String)
    → Dict.has q.in_flight job.job_id ≡ false
    → places id (nack q job requeue) ≡ places id q + one_if (str_eq job.job_id id)
unfolding nack
places-nack_absent q job requeue id h = ground (
  arith,
  count-append id q.queue (job ∷ []),
  count-append id q.dead_letter (job ∷ []),
  has-remove q.in_flight job.job_id id,
  not_has_same q.in_flight job.job_id id,
)

pub places-ack :
    (q : JobQueue) (job : Job) (id : String)
    → Dict.has q.in_flight job.job_id ≡ true
    → places id (ack q job) + one_if (str_eq job.job_id id) ≡ places id q
unfolding ack
places-ack q job id h =
    ground (arith, has-remove q.in_flight job.job_id id, has_same q.in_flight job.job_id id)

pub places-enqueue :
    (q : JobQueue) (job : Job) (id : String)
    → places id (enqueue q job) ≡ places id q + one_if (str_eq job.job_id id)
unfolding enqueue
places-enqueue q job id = ground (arith, count-append id q.queue (job ∷ []))

-- Where jobs are unique, a lease and a `nack` of a leased job, requeued or not, keep every job in
-- exactly as many places as before, and an `ack` of a leased job takes away that job alone.
pub places_kept :
    (q : JobQueue) (job : Job) (requeue : Bool) (id : String)
    → IsUnique q
    → Dict.has q.in_flight job.job_id ≡ true
    → (places id (dequeue q).1 ≡ places id q)
      × (places id (nack q job requeue) ≡ places id q)
      × (places id (ack q job) + one_if (str_eq job.job_id id) ≡ places id q)
places_kept q job requeue id u h =
    (places-dequeue q id u, places-nack q job requeue id h, places-ack q job id h)
