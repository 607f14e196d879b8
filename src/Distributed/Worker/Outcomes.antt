-- ===== src/Distributed/Worker/Outcomes.antt =====
-- What a turn of `Worker.run_once` of coflowai/distributed/worker.py leaves of the job it leased.
use coflowai.Base.{
  ◌+◌, ◌≡◌, refl, ap, String, Option, none, some, Bool, true, false, not, ◌&&◌, ltb, List, [], ◌∷◌,
  ◌++◌, arith, str_eq, if◌then◌else◌,
}
use coflowai.Base.Dict
use coflowai.Base.Dict.{Dict, has-put, has-remove}
use coflowai.Core.Errors.{Error, Result, ok, err, is_cancelled, is_configuration}
use coflowai.Distributed.Queue.{Job, JobQueue, leased, dequeue_from, dequeue, ack, nack}
use coflowai.Distributed.Worker.{
  Worker, on_error, call_back, finish, on_success, answer, process, run_once,
}

has-nack :
    (q : JobQueue) (job : Job) (b : Bool) (id : String)
    → Dict.has (nack q job b).in_flight id
      ≡ (if str_eq job.job_id id then false else Dict.has q.in_flight id)
unfolding nack
has-nack q job b id = ground (arith, has-remove q.in_flight job.job_id id)

has-ack :
    (q : JobQueue) (job : Job) (id : String)
    → Dict.has (ack q job).in_flight id
      ≡ (if str_eq job.job_id id then false else Dict.has q.in_flight id)
unfolding ack
has-ack q job id = has-remove q.in_flight job.job_id id

-- The queue after a lease of its first job.
abbrev pub after_lease : JobQueue → Job → List Job → JobQueue
after_lease q job rest = record q {
  queue = rest;
  in_flight = Dict.put q.in_flight job.job_id (leased job);
}

dequeue-first :
    (q : JobQueue) (job : Job) (rest : List Job)
    → q.queue ≡ job ∷ rest
    → dequeue q ≡ (some (leased job), after_lease q job rest)
unfolding dequeue dequeue_from
dequeue-first q job rest e = ap (dequeue_from q) e

module _ {W R : Type 0} (run_job : Job → W → Result R × W)
    (on_result : Option (Job → R → W → Result (Unit {0}) × W)) where
  on_error-in_flight :
      (job : Job) (e : Error) (s : Worker W) (id : String)
      → Dict.has (on_error run_job on_result job e s).1.jobs.in_flight id
        ≡ (if str_eq job.job_id id then false else Dict.has s.jobs.in_flight id)
  unfolding on_error
  on_error-in_flight job e s id =
      ground (arith, has-nack s.jobs job true id, has-nack s.jobs job (not (is_configuration e)) id)

  after_call_back :
      (job : Job) (outcome : Result (Unit {0})) (w : W) (s : Worker W) (id : String)
      → Dict.has
          (finish run_job on_result job outcome (record s {
            jobs = ack s.jobs job;
            processed = s.processed + 1;
            world = w;
          })).1.jobs.in_flight
          id
        ≡ (if str_eq job.job_id id then false else Dict.has s.jobs.in_flight id)
  unfolding finish
  after_call_back job (ok u) w s id = has-ack s.jobs job id
  after_call_back job (err e) w s id = ground (
    arith,
    on_error-in_flight job e
        (record s { jobs = ack s.jobs job; processed = s.processed + 1; world = w }) id,
    has-ack s.jobs job id,
  )

  process-in_flight :
      (job : Job) (s : Worker W) (id : String)
      → Dict.has (process run_job on_result job s).1.jobs.in_flight id
        ≡ (if str_eq job.job_id id then false else Dict.has s.jobs.in_flight id)
  unfolding process
  process-in_flight job s id = let (outcome, w) = run_job job s.world in by_outcome outcome w
    where
      by_outcome :
          (o : Result R) (w : W)
          → Dict.has (answer run_job on_result job o (record s { world = w })).1.jobs.in_flight id
            ≡ (if str_eq job.job_id id then false else Dict.has s.jobs.in_flight id)
      by_outcome (ok r) w =
          unfold answer on_success in
          let (u, w') = call_back run_job on_result job r w in after_call_back job u w' s id
      by_outcome (err e) w = unfold answer in on_error-in_flight job e (record s { world = w }) id

  run_once-first :
      (s : Worker W) (job : Job) (rest : List Job)
      → s.jobs.queue ≡ job ∷ rest
      → run_once run_job on_result s
        ≡ process run_job on_result (leased job) (record s { jobs = after_lease s.jobs job rest })
  unfolding run_once
  run_once-first s job rest e =
      ap (λ (d : Option Job × JobQueue). go d) (dequeue-first s.jobs job rest e)
    where
      go : Option Job × JobQueue → Result (Option Job) × Worker W
      go d =
          let (found, jobs') = d in
          let leased = record s { jobs = jobs' } in
          elim found [ none ↦ (ok none, leased) | some job ↦ process run_job on_result job leased ]

  -- A turn that leases a job leaves it leased no more, whether the job or the callback fails, is
  -- cancelled or succeeds; the leases of all other jobs stay as they were.
  pub run_once-in_flight :
      (s : Worker W) (job : Job) (rest : List Job) (id : String)
      → s.jobs.queue ≡ job ∷ rest
      → Dict.has (run_once run_job on_result s).1.jobs.in_flight id
        ≡ (if str_eq job.job_id id then false else Dict.has s.jobs.in_flight id)
  run_once-in_flight s job rest id e =
      let start = record s { jobs = after_lease s.jobs job rest } in
      rw (run_once-first s job rest e) (
        ground (
          arith,
          process-in_flight (leased job) start id,
          has-put s.jobs.in_flight job.job_id id (leased job),
        ))

-- The same job gets another attempt after the error.
abbrev pub retried : Job → Error → JobQueue → Bool
retried job e q = not (is_configuration e) && ltb (job.attempts + 1) q.max_attempts

-- Where the job stands after an answer that sends it back or gives it up.
abbrev pub Returned : JobQueue → Job → List Job → Error → JobQueue → Type 0
Returned before job rest e after =
    (after.queue ≡ (if retried job e before then rest ++ leased job ∷ [] else rest))
    × (after.dead_letter ≡ (
        if retried job e before then before.dead_letter else before.dead_letter ++ leased job ∷ []))

module _ {W R : Type 0} (run_job : Job → W → Result R × W)
    (on_result : Option (Job → R → W → Result (Unit {0}) × W)) where
  -- A job that raises, other than by cancellation, counts as failed. It goes to the end of the queue
  -- if the error is no configuration error and the attempts are not used up, and else to the dead
  -- letters.
  pub run_once_failing :
      (s : Worker W) (job : Job) (rest : List Job) (e : Error) (w : W)
      → s.jobs.queue ≡ job ∷ rest
      → run_job (leased job) s.world ≡ (err e, w)
      → is_cancelled e ≡ false
      → ((run_once run_job on_result s).0 ≡ ok (some (leased job)))
        × ((run_once run_job on_result s).1.failed ≡ s.failed + 1)
        × ((run_once run_job on_result s).1.processed ≡ s.processed)
        × Returned s.jobs job rest e (run_once run_job on_result s).1.jobs
  run_once_failing s job rest e w h r c = rw (run_once-first run_job on_result s job rest h) (
      unfold process answer on_error nack in
      rw (r, c) (refl, refl, refl, (ground arith, ground arith)))

  -- A job that succeeds, with a callback that does not raise, leaves the queue and counts as
  -- processed; the dead letters and the number of failures stay as they were.
  pub run_once_success :
      (s : Worker W) (job : Job) (rest : List Job) (r : R) (w w' : W)
      → s.jobs.queue ≡ job ∷ rest
      → run_job (leased job) s.world ≡ (ok r, w)
      → call_back run_job on_result (leased job) r w ≡ (ok tt, w')
      → ((run_once run_job on_result s).0 ≡ ok (some (leased job)))
        × ((run_once run_job on_result s).1.processed ≡ s.processed + 1)
        × ((run_once run_job on_result s).1.failed ≡ s.failed)
        × ((run_once run_job on_result s).1.jobs.queue ≡ rest)
        × ((run_once run_job on_result s).1.jobs.dead_letter ≡ s.jobs.dead_letter)
  run_once_success s job rest r w w' h o c =
      rw (run_once-first run_job on_result s job rest h)
        (unfold process answer on_success finish ack in rw (o, c) (refl, refl, refl, refl, refl))

  -- A job that succeeds counts as processed and as failed if the callback then raises, other than by
  -- cancellation, and it is queued to run again unless the error is a configuration error or the
  -- attempts are used up.
  pub run_once_callback :
      (s : Worker W) (job : Job) (rest : List Job) (r : R) (e : Error) (w w' : W)
      → s.jobs.queue ≡ job ∷ rest
      → run_job (leased job) s.world ≡ (ok r, w)
      → call_back run_job on_result (leased job) r w ≡ (err e, w')
      → is_cancelled e ≡ false
      → ((run_once run_job on_result s).1.processed ≡ s.processed + 1)
        × ((run_once run_job on_result s).1.failed ≡ s.failed + 1)
        × Returned s.jobs job rest e (run_once run_job on_result s).1.jobs
  run_once_callback s job rest r e w w' h o c n =
      rw (run_once-first run_job on_result s job rest h) (
        unfold process answer on_success finish on_error ack nack in
        rw (o, c, n) (refl, refl, (ground arith, ground arith)))
