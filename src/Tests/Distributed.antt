-- ===== src/Tests/Distributed.antt =====
-- The theorems about coflowai/distributed/ at concrete inputs.
use coflowai.Base.{◌≡◌, refl, String, Option, none, some, true, false, [], ◌∷◌, Value, arith}
use coflowai.Base.Dict
use coflowai.Core.Errors.{Error, PythonClass, python, Result, ok, err}
use coflowai.Core.Result.{ExecutionResult}
use coflowai.State.Store.{empty_store}
use coflowai.Distributed.Queue.{
  Job, JobQueue, new_queue, enqueue, dequeue, dequeue_from, ack, nack, leased,
}
use coflowai.Distributed.Queue.Places.{IsUnique}
use coflowai.Distributed.Queue.Attempts.{
  System, new_system, Reach, here, next, submit, lease, finish, refuse_answered, IsSound,
  Reach-IsSound,
}
use coflowai.Distributed.Worker.{RuntimeOps, Worker, run_once, call_back}
use coflowai.Distributed.Worker.Outcomes.{Returned, run_once-in_flight, run_once_callback}
use coflowai.Distributed.Service
use coflowai.Distributed.Service.{Service, Target, by_name}
use coflowai.Distributed.Service.Submission.{Submitted, submit_lem}
use coflowai.Tests.Data.{job, result}

abbrev queued : JobQueue
queued = enqueue (new_queue 3) job

abbrev in_flight : JobQueue
in_flight = (dequeue queued).1

-- The queue after the worker acked the job, and after its callback failed.
abbrev acked : JobQueue
acked = ack in_flight (leased job)

abbrev sent_back : System
sent_back = record { jobs = nack acked (leased job) true; answered = [] }

abbrev run_of_job : Reach (new_system 3) sent_back
unfolding enqueue dequeue dequeue_from ack Dict.get Dict.put Dict.has
run_of_job =
    next (next (next (next here (submit job refl refl refl)) lease) (finish (leased job) refl))
      (refuse_answered (leased job) [] [] true refl)

abbrev in_flight-IsUnique : IsUnique in_flight
unfolding enqueue dequeue dequeue_from Dict.put Dict.has
in_flight-IsUnique =
    let sound : IsSound 3 (record { jobs = in_flight; answered = [] }) =
      Reach-IsSound 3 (omega arith) (next (next here (submit job refl refl refl)) lease) in
    record { once = λ id. omega (arith, sound.apart.once id) }

abbrev timeout : Error
timeout = python PythonClass.timeout_error

-- A runtime in which every job fails, one in which it succeeds, and a callback that raises.
abbrev broken : Job → Unit {0} → Result ExecutionResult × Unit {0}
broken j w = (err timeout, w)

abbrev working : Job → Unit {0} → Result ExecutionResult × Unit {0}
working j w = (ok result, w)

abbrev bad_callback : Option (Job → ExecutionResult → Unit {0} → Result (Unit {0}) × Unit {0})
bad_callback = some (λ j r w. (err timeout, w))

abbrev no_callback : Option (Job → ExecutionResult → Unit {0} → Result (Unit {0}) × Unit {0})
no_callback = none

abbrev worker : Worker (Unit {0})
worker = record {
  world = tt;
  jobs = record { queue = job ∷ []; in_flight = []; dead_letter = []; max_attempts = 3 };
  processed = 0;
  failed = 0;
}

run_once-in_flight_example :
    Dict.has (run_once broken no_callback worker).1.jobs.in_flight "job_1" ≡ false
run_once-in_flight_example = run_once-in_flight broken no_callback worker job [] "job_1" refl

run_once_callback_example :
    ((run_once working bad_callback worker).1.processed ≡ 1)
    × ((run_once working bad_callback worker).1.failed ≡ 1)
    × Returned worker.jobs job [] timeout (run_once working bad_callback worker).1.jobs
unfolding call_back
run_once_callback_example =
    run_once_callback working bad_callback worker job [] result timeout tt tt refl refl refl refl

-- Executables that are their own names.
abbrev ops : RuntimeOps String (Unit {0}) ExecutionResult
ops = record {
  name = λ e. e;
  signature = λ e. e;
  run = λ e input p id m w. (ok result, w);
  resume = λ id e p w. (ok result, w);
  approve = λ id e a b c w. (ok result, w);
  reject = λ id e a b c w. (ok result, w);
}

abbrev service : Service String
service = record { store = empty_store; jobs = new_queue 3; executables = [] }

abbrev target : Target String
target = by_name "agent"

submit_lem_example :
    Submitted ops target Value.null [] "exec_9" "job_9" service none
      (Service.submit ops target Value.null none [] "exec_9" "job_9" service).0
      (Service.submit ops target Value.null none [] "exec_9" "job_9" service).1
submit_lem_example = submit_lem ops target Value.null [] "exec_9" "job_9" service none
