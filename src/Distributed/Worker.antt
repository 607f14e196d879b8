-- ===== src/Distributed/Worker.antt =====
-- coflowai/distributed/worker.py: `ExecutableRegistry` and `Worker`. The runtime is an interface
-- here: a world, and its four operations on it; each returns the world beside an error too.
pub mod Outcomes
use coflowai.Base.{
  ℕ, ◌+◌, String, Option, none, some, Bool, true, false, not, Value, str_eq, if◌then◌else◌,
}
use coflowai.Base.Dict
use coflowai.Base.Dict.{Dict}
use coflowai.Core.Errors.{ErrorClass, Error, plain, Result, ok, err, is_cancelled, is_configuration}
use coflowai.Policies.Policy.{ExecutionPolicy, PolicyDict, of_dict}
use coflowai.Distributed.Queue.{Job, JobQueue, dequeue, ack, nack}

-- What the worker calls of an executable (`E`), of the runtime and of its world (`W`), and the
-- results (`R`) that it gets.
pub record RuntimeOps (E W R : Type 0) : Type 0 where
  pub name : E → String
  pub signature : E → String
  pub run :
      E → Value → Option ExecutionPolicy → (execution_id : String) → Dict Value → W → Result R × W
  pub resume : (execution_id : String) → Option E → Option ExecutionPolicy → W → Result R × W
  -- The last three values are `approval_id`, `by` and `note`.
  pub approve : (execution_id : String) → Option E → (a b c : Option Value) → W → Result R × W
  pub reject : (execution_id : String) → Option E → (a b c : Option Value) → W → Result R × W

abbrev configuration_error : Error
configuration_error = plain ErrorClass.configuration_error

module _ {E W R : Type 0} (ops : RuntimeOps E W R) where
  -- `existing is not None and existing.signature() != executable.signature()`
  abbrev pub clashes : Option E → E → Bool
  clashes none e = false
  clashes (some old) e = not (str_eq (ops.signature old) (ops.signature e))

  -- `name or executable.name`
  abbrev pub key_of : Option String → E → String
  key_of none e = ops.name e
  key_of (some n) e = if str_eq n "" then ops.name e else n

  unfoldable pub register : Dict E → E → Option String → Result (Dict E)
  register items e name =
      let key = key_of name e in
      if clashes (Dict.get items key) e then err configuration_error else ok (Dict.put items key e)

  unfoldable pub lookup : Dict E → String → Result E
  lookup items name = elim (Dict.get items name) [ none ↦ err configuration_error | some e ↦ ok e ]

  -- `self.executables.get(job.executable) if job.executable else None`
  unfoldable pub executable_of : Dict E → Job → Result (Option E)
  unfolding lookup
  executable_of items job =
      if str_eq job.executable ""
      then ok none
      else elim (lookup items job.executable) [ ok e ↦ ok (some e) | err x ↦ err x ]

  unfoldable pub policy_of : Option PolicyDict → Result (Option ExecutionPolicy)
  policy_of none = ok none
  policy_of (some d) = elim (of_dict d) [ ok p ↦ ok (some p) | err x ↦ err x ]

  unfoldable pub dispatch : Job → Option E → Option ExecutionPolicy → W → Result R × W
  dispatch job executable policy w =
      if str_eq job.kind "run"
      then elim executable [
        | none ↦ (err configuration_error, w)
        | some e ↦ ops.run e job.input policy job.execution_id job.metadata w
      ]
      else if str_eq job.kind "resume"
      then ops.resume job.execution_id executable policy w
      else if str_eq job.kind "approve"
      then ops.approve job.execution_id executable (Dict.get job.metadata "approval_id")
          (Dict.get job.metadata "by") (Dict.get job.metadata "note") w
      else if str_eq job.kind "reject"
      then ops.reject job.execution_id executable (Dict.get job.metadata "approval_id")
          (Dict.get job.metadata "by") (Dict.get job.metadata "note") w
      else (err (plain ErrorClass.execution_error), w)

  unfoldable pub execute : Dict E → Job → W → Result R × W
  execute items job w = elim (executable_of items job) [
    | err x ↦ (err x, w)
    | ok executable ↦ elim (policy_of job.policy) [
      | err x ↦ (err x, w)
      | ok policy ↦ dispatch job executable policy w
    ]
  ]

pub record Worker (W : Type 0) : Type 0 where
  pub world : W
  pub jobs : JobQueue
  pub processed : ℕ
  pub failed : ℕ

module _ {W R : Type 0} (run_job : Job → W → Result R × W)
    (on_result : Option (Job → R → W → Result (Unit {0}) × W)) where
  -- The two handlers of `run_once`.
  unfoldable pub on_error : Job → Error → Worker W → Result (Option Job) × Worker W
  on_error job e s = if is_cancelled e then (err e, record s { jobs = nack s.jobs job true }) else (
    ok (some job),
    record s { failed = s.failed + 1; jobs = nack s.jobs job (not (is_configuration e)) },
  )

  -- The call of `on_result`, with its own errors.
  unfoldable pub call_back : Job → R → W → Result (Unit {0}) × W
  call_back job r w = elim on_result [ none ↦ (ok tt, w) | some f ↦ f job r w ]

  -- The end of the `try` block, by what the callback did.
  unfoldable pub finish : Job → Result (Unit {0}) → Worker W → Result (Option Job) × Worker W
  unfolding on_error
  finish job (ok u) s = (ok (some job), s)
  finish job (err e) s = on_error job e s

  unfoldable pub on_success : Job → R → Worker W → Result (Option Job) × Worker W
  unfolding finish call_back
  on_success job r s =
      let (outcome, w) = call_back job r s.world in
      finish job outcome
        (record s { jobs = ack s.jobs job; processed = s.processed + 1; world = w })

  unfoldable pub answer : Job → Result R → Worker W → Result (Option Job) × Worker W
  unfolding on_success
  answer job (ok r) s = on_success job r s
  answer job (err e) s = on_error job e s

  unfoldable pub process : Job → Worker W → Result (Option Job) × Worker W
  unfolding answer
  process job s =
      let (outcome, w) = run_job job s.world in answer job outcome (record s { world = w })

  unfoldable pub run_once : Worker W → Result (Option Job) × Worker W
  unfolding process dequeue
  run_once s =
      let (found, jobs') = dequeue s.jobs in
      let leased = record s { jobs = jobs' } in
      elim found [ none ↦ (ok none, leased) | some job ↦ process job leased ]
