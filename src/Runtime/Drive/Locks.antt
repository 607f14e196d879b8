-- ===== src/Runtime/Drive/Locks.antt =====
-- `_drive` of coflowai/runtime/runtime.py as a whole: the lock, the list of running contexts and the
-- stored record, on every way out.
use coflowai.Base.{
  ◌≡◌, refl, ap, ◌∙◌, String, some, true, false, contains, arith, eq_refl, if◌then◌else◌,
  Bool-cases, inl, inr,
}
use coflowai.Base.Dict
use coflowai.Base.Dict.{get-put_self, has-remove}
use coflowai.Core.Types.{running, in_statuses, resumable_statuses}
use coflowai.Core.Errors.{ErrorClass, plain, err}
use coflowai.Core.Context.{ExecutionContext}
use coflowai.State.Checkpoint.{ExecutionRecord}
use coflowai.State.Store.{get_execution, acquire_lock, release_lock}
use coflowai.State.Store.Laws.{contains-release}
use coflowai.Runtime.Runtime.{Runtime, emit, save}
use coflowai.Runtime.Drive.{
  Outcome, with_deadline, settle, release, enlist, perform, start_with, start, drive,
}
use coflowai.Runtime.Drive.Settling.{settle-found, transition-resumable, concluded, not_cancelled}

module _ {E : Type 0}
    (execute : E → ExecutionContext → Runtime E → Outcome × ExecutionContext × Runtime E)
    (target : E) (c : ExecutionContext) (r : ExecutionRecord) (id : String) (rt : Runtime E) where
  -- The runtime, the context and the record with which the executable is started.
  abbrev pub locked : Runtime E
  locked = record (enlist target c rt) {
    store = (acquire_lock (enlist target c rt).store c.execution_id).1;
  }

  abbrev pub started_context : ExecutionContext
  started_context = record c { status = running }

  abbrev pub started_record : ExecutionRecord
  started_record = record r { status = running }

  abbrev pub started_runtime : Runtime E
  started_runtime = emit (save locked started_record) started_context "execution.started"

  -- How the executable ended, after the deadline.
  abbrev pub outcome : Outcome
  outcome =
      with_deadline c.policy.timeout_seconds (execute target started_context started_runtime).0

  start-eq :
      in_statuses r.status resumable_statuses ≡ true
      → start execute target c r id locked
        ≡ perform execute target started_context started_record id started_runtime
  unfolding start start_with
  start-eq resumable = ap (start_with execute target c id locked) (transition-resumable r resumable)

  granted-enlist :
      (acquire_lock (enlist target c rt).store c.execution_id).0
      ≡ (acquire_lock rt.store c.execution_id).0
  unfolding enlist
  granted-enlist = refl

  drive-eq :
      (acquire_lock rt.store c.execution_id).0 ≡ true
      → in_statuses r.status resumable_statuses ≡ true
      → drive execute target c r id rt
        ≡ perform execute target started_context started_record id started_runtime
  unfolding drive
  drive-eq granted resumable =
      let g : (acquire_lock (enlist target c rt).store c.execution_id).0 ≡ true =
        granted-enlist ∙ granted in
      rw (g, if◌then◌else◌) (start-eq resumable)

  -- When the lock is refused, the store and the events are as before and an error is raised; but the
  -- context that did not get to run now stands for the execution among the running ones.
  pub drive-refused :
      (acquire_lock rt.store c.execution_id).0 ≡ false
      → ((drive execute target c r id rt).0 ≡ err (plain ErrorClass.execution_error))
        × ((drive execute target c r id rt).1.store ≡ rt.store)
        × ((drive execute target c r id rt).1.events ≡ rt.events)
        × (Dict.get (drive execute target c r id rt).1.active c.execution_id ≡ some c)
  unfolding drive enlist acquire_lock
  drive-refused refused = elim (Bool-cases (contains rt.store.locks c.execution_id)) [
    | inl h ↦ rw (h, if◌then◌else◌) (refl, refl, refl, get-put_self rt.active c.execution_id c)
    | inr h ↦ ground arith
  ]

released :
    {E : Type 0} (id : String) (rt : Runtime E)
    → (Dict.has (release id rt).active id ≡ false)
      × (contains (release id rt).store.locks id ≡ false)
unfolding release release_lock
released id rt = (
  rw (has-remove rt.active id id, eq_refl id),
  rw (contains-release rt.store.locks id id, eq_refl id),
)

module _ {E : Type 0}
    (execute : E → ExecutionContext → Runtime E → Outcome × ExecutionContext × Runtime E)
    (target : E) (c : ExecutionContext) (r : ExecutionRecord) (id : String) (rt : Runtime E) where
  -- Once the lock of a startable execution is granted, however the executable ends, the lock is free
  -- again and the execution is not among the running ones; and unless it ends by the cancellation of
  -- its task, its stored record says how it ended: the status and output of a result, waiting for
  -- approval, or the status of the error with the error.
  pub drive_lem :
      (acquire_lock rt.store c.execution_id).0 ≡ true
      → in_statuses r.status resumable_statuses ≡ true
      → (Dict.has (drive execute target c r id rt).1.active c.execution_id ≡ false)
        × (contains (drive execute target c r id rt).1.store.locks c.execution_id ≡ false)
        × (not_cancelled (outcome execute target c r id rt) ≡ true
            → get_execution (drive execute target c r id rt).1.store r.execution_id
              ≡ some (concluded (record r { status = running }) (outcome execute target c r id rt)))
  drive_lem granted resumable =
      let begun = record r { status = running } in
      let rt' = started_runtime execute target c r id rt in
      let (o, c', after) = execute target (record c { status = running }) rt' in
      let settled = (settle begun c' (with_deadline c.policy.timeout_seconds o) id after).1 in
      let free = released c.execution_id settled in
      rw (drive-eq execute target c r id rt granted resumable) (
        unfold perform in
        (
          free.0,
          free.1,
          λ n.
              unfold release release_lock get_execution in
              settle-found begun c' id after refl (with_deadline c.policy.timeout_seconds o) n,
        ))
