-- ===== src/Distributed/Service/Submission.antt =====
-- What `ExecutionService.submit` of coflowai/distributed/worker.py promises its caller.
use coflowai.Base.{
  ◌≡◌, refl, ap, ◌∙◌, String, Option, none, some, Bool, true, false, [], ◌∷◌, ◌++◌, Value,
  Bool-cases, inl, inr, str_eq, eq_refl, if◌then◌else◌,
}
use coflowai.Base.Dict
use coflowai.Base.Dict.{Dict, get-put_self}
use coflowai.Core.Types.{created}
use coflowai.Core.Errors.{ErrorClass, plain, Result, ok, err}
use coflowai.Policies.Policy.{ExecutionPolicy, PolicyDict, to_dict}
use coflowai.State.Store.{get_execution}
use coflowai.State.Store.Laws.{get_execution-save_execution}
use coflowai.Distributed.Queue.{enqueue}
use coflowai.Distributed.Worker.{RuntimeOps, register, clashes, key_of}
use coflowai.Distributed.Service.{
  Service, Target, itself, by_name, policy_dict, register_target, submit_with, submit, target_name,
  intent, run_job,
}

-- The policy as it travels: what `to_dict` makes of it.
abbrev pub IsDictOf : Option ExecutionPolicy → Option PolicyDict → Type 0
IsDictOf none d = d ≡ none
IsDictOf (some p) d = (x : PolicyDict) × (to_dict p ≡ ok x) × (d ≡ some x)

IsDictOf-policy_dict :
    (policy : Option ExecutionPolicy) (d : Option PolicyDict)
    → policy_dict policy ≡ ok d
    → IsDictOf policy d
unfolding policy_dict
IsDictOf-policy_dict none d h = cc
IsDictOf-policy_dict (some p) d h = by_result (to_dict p) refl h
  where
    by_result :
        (r : Result PolicyDict)
        → to_dict p ≡ r
        → elim r as (λ _. Result (Option PolicyDict)) [ ok d ↦ ok (some d) | err e ↦ err e ] ≡ ok d
        → (x : PolicyDict) × (to_dict p ≡ ok x) × (d ≡ some x)
    by_result (ok x) e h = (x, e, cc)
    by_result (err x) e h = cc

module _ {E W R : Type 0} (ops : RuntimeOps E W R) (target : Target E) (input : Value)
    (metadata : Dict Value) (id job_id : String) (s : Service E)
    (policy : Option ExecutionPolicy) where
  -- The name that an executable goes by.
  abbrev pub named : Target E → String
  named (itself e) = ops.name e
  named (by_name n) = n

  -- The registry has an executable that was passed as itself, under its name.
  abbrev pub IsKnown : Target E → Dict E → Type 0
  IsKnown (itself e) items = Dict.get items (ops.name e) ≡ some e
  IsKnown (by_name n) items = items ≡ s.executables

  -- What `submit` leaves, by its result.
  abbrev pub Submitted : Result String → Service E → Type 0
  Submitted (err e) after = (after.store ≡ s.store) × (after.jobs ≡ s.jobs)
  Submitted (ok got) after =
      (d : Option PolicyDict) × IsDictOf policy d
      × (got ≡ id)
      × IsKnown target after.executables
      × (get_execution after.store id
          ≡ some (record {
            execution_id = id;
            status = created;
            input = input;
            output = Value.null;
            error = none;
            executable = named target;
            workflow_hash = none;
            policy = d;
            metadata = metadata;
          }))
      × (after.jobs ≡ record s.jobs {
        queue =
            s.jobs.queue
            ++ record {
              kind = "run";
              execution_id = id;
              executable = named target;
              input = input;
              policy = d;
              metadata = metadata;
              job_id = job_id;
              attempts = 0;
            }
              ∷ [];
      })

  same_name : (t : Target E) → target_name ops t ≡ named t
  unfolding target_name
  same_name (itself e) = refl
  same_name (by_name n) = refl

  key_of-name : (e : E) → key_of ops (some (ops.name e)) e ≡ ops.name e
  key_of-name e = elim (Bool-cases (str_eq (ops.name e) "")) [
    | inl h ↦ rw (h, if◌then◌else◌) refl
    | inr h ↦ rw (h, if◌then◌else◌) refl
  ]

  register-IsKnown :
      (t : Target E) (items : Dict E)
      → register_target ops s.executables t ≡ ok items
      → IsKnown t items
  unfolding register_target register
  register-IsKnown (by_name n) items h = cc
  register-IsKnown (itself e) items h = by_clash (clashes ops (Dict.get s.executables key) e) h
    where
      key : String
      key = key_of ops (some (ops.name e)) e

      by_clash :
          (b : Bool)
          → (if b
              then err (plain ErrorClass.configuration_error)
              else ok (Dict.put s.executables key e))
            ≡ ok items
          → Dict.get items (ops.name e) ≡ some e
      by_clash true h = cc
      by_clash false h =
          let put : items ≡ Dict.put s.executables key e = cc in
          ap (λ l. Dict.get l (ops.name e)) put
          ∙ ap (λ k. Dict.get (Dict.put s.executables k e) (ops.name e)) (key_of-name e)
          ∙ get-put_self s.executables (ops.name e) e

  submit_with_lem :
      (items : Result (Dict E)) (d : Result (Option PolicyDict))
      → register_target ops s.executables target ≡ items
      → policy_dict policy ≡ d
      → Submitted
          (submit_with ops target input metadata id job_id s items d).0
          (submit_with ops target input metadata id job_id s items d).1
  unfolding submit_with enqueue
  submit_with_lem (err x) d h k = (refl, refl)
  submit_with_lem (ok items) (err x) h k = (refl, refl)
  submit_with_lem (ok items) (ok d) h k =
      let name = same_name target in
      (
        d,
        IsDictOf-policy_dict policy d k,
        refl,
        register-IsKnown target items h,
        get_execution-save_execution s.store (intent ops target input d metadata id) id
            ∙ unfold intent in
              rw (eq_refl id) (
                ap (λ n. some (record (intent ops target input d metadata id) { executable = n }))
                  name),
        unfold run_job in
            ap
              (λ n. record s.jobs {
                queue =
                    s.jobs.queue
                    ++ record (run_job ops target input d metadata id job_id) { executable = n }
                      ∷ [];
              })
              name,
      )

  -- `submit` returns the new id, with the executable registered, the execution recorded as created
  -- with the input, the policy as a dict and the metadata, and one run job of the same parts and of no
  -- attempts at the end of the queue, which is else as it was; or it raises and leaves the store and
  -- the queue as they were.
  pub submit_lem :
      Submitted
        (submit ops target input policy metadata id job_id s).0
        (submit ops target input policy metadata id job_id s).1
  unfolding submit
  submit_lem =
      submit_with_lem (register_target ops s.executables target) (policy_dict policy) refl refl
