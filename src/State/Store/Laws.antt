-- ===== src/State/Store/Laws.antt =====
-- The contract of coflowai/state/store.py that the runtime relies on.
use coflowai.Base.{
  ℕ, String, ◌≡◌, refl, some, Bool, true, false, List, [], ◌∷◌, ◌++◌, filter, contains, leb, not,
  str_eq, eq_iff, eq_refl, arith, if◌then◌else◌, last?-append_one, Bool-cases, inl, inr,
}
use mathlib.Core.List.{append-nil}
use coflowai.Base.Dict.{get-put}
use coflowai.State.Checkpoint.{Checkpoint, ExecutionRecord}
use coflowai.State.Store.{
  Store, save_execution, get_execution, list_checkpoints, save_checkpoint, latest_checkpoint,
  checkpoint_at_step, acquire_lock, release_lock,
}

-- After a save, the saved record is found under its id, and every other id finds what it found.
pub get_execution-save_execution :
    (s : Store) (r : ExecutionRecord) (id : String)
    → get_execution (save_execution s r) id
      ≡ (if str_eq r.execution_id id then some r else get_execution s id)
unfolding get_execution save_execution
get_execution-save_execution s r id = get-put s.executions r.execution_id id r

pub list_checkpoints-save_checkpoint :
    (s : Store) (c : Checkpoint) (id : String)
    → list_checkpoints (save_checkpoint s c) id ≡ (
        if str_eq c.execution_id id
        then list_checkpoints s c.execution_id ++ c ∷ []
        else list_checkpoints s id)
unfolding list_checkpoints save_checkpoint
list_checkpoints-save_checkpoint s c id = rw get-put (ground arith)

-- A saved checkpoint is the latest of its execution, and the latest of every other execution stays.
pub latest_checkpoint-save_checkpoint :
    (s : Store) (c : Checkpoint) (id : String)
    → latest_checkpoint (save_checkpoint s c) id
      ≡ (if str_eq c.execution_id id then some c else latest_checkpoint s id)
unfolding latest_checkpoint
latest_checkpoint-save_checkpoint s c id = elim (Bool-cases (str_eq c.execution_id id)) [
  | inl e ↦
      rw (list_checkpoints-save_checkpoint s c id, e)
        (last?-append_one (list_checkpoints s c.execution_id) c)
  | inr e ↦ rw (list_checkpoints-save_checkpoint s c id, e)
]

filter-append :
    (keep : Checkpoint → Bool) (xs ys : List Checkpoint)
    → filter keep (xs ++ ys) ≡ filter keep xs ++ filter keep ys
filter-append keep [] ys = refl
filter-append keep (x ∷ xs) ys = ground (arith, filter-append keep xs ys)

-- A fork finds the checkpoint that was saved last among those not past the step: saving one that is
-- past it changes nothing, and any other becomes the one that is found.
pub checkpoint_at_step-save_checkpoint :
    (s : Store) (c : Checkpoint) (step : ℕ)
    → checkpoint_at_step (save_checkpoint s c) c.execution_id step
      ≡ (if leb c.step step then some c else checkpoint_at_step s c.execution_id step)
unfolding checkpoint_at_step
checkpoint_at_step-save_checkpoint s c step =
    let old = list_checkpoints s c.execution_id in
    let keep = λ (k : Checkpoint). leb k.step step in
    elim (Bool-cases (leb c.step step)) [
      | inl e ↦
          rw
            (
              list_checkpoints-save_checkpoint s c c.execution_id,
              eq_refl c.execution_id,
              filter-append keep old (c ∷ []),
              e,
            )
            (last?-append_one (filter keep old) c)
      | inr e ↦ rw (
        list_checkpoints-save_checkpoint s c c.execution_id,
        eq_refl c.execution_id,
        filter-append keep old (c ∷ []),
        e,
        append-nil,
      )
    ]

pub contains-release :
    (l : List String) (a b : String)
    → contains (filter (λ k. not (str_eq k a)) l) b ≡ (if str_eq a b then false else contains l b)
contains-release [] a b = ground arith
contains-release (k ∷ l) a b =
    ground (arith, contains-release l a b, eq_iff a b, eq_iff k a, eq_iff k b)

-- A lock is granted exactly when it is not held; then it is refused until it is released, while
-- the locks of other executions are granted or refused as before.
pub acquire_lock_lem :
    (s : Store) (a b : String)
    → ((acquire_lock s a).0 ≡ not (contains s.locks a))
      × ((acquire_lock (acquire_lock s a).1 b).0
          ≡ (if str_eq a b then false else (acquire_lock s b).0))
      × ((acquire_lock (release_lock s a) b).0
          ≡ (if str_eq a b then true else (acquire_lock s b).0))
unfolding acquire_lock release_lock
acquire_lock_lem s a b =
    (ground arith, ground (arith, eq_iff a b), ground (arith, contains-release s.locks a b))
