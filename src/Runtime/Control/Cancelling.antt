-- ===== src/Runtime/Control/Cancelling.antt =====
-- What `cancel` of coflowai/runtime/runtime.py does to an execution that is not running.
use coflowai.Base.{
  ◌≡◌, refl, ap, ◌∙◌, String, none, some, Bool, true, false, arith, if◌then◌else◌, eq_refl,
}
use coflowai.Base.Dict
use coflowai.Core.Types.{cancelled, in_statuses, terminal_statuses, valid_transitions}
use coflowai.Core.Errors.{Result, ok}
use coflowai.State.Checkpoint.{ExecutionRecord, reason_text, touch}
use coflowai.State.Store.{get_execution}
use coflowai.State.Store.Laws.{get_execution-save_execution}
use coflowai.Runtime.Runtime.{Runtime, transition, publish}
use coflowai.Runtime.Control.{cancel_record, cancel_stored, cancel_with, cancel}

-- Every status that is not terminal may become `cancelled`.
transition-cancelled :
    (r : ExecutionRecord)
    → in_statuses r.status terminal_statuses ≡ false
    → transition r cancelled ≡ ok (record r { status = cancelled })
unfolding transition valid_transitions touch
transition-cancelled r h = ground arith

module _ {E : Type 0} (id reason : String) (rt : Runtime E) where
  cancel_stored-open :
      (r : ExecutionRecord)
      → in_statuses r.status terminal_statuses ≡ false
      → cancel_stored id reason rt (some r)
        ≡ cancel_record id reason rt (ok (record r { status = cancelled }))
  unfolding cancel_stored
  cancel_stored-open r h =
      rw (h, if◌then◌else◌) (ap (cancel_record id reason rt) (transition-cancelled r h))

  -- For an execution that no context runs and whose record is stored: if the status is not
  -- terminal, `cancel` returns true and the record is stored as cancelled, with the reason; if it
  -- is terminal, `cancel` returns false and changes nothing.
  pub cancel_lem :
      (r : ExecutionRecord)
      → Dict.get rt.active id ≡ none
      → get_execution rt.store id ≡ some r
      → r.execution_id ≡ id
      → (in_statuses r.status terminal_statuses ≡ true → cancel id reason rt ≡ (ok false, rt))
        × (in_statuses r.status terminal_statuses ≡ false
            → ((cancel id reason rt).0 ≡ ok true)
              × (get_execution (cancel id reason rt).1.store id
                  ≡ some (record r { status = cancelled; error = some (reason_text reason) })))
  unfolding cancel
  cancel_lem r idle found same =
      let stored : cancel id reason rt ≡ cancel_stored id reason rt (some r) =
        ap (cancel_with id reason rt) idle ∙ ap (cancel_stored id reason rt) found in
      (
        λ h. stored ∙ (unfold cancel_stored in rw (h, if◌then◌else◌)),
        λ h.
            let whole = stored ∙ cancel_stored-open r h in
            (
              ap (λ (t : Result Bool × Runtime E). t.0) whole ∙ (unfold cancel_record in refl),
              ap (λ (t : Result Bool × Runtime E). get_execution t.1.store id) whole
                  ∙ (unfold cancel_record publish in
                      get_execution-save_execution rt.store
                        (record r { status = cancelled; error = some (reason_text reason) }) id)
                  ∙ rw (same, eq_refl id),
            ),
      )
