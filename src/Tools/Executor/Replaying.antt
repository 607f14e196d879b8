-- ===== src/Tools/Executor/Replaying.antt =====
-- A call of coflowai/tools/executor.py whose tool has side effects, and its second execution.
use coflowai.Base.{
  ℕ, ◌*◌, ◌++◌, ◌≡◌, refl, ap, ◌∙◌, String, Option, none, some, Bool, true, false, List, Value,
  if◌then◌else◌, Bool-cases, inl, inr,
}
use coflowai.Core.Session.{Session, emit}
use coflowai.Base.Dict
use coflowai.Base.Dict.{Dict}
use coflowai.Core.Errors.{ErrorClass, Error, plain, Result, ok, err}
use coflowai.Core.Context.{check_tool_budget}
use coflowai.Core.Context.Keeping.{check_tool_budget-same}
use coflowai.Tools.Registry.{Tool, get, found}
use coflowai.Core.Messages.{ToolCall}
use coflowai.Tools.Calls.{
  Host, Callable, Answer, is_denial_class, is_failure_class, in_allowed, is_of, rate_limit,
}
use coflowai.Tools.Executor.{
  caught, finish, on_ok, key, idempotent_hit, resolve, authorise, serve, limited, resolved, execute,
}

-- The world is still `w`.
abbrev pub Idle : {W : Type 0} → W → Answer W → Type 0
Idle w none = ⊥
Idle w (some (r, s)) = s.world ≡ w

module _ {W : Type 0} (call : ToolCall) (duration : ℕ) where
  caught-world : (e : Error) (s : Session W) → (caught call duration e s).1.world ≡ s.world
  unfolding caught
  caught-world e s = elim (Bool-cases (is_of is_denial_class e)) [
    | inl d ↦ rw (d, if◌then◌else◌) refl
    | inr d ↦ elim (Bool-cases (is_of is_failure_class e)) [
      | inl f ↦ rw (d, if◌then◌else◌) (rw (f, if◌then◌else◌) refl)
      | inr f ↦ rw (d, if◌then◌else◌) (rw (f, if◌then◌else◌) refl)
    ]
  ]

  on_ok-Idle :
      {A : Type 0} (r : Result A) (s : Session W) (next : A → Answer W)
      → ((a : A) → r ≡ ok a → Idle s.world (next a))
      → Idle s.world (on_ok call duration r s next)
  unfolding on_ok
  on_ok-Idle (ok a) s next k = k a refl
  on_ok-Idle (err e) s next k = caught-world e s

  finish-Idle : (v : Value) (s : Session W) → Idle s.world (some (finish call duration v s))
  unfolding finish
  finish-Idle v s = refl

module _ {W : Type 0} (host : Host W) (registry : Dict (Tool (Callable W)))
    (allowed : Option (List String)) (call : ToolCall) (duration : ℕ) where
  pub resolve-get :
      (tool t : Tool (Callable W))
      → Dict.get registry call.name ≡ some tool
      → resolve host registry allowed call duration ≡ ok t
      → t ≡ tool
  unfolding resolve get
  resolve-get tool t e h =
      by_allowed (in_allowed allowed call.name) (Dict.get registry call.name) e h
    where
      by_allowed :
          (b : Bool) (o : Option (Tool (Callable W)))
          → o ≡ some tool
          → (if b then found o else err (plain ErrorClass.tool_not_found)) ≡ ok t
          → t ≡ tool
      by_allowed true (some x) e h = cc
      by_allowed true none e h = cc
      by_allowed false o e h = cc

  module _ (tool : Tool (Callable W)) (v : Value)
      (registered : Dict.get registry call.name ≡ some tool) where
    resolved-Idle :
        (s : Session W)
        → idempotent_hit host s.context tool call ≡ some v
        → Idle s.world (resolved host registry allowed call duration s)
    unfolding resolved limited
    resolved-Idle s hit =
        on_ok-Idle call duration (resolve host registry allowed call duration) s _ λ t e.
          on_ok-Idle call duration (authorise host registry allowed call duration s.context t) s _
            λ u _.
              on_ok-Idle call duration (t.call.validate_arguments call.arguments) s _ λ arguments _.
                let (a, windows) =
                  rate_limit (60 * host.second) (host.now s.world) s.windows t.name
                    t.rate_limit_per_minute in
                let s' : Session W = record s { windows = windows } in
                on_ok-Idle call duration a s' _ λ u _.
                  serve-Idle t arguments s' (Dict.get s.context.state.tool_overrides call.name)
                    (idempotent_hit host s.context t call)
                    (ap (λ (t : Tool (Callable W)). idempotent_hit host s.context t call)
                        (resolve-get tool t registered e)
                      ∙ hit)
      where
        serve-Idle :
            (t : Tool (Callable W)) (arguments : Value) (s : Session W)
            (override hit : Option Value)
            → hit ≡ some v
            → Idle s.world (serve host registry allowed call duration t arguments s override hit)
        serve-Idle t arguments s (some o) hit e = finish-Idle call duration o s
        serve-Idle t arguments s none (some h) e = finish-Idle call duration h s
        serve-Idle t arguments s none none e = cc

    -- An output in the ledger that is not None keeps the tool of a side effect from running.
    pub execute-Idle :
        (s : Session W)
        → idempotent_hit host s.context tool call ≡ some v
        → Idle s.world (execute host registry allowed call duration s)
    unfolding execute
    execute-Idle s hit =
        let requested = emit s "tool.requested" in
        let (checked, c, events) = check_tool_budget (host.now s.world) requested.context in
        let s' : Session W = record requested {
          context = c;
          events = requested.events ++ events;
        } in
        on_ok-Idle call duration checked s' _ λ u _. resolved-Idle s' (
          check_tool_budget-same (λ c. idempotent_hit host c tool call) s.context
            (unfold idempotent_hit key in refl) (host.now s.world)
          ∙ hit)
