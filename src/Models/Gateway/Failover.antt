-- ===== src/Models/Gateway/Failover.antt =====
-- The order in which `call` of coflowai/models/gateway.py tries the candidates.
use coflowai.Base.{
  ℕ, ◌≡◌, refl, ap, ◌∙◌, sym, subst, String, none, some, Bool, true, false, not, ◌||◌, List, [],
  ◌∷◌, ◌++◌, map, arith, Distinct, contains, str_eq, eq_iff, if◌then◌else◌, Bool-cases, ◌⊎◌, inl,
  inr,
}
use coflowai.Core.Errors.{
  ErrorClass, PythonClass, Error, wrapping, python, ok, err, is_cancelled, is_retryable,
}
use coflowai.Core.Context.{ensure_alive}
use coflowai.Core.Retry.{run_with_timeout}
use coflowai.Core.Retry.Keeping.{run_with_retry-permanent}
use coflowai.Policies.Policy.{delay_for}
use coflowai.Core.Session.{Session, emit}
use coflowai.Models.Registry.{RegisteredModel}
use coflowai.Models.Gateway.{
  ModelRequest, Provider, ModelHost, Answer, generated, announced, attempt, finished, called,
  call_one, failover, try_chain, last_name,
}

module _ {W : Type 0} (host : ModelHost W) (latency : ℕ) (request : ModelRequest) where
  abbrev pub names : List (RegisteredModel (Provider W)) → List String
  names ms = map (λ (m : RegisteredModel (Provider W)). m.name) ms

  -- `_call_one`, with the request for the candidate.
  abbrev pub asked : RegisteredModel (Provider W) → Session W → Answer W
  unfolding call_one
  asked m s = call_one host latency m (record request { model = some m.name }) s

  -- One candidate after the other failed with an error that may be retried.
  pub data Failed : List (RegisteredModel (Provider W)) → Session W → Session W → Type 0 where
    nobody : (s : Session W) → Failed [] s s
    another :
        (m : RegisteredModel (Provider W)) (ms : List (RegisteredModel (Provider W)))
        (s t u : Session W) (e : Error)
        → asked m s ≡ some (err e, t)
        → is_retryable e ≡ true
        → Failed ms (emit t "model.failed") u
        → Failed (m ∷ ms) s u

  -- The answer is not an error that a further candidate could mend.
  abbrev pub IsFinal : List (RegisteredModel (Provider W)) → Answer W → Type 0
  IsFinal rest none = Unit
  IsFinal rest (some (ok r, s)) = Unit
  IsFinal rest (some (err e, s)) = (is_cancelled e ≡ true) ⊎ (is_retryable e ≡ false) ⊎ (rest ≡ [])

  -- The answer is that of one candidate, after those before it failed.
  pub record Ended (chain : List (RegisteredModel (Provider W))) (s : Session W) (a : Answer W)
      : Type 0 where
    pub before : List (RegisteredModel (Provider W))
    pub chosen : RegisteredModel (Provider W)
    pub rest : List (RegisteredModel (Provider W))
    pub split : chain ≡ before ++ chosen ∷ rest
    pub reached : Session W
    pub failed : Failed before s reached
    pub answered : asked chosen reached ≡ a
    pub final : IsFinal rest a

  not_last :
      (m k : RegisteredModel (Provider W)) (ks : List (RegisteredModel (Provider W)))
      → contains (names (k ∷ ks)) m.name ≡ false
      → str_eq m.name (last_name host latency k ks) ≡ false
  not_last m k [] h = ground (arith, eq_iff m.name k.name, eq_iff k.name m.name)
  not_last m k (j ∷ ks) h = not_last m j ks (ground arith)

  stops : Error → String → String → Bool
  stops e name last = is_cancelled e || (not (is_retryable e) || str_eq name last)

  IsFinal-last : (a : Answer W) → IsFinal [] a
  IsFinal-last none = tt
  IsFinal-last (some (ok r, s)) = tt
  IsFinal-last (some (err e, s)) = inr (inr refl)

  -- The last candidate has the last word.
  failover-last :
      (name : String) (next : Session W → Answer W) (a : Answer W)
      → failover host latency request name name next a ≡ a
  unfolding failover
  failover-last name next none = refl
  failover-last name next (some (ok r, s)) = refl
  failover-last name next (some (err e, s)) = ground (arith, eq_iff name name)

  module _ (m k : RegisteredModel (Provider W)) (ks : List (RegisteredModel (Provider W)))
      (last : String) (other : str_eq m.name last ≡ false) (s : Session W)
      (ih : (t : Session W)
        → Ended (k ∷ ks) t (try_chain host latency request last (k ∷ ks) t)) where
    failover-Ended :
        (a : Answer W)
        → asked m s ≡ a
        → Ended (m ∷ k ∷ ks) s (
            failover host latency request last m.name
              (try_chain host latency request last (k ∷ ks))
              a)
    unfolding failover
    failover-Ended none h = record {
      before = [];
      chosen = m;
      rest = k ∷ ks;
      split = refl;
      reached = s;
      failed = nobody s;
      answered = h;
      final = tt;
    }
    failover-Ended (some (ok r, t)) h = record {
      before = [];
      chosen = m;
      rest = k ∷ ks;
      split = refl;
      reached = s;
      failed = nobody s;
      answered = h;
      final = tt;
    }
    failover-Ended (some (err e, t)) h =
        elim (Bool-cases (is_cancelled e || (not (is_retryable e) || str_eq m.name last))) [
          | inl g ↦
              rw (g, if◌then◌else◌)
                (record {
                  before = [];
                  chosen = m;
                  rest = k ∷ ks;
                  split = refl;
                  reached = s;
                  failed = nobody s;
                  answered = h;
                  final = why g;
                })
          | inr g ↦
              let i = ih (emit t "model.failed") in
              rw (g, if◌then◌else◌)
                (record {
                  before = m ∷ i.before;
                  chosen = i.chosen;
                  rest = i.rest;
                  split = ap (λ l. m ∷ l) i.split;
                  reached = i.reached;
                  failed = another m i.before s t i.reached e h (ground arith) i.failed;
                  answered = i.answered;
                  final = i.final;
                })
        ]
      where
        why :
            (is_cancelled e || (not (is_retryable e) || str_eq m.name last)) ≡ true
            → IsFinal (k ∷ ks) (some (err e, t))
        why g = elim (Bool-cases (is_cancelled e)) [
          | inl c ↦ inl c
          | inr c ↦ inr (inl (ground arith))
        ]

  -- Where the candidates have different names, the answer to a call is that of one of them, reached
  -- only after each candidate before it failed with an error that may be retried; and it is an error
  -- only if that is a cancellation, is not to be retried, or no candidate is left.
  pub try_chain-Ended :
      (m : RegisteredModel (Provider W)) (ms : List (RegisteredModel (Provider W))) (s : Session W)
      → Distinct (names (m ∷ ms))
      → Ended (m ∷ ms) s (try_chain host latency request (last_name host latency m ms) (m ∷ ms) s)
  unfolding try_chain
  try_chain-Ended m [] s d =
      subst (Ended (m ∷ []) s)
        (sym (failover-last m.name (try_chain host latency request m.name []) (asked m s)))
        (record {
          before = [];
          chosen = m;
          rest = [];
          split = refl;
          reached = s;
          failed = nobody s;
          answered = refl;
          final = IsFinal-last (asked m s);
        })
  try_chain-Ended m (k ∷ ks) s d =
      failover-Ended m k ks (last_name host latency k ks) (not_last m k ks d.0) s
        (λ t. try_chain-Ended k ks t d.1) (asked m s) refl

  abbrev timeout_error : Error
  timeout_error = wrapping ErrorClass.execution_timeout (python PythonClass.timeout_error)

  attempt-timeout :
      (m : RegisteredModel (Provider W)) (own : ModelRequest) (s : Session W) (timeout : ℕ) (w : W)
      → own.timeout_seconds ≡ some timeout
      → ensure_alive (host.now s.world) s.context ≡ ok tt
      → host.timed timeout (m.provider.generate own) s.world
        ≡ (err (python PythonClass.timeout_error), w)
      → attempt host latency m own 0 s ≡ (err timeout_error, record s { world = w })
  unfolding attempt announced
  attempt-timeout m own s timeout w t a h =
      ap (generated host latency m own s) a
      ∙ (unfold generated in rw (t, run_with_timeout) (rw h refl))

  -- A call that runs into its timeout at the first attempt, on a candidate that is not the last, ends
  -- with the error of the timeout: it is not retried, and no fallback is tried.
  pub try_chain-timeout :
      (m : RegisteredModel (Provider W)) (ms : List (RegisteredModel (Provider W))) (last : String)
      (s : Session W) (timeout : ℕ) (w : W)
      → request.timeout_seconds ≡ some timeout
      → ensure_alive (host.now s.world) s.context ≡ ok tt
      → host.timed timeout (m.provider.generate (record request { model = some m.name })) s.world
        ≡ (err (python PythonClass.timeout_error), w)
      → try_chain host latency request last (m ∷ ms) s
        ≡ some (
          err (wrapping ErrorClass.execution_timeout (python PythonClass.timeout_error)),
          emit (record s { world = w }) "model.failed",
        )
  unfolding try_chain call_one finished failover
  try_chain-timeout m ms last s timeout w t a h =
      let own : ModelRequest = record request { model = some m.name } in
      let policy = s.context.policy.retry in
      ap
        (λ r.
          failover host latency request last m.name (try_chain host latency request last ms)
            (called host latency m own r))
        (run_with_retry-permanent (attempt host latency m own) policy.attempts
          (λ n. delay_for policy (host.draw n) n) s (record s { world = w }) timeout_error
          (attempt-timeout m own s timeout w t a h) (unfold is_retryable in refl))
      ∙ (unfold is_retryable in ground arith)
