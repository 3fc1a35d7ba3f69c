-- ===== src/Kernel/Dispatch/Returned.antt =====
-- What `Run` returns: the error of the callback that failed, if one did.
use mathlib.Core.Option
use mathlib.Core.List.{append-nil}
use ns3_bellhop_platform.Prelude.{
  ℕ, ◌≡◌, refl, sym, ap, subst, ◌∙◌, ◌⊎◌, inl, inr, Bool, Bool-cases, true, arith, Option-cases,
  none, some, List, [], ◌∷◌, ◌++◌,
}
use ns3_bellhop_platform.Contracts.Errors.{Error, Status, ok, err, Result-cases}
use ns3_bellhop_platform.Contracts.Time.{SimTime}
use ns3_bellhop_platform.Kernel.Gateway.{Ns3}
use ns3_bellhop_platform.Kernel.Dispatcher.{EventDispatcher}
use ns3_bellhop_platform.Kernel.Dispatch.{
  EventCallback, call, started, settle, Outcome, dispatch_time, and_first, run_calls, error_status,
  run,
}
use ns3_bellhop_platform.Kernel.Dispatch.Effects.{IsActive, call-Effect, after-Round, returned_by}
use ns3_bellhop_platform.Kernel.Dispatch.Loop.{Runs, failed, done, next}
use ns3_bellhop_platform.Kernel.Dispatch.Rounds.{dispatch_time-Runs, entered-IsActive}
use ns3_bellhop_platform.Kernel.Dispatch.Whole.{run_calls_next, run_calls-stopped}

-- All callbacks returned ok, and so does this, or the last one failed, and this is its error.
abbrev pub EndsIn : List Status → Status → Type 0
EndsIn [] status = status ≡ ok tt
EndsIn (ok _ ∷ rest) status = EndsIn rest status
EndsIn (err e ∷ rest) status = (rest ≡ []) × (status ≡ err e)

EndsIn-more :
    (xs ys : List Status) (status : Status)
    → EndsIn xs (ok tt)
    → EndsIn ys status
    → EndsIn (xs ++ ys) status
EndsIn-more [] ys status h k = k
EndsIn-more (ok u ∷ xs) ys status h k = EndsIn-more xs ys status h k
EndsIn-more (err e ∷ xs) ys status h k = absurd (ground arith)

module _ {T S C A : Type 0} (ns3 : Ns3 T S SimTime) (body : C → EventCallback C A) (stop : S → S)
    (stopped : S → Bool) where
  settle_ok :
      (status : Status) (u : Unit {0}) (d : EventDispatcher S C)
      → status ≡ ok u
      → (settle stop status d).execution_error ≡ d.execution_error
  settle_ok (ok v) u d h = refl
  settle_ok (err e) u d h = absurd (ground arith)

  settle_err :
      (status : Status) (e : Error) (d : EventDispatcher S C)
      → ((s : S) → stopped (stop s) ≡ true)
      → status ≡ err e
      → ((settle stop status d).execution_error ≡ some e)
        × (stopped (settle stop status d).simulator ≡ true)
  settle_err (ok v) e d stops h = absurd (ground arith)
  settle_err (err f) e d stops h = (ground arith, stops d.simulator)

  -- The status so far, and that ns-3 is stopped once there is an error.
  abbrev Settled : Outcome S C A → Type 0
  Settled o =
      EndsIn o.returned (error_status o.dispatcher.execution_error)
      × ((o.dispatcher.execution_error ≡ none) ⊎ (stopped o.dispatcher.simulator ≡ true))

  module _ (t : SimTime) where
    -- With an error nothing more is dispatched.
    Runs-failed :
        {d : EventDispatcher S C} {a : A} {o : Outcome S C A} (e : Error)
        → Runs ns3 body stop t d a o
        → d.execution_error ≡ some e
        → (o.returned ≡ []) × (o.dispatcher ≡ d)
    Runs-failed e (failed d a f h) k = (refl, refl)
    Runs-failed e (done d a h l) k = cc
    Runs-failed e (next d a r rest o h l run) k = cc

    Runs-Settled :
        {d : EventDispatcher S C} {a : A} {o : Outcome S C A}
        → ((s : S) → stopped (stop s) ≡ true)
        → Runs ns3 body stop t d a o
        → IsActive t d
        → d.execution_error ≡ none
        → Settled o
    Runs-Settled stops (failed d a e h) active n = cc
    Runs-Settled stops (done d a h k) active n = (ap error_status n, inl n)
    Runs-Settled stops (next d a r rest o h k run) active n =
        let status = returned_by ns3 t body r rest d a in
        let d' = (call ns3 (body r.callback) (started t r rest d) a).0 in
        let effect =
          call-Effect ns3 t r.key.phase (body r.callback) (started t r rest d) a (record {
            dispatching = active.dispatching;
            at_time = active.at_time;
            in_phase = refl;
          }) in
        elim (Result-cases (returned_by ns3 t body r rest d a)) [
          | inl (u, f) ↦
              let still_none = settle_ok status u d' f ∙ effect.same.execution_error ∙ n in
              let (rest_ends, stays) =
                Runs-Settled stops run (after-Round ns3 t body stop r rest d a k active).active
                  still_none in
              (
                subst (λ x. EndsIn (x ∷ o.returned) (error_status o.dispatcher.execution_error))
                    (sym f) rest_ends,
                stays,
              )
          | inr (e, f) ↦
              let (failed_now, is_stopped) = settle_err status e d' stops f in
              let (no_more, same) = Runs-failed e run failed_now in
              (
                subst (λ x. EndsIn (x ∷ o.returned) (error_status o.dispatcher.execution_error))
                    (sym f)
                    (
                      no_more,
                      ap (λ x. error_status x.execution_error) same ∙ ap error_status failed_now,
                    ),
                inr (ap (λ x. stopped x.simulator) same ∙ is_stopped),
              )
        ]

    dispatch_time-Settled :
        (fuel : ℕ) (d : EventDispatcher S C) (a : A) (o : Outcome S C A)
        → ((s : S) → stopped (stop s) ≡ true)
        → dispatch_time ns3 body stop fuel t d a ≡ some o
        → d.execution_error ≡ none
        → Settled o
    dispatch_time-Settled fuel d a o stops h n =
        let (o', run, same) = dispatch_time-Runs ns3 body stop t fuel d a o h in
        subst Settled same (Runs-Settled stops run (entered-IsActive ns3 body stop t d) n)

  -- After an error nothing more is called.
  Settled-stopped :
      (fuel : ℕ) (calls : List (SimTime × (S → S))) (o o' : Outcome S C A)
      → stopped o.dispatcher.simulator ≡ true
      → Settled o
      → run_calls ns3 body stop stopped fuel calls o.dispatcher o.shared ≡ some o'
      → Settled (and_first o o')
  Settled-stopped fuel calls o o' e (ends, stays) h =
      subst (λ x. Settled (and_first o x))
        (Option.some_inj.0
          (sym (run_calls-stopped ns3 body stop stopped fuel calls o.dispatcher o.shared e) ∙ h))
        (
          subst (λ x. EndsIn x (error_status o.dispatcher.execution_error))
              (sym (append-nil o.returned)) ends,
          inr e,
        )

  run_calls-Settled :
      (fuel : ℕ) (calls : List (SimTime × (S → S))) (d : EventDispatcher S C) (a : A)
      (o : Outcome S C A)
      → ((s : S) → stopped (stop s) ≡ true)
      → d.execution_error ≡ none
      → run_calls ns3 body stop stopped fuel calls d a ≡ some o
      → Settled o
  unfolding run_calls
  run_calls-Settled fuel [] d a o stops n h =
      subst Settled (Option.some_inj.0 h) (ap error_status n, inl n)
  run_calls-Settled fuel ((t, advance) ∷ calls) d a o stops n h =
      elim (Bool-cases (stopped d.simulator)) [
        | inl e ↦
            subst Settled
              (Option.some_inj.0 (
                sym (run_calls-stopped ns3 body stop stopped fuel ((t, advance) ∷ calls) d a e)
                ∙ h))
              (ap error_status n, inl n)
        | inr e ↦
            let d' = record d { simulator = advance d.simulator } in
            elim (Option-cases (dispatch_time ns3 body stop fuel t d' a)) [
              | inl f ↦ absurd (ground arith)
              | inr (o₁, f) ↦
                  let (o₂, k, same) = (Option.map-eq-some_iff (and_first o₁) _).0 (
                    sym (run_calls_next ns3 body stop stopped fuel t advance calls d a o₁ e f)
                    ∙ h) in
                  let first = dispatch_time-Settled t fuel d' a o₁ stops f n in
                  subst Settled same (elim first.1 [
                    | inr now ↦ Settled-stopped fuel calls o₁ o₂ now first k
                    | inl still ↦
                        let others =
                          run_calls-Settled fuel calls o₁.dispatcher o₁.shared o₂ stops still k in
                        (
                          EndsIn-more o₁.returned o₂.returned _
                              (subst (EndsIn o₁.returned) (ap error_status still) first.0) others.0,
                          others.1,
                        )
                  ])
            ]
      ]

  -- Where ns-3 is stopped after Stop, a `Run` that returns ok has called only callbacks that returned
  -- ok. Otherwise it returns the error of the callback that it called last, and all before returned
  -- ok. An error of an earlier run does not count.
  pub run-EndsIn :
      (fuel : ℕ) (calls : List (SimTime × (S → S))) (d : EventDispatcher S C) (a : A)
      (o : Outcome S C A) (status : Status)
      → ((s : S) → stopped (stop s) ≡ true)
      → run ns3 body stop stopped fuel calls d a ≡ some (o, status)
      → EndsIn o.returned status
  unfolding run
  run-EndsIn fuel calls d a o status stops h =
      let (o', k, same) =
        (Option.map-eq-some_iff
            (λ (o : Outcome S C A). (o, error_status o.dispatcher.execution_error)) _).0
          h in
      subst (λ x. EndsIn x.0.returned x.1) same
        (run_calls-Settled fuel calls
          (record d { execution_error = none; simulator = ns3.begin_run d.simulator }) a o' stops
          refl k).0
