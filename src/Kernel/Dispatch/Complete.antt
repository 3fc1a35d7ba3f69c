-- ===== src/Kernel/Dispatch/Complete.antt =====
-- That a whole `Run` dispatches what waits for the times that ns-3 calls.
use mathlib.Core.Option
use ns3_bellhop_platform.Prelude.{
  ℕ, ◌≡◌, refl, sym, ap, subst, inl, inr, Bool, true, false, arith, Option-cases, Option, none,
  some, map, List, [], ◌∷◌, ◌++◌, All, All-map, All-front, Among-left, Among-right, Among, here,
  there, Pairwise,
}
use ns3_bellhop_platform.Contracts.Errors.{Error, ok}
use ns3_bellhop_platform.Contracts.Time.{SimTime, time_lt}
use ns3_bellhop_platform.Kernel.Gateway.{Ns3}
use ns3_bellhop_platform.Kernel.Dispatcher.{EventDispatcher}
use ns3_bellhop_platform.Kernel.Dispatcher.Schedule.{IsQueue}
use ns3_bellhop_platform.Kernel.Dispatch.{
  EventCallback, Outcome, dispatch_time, run_calls, error_status, run,
}
use ns3_bellhop_platform.Kernel.Dispatch.Pending.{pending}
use ns3_bellhop_platform.Kernel.Dispatch.Loop.{Runs, failed, done, next}
use ns3_bellhop_platform.Kernel.Dispatch.Elsewhere.{dispatch_time-Grows}
use ns3_bellhop_platform.Kernel.Dispatch.Rounds.{
  dispatch_time-Runs, dispatch_time-IsQueue, dispatch_time_complete,
}
use ns3_bellhop_platform.Kernel.Dispatch.Steps.{run_calls_cases}
use ns3_bellhop_platform.Kernel.Dispatch.Whole.{advanced-IsQueue}

Among-later :
    {S : Type 0} (t u : SimTime) (calls : List (SimTime × (S → S)))
    → All (λ c. time_lt t c.0 ≡ true) calls
    → Among u (map (λ c. c.0) calls)
    → time_lt t u ≡ true
Among-later t u [] h m = elim m [ ]
Among-later t u (c ∷ calls) h (here e) = rw e h.0
Among-later t u (c ∷ calls) h (there m) = Among-later t u calls h.1 m

error_status-ok : (o : Option Error) → error_status o ≡ ok tt → o ≡ none
error_status-ok none h = refl
error_status-ok (some e) h = cc

module _ {T S C A : Type 0} (ns3 : Ns3 T S SimTime) (body : C → EventCallback C A)
    (stop : S → S) where
  Runs-error :
      (t : SimTime) {d : EventDispatcher S C} {a : A} {o : Outcome S C A} (e : Error)
      → Runs ns3 body stop t d a o
      → d.execution_error ≡ some e
      → o.dispatcher.execution_error ≡ some e
  Runs-error t e (failed d a f h) k = k
  Runs-error t e (done d a h l) k = cc
  Runs-error t e (next d a r rest o h l run) k = cc

  dispatch_time-error :
      (t : SimTime) (fuel : ℕ) (d : EventDispatcher S C) (a : A) (o : Outcome S C A) (e : Error)
      → dispatch_time ns3 body stop fuel t d a ≡ some o
      → d.execution_error ≡ some e
      → o.dispatcher.execution_error ≡ some e
  dispatch_time-error t fuel d a o e h k =
      let (o', run, same) = dispatch_time-Runs ns3 body stop t fuel d a o h in
      subst (λ x. x.dispatcher.execution_error ≡ some e) same (Runs-error t e run k)

  module _ (stopped : S → Bool) where
    -- An execution error stays.
    run_calls-error :
        (fuel : ℕ) (calls : List (SimTime × (S → S))) (d : EventDispatcher S C) (a : A)
        (o : Outcome S C A) (e : Error)
        → run_calls ns3 body stop stopped fuel calls d a ≡ some o
        → d.execution_error ≡ some e
        → o.dispatcher.execution_error ≡ some e
    unfolding run_calls
    run_calls-error fuel [] d a o e h k =
        subst (λ x. x.dispatcher.execution_error ≡ some e) (Option.some_inj.0 h) k
    run_calls-error fuel ((t, advance) ∷ calls) d a o e h k =
        elim (run_calls_cases ns3 body stop stopped fuel t advance calls d a o h) [
          | inl (_, same) ↦ subst (λ x. x.dispatcher.execution_error ≡ some e) same k
          | inr step ↦
              subst (λ x. x.dispatcher.execution_error ≡ some e) step.together
                (run_calls-error fuel calls step.first.dispatcher step.first.shared step.others e
                  step.went_on
                  (dispatch_time-error t fuel (record d { simulator = advance d.simulator }) a
                    step.first e step.called k))
        ]

    -- With no error at the end, there was none before.
    no_error_before :
        (fuel : ℕ) (calls : List (SimTime × (S → S))) (d : EventDispatcher S C) (a : A)
        (o : Outcome S C A)
        → run_calls ns3 body stop stopped fuel calls d a ≡ some o
        → o.dispatcher.execution_error ≡ none
        → d.execution_error ≡ none
    no_error_before fuel calls d a o h n = elim (Option-cases d.execution_error) [
      | inl e ↦ e
      | inr (e, f) ↦ cc (n, run_calls-error fuel calls d a o e h f)
    ]

    -- The run was neither stopped nor ended by an error.
    abbrev Ran : Outcome S C A → Type 0
    Ran o = (o.dispatcher.execution_error ≡ none) × (stopped o.dispatcher.simulator ≡ false)

    run_calls_complete :
        (u : SimTime) (fuel : ℕ) (calls : List (SimTime × (S → S))) (d : EventDispatcher S C)
        (a : A) (o : Outcome S C A)
        → IsQueue d
        → Pairwise (λ b c. time_lt b.0 c.0 ≡ true) calls
        → Among u (map (λ c. c.0) calls)
        → run_calls ns3 body stop stopped fuel calls d a ≡ some o
        → Ran o
        → All (λ r. Among r.key o.dispatched) (pending u d.buckets)
    run_calls_complete u fuel [] d a o q r m h ran = elim m [ ]
    run_calls_complete u fuel ((t, advance) ∷ calls) d a o q r m h (n, going) =
        elim (run_calls_cases ns3 body stop stopped fuel t advance calls d a o h) [
          | inl (halted, same) ↦ cc (halted, going)
          | inr step ↦
              let d₁ = record d { simulator = advance d.simulator } in
              let q₁ = advanced-IsQueue ns3 body stop stopped d (advance d.simulator) q in
              let o₁ = step.first in
              let o₂ = step.others in
              let q₂ = dispatch_time-IsQueue ns3 body stop t fuel d₁ a o₁ q₁ step.called in
              let ran = subst Ran (sym step.together) (n, going) in
              let n₁ = no_error_before fuel calls o₁.dispatcher o₁.shared o₂ step.went_on ran.0 in
              subst (λ x. All (λ r. Among r.key x.dispatched) (pending u d.buckets)) step.together
                (elim m [
                  | here e ↦
                      let (all, _) =
                        dispatch_time_complete ns3 body stop t fuel d₁ a o₁ q₁ step.called n₁ in
                      subst
                        (λ v.
                          All (λ r. Among r.key (o₁.dispatched ++ o₂.dispatched))
                            (pending v d.buckets))
                        (sym e)
                        (All-map (pending t d.buckets) (λ r k. Among-left o₂.dispatched k) all)
                  | there m' ↦
                      let late = Among-later t u calls r.0 m' in
                      let grown =
                        dispatch_time-Grows ns3 body stop t u (ground arith) fuel d₁ a o₁ q₁
                          step.called in
                      let rest =
                        run_calls_complete u fuel calls o₁.dispatcher o₁.shared o₂ q₂ r.1 m'
                          step.went_on ran in
                      All-map (pending u d.buckets) (λ r k. Among-right o₁.dispatched k)
                        (All-front (λ r. Among r.key o₂.dispatched) (pending u d.buckets)
                          grown.added
                          (subst (All (λ r. Among r.key o₂.dispatched)) grown.grown rest))
                ])
        ]

    -- Where ns-3 calls in strictly ascending order of times, a `Run` from a well-formed queue that
    -- returns ok, and at whose end ns-3 is not stopped, has dispatched every event that waited for
    -- a time that ns-3 called.
    pub run_complete :
        (u : SimTime) (fuel : ℕ) (calls : List (SimTime × (S → S))) (d : EventDispatcher S C)
        (a : A) (o : Outcome S C A)
        → IsQueue d
        → Pairwise (λ b c. time_lt b.0 c.0 ≡ true) calls
        → Among u (map (λ c. c.0) calls)
        → run ns3 body stop stopped fuel calls d a ≡ some (o, ok tt)
        → stopped o.dispatcher.simulator ≡ false
        → All (λ r. Among r.key o.dispatched) (pending u d.buckets)
    unfolding run
    run_complete u fuel calls d a o q r m h going =
        let (o', k, same) =
          (Option.map-eq-some_iff
              (λ (o : Outcome S C A). (o, error_status o.dispatcher.execution_error)) _).0
            h in
        let q' : IsQueue
            (record d { execution_error = none; simulator = ns3.begin_run d.simulator }) =
          record { number_fits = q.number_fits; ascending = q.ascending; each = q.each } in
        let same_o = ap (λ x. x.0) same in
        let clean = error_status-ok o'.dispatcher.execution_error (ap (λ x. x.1) same) in
        subst (λ x. All (λ r. Among r.key x.dispatched) (pending u d.buckets)) same_o
          (run_calls_complete u fuel calls
            (record d { execution_error = none; simulator = ns3.begin_run d.simulator }) a o' q' r m
            k (clean, subst (λ x. stopped x.dispatcher.simulator ≡ false) (sym same_o) going))
