-- ===== src/Kernel/Dispatch/Steps.antt =====
-- What a run over a list of calls that returns was: it was stopped, or it made the first call.
use mathlib.Core.Option
use ns3_bellhop_platform.Prelude.{
  ℕ, ◌≡◌, sym, ◌∙◌, ◌⊎◌, inl, inr, Bool, Bool-cases, true, false, arith, Option-cases, some, List,
  ◌∷◌,
}
use ns3_bellhop_platform.Contracts.Time.{SimTime}
use ns3_bellhop_platform.Kernel.Gateway.{Ns3}
use ns3_bellhop_platform.Kernel.Dispatcher.{EventDispatcher}
use ns3_bellhop_platform.Kernel.Dispatch.{
  EventCallback, Outcome, dispatch_time, and_first, run_calls,
}
use ns3_bellhop_platform.Kernel.Dispatch.Loop.{nothing_more}
use ns3_bellhop_platform.Kernel.Dispatch.Whole.{run_calls_next, run_calls-stopped}

module _ {T S C A : Type 0} (ns3 : Ns3 T S SimTime) (body : C → EventCallback C A) (stop : S → S)
    (stopped : S → Bool) where
  -- The first call, and the run over the others.
  pub record IsStep (fuel : ℕ) (t : SimTime) (advance : S → S) (calls : List (SimTime × (S → S)))
      (d : EventDispatcher S C) (a : A) (o : Outcome S C A) : Type 0 where
    pub first : Outcome S C A
    pub others : Outcome S C A
    pub running : stopped d.simulator ≡ false
    pub called :
        dispatch_time ns3 body stop fuel t (record d { simulator = advance d.simulator }) a
        ≡ some first
    pub went_on :
        run_calls ns3 body stop stopped fuel calls first.dispatcher first.shared ≡ some others
    pub together : and_first first others ≡ o

  pub run_calls_cases :
      (fuel : ℕ) (t : SimTime) (advance : S → S) (calls : List (SimTime × (S → S)))
      (d : EventDispatcher S C) (a : A) (o : Outcome S C A)
      → run_calls ns3 body stop stopped fuel ((t, advance) ∷ calls) d a ≡ some o
      → (stopped d.simulator ≡ true) × (nothing_more d a ≡ o) ⊎ IsStep fuel t advance calls d a o
  unfolding run_calls
  run_calls_cases fuel t advance calls d a o h = elim (Bool-cases (stopped d.simulator)) [
    | inl e ↦ inl (
      e,
      Option.some_inj.0
          (sym (run_calls-stopped ns3 body stop stopped fuel ((t, advance) ∷ calls) d a e) ∙ h),
    )
    | inr e ↦
        elim (Option-cases
          (dispatch_time ns3 body stop fuel t (record d { simulator = advance d.simulator }) a)) [
            | inl f ↦ absurd (ground arith)
            | inr (o₁, f) ↦
                let (o₂, k, same) = (Option.map-eq-some_iff (and_first o₁) _).0 (
                  sym (run_calls_next ns3 body stop stopped fuel t advance calls d a o₁ e f) ∙ h) in
                inr (record {
                  first = o₁;
                  others = o₂;
                  running = e;
                  called = f;
                  went_on = k;
                  together = same;
                })
          ]
  ]
