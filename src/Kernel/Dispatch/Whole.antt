-- ===== src/Kernel/Dispatch/Whole.antt =====
-- `Run`: that it returns, and what it returns.
use mathlib.Core.Option
use ns3_bellhop_platform.Prelude.{
  ℕ, zero, suc, ◌+◌, ◌≤◌, ◌≡◌, refl, sym, ap, ◌∙◌, inl, inr, Bool, Bool-cases, true, false, arith,
  Option-cases, none, some, List, [], ◌∷◌,
}
use ns3_bellhop_platform.Contracts.Errors.{Status}
use ns3_bellhop_platform.Contracts.Time.{SimTime}
use ns3_bellhop_platform.Kernel.Gateway.{Ns3}
use ns3_bellhop_platform.Kernel.Dispatcher.{EventDispatcher}
use ns3_bellhop_platform.Kernel.Dispatcher.Schedule.{IsQueue}
use ns3_bellhop_platform.Kernel.Dispatch.{
  EventCallback, take_next, Outcome, and_before, dispatch_loop, dispatch_time, entered, finished,
  and_first, run_calls, error_status, run,
}
use ns3_bellhop_platform.Kernel.Dispatch.Effects.{returned_by}
use ns3_bellhop_platform.Kernel.Dispatch.Loop.{loop_failed, loop_emptied, loop_next, nothing_more}
use ns3_bellhop_platform.Kernel.Dispatch.Rounds.{dispatch_time-IsQueue}
use ns3_bellhop_platform.Kernel.Dispatch.Ends.{dispatch_time-returns}

module _ {T S C A : Type 0} (ns3 : Ns3 T S SimTime) (body : C → EventCallback C A)
    (stop : S → S) where
  -- More fuel changes nothing.
  loop_more :
      (t : SimTime) (m n : ℕ) (d : EventDispatcher S C) (a : A) (o : Outcome S C A)
      → m ≤ n
      → dispatch_loop ns3 body stop m t d a ≡ some o
      → dispatch_loop ns3 body stop n t d a ≡ some o
  unfolding dispatch_loop
  loop_more t zero n d a o le h = cc
  loop_more t (suc m) zero d a o le h = absurd (omega arith)
  loop_more t (suc m) (suc n) d a o le h = elim (Option-cases d.execution_error) [
    | inr (e, f) ↦
        loop_failed ns3 body stop t n d a e f ∙ sym (loop_failed ns3 body stop t m d a e f) ∙ h
    | inl f ↦ elim (Option-cases (take_next t d.buckets)) [
      | inl g ↦
          loop_emptied ns3 body stop t n d a f g ∙ sym (loop_emptied ns3 body stop t m d a f g) ∙ h
      | inr ((r, rest), g) ↦
          let before = and_before r.key (returned_by ns3 t body r rest d a) in
          let (o', k, same) =
            (Option.map-eq-some_iff before _).0
              (sym (loop_next ns3 body stop t m d a r rest f g) ∙ h) in
          loop_next ns3 body stop t n d a r rest f g
          ∙ ap (Option.map before) (loop_more t m n _ _ o' (omega arith) k)
          ∙ ap some same
    ]
  ]

  dispatch_time_more :
      (t : SimTime) (m n : ℕ) (d : EventDispatcher S C) (a : A) (o : Outcome S C A)
      → m ≤ n
      → dispatch_time ns3 body stop m t d a ≡ some o
      → dispatch_time ns3 body stop n t d a ≡ some o
  unfolding dispatch_time
  dispatch_time_more t m n d a o le h =
      let (o', k, same) = (Option.map-eq-some_iff finished _).0 h in
      ap (Option.map finished) (loop_more t m n (entered t d) a o' le k) ∙ ap some same

  module _ (stopped : S → Bool) where
    -- One call of `DispatchTime`, then the others.
    pub run_calls_next :
        (fuel : ℕ) (t : SimTime) (advance : S → S) (calls : List (SimTime × (S → S)))
        (d : EventDispatcher S C) (a : A) (o : Outcome S C A)
        → stopped d.simulator ≡ false
        → dispatch_time ns3 body stop fuel t (record d { simulator = advance d.simulator }) a
          ≡ some o
        → run_calls ns3 body stop stopped fuel ((t, advance) ∷ calls) d a
          ≡ Option.map
              (and_first o)
              (run_calls ns3 body stop stopped fuel calls o.dispatcher o.shared)
    unfolding run_calls
    run_calls_next fuel t advance calls d a o e h = ground arith

    pub run_calls-stopped :
        (fuel : ℕ) (calls : List (SimTime × (S → S))) (d : EventDispatcher S C) (a : A)
        → stopped d.simulator ≡ true
        → run_calls ns3 body stop stopped fuel calls d a ≡ some (nothing_more d a)
    unfolding run_calls
    run_calls-stopped fuel [] d a h = refl
    run_calls-stopped fuel ((t, advance) ∷ calls) d a h = ground arith

    run_calls_more :
        (m n : ℕ) (calls : List (SimTime × (S → S))) (d : EventDispatcher S C) (a : A)
        (o : Outcome S C A)
        → m ≤ n
        → run_calls ns3 body stop stopped m calls d a ≡ some o
        → run_calls ns3 body stop stopped n calls d a ≡ some o
    unfolding run_calls
    run_calls_more m n [] d a o le h = h
    run_calls_more m n ((t, advance) ∷ calls) d a o le h = elim (Bool-cases (stopped d.simulator)) [
      | inl e ↦ ground arith
      | inr e ↦
          elim (Option-cases
            (dispatch_time ns3 body stop m t (record d { simulator = advance d.simulator }) a)) [
              | inl f ↦ absurd (ground arith)
              | inr (o₁, f) ↦
                  let (o₂, k, same) =
                    (Option.map-eq-some_iff (and_first o₁) _).0
                      (sym (run_calls_next m t advance calls d a o₁ e f) ∙ h) in
                  run_calls_next n t advance calls d a o₁ e (
                    dispatch_time_more t m n (record d { simulator = advance d.simulator }) a o₁ le
                      f)
                  ∙ ap (Option.map (and_first o₁))
                      (run_calls_more m n calls o₁.dispatcher o₁.shared o₂ le k)
                  ∙ ap some same
            ]
    ]

    pub advanced-IsQueue :
        (d : EventDispatcher S C) (s : S) → IsQueue d → IsQueue (record d { simulator = s })
    advanced-IsQueue d s q = record {
      number_fits = q.number_fits;
      ascending = q.ascending;
      each = q.each;
    }

    run_calls-returns :
        (calls : List (SimTime × (S → S))) (d : EventDispatcher S C) (a : A)
        → IsQueue d
        → (fuel : ℕ) × (o : Outcome S C A) × (run_calls ns3 body stop stopped fuel calls d a
            ≡ some o)
    unfolding run_calls
    run_calls-returns [] d a q = (0, nothing_more d a, refl)
    run_calls-returns ((t, advance) ∷ calls) d a q = elim (Bool-cases (stopped d.simulator)) [
      | inl e ↦ (0, nothing_more d a, run_calls-stopped 0 ((t, advance) ∷ calls) d a e)
      | inr e ↦
          let d₁ = record d { simulator = advance d.simulator } in
          let q₁ = advanced-IsQueue d (advance d.simulator) q in
          let (f₁, o₁, h₁) = dispatch_time-returns ns3 body stop t d₁ a q₁ in
          let (f₂, o₂, h₂) =
            run_calls-returns calls o₁.dispatcher o₁.shared
              (dispatch_time-IsQueue ns3 body stop t f₁ d₁ a o₁ q₁ h₁) in
          (
            f₁ + f₂,
            and_first o₁ o₂,
            run_calls_next (f₁ + f₂) t advance calls d a o₁ e
                  (dispatch_time_more t f₁ (f₁ + f₂) d₁ a o₁ (omega arith) h₁)
                ∙ ap (Option.map (and_first o₁))
                    (run_calls_more f₂ (f₁ + f₂) calls o₁.dispatcher o₁.shared o₂ (omega arith) h₂),
          )
    ]

    -- For every list of times that ns-3 calls, `Run` on a well-formed queue returns with some fuel.
    pub run-returns :
        (calls : List (SimTime × (S → S))) (d : EventDispatcher S C) (a : A)
        → IsQueue d
        → (fuel : ℕ) × (o : Outcome S C A) × (status : Status) × (run ns3 body stop stopped fuel
              calls d a
            ≡ some (o, status))
    unfolding run
    run-returns calls d a q =
        let (fuel, o, h) =
          run_calls-returns calls
            (record d { execution_error = none; simulator = ns3.begin_run d.simulator }) a
            (record { number_fits = q.number_fits; ascending = q.ascending; each = q.each }) in
        (
          fuel,
          o,
          error_status o.dispatcher.execution_error,
          ap (Option.map (λ (o : Outcome S C A). (o, error_status o.dispatcher.execution_error))) h,
        )
