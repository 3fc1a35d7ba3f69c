-- ===== src/Kernel/Dispatch/Shared.antt =====
-- What every callback keeps of the shared state, a run keeps.
use mathlib.Core.Option
use ns3_bellhop_platform.Prelude.{
  ℕ, ◌≡◌, sym, subst, ◌∙◌, inl, inr, Bool, Bool-cases, arith, Option-cases, none, some, List, [],
  ◌∷◌,
}
use ns3_bellhop_platform.Contracts.Errors.{Result}
use ns3_bellhop_platform.Contracts.Time.{SimTime}
use ns3_bellhop_platform.Kernel.Gateway.{Ns3, platform_now}
use ns3_bellhop_platform.Kernel.Dispatcher.{EventKey, EventDispatcher, schedule_at}
use ns3_bellhop_platform.Kernel.Dispatch.{
  EventCallback, finish, work, ask_now, schedule, call, started, Outcome, and_first, dispatch_time,
  run_calls, error_status, run,
}
use ns3_bellhop_platform.Kernel.Dispatch.Loop.{Runs, failed, done, next}
use ns3_bellhop_platform.Kernel.Dispatch.Rounds.{dispatch_time-Runs}
use ns3_bellhop_platform.Kernel.Dispatch.Whole.{run_calls_next, run_calls-stopped}

-- Each thing that the callback does keeps `P`.
abbrev pub Keeps : {C A : Type 0} → (A → Type 0) → EventCallback C A → Type 0
Keeps P (finish status) = Unit
Keeps {C} {A} P (work f rest) = (a : A) → P a → P (f a) × Keeps P (rest a)
Keeps P (ask_now rest) = (now : Result SimTime) → Keeps P (rest now)
Keeps P (schedule t phase callback rest) = (key : Result EventKey) → Keeps P (rest key)

module _ {T S C A : Type 0} (ns3 : Ns3 T S SimTime) (P : A → Type 0) where
  call-keeps :
      (c : EventCallback C A) (d : EventDispatcher S C) (a : A)
      → Keeps P c
      → P a
      → P (call ns3 c d a).1
  unfolding call
  call-keeps (finish status) d a k p = p
  call-keeps (work f rest) d a k p =
      let (now, after) = k a p in call-keeps (rest a) d (f a) after now
  call-keeps (ask_now rest) d a k p =
      call-keeps (rest (platform_now ns3 d.simulator)) d a (k (platform_now ns3 d.simulator)) p
  call-keeps (schedule t phase callback rest) d a k p =
      call-keeps (rest (schedule_at ns3 d t phase callback).1)
        (schedule_at ns3 d t phase callback).0 a (k (schedule_at ns3 d t phase callback).1) p

  module _ (body : C → EventCallback C A) (keeps : (c : C) → Keeps P (body c)) (stop : S → S) where
    Runs-keeps :
        (t : SimTime) {d : EventDispatcher S C} {a : A} {o : Outcome S C A}
        → Runs ns3 body stop t d a o
        → P a
        → P o.shared
    Runs-keeps t (failed d a e h) p = p
    Runs-keeps t (done d a h k) p = p
    Runs-keeps t (next d a r rest o h k runs) p =
        Runs-keeps t runs (call-keeps (body r.callback) (started t r rest d) a (keeps r.callback) p)

    dispatch_time-keeps :
        (fuel : ℕ) (t : SimTime) (d : EventDispatcher S C) (a : A) (o : Outcome S C A)
        → P a
        → dispatch_time ns3 body stop fuel t d a ≡ some o
        → P o.shared
    dispatch_time-keeps fuel t d a o p h =
        let (o', runs, same) = dispatch_time-Runs ns3 body stop t fuel d a o h in
        subst (λ x. P x.shared) same (Runs-keeps t runs p)

    module _ (stopped : S → Bool) where
      run_calls-keeps :
          (fuel : ℕ) (calls : List (SimTime × (S → S))) (d : EventDispatcher S C) (a : A)
          (o : Outcome S C A)
          → P a
          → run_calls ns3 body stop stopped fuel calls d a ≡ some o
          → P o.shared
      unfolding run_calls
      run_calls-keeps fuel [] d a o p h = subst (λ x. P x.shared) (Option.some_inj.0 h) p
      run_calls-keeps fuel ((t, advance) ∷ calls) d a o p h =
          elim (Bool-cases (stopped d.simulator)) [
            | inl e ↦
                subst (λ x. P x.shared)
                  (Option.some_inj.0 (
                    sym (run_calls-stopped ns3 body stop stopped fuel ((t, advance) ∷ calls) d a e)
                    ∙ h))
                  p
            | inr e ↦
                let d' = record d { simulator = advance d.simulator } in
                elim (Option-cases (dispatch_time ns3 body stop fuel t d' a)) [
                  | inl f ↦ absurd (ground arith)
                  | inr (o₁, f) ↦
                      let (o₂, k, same) = (Option.map-eq-some_iff (and_first o₁) _).0 (
                        sym (run_calls_next ns3 body stop stopped fuel t advance calls d a o₁ e f)
                        ∙ h) in
                      subst (λ x. P x.shared) same
                        (run_calls-keeps fuel calls o₁.dispatcher o₁.shared o₂
                          (dispatch_time-keeps fuel t d' a o₁ p f) k)
                ]
          ]

      pub run-keeps :
          (fuel : ℕ) (calls : List (SimTime × (S → S))) (d : EventDispatcher S C) (a : A)
          (o : Outcome S C A) (status : Result (Unit {0}))
          → P a
          → run ns3 body stop stopped fuel calls d a ≡ some (o, status)
          → P o.shared
      unfolding run
      run-keeps fuel calls d a o status p h =
          let (o', k, same) =
            (Option.map-eq-some_iff
                (λ (o : Outcome S C A). (o, error_status o.dispatcher.execution_error)) _).0
              h in
          subst (λ x. P x.0.shared) same
            (run_calls-keeps fuel calls
              (record d { execution_error = none; simulator = ns3.begin_run d.simulator }) a o' p k)
