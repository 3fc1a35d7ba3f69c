-- ===== src/Kernel/Dispatch/Sequence.antt =====
-- The order of the events over a whole `Run`.
use mathlib.Core.Option
use ns3_bellhop_platform.Prelude.{
  ℕ, ◌≡◌, subst, inl, inr, Bool, true, arith, none, some, List, [], ◌∷◌, All, All-map, All-append,
  Pairwise, Pairwise-append,
}
use ns3_bellhop_platform.Contracts.Errors.{Status}
use ns3_bellhop_platform.Contracts.Time.{SimTime, time_lt}
use ns3_bellhop_platform.Kernel.Gateway.{Ns3}
use ns3_bellhop_platform.Kernel.Dispatcher.{EventKey, EventDispatcher}
use ns3_bellhop_platform.Kernel.Dispatcher.Schedule.{IsQueue}
use ns3_bellhop_platform.Kernel.Dispatch.{
  EventCallback, key_less, Outcome, and_first, run_calls, error_status, run,
}
use ns3_bellhop_platform.Kernel.Dispatch.Ordered.{SameTime}
use ns3_bellhop_platform.Kernel.Dispatch.Rounds.{dispatch_time-IsQueue, dispatch_time-ordered}
use ns3_bellhop_platform.Kernel.Dispatch.Steps.{run_calls_cases}
use ns3_bellhop_platform.Kernel.Dispatch.Whole.{advanced-IsQueue}

-- The key is of a later time.
abbrev pub After : SimTime → EventKey → Type 0
After t key = time_lt t key.time ≡ true

After-key : (t : SimTime) (a b : EventKey) → SameTime t a → After t b → key_less a b ≡ true
unfolding key_less
After-key t a b h k = ground arith

After-same : (t u : SimTime) (k : EventKey) → time_lt t u ≡ true → SameTime u k → After t k
After-same t u k h e = ground arith

After-trans : (t u : SimTime) (k : EventKey) → time_lt t u ≡ true → After u k → After t k
After-trans t u k h e = ground arith

-- The events of some calls: in order, and after every time that is before the calls.
record IsSequence {S C A : Type 0} (calls : List (SimTime × (S → S))) (o : Outcome S C A)
    : Type 0 where
  ascending : Pairwise (λ x y. key_less x y ≡ true) o.dispatched
  later : (t : SimTime) → All (λ c. time_lt t c.0 ≡ true) calls → All (After t) o.dispatched

module _ {S C A : Type 0} where
  -- The events of one call, then those of later ones.
  IsSequence-next :
      (u : SimTime) (advance : S → S) (calls : List (SimTime × (S → S))) (o o' : Outcome S C A)
      → All (λ c. time_lt u c.0 ≡ true) calls
      → All (SameTime u) o.dispatched
      → Pairwise (λ x y. key_less x y ≡ true) o.dispatched
      → IsSequence calls o'
      → IsSequence ((u, advance) ∷ calls) (and_first o o')
  IsSequence-next u advance calls o o' b same order s = record {
    ascending =
        Pairwise-append (λ x y. key_less x y ≡ true) o.dispatched o'.dispatched order s.ascending
          (All-map o.dispatched
            (λ x e. All-map o'.dispatched (λ y l. After-key u x y e l) (s.later u b)) same);
    later = λ t h.
        All-append (After t) o.dispatched o'.dispatched
          (All-map o.dispatched (λ k e. After-same t u k h.0 e) same) (s.later t h.1);
  }

module _ {T S C A : Type 0} (ns3 : Ns3 T S SimTime) (body : C → EventCallback C A) (stop : S → S)
    (stopped : S → Bool) where
  run_calls-IsSequence :
      (fuel : ℕ) (calls : List (SimTime × (S → S))) (d : EventDispatcher S C) (a : A)
      (o : Outcome S C A)
      → IsQueue d
      → Pairwise (λ b c. time_lt b.0 c.0 ≡ true) calls
      → run_calls ns3 body stop stopped fuel calls d a ≡ some o
      → IsSequence calls o
  unfolding run_calls
  run_calls-IsSequence fuel [] d a o q r h =
      subst (IsSequence []) (Option.some_inj.0 h) (record { ascending = tt; later = λ t _. tt })
  run_calls-IsSequence fuel ((u, advance) ∷ calls) d a o q r h =
      elim (run_calls_cases ns3 body stop stopped fuel u advance calls d a o h) [
        | inl (_, same) ↦
            subst (IsSequence ((u, advance) ∷ calls)) same
              (record { ascending = tt; later = λ t _. tt })
        | inr step ↦
            let d₁ = record d { simulator = advance d.simulator } in
            let q₁ = advanced-IsQueue ns3 body stop stopped d (advance d.simulator) q in
            let o₁ = step.first in
            let (at, order) = dispatch_time-ordered ns3 body stop u fuel d₁ a o₁ q₁ step.called in
            let q₂ = dispatch_time-IsQueue ns3 body stop u fuel d₁ a o₁ q₁ step.called in
            subst (IsSequence ((u, advance) ∷ calls)) step.together (
              IsSequence-next u advance calls o₁ step.others r.0 at order (
                run_calls-IsSequence fuel calls o₁.dispatcher o₁.shared step.others q₂ r.1
                  step.went_on))
      ]

  -- Where ns-3 calls in strictly ascending order of times, all events that a `Run` from a
  -- well-formed queue dispatches, those scheduled meanwhile included, are in the strict order of
  -- their keys: by time, then by phase, then by sequence number.
  pub run-ordered :
      (fuel : ℕ) (calls : List (SimTime × (S → S))) (d : EventDispatcher S C) (a : A)
      (o : Outcome S C A) (status : Status)
      → IsQueue d
      → Pairwise (λ b c. time_lt b.0 c.0 ≡ true) calls
      → run ns3 body stop stopped fuel calls d a ≡ some (o, status)
      → Pairwise (λ x y. key_less x y ≡ true) o.dispatched
  unfolding run
  run-ordered fuel calls d a o status q r h =
      let (o', k, same) =
        (Option.map-eq-some_iff
            (λ (o : Outcome S C A). (o, error_status o.dispatcher.execution_error)) _).0
          h in
      let q' : IsQueue
          (record d { execution_error = none; simulator = ns3.begin_run d.simulator }) =
        record { number_fits = q.number_fits; ascending = q.ascending; each = q.each } in
      let s =
        run_calls-IsSequence fuel calls
          (record d { execution_error = none; simulator = ns3.begin_run d.simulator }) a o' q' r
          k in
      subst (λ x. Pairwise (λ x y. key_less x y ≡ true) x.0.dispatched) same s.ascending
