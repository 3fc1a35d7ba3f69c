-- ===== src/Kernel/Dispatch/Ends.antt =====
-- `DispatchTime` returns, since a callback adds only events of later phases to those that wait: the
-- phases that wait go up, and the events of one phase get fewer.
use mathlib.Core.Option
use ns3_bellhop_platform.Prelude.{
  ℕ, zero, suc, ◌+◌, ◌<◌, ◌≤◌, ◌==◌, ◌≡◌, refl, sym, ap, subst, ◌∙◌, inl, inr, Bool-cases, arith,
  Option-cases, some, List, [], ◌∷◌, ◌++◌, All, All-map, All-append, if◌then◌else◌,
}
use ns3_bellhop_platform.Contracts.Time.{SimTime}
use ns3_bellhop_platform.Kernel.Gateway.{Ns3}
use ns3_bellhop_platform.Kernel.Dispatcher.{
  EventPhase, session_finalize, signal_arrival, input_ready, runtime_decision, tx_start,
  cycle_close, phase_value, EventRecord, TimeBucket, EventDispatcher,
}
use ns3_bellhop_platform.Kernel.Dispatcher.Schedule.{IsQueue}
use ns3_bellhop_platform.Kernel.Dispatch.{
  EventCallback, key_less, least, take_next, Outcome, and_before, dispatch_loop, dispatch_time,
  entered, finished,
}
use ns3_bellhop_platform.Kernel.Dispatch.Pending.{pending}
use ns3_bellhop_platform.Kernel.Dispatch.Least.{least-All}
use ns3_bellhop_platform.Kernel.Dispatch.Effects.{IsActive, Round, after, after-Round, returned_by}
use ns3_bellhop_platform.Kernel.Dispatch.Loop.{
  loop_failed, loop_emptied, loop_next, nothing_more, emptied,
}
use ns3_bellhop_platform.Kernel.Dispatch.Ordered.{Round-order}
use ns3_bellhop_platform.Kernel.Dispatch.Rounds.{entered-IsQueue, entered-IsActive}

-- Phases are below 100.
phase_value_bound : (p : EventPhase) → phase_value p < 100
phase_value_bound session_finalize = omega arith
phase_value_bound signal_arrival = omega arith
phase_value_bound input_ready = omega arith
phase_value_bound runtime_decision = omega arith
phase_value_bound tx_start = omega arith
phase_value_bound cycle_close = omega arith

-- The phase is at most `n` below 100.
abbrev AtLeast : {C : Type 0} → ℕ → EventRecord C → Type 0
AtLeast n r = 100 ≤ phase_value r.key.phase + n

module _ {C : Type 0} where
  -- How many are exactly `n` below 100.
  unfoldable count_phase : ℕ → List (EventRecord C) → ℕ
  count_phase n [] = 0
  count_phase n (r ∷ rs) = (if phase_value r.key.phase + n == 100 then 1 else 0) + count_phase n rs

  count_phase-append :
      (n : ℕ) (xs ys : List (EventRecord C))
      → count_phase n (xs ++ ys) ≡ count_phase n xs + count_phase n ys
  unfolding count_phase
  count_phase-append n [] ys = omega arith
  count_phase-append n (x ∷ xs) ys = let h = count_phase-append n xs ys in omega arith

  count_phase-least :
      (n : ℕ) (r : EventRecord C) (rs : List (EventRecord C))
      → count_phase n ((least r rs).0 ∷ (least r rs).1) ≡ count_phase n (r ∷ rs)
  unfolding count_phase least
  count_phase-least n r [] = refl
  count_phase-least n r (s ∷ ss) =
      let h = count_phase-least n s ss in
      elim (Bool-cases (key_less (least s ss).0.key r.key)) [
        | inl e ↦ rw (e, least) (omega arith)
        | inr e ↦ rw (e, least) refl
      ]

  count_phase-none :
      (n : ℕ) (rs : List (EventRecord C))
      → All (λ r. 100 < phase_value r.key.phase + n) rs
      → count_phase n rs ≡ 0
  unfolding count_phase
  count_phase-none n [] h = refl
  count_phase-none n (r ∷ rs) h = let k = count_phase-none n rs h.1 in ground arith

  -- With none left exactly at the bound, the bound is one less.
  bound_less :
      (n : ℕ) (rs : List (EventRecord C))
      → All (AtLeast (suc n)) rs
      → count_phase (suc n) rs ≡ 0
      → All (AtLeast n) rs
  unfolding count_phase
  bound_less n [] h k = tt
  bound_less n (r ∷ rs) h k = elim (Bool-cases (phase_value r.key.phase + suc n == 100)) [
    | inl e ↦ absurd (ground arith)
    | inr e ↦ (ground arith, bound_less n rs h.1 (ground arith))
  ]

module _ {S C : Type 0} (t : SimTime) where
  module _ (r : EventRecord C) (d d' : EventDispatcher S C) (round : Round t r d d') where
    taken_AtLeast : (n : ℕ) → All (AtLeast n) (pending t d.buckets) → AtLeast n r
    taken_AtLeast n h =
        subst (AtLeast n) round.taken
          ((least-All (AtLeast n) round.first round.others).0
            (subst (All (AtLeast n)) round.waited h)).0

    -- The bound stays.
    round_bound :
        (n : ℕ) → All (AtLeast n) (pending t d.buckets) → All (AtLeast n) (pending t d'.buckets)
    round_bound n h =
        let this = taken_AtLeast n h in
        rw round.left_over (
          All-append (AtLeast n) (least round.first round.others).1 round.added
            ((least-All (AtLeast n) round.first round.others).0
              (subst (All (AtLeast n)) round.waited h)).1
            (All-map round.added (λ s lt. omega arith) round.later))

    -- One fewer is at the bound when the event dispatched was.
    round_count :
        (n : ℕ)
        → phase_value r.key.phase + n ≡ 100
        → count_phase n (pending t d'.buckets) + 1 ≡ count_phase n (pending t d.buckets)
    unfolding count_phase
    round_count n e =
        let whole = count_phase-least n round.first round.others in
        let this : phase_value (least round.first round.others).0.key.phase + n ≡ 100 =
          subst (λ m. phase_value m.key.phase + n ≡ 100) (sym round.taken) e in
        let none_added : count_phase n round.added ≡ 0 =
          count_phase-none n round.added (All-map round.added (λ s lt. omega arith) round.later) in
        rw (round.left_over, round.waited)
          (rw (count_phase-append n (least round.first round.others).1 round.added) (ground arith))

    -- When it was above the bound, all that wait are.
    round_above : (n : ℕ) → IsQueue d → AtLeast n r → All (AtLeast n) (pending t d'.buckets)
    round_above n q h =
        All-map (pending t d'.buckets) (λ s l. ground arith) (Round-order t r d d' q round).1

module _ {T S C A : Type 0} (ns3 : Ns3 T S SimTime) (body : C → EventCallback C A) (stop : S → S)
    (t : SimTime) where
  abbrev Halts : EventDispatcher S C → A → Type 0
  Halts d a = (fuel : ℕ) × (o : Outcome S C A) × (dispatch_loop ns3 body stop fuel t d a ≡ some o)

  Halts-step :
      (d : EventDispatcher S C) (a : A)
      → ((r : EventRecord C) (rest : List (TimeBucket C))
          → take_next t d.buckets ≡ some (r, rest)
          → Halts (after ns3 t body stop r rest d a).0 (after ns3 t body stop r rest d a).1)
      → Halts d a
  Halts-step d a h = elim (Option-cases d.execution_error) [
    | inr (e, f) ↦ (1, nothing_more d a, loop_failed ns3 body stop t 0 d a e f)
    | inl f ↦ elim (Option-cases (take_next t d.buckets)) [
      | inl g ↦ (1, nothing_more (emptied t d) a, loop_emptied ns3 body stop t 0 d a f g)
      | inr ((r, rest), g) ↦
          let (fuel, o, k) = h r rest g in
          (
            suc fuel,
            and_before r.key (returned_by ns3 t body r rest d a) o,
            loop_next ns3 body stop t fuel d a r rest f g
                ∙ ap (Option.map (and_before r.key (returned_by ns3 t body r rest d a))) k,
          )
    ]
  ]

  abbrev Bounded : ℕ → EventDispatcher S C → Type 0
  Bounded n d = IsActive t d × IsQueue d × All (AtLeast n) (pending t d.buckets)

  -- A round, then what is left by induction on how many are at the bound, then on the bound.
  Halts-counted :
      (n : ℕ)
      → ((d : EventDispatcher S C) (a : A) → Bounded n d → Halts d a)
      → (k : ℕ) (d : EventDispatcher S C) (a : A) → Bounded (suc n) d
      → count_phase (suc n) (pending t d.buckets) ≤ k
      → Halts d a
  Halts-counted n below zero d a (active, queue, bound) le =
      below d a (active, queue, bound_less n (pending t d.buckets) bound (omega arith))
  Halts-counted n below (suc k) d a (active, queue, bound) le = Halts-step d a (λ r rest e.
      let round = after-Round ns3 t body stop r rest d a e active in
      let d' = (after ns3 t body stop r rest d a).0 in
      elim (Bool-cases (phase_value r.key.phase + suc n == 100)) [
        | inl at ↦
            let fewer = round_count t r d d' round (suc n) (ground arith) in
            Halts-counted n below k d' (after ns3 t body stop r rest d a).1
              (round.active, round.queue queue, round_bound t r d d' round (suc n) bound)
              (omega arith)
        | inr above ↦
            let this = taken_AtLeast t r d d' round (suc n) bound in
            below d' (after ns3 t body stop r rest d a).1
              (round.active, round.queue queue, round_above t r d d' round n queue (ground arith))
      ])

  halts : (n : ℕ) (d : EventDispatcher S C) (a : A) → Bounded n d → Halts d a
  halts zero d a (active, queue, bound) = Halts-step d a (λ r rest e.
      let round = after-Round ns3 t body stop r rest d a e active in
      let this = taken_AtLeast t r d (after ns3 t body stop r rest d a).0 round 0 bound in
      let small = phase_value_bound r.key.phase in absurd (omega arith))
  halts (suc n) d a h =
      Halts-counted n (halts n) (count_phase (suc n) (pending t d.buckets)) d a h (omega arith)

  -- On a well-formed queue `DispatchTime` returns with some fuel, whatever the callbacks do and
  -- schedule, themselves included.
  pub dispatch_time-returns :
      (d : EventDispatcher S C) (a : A)
      → IsQueue d
      → (fuel : ℕ) × (o : Outcome S C A) × (dispatch_time ns3 body stop fuel t d a ≡ some o)
  unfolding dispatch_time
  dispatch_time-returns d a q =
      let bound = all_bounded (pending t (entered t d).buckets) in
      let (fuel, o, h) =
        halts 100 (entered t d) a
          (entered-IsActive ns3 body stop t d, entered-IsQueue t d q, bound) in
      (fuel, finished o, ap (Option.map finished) h)
    where
      all_bounded : (rs : List (EventRecord C)) → All (AtLeast 100) rs
      all_bounded [] = tt
      all_bounded (r ∷ rs) = (omega arith, all_bounded rs)
