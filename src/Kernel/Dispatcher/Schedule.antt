-- ===== src/Kernel/Dispatcher/Schedule.antt =====
-- What `ScheduleAt` keeps and what it returns.
use ns3_bellhop_platform.Prelude.{
  ℕ, ◌+◌, ◌-◌, ◌^◌, ◌<◌, ◌≤◌, ◌≡◌, ◌≢◌, ◌↔◌, refl, sym, ap, ◌∙◌, ◌⊎◌, inl, inr, Bool-cases, true,
  false, arith, not, Option, none, some, All, All-map, Pairwise, if◌then◌else◌,
}
use ns3_bellhop_platform.Prelude.Int.{eqb_ℤ_iff}
use ns3_bellhop_platform.Contracts.Errors.{
  ok, err, Result-cases, ok-injective, >>=-eq-ok, require, reject_if-eq-ok, require-eq-ok,
}
use ns3_bellhop_platform.Contracts.Time.{SimTime, time_lt}
use ns3_bellhop_platform.Kernel.Gateway.{Ns3, platform_now}
use ns3_bellhop_platform.Kernel.Gateway
use ns3_bellhop_platform.Kernel.Dispatcher.{
  EventPhase, phase_value, EventKey, EventRecord, EventDispatcher, has_bucket, place,
  is_valid_phase, allocate_sequence, phase_floor, too_early, admit, enqueue, schedule_at, is_at,
  sequence_gone, no_callback, into_the_past, not_later_phase,
}
use ns3_bellhop_platform.Kernel.Dispatcher.Buckets.{
  IsBucket, Before, place-ascending, place-IsBucket, weaken-IsBucket,
}

is_at_iff : (u : Option SimTime) (t : SimTime) → (is_at u t ≡ true) ↔ (u ≡ some t)
is_at_iff none t = ground arith
is_at_iff (some u) t = ground (arith, eqb_ℤ_iff u.nanoseconds t.nanoseconds)

pub later_phase :
    (floor : Option EventPhase) (phase : EventPhase)
    → too_early floor phase ≡ false
    → (f : EventPhase) → floor ≡ some f
    → phase_value f < phase_value phase
later_phase none phase h f e = cc
later_phase (some g) phase h f e = rw (← some_injective e) (ground arith)
  where
    some_injective : some g ≡ some f → g ≡ f
    some_injective k = cc

module _ {S C : Type 0} where
  -- How many numbers are given out: the next one, or all of them.
  abbrev pub used : EventDispatcher S C → ℕ
  used d = if d.sequence_exhausted then 2 ^ 64 else d.next_sequence

  pub record IsQueue (d : EventDispatcher S C) : Type 0 where
    pub number_fits : d.next_sequence ≤ 2 ^ 64 - 1
    pub ascending : Pairwise Before d.buckets
    pub each : All (IsBucket (used d)) d.buckets

  -- An event of this phase is being dispatched at this time, or, while none of this time is, was the
  -- last one dispatched at it.
  abbrev pub HasReached : EventDispatcher S C → SimTime → EventPhase → Type 0
  HasReached d t f =
      ((d.dispatching ≡ true) × (d.dispatch_time ≡ some t) × (d.current_phase ≡ some f))
      ⊎ (((d.dispatching ≡ false) ⊎ (d.dispatch_time ≢ some t))
          × (d.last_dispatch_time ≡ some t)
          × (d.last_phase_at_time ≡ some f))

  HasReached-phase_floor :
      (d : EventDispatcher S C) (t : SimTime) (f : EventPhase)
      → HasReached d t f
      → phase_floor d t ≡ some f
  unfolding phase_floor
  HasReached-phase_floor d t f h =
      ground (arith, is_at_iff d.dispatch_time t, is_at_iff d.last_dispatch_time t)

  pub allocate_sequence_lem :
      (d : EventDispatcher S C)
      → d.next_sequence ≤ 2 ^ 64 - 1
      → ((allocate_sequence d).0.buckets ≡ d.buckets)
        × ((allocate_sequence d).0.next_sequence ≤ 2 ^ 64 - 1)
        × (((d.sequence_exhausted ≡ true)
              × ((allocate_sequence d).1 ≡ err sequence_gone)
              × ((allocate_sequence d).0 ≡ d))
            ⊎ ((allocate_sequence d).1 ≡ ok (used d)) × (used (allocate_sequence d).0 ≡ used d + 1))
  unfolding allocate_sequence
  allocate_sequence_lem d h = ground arith

module _ {T S C : Type 0} (ns3 : Ns3 T S SimTime) where
  enqueue-IsQueue :
      (d : EventDispatcher S C) (r : EventRecord C) (n : ℕ)
      → r.key.sequence ≡ n
      → used d ≡ n + 1
      → d.next_sequence ≤ 2 ^ 64 - 1
      → Pairwise Before d.buckets
      → All (IsBucket n) d.buckets
      → IsQueue (enqueue ns3 d r).0
  unfolding enqueue
  enqueue-IsQueue d r n s u fits up each =
      let all : All (IsBucket (used d)) (place r.key.time r d.buckets) =
        rw u (place-IsBucket n r d.buckets s each) in
      let same : All (IsBucket (used d)) d.buckets =
        rw u (All-map d.buckets (λ c. weaken-IsBucket n (n + 1) c (omega arith)) each) in
      elim (Bool-cases (has_bucket r.key.time d.buckets)) [
        | inl e ↦
            rw (e, enqueue)
              (record {
                number_fits = fits;
                ascending = place-ascending r d.buckets up;
                each = all;
              })
        | inr e ↦
            let answer = Gateway.schedule_at ns3 d.simulator r.key.time r.key.time in
            elim (Result-cases answer.1) [
              | inr (f, g) ↦
                  rw (e, enqueue, g) (record { number_fits = fits; ascending = up; each = same })
              | inl (f, g) ↦
                  rw (e, enqueue, g)
                    (record {
                      number_fits = fits;
                      ascending = place-ascending r d.buckets up;
                      each = all;
                    })
            ]
      ]

  -- Whatever the simulator answers, `ScheduleAt` keeps the buckets in strictly ascending order of
  -- their times, the records of a bucket of its time and in the order of their sequence numbers, and
  -- every number in the queue among those given out.
  pub schedule_at-IsQueue :
      (d : EventDispatcher S C) (t : SimTime) (phase : EventPhase) (callback : Option C)
      → IsQueue d
      → IsQueue (schedule_at ns3 d t phase callback).0
  unfolding schedule_at
  schedule_at-IsQueue d t phase callback q = elim (Result-cases (admit ns3 d t phase callback)) [
    | inr (e, f) ↦ rw (f, schedule_at) q
    | inl (c, f) ↦
        let (same, fits, answer) = allocate_sequence_lem d q.number_fits in
        elim answer [
          | inl (_, g, none_left) ↦ rw (f, schedule_at, g, none_left) q
          | inr (g, u) ↦
              rw (f, schedule_at, g)
                (enqueue-IsQueue (allocate_sequence d).0
                  (record {
                    key = record { time = t; phase = phase; sequence = used d };
                    callback = c;
                  })
                  (used d) refl u fits (rw same q.ascending) (rw same q.each))
        ]
  ]

  pub admit-ok :
      (d : EventDispatcher S C) (t : SimTime) (phase : EventPhase) (callback : Option C) (c : C)
      → admit ns3 d t phase callback ≡ ok c
      → (callback ≡ some c) × (too_early (phase_floor d t) phase ≡ false)
  unfolding admit
  admit-ok d t phase callback c h =
      let (_, h') = reject_if-eq-ok (not (is_valid_phase phase)) no_callback h in
      let (c', e, h₁) = >>=-eq-ok (require callback no_callback) _ h' in
      let (now, _, h₂) = >>=-eq-ok (platform_now ns3 d.simulator) _ h₁ in
      let (_, h₃) = reject_if-eq-ok (time_lt t now) into_the_past h₂ in
      let (later, h₄) = reject_if-eq-ok (too_early (phase_floor d t) phase) not_later_phase h₃ in
      (require-eq-ok callback no_callback e ∙ ap some (ok-injective h₄), later)

  enqueue-key :
      (d : EventDispatcher S C) (r : EventRecord C) (key : EventKey)
      → (enqueue ns3 d r).1 ≡ ok key
      → r.key ≡ key
  unfolding enqueue
  enqueue-key d r key h = elim (Bool-cases (has_bucket r.key.time d.buckets)) [
    | inl e ↦ ok-injective (rw (e, enqueue) at h)
    | inr e ↦
        let answer = Gateway.schedule_at ns3 d.simulator r.key.time r.key.time in
        elim (Result-cases answer.1) [
          | inr (f, g) ↦ absurd (ground arith)
          | inl (f, g) ↦ ok-injective (rw (e, enqueue, g) at h)
        ]
  ]

  -- When `ScheduleAt` returns a key there was a callback, the key has the time and the phase asked
  -- for and the next sequence number, and the phase comes after the one that is being dispatched at
  -- this time, or, while no event of this time is being dispatched, was dispatched last at it.
  pub schedule_at-key :
      (d : EventDispatcher S C) (t : SimTime) (phase : EventPhase) (callback : Option C)
      (key : EventKey)
      → d.next_sequence ≤ 2 ^ 64 - 1
      → (schedule_at ns3 d t phase callback).1 ≡ ok key
      → (callback ≢ none)
        × (key ≡ record { time = t; phase = phase; sequence = used d })
        × ((f : EventPhase) → HasReached d t f → phase_value f < phase_value phase)
  unfolding schedule_at
  schedule_at-key d t phase callback key fits h =
      elim (Result-cases (admit ns3 d t phase callback)) [
        | inr (e, f) ↦ absurd (ground arith)
        | inl (c, f) ↦
            let (there, later) = admit-ok d t phase callback c f in
            let (_, _, answer) = allocate_sequence_lem d fits in
            elim answer [
              | inl (_, g, _) ↦ absurd (ground arith)
              | inr (g, _) ↦ (
                λ none'. cc,
                sym (
                    enqueue-key (allocate_sequence d).0
                      (record {
                        key = record { time = t; phase = phase; sequence = used d };
                        callback = c;
                      })
                      key (rw (f, schedule_at, g) at h)),
                λ f reached.
                    later_phase (phase_floor d t) phase later f
                      (HasReached-phase_floor d t f reached),
              )
            ]
      ]
