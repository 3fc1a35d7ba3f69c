-- ===== src/Kernel/Dispatch/Calls.antt =====
-- What a callback can do to the dispatcher: it adds events, and those of the time that is being
-- dispatched have a later phase.
use ns3_bellhop_platform.Prelude.{
  ◌<◌, ◌≡◌, refl, sym, ap, ◌∙◌, ◌⊎◌, inl, inr, Bool-cases, true, false, arith, Option, some, List,
  [], ◌∷◌, ◌++◌, All,
}
use mathlib.Core.List.{append-nil}
use ns3_bellhop_platform.Prelude.Int.{eqb_ℤ_iff}
use ns3_bellhop_platform.Contracts.Errors.{Result-cases}
use ns3_bellhop_platform.Contracts.Time.{SimTime, time, time_eq}
use ns3_bellhop_platform.Kernel.Gateway.{Ns3}
use ns3_bellhop_platform.Kernel.Gateway
use ns3_bellhop_platform.Kernel.Dispatcher.{
  EventPhase, phase_value, EventRecord, TimeBucket, EventDispatcher, has_bucket, place,
  allocate_sequence, phase_floor, too_early, admit, enqueue, schedule_at,
}
use ns3_bellhop_platform.Kernel.Dispatcher.Schedule.{later_phase, admit-ok}
use ns3_bellhop_platform.Kernel.Dispatch.Pending.{
  pending, pending-place_self, pending-place_ne, eq_self,
}

pub ≡_of_time_eq : (t u : SimTime) → time_eq t u ≡ true → t ≡ u
≡_of_time_eq t u h = ap time ((eqb_ℤ_iff t.nanoseconds u.nanoseconds).0 h)

module _ {C : Type 0} where
  -- The records added to those that wait for a time are of a later phase.
  pub record Extends (t : SimTime) (p : EventPhase) (bs bs' : List (TimeBucket C)) : Type 0 where
    pub added : List (EventRecord C)
    pub extended : pending t bs' ≡ pending t bs ++ added
    pub later : All (λ r. phase_value p < phase_value r.key.phase) added

  pub nothing_added : (t : SimTime) (p : EventPhase) (bs : List (TimeBucket C)) → Extends t p bs bs
  nothing_added t p bs = record {
    added = [];
    extended = sym (append-nil (pending t bs));
    later = tt;
  }

  place-Extends :
      (t : SimTime) (p : EventPhase) (r : EventRecord C) (bs : List (TimeBucket C))
      → (time_eq r.key.time t ≡ true → phase_value p < phase_value r.key.phase)
      → Extends t p bs (place r.key.time r bs)
  place-Extends t p r bs h = elim (Bool-cases (time_eq r.key.time t)) [
    | inl e ↦ record {
      added = r ∷ [];
      extended = rw (← ≡_of_time_eq r.key.time t e) (pending-place_self r.key.time r bs);
      later = (h e, tt);
    }
    | inr e ↦ record {
      added = [];
      extended = pending-place_ne r.key.time t r bs e ∙ sym (append-nil (pending t bs));
      later = tt;
    }
  ]

module _ {S C : Type 0} where
  -- The fields that `ScheduleAt` does not touch.
  pub record SameDispatch (d d' : EventDispatcher S C) : Type 0 where
    pub dispatching : d'.dispatching ≡ d.dispatching
    pub dispatch_time : d'.dispatch_time ≡ d.dispatch_time
    pub current_phase : d'.current_phase ≡ d.current_phase
    pub last_dispatch_time : d'.last_dispatch_time ≡ d.last_dispatch_time
    pub last_phase_at_time : d'.last_phase_at_time ≡ d.last_phase_at_time
    pub execution_error : d'.execution_error ≡ d.execution_error

  pub same_trans :
      (d e f : EventDispatcher S C) → SameDispatch d e → SameDispatch e f → SameDispatch d f
  same_trans d e f h k = record {
    dispatching = k.dispatching ∙ h.dispatching;
    dispatch_time = k.dispatch_time ∙ h.dispatch_time;
    current_phase = k.current_phase ∙ h.current_phase;
    last_dispatch_time = k.last_dispatch_time ∙ h.last_dispatch_time;
    last_phase_at_time = k.last_phase_at_time ∙ h.last_phase_at_time;
    execution_error = k.execution_error ∙ h.execution_error;
  }

  pub same_refl : (d : EventDispatcher S C) → SameDispatch d d
  same_refl d = record {
    dispatching = refl;
    dispatch_time = refl;
    current_phase = refl;
    last_dispatch_time = refl;
    last_phase_at_time = refl;
    execution_error = refl;
  }

  allocate_sequence_same :
      (d : EventDispatcher S C)
      → SameDispatch d (allocate_sequence d).0 × ((allocate_sequence d).0.buckets ≡ d.buckets)
  unfolding allocate_sequence
  allocate_sequence_same d = ground arith

  phase_floor_here :
      (d : EventDispatcher S C) (t : SimTime) (p : EventPhase)
      → d.dispatching ≡ true
      → d.dispatch_time ≡ some t
      → d.current_phase ≡ some p
      → phase_floor d t ≡ some p
  unfolding phase_floor
  phase_floor_here d t p h k l = ground (arith, eq_self t)

module _ {S C : Type 0} where
  -- The dispatcher is dispatching events of this phase at this time.
  pub record IsDispatching (t : SimTime) (p : EventPhase) (d : EventDispatcher S C) : Type 0 where
    pub dispatching : d.dispatching ≡ true
    pub at_time : d.dispatch_time ≡ some t
    pub in_phase : d.current_phase ≡ some p

module _ {T S C : Type 0} (ns3 : Ns3 T S SimTime) where
  enqueue_same :
      (d : EventDispatcher S C) (r : EventRecord C)
      → SameDispatch d (enqueue ns3 d r).0
        × (((enqueue ns3 d r).0.buckets ≡ d.buckets)
            ⊎ ((enqueue ns3 d r).0.buckets ≡ place r.key.time r d.buckets))
  unfolding enqueue
  enqueue_same d r = elim (Bool-cases (has_bucket r.key.time d.buckets)) [
    | inl e ↦
        rw (e, enqueue)
          (
            record {
              dispatching = refl;
              dispatch_time = refl;
              current_phase = refl;
              last_dispatch_time = refl;
              last_phase_at_time = refl;
              execution_error = refl;
            },
            inr refl,
          )
    | inr e ↦ elim (Result-cases (Gateway.schedule_at ns3 d.simulator r.key.time r.key.time).1) [
      | inr (f, g) ↦
          rw (e, enqueue, g)
            (
              record {
                dispatching = refl;
                dispatch_time = refl;
                current_phase = refl;
                last_dispatch_time = refl;
                last_phase_at_time = refl;
                execution_error = refl;
              },
              inl refl,
            )
      | inl (f, g) ↦
          rw (e, enqueue, g)
            (
              record {
                dispatching = refl;
                dispatch_time = refl;
                current_phase = refl;
                last_dispatch_time = refl;
                last_phase_at_time = refl;
                execution_error = refl;
              },
              inr refl,
            )
    ]
  ]

  -- What `ScheduleAt` adds, if anything, is of the time and the phase asked for.
  abbrev pub Scheduled : EventDispatcher S C → SimTime → EventPhase → EventDispatcher S C → Type 0
  Scheduled d u phase d' =
      (d'.buckets ≡ d.buckets)
      ⊎ (r : EventRecord C) × (r.key.time ≡ u)
        × (r.key.phase ≡ phase)
        × (too_early (phase_floor d u) phase ≡ false)
        × (d'.buckets ≡ place u r d.buckets)

  pub schedule_at_effect :
      (d : EventDispatcher S C) (u : SimTime) (phase : EventPhase) (callback : Option C)
      → SameDispatch d (schedule_at ns3 d u phase callback).0
        × Scheduled d u phase (schedule_at ns3 d u phase callback).0
  unfolding schedule_at
  schedule_at_effect d u phase callback = elim (Result-cases (admit ns3 d u phase callback)) [
    | inr (e, f) ↦ rw (f, schedule_at) (same_refl d, inl refl)
    | inl (c, f) ↦
        let (same, buckets) = allocate_sequence_same d in
        elim (Result-cases (allocate_sequence d).1) [
          | inr (e, g) ↦ rw (f, schedule_at, g) (same, inl buckets)
          | inl (n, g) ↦
              let r : EventRecord C = record {
                key = record { time = u; phase = phase; sequence = n };
                callback = c;
              } in
              let (same', added) = enqueue_same (allocate_sequence d).0 r in
              rw (f, schedule_at, g)
                (
                  same_trans d (allocate_sequence d).0 _ same same',
                  elim added [
                    | inl e ↦ inl (e ∙ buckets)
                    | inr e ↦ inr (
                      r,
                      refl,
                      refl,
                      (admit-ok ns3 d u phase callback c f).1,
                      e ∙ ap (place u r) buckets,
                    )
                  ],
                )
        ]
  ]

  module _ (t : SimTime) (p : EventPhase) where
    pub schedule_at-Extends :
        (d : EventDispatcher S C) (u : SimTime) (phase : EventPhase) (callback : Option C)
        → IsDispatching t p d
        → Extends t p d.buckets (schedule_at ns3 d u phase callback).0.buckets
    schedule_at-Extends d u phase callback h = elim (schedule_at_effect d u phase callback).1 [
      | inl e ↦ rw e (nothing_added t p d.buckets)
      | inr (r, of_time, of_phase, later, e) ↦
          rw (e, ← of_time)
            (place-Extends t p r d.buckets (λ now. rw of_phase (
              later_phase (phase_floor d u) phase later p (
                rw (≡_of_time_eq u t (rw of_time at now))
                  (phase_floor_here d t p h.dispatching h.at_time h.in_phase)))))
    ]
