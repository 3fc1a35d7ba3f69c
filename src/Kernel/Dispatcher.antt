-- ===== src/Kernel/Dispatcher.antt =====
-- Platform/kernel/internal/event_dispatcher.hpp: events by time, phase and sequence number, and the
-- queue of those that wait. `C` stands for the callbacks: a `std::function` is an optional `C`. What
-- ns-3 is given as a callback for a time is that time. `S` is the state of ns-3's Simulator.
pub mod Buckets
pub mod Schedule
pub mod Events
use ns3_bellhop_platform.Prelude.{
  ℕ, ◌+◌, ◌-◌, ◌%◌, ◌^◌, ◌==◌, Bool, true, false, not, ◌&&◌, Option, none, some, List, [], ◌∷◌,
  ◌++◌, ltb, leb, if◌then◌else◌,
}
use ns3_bellhop_platform.Contracts.Errors.{
  Error, error, invalid_argument, out_of_range, failed_precondition, overflow, Result, ok, err,
  Status, ◌>>=◌, ◌>>◌, reject_if, require,
}
use ns3_bellhop_platform.Contracts.Time.{SimTime, time_lt, time_eq}
use ns3_bellhop_platform.Kernel.Gateway.{Ns3, platform_now}
use ns3_bellhop_platform.Kernel.Gateway

pub data EventPhase : Type 0 where
  session_finalize signal_arrival input_ready runtime_decision tx_start cycle_close : EventPhase

-- The enumerators' values.
abbrev pub phase_value : EventPhase → ℕ
phase_value session_finalize = 10
phase_value signal_arrival = 20
phase_value input_ready = 30
phase_value runtime_decision = 40
phase_value tx_start = 50
phase_value cycle_close = 90

-- `IsValidPhase`, the switch over the enumerators.
abbrev pub is_valid_phase : EventPhase → Bool
is_valid_phase session_finalize = true
is_valid_phase signal_arrival = true
is_valid_phase input_ready = true
is_valid_phase runtime_decision = true
is_valid_phase tx_start = true
is_valid_phase cycle_close = true

pub record EventKey : Type 0 where
  pub time : SimTime
  pub phase : EventPhase
  pub sequence : ℕ

pub record EventRecord (C : Type 0) : Type 0 where
  pub key : EventKey
  pub callback : C

pub record TimeBucket (C : Type 0) : Type 0 where
  pub time : SimTime
  pub records : List (EventRecord C)

pub record EventDispatcher (S C : Type 0) : Type 0 where
  pub simulator : S
  pub next_sequence : ℕ
  pub sequence_exhausted : Bool
  pub dispatching : Bool
  pub dispatch_time : Option SimTime
  pub current_phase : Option EventPhase
  pub last_dispatch_time : Option SimTime
  pub last_phase_at_time : Option EventPhase
  pub execution_error : Option Error
  pub buckets : List (TimeBucket C)

abbrev pub no_callback : Error
no_callback = error invalid_argument "EventDispatcher requires a valid phase/callback"

abbrev pub into_the_past : Error
into_the_past = error out_of_range "EventDispatcher cannot schedule into the past"

abbrev pub not_later_phase : Error
not_later_phase = error failed_precondition "Same-time dynamic event must use a later phase"

abbrev pub sequence_gone : Error
sequence_gone = error overflow "EventSequenceId allocation exhausted"

abbrev pub is_at : Option SimTime → SimTime → Bool
is_at none t = false
is_at (some u) t = time_eq u t

abbrev pub too_early : Option EventPhase → EventPhase → Bool
too_early none phase = false
too_early (some floor) phase = leb (phase_value phase) (phase_value floor)

module _ {C : Type 0} where
  -- `FindBucket`, and the test that the bucket found is of this time.
  unfoldable pub has_bucket : SimTime → List (TimeBucket C) → Bool
  has_bucket t [] = false
  has_bucket t (b ∷ bs) = if time_lt b.time t then has_bucket t bs else time_eq b.time t

  abbrev pub new_bucket : SimTime → EventRecord C → TimeBucket C
  new_bucket t r = record { time = t; records = r ∷ [] }

  -- The record at the end of the bucket of its time, or in a new bucket at its place.
  unfoldable pub place : SimTime → EventRecord C → List (TimeBucket C) → List (TimeBucket C)
  place t r [] = new_bucket t r ∷ []
  place t r (b ∷ bs) =
      let rest = place t r bs in
      if time_lt b.time t
      then b ∷ rest
      else if time_eq b.time t
      then record b { records = b.records ++ r ∷ [] } ∷ bs
      else new_bucket t r ∷ b ∷ bs

  -- `pending_event_count`
  pub pending_event_count : List (TimeBucket C) → ℕ
  pending_event_count [] = 0
  pending_event_count (b ∷ bs) = count b.records + pending_event_count bs
    where
      count : List (EventRecord C) → ℕ
      count [] = 0
      count (r ∷ rs) = count rs + 1

module _ {S C : Type 0} where
  -- `AllocateSequence`
  unfoldable pub allocate_sequence : EventDispatcher S C → EventDispatcher S C × Result ℕ
  allocate_sequence d = if d.sequence_exhausted then (d, err sequence_gone) else (
    (if d.next_sequence == 2 ^ 64 - 1
        then record d { sequence_exhausted = true }
        else record d { next_sequence = (d.next_sequence + 1) % 2 ^ 64 }),
    ok d.next_sequence,
  )

  -- The phase that an event of this time has to come after, if any.
  unfoldable pub phase_floor : EventDispatcher S C → SimTime → Option EventPhase
  phase_floor d t =
      if d.dispatching && is_at d.dispatch_time t
      then d.current_phase
      else if is_at d.last_dispatch_time t
      then d.last_phase_at_time
      else none

module _ {T S C : Type 0} (ns3 : Ns3 T S SimTime) where
  -- `ScheduleAt` up to the allocation of the sequence number.
  unfoldable pub admit : EventDispatcher S C → SimTime → EventPhase → Option C → Result C
  unfolding phase_floor
  admit d t phase callback = do
    reject_if (not (is_valid_phase phase)) no_callback
    c ← require callback no_callback
    now ← platform_now ns3 d.simulator
    reject_if (time_lt t now) into_the_past
    reject_if (too_early (phase_floor d t) phase) not_later_phase
    ok c

  -- `ScheduleAt` from the record on.
  unfoldable pub enqueue :
      EventDispatcher S C → EventRecord C → EventDispatcher S C × Result EventKey
  unfolding has_bucket place
  enqueue d r =
      let t : SimTime = r.key.time in
      let with_record = record d { buckets = place t r d.buckets } in
      if has_bucket t d.buckets
      then (with_record, ok r.key)
      else let (simulator, status) = Gateway.schedule_at ns3 d.simulator t t in
        elim status [
          | err e ↦ (record d { simulator = simulator }, err e)
          | ok _ ↦ (record with_record { simulator = simulator }, ok r.key)
        ]

  -- `ScheduleAt`
  unfoldable pub schedule_at :
      EventDispatcher S C → SimTime → EventPhase → Option C → EventDispatcher S C × Result EventKey
  unfolding admit allocate_sequence enqueue
  schedule_at d t phase callback = elim (admit d t phase callback) [
    | err e ↦ (d, err e)
    | ok c ↦
        let (d', sequence) = allocate_sequence d in
        elim sequence [
          | err e ↦ (d', err e)
          | ok n ↦
              enqueue d'
                (record { key = record { time = t; phase = phase; sequence = n }; callback = c })
        ]
  ]
