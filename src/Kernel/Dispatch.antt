-- ===== src/Kernel/Dispatch.antt =====
-- Platform/kernel/internal/event_dispatcher.hpp: `DispatchTime` and `Run`. A callback may call
-- `ScheduleAt` while it runs, so what it does is a tree: what it does first, and for each answer what
-- it does then. `A` is the state that the callbacks share. ns-3's `Run` is the list of the times
-- whose callback it calls.
pub mod Least
pub mod Pending
pub mod Take
pub mod Calls
pub mod Effects
pub mod Loop
pub mod Ordered
pub mod Rounds
pub mod Ends
pub mod Whole
pub mod Returned
pub mod Steps
pub mod Sequence
pub mod Elsewhere
pub mod Complete
pub mod History
pub mod Shared
use mathlib.Core.Option
use ns3_bellhop_platform.Prelude.{
  ℕ, zero, suc, ◌==◌, Bool, true, false, not, Option, none, some, List, [], ◌∷◌, ◌++◌, ltb,
  if◌then◌else◌,
}
use ns3_bellhop_platform.Contracts.Errors.{Error, Result, ok, err, Status}
use ns3_bellhop_platform.Contracts.Time.{SimTime, time_lt, time_eq}
use ns3_bellhop_platform.Kernel.Gateway.{Ns3, platform_now}
use ns3_bellhop_platform.Kernel.Dispatcher.{
  EventPhase, phase_value, EventKey, EventRecord, TimeBucket, EventDispatcher, schedule_at,
}

-- What a `std::function<Status()>` does when it is called. `C` are the callbacks, so that one can
-- schedule itself; an empty function is `none`. `ask_now` is `PlatformNow` of the gateway.
pub data EventCallback (C A : Type 0) : Type 0 where
  finish : Status → EventCallback C A
  work : (A → A) → (A → EventCallback C A) → EventCallback C A
  ask_now : (Result SimTime → EventCallback C A) → EventCallback C A
  schedule :
      SimTime → EventPhase → Option C → (Result EventKey → EventCallback C A) → EventCallback C A

-- The defaulted `operator<=>` of `EventKey`: its last two fields, and all three.
unfoldable pub phase_less : EventKey → EventKey → Bool
phase_less a b =
    if not (phase_value a.phase == phase_value b.phase)
    then ltb (phase_value a.phase) (phase_value b.phase)
    else ltb a.sequence b.sequence

unfoldable pub key_less : EventKey → EventKey → Bool
key_less a b = if not (time_eq a.time b.time) then time_lt a.time b.time else phase_less a b

module _ {C : Type 0} where
  -- `std::min_element` over a first record and the others, with what is left without it.
  unfoldable pub least : EventRecord C → List (EventRecord C) → EventRecord C × List (EventRecord C)
  least r [] = (r, [])
  least r (s ∷ ss) =
      let (m, rest) = least s ss in if key_less m.key r.key then (m, r ∷ rest) else (r, s ∷ ss)

  -- The next record of a bucket, before the others.
  unfoldable pub take_from :
      TimeBucket C
      → List (TimeBucket C)
      → List (EventRecord C)
      → Option (EventRecord C × List (TimeBucket C))
  unfolding least key_less
  take_from b bs [] = none
  take_from b bs (r ∷ rs) = let (m, rest) = least r rs in some (m, record b { records = rest } ∷ bs)

  -- The next record of this time, and the buckets without it.
  unfoldable pub take_next :
      SimTime → List (TimeBucket C) → Option (EventRecord C × List (TimeBucket C))
  unfolding take_from
  take_next t [] = none
  take_next t (b ∷ bs) =
      let rest = take_next t bs in
      if time_lt b.time t
      then Option.map (λ (r, bs'). (r, b ∷ bs')) rest
      else if time_eq b.time t
      then take_from b bs b.records
      else none

  -- `buckets_.erase(bucket)` where the bucket found is of this time.
  unfoldable pub drop_bucket : SimTime → List (TimeBucket C) → List (TimeBucket C)
  drop_bucket t [] = []
  drop_bucket t (b ∷ bs) =
      if time_lt b.time t then b ∷ drop_bucket t bs else if time_eq b.time t then bs else b ∷ bs

  module _ {S : Type 0} where
    -- The fields when a record is taken from the buckets of a time.
    abbrev pub started :
        SimTime → EventRecord C → List (TimeBucket C) → EventDispatcher S C → EventDispatcher S C
    started t r rest d = record d {
      buckets = rest;
      current_phase = some r.key.phase;
      last_dispatch_time = some t;
      last_phase_at_time = some r.key.phase;
    }

    abbrev pub entered : SimTime → EventDispatcher S C → EventDispatcher S C
    entered t d = record d { dispatching = true; dispatch_time = some t; current_phase = none }

    abbrev pub left : EventDispatcher S C → EventDispatcher S C
    left d = record d { dispatching = false; dispatch_time = none; current_phase = none }

    -- What becomes of the status of a callback; `stop` is `Simulator::Stop`.
    abbrev pub settle : (S → S) → Status → EventDispatcher S C → EventDispatcher S C
    settle stop (ok _) d = d
    settle stop (err e) d = record d { execution_error = some e; simulator = stop d.simulator }

-- What `Run` returns.
abbrev pub error_status : Option Error → Status
error_status none = ok tt
error_status (some e) = err e

-- What a dispatch leaves, with the keys of the events that it dispatched, in order, and what their
-- callbacks returned.
pub record Outcome (S C A : Type 0) : Type 0 where
  pub dispatcher : EventDispatcher S C
  pub shared : A
  pub dispatched : List EventKey
  pub returned : List Status

module _ {S C A : Type 0} where
  abbrev pub and_before : EventKey → Status → Outcome S C A → Outcome S C A
  and_before key status o = record o {
    dispatched = key ∷ o.dispatched;
    returned = status ∷ o.returned;
  }

  abbrev pub finished : Outcome S C A → Outcome S C A
  finished o = record o { dispatcher = left o.dispatcher }

  abbrev pub and_first : Outcome S C A → Outcome S C A → Outcome S C A
  and_first o o' = record o' {
    dispatched = o.dispatched ++ o'.dispatched;
    returned = o.returned ++ o'.returned;
  }

module _ {T S C A : Type 0} (ns3 : Ns3 T S SimTime) where
  -- The call of a callback.
  unfoldable pub call :
      EventCallback C A → EventDispatcher S C → A → EventDispatcher S C × A × Status
  call (finish status) d a = (d, a, status)
  call (work f rest) d a = call (rest a) d (f a)
  call (ask_now rest) d a = call (rest (platform_now ns3 d.simulator)) d a
  call (schedule t phase callback rest) d a =
      let (d', key) = schedule_at ns3 d t phase callback in call (rest key) d' a

  -- `body` is what each callback does, `stop` is `Simulator::Stop`.
  module _ (body : C → EventCallback C A) (stop : S → S) where
    -- The loop of `DispatchTime`, on fuel.
    unfoldable pub dispatch_loop : ℕ → SimTime → EventDispatcher S C → A → Option (Outcome S C A)
    unfolding call take_next drop_bucket
    dispatch_loop zero t d a = none
    dispatch_loop (suc fuel) t d a = elim d.execution_error [
      | some e ↦ some (record { dispatcher = d; shared = a; dispatched = []; returned = [] })
      | none ↦ elim (take_next t d.buckets) [
        | none ↦ some (record {
          dispatcher = record d { buckets = drop_bucket t d.buckets };
          shared = a;
          dispatched = [];
          returned = [];
        })
        | some (r, rest) ↦
            let (d', a', status) = call (body r.callback) (started t r rest d) a in
            Option.map (and_before r.key status) (dispatch_loop fuel t (settle stop status d') a')
      ]
    ]

    -- `DispatchTime`
    unfoldable pub dispatch_time : ℕ → SimTime → EventDispatcher S C → A → Option (Outcome S C A)
    unfolding dispatch_loop
    dispatch_time fuel t d a = Option.map finished (dispatch_loop fuel t (entered t d) a)

    -- What ns-3's `Run` calls: the callbacks of these times, with what ns-3 does to its own state
    -- before each, until it is stopped.
    module _ (stopped : S → Bool) where
      unfoldable pub run_calls :
          ℕ → List (SimTime × (S → S)) → EventDispatcher S C → A → Option (Outcome S C A)
      unfolding dispatch_time
      run_calls fuel [] d a =
          some (record { dispatcher = d; shared = a; dispatched = []; returned = [] })
      run_calls fuel ((t, advance) ∷ calls) d a =
          if stopped d.simulator
          then some (record { dispatcher = d; shared = a; dispatched = []; returned = [] })
          else elim (dispatch_time fuel t (record d { simulator = advance d.simulator }) a) [
            | none ↦ none
            | some o ↦ Option.map (and_first o) (run_calls fuel calls o.dispatcher o.shared)
          ]

      -- `Run`
      unfoldable pub run :
          ℕ → List (SimTime × (S → S)) → EventDispatcher S C → A → Option (Outcome S C A × Status)
      unfolding run_calls
      run fuel calls d a =
          Option.map (λ (o : Outcome S C A). (o, error_status o.dispatcher.execution_error))
            (run_calls fuel calls
              (record d { execution_error = none; simulator = ns3.begin_run d.simulator }) a)
