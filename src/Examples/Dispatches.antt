-- ===== src/Examples/Dispatches.antt =====
-- The dispatcher over a clock that can be stopped. An arrival schedules a close for its own time; the
-- start of a transmission fails.
use ns3_bellhop_platform.Prelude.{
  ℕ, ◌+◌, ◌≡◌, refl, Bool, true, false, none, some, arith, List, [], ◌∷◌, All, Among, here,
  Pairwise,
}
use ns3_bellhop_platform.Prelude.Int.{ℤ, pos, ◌-ℤ◌, ◌+ℤ◌, eqb_ℤ}
use ns3_bellhop_platform.Contracts.Errors.{Error, error, failed_precondition, ok, err}
use ns3_bellhop_platform.Contracts.Time.{SimTime, checked_subtract, checked_subtract_counts}
use ns3_bellhop_platform.Kernel.Gateway.{
  Ns3, to_ns3_time, to_ns3_duration, from_ns3_time, platform_now, delay_until, checked_delay,
}
use ns3_bellhop_platform.Kernel.Gateway
use ns3_bellhop_platform.Kernel.Dispatcher.{
  EventPhase, tx_start, signal_arrival, cycle_close, EventKey, EventRecord, EventDispatcher,
  phase_floor, admit, allocate_sequence, enqueue, has_bucket, place, schedule_at,
}
use ns3_bellhop_platform.Kernel.Dispatcher.Schedule.{IsQueue}
use ns3_bellhop_platform.Kernel.Dispatch.{
  EventCallback, finish, work, schedule, phase_less, key_less, least, take_from, take_next,
  drop_bucket, Outcome, call, dispatch_loop, dispatch_time, run_calls, run,
}
use ns3_bellhop_platform.Kernel.Dispatch.Pending.{pending}
use ns3_bellhop_platform.Kernel.Dispatch.Rounds.{dispatch_time_complete}
use ns3_bellhop_platform.Kernel.Dispatch.Ends.{dispatch_time-returns}
use ns3_bellhop_platform.Kernel.Dispatch.Sequence.{run-ordered}
use ns3_bellhop_platform.Kernel.Dispatch.Complete.{run_complete}
use ns3_bellhop_platform.Kernel.Dispatch.Returned.{EndsIn, run-EndsIn}
use ns3_bellhop_platform.Kernel.Dispatch.History.{
  Reached, created, scheduled, has_run, IsIdle, Reached-IsIdle,
}
use ns3_bellhop_platform.Kernel.Dispatcher.Events.{create, signal_arrival_event}
use ns3_bellhop_platform.Kernel.Dispatcher.Events
use ns3_bellhop_platform.Examples.{at}

-- The time, and whether it is stopped.
abbrev pub Machine : Type 0
Machine = ℤ × Bool

abbrev pub machine : Ns3 ℤ Machine SimTime
machine = record {
  resolution_is_ns = true;
  from_count = λ n. n;
  get_nanoseconds = λ t. t;
  same_time = eqb_ℤ;
  now = λ m. m.0;
  schedule = λ m delay time. m;
  begin_run = λ m. (m.0, false);
}

abbrev pub stop : Machine → Machine
stop m = (m.0, true)

abbrev pub stopped : Machine → Bool
stopped m = m.1

abbrev key : EventPhase → ℕ → EventKey
key phase n = record { time = at 100; phase = phase; sequence = n }

abbrev not_ready : Error
not_ready = error failed_precondition "The modem is not ready"

-- The callbacks: a start, a start that fails, an arrival, a close.
data Name : Type 0 where
  start faulty_start arrival close : Name

-- The arrival schedules the close for its own time, and tries to schedule itself again.
abbrev body : Name → EventCallback Name ℕ
body start = finish (ok tt)
body faulty_start = finish (err not_ready)
body arrival =
    schedule (at 100) cycle_close (some close)
      (λ _. schedule (at 100) signal_arrival (some arrival) (λ _. finish (ok tt)))
body close = work (λ n. n + 1) (λ n. finish (ok tt))

-- The start of a transmission comes first in the bucket, and the arrival in the order of phases.
abbrev records : Name → List (EventRecord Name)
records first =
    record { key = key tx_start 0; callback = first }
    ∷ record { key = key signal_arrival 1; callback = arrival }
    ∷ []

abbrev queue : Machine → Name → EventDispatcher Machine Name
queue m first = record {
  simulator = m;
  next_sequence = 2;
  sequence_exhausted = false;
  dispatching = false;
  dispatch_time = none;
  current_phase = none;
  last_dispatch_time = none;
  last_phase_at_time = none;
  execution_error = none;
  buckets = record { time = at 100; records = records first } ∷ [];
}

queue-IsQueue : (m : Machine) (first : Name) → IsQueue (queue m first)
queue-IsQueue m first = record {
  number_fits = omega arith;
  ascending = (tt, tt);
  each = (
    record {
      of_time = (refl, (refl, tt));
      numbered = (omega arith, (omega arith, tt));
      in_order = ((omega arith, tt), (tt, tt));
    },
    tt,
  );
}

abbrev ready : EventDispatcher Machine Name
ready = queue (pos 100, false) start

abbrev ready_outcome : Outcome Machine Name ℕ
ready_outcome = record {
  dispatcher = record ready {
    next_sequence = 3;
    last_dispatch_time = some (at 100);
    last_phase_at_time = some cycle_close;
    buckets = [];
  };
  shared = 1;
  dispatched = key signal_arrival 1 ∷ key tx_start 0 ∷ key cycle_close 2 ∷ [];
  returned = ok tt ∷ ok tt ∷ ok tt ∷ [];
}

ready_dispatched : dispatch_time machine body stop 4 (at 100) ready 0 ≡ some ready_outcome
unfolding dispatch_time dispatch_loop take_next take_from least key_less phase_less drop_bucket call
    schedule_at admit platform_now from_ns3_time to_ns3_time phase_floor allocate_sequence enqueue
    has_bucket place Gateway.schedule_at delay_until checked_delay checked_subtract
    checked_subtract_counts to_ns3_duration ◌-ℤ◌ ◌+ℤ◌
ready_dispatched = refl

dispatch_time-returns_example :
    (fuel : ℕ) × (o : Outcome Machine Name ℕ) × (dispatch_time machine body stop fuel
        (at 100)
        ready
        0
      ≡ some o)
dispatch_time-returns_example =
    dispatch_time-returns machine body stop (at 100) ready 0 (queue-IsQueue (pos 100, false) start)

dispatch_time_complete_example :
    All (λ r. Among r.key ready_outcome.dispatched) (pending (at 100) ready.buckets)
    × (has_bucket (at 100) ready_outcome.dispatcher.buckets ≡ false)
dispatch_time_complete_example =
    dispatch_time_complete machine body stop (at 100) 4 ready 0 ready_outcome
      (queue-IsQueue (pos 100, false) start) ready_dispatched refl

-- ns-3 comes to time 100, and would come to 200.
abbrev calls : List (SimTime × (Machine → Machine))
calls = (at 100, λ m. (pos 100, m.1)) ∷ (at 200, λ m. (pos 200, m.1)) ∷ []

abbrev broken : EventDispatcher Machine Name
broken = queue (pos 0, false) faulty_start

-- The close stays in the queue.
abbrev broken_outcome : Outcome Machine Name ℕ
broken_outcome = record {
  dispatcher = record broken {
    simulator = (pos 100, true);
    next_sequence = 3;
    last_dispatch_time = some (at 100);
    last_phase_at_time = some tx_start;
    execution_error = some not_ready;
    buckets =
        record {
          time = at 100;
          records = record { key = key cycle_close 2; callback = close } ∷ [];
        }
        ∷ [];
  };
  shared = 0;
  dispatched = key signal_arrival 1 ∷ key tx_start 0 ∷ [];
  returned = ok tt ∷ err not_ready ∷ [];
}

broken-run : run machine body stop stopped 4 calls broken 0 ≡ some (broken_outcome, err not_ready)
unfolding run run_calls dispatch_time dispatch_loop take_next take_from least key_less phase_less
    drop_bucket call schedule_at admit platform_now from_ns3_time to_ns3_time phase_floor
    allocate_sequence enqueue has_bucket place Gateway.schedule_at delay_until checked_delay
    checked_subtract checked_subtract_counts to_ns3_duration ◌-ℤ◌ ◌+ℤ◌
broken-run = refl

run-EndsIn_example : EndsIn broken_outcome.returned (err not_ready)
run-EndsIn_example =
    run-EndsIn machine body stop stopped 4 calls broken 0 broken_outcome (err not_ready) (λ s. refl)
      broken-run

-- A new dispatcher, an arrival scheduled for time 100, and a run.
abbrev fresh : EventDispatcher Machine Name
fresh = create (pos 0, false) 7

abbrev with_arrival : EventDispatcher Machine Name
with_arrival = (Events.schedule machine fresh (signal_arrival_event (at 100) (some arrival))).0

abbrev fresh_outcome : Outcome Machine Name ℕ
fresh_outcome = record {
  dispatcher = record fresh {
    simulator = (pos 200, false);
    next_sequence = 9;
    last_dispatch_time = some (at 100);
    last_phase_at_time = some cycle_close;
  };
  shared = 1;
  dispatched = key signal_arrival 7 ∷ key cycle_close 8 ∷ [];
  returned = ok tt ∷ ok tt ∷ [];
}

fresh_run : run machine body stop stopped 4 calls with_arrival 0 ≡ some (fresh_outcome, ok tt)
unfolding run run_calls dispatch_time dispatch_loop take_next take_from least key_less phase_less
    drop_bucket call schedule_at admit platform_now from_ns3_time to_ns3_time phase_floor
    allocate_sequence enqueue has_bucket place Gateway.schedule_at delay_until checked_delay
    checked_subtract checked_subtract_counts to_ns3_duration ◌-ℤ◌ ◌+ℤ◌
fresh_run = refl

fresh-Reached : Reached machine body stop stopped fresh_outcome.dispatcher 1
fresh-Reached = has_run with_arrival 0 4 calls fresh_outcome (ok tt) fresh_run (
    scheduled fresh 0 (signal_arrival_event (at 100) (some arrival))
      (created (pos 0, false) 7 0 (omega arith)))

Reached-IsIdle_example : IsIdle fresh_outcome.dispatcher
Reached-IsIdle_example = Reached-IsIdle machine body stop stopped fresh-Reached

run-ordered_example : Pairwise (λ x y. key_less x y ≡ true) broken_outcome.dispatched
run-ordered_example =
    run-ordered machine body stop stopped 4 calls broken 0 broken_outcome (err not_ready)
      (queue-IsQueue (pos 0, false) faulty_start) ((refl, tt), (tt, tt)) broken-run

with_arrival-IsQueue : IsQueue with_arrival
with_arrival-IsQueue =
    (Reached-IsIdle machine body stop stopped (
      scheduled fresh 0 (signal_arrival_event (at 100) (some arrival))
        (created (pos 0, false) 7 0 (omega arith)))).queue

run_complete_example :
    All (λ r. Among r.key fresh_outcome.dispatched) (pending (at 100) with_arrival.buckets)
run_complete_example =
    run_complete machine body stop stopped (at 100) 4 calls with_arrival 0 fresh_outcome
      with_arrival-IsQueue ((refl, tt), (tt, tt)) (here refl) fresh_run refl
