-- ===== src/Examples/Gateways.antt =====
-- The gateway over a clock that counts nanoseconds and a queue of delays.
use ns3_bellhop_platform.Prelude.{
  ℕ, Option, ◌≡◌, ◌≢◌, ◌↔◌, ◌<◌, refl, true, false, none, some, arith, List, [], ◌∷◌,
}
use ns3_bellhop_platform.Prelude.Int.{ℤ, pos, ◌-ℤ◌, ◌+ℤ◌, eqb_ℤ, eqb_ℤ_iff}
use ns3_bellhop_platform.Contracts.Errors.{ok}
use ns3_bellhop_platform.Kernel.Gateway.{
  Ns3, to_ns3_time, to_ns3_duration, from_ns3_time, schedule_at, before_origin, platform_now,
  delay_until, checked_delay,
}
use ns3_bellhop_platform.Kernel.Gateway.Exact.{from-to_ns3_time_iff}
use ns3_bellhop_platform.Contracts.Time.{SimTime, checked_subtract, checked_subtract_counts}
use ns3_bellhop_platform.Kernel.Gateway
use ns3_bellhop_platform.Kernel.Dispatcher.{
  EventPhase, tx_start, signal_arrival, cycle_close, EventKey, EventRecord, EventDispatcher,
  phase_floor, phase_value, admit, allocate_sequence, enqueue, has_bucket, place,
}
use ns3_bellhop_platform.Kernel.Dispatcher
use ns3_bellhop_platform.Kernel.Dispatcher.Schedule.{IsQueue, used, HasReached, schedule_at-key}
use ns3_bellhop_platform.Examples.{at}

-- The time now, and the delays and names of the callbacks that wait.
abbrev Queue : Type 0
Queue = ℤ × List (ℤ × ℕ)

abbrev counter : Ns3 ℤ Queue ℕ
counter = record {
  resolution_is_ns = true;
  from_count = λ n. n;
  get_nanoseconds = λ t. t;
  same_time = eqb_ℤ;
  now = λ q. q.0;
  schedule = λ q delay callback. (q.0, (delay, callback) ∷ q.1);
  begin_run = λ q. q;
}

abbrev waiting : Queue
waiting = (pos 100, [])

from-to_ns3_time_iff_example :
    ((to_ns3_time counter (at 7) ≡ ok (pos 7))
      ↔ (counter.from_count (pos 7) ≡ pos 7) × (from_ns3_time counter (pos 7) ≡ ok (at 7)))
    × ((from_ns3_time counter (pos 7) ≡ ok (at 7))
        ↔ (counter.resolution_is_ns ≡ true)
          × (counter.get_nanoseconds (pos 7) ≡ pos 7)
          × ((y : ℤ) × (to_ns3_time counter (at 7) ≡ ok y)
              × (counter.get_nanoseconds y ≡ pos 7)
              × (counter.same_time y (pos 7) ≡ true)))
from-to_ns3_time_iff_example =
    from-to_ns3_time_iff counter (at 7) (pos 7) (λ y. (eqb_ℤ_iff y y).1 refl)

abbrev clock : Ns3 ℤ Queue SimTime
clock = record {
  resolution_is_ns = true;
  from_count = λ n. n;
  get_nanoseconds = λ t. t;
  same_time = eqb_ℤ;
  now = λ q. q.0;
  schedule = λ q delay time. q;
  begin_run = λ q. q;
}

abbrev waiting_record : EventRecord ℕ
waiting_record = record {
  key = record { time = at 130; phase = tx_start; sequence = 0 };
  callback = 4;
}

-- One event waits; the dispatcher is in the phase of arrivals at time 100.
abbrev dispatcher : EventDispatcher Queue ℕ
dispatcher = record {
  simulator = waiting;
  next_sequence = 1;
  sequence_exhausted = false;
  dispatching = true;
  dispatch_time = some (at 100);
  current_phase = some signal_arrival;
  last_dispatch_time = some (at 100);
  last_phase_at_time = some signal_arrival;
  execution_error = none;
  buckets = record { time = at 130; records = waiting_record ∷ [] } ∷ [];
}

dispatcher-IsQueue : IsQueue dispatcher
dispatcher-IsQueue = record {
  number_fits = omega arith;
  ascending = (tt, tt);
  each = (record { of_time = (refl, tt); numbered = (omega arith, tt); in_order = (tt, tt) }, tt);
}

abbrev callback : Option ℕ
callback = some 5

abbrev the_key : EventKey
the_key = record { time = at 100; phase = cycle_close; sequence = 1 }

-- The same queue after the dispatch.
abbrev idle : EventDispatcher Queue ℕ
idle = record dispatcher { dispatching = false; dispatch_time = none; current_phase = none }

schedule_at-key_example :
    (callback ≢ none)
    × (the_key ≡ record { time = at 100; phase = cycle_close; sequence = used idle })
    × ((f : EventPhase) → HasReached idle (at 100) f → phase_value f < phase_value cycle_close)
unfolding Dispatcher.schedule_at admit platform_now from_ns3_time to_ns3_time phase_floor
    allocate_sequence enqueue has_bucket place Gateway.schedule_at delay_until checked_delay
    checked_subtract checked_subtract_counts to_ns3_duration ◌-ℤ◌ ◌+ℤ◌
schedule_at-key_example =
    schedule_at-key clock idle (at 100) cycle_close callback the_key (omega arith) refl
