-- ===== src/Kernel/Dispatcher/Events.antt =====
-- Platform/kernel/internal/event_dispatcher.hpp: a new dispatcher, and the events that `Schedule`
-- takes. A dispatcher is made with a 64-bit first sequence number.
use ns3_bellhop_platform.Prelude.{ℕ, false, Option, none, []}
use ns3_bellhop_platform.Contracts.Errors.{Result}
use ns3_bellhop_platform.Contracts.Time.{SimTime}
use ns3_bellhop_platform.Kernel.Gateway.{Ns3}
use ns3_bellhop_platform.Kernel.Dispatcher.{
  session_finalize, signal_arrival, tx_start, cycle_close, EventKey, EventDispatcher, schedule_at,
}

-- The constructor, over the state of ns-3's Simulator.
abbrev pub create : {S C : Type 0} → S → ℕ → EventDispatcher S C
create simulator first_sequence = record {
  simulator = simulator;
  next_sequence = first_sequence;
  sequence_exhausted = false;
  dispatching = false;
  dispatch_time = none;
  current_phase = none;
  last_dispatch_time = none;
  last_phase_at_time = none;
  execution_error = none;
  buckets = [];
}

-- The events that have an overload of `Schedule`, each with its time and its callback.
pub data Event (C : Type 0) : Type 0 where
  tx_start_event : (started_at : SimTime) → (callback : Option C) → Event C
  signal_arrival_event : (first_arrival_at : SimTime) → (callback : Option C) → Event C
  session_finalize_event : (last_effect_end_at : SimTime) → (callback : Option C) → Event C
  cycle_close_event : (close_time : SimTime) → (callback : Option C) → Event C

-- `Schedule`
abbrev pub schedule :
    {T S C : Type 0}
    → Ns3 T S SimTime
    → EventDispatcher S C
    → Event C
    → EventDispatcher S C × Result EventKey
schedule ns3 d (tx_start_event started_at callback) = schedule_at ns3 d started_at tx_start callback
schedule ns3 d (signal_arrival_event first_arrival_at callback) =
    schedule_at ns3 d first_arrival_at signal_arrival callback
schedule ns3 d (session_finalize_event last_effect_end_at callback) =
    schedule_at ns3 d last_effect_end_at session_finalize callback
schedule ns3 d (cycle_close_event close_time callback) =
    schedule_at ns3 d close_time cycle_close callback
