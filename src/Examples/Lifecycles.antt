-- ===== src/Examples/Lifecycles.antt =====
-- A cycle on the dispatcher: a transmission, its arrival, its decoding, and the close.
use mathlib.Core.Option
use ns3_bellhop_platform.Prelude.{
  find_key, sort_by, has_adjacent, until, lower_bound, ℕ, ◌≡◌, refl, sym, ap, subst, Among, here,
  there, true, false, some, arith, List, [], ◌∷◌,
}
use ns3_bellhop_platform.Prelude.Int.{ℤ, pos, ◌-ℤ◌, ◌+ℤ◌, ◌*ℤ◌, ◌/ℤ◌}
use ns3_bellhop_platform.Contracts.Errors.{Status, ok}
use ns3_bellhop_platform.Contracts.Time.{
  SimTime, checked_add, checked_add_counts, checked_subtract, checked_subtract_counts,
}
use ns3_bellhop_platform.Kernel.Dispatcher.{
  EventKey, EventPhase, EventRecord, EventDispatcher, phase_floor, admit, allocate_sequence,
  enqueue, has_bucket, place, schedule_at,
}
use ns3_bellhop_platform.Kernel.Dispatcher
use ns3_bellhop_platform.Kernel.Dispatcher.Schedule.{IsQueue}
use ns3_bellhop_platform.Kernel.Dispatcher.Events.{create}
use ns3_bellhop_platform.Kernel.Dispatch.{
  phase_less, key_less, least, take_from, take_next, drop_bucket, Outcome, call, dispatch_loop,
  dispatch_time, run_calls, run,
}
use ns3_bellhop_platform.Runtime.CycleRuntime.{
  CycleSignalRuntime, handle_tx_start, handle_signal_arrival, handle_session_finalize,
}
use ns3_bellhop_platform.Runtime.CycleRuntime.History.{Event, tx_start, cycle_close, IsConsistent}
use ns3_bellhop_platform.Kernel.Gateway.{
  to_ns3_time, to_ns3_duration, from_ns3_time, platform_now, delay_until, checked_delay,
}
use ns3_bellhop_platform.Kernel.Gateway
use ns3_bellhop_platform.Contracts.State.{find_node}
use ns3_bellhop_platform.Contracts.TxPhy.{validate_tx_emission_identity}
use ns3_bellhop_platform.Contracts.Channel.{
  create_query, response_eq, validate_channel_field_response_identity,
}
use ns3_bellhop_platform.Contracts.Noise.{validate_noise_observation_identity}
use ns3_bellhop_platform.Contracts.Noise
use ns3_bellhop_platform.Contracts.ReceivedSignal.{
  first_arrival_at, last_effect_end_at, latest_excess_delay, has_temporal_overlap,
  has_spectral_overlap, has_p0_signal_overlap, signal_eq,
}
use ns3_bellhop_platform.Contracts.ReceivedSignal
use ns3_bellhop_platform.Contracts.ReceiverWindow.{check_overlaps, seen_before}
use ns3_bellhop_platform.Contracts.ReceiverWindow
use ns3_bellhop_platform.Contracts.RxPhy.{
  create_noise_query_for_desired_signal, create_request, validate_rx_decode_result_identity,
}
use ns3_bellhop_platform.Runtime.Allocator.{next_transmission_id, next_reception_id}
use ns3_bellhop_platform.Runtime.Projector.{project_from_anchor}
use ns3_bellhop_platform.Runtime.Projector
use ns3_bellhop_platform.Runtime.WorkingState.{project_node_state}
use ns3_bellhop_platform.Runtime.Ledger.{canonical_less, insert, contains, signals_for_receiver}
use ns3_bellhop_platform.Runtime.WindowBuilder.{build, select_overlapping}
use ns3_bellhop_platform.Runtime.Executor.{
  prepare, transmit, execute_transmission, project_receivers, receive_at, receive_all,
}
use ns3_bellhop_platform.Runtime.Processor.{decode, append, process_received_signal}
use ns3_bellhop_platform.Lifecycle.{callback}
use ns3_bellhop_platform.Lifecycle.Consistent.{run-IsConsistent}
use ns3_bellhop_platform.Lifecycle.Boundary.{Precedes, run-overlap_first}
use ns3_bellhop_platform.Examples.{whole, at, signal}
use ns3_bellhop_platform.Examples.Cycles.{cycle}
use ns3_bellhop_platform.Examples.Dispatches.{Machine, machine, stop, stopped}
use ns3_bellhop_platform.Examples.Runs.{modem, channel, quiet, decoder, request, cycle-IsConsistent}

-- The close and the start of the transmission are scheduled.
abbrev planned : EventDispatcher Machine (Event ℤ)
planned = record (create (pos 0, false) 2) {
  buckets =
      record {
        time = at 320;
        records =
            record {
              key = record { time = at 320; phase = Dispatcher.tx_start; sequence = 1 };
              callback = tx_start (at 320) request;
            }
            ∷ [];
      }
      ∷ record {
        time = at 500;
        records =
            record {
              key = record { time = at 500; phase = Dispatcher.cycle_close; sequence = 0 };
              callback = cycle_close (at 500);
            }
            ∷ [];
      }
      ∷ [];
}

planned-IsQueue : IsQueue planned
planned-IsQueue = record {
  number_fits = omega arith;
  ascending = ((omega arith, tt), (tt, tt));
  each = (
    record { of_time = (refl, tt); numbered = (omega arith, tt); in_order = (tt, tt) },
    (record { of_time = (refl, tt); numbered = (omega arith, tt); in_order = (tt, tt) }, tt),
  );
}

abbrev to : ℕ → SimTime × (Machine → Machine)
to t = (at t, λ m. (pos t, m.1))

abbrev times : List (SimTime × (Machine → Machine))
times = to 320 ∷ to 325 ∷ to 338 ∷ to 500 ∷ []

run-IsConsistent_example :
    (fuel : ℕ) × (o : Outcome Machine (Event ℤ) (CycleSignalRuntime ℤ)) × (status : Status) × (run
        machine
        (callback modem channel quiet decoder)
        stop
        stopped
        fuel
        times
        planned
        cycle
      ≡ some (o, status))
    × IsConsistent cycle o.shared
run-IsConsistent_example =
    run-IsConsistent modem channel quiet decoder cycle machine stop stopped times planned cycle
      planned-IsQueue cycle-IsConsistent

abbrev report : Outcome Machine (Event ℤ) (CycleSignalRuntime ℤ) × Status → List EventKey × Status
report (o, status) = (o.dispatched, status)

-- Until the close, the dispatcher starts the transmission, lets its signal arrive, and decodes it.
runs_in_order :
    Option.map report (
      run machine
        (callback modem channel quiet decoder)
        stop
        stopped
        3
        (to 320 ∷ to 325 ∷ to 338 ∷ [])
        planned
        cycle)
    ≡ some (
      record { time = at 320; phase = Dispatcher.tx_start; sequence = 1 }
          ∷ record { time = at 325; phase = Dispatcher.signal_arrival; sequence = 2 }
          ∷ record { time = at 338; phase = Dispatcher.session_finalize; sequence = 3 }
          ∷ [],
      ok tt,
    )
unfolding run run_calls dispatch_time dispatch_loop take_next take_from least key_less phase_less
    drop_bucket call schedule_at admit platform_now from_ns3_time to_ns3_time phase_floor
    allocate_sequence enqueue has_bucket place Gateway.schedule_at delay_until checked_delay
    checked_subtract checked_subtract_counts to_ns3_duration ◌-ℤ◌ ◌+ℤ◌ execute_transmission prepare
    project_receivers project_node_state Projector.project_node_state find_node find_key
    project_from_anchor next_transmission_id transmit validate_tx_emission_identity checked_add
    checked_add_counts receive_all receive_at create_query validate_channel_field_response_identity
    ReceivedSignal.create sort_by ◌*ℤ◌ ◌/ℤ◌ has_adjacent process_received_signal decode build
    contains signals_for_receiver signal_eq until lower_bound response_eq select_overlapping
    ReceiverWindow.create check_overlaps seen_before has_p0_signal_overlap has_temporal_overlap
    has_spectral_overlap first_arrival_at last_effect_end_at latest_excess_delay
    create_noise_query_for_desired_signal Noise.create_query validate_noise_observation_identity
    create_request validate_rx_decode_result_identity next_reception_id handle_tx_start
    handle_signal_arrival handle_session_finalize insert append canonical_less
runs_in_order = refl

abbrev arrival_key : EventKey
arrival_key = record { time = at 325; phase = Dispatcher.signal_arrival; sequence = 2 }

abbrev finalize_key : EventKey
finalize_key = record { time = at 338; phase = Dispatcher.session_finalize; sequence = 3 }

returned :
    (p : Outcome Machine (Event ℤ) (CycleSignalRuntime ℤ) × Status) × (run machine
        (callback modem channel quiet decoder)
        stop
        stopped
        3
        (to 320 ∷ to 325 ∷ to 338 ∷ [])
        planned
        cycle
      ≡ some p)
    × (p.0.dispatched
        ≡ record { time = at 320; phase = Dispatcher.tx_start; sequence = 1 }
          ∷ arrival_key
          ∷ finalize_key
          ∷ [])
returned =
    let (p, h, same) = (Option.map-eq-some_iff report _).0 runs_in_order in
    (p, h, ap (λ r. r.0) same)

overlaps_itself : has_temporal_overlap (signal 9 2 320) (signal 9 2 320) ≡ true
unfolding has_temporal_overlap first_arrival_at last_effect_end_at latest_excess_delay checked_add
    checked_add_counts ◌-ℤ◌ ◌+ℤ◌
overlaps_itself = refl

run-overlap_first_example : Precedes arrival_key finalize_key returned.0.0.dispatched
unfolding first_arrival_at last_effect_end_at latest_excess_delay checked_add checked_add_counts
    ◌-ℤ◌ ◌+ℤ◌
run-overlap_first_example =
    run-overlap_first machine (callback modem channel quiet decoder) stop stopped 3
      (to 320 ∷ to 325 ∷ to 338 ∷ []) planned cycle returned.0.0 returned.0.1 (signal 9 2 320)
      (signal 9 2 320) arrival_key finalize_key planned-IsQueue
      ((refl, (refl, tt)), ((refl, tt), (tt, tt))) returned.1
      (record { at_time = refl; in_phase = refl }) (record { at_time = refl; in_phase = refl })
      (subst (Among arrival_key) (sym returned.2) (there (here refl)))
      (subst (Among finalize_key) (sym returned.2) (there (there (here refl)))) overlaps_itself
