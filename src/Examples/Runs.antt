-- ===== src/Examples/Runs.antt =====
-- A whole send attempt, with providers that always answer, and the close of a cycle, twice.
use ns3_bellhop_platform.Prelude.{
  List, ◌≡◌, inl, refl, arith, has_adjacent, [], ◌∷◌, find_key, sort_by,
}
use ns3_bellhop_platform.Prelude.Int.{pos, ℤ, ◌+ℤ◌, ◌-ℤ◌, ◌*ℤ◌, ◌/ℤ◌}
use ns3_bellhop_platform.Contracts.Errors.{ok}
use ns3_bellhop_platform.Contracts.Time.{
  checked_add, checked_add_counts, checked_subtract, checked_subtract_counts,
}
use ns3_bellhop_platform.Contracts.State.{find_node}
use ns3_bellhop_platform.Contracts.Packets.{broadcast_destination, broadcast_target}
use ns3_bellhop_platform.Contracts.TxPhy.{validate_tx_emission_identity}
use ns3_bellhop_platform.Contracts.Channel.{create_query, validate_channel_field_response_identity}
use ns3_bellhop_platform.Contracts.ReceivedSignal
use ns3_bellhop_platform.Runtime.Allocator.{
  CommunicationIdAllocator, allocator_with_receptions, next_transmission_id,
}
use ns3_bellhop_platform.Runtime.Commit.{commit_cycle}
use ns3_bellhop_platform.Runtime.Projector.{project_from_anchor}
use ns3_bellhop_platform.Runtime.Projector
use ns3_bellhop_platform.Runtime.WorkingState.{project_node_state}
use ns3_bellhop_platform.Runtime.Executor.{
  TransmissionExecutionRequest, TransmissionSession, ITxPhy, IChannelFieldProvider, prepare,
  transmit, execute_transmission, project_receivers, receive_at, receive_all,
}
use ns3_bellhop_platform.Runtime.Executor.Attempt.{IsSessionOf, execute_transmission-IsSessionOf}
use ns3_bellhop_platform.Runtime.CycleRuntime.{handle_cycle_close, closing_delta}
use ns3_bellhop_platform.Runtime.CycleRuntime.History.{
  Event, tx_start, signal_arrival, session_finalize, cycle_close, handle_all, IsConsistent,
  handle_all-IsConsistent,
}
use ns3_bellhop_platform.Runtime.Processor.{INoiseFieldProvider, IRxPhy, ReceptionSession}
use ns3_bellhop_platform.Contracts.RxPhy.{decoded}
use ns3_bellhop_platform.Examples.{whole, at, emission_of, response_of, signal, working, store}
use ns3_bellhop_platform.Examples.Stores.{store-IsValid}
use ns3_bellhop_platform.Examples.Cycles.{cycle, closing_delta_set, working-IsValid}
use ns3_bellhop_platform.Runtime.WorkingState.Finalize.{finalize-commit_cycle}
use ns3_bellhop_platform.Runtime.Ledger.{validate_ready_for_cycle_close}

-- A modem that needs 10 nanoseconds for a packet.
abbrev pub modem : ITxPhy ℤ
modem packet request = ok (record (emission_of request.transmission_id 0) {
  packet_id = packet.packet_id;
  sender_node_id = request.sender_node_id;
  started_at = request.started_at;
})

abbrev pub channel : IChannelFieldProvider ℤ
channel query = ok (response_of query.transmission_id query.receiver_node_id)

abbrev pub request : TransmissionExecutionRequest
request = record {
  opportunity = record { sender_node_id = 1; eligible_at = at 210 };
  selected_packet = record {
    packet_id = 40;
    source_node_id = 1;
    destination = broadcast_destination;
    payload = 17 ∷ [];
  };
  target = broadcast_target;
  started_at = at 320;
  candidate_receivers = 2 ∷ [];
}

abbrev session : TransmissionSession ℤ
session = record {
  packet = request.selected_packet;
  transmission = record {
    transmission_id = 9;
    packet_id = 40;
    sender_node_id = 1;
    target = broadcast_target;
    started_at = at 320;
    ended_at = at 330;
  };
  emission = emission_of 9 320;
  received_signals = signal 9 2 320 ∷ [];
}

abbrev ids : CommunicationIdAllocator
ids = allocator_with_receptions 9 1

attempt_succeeds : (execute_transmission modem channel ids working request).1 ≡ ok session
unfolding execute_transmission prepare project_receivers project_node_state
    Projector.project_node_state find_node find_key project_from_anchor checked_subtract
    checked_subtract_counts next_transmission_id transmit validate_tx_emission_identity checked_add
    checked_add_counts receive_all receive_at create_query validate_channel_field_response_identity
    ReceivedSignal.create sort_by ◌-ℤ◌ ◌+ℤ◌ ◌*ℤ◌ ◌/ℤ◌ has_adjacent
attempt_succeeds = refl

execute_transmission-IsSessionOf_example : IsSessionOf ids request session
execute_transmission-IsSessionOf_example =
    execute_transmission-IsSessionOf modem channel ids working request session attempt_succeeds

commit_succeeds : (commit_cycle store 3 closing_delta_set.0).1 ≡ ok tt
commit_succeeds =
    finalize-commit_cycle store working (at 500) closing_delta_set.0 store-IsValid working-IsValid
      refl (omega arith) (omega arith) closing_delta_set.1

delta_is_made : closing_delta cycle (at 500) ≡ ok closing_delta_set.0
unfolding closing_delta validate_ready_for_cycle_close
delta_is_made = closing_delta_set.1

close_succeeds : (handle_cycle_close cycle (at 500)).1 ≡ ok tt
unfolding handle_cycle_close
close_succeeds = rw (delta_is_made, handle_cycle_close, commit_succeeds) refl

abbrev pub quiet : INoiseFieldProvider ℤ
quiet query = ok (record {
  receiver_node_id = query.receiver_node_id;
  observed_from = query.observed_from;
  observed_until = query.observed_until;
  lower_frequency_hz = query.lower_frequency_hz;
  upper_frequency_hz = query.upper_frequency_hz;
  equivalent_noise_power_db_re_1upa2 = pos 30;
})

abbrev pub decoder : IRxPhy ℤ
decoder request = ok (record {
  transmission_id = request.receiver_window.desired_signal.emission.transmission_id;
  packet_id = request.receiver_window.desired_signal.emission.packet_id;
  receiver_node_id = request.receiver_window.receiver_node_id;
  outcome = decoded;
})

-- A transmission, the arrival of its signal, its decoding, and the close of the cycle.
abbrev events : List (Event ℤ)
events =
    tx_start (at 320) request
    ∷ signal_arrival (at 325) (signal 9 2 320)
    ∷ session_finalize (at 338) (signal 9 2 320)
    ∷ cycle_close (at 500)
    ∷ []

pub cycle-IsConsistent : IsConsistent cycle cycle
cycle-IsConsistent = record {
  valid = store-IsValid;
  in_flight = record { ordered = tt; apart = tt };
  ordered = tt;
  same_working_state = refl;
  once = inl (refl, refl);
}

handle_all-IsConsistent_example :
    IsConsistent cycle (handle_all modem channel quiet decoder cycle events)
handle_all-IsConsistent_example =
    handle_all-IsConsistent modem channel quiet decoder cycle cycle events cycle-IsConsistent

abbrev pub heard : ReceptionSession ℤ
heard = record {
  reception = record {
    reception_id = 1;
    transmission_id = 9;
    receiver_node_id = 2;
    arrival_at = at 325;
  };
  desired_signal = signal 9 2 320;
  receiver_window = record {
    receiver_node_id = 2;
    desired_signal = signal 9 2 320;
    overlapping_signals = [];
  };
  noise_observation = record {
    receiver_node_id = 2;
    observed_from = at 325;
    observed_until = at 338;
    lower_frequency_hz = pos 950;
    upper_frequency_hz = pos 1050;
    equivalent_noise_power_db_re_1upa2 = pos 30;
  };
  decode_result = record {
    transmission_id = 9;
    packet_id = 40;
    receiver_node_id = 2;
    outcome = decoded;
  };
}
