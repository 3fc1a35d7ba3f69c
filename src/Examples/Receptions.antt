-- ===== src/Examples/Receptions.antt =====
-- The decoding of a signal that another one overlaps, with providers that always answer.
use ns3_bellhop_platform.Prelude.{
  ◌≡◌, ◌⊎◌, inl, inr, refl, arith, [], ◌∷◌, Pairwise, ℕ, ◌↔◌, All, Among, until, lower_bound,
  find_key, sort_by,
}
use ns3_bellhop_platform.Prelude.Int.{ℤ, pos, ◌+ℤ◌, ◌-ℤ◌, ◌*ℤ◌, ◌/ℤ◌}
use ns3_bellhop_platform.Contracts.Errors.{Error, ok, err}
use ns3_bellhop_platform.Contracts.Time.{
  checked_add, checked_add_counts, checked_subtract, checked_subtract_counts,
}
use ns3_bellhop_platform.Contracts.State.{find_node}
use ns3_bellhop_platform.Contracts.Channel.{response_eq}
use ns3_bellhop_platform.Contracts.Noise.{create_query, validate_noise_observation_identity}
use ns3_bellhop_platform.Contracts.ReceivedSignal.{
  ReceivedSignal, transmission_id_of, receiver_of, first_arrival_at, last_effect_end_at,
  latest_excess_delay, has_temporal_overlap, has_spectral_overlap, has_p0_signal_overlap, signal_eq,
}
use ns3_bellhop_platform.Contracts.ReceiverWindow.{
  ReceiverWindow, arrival_less, check_overlaps, seen_before,
}
use ns3_bellhop_platform.Contracts.ReceiverWindow
use ns3_bellhop_platform.Contracts.RxPhy.{
  not_decoded, create_result, create_noise_query_for_desired_signal, create_request,
  validate_rx_decode_result_identity,
}
use ns3_bellhop_platform.Runtime.Allocator.{
  CommunicationIdAllocator, allocator_with_receptions, next_reception_id,
}
use ns3_bellhop_platform.Runtime.Projector.{project_from_anchor}
use ns3_bellhop_platform.Runtime.Projector
use ns3_bellhop_platform.Runtime.WorkingState.{project_node_state}
use ns3_bellhop_platform.Runtime.Ledger.{
  InFlightSignalLedger, canonical_less, contains, signals_for_receiver,
}
use ns3_bellhop_platform.Runtime.Ledger.Order.{IsLedger}
use ns3_bellhop_platform.Runtime.WindowBuilder.{build, select_overlapping}
use ns3_bellhop_platform.Runtime.WindowBuilder.Contents.{Interferes, build_contents}
use ns3_bellhop_platform.Contracts.ReceivedSignal.Overlap.{HasFiniteBand}
use ns3_bellhop_platform.Contracts.ReceiverWindow.Checks.{ArrivesBefore}
use ns3_bellhop_platform.Examples.Signals.{whole-IsIeee}
use ns3_bellhop_platform.Runtime.Processor.{
  INoiseFieldProvider, IRxPhy, ReceptionSession, decode, process_received_signal,
}
use ns3_bellhop_platform.Runtime.Processor.Decoding.{
  IsReceptionOf, IsDecoded, process_received_signal-IsReceptionOf,
}
use ns3_bellhop_platform.Runtime.Processor.Allocation.{process_received_signal-ids}
use ns3_bellhop_platform.Examples.{whole, at, signal, working}

-- One signal at node 1, and two that overlap at node 2.
abbrev in_flight : InFlightSignalLedger ℤ
in_flight = signal 9 1 320 ∷ signal 9 2 320 ∷ signal 10 2 322 ∷ []

in_flight-IsLedger : IsLedger in_flight
unfolding canonical_less first_arrival_at checked_add checked_add_counts ◌-ℤ◌ ◌+ℤ◌
in_flight-IsLedger = record {
  ordered = ((refl, (refl, tt)), ((refl, tt), (tt, tt)));
  apart = ((inl (omega arith), (inl (omega arith), tt)), ((inr (omega arith), tt), (tt, tt)));
}

abbrev window : ReceiverWindow ℤ
window = record {
  receiver_node_id = 2;
  desired_signal = signal 9 2 320;
  overlapping_signals = signal 10 2 322 ∷ [];
}

window_is_built : build (signal 9 2 320) in_flight ≡ ok window
unfolding build contains signals_for_receiver signal_eq until lower_bound response_eq
    select_overlapping ReceiverWindow.create check_overlaps seen_before has_p0_signal_overlap
    has_temporal_overlap has_spectral_overlap first_arrival_at last_effect_end_at
    latest_excess_delay checked_add checked_add_counts sort_by ◌-ℤ◌ ◌+ℤ◌ ◌/ℤ◌
window_is_built = refl

signal_has_band : (id receiver start : ℕ) → HasFiniteBand (signal id receiver start)
signal_has_band id receiver start = record { lower_finite = refl; upper_finite = refl }

in_flight_have_bands : All HasFiniteBand in_flight
in_flight_have_bands =
    (signal_has_band 9 1 320, (signal_has_band 9 2 320, (signal_has_band 10 2 322, tt)))

build_contents_example :
    (window.receiver_node_id ≡ receiver_of (signal 9 2 320))
    × (window.desired_signal ≡ signal 9 2 320)
    × ((c : ReceivedSignal ℤ)
        → Among c window.overlapping_signals ↔ (Among c in_flight × Interferes (signal 9 2 320) c))
    × Pairwise ArrivesBefore window.overlapping_signals
build_contents_example =
    build_contents whole-IsIeee (signal 9 2 320) in_flight window in_flight-IsLedger
      (signal_has_band 9 2 320) in_flight_have_bands window_is_built

abbrev background : INoiseFieldProvider ℤ
background query = ok (record {
  receiver_node_id = query.receiver_node_id;
  observed_from = query.observed_from;
  observed_until = query.observed_until;
  lower_frequency_hz = query.lower_frequency_hz;
  upper_frequency_hz = query.upper_frequency_hz;
  equivalent_noise_power_db_re_1upa2 = pos 30;
})

-- Nothing is decoded when another signal overlaps.
abbrev receiver_phy : IRxPhy ℤ
receiver_phy request =
    create_result (transmission_id_of request.receiver_window.desired_signal)
      request.receiver_window.desired_signal.emission.packet_id
      request.receiver_window.receiver_node_id
      (elim request.receiver_window.overlapping_signals [ [] ↦ 1 | _ ∷ _ ↦ 2 ])

abbrev ids : CommunicationIdAllocator
ids = allocator_with_receptions 20 5

abbrev collided : ReceptionSession ℤ
collided = record {
  reception = record {
    reception_id = 5;
    transmission_id = 9;
    receiver_node_id = 2;
    arrival_at = at 325;
  };
  desired_signal = signal 9 2 320;
  receiver_window = window;
  noise_observation = record {
    receiver_node_id = 2;
    observed_from = at 325;
    observed_until = at 338;
    lower_frequency_hz = pos 950;
    upper_frequency_hz = pos 1050;
    equivalent_noise_power_db_re_1upa2 = pos 30;
  };
  decode_result = record {
    transmission_id = 9;
    packet_id = 40;
    receiver_node_id = 2;
    outcome = not_decoded;
  };
}

is_processed :
    (process_received_signal background receiver_phy ids (signal 9 2 320) in_flight working).1
    ≡ ok collided
unfolding process_received_signal create_result decode build contains signals_for_receiver signal_eq
    until lower_bound response_eq select_overlapping ReceiverWindow.create check_overlaps
    seen_before has_p0_signal_overlap has_temporal_overlap has_spectral_overlap first_arrival_at
    last_effect_end_at latest_excess_delay checked_add checked_add_counts sort_by ◌-ℤ◌ ◌+ℤ◌ ◌/ℤ◌
    ◌*ℤ◌ project_node_state Projector.project_node_state find_node find_key project_from_anchor
    checked_subtract checked_subtract_counts create_noise_query_for_desired_signal create_query
    validate_noise_observation_identity create_request validate_rx_decode_result_identity
    next_reception_id
is_processed = refl

process_received_signal-IsReceptionOf_example :
    IsReceptionOf ids (signal 9 2 320) collided
    × IsDecoded background receiver_phy
        (signal 9 2 320)
        in_flight
        working
        collided.receiver_window
        collided.noise_observation
        collided.decode_result
process_received_signal-IsReceptionOf_example =
    process_received_signal-IsReceptionOf background receiver_phy ids (signal 9 2 320) in_flight
      working collided is_processed

process_received_signal-ids_example :
    ((s : ReceptionSession ℤ) × ((process_received_signal background receiver_phy ids
          (signal 9 2 320)
          in_flight
          working).1
        ≡ ok s)
      × ((next_reception_id ids).1 ≡ ok s.reception.reception_id)
      × ((process_received_signal background receiver_phy ids (signal 9 2 320) in_flight working).0
          ≡ (next_reception_id ids).0))
    ⊎ ((e : Error) × (process_received_signal background receiver_phy ids
            (signal 9 2 320)
            in_flight
            working
          ≡ (ids, err e))
        × ((decode background receiver_phy (signal 9 2 320) in_flight working ≡ err e)
            ⊎ ((next_reception_id ids).1 ≡ err e)))
process_received_signal-ids_example =
    process_received_signal-ids background receiver_phy ids (signal 9 2 320) in_flight working
