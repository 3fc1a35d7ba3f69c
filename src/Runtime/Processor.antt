-- ===== src/Runtime/Processor.antt =====
-- Platform/runtime/internal/{receiver_processor,reception_session,reception_result_accumulator}.hpp:
-- the decoding of one signal in the ledger, and the ordered results.
pub mod Sessions
pub mod Decoding
pub mod Allocation
pub mod Arrangement
use ns3_bellhop_platform.Prelude.{◌==◌, Bool, not, List, [], ◌∷◌, ◌++◌, ltb, if◌then◌else◌, sort_by}
use ns3_bellhop_platform.Contracts.Errors.{Result, ok, err, ◌>>=◌, ◌>>◌, reject_if}
use ns3_bellhop_platform.Contracts.Time.{time_eq, time_lt}
use ns3_bellhop_platform.Contracts.Doubles.{Double}
use ns3_bellhop_platform.Contracts.Packets.{Reception}
use ns3_bellhop_platform.Contracts.ReceivedSignal.{
  ReceivedSignal, transmission_id_of, receiver_of, first_arrival_at,
}
use ns3_bellhop_platform.Contracts.ReceiverWindow.{ReceiverWindow}
use ns3_bellhop_platform.Contracts.Noise.{
  NoiseQuery, NoiseObservation, validate_noise_observation_identity,
}
use ns3_bellhop_platform.Contracts.RxPhy.{
  RxDecodeRequest, RxDecodeResult, create_noise_query_for_desired_signal, create_request,
  validate_rx_decode_result_identity,
}
use ns3_bellhop_platform.Runtime.Allocator.{CommunicationIdAllocator, next_reception_id}
use ns3_bellhop_platform.Runtime.Ledger.{InFlightSignalLedger, contains}
use ns3_bellhop_platform.Runtime.WindowBuilder.{build, not_in_ledger}
use ns3_bellhop_platform.Runtime.WorkingState.{CycleWorkingState, project_node_state}

pub record ReceptionSession (W : Type 0) : Type 0 where
  pub reception : Reception
  pub desired_signal : ReceivedSignal W
  pub receiver_window : ReceiverWindow W
  pub noise_observation : NoiseObservation W
  pub decode_result : RxDecodeResult

-- The two providers.
abbrev pub INoiseFieldProvider : Type 0 → Type 0
INoiseFieldProvider W = NoiseQuery W → Result (NoiseObservation W)

abbrev pub IRxPhy : Type 0 → Type 0
IRxPhy W = RxDecodeRequest W → Result RxDecodeResult

-- What is known once the signal is decoded, before an id is allocated.
pub record Decoded (W : Type 0) : Type 0 where
  pub receiver_window : ReceiverWindow W
  pub noise_observation : NoiseObservation W
  pub decode_result : RxDecodeResult

module _ {W : Type 0} ⦃d : Double W⦄ (noise : INoiseFieldProvider W) (rx_phy : IRxPhy W) where
  unfoldable pub decode :
      ReceivedSignal W → InFlightSignalLedger W → CycleWorkingState W → Result (Decoded W)
  decode desired ledger working_state = do
    reject_if (not (contains ledger desired)) not_in_ledger
    window ← build desired ledger
    receiver_state ←
        project_node_state working_state (receiver_of desired) (first_arrival_at desired)
    query ← create_noise_query_for_desired_signal window receiver_state.motion.position
    observation ← noise query
    validate_noise_observation_identity query observation
    request ← create_request window observation
    result ← rx_phy request
    validate_rx_decode_result_identity request result
    ok (record {
      receiver_window = window;
      noise_observation = observation;
      decode_result = result;
    })

  -- `ProcessReceivedSignal`, with the allocator that it leaves.
  unfoldable pub process_received_signal :
      CommunicationIdAllocator
      → ReceivedSignal W
      → InFlightSignalLedger W
      → CycleWorkingState W
      → CommunicationIdAllocator × Result (ReceptionSession W)
  unfolding decode
  process_received_signal ids desired ledger working_state =
      elim (decode desired ledger working_state) [
        | err e ↦ (ids, err e)
        | ok decoded ↦
            let (ids', id) = next_reception_id ids in
            (
              ids',
              id >>= λ reception_id. ok (record {
                reception = record {
                  reception_id = reception_id;
                  transmission_id = transmission_id_of desired;
                  receiver_node_id = receiver_of desired;
                  arrival_at = first_arrival_at desired;
                };
                desired_signal = desired;
                receiver_window = decoded.receiver_window;
                noise_observation = decoded.noise_observation;
                decode_result = decoded.decode_result;
              }),
            )
      ]

-- `ReceptionResultAccumulator::CanonicalLess` from its last two tests on.
pub id_less : Reception → Reception → Bool
id_less a b =
    if not (a.transmission_id == b.transmission_id)
    then ltb a.transmission_id b.transmission_id
    else ltb a.reception_id b.reception_id

module _ {W : Type 0} where
  -- `ReceptionResultAccumulator::CanonicalLess`
  pub session_less : ReceptionSession W → ReceptionSession W → Bool
  session_less lhs rhs =
      let a : Reception = lhs.reception in
      let b : Reception = rhs.reception in
      if not (time_eq a.arrival_at b.arrival_at)
      then time_lt a.arrival_at b.arrival_at
      else if not (a.receiver_node_id == b.receiver_node_id)
      then ltb a.receiver_node_id b.receiver_node_id
      else id_less a b

  -- `Append`; the accumulator is its vector of sessions.
  unfoldable pub append : List (ReceptionSession W) → ReceptionSession W → List (ReceptionSession W)
  unfolding session_less
  append sessions session = sort_by session_less (sessions ++ session ∷ [])
