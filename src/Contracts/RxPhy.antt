-- ===== src/Contracts/RxPhy.antt =====
-- Platform/contracts/include/ns3_factory/contracts/rx_phy.hpp: decode requests and results. `IRxPhy`
-- is a function argument of the code that calls it. `Create` of a result takes the outcome as the
-- value of its 8-bit representation, which need not be that of an enumerator.
use ns3_bellhop_platform.Prelude.{ℕ, Option, none, some, ◌==◌, not, ◌||◌, if◌then◌else◌}
use ns3_bellhop_platform.Contracts.Errors.{
  Error, error, invalid_argument, overflow, failed_precondition, Result, ok, Status, ◌>>=◌, ◌>>◌,
  reject_if, require,
}
use ns3_bellhop_platform.Contracts.Time.{time_eq, time_lt}
use ns3_bellhop_platform.Contracts.Doubles.{Double}
use ns3_bellhop_platform.Contracts.State.{NodeId, PacketId, TransmissionId, Position3d}
use ns3_bellhop_platform.Contracts.ReceivedSignal.{
  ReceivedSignal, transmission_id_of, first_arrival_at, last_effect_end_at, lower_frequency_hz,
  upper_frequency_hz,
}
use ns3_bellhop_platform.Contracts.ReceiverWindow.{ReceiverWindow}
use ns3_bellhop_platform.Contracts.Noise.{NoiseQuery, NoiseObservation, create_query}

pub data DecodeOutcome : Type 0 where
  decoded not_decoded : DecodeOutcome

-- The enumerator of a value of the representation, if it is one.
abbrev pub outcome_of : ℕ → Option DecodeOutcome
outcome_of value =
    if value == 1 then some decoded else if value == 2 then some not_decoded else none

pub record RxDecodeResult : Type 0 where
  pub transmission_id : TransmissionId
  pub packet_id : PacketId
  pub receiver_node_id : NodeId
  pub outcome : DecodeOutcome

pub record RxDecodeRequest (W : Type 0) : Type 0 where
  pub receiver_window : ReceiverWindow W
  pub noise_observation : NoiseObservation W

abbrev pub outcome_invalid : Error
outcome_invalid = error invalid_argument "RxDecodeResult contains an invalid DecodeOutcome"

-- `RxDecodeResult::Create`
unfoldable pub create_result : TransmissionId → PacketId → NodeId → ℕ → Result RxDecodeResult
create_result transmission_id packet_id receiver_node_id value = do
  outcome ← require (outcome_of value) outcome_invalid
  ok (record {
    transmission_id = transmission_id;
    packet_id = packet_id;
    receiver_node_id = receiver_node_id;
    outcome = outcome;
  })

abbrev pub zero_width : Error
zero_width = error failed_precondition "RxDecodeRequest desired signal interval has zero width"

abbrev pub provenance_mismatch : Error
provenance_mismatch =
    error failed_precondition "RxDecodeRequest noise provenance does not match desired signal"

abbrev pub level_not_finite : Error
level_not_finite = error overflow "P0 scalar received signal level is not finite"

abbrev pub result_mismatch : Error
result_mismatch = error failed_precondition "RxDecodeResult identity does not match desired signal"

module _ {W : Type 0} ⦃d : Double W⦄ where
  unfoldable pub create_noise_query_for_desired_signal :
      ReceiverWindow W → Position3d W → Result (NoiseQuery W)
  create_noise_query_for_desired_signal window position = create_query (record {
    receiver_node_id = window.receiver_node_id;
    receiver_position = position;
    observed_from = first_arrival_at window.desired_signal;
    observed_until = last_effect_end_at window.desired_signal;
    lower_frequency_hz = lower_frequency_hz window.desired_signal;
    upper_frequency_hz = upper_frequency_hz window.desired_signal;
  })

  -- `RxDecodeRequest::Create`
  unfoldable pub create_request : ReceiverWindow W → NoiseObservation W → Result (RxDecodeRequest W)
  create_request window noise = do
    let desired = window.desired_signal
    reject_if (not (time_lt (first_arrival_at desired) (last_effect_end_at desired))) zero_width
    reject_if
        (not (noise.receiver_node_id == window.receiver_node_id)
          || not (time_eq noise.observed_from (first_arrival_at desired))
          || not (time_eq noise.observed_until (last_effect_end_at desired))
          || not (d.eq noise.lower_frequency_hz (lower_frequency_hz desired))
          || not (d.eq noise.upper_frequency_hz (upper_frequency_hz desired)))
        provenance_mismatch
    ok (record { receiver_window = window; noise_observation = noise })

  pub compute_p0_scalar_received_level_db_re_1upa : ReceivedSignal W → Result W
  compute_p0_scalar_received_level_db_re_1upa signal = do
    let level =
        d.sub signal.emission.source_level_db_re_1upa_at_1m
          signal.channel_response.aggregate_transmission_loss_db
    reject_if (not (d.is_finite level)) level_not_finite
    ok level

module _ {W : Type 0} where
  unfoldable pub validate_rx_decode_result_identity : RxDecodeRequest W → RxDecodeResult → Status
  validate_rx_decode_result_identity request result = do
    let desired = request.receiver_window.desired_signal
    reject_if
        (not (result.transmission_id == transmission_id_of desired)
          || not (result.packet_id == desired.emission.packet_id)
          || not (result.receiver_node_id == request.receiver_window.receiver_node_id))
        result_mismatch
    ok tt
