-- ===== src/Contracts/TxPhy.antt =====
-- Platform/contracts/include/ns3_factory/contracts/tx_phy.hpp: what a transmitter is asked to encode,
-- the emission that it returns, and the check of its identity. `ITxPhy` is a function argument of
-- the code that calls it.
use ns3_bellhop_platform.Prelude.{◌==◌, Bool, not, ◌||◌, ◌&&◌}
use ns3_bellhop_platform.Prelude.Int.{pos, ltb_ℤ}
use ns3_bellhop_platform.Contracts.Errors.{
  Error, error, out_of_range, invalid_argument, failed_precondition, Result, ok, Status, ◌>>◌,
  reject_if,
}
use ns3_bellhop_platform.Contracts.Time.{SimTime, SimDuration, time_eq, duration_eq}
use ns3_bellhop_platform.Contracts.Doubles.{Double}
use ns3_bellhop_platform.Contracts.State.{NodeId, PacketId, TransmissionId}
use ns3_bellhop_platform.Contracts.Packets.{DigitalPacket, TransmissionTarget}

pub record TxEncodeRequest : Type 0 where
  pub transmission_id : TransmissionId
  pub sender_node_id : NodeId
  pub target : TransmissionTarget
  pub started_at : SimTime

pub record TxEmission (W : Type 0) : Type 0 where
  pub transmission_id : TransmissionId
  pub packet_id : PacketId
  pub sender_node_id : NodeId
  pub started_at : SimTime
  pub duration : SimDuration
  pub center_frequency_hz : W
  pub bandwidth_hz : W
  pub source_level_db_re_1upa_at_1m : W

abbrev pub negative_duration : Error
negative_duration = error out_of_range "TxEmission duration must be non-negative"

abbrev pub emission_not_finite : Error
emission_not_finite = error invalid_argument "TxEmission physical values must be finite"

abbrev pub emission_not_positive : Error
emission_not_positive = error out_of_range "TxEmission frequency and bandwidth must be positive"

abbrev pub emission_mismatch : Error
emission_mismatch =
    error failed_precondition "TxEmission identity does not match packet/encode request"

module _ {W : Type 0} ⦃d : Double W⦄ where
  abbrev nought : W
  nought = d.of_int (pos 0)

  -- `TxEmission::Create`, with the constructor's arguments as the emission to check.
  unfoldable pub create : TxEmission W → Result (TxEmission W)
  create e = do
    reject_if (ltb_ℤ e.duration.nanoseconds (pos 0)) negative_duration
    reject_if
        (not (d.is_finite e.center_frequency_hz)
          || not (d.is_finite e.bandwidth_hz)
          || not (d.is_finite e.source_level_db_re_1upa_at_1m))
        emission_not_finite
    reject_if (d.le e.center_frequency_hz nought || d.le e.bandwidth_hz nought)
        emission_not_positive
    ok e

  -- The defaulted `operator==`.
  abbrev pub emission_eq : TxEmission W → TxEmission W → Bool
  emission_eq a b =
      a.transmission_id == b.transmission_id
      && a.packet_id == b.packet_id
      && a.sender_node_id == b.sender_node_id
      && time_eq a.started_at b.started_at
      && duration_eq a.duration b.duration
      && d.eq a.center_frequency_hz b.center_frequency_hz
      && d.eq a.bandwidth_hz b.bandwidth_hz
      && d.eq a.source_level_db_re_1upa_at_1m b.source_level_db_re_1upa_at_1m

module _ {W : Type 0} where
  unfoldable pub validate_tx_emission_identity :
      DigitalPacket → TxEncodeRequest → TxEmission W → Status
  validate_tx_emission_identity packet request emission = do
    reject_if
        (not (emission.transmission_id == request.transmission_id)
          || not (emission.packet_id == packet.packet_id)
          || not (emission.sender_node_id == request.sender_node_id)
          || not (time_eq emission.started_at request.started_at))
        emission_mismatch
    ok tt
