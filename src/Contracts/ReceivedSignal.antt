-- ===== src/Contracts/ReceivedSignal.antt =====
-- Platform/contracts/include/ns3_factory/contracts/received_signal.hpp: one transmission at one
-- receiver, the interval of time and the band that it occupies, and when two of them overlap.
pub mod Interval
pub mod Overlap
use ns3_bellhop_platform.Prelude.{
  ◌==◌, Bool, not, ◌||◌, ◌&&◌, List, [], ◌∷◌, Option, none, some, if◌then◌else◌,
}
use ns3_bellhop_platform.Prelude.Int.{pos}
use ns3_bellhop_platform.Contracts.Errors.{
  Error, error, overflow, failed_precondition, Result, ok, ◌>>=◌, ◌>>◌, reject_if, require,
}
use ns3_bellhop_platform.Contracts.Time.{
  SimTime, SimDuration, time, zero_duration, time_lt, duration_lt, checked_add,
}
use ns3_bellhop_platform.Contracts.Doubles.{Double}
use ns3_bellhop_platform.Contracts.State.{NodeId, TransmissionId}
use ns3_bellhop_platform.Contracts.TxPhy.{TxEmission, emission_eq}
use ns3_bellhop_platform.Contracts.Channel.{ChannelFieldResponse, PropagationPath, response_eq}

pub record ReceivedSignal (W : Type 0) : Type 0 where
  pub emission : TxEmission W
  pub channel_response : ChannelFieldResponse W

abbrev pub signal_mismatch : Error
signal_mismatch =
    error failed_precondition "TxEmission identity does not match ChannelFieldResponse"

abbrev pub arrival_overflow : Error
arrival_overflow = error overflow "ReceivedSignal first arrival time overflow"

abbrev pub influence_overflow : Error
influence_overflow = error overflow "ReceivedSignal physical influence time overflow"

abbrev pub band_not_finite : Error
band_not_finite = error overflow "ReceivedSignal occupied frequency boundary is not finite"

-- `*optional`. Reading an empty optional is undefined; the model reads time zero there, and
-- `Interval` shows that no signal that `Create` returns comes to that.
abbrev pub deref : Option SimTime → SimTime
deref none = time (pos 0)
deref (some t) = t

module _ {W : Type 0} where
  abbrev pub transmission_id_of : ReceivedSignal W → TransmissionId
  transmission_id_of s = s.emission.transmission_id

  abbrev pub receiver_of : ReceivedSignal W → NodeId
  receiver_of s = s.channel_response.receiver_node_id

  -- The loop of `latest_excess_delay` from `latest` on.
  pub latest_from : SimDuration → List (PropagationPath W) → SimDuration
  latest_from latest [] = latest
  latest_from latest (p ∷ ps) =
      latest_from (if duration_lt latest p.excess_delay then p.excess_delay else latest) ps

  unfoldable pub latest_excess_delay : ReceivedSignal W → SimDuration
  unfolding latest_from
  latest_excess_delay s = latest_from zero_duration s.channel_response.paths

  unfoldable pub first_arrival_at : ReceivedSignal W → SimTime
  first_arrival_at s =
      deref (checked_add s.emission.started_at s.channel_response.first_arrival_delay)

  unfoldable pub last_effect_end_at : ReceivedSignal W → SimTime
  last_effect_end_at s =
      let latest_path_start = checked_add (first_arrival_at s) (latest_excess_delay s) in
      deref (checked_add (deref latest_path_start) s.emission.duration)

module _ {W : Type 0} ⦃d : Double W⦄ where
  abbrev lower_edge : TxEmission W → W
  lower_edge e = d.sub e.center_frequency_hz (d.div e.bandwidth_hz (d.of_int (pos 2)))

  abbrev upper_edge : TxEmission W → W
  upper_edge e = d.add e.center_frequency_hz (d.div e.bandwidth_hz (d.of_int (pos 2)))

  abbrev pub lower_frequency_hz : ReceivedSignal W → W
  lower_frequency_hz s = lower_edge s.emission

  abbrev pub upper_frequency_hz : ReceivedSignal W → W
  upper_frequency_hz s = upper_edge s.emission

  -- `ReceivedSignal::Create`
  unfoldable pub create : TxEmission W → ChannelFieldResponse W → Result (ReceivedSignal W)
  unfolding latest_from
  create emission channel_response = do
    reject_if (not (emission.transmission_id == channel_response.transmission_id)) signal_mismatch
    arrival ←
        require (checked_add emission.started_at channel_response.first_arrival_delay)
          arrival_overflow
    let latest = latest_from zero_duration channel_response.paths
    latest_path_start ← require (checked_add arrival latest) influence_overflow
    end' ← require (checked_add latest_path_start emission.duration) influence_overflow
    reject_if (not (d.is_finite (lower_edge emission)) || not (d.is_finite (upper_edge emission)))
        band_not_finite
    ok (record { emission = emission; channel_response = channel_response })

  unfoldable pub has_temporal_overlap : ReceivedSignal W → ReceivedSignal W → Bool
  has_temporal_overlap lhs rhs =
      let overlap_start =
        if time_lt (first_arrival_at lhs) (first_arrival_at rhs)
        then first_arrival_at rhs
        else first_arrival_at lhs in
      let overlap_end =
        if time_lt (last_effect_end_at lhs) (last_effect_end_at rhs)
        then last_effect_end_at lhs
        else last_effect_end_at rhs in
      time_lt overlap_start overlap_end

  unfoldable pub has_spectral_overlap : ReceivedSignal W → ReceivedSignal W → Bool
  has_spectral_overlap lhs rhs =
      let overlap_lower =
        if d.lt (lower_frequency_hz lhs) (lower_frequency_hz rhs)
        then lower_frequency_hz rhs
        else lower_frequency_hz lhs in
      let overlap_upper =
        if d.lt (upper_frequency_hz lhs) (upper_frequency_hz rhs)
        then upper_frequency_hz lhs
        else upper_frequency_hz rhs in
      d.lt overlap_lower overlap_upper

  unfoldable pub has_p0_signal_overlap : ReceivedSignal W → ReceivedSignal W → Bool
  has_p0_signal_overlap lhs rhs =
      receiver_of lhs == receiver_of rhs
      && has_temporal_overlap lhs rhs
      && has_spectral_overlap lhs rhs

  -- The defaulted `operator==`.
  unfoldable pub signal_eq : ReceivedSignal W → ReceivedSignal W → Bool
  signal_eq a b =
      emission_eq a.emission b.emission && response_eq a.channel_response b.channel_response
