-- ===== src/Contracts/Noise.antt =====
-- Platform/contracts/include/ns3_factory/contracts/noise.hpp: noise queries and observations.
-- `INoiseFieldProvider` is a function argument of the code that calls it. A constructor's arguments
-- are given as the record to check.
use ns3_bellhop_platform.Prelude.{◌==◌, Bool, not, ◌||◌}
use ns3_bellhop_platform.Prelude.Int.{pos}
use ns3_bellhop_platform.Contracts.Errors.{
  Error, error, out_of_range, invalid_argument, failed_precondition, Result, ok, Status, ◌>>◌,
  reject_if,
}
use ns3_bellhop_platform.Contracts.Time.{SimTime, time_eq, time_lt}
use ns3_bellhop_platform.Contracts.Doubles.{Double}
use ns3_bellhop_platform.Contracts.State.{NodeId, Position3d}
use ns3_bellhop_platform.Contracts.Channel.{position_is_finite}

pub record NoiseQuery (W : Type 0) : Type 0 where
  pub receiver_node_id : NodeId
  pub receiver_position : Position3d W
  pub observed_from : SimTime
  pub observed_until : SimTime
  pub lower_frequency_hz : W
  pub upper_frequency_hz : W

pub record NoiseObservation (W : Type 0) : Type 0 where
  pub receiver_node_id : NodeId
  pub observed_from : SimTime
  pub observed_until : SimTime
  pub lower_frequency_hz : W
  pub upper_frequency_hz : W
  pub equivalent_noise_power_db_re_1upa2 : W

abbrev pub query_not_finite : Error
query_not_finite =
    error invalid_argument "NoiseQuery position and frequency boundaries must be finite"

abbrev pub query_interval_empty : Error
query_interval_empty = error out_of_range "NoiseQuery observation interval must have positive width"

abbrev pub query_band_invalid : Error
query_band_invalid = error out_of_range "NoiseQuery frequency interval is invalid"

abbrev pub observation_not_finite : Error
observation_not_finite =
    error invalid_argument "NoiseObservation frequency and power must be finite"

abbrev pub observation_interval_empty : Error
observation_interval_empty = error out_of_range "NoiseObservation interval must have positive width"

abbrev pub observation_band_invalid : Error
observation_band_invalid = error out_of_range "NoiseObservation frequency interval is invalid"

abbrev pub noise_mismatch : Error
noise_mismatch = error failed_precondition "NoiseObservation provenance does not match NoiseQuery"

module _ {W : Type 0} ⦃d : Double W⦄ where
  -- `lower < 0.0 || upper <= lower`
  abbrev band_is_invalid : W → W → Bool
  band_is_invalid lower upper = d.lt lower (d.of_int (pos 0)) || d.le upper lower

  -- `NoiseQuery::Create`
  unfoldable pub create_query : NoiseQuery W → Result (NoiseQuery W)
  create_query q = do
    reject_if
        (not (position_is_finite q.receiver_position)
          || not (d.is_finite q.lower_frequency_hz)
          || not (d.is_finite q.upper_frequency_hz))
        query_not_finite
    reject_if (not (time_lt q.observed_from q.observed_until)) query_interval_empty
    reject_if (band_is_invalid q.lower_frequency_hz q.upper_frequency_hz) query_band_invalid
    ok q

  -- `NoiseObservation::Create`
  unfoldable pub create_observation : NoiseObservation W → Result (NoiseObservation W)
  create_observation o = do
    reject_if
        (not (d.is_finite o.lower_frequency_hz)
          || not (d.is_finite o.upper_frequency_hz)
          || not (d.is_finite o.equivalent_noise_power_db_re_1upa2))
        observation_not_finite
    reject_if (not (time_lt o.observed_from o.observed_until)) observation_interval_empty
    reject_if (band_is_invalid o.lower_frequency_hz o.upper_frequency_hz) observation_band_invalid
    ok o

  unfoldable pub validate_noise_observation_identity : NoiseQuery W → NoiseObservation W → Status
  validate_noise_observation_identity query observation = do
    reject_if
        (not (query.receiver_node_id == observation.receiver_node_id)
          || not (time_eq query.observed_from observation.observed_from)
          || not (time_eq query.observed_until observation.observed_until)
          || not (d.eq query.lower_frequency_hz observation.lower_frequency_hz)
          || not (d.eq query.upper_frequency_hz observation.upper_frequency_hz))
        noise_mismatch
    ok tt
