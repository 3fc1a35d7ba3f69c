-- ===== src/Contracts/Channel.antt =====
-- Platform/contracts/include/ns3_factory/contracts/channel.hpp: propagation paths, channel queries
-- and responses. `IChannelFieldProvider` is a function argument of the code that calls it. A
-- constructor's arguments are given as the record to check.
pub mod Paths
pub mod Response
pub mod Order
use ns3_bellhop_platform.Prelude.{
  ◌==◌, Bool, true, false, not, ◌||◌, ◌&&◌, List, [], ◌∷◌, if◌then◌else◌, sort_by,
}
use ns3_bellhop_platform.Prelude.Int.{pos, ltb_ℤ}
use ns3_bellhop_platform.Contracts.Errors.{
  Error, error, out_of_range, invalid_argument, failed_precondition, Result, ok, Status, ◌>>=◌,
  ◌>>◌, reject_if,
}
use ns3_bellhop_platform.Contracts.Time.{
  SimTime, SimDuration, zero_duration, duration_eq, duration_lt,
}
use ns3_bellhop_platform.Contracts.Doubles.{Double}
use ns3_bellhop_platform.Contracts.State.{NodeId, TransmissionId, Position3d}

pub record PropagationPath (W : Type 0) : Type 0 where
  pub excess_delay : SimDuration
  pub pressure_gain_linear : W
  pub phase_radians : W

pub record ChannelQuery (W : Type 0) : Type 0 where
  pub transmission_id : TransmissionId
  pub sender_node_id : NodeId
  pub receiver_node_id : NodeId
  pub tx_position : Position3d W
  pub rx_position : Position3d W
  pub emitted_at : SimTime
  pub center_frequency_hz : W
  pub bandwidth_hz : W

pub record ChannelFieldResponse (W : Type 0) : Type 0 where
  pub transmission_id : TransmissionId
  pub receiver_node_id : NodeId
  pub aggregate_transmission_loss_db : W
  pub first_arrival_delay : SimDuration
  pub paths : List (PropagationPath W)

abbrev negative_path : Error
negative_path =
    error out_of_range "PropagationPath excess delay and pressure gain must be non-negative"

abbrev path_not_finite : Error
path_not_finite = error invalid_argument "PropagationPath pressure gain and phase must be finite"

abbrev query_not_finite : Error
query_not_finite =
    error invalid_argument "ChannelQuery positions and physical values must be finite"

abbrev query_not_positive : Error
query_not_positive = error out_of_range "ChannelQuery frequency and bandwidth must be positive"

abbrev loss_not_finite : Error
loss_not_finite =
    error invalid_argument "ChannelFieldResponse aggregate transmission loss must be finite"

abbrev negative_arrival : Error
negative_arrival =
    error out_of_range "ChannelFieldResponse first arrival delay must be non-negative"

abbrev pub no_zero_path : Error
no_zero_path =
    error failed_precondition "ChannelFieldResponse multipath must contain a zero-excess-delay path"

abbrev response_mismatch : Error
response_mismatch =
    error failed_precondition "ChannelFieldResponse identity does not match ChannelQuery"

module _ {W : Type 0} ⦃d : Double W⦄ where
  -- `PropagationPath::Create`
  unfoldable pub create_path : PropagationPath W → Result (PropagationPath W)
  create_path p = do
    reject_if
        (ltb_ℤ p.excess_delay.nanoseconds (pos 0) || d.lt p.pressure_gain_linear (d.of_int (pos 0)))
        negative_path
    reject_if (not (d.is_finite p.pressure_gain_linear) || not (d.is_finite p.phase_radians))
        path_not_finite
    ok p

  abbrev pub position_is_finite : Position3d W → Bool
  position_is_finite p = d.is_finite p.x_meters && d.is_finite p.y_meters && d.is_finite p.z_meters

  -- `ChannelQuery::Create`
  unfoldable pub create_query : ChannelQuery W → Result (ChannelQuery W)
  create_query q = do
    reject_if
        (not (position_is_finite q.tx_position)
          || not (position_is_finite q.rx_position)
          || not (d.is_finite q.center_frequency_hz)
          || not (d.is_finite q.bandwidth_hz))
        query_not_finite
    reject_if
        (d.le q.center_frequency_hz (d.of_int (pos 0)) || d.le q.bandwidth_hz (d.of_int (pos 0)))
        query_not_positive
    ok q

  -- The comparison by which `ChannelFieldResponse::Create` sorts the paths.
  unfoldable pub path_less : PropagationPath W → PropagationPath W → Bool
  path_less lhs rhs =
      if not (duration_eq lhs.excess_delay rhs.excess_delay)
      then duration_lt lhs.excess_delay rhs.excess_delay
      else if not (d.eq lhs.pressure_gain_linear rhs.pressure_gain_linear)
      then d.lt lhs.pressure_gain_linear rhs.pressure_gain_linear
      else d.lt lhs.phase_radians rhs.phase_radians

  -- `!paths.empty() && paths.front().excess_delay() != SimDuration::Zero()`
  abbrev pub starts_late : List (PropagationPath W) → Bool
  starts_late [] = false
  starts_late (p ∷ ps) = not (duration_eq p.excess_delay zero_duration)

  -- `ChannelFieldResponse::Create`
  unfoldable pub create_response : ChannelFieldResponse W → Result (ChannelFieldResponse W)
  unfolding path_less
  create_response r = do
    reject_if (not (d.is_finite r.aggregate_transmission_loss_db)) loss_not_finite
    reject_if (ltb_ℤ r.first_arrival_delay.nanoseconds (pos 0)) negative_arrival
    let sorted = sort_by path_less r.paths
    reject_if (starts_late sorted) no_zero_path
    ok (record r { paths = sorted })

  abbrev pub path_eq : PropagationPath W → PropagationPath W → Bool
  path_eq a b =
      duration_eq a.excess_delay b.excess_delay
      && d.eq a.pressure_gain_linear b.pressure_gain_linear
      && d.eq a.phase_radians b.phase_radians

  pub paths_eq : List (PropagationPath W) → List (PropagationPath W) → Bool
  paths_eq [] [] = true
  paths_eq (a ∷ as') (b ∷ bs) = path_eq a b && paths_eq as' bs
  paths_eq _ _ = false

  -- The defaulted `operator==`.
  unfoldable pub response_eq : ChannelFieldResponse W → ChannelFieldResponse W → Bool
  unfolding paths_eq
  response_eq a b =
      a.transmission_id == b.transmission_id
      && a.receiver_node_id == b.receiver_node_id
      && d.eq a.aggregate_transmission_loss_db b.aggregate_transmission_loss_db
      && duration_eq a.first_arrival_delay b.first_arrival_delay
      && paths_eq a.paths b.paths

module _ {W : Type 0} where
  unfoldable pub validate_channel_field_response_identity :
      ChannelQuery W → ChannelFieldResponse W → Status
  validate_channel_field_response_identity query response = do
    reject_if
        (not (query.transmission_id == response.transmission_id)
          || not (query.receiver_node_id == response.receiver_node_id))
        response_mismatch
    ok tt
