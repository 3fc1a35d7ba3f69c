-- ===== src/Contracts/State.antt =====
-- Platform/contracts/include/ns3_factory/contracts/{identity,node_capability,state,delta}.hpp: the
-- identities, the committed state of the nodes, world snapshots and delta sets. A strong identity is
-- its 64-bit value.
pub mod Snapshot
pub mod Order
use ns3_bellhop_platform.Prelude.{
  ℕ, ◌≡◌, Bool, not, ◌||◌, Option, List, ltb, ◌==◌, sort_by, has_adjacent, find_key,
}
use ns3_bellhop_platform.Contracts.Errors.{
  Error, error, already_exists, Result, ok, ◌>>=◌, ◌>>◌, reject_if,
}
use ns3_bellhop_platform.Contracts.Time.{SimTime}

abbrev pub NodeId : Type 0
NodeId = ℕ

abbrev pub PacketId : Type 0
PacketId = ℕ

abbrev pub TransmissionId : Type 0
TransmissionId = ℕ

abbrev pub ReceptionId : Type 0
ReceptionId = ℕ

abbrev pub PlanningCycleId : Type 0
PlanningCycleId = ℕ

abbrev pub SnapshotVersion : Type 0
SnapshotVersion = ℕ

pub data DuplexMode : Type 0 where
  half_duplex full_duplex : DuplexMode

pub record NodeCapabilityProfile : Type 0 where
  pub can_transmit : Bool
  pub can_receive : Bool
  pub duplex_mode : DuplexMode

pub can_communicate : NodeCapabilityProfile → Bool
can_communicate p = p.can_transmit || p.can_receive

pub record Position3d {ℓ} (W : Type ℓ) : Type ℓ where
  pub x_meters : W
  pub y_meters : W
  pub z_meters : W

pub record Velocity3d {ℓ} (W : Type ℓ) : Type ℓ where
  pub x_meters_per_second : W
  pub y_meters_per_second : W
  pub z_meters_per_second : W

pub record MotionState {ℓ} (W : Type ℓ) : Type ℓ where
  pub position : Position3d W
  pub velocity : Velocity3d W

pub record NodeCommittedState {ℓ} (W : Type ℓ) : Type ℓ where
  pub node_id : NodeId
  pub capability : NodeCapabilityProfile
  pub motion : MotionState W

pub record WorldSnapshot {ℓ} (W : Type ℓ) : Type ℓ where
  pub version : SnapshotVersion
  pub committed_at : SimTime
  pub nodes : List (NodeCommittedState W)

-- `NodeStateReplacement` wraps a state.
pub record NodeStateReplacement {ℓ} (W : Type ℓ) : Type ℓ where
  pub state : NodeCommittedState W

pub record DeltaSet {ℓ} (W : Type ℓ) : Type ℓ where
  pub cycle_id : PlanningCycleId
  pub base_version : SnapshotVersion
  pub effective_at : SimTime
  pub node_replacements : List (NodeStateReplacement W)

abbrev pub duplicate_node : Error
duplicate_node = error already_exists "WorldSnapshot contains a duplicate NodeId"

module _ {ℓ} {W : Type ℓ} where
  abbrev pub id_of : NodeCommittedState W → NodeId
  id_of n = n.node_id

  abbrev pub node_less : NodeCommittedState W → NodeCommittedState W → Bool
  node_less lhs rhs = ltb lhs.node_id rhs.node_id

  abbrev pub same_node : NodeCommittedState W → NodeCommittedState W → Bool
  same_node lhs rhs = lhs.node_id == rhs.node_id

  -- `WorldSnapshot::Create`
  unfoldable pub create :
      SnapshotVersion → SimTime → List (NodeCommittedState W) → Result (WorldSnapshot W)
  create version committed_at nodes = do
    let sorted = sort_by node_less nodes
    reject_if (has_adjacent same_node sorted) duplicate_node
    ok (record { version = version; committed_at = committed_at; nodes = sorted })

  unfoldable pub find_node : WorldSnapshot W → NodeId → Option (NodeCommittedState W)
  unfolding find_key
  find_node s node_id = find_key id_of node_id s.nodes
