-- ===== src/Runtime/Projector.antt =====
-- Platform/runtime/internal/state_projector.hpp: where a node is at a time, by its velocity since
-- the last anchor.
pub mod Laws
use ns3_bellhop_platform.Prelude.{Bool, Option, none, some, List, find_key}
use ns3_bellhop_platform.Prelude.Int.{pos}
use ns3_bellhop_platform.Contracts.Errors.{
  Error, error, not_found, failed_precondition, overflow, Result, ok, ◌>>=◌, ◌>>◌, reject_if,
  require,
}
use ns3_bellhop_platform.Contracts.Time.{SimTime, SimDuration, time_lt, checked_subtract}
use ns3_bellhop_platform.Contracts.Doubles.{Double}
use ns3_bellhop_platform.Contracts.State.{
  NodeId, NodeCommittedState, MotionState, Position3d, WorldSnapshot, find_node,
}

pub record WorkingNodeOverlay (W : Type 0) : Type 0 where
  pub state : NodeCommittedState W
  pub motion_anchor : SimTime

abbrev node_not_found : Error
node_not_found = error not_found "StateProjector could not find the requested NodeId"

abbrev before_anchor : Error
before_anchor = error failed_precondition "StateProjector query_time precedes the motion anchor"

abbrev elapsed_overflow : Error
elapsed_overflow = error overflow "StateProjector elapsed simulation time overflowed"

module _ {W : Type 0} where
  abbrev pub overlay_id : WorkingNodeOverlay W → NodeId
  overlay_id o = o.state.node_id

module _ {W : Type 0} ⦃d : Double W⦄ where
  -- `elapsed` nanoseconds in seconds.
  abbrev pub elapsed_seconds : SimDuration → W
  elapsed_seconds elapsed = d.div (d.of_int elapsed.nanoseconds) (d.of_int (pos 1_000_000_000))

  -- The motion after some seconds at the same velocity.
  abbrev pub moved : MotionState W → W → MotionState W
  moved m seconds = record m {
    position = record {
      x_meters = d.add m.position.x_meters (d.mul m.velocity.x_meters_per_second seconds);
      y_meters = d.add m.position.y_meters (d.mul m.velocity.y_meters_per_second seconds);
      z_meters = d.add m.position.z_meters (d.mul m.velocity.z_meters_per_second seconds);
    };
  }

  abbrev pub advanced : NodeCommittedState W → SimDuration → NodeCommittedState W
  advanced n elapsed = record n { motion = moved n.motion (elapsed_seconds elapsed) }

  unfoldable pub project_from_anchor :
      NodeCommittedState W → SimTime → SimTime → Result (NodeCommittedState W)
  project_from_anchor anchor_state anchor_time query_time = do
    reject_if (time_lt query_time anchor_time) before_anchor
    elapsed ← require (checked_subtract query_time anchor_time) elapsed_overflow
    ok (advanced anchor_state elapsed)

  unfoldable pub project_node_state :
      WorldSnapshot W
      → List (WorkingNodeOverlay W)
      → NodeId
      → SimTime
      → Result (NodeCommittedState W)
  project_node_state base_snapshot overlays node_id query_time = do
    base_node ← require (find_node base_snapshot node_id) node_not_found
    elim (find_key overlay_id node_id overlays) [
      | some overlay ↦ project_from_anchor overlay.state overlay.motion_anchor query_time
      | none ↦ project_from_anchor base_node base_snapshot.committed_at query_time
    ]
