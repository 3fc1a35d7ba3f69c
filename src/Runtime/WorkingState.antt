-- ===== src/Runtime/WorkingState.antt =====
-- Platform/runtime/internal/cycle_working_state.hpp: the base snapshot of a planning cycle with the
-- overlays of the nodes that changed their velocity, ordered by node id.
pub mod Overlays
pub mod Finalize
use ns3_bellhop_platform.Prelude.{List, [], ◌∷◌, put_key}
use ns3_bellhop_platform.Contracts.Errors.{
  Error, error, failed_precondition, Result, ok, err, Status, ◌>>=◌, ◌>>◌, reject_if,
}
use ns3_bellhop_platform.Contracts.Time.{SimTime, time_lt}
use ns3_bellhop_platform.Contracts.Doubles.{Double}
use ns3_bellhop_platform.Contracts.State.{
  NodeId, PlanningCycleId, NodeCommittedState, NodeStateReplacement, DeltaSet, Velocity3d,
  WorldSnapshot,
}
use ns3_bellhop_platform.Runtime.Projector.{WorkingNodeOverlay, overlay_id}
use ns3_bellhop_platform.Runtime.Projector

pub record CycleWorkingState (W : Type 0) : Type 0 where
  pub base_snapshot : WorldSnapshot W
  pub cycle_id : PlanningCycleId
  pub cycle_started_at : SimTime
  pub overlays : List (WorkingNodeOverlay W)

abbrev starts_too_early : Error
starts_too_early =
    error failed_precondition "CycleWorkingState cannot start before its base snapshot"

abbrev query_too_early : Error
query_too_early = error failed_precondition "CycleWorkingState query_time precedes the cycle start"

abbrev closes_too_early : Error
closes_too_early =
    error failed_precondition "CycleWorkingState cannot finalize before the cycle start"

module _ {W : Type 0} where
  -- `CycleWorkingState::Create`
  pub create : WorldSnapshot W → PlanningCycleId → SimTime → Result (CycleWorkingState W)
  create base_snapshot cycle_id cycle_started_at = do
    reject_if (time_lt cycle_started_at base_snapshot.committed_at) starts_too_early
    ok (record {
      base_snapshot = base_snapshot;
      cycle_id = cycle_id;
      cycle_started_at = cycle_started_at;
      overlays = [];
    })

module _ {W : Type 0} ⦃d : Double W⦄ where
  unfoldable pub project_node_state :
      CycleWorkingState W → NodeId → SimTime → Result (NodeCommittedState W)
  project_node_state s node_id query_time = do
    reject_if (time_lt query_time s.cycle_started_at) query_too_early
    Projector.project_node_state s.base_snapshot s.overlays node_id query_time

  abbrev pub with_velocity : NodeCommittedState W → Velocity3d W → NodeCommittedState W
  with_velocity n v = record n { motion = record (n.motion) { velocity = v } }

  -- A failure leaves the state as it was.
  unfoldable pub update_velocity :
      CycleWorkingState W → NodeId → Velocity3d W → SimTime → CycleWorkingState W × Status
  update_velocity s node_id velocity effective_at =
      elim (project_node_state s node_id effective_at) [
        | err e ↦ (s, err e)
        | ok projected ↦
            let overlay : WorkingNodeOverlay W = record {
              state = with_velocity projected velocity;
              motion_anchor = effective_at;
            } in
            (record s { overlays = put_key overlay_id overlay s.overlays }, ok tt)
      ]

  -- The loop of `FinalizeDeltaSet` over the nodes of the base snapshot.
  finalize_nodes :
      CycleWorkingState W
      → SimTime
      → List (NodeCommittedState W)
      → Result (List (NodeStateReplacement W))
  finalize_nodes s cycle_close_time [] = ok []
  finalize_nodes s cycle_close_time (n ∷ ns) = do
    projected ← Projector.project_node_state s.base_snapshot s.overlays n.node_id cycle_close_time
    rest ← finalize_nodes s cycle_close_time ns
    ok (record { state = projected } ∷ rest)

  unfoldable pub finalize_delta_set : CycleWorkingState W → SimTime → Result (DeltaSet W)
  unfolding finalize_nodes
  finalize_delta_set s cycle_close_time = do
    reject_if (time_lt cycle_close_time s.cycle_started_at) closes_too_early
    replacements ← finalize_nodes s cycle_close_time s.base_snapshot.nodes
    ok (record {
      cycle_id = s.cycle_id;
      base_version = s.base_snapshot.version;
      effective_at = cycle_close_time;
      node_replacements = replacements;
    })
