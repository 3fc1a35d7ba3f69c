-- ===== src/Runtime/WorkingState/Overlays.antt =====
-- The invariant of a working state, and what an update of a velocity does to later projections.
use ns3_bellhop_platform.Prelude.{
  ◌==◌, if◌then◌else◌, ◌≡◌, ◌≢◌, refl, inl, inr, none, List, [], ◌∷◌, map, arith, All, IsAscending,
  find_key-put_key, put_key, put_key-All, put_key-IsAscending,
}
use ns3_bellhop_platform.Prelude.Int.{◌≤ℤ◌}
use ns3_bellhop_platform.Contracts.Errors.{ok, Result-cases}
use ns3_bellhop_platform.Contracts.Time.{SimTime}
use ns3_bellhop_platform.Contracts.Doubles.{Double}
use ns3_bellhop_platform.Contracts.State.{
  NodeId, PlanningCycleId, NodeCommittedState, Velocity3d, WorldSnapshot, find_node,
}
use ns3_bellhop_platform.Contracts.State.Snapshot.{IsCanonical}
use ns3_bellhop_platform.Runtime.Projector.{WorkingNodeOverlay, overlay_id, project_from_anchor}
use ns3_bellhop_platform.Runtime.Projector
use ns3_bellhop_platform.Runtime.Projector.Laws.{project_from_anchor_keeps}
use ns3_bellhop_platform.Runtime.WorkingState.{
  CycleWorkingState, create, project_node_state, with_velocity, update_velocity,
}

module _ {W : Type 0} where
  -- An overlay belongs to a node of the base snapshot and is anchored within the cycle.
  pub record IsOverlayOf (s : CycleWorkingState W) (o : WorkingNodeOverlay W) : Type 0 where
    pub known : find_node s.base_snapshot o.state.node_id ≢ none
    pub anchored : s.cycle_started_at.nanoseconds ≤ℤ o.motion_anchor.nanoseconds

  pub record IsValid (s : CycleWorkingState W) : Type 0 where
    pub canonical : IsCanonical s.base_snapshot
    pub after_base : s.base_snapshot.committed_at.nanoseconds ≤ℤ s.cycle_started_at.nanoseconds
    pub ordered : IsAscending (map overlay_id s.overlays)
    pub overlays_known : All (IsOverlayOf s) s.overlays

  -- A new working state over a canonical snapshot is valid.
  pub create-IsValid :
      (base : WorldSnapshot W) (cycle_id : PlanningCycleId) (at : SimTime) {s : CycleWorkingState W}
      → IsCanonical base
      → create base cycle_id at ≡ ok s
      → IsValid s
  unfolding create
  create-IsValid base cycle_id at c h = ground arith

module _ {W : Type 0} ⦃d : Double W⦄ where
  -- A projection in the cycle has the id asked for, which the base snapshot has, and its time is
  -- not before the start of the cycle.
  pub project_node_state-id :
      (s : CycleWorkingState W) (id : NodeId) (t : SimTime) (r : NodeCommittedState W)
      → project_node_state s id t ≡ ok r
      → (r.node_id ≡ id)
        × (find_node s.base_snapshot id ≢ none)
        × (s.cycle_started_at.nanoseconds ≤ℤ t.nanoseconds)
  unfolding project_node_state
  project_node_state-id s id t r h =
      ground (arith, Projector.Laws.project_node_state-id s.base_snapshot s.overlays id t r)

  All-IsOverlayOf :
      (s s' : CycleWorkingState W) (os : List (WorkingNodeOverlay W))
      → s'.base_snapshot ≡ s.base_snapshot
      → s'.cycle_started_at ≡ s.cycle_started_at
      → All (IsOverlayOf s) os
      → All (IsOverlayOf s') os
  All-IsOverlayOf s s' [] e f h = tt
  All-IsOverlayOf s s' (o ∷ os) e f h = (
    record { known = rw e h.0.known; anchored = rw f h.0.anchored },
    All-IsOverlayOf s s' os e f h.1,
  )

  module _ (s : CycleWorkingState W) (id : NodeId) (v : Velocity3d W) (effective_at : SimTime) where
    abbrev overlay : NodeCommittedState W → WorkingNodeOverlay W
    overlay n = record { state = with_velocity n v; motion_anchor = effective_at }

    updated :
        (n : NodeCommittedState W)
        → project_node_state s id effective_at ≡ ok n
        → update_velocity s id v effective_at
          ≡ (record s { overlays = put_key overlay_id (overlay n) s.overlays }, ok tt)
    unfolding update_velocity
    updated n e = rw (e, update_velocity)

    -- `UpdateVelocity` keeps the overlays in order, of known nodes, and anchored in the cycle; and
    -- the base snapshot, the cycle and its start as they were.
    pub update_velocity-IsValid : IsValid s → IsValid (update_velocity s id v effective_at).0
    update_velocity-IsValid valid = elim (Result-cases (project_node_state s id effective_at)) [
      | inl (n, e) ↦ rw (updated n e) (stored n (project_node_state-id s id effective_at n e))
      | inr (r, e) ↦ unfold update_velocity in rw (e, update_velocity) valid
    ]
      where
        stored :
            (n : NodeCommittedState W)
            → (n.node_id ≡ id)
              × (find_node s.base_snapshot id ≢ none)
              × (s.cycle_started_at.nanoseconds ≤ℤ effective_at.nanoseconds)
            → IsValid (record s { overlays = put_key overlay_id (overlay n) s.overlays })
        stored n (same, known, late) =
            let o : IsOverlayOf s (overlay n) = record { known = rw same known; anchored = late } in
            record {
              canonical = valid.canonical;
              after_base = valid.after_base;
              ordered = put_key-IsAscending overlay_id (overlay n) s.overlays valid.ordered;
              overlays_known = All-IsOverlayOf s _ _ refl refl (
                  put_key-All overlay_id (IsOverlayOf s) (overlay n) s.overlays o
                    valid.overlays_known);
            }

    stored_project :
        (n : NodeCommittedState W) (other : NodeId) (t : SimTime)
        → n.node_id ≡ id
        → find_node s.base_snapshot id ≢ none
        → s.cycle_started_at.nanoseconds ≤ℤ t.nanoseconds
        → project_node_state
            (record s { overlays = put_key overlay_id (overlay n) s.overlays })
            other
            t
          ≡ (if other == id
              then project_from_anchor (with_velocity n v) effective_at t
              else project_node_state s other t)
    unfolding project_node_state Projector.project_node_state
    stored_project n other t same known late =
        rw (find_key-put_key overlay_id other (overlay n) s.overlays) (ground arith)

    -- After a successful `UpdateVelocity` a projection of the node starts from where it was at the
    -- time of the update, with the new velocity; every other node is projected as before.
    pub project-update_velocity :
        (n : NodeCommittedState W) (other : NodeId) (t : SimTime)
        → project_node_state s id effective_at ≡ ok n
        → s.cycle_started_at.nanoseconds ≤ℤ t.nanoseconds
        → project_node_state (update_velocity s id v effective_at).0 other t ≡ (
            if other == id
            then project_from_anchor (with_velocity n v) effective_at t
            else project_node_state s other t)
    project-update_velocity n other t e late =
        let found = project_node_state-id s id effective_at n e in
        rw (updated n e) (stored_project n other t found.0 found.1 late)
