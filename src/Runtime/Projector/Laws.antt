-- ===== src/Runtime/Projector/Laws.antt =====
-- What a projection keeps, and when it succeeds.
use ns3_bellhop_platform.Prelude.{
  ◌≡◌, ◌≢◌, ◌↔◌, inl, inr, arith, none, List, Option-cases, find_key, find_key_sound,
}
use ns3_bellhop_platform.Prelude.Int.{◌≤ℤ◌, ◌-ℤ◌}
use ns3_bellhop_platform.Contracts.Errors.{ok}
use ns3_bellhop_platform.Contracts.Time.{SimTime, InRange, duration, checked_subtract}
use ns3_bellhop_platform.Contracts.Time.Exact.{checked_subtract_iff}
use ns3_bellhop_platform.Contracts.Doubles.{Double}
use ns3_bellhop_platform.Contracts.State.{NodeId, NodeCommittedState, WorldSnapshot, find_node}
use ns3_bellhop_platform.Contracts.State.Snapshot.{find_node-id}
use ns3_bellhop_platform.Runtime.Projector.{
  WorkingNodeOverlay, overlay_id, advanced, project_from_anchor, project_node_state,
}

module _ {W : Type 0} ⦃d : Double W⦄ where
  -- A projection changes nothing but the position, and its time is not before the anchor.
  pub project_from_anchor_keeps :
      (anchor r : NodeCommittedState W) (anchor_time query_time : SimTime)
      → project_from_anchor anchor anchor_time query_time ≡ ok r
      → (r.node_id ≡ anchor.node_id)
        × (r.capability ≡ anchor.capability)
        × (r.motion.velocity ≡ anchor.motion.velocity)
        × (anchor_time.nanoseconds ≤ℤ query_time.nanoseconds)
  unfolding project_from_anchor
  project_from_anchor_keeps anchor r anchor_time query_time h = ground arith

  -- When both times are values of `int64_t`, the projection of an anchored state succeeds exactly
  -- when the query is not before the anchor and the time between fits an `int64_t`.
  pub project_from_anchor_iff :
      (anchor : NodeCommittedState W) (anchor_time query_time : SimTime)
      → InRange anchor_time.nanoseconds
      → InRange query_time.nanoseconds
      → ((r : NodeCommittedState W) × (project_from_anchor anchor anchor_time query_time ≡ ok r))
        ↔ (anchor_time.nanoseconds ≤ℤ query_time.nanoseconds)
          × InRange (query_time.nanoseconds -ℤ anchor_time.nanoseconds)
  unfolding project_from_anchor
  project_from_anchor_iff anchor anchor_time query_time ha hq =
      elim (Option-cases (checked_subtract query_time anchor_time)) [
        | inl e ↦ (
          λ (r, h). absurd (ground arith),
          λ (le, fits). absurd (
              ground (
                arith,
                (checked_subtract_iff query_time anchor_time
                    (duration (query_time.nanoseconds -ℤ anchor_time.nanoseconds)) hq ha).1,
              )),
        )
        | inr (elapsed, e) ↦
            let exact = (checked_subtract_iff query_time anchor_time elapsed hq ha).0 e in
            (
              λ (r, h). (ground arith, rw (← exact.1) exact.0),
              λ (le, fits). (advanced anchor elapsed, ground arith),
            )
      ]

  -- A projection of a node has the id asked for, and the base snapshot has such a node.
  pub project_node_state-id :
      (base : WorldSnapshot W) (overlays : List (WorkingNodeOverlay W)) (id : NodeId) (t : SimTime)
      (r : NodeCommittedState W)
      → project_node_state base overlays id t ≡ ok r
      → (r.node_id ≡ id) × (find_node base id ≢ none)
  unfolding project_node_state
  project_node_state-id base overlays id t r h = elim (Option-cases (find_node base id)) [
    | inl e ↦ absurd (ground arith)
    | inr (b, e) ↦ elim (Option-cases (find_key overlay_id id overlays)) [
      | inl f ↦
          ground
            (arith, project_from_anchor_keeps b r base.committed_at t, find_node-id base id b e)
      | inr (o, f) ↦ ground (
        arith,
        project_from_anchor_keeps o.state r o.motion_anchor t,
        (find_key_sound overlay_id id overlays f).1,
      )
    ]
  ]
