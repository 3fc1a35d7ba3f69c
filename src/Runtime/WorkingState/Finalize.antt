-- ===== src/Runtime/WorkingState/Finalize.antt =====
-- `FinalizeDeltaSet`: what it returns, that it returns, and that `CommitCycle` takes its result.
use ns3_bellhop_platform.Prelude.{
  ◌≡◌, refl, sym, ap, inl, inr, List, [], ◌∷◌, map, arith, All, find_key, find_key_sound, All-Among,
  Among, Among-All, Option-cases, ◌<◌,
}
use ns3_bellhop_platform.Prelude.Int.{◌≤ℤ◌, pos, int_laws}
use ns3_bellhop_platform.Contracts.Errors.{ok, >>=-eq-ok, reject_if-eq-ok}
use ns3_bellhop_platform.Contracts.Time.{SimTime, time_lt, k_max}
use ns3_bellhop_platform.Contracts.Doubles.{Double}
use ns3_bellhop_platform.Contracts.State.{NodeCommittedState, NodeStateReplacement, DeltaSet, id_of}
use ns3_bellhop_platform.Contracts.State.Snapshot.{find_node_iff}
use ns3_bellhop_platform.Runtime.Commit.{
  WorldStateStore, replacement_id, commit_cycle, k_max_version,
}
use ns3_bellhop_platform.Runtime.Commit.Cycle.{IsNewCycle, IsAcceptable, commit_cycle_iff}
use ns3_bellhop_platform.Runtime.Commit.Cycle
use ns3_bellhop_platform.Runtime.Projector.{WorkingNodeOverlay, overlay_id, project_from_anchor}
use ns3_bellhop_platform.Runtime.Projector
use ns3_bellhop_platform.Runtime.Projector.Laws.{project_node_state-id, project_from_anchor_iff}
use ns3_bellhop_platform.Runtime.WorkingState.{
  CycleWorkingState, finalize_nodes, finalize_delta_set, closes_too_early,
}
use ns3_bellhop_platform.Runtime.WorkingState.Overlays.{IsValid, IsOverlayOf}

module _ {W : Type 0} ⦃d : Double W⦄ where
  finalize_nodes-ids :
      (s : CycleWorkingState W) (close : SimTime) (ns : List (NodeCommittedState W))
      (rs : List (NodeStateReplacement W))
      → finalize_nodes s close ns ≡ ok rs
      → map replacement_id rs ≡ map id_of ns
  unfolding finalize_nodes
  finalize_nodes-ids s close [] rs h = ground arith
  finalize_nodes-ids s close (n ∷ ns) rs h =
      let (p, e, h₁) =
        >>=-eq-ok (Projector.project_node_state s.base_snapshot s.overlays n.node_id close) _ h in
      let (rest, f, h₂) = >>=-eq-ok (finalize_nodes s close ns) _ h₁ in
      ground (
        arith,
        project_node_state-id s.base_snapshot s.overlays n.node_id close p e,
        finalize_nodes-ids s close ns rest f,
      )

  -- The delta set has the cycle's id, the version of the base snapshot and the closing time, which
  -- is not before the start of the cycle, and replaces the nodes of the base snapshot in order.
  pub finalize_delta_set_ok :
      (s : CycleWorkingState W) (close : SimTime) (delta : DeltaSet W)
      → finalize_delta_set s close ≡ ok delta
      → (delta.cycle_id ≡ s.cycle_id)
        × (delta.base_version ≡ s.base_snapshot.version)
        × (delta.effective_at ≡ close)
        × (s.cycle_started_at.nanoseconds ≤ℤ close.nanoseconds)
        × (map replacement_id delta.node_replacements ≡ map id_of s.base_snapshot.nodes)
  unfolding finalize_delta_set
  finalize_delta_set_ok s close delta h =
      let (late, h₁) = reject_if-eq-ok (time_lt close s.cycle_started_at) closes_too_early h in
      let (rs, e, h₂) = >>=-eq-ok (finalize_nodes s close s.base_snapshot.nodes) _ h₁ in
      ground (arith, finalize_nodes-ids s close s.base_snapshot.nodes rs e)

  -- While the store still holds the base snapshot of a valid working state, its version is not the
  -- last one and the cycle is a new one, the delta set of the working state is committed.
  pub finalize-commit_cycle :
      (store : WorldStateStore W) (s : CycleWorkingState W) (close : SimTime) (delta : DeltaSet W)
      → Cycle.IsValid store
      → IsValid s
      → store.current_snapshot ≡ s.base_snapshot
      → store.current_snapshot.version < k_max_version
      → IsNewCycle store.last_committed_cycle_id s.cycle_id
      → finalize_delta_set s close ≡ ok delta
      → (commit_cycle store s.base_snapshot.version delta).1 ≡ ok tt
  finalize-commit_cycle store s close delta vs v same room new h =
      let (cycle, base, at, late, ids) = finalize_delta_set_ok s close delta h in
      (commit_cycle_iff vs s.base_snapshot.version delta).1 (record {
        expected = ap (λ w. w.version) (sym same);
        based = base;
        in_time = rw (same, at) (omega (arith, v.after_base, late));
        room = room;
        new_cycle = rw cycle new;
        complete = rw same ids;
      })

  module _ (s : CycleWorkingState W) (close : SimTime) (v : IsValid s)
      (epoch : pos 0 ≤ℤ s.base_snapshot.committed_at.nanoseconds)
      (late : s.cycle_started_at.nanoseconds ≤ℤ close.nanoseconds)
      (fits : close.nanoseconds ≤ℤ k_max)
      (passed : All (λ o. o.motion_anchor.nanoseconds ≤ℤ close.nanoseconds) s.overlays) where
    from_anchor :
        (n : NodeCommittedState W) (anchor : SimTime)
        → s.base_snapshot.committed_at.nanoseconds ≤ℤ anchor.nanoseconds
        → anchor.nanoseconds ≤ℤ close.nanoseconds
        → (r : NodeCommittedState W) × (project_from_anchor n anchor close ≡ ok r)
    from_anchor n anchor after before =
        (project_from_anchor_iff n anchor close (omega arith) (omega arith)).1
          (before, omega int_laws)

    project_known :
        (n : NodeCommittedState W)
        → Among n s.base_snapshot.nodes
        → (r : NodeCommittedState W) × (Projector.project_node_state s.base_snapshot s.overlays
              n.node_id close
            ≡ ok r)
    unfolding Projector.project_node_state
    project_known n m =
        let found = (find_node_iff s.base_snapshot n.node_id n v.canonical).1 (m, refl) in
        elim (Option-cases (find_key overlay_id n.node_id s.overlays)) [
          | inl e ↦
              let (r, h) =
                from_anchor n s.base_snapshot.committed_at (omega arith)
                  (omega (arith, v.after_base, late)) in
              (r, rw (found, e) h)
          | inr (o, e) ↦
              let (m', _) = find_key_sound overlay_id n.node_id s.overlays e in
              let of = All-Among (IsOverlayOf s) m' v.overlays_known in
              let (r, h) =
                from_anchor o.state o.motion_anchor (omega (arith, of.anchored, v.after_base))
                  (All-Among _ m' passed) in
              (r, rw (found, e) h)
        ]

    finalize-All :
        (ns : List (NodeCommittedState W))
        → All (λ n. Among n s.base_snapshot.nodes) ns
        → (rs : List (NodeStateReplacement W)) × (finalize_nodes s close ns ≡ ok rs)
    unfolding finalize_nodes
    finalize-All [] ms = ([], refl)
    finalize-All (n ∷ ns) ms =
        let (p, e) = project_known n ms.0 in
        let (rs, f) = finalize-All ns ms.1 in (record { state = p } ∷ rs, rw (e, f))

    -- A valid working state over a snapshot of time 0 or later can be finalized at every time of
    -- `int64_t` that is not before the cycle's start or any update.
    pub finalize_delta_set_total : (delta : DeltaSet W) × (finalize_delta_set s close ≡ ok delta)
    unfolding finalize_delta_set
    finalize_delta_set_total =
        let (rs, e) = finalize-All s.base_snapshot.nodes (Among-All _ _ (λ n m. m)) in
        (
          record {
            cycle_id = s.cycle_id;
            base_version = s.base_snapshot.version;
            effective_at = close;
            node_replacements = rs;
          },
          ground arith,
        )
