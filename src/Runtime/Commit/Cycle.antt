-- ===== src/Runtime/Commit/Cycle.antt =====
-- `CommitCycle` as a whole: when it commits, what it leaves, and histories of commits.
use ns3_bellhop_platform.Prelude.{
  ◌+◌, ◌<◌, ◌≤◌, ◌≡◌, ◌≢◌, refl, sym, subst, ap, ◌∙◌, ◌↔◌, ◌⊎◌, inl, inr, Option, none, some, List,
  [], ◌∷◌, map, arith, IsAscending,
}
use ns3_bellhop_platform.Prelude.Int.{◌≤ℤ◌}
use ns3_bellhop_platform.Contracts.Errors.{Error, ok, err, Result-cases}
use ns3_bellhop_platform.Contracts.State.{
  PlanningCycleId, SnapshotVersion, NodeStateReplacement, DeltaSet, WorldSnapshot, id_of,
}
use ns3_bellhop_platform.Contracts.State.Snapshot.{IsCanonical, create_canonical}
use ns3_bellhop_platform.Runtime.Commit.{
  WorldStateStore, k_max_version, replacement_id, candidate, commit_cycle,
}
use ns3_bellhop_platform.Runtime.Commit.Replacement.{validate_full_replacement_iff}

-- The cycle comes after the last one that was committed.
abbrev pub IsNewCycle : Option PlanningCycleId → PlanningCycleId → Type 0
IsNewCycle none c = Unit
IsNewCycle (some last) c = last < c

module _ {ℓ} {W : Type ℓ} where
  pub record IsValid (store : WorldStateStore W) : Type 0 where
    pub canonical : IsCanonical store.current_snapshot
    pub version_fits : store.current_snapshot.version ≤ k_max_version

  -- What a delta set must be to be committed.
  pub record IsAcceptable (store : WorldStateStore W) (expected_version : SnapshotVersion)
      (delta : DeltaSet W) : Type 0 where
    pub expected : expected_version ≡ store.current_snapshot.version
    pub based : delta.base_version ≡ expected_version
    pub in_time : store.current_snapshot.committed_at.nanoseconds ≤ℤ delta.effective_at.nanoseconds
    pub room : store.current_snapshot.version < k_max_version
    pub new_cycle : IsNewCycle store.last_committed_cycle_id delta.cycle_id
    pub complete :
        map replacement_id delta.node_replacements ≡ map id_of store.current_snapshot.nodes

  abbrev pub next_snapshot : WorldStateStore W → DeltaSet W → WorldSnapshot W
  next_snapshot store delta = record {
    version = store.current_snapshot.version + 1;
    committed_at = delta.effective_at;
    nodes = map (λ r. r.state) delta.node_replacements;
  }

  abbrev pub next_store : WorldStateStore W → DeltaSet W → WorldStateStore W
  next_store store delta = record {
    current_snapshot = next_snapshot store delta;
    last_committed_cycle_id = some delta.cycle_id;
  }

  ids_of_states :
      (rs : List (NodeStateReplacement W))
      → map id_of (map (λ r. r.state) rs) ≡ map replacement_id rs
  ids_of_states [] = refl
  ids_of_states (r ∷ rs) = ap (◌∷◌ (replacement_id r)) (ids_of_states rs)

  module _ {store : WorldStateStore W} (v : IsValid store) (expected_version : SnapshotVersion)
      (delta : DeltaSet W) where
    accepts :
        IsAcceptable store expected_version delta
        → candidate store expected_version delta ≡ ok (next_snapshot store delta)
    unfolding candidate
    accepts a = ground (
      arith,
      (validate_full_replacement_iff store.current_snapshot delta v.canonical).1 a.complete,
      create_canonical (store.current_snapshot.version + 1) delta.effective_at
          (map (λ r. r.state) delta.node_replacements)
          (subst IsAscending (sym (ids_of_states delta.node_replacements ∙ a.complete))
            v.canonical),
    )

    acceptable :
        {next : WorldSnapshot W}
        → candidate store expected_version delta ≡ ok next
        → IsAcceptable store expected_version delta
    unfolding candidate
    acceptable h =
        ground (arith, (validate_full_replacement_iff store.current_snapshot delta v.canonical).0)

    -- On a valid store `CommitCycle` reports success exactly when the delta set is based on the
    -- expected and current version, does not go back in time, leaves room for a version number,
    -- belongs to a cycle after the last one committed, and replaces every node once in order.
    pub commit_cycle_iff :
        ((commit_cycle store expected_version delta).1 ≡ ok tt)
        ↔ IsAcceptable store expected_version delta
    unfolding commit_cycle
    commit_cycle_iff = (
      λ h. elim (Result-cases (candidate store expected_version delta)) [
        | inl (next, e) ↦ acceptable e
        | inr (r, e) ↦ absurd (refused r e h)
      ],
      λ a. rw (accepts a, commit_cycle),
    )
      where
        refused :
            (r : Error)
            → candidate store expected_version delta ≡ err r
            → (commit_cycle store expected_version delta).1 ≡ ok tt
            → ⊥
        refused r e h = ground arith

    -- A success on a valid store raises the version by one, sets the time and the cycle to those of
    -- the delta set and the nodes to its states; a failure leaves the store as it was.
    pub commit_cycle_effect :
        ((commit_cycle store expected_version delta).1 ≡ ok tt)
          × ((commit_cycle store expected_version delta).0 ≡ next_store store delta)
        ⊎ ((commit_cycle store expected_version delta).1 ≢ ok tt)
          × ((commit_cycle store expected_version delta).0 ≡ store)
    unfolding commit_cycle
    commit_cycle_effect = elim (Result-cases (candidate store expected_version delta)) [
      | inl (next, e) ↦ inl (ground arith, ground (arith, accepts (acceptable e)))
      | inr (r, e) ↦ inr (λ h. ground arith, ground arith)
    ]

    -- The store after an acceptable delta set is valid, with the node ids that it had.
    pub next_store-IsValid :
        IsAcceptable store expected_version delta
        → IsValid (next_store store delta)
          × (map id_of (next_store store delta).current_snapshot.nodes
              ≡ map id_of store.current_snapshot.nodes)
    next_store-IsValid a =
        let same = ids_of_states delta.node_replacements ∙ a.complete in
        (
          record {
            canonical = subst IsAscending (sym same) v.canonical;
            version_fits = ground (arith, a.room);
          },
          same,
        )

    -- Validity is kept, and the set of node ids never changes.
    pub commit_cycle-IsValid :
        IsValid (commit_cycle store expected_version delta).0
        × (map id_of (commit_cycle store expected_version delta).0.current_snapshot.nodes
            ≡ map id_of store.current_snapshot.nodes)
    commit_cycle-IsValid = elim commit_cycle_effect [
      | inl (done, e) ↦ rw e (next_store-IsValid (commit_cycle_iff.0 done))
      | inr (_, e) ↦ rw e (v, refl)
    ]
