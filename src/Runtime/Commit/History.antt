-- ===== src/Runtime/Commit/History.antt =====
-- Histories of calls of `CommitCycle` on one store.
use ns3_bellhop_platform.Prelude.{
  ◌+◌, ◌≡◌, refl, Option, none, some, List, [], ◌∷◌, map, arith, length, All, IsAscending, ◌∙◌, inl,
  inr,
}
use ns3_bellhop_platform.Prelude.Int.{◌≤ℤ◌}
use ns3_bellhop_platform.Contracts.Errors.{ok, err, Result-cases}
use ns3_bellhop_platform.Contracts.State.{PlanningCycleId, SnapshotVersion, DeltaSet, id_of}
use ns3_bellhop_platform.Runtime.Commit.{WorldStateStore, commit_cycle}
use ns3_bellhop_platform.Runtime.Commit.Cycle.{
  IsNewCycle, IsValid, IsAcceptable, next_store, commit_cycle_iff, commit_cycle_effect,
  commit_cycle-IsValid,
}

-- One call of `CommitCycle`, by its arguments.
pub record Commit {ℓ} (W : Type ℓ) : Type ℓ where
  pub expected_version : SnapshotVersion
  pub delta : DeltaSet W

-- Every cycle of the list comes after the last one.
abbrev pub AllNew : Option PlanningCycleId → List PlanningCycleId → Type 0
AllNew last = All (IsNewCycle last)

weaken :
    (last : Option PlanningCycleId) (c : PlanningCycleId) (cs : List PlanningCycleId)
    → IsNewCycle last c
    → AllNew (some c) cs
    → AllNew last cs
weaken last c [] n a = tt
weaken none c (d ∷ cs) n a = (tt, weaken none c cs n a.1)
weaken (some l) c (d ∷ cs) n a = (omega arith, weaken (some l) c cs n a.1)

module _ {ℓ} {W : Type ℓ} where
  -- The store after the calls, and the cycles that were committed, in order.
  pub run : WorldStateStore W → List (Commit W) → WorldStateStore W × List PlanningCycleId
  run store [] = (store, [])
  run store (c ∷ cs) =
      let (store', status) = commit_cycle store c.expected_version c.delta in
      let rest = run store' cs in
      elim status [ ok _ ↦ (rest.0, c.delta.cycle_id ∷ rest.1) | err _ ↦ rest ]

  pub record IsHistory (store : WorldStateStore W) (r : WorldStateStore W × List PlanningCycleId)
      : Type ℓ where
    pub valid : IsValid r.0
    pub counted : r.0.current_snapshot.version ≡ store.current_snapshot.version + length r.1
    pub forward :
        store.current_snapshot.committed_at.nanoseconds
        ≤ℤ r.0.current_snapshot.committed_at.nanoseconds
    pub ascending : IsAscending r.1
    pub new : AllNew store.last_committed_cycle_id r.1
    pub same_nodes : map id_of r.0.current_snapshot.nodes ≡ map id_of store.current_snapshot.nodes

  after_success :
      {store : WorldStateStore W} {version : SnapshotVersion} {delta : DeltaSet W}
      {r : WorldStateStore W × List PlanningCycleId}
      → IsAcceptable store version delta
      → map id_of (next_store store delta).current_snapshot.nodes
        ≡ map id_of store.current_snapshot.nodes
      → IsHistory (next_store store delta) r
      → IsHistory store (r.0, delta.cycle_id ∷ r.1)
  after_success {store} {delta} {r} a same h = record {
    valid = h.valid;
    counted = omega (arith, h.counted);
    forward = omega (arith, h.forward, a.in_time);
    ascending = (h.new, h.ascending);
    new = (a.new_cycle, weaken store.last_committed_cycle_id delta.cycle_id r.1 a.new_cycle h.new);
    same_nodes = h.same_nodes ∙ same;
  }

  -- After any calls on a valid store the store is valid, its version has grown by the number of
  -- commits that succeeded, its time has not gone back, the cycles committed ascend strictly and
  -- come after the last one before, and the nodes have the ids that they had.
  pub run-IsHistory :
      (store : WorldStateStore W) (cs : List (Commit W))
      → IsValid store
      → IsHistory store (run store cs)
  unfolding run
  run-IsHistory store [] v = record {
    valid = v;
    counted = omega arith;
    forward = omega arith;
    ascending = tt;
    new = tt;
    same_nodes = refl;
  }
  run-IsHistory store (c ∷ cs) v =
      let ih = run-IsHistory (commit_cycle store c.expected_version c.delta).0 cs kept.0 in
      elim (commit_cycle_effect v c.expected_version c.delta) [
        | inl (done, e) ↦
            let a = (commit_cycle_iff v c.expected_version c.delta).0 done in
            rw (done, run, e) (after_success a (rw e at (kept.1)) (rw e at ih))
        | inr (failed, e) ↦ elim (Result-cases (commit_cycle store c.expected_version c.delta).1) [
          | inl (u, done) ↦ absurd (failed done)
          | inr (r, refused) ↦ rw (refused, run, e) (rw e at ih)
        ]
      ]
    where
      kept :
          IsValid (commit_cycle store c.expected_version c.delta).0
          × (map id_of (commit_cycle store c.expected_version c.delta).0.current_snapshot.nodes
              ≡ map id_of store.current_snapshot.nodes)
      kept = commit_cycle-IsValid v c.expected_version c.delta
