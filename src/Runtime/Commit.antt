-- ===== src/Runtime/Commit.antt =====
-- Platform/runtime/internal/world_state_store.hpp and commit_service.hpp: the one committed world
-- snapshot, and its replacement by the delta set of a planning cycle. A `CommitService` holds a
-- reference to the store, so each operation takes the store and returns it.
pub mod Replacement
pub mod Cycle
pub mod History
use ns3_bellhop_platform.Prelude.{
  ◌+◌, ◌-◌, ◌%◌, ◌^◌, ℕ, Bool, false, not, Option, none, some, List, [], ◌∷◌, map, ltb, ◌==◌,
  length,
}
use ns3_bellhop_platform.Contracts.Errors.{
  Error, error, failed_precondition, overflow, already_exists, invalid_argument, Result, ok, err,
  Status, ◌>>=◌, ◌>>◌, reject_if,
}
use ns3_bellhop_platform.Contracts.Time.{time_lt}
use ns3_bellhop_platform.Contracts.State.{
  PlanningCycleId, SnapshotVersion, NodeCommittedState, NodeStateReplacement, DeltaSet,
  WorldSnapshot, create,
}

abbrev pub k_max_version : SnapshotVersion
k_max_version = 2 ^ 64 - 1

pub record WorldStateStore {ℓ} (W : Type ℓ) : Type ℓ where
  pub current_snapshot : WorldSnapshot W
  pub last_committed_cycle_id : Option PlanningCycleId

abbrev version_mismatch : Error
version_mismatch =
    error failed_precondition "CommitCycle expected_version does not match the current snapshot"

abbrev base_mismatch : Error
base_mismatch =
    error failed_precondition "CommitCycle delta base_version does not match expected_version"

abbrev effective_too_early : Error
effective_too_early =
    error failed_precondition "CommitCycle delta effective_at precedes the current snapshot"

abbrev version_exhausted : Error
version_exhausted = error overflow "CommitCycle cannot increment the maximum SnapshotVersion"

abbrev duplicate_cycle : Error
duplicate_cycle = error already_exists "CommitCycle rejected a duplicate PlanningCycleId"

abbrev cycle_regressed : Error
cycle_regressed = error failed_precondition "CommitCycle PlanningCycleId regressed"

abbrev duplicate_replacement : Error
duplicate_replacement =
    error already_exists "CommitCycle delta contains a duplicate replacement NodeId"

abbrev not_canonical : Error
not_canonical = error invalid_argument "CommitCycle replacements are not in canonical NodeId order"

abbrev missing_node : Error
missing_node = error failed_precondition "CommitCycle delta is missing an existing NodeId"

abbrev unknown_node : Error
unknown_node = error invalid_argument "CommitCycle delta contains an unknown NodeId"

-- `last_cycle && test(*last_cycle)`
abbrev last_cycle_is : Option PlanningCycleId → (PlanningCycleId → Bool) → Bool
last_cycle_is none test = false
last_cycle_is (some c) test = test c

module _ {ℓ} {W : Type ℓ} where
  abbrev pub replacement_id : NodeStateReplacement W → ℕ
  replacement_id r = r.state.node_id

  -- The first loop of `ValidateFullReplacement`, over pairs of neighbours.
  pub check_order : List (NodeStateReplacement W) → Status
  check_order [] = ok tt
  check_order (r ∷ []) = ok tt
  check_order (r ∷ s ∷ rest) = do
    reject_if (replacement_id r == replacement_id s) duplicate_replacement
    reject_if (ltb (replacement_id s) (replacement_id r)) not_canonical
    check_order (s ∷ rest)

  -- The second loop, over both lists at once. It runs on lists of one length only.
  pub check_ids : List (NodeStateReplacement W) → List (NodeCommittedState W) → Status
  check_ids [] nodes = ok tt
  check_ids (r ∷ rs) [] = ok tt
  check_ids (r ∷ rs) (n ∷ ns) = do
    reject_if (ltb (replacement_id r) n.node_id) unknown_node
    reject_if (ltb n.node_id (replacement_id r)) missing_node
    check_ids rs ns

  pub validate_full_replacement : WorldSnapshot W → DeltaSet W → Status
  validate_full_replacement current delta = do
    let replacements = delta.node_replacements
    check_order replacements
    reject_if (ltb (length replacements) (length current.nodes)) missing_node
    reject_if (ltb (length current.nodes) (length replacements)) unknown_node
    check_ids replacements current.nodes

  commit_snapshot : WorldStateStore W → WorldSnapshot W → PlanningCycleId → WorldStateStore W
  commit_snapshot store next_snapshot cycle_id = record store {
    current_snapshot = next_snapshot;
    last_committed_cycle_id = some cycle_id;
  }

  -- `CommitCycle` up to the candidate that is committed.
  candidate : WorldStateStore W → SnapshotVersion → DeltaSet W → Result (WorldSnapshot W)
  candidate store expected_version delta = do
    let current = store.current_snapshot
    let last_cycle = store.last_committed_cycle_id
    reject_if (not (expected_version == current.version)) version_mismatch
    reject_if (not (delta.base_version == expected_version)) base_mismatch
    reject_if (time_lt delta.effective_at current.committed_at) effective_too_early
    reject_if (current.version == k_max_version) version_exhausted
    reject_if (last_cycle_is last_cycle (λ c. delta.cycle_id == c)) duplicate_cycle
    reject_if (last_cycle_is last_cycle (λ c. ltb delta.cycle_id c)) cycle_regressed
    validate_full_replacement current delta
    create ((current.version + 1) % 2 ^ 64) delta.effective_at
        (map (λ r. r.state) delta.node_replacements)

  pub commit_cycle : WorldStateStore W → SnapshotVersion → DeltaSet W → WorldStateStore W × Status
  unfolding commit_snapshot candidate
  commit_cycle store expected_version delta = elim (candidate store expected_version delta) [
    | err e ↦ (store, err e)
    | ok next ↦ (commit_snapshot store next delta.cycle_id, ok tt)
  ]
