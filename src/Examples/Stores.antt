-- ===== src/Examples/Stores.antt =====
-- Commits to a store of two nodes.
use ns3_bellhop_platform.Prelude.{◌≡◌, ◌≢◌, ◌↔◌, ◌⊎◌, arith, List, [], ◌∷◌}
use ns3_bellhop_platform.Prelude.Int.{ℤ}
use ns3_bellhop_platform.Contracts.Errors.{ok}
use ns3_bellhop_platform.Contracts.State.Snapshot.{IsCanonical}
use ns3_bellhop_platform.Runtime.Commit.{commit_cycle}
use ns3_bellhop_platform.Runtime.Commit.Cycle.{
  IsValid, IsAcceptable, next_store, commit_cycle_iff, commit_cycle_effect,
}
use ns3_bellhop_platform.Runtime.Commit.History.{Commit, run, IsHistory, run-IsHistory}
use ns3_bellhop_platform.Examples.{world, store, delta_of}

abbrev pub world-IsCanonical : IsCanonical world
world-IsCanonical = ((omega arith, tt), (tt, tt))

abbrev pub store-IsValid : IsValid store
store-IsValid = record { canonical = world-IsCanonical; version_fits = omega arith }

commit_cycle_iff_example :
    ((commit_cycle store 3 (delta_of 7 3)).1 ≡ ok tt) ↔ IsAcceptable store 3 (delta_of 7 3)
commit_cycle_iff_example = commit_cycle_iff store-IsValid 3 (delta_of 7 3)

commit_cycle_effect_example :
    ((commit_cycle store 3 (delta_of 7 3)).1 ≡ ok tt)
      × ((commit_cycle store 3 (delta_of 7 3)).0 ≡ next_store store (delta_of 7 3))
    ⊎ ((commit_cycle store 3 (delta_of 7 3)).1 ≢ ok tt)
      × ((commit_cycle store 3 (delta_of 7 3)).0 ≡ store)
commit_cycle_effect_example = commit_cycle_effect store-IsValid 3 (delta_of 7 3)

-- One commit, a repetition of it, and the next one.
abbrev calls : List (Commit ℤ)
calls =
    record { expected_version = 3; delta = delta_of 7 3 }
    ∷ record { expected_version = 3; delta = delta_of 7 3 }
    ∷ record { expected_version = 4; delta = delta_of 8 4 }
    ∷ []

run-IsHistory_example : IsHistory store (run store calls)
run-IsHistory_example = run-IsHistory store calls store-IsValid
