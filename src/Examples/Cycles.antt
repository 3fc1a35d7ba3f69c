-- ===== src/Examples/Cycles.antt =====
-- A cycle over two nodes, with its working state.
use ns3_bellhop_platform.Prelude.{
  ◌≡◌, ◌≢◌, ◌⊎◌, ◌==◌, refl, arith, none, [], false, if◌then◌else◌, find_key,
}
use ns3_bellhop_platform.Prelude.Int.{ℤ, pos, ◌+ℤ◌, ◌-ℤ◌, ◌*ℤ◌, ◌/ℤ◌}
use ns3_bellhop_platform.Contracts.Errors.{ok}
use ns3_bellhop_platform.Contracts.Time.{checked_subtract, checked_subtract_counts}
use ns3_bellhop_platform.Contracts.State.{DeltaSet, Velocity3d, find_node}
use ns3_bellhop_platform.Runtime.Commit.{commit_cycle}
use ns3_bellhop_platform.Runtime.Projector.{project_from_anchor}
use ns3_bellhop_platform.Runtime.Projector
use ns3_bellhop_platform.Runtime.WorkingState.{
  project_node_state, with_velocity, update_velocity, finalize_delta_set,
}
use ns3_bellhop_platform.Runtime.WorkingState.Overlays.{IsValid, project-update_velocity}
use ns3_bellhop_platform.Runtime.WorkingState.Finalize.{
  finalize_delta_set_total, finalize-commit_cycle,
}
use ns3_bellhop_platform.Runtime.CycleRuntime.{CycleSignalRuntime, handle_cycle_close}
use ns3_bellhop_platform.Runtime.CycleRuntime.Close.{IsClosed, handle_cycle_close_atomic}
use ns3_bellhop_platform.Runtime.Allocator.{allocator_with_receptions}
use ns3_bellhop_platform.Examples.{whole, at, node, world, store, working}
use ns3_bellhop_platform.Examples.Stores.{world-IsCanonical, store-IsValid}

node_2_is_known : find_node world 2 ≢ none
unfolding find_node find_key
node_2_is_known h = cc

pub working-IsValid : IsValid working
working-IsValid = record {
  canonical = world-IsCanonical;
  after_base = omega arith;
  ordered = (tt, tt);
  overlays_known = (record { known = node_2_is_known; anchored = omega arith }, tt);
}

abbrev faster : Velocity3d ℤ
faster = record {
  x_meters_per_second = pos 9;
  y_meters_per_second = pos 0;
  z_meters_per_second = pos 0;
}

project-update_velocity_example :
    project_node_state (update_velocity working 1 faster (at 250)).0 1 (at 400) ≡ (
      if 1 == 1
      then project_from_anchor (with_velocity (node 1 0) faster) (at 250) (at 400)
      else project_node_state working 1 (at 400))
unfolding project_node_state Projector.project_node_state find_node find_key project_from_anchor
    checked_subtract checked_subtract_counts ◌-ℤ◌ ◌+ℤ◌ ◌*ℤ◌ ◌/ℤ◌
project-update_velocity_example =
    project-update_velocity working 1 faster (at 250) (node 1 0) 1 (at 400) refl (omega arith)

finalize_delta_set_total_example :
    (delta : DeltaSet ℤ) × (finalize_delta_set working (at 500) ≡ ok delta)
finalize_delta_set_total_example =
    finalize_delta_set_total working (at 500) working-IsValid (omega arith) (omega arith)
      (omega arith) (omega arith, tt)

abbrev pub closing_delta_set :
    (delta : DeltaSet ℤ) × (finalize_delta_set working (at 500) ≡ ok delta)
closing_delta_set =
    finalize_delta_set_total working (at 500) working-IsValid (omega arith) (omega arith)
      (omega arith) (omega arith, tt)

finalize-commit_cycle_example : (commit_cycle store 3 closing_delta_set.0).1 ≡ ok tt
finalize-commit_cycle_example =
    finalize-commit_cycle store working (at 500) closing_delta_set.0 store-IsValid working-IsValid
      refl (omega arith) (omega arith) closing_delta_set.1

abbrev pub cycle : CycleSignalRuntime ℤ
cycle = record {
  allocator = allocator_with_receptions 1 1;
  working_state = working;
  store = store;
  ledger = [];
  results = [];
  expected_version = 3;
  cycle_close_time = at 500;
  committed = false;
}

handle_cycle_close_atomic_example :
    ((handle_cycle_close cycle (at 500)).1 ≢ ok tt)
      × ((handle_cycle_close cycle (at 500)).0 ≡ cycle)
    ⊎ ((handle_cycle_close cycle (at 500)).1 ≡ ok tt)
      × IsClosed cycle (at 500) (handle_cycle_close cycle (at 500)).0
handle_cycle_close_atomic_example = handle_cycle_close_atomic cycle (at 500) store-IsValid
