-- ===== src/Examples.antt =====
-- Test data: whole numbers in the place of floating point, two nodes, a store that holds them and a
-- cycle over it.
mod Times
mod Stores
mod Cycles
mod Signals
mod Runs
mod Gateways
mod Dispatches
mod Receptions
mod Lifecycles
mod Orders
use ns3_bellhop_platform.Prelude.{ℕ, Bool, true, false, Option, none, some, List, [], ◌∷◌}
use ns3_bellhop_platform.Prelude.Int.{ℤ, pos, ◌+ℤ◌, ◌-ℤ◌, ◌*ℤ◌, ◌/ℤ◌, ltb_ℤ, leb_ℤ, eqb_ℤ}
use ns3_bellhop_platform.Contracts.Time.{SimTime, time, duration}
use ns3_bellhop_platform.Contracts.Doubles.{Double}
use ns3_bellhop_platform.Contracts.State.{
  NodeId, TransmissionId, NodeCapabilityProfile, half_duplex, NodeCommittedState,
  NodeStateReplacement, DeltaSet, WorldSnapshot,
}
use ns3_bellhop_platform.Contracts.TxPhy.{TxEmission}
use ns3_bellhop_platform.Contracts.Channel.{ChannelFieldResponse}
use ns3_bellhop_platform.Contracts.ReceivedSignal.{ReceivedSignal}
use ns3_bellhop_platform.Runtime.Commit.{WorldStateStore}
use ns3_bellhop_platform.Runtime.Projector.{WorkingNodeOverlay}
use ns3_bellhop_platform.Runtime.WorkingState.{CycleWorkingState}

instance abbrev pub whole : Double ℤ
whole = record {
  of_int = λ n. n;
  add = ◌+ℤ◌;
  sub = ◌-ℤ◌;
  mul = ◌*ℤ◌;
  div = ◌/ℤ◌;
  lt = ltb_ℤ;
  le = leb_ℤ;
  eq = eqb_ℤ;
  is_finite = λ _. true;
}

abbrev pub at : ℕ → SimTime
at t = time (pos t)

abbrev two_way : NodeCapabilityProfile
two_way = record { can_transmit = true; can_receive = true; duplex_mode = half_duplex }

-- A node on the x axis that moves along it.
abbrev pub node : NodeId → ℕ → NodeCommittedState ℤ
node id x = record {
  node_id = id;
  capability = two_way;
  motion = record {
    position = record { x_meters = pos x; y_meters = pos 0; z_meters = pos 50 };
    velocity = record {
      x_meters_per_second = pos 2;
      y_meters_per_second = pos 0;
      z_meters_per_second = pos 0;
    };
  };
}

abbrev pub world : WorldSnapshot ℤ
world = record { version = 3; committed_at = at 100; nodes = node 1 0 ∷ node 2 900 ∷ [] }

abbrev pub store : WorldStateStore ℤ
store = record { current_snapshot = world; last_committed_cycle_id = some 6 }

-- A delta set of a cycle, for a version.
abbrev pub delta_of : ℕ → ℕ → DeltaSet ℤ
delta_of cycle version = record {
  cycle_id = cycle;
  base_version = version;
  effective_at = at 500;
  node_replacements = record { state = node 1 5 } ∷ record { state = node 2 905 } ∷ [];
}

abbrev overlay : WorkingNodeOverlay ℤ
overlay = record { state = node 2 901; motion_anchor = at 300 }

-- Cycle 7 over that world, with a change of node 2.
abbrev pub working : CycleWorkingState ℤ
working = record {
  base_snapshot = world;
  cycle_id = 7;
  cycle_started_at = at 200;
  overlays = overlay ∷ [];
}

abbrev pub emission_of : TransmissionId → ℕ → TxEmission ℤ
emission_of id start = record {
  transmission_id = id;
  packet_id = 40;
  sender_node_id = 1;
  started_at = at start;
  duration = duration (pos 10);
  center_frequency_hz = pos 1000;
  bandwidth_hz = pos 100;
  source_level_db_re_1upa_at_1m = pos 180;
}

-- What arrives after 5 nanoseconds on one direct path.
abbrev pub response_of : TransmissionId → NodeId → ChannelFieldResponse ℤ
response_of id receiver = record {
  transmission_id = id;
  receiver_node_id = receiver;
  aggregate_transmission_loss_db = pos 60;
  first_arrival_delay = duration (pos 5);
  paths =
      record {
        excess_delay = duration (pos 0);
        pressure_gain_linear = pos 1;
        phase_radians = pos 0;
      }
      ∷ record {
        excess_delay = duration (pos 3);
        pressure_gain_linear = pos 1;
        phase_radians = pos 0;
      }
      ∷ [];
}

abbrev pub signal : TransmissionId → NodeId → ℕ → ReceivedSignal ℤ
signal id receiver start = record {
  emission = emission_of id start;
  channel_response = response_of id receiver;
}
