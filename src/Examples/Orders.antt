-- ===== src/Examples/Orders.antt =====
-- The same parts, given in different orders.
use mathlib.Core.List.Perm
use ns3_bellhop_platform.Prelude.{
  ◌≡◌, ◌↔◌, inr, refl, arith, true, ◌||◌, List, [], ◌∷◌, All, Pairwise, Permᴰ, sort_by,
}
use ns3_bellhop_platform.Prelude.Int.{ℤ, pos, ◌+ℤ◌, ◌-ℤ◌, ◌/ℤ◌, ◌≤ℤ◌}
use ns3_bellhop_platform.Contracts.Errors.{ok}
use ns3_bellhop_platform.Contracts.Time.{duration, checked_add, checked_add_counts}
use ns3_bellhop_platform.Contracts.State
use ns3_bellhop_platform.Contracts.State.Order.{create_snapshot-permᴰ}
use ns3_bellhop_platform.Contracts.Channel.{ChannelFieldResponse, create_response, response_eq}
use ns3_bellhop_platform.Contracts.Channel.Order.{IsPath}
use ns3_bellhop_platform.Contracts.Channel.Response.{
  HasFirst, create_response_iff, create_response-permᴰ,
}
use ns3_bellhop_platform.Contracts.ReceivedSignal.{
  ReceivedSignal, first_arrival_at, last_effect_end_at, latest_excess_delay, has_temporal_overlap,
  has_spectral_overlap, has_p0_signal_overlap, signal_eq,
}
use ns3_bellhop_platform.Contracts.ReceiverWindow.{
  ReceiverWindow, check_overlaps, seen_before, arrival_less,
}
use ns3_bellhop_platform.Contracts.ReceiverWindow
use ns3_bellhop_platform.Contracts.ReceiverWindow.Order.{create-permᴰ}
use ns3_bellhop_platform.Runtime.Ledger.{insert, contains, is_registered, canonical_less}
use ns3_bellhop_platform.Runtime.Ledger.Order.{insert_iff}
use ns3_bellhop_platform.Runtime.Ledger.Arrivals.{insert_all, insert_all-permᴰ}
use ns3_bellhop_platform.Runtime.Ledger.Contains.{contains-insert}
use ns3_bellhop_platform.Runtime.WindowBuilder.{build}
use ns3_bellhop_platform.Runtime.Executor.{execute_transmission}
use ns3_bellhop_platform.Runtime.Executor.Order.{execute_transmission-perm}
use ns3_bellhop_platform.Runtime.Processor.{ReceptionSession}
use ns3_bellhop_platform.Runtime.Processor.Arrangement.{append_all, ComesBefore, append_all-permᴰ}
use ns3_bellhop_platform.Runtime.Allocator.{allocator_with_receptions}
use ns3_bellhop_platform.Runtime.CycleRuntime.{CycleSignalRuntime, handle_signal_arrival}
use ns3_bellhop_platform.Runtime.CycleRuntime.History.{Event, signal_arrival, handle, handle_all}
use ns3_bellhop_platform.Runtime.CycleRuntime.Waiting.{handle_signal_arrival-waits}
use ns3_bellhop_platform.Examples.{node, whole, at, response_of, signal, working}
use ns3_bellhop_platform.Examples.Signals.{
  first, second, one_signal, one_signal-IsLedger, whole-IsIeee,
}
use ns3_bellhop_platform.Examples.Runs.{
  modem, channel, request, quiet, decoder, heard, cycle-IsConsistent,
}
use ns3_bellhop_platform.Examples.Cycles.{cycle}

execute_transmission-perm_example :
    execute_transmission modem channel
      (allocator_with_receptions 9 1)
      working
      (record request { candidate_receivers = 2 ∷ 3 ∷ [] })
    ≡ execute_transmission modem channel
        (allocator_with_receptions 9 1)
        working
        (record request { candidate_receivers = 3 ∷ 2 ∷ [] })
execute_transmission-perm_example =
    execute_transmission-perm modem channel (allocator_with_receptions 9 1) working
      (record request { candidate_receivers = 3 ∷ 2 ∷ [] }) (2 ∷ 3 ∷ []) (Perm.swap 2 3 [])

abbrev third : ReceivedSignal ℤ
third = signal 9 2 24

insert_all-permᴰ_example :
    insert_all one_signal (second ∷ third ∷ []) ≡ insert_all one_signal (third ∷ second ∷ [])
insert_all-permᴰ_example =
    insert_all-permᴰ one_signal {ss = second ∷ third ∷ []} {ts = third ∷ second ∷ []}
      one_signal-IsLedger ((inr (omega arith), tt), (tt, tt)) (Permᴰ.swap refl refl)

second_is_new : (insert one_signal second).1 ≡ ok tt
second_is_new = (insert_iff one_signal second).1 (inr (omega arith), tt)

contains-insert_example :
    contains (insert one_signal second).0 second
    ≡ (contains one_signal second || signal_eq second second)
contains-insert_example = contains-insert one_signal second second one_signal-IsLedger second_is_new

abbrev heard_later : ReceptionSession ℤ
heard_later = record heard { reception = record heard.reception { reception_id = 2 } }

append_all-permᴰ_example :
    Permᴰ (append_all [] (heard_later ∷ heard ∷ [])) (heard_later ∷ heard ∷ [])
    × Pairwise ComesBefore (append_all [] (heard_later ∷ heard ∷ []))
    × (append_all [] (heard ∷ heard_later ∷ []) ≡ append_all [] (heard_later ∷ heard ∷ []))
append_all-permᴰ_example = append_all-permᴰ ((omega arith, tt), (tt, tt)) (Permᴰ.swap refl refl)

abbrev pair : ReceiverWindow ℤ
pair = record {
  receiver_node_id = 2;
  desired_signal = first;
  overlapping_signals = third ∷ second ∷ [];
}

pair_is_created : ReceiverWindow.create 2 first (second ∷ third ∷ []) ≡ ok pair
unfolding ReceiverWindow.create check_overlaps seen_before has_p0_signal_overlap
    has_temporal_overlap has_spectral_overlap first_arrival_at last_effect_end_at
    latest_excess_delay checked_add checked_add_counts sort_by arrival_less ◌-ℤ◌ ◌+ℤ◌ ◌/ℤ◌
pair_is_created = refl

create-permᴰ_example : ReceiverWindow.create 2 first (third ∷ second ∷ []) ≡ ok pair
create-permᴰ_example = create-permᴰ 2 first pair (Permᴰ.swap refl refl) pair_is_created

paths_are_made : All IsPath (response_of 7 2).paths
paths_are_made = (
  record {
    delay_not_negative = omega arith;
    gain_not_negative = refl;
    gain_finite = refl;
    phase_finite = refl;
  },
  (
    record {
      delay_not_negative = omega arith;
      gain_not_negative = refl;
      gain_finite = refl;
      phase_finite = refl;
    },
    tt,
  ),
)

create_response_iff_example :
    ((r : ChannelFieldResponse ℤ) × (create_response (response_of 7 2) ≡ ok r))
    ↔ (true ≡ true) × (pos 0 ≤ℤ pos 5) × HasFirst (response_of 7 2).paths
create_response_iff_example = create_response_iff whole-IsIeee (response_of 7 2) paths_are_made

abbrev reversed : ChannelFieldResponse ℤ
reversed = record (response_of 7 2) {
  paths =
      record {
        excess_delay = duration (pos 3);
        pressure_gain_linear = pos 1;
        phase_radians = pos 0;
      }
      ∷ record {
        excess_delay = duration (pos 0);
        pressure_gain_linear = pos 1;
        phase_radians = pos 0;
      }
      ∷ [];
}

create_response-permᴰ_example : create_response reversed ≡ create_response (response_of 7 2)
create_response-permᴰ_example =
    create_response-permᴰ whole-IsIeee (response_of 7 2) reversed.paths paths_are_made
      ((λ h. absurd (ground arith), tt), (tt, tt)) (Permᴰ.swap refl refl)

-- The signal arrives, and then again.
abbrev repeated : List (Event ℤ)
repeated = signal_arrival (at 325) (signal 9 2 320) ∷ []

abbrev after_repeat : CycleSignalRuntime ℤ
after_repeat =
    handle_all modem channel quiet decoder (handle_signal_arrival cycle (at 325) (signal 9 2 320)).0
      repeated

handle_signal_arrival-waits_example :
    (contains after_repeat.ledger (signal 9 2 320) ≡ true)
    × ((w : ReceiverWindow ℤ) × (build (signal 9 2 320) after_repeat.ledger ≡ ok w))
unfolding handle_signal_arrival handle_all handle signal_eq response_eq insert is_registered
    first_arrival_at checked_add checked_add_counts sort_by canonical_less ◌-ℤ◌ ◌+ℤ◌
handle_signal_arrival-waits_example =
    handle_signal_arrival-waits (signal 9 2 320) modem channel quiet decoder cycle cycle (at 325)
      repeated cycle-IsConsistent refl refl refl

create_snapshot-permᴰ_example :
    State.create 4 (at 100) (node 2 900 ∷ node 1 0 ∷ [])
    ≡ State.create 4 (at 100) (node 1 0 ∷ node 2 900 ∷ [])
create_snapshot-permᴰ_example =
    create_snapshot-permᴰ 4 (at 100) {ns = node 2 900 ∷ node 1 0 ∷ []}
      {ms = node 1 0 ∷ node 2 900 ∷ []} (Permᴰ.swap refl refl)
