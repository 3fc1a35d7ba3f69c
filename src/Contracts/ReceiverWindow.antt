-- ===== src/Contracts/ReceiverWindow.antt =====
-- Platform/contracts/include/ns3_factory/contracts/receiver_window.hpp: a desired signal with the
-- signals that overlap it at one receiver.
pub mod Checks
pub mod Order
use ns3_bellhop_platform.Prelude.{
  ◌==◌, Bool, true, false, not, ◌||◌, List, [], ◌∷◌, ◌++◌, ltb, if◌then◌else◌, sort_by,
}
use ns3_bellhop_platform.Contracts.Errors.{
  Error, error, already_exists, failed_precondition, Result, ok, Status, ◌>>=◌, ◌>>◌, reject_if,
}
use ns3_bellhop_platform.Contracts.Time.{time_eq, time_lt}
use ns3_bellhop_platform.Contracts.Doubles.{Double}
use ns3_bellhop_platform.Contracts.State.{NodeId}
use ns3_bellhop_platform.Contracts.ReceivedSignal.{
  ReceivedSignal, transmission_id_of, receiver_of, first_arrival_at, has_p0_signal_overlap,
}

pub record ReceiverWindow (W : Type 0) : Type 0 where
  pub receiver_node_id : NodeId
  pub desired_signal : ReceivedSignal W
  pub overlapping_signals : List (ReceivedSignal W)

abbrev pub receiver_mismatch : Error
receiver_mismatch =
    error failed_precondition "ReceiverWindow receiver does not match desired signal"

abbrev pub wrong_receiver : Error
wrong_receiver = error failed_precondition "ReceiverWindow overlapping signal has wrong receiver"

abbrev pub desired_in_overlaps : Error
desired_in_overlaps =
    error already_exists "ReceiverWindow desired TransmissionId appears in overlaps"

abbrev pub no_overlap : Error
no_overlap = error failed_precondition "ReceiverWindow signal does not overlap desired signal"

abbrev pub repeated_transmission : Error
repeated_transmission = error already_exists "ReceiverWindow contains duplicate TransmissionId"

module _ {W : Type 0} where
  -- The inner loop: an earlier signal has the transmission id of this one.
  unfoldable pub seen_before : ReceivedSignal W → List (ReceivedSignal W) → Bool
  seen_before s [] = false
  seen_before s (e ∷ es) = transmission_id_of e == transmission_id_of s || seen_before s es

  unfoldable pub arrival_less : ReceivedSignal W → ReceivedSignal W → Bool
  arrival_less lhs rhs =
      if not (time_eq (first_arrival_at lhs) (first_arrival_at rhs))
      then time_lt (first_arrival_at lhs) (first_arrival_at rhs)
      else ltb (transmission_id_of lhs) (transmission_id_of rhs)

module _ {W : Type 0} ⦃d : Double W⦄ where
  -- The outer loop; `earlier` holds the signals before this one.
  unfoldable pub check_overlaps :
      NodeId → ReceivedSignal W → List (ReceivedSignal W) → List (ReceivedSignal W) → Status
  unfolding seen_before
  check_overlaps receiver desired earlier [] = ok tt
  check_overlaps receiver desired earlier (s ∷ rest) = do
    reject_if (not (receiver_of s == receiver)) wrong_receiver
    reject_if (transmission_id_of s == transmission_id_of desired) desired_in_overlaps
    reject_if (not (has_p0_signal_overlap desired s)) no_overlap
    reject_if (seen_before s earlier) repeated_transmission
    check_overlaps receiver desired (earlier ++ s ∷ []) rest

  -- `ReceiverWindow::Create`
  unfoldable pub create :
      NodeId → ReceivedSignal W → List (ReceivedSignal W) → Result (ReceiverWindow W)
  unfolding arrival_less
  create receiver desired overlapping = do
    reject_if (not (receiver == receiver_of desired)) receiver_mismatch
    check_overlaps receiver desired [] overlapping
    ok (record {
      receiver_node_id = receiver;
      desired_signal = desired;
      overlapping_signals = sort_by arrival_less overlapping;
    })
