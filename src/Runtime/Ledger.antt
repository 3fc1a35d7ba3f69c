-- ===== src/Runtime/Ledger.antt =====
-- Platform/runtime/internal/in_flight_signal_ledger.hpp: the signals in flight, ordered by receiver,
-- arrival and transmission. A ledger is its vector of signals.
pub mod Order
pub mod Lookup
pub mod Arrivals
pub mod Contains
use ns3_bellhop_platform.Prelude.{
  ℕ, ◌==◌, Bool, true, false, not, ◌||◌, ◌&&◌, List, [], ◌∷◌, ◌++◌, ltb, if◌then◌else◌, sort_by,
  lower_bound, until,
}
use ns3_bellhop_platform.Contracts.Errors.{
  Error, error, already_exists, failed_precondition, ok, err, Status, Result, ◌>>=◌, ◌>>◌,
  reject_if,
}
use ns3_bellhop_platform.Contracts.Time.{SimTime, time_eq, time_lt}
use ns3_bellhop_platform.Contracts.Doubles.{Double}
use ns3_bellhop_platform.Contracts.State.{NodeId}
use ns3_bellhop_platform.Contracts.ReceivedSignal.{
  ReceivedSignal, transmission_id_of, receiver_of, first_arrival_at, last_effect_end_at, signal_eq,
}

abbrev pub InFlightSignalLedger : Type 0 → Type 0
InFlightSignalLedger W = List (ReceivedSignal W)

abbrev pub already_in_flight : Error
already_in_flight =
    error already_exists "InFlightSignalLedger already contains this receiver/TransmissionId"

abbrev pub outlives_cycle : Error
outlives_cycle = error failed_precondition "In-flight signal extends beyond cycle close"

module _ {W : Type 0} where
  unfoldable pub canonical_less : ReceivedSignal W → ReceivedSignal W → Bool
  canonical_less lhs rhs =
      if not (receiver_of lhs == receiver_of rhs)
      then ltb (receiver_of lhs) (receiver_of rhs)
      else if not (time_eq (first_arrival_at lhs) (first_arrival_at rhs))
      then time_lt (first_arrival_at lhs) (first_arrival_at rhs)
      else ltb (transmission_id_of lhs) (transmission_id_of rhs)

  -- The loop of `Insert`: a signal of the same receiver and transmission is there.
  unfoldable pub is_registered : ReceivedSignal W → List (ReceivedSignal W) → Bool
  is_registered s [] = false
  is_registered s (e ∷ es) =
      (receiver_of e == receiver_of s && transmission_id_of e == transmission_id_of s)
      || is_registered s es

  unfoldable pub insert :
      InFlightSignalLedger W → ReceivedSignal W → InFlightSignalLedger W × Status
  unfolding canonical_less is_registered
  insert ledger signal =
      if is_registered signal ledger
      then (ledger, err already_in_flight)
      else (sort_by canonical_less (ledger ++ signal ∷ []), ok tt)

  unfoldable pub signals_for_receiver : InFlightSignalLedger W → NodeId → List (ReceivedSignal W)
  signals_for_receiver ledger id =
      until (λ s. ltb id (receiver_of s)) (lower_bound (λ s. ltb (receiver_of s) id) ledger)

  unfoldable pub validate_ready_for_cycle_close : InFlightSignalLedger W → SimTime → Status
  validate_ready_for_cycle_close [] close_time = ok tt
  validate_ready_for_cycle_close (s ∷ ss) close_time = do
    reject_if (time_lt close_time (last_effect_end_at s)) outlives_cycle
    validate_ready_for_cycle_close ss close_time

  abbrev pub clear_for_cycle_close : InFlightSignalLedger W → InFlightSignalLedger W
  clear_for_cycle_close ledger = []

module _ {W : Type 0} ⦃d : Double W⦄ where
  -- The loop of `Contains`.
  unfoldable pub is_first_match : ReceivedSignal W → List (ReceivedSignal W) → Bool
  is_first_match s [] = false
  is_first_match s (e ∷ es) =
      if transmission_id_of e == transmission_id_of s then signal_eq e s else is_first_match s es

  unfoldable pub contains : InFlightSignalLedger W → ReceivedSignal W → Bool
  unfolding is_first_match
  contains ledger s = is_first_match s (signals_for_receiver ledger (receiver_of s))
