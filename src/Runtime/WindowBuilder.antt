-- ===== src/Runtime/WindowBuilder.antt =====
-- Platform/runtime/internal/receiver_window_builder.hpp: the window of a signal in the ledger.
pub mod Total
pub mod Contents
use ns3_bellhop_platform.Prelude.{◌==◌, not, List, [], ◌∷◌, if◌then◌else◌}
use ns3_bellhop_platform.Contracts.Errors.{Error, error, not_found, Result, ◌>>=◌, ◌>>◌, reject_if}
use ns3_bellhop_platform.Contracts.Doubles.{Double}
use ns3_bellhop_platform.Contracts.ReceivedSignal.{
  ReceivedSignal, transmission_id_of, receiver_of, has_p0_signal_overlap,
}
use ns3_bellhop_platform.Contracts.ReceiverWindow.{ReceiverWindow}
use ns3_bellhop_platform.Contracts.ReceiverWindow
use ns3_bellhop_platform.Runtime.Ledger.{InFlightSignalLedger, contains, signals_for_receiver}

abbrev pub not_in_ledger : Error
not_in_ledger = error not_found "Desired signal is not present in the in-flight ledger"

module _ {W : Type 0} ⦃d : Double W⦄ where
  -- The loop over the candidates.
  unfoldable pub select_overlapping :
      ReceivedSignal W → List (ReceivedSignal W) → List (ReceivedSignal W)
  select_overlapping desired [] = []
  select_overlapping desired (c ∷ cs) =
      let rest = select_overlapping desired cs in
      if transmission_id_of c == transmission_id_of desired
      then rest
      else if has_p0_signal_overlap desired c
      then c ∷ rest
      else rest

  unfoldable pub build : ReceivedSignal W → InFlightSignalLedger W → Result (ReceiverWindow W)
  build desired ledger = do
    reject_if (not (contains ledger desired)) not_in_ledger
    let overlapping = select_overlapping desired (signals_for_receiver ledger (receiver_of desired))
    ReceiverWindow.create (receiver_of desired) desired overlapping
