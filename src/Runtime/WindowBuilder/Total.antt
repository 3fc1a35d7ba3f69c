-- ===== src/Runtime/WindowBuilder/Total.antt =====
-- `ReceiverWindowBuilder::Build` on a ledger that keeps its invariant.
use ns3_bellhop_platform.Prelude.{◌≡◌, refl, true, arith, List, [], ◌∷◌, All, Pairwise}
use ns3_bellhop_platform.Contracts.Errors.{ok}
use ns3_bellhop_platform.Contracts.Doubles.{Double}
use ns3_bellhop_platform.Contracts.State.{NodeId}
use ns3_bellhop_platform.Contracts.ReceivedSignal.{ReceivedSignal, receiver_of}
use ns3_bellhop_platform.Contracts.ReceiverWindow.{ReceiverWindow}
use ns3_bellhop_platform.Contracts.ReceiverWindow.Checks.{
  Distinct, IsOverlapping, create_window_iff,
}
use ns3_bellhop_platform.Runtime.Ledger.{InFlightSignalLedger, contains, signals_for_receiver}
use ns3_bellhop_platform.Runtime.Ledger.Order.{IsLedger}
use ns3_bellhop_platform.Runtime.Ledger.Lookup.{apart_at_one, signals_for_receiver-Pairwise}
use ns3_bellhop_platform.Runtime.WindowBuilder.{select_overlapping, build}

module _ {W : Type 0} ⦃d : Double W⦄ where
  select-All :
      (P : ReceivedSignal W → Type 0) (desired : ReceivedSignal W) (cs : List (ReceivedSignal W))
      → All P cs
      → All P (select_overlapping desired cs)
  unfolding select_overlapping
  select-All P desired [] h = tt
  select-All P desired (c ∷ cs) h = let rest = select-All P desired cs h.1 in ground arith

  select-Pairwise :
      (R : ReceivedSignal W → ReceivedSignal W → Type 0) (desired : ReceivedSignal W)
      (cs : List (ReceivedSignal W))
      → Pairwise R cs
      → Pairwise R (select_overlapping desired cs)
  unfolding select_overlapping
  select-Pairwise R desired [] h = tt
  select-Pairwise R desired (c ∷ cs) h =
      let rest = select-Pairwise R desired cs h.1 in
      let after = select-All (R c) desired cs h.0 in ground arith

  select-IsOverlapping :
      (desired : ReceivedSignal W) (receiver : NodeId) (cs : List (ReceivedSignal W))
      → All (λ s. receiver_of s ≡ receiver) cs
      → All (IsOverlapping receiver desired) (select_overlapping desired cs)
  unfolding select_overlapping
  select-IsOverlapping desired receiver [] h = tt
  select-IsOverlapping desired receiver (c ∷ cs) h =
      let rest = select-IsOverlapping desired receiver cs h.1 in ground arith

  -- For a signal that a ledger with its invariant contains, `Build` returns a window: none of the
  -- checks of `ReceiverWindow::Create` fails.
  pub build_total :
      (desired : ReceivedSignal W) (ledger : InFlightSignalLedger W)
      → IsLedger ledger
      → contains ledger desired ≡ true
      → (w : ReceiverWindow W) × (build desired ledger ≡ ok w)
  unfolding build
  build_total desired ledger v h =
      let receiver : NodeId = receiver_of desired in
      let candidates = signals_for_receiver ledger receiver in
      let (same, apart) = signals_for_receiver-Pairwise ledger receiver v in
      let chosen = select_overlapping desired candidates in
      let (w, e) = (create_window_iff receiver desired chosen).1 (
        refl,
        select-IsOverlapping desired receiver candidates same,
        select-Pairwise Distinct desired candidates (apart_at_one receiver candidates same apart),
      ) in
      (w, rw h e)
