-- ===== src/Contracts/ReceiverWindow/Order.antt =====
-- The order in which `ReceiverWindow::Create` is given the overlapping signals.

use ns3_bellhop_platform.Prelude.{
  All-Unit, ◌≡◌, sym, ap, arith, List, [], Pairwise-map, sort_by, Permᴰ, All-permᴰ, Pairwise-permᴰ,
  IsComparable, sort_by-permᴰ, not, ◌==◌,
}
use ns3_bellhop_platform.Contracts.Errors.{ok, reject_if-eq-ok, >>=-eq-ok, ok-injective}
use ns3_bellhop_platform.Contracts.Doubles.{Double}
use ns3_bellhop_platform.Contracts.State.{NodeId}
use ns3_bellhop_platform.Contracts.ReceivedSignal.{ReceivedSignal, receiver_of}
use ns3_bellhop_platform.Contracts.ReceiverWindow.{
  ReceiverWindow, arrival_less, check_overlaps, create, receiver_mismatch,
}
use ns3_bellhop_platform.Contracts.ReceiverWindow.Checks.{
  Distinct, arrival_less-IsOrder, create_window_iff,
}

module _ {W : Type 0} where
  Distinct-IsComparable : (a b : ReceivedSignal W) → Distinct a b → IsComparable arrival_less a b
  unfolding arrival_less
  Distinct-IsComparable a b h = ground arith

module _ {W : Type 0} ⦃d : Double W⦄ where
  abbrev window_with : NodeId → ReceivedSignal W → List (ReceivedSignal W) → ReceiverWindow W
  window_with receiver desired signals = record {
    receiver_node_id = receiver;
    desired_signal = desired;
    overlapping_signals = signals;
  }

  abbrev window_of : NodeId → ReceivedSignal W → List (ReceivedSignal W) → ReceiverWindow W
  window_of receiver desired ss = window_with receiver desired (sort_by arrival_less ss)

  create-window_of :
      (receiver : NodeId) (desired : ReceivedSignal W) (ss : List (ReceivedSignal W))
      (w : ReceiverWindow W)
      → create receiver desired ss ≡ ok w
      → window_of receiver desired ss ≡ w
  unfolding create
  create-window_of receiver desired ss w h =
      let (same, h₁) =
        reject_if-eq-ok (not (receiver == receiver_of desired)) receiver_mismatch h in
      let (u, checked, h₂) = >>=-eq-ok (check_overlaps receiver desired [] ss) _ h₁ in
      ok-injective h₂

  -- A window that `Create` makes of some overlapping signals it makes of them in every other order.
  pub create-permᴰ :
      (receiver : NodeId) (desired : ReceivedSignal W) {ss ts : List (ReceivedSignal W)}
      (w : ReceiverWindow W)
      → Permᴰ ss ts
      → create receiver desired ss ≡ ok w
      → create receiver desired ts ≡ ok w
  create-permᴰ receiver desired {ss = ss} {ts = ts} w p h =
      let (same, all, distinct) = (create_window_iff receiver desired ss).0 (w, h) in
      let (w', h') =
        (create_window_iff receiver desired ts).1
          (same, All-permᴰ _ p all, Pairwise-permᴰ Distinct (λ a b g e. g (sym e)) p distinct) in
      let sorted =
        sort_by-permᴰ arrival_less arrival_less-IsOrder p (All-Unit ss)
          (Pairwise-map ss Distinct-IsComparable distinct) in
      cc (
        create-window_of receiver desired ss w h,
        create-window_of receiver desired ts w' h',
        ap (λ l. window_with receiver desired l) sorted,
        h',
      )
