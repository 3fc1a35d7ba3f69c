-- ===== src/Runtime/Ledger/Lookup.antt =====
-- `SignalsForReceiver` and `Contains` on a ledger in order.
use ns3_bellhop_platform.Prelude.{
  ◌≤◌, ◌==◌, ◌≡◌, ◌≢◌, false, arith, List, [], ◌∷◌, All, All-map, Pairwise, keep, equal_range-keep,
  keep-passes, keep-Pairwise,
}
use ns3_bellhop_platform.Contracts.State.{NodeId}
use ns3_bellhop_platform.Contracts.ReceivedSignal.{ReceivedSignal, transmission_id_of, receiver_of}
use ns3_bellhop_platform.Runtime.Ledger.{InFlightSignalLedger, canonical_less, signals_for_receiver}
use ns3_bellhop_platform.Runtime.Ledger.Order.{IsLedger, IsApart}

module _ {W : Type 0} where
  receivers_ascend :
      (ss : List (ReceivedSignal W))
      → Pairwise (λ a b. canonical_less b a ≡ false) ss
      → Pairwise (λ a b. receiver_of a ≤ receiver_of b) ss
  unfolding canonical_less
  receivers_ascend [] r = tt
  receivers_ascend (s ∷ ss) r = (All-map ss (λ t h. ground arith) r.0, receivers_ascend ss r.1)

  -- On a ledger in order the range of `SignalsForReceiver` holds exactly the signals of that
  -- receiver, in their order.
  pub signals_for_receiver-keep :
      (ledger : InFlightSignalLedger W) (id : NodeId)
      → IsLedger ledger
      → signals_for_receiver ledger id ≡ keep (λ s. receiver_of s == id) ledger
  unfolding signals_for_receiver
  signals_for_receiver-keep ledger id v =
      equal_range-keep receiver_of id ledger (receivers_ascend ledger v.ordered)

  pub signals_for_receiver-Pairwise :
      (ledger : InFlightSignalLedger W) (id : NodeId)
      → IsLedger ledger
      → All (λ s. receiver_of s ≡ id) (signals_for_receiver ledger id)
        × Pairwise IsApart (signals_for_receiver ledger id)
  signals_for_receiver-Pairwise ledger id v = rw (signals_for_receiver-keep ledger id v) (
    All-map _ (λ s h. ground arith) (keep-passes (λ s. receiver_of s == id) ledger),
    keep-Pairwise IsApart (λ s. receiver_of s == id) ledger v.apart,
  )

  -- At one receiver, signals apart from each other are of different transmissions.
  pub apart_at_one :
      (receiver : NodeId) (ss : List (ReceivedSignal W))
      → All (λ s. receiver_of s ≡ receiver) ss
      → Pairwise IsApart ss
      → Pairwise (λ a b. transmission_id_of a ≢ transmission_id_of b) ss
  apart_at_one receiver [] h r = tt
  apart_at_one receiver (s ∷ ss) h r = (others ss h.1 r.0, apart_at_one receiver ss h.1 r.1)
    where
      others :
          (ts : List (ReceivedSignal W))
          → All (λ t. receiver_of t ≡ receiver) ts
          → All (IsApart s) ts
          → All (λ t. transmission_id_of s ≢ transmission_id_of t) ts
      others [] q a = tt
      others (t ∷ ts) q a = (ground arith, others ts q.1 a.1)
