-- ===== src/Runtime/WindowBuilder/Contents.antt =====
-- Which signals stand in a window that `ReceiverWindowBuilder::Build` returns.
use ns3_bellhop_platform.Prelude.{
  ◌≡◌, refl, ap, subst, ◌∙◌, ◌≢◌, ◌↔◌, true, Bool, not, ◌&&◌, ◌==◌, arith, List, [], ◌∷◌, All,
  Pairwise, Permᴰ, keep, keep-keep, Among, All-Among, Among-keep_iff, Among-permᴰ,
}
use ns3_bellhop_platform.Contracts.Errors.{ok, reject_if-eq-ok}
use mathlib.Core.List.Permᴰ
use ns3_bellhop_platform.Contracts.Doubles.{Double, IsIeee}
use ns3_bellhop_platform.Contracts.Time.{SimTime}
use ns3_bellhop_platform.Contracts.ReceivedSignal.{
  ReceivedSignal, transmission_id_of, receiver_of, has_p0_signal_overlap, lower_frequency_hz,
  upper_frequency_hz,
}
use ns3_bellhop_platform.Contracts.ReceivedSignal.Overlap.{
  Covers, HasFiniteBand, has_temporal_overlap_iff, has_spectral_overlap_iff,
}
use ns3_bellhop_platform.Contracts.ReceiverWindow.{ReceiverWindow}
use ns3_bellhop_platform.Contracts.ReceiverWindow.Checks.{create_window-ok, ArrivesBefore}
use ns3_bellhop_platform.Runtime.Ledger.{InFlightSignalLedger, contains, signals_for_receiver}
use ns3_bellhop_platform.Runtime.Ledger.Order.{IsLedger}
use ns3_bellhop_platform.Runtime.Ledger.Lookup.{signals_for_receiver-keep}
use ns3_bellhop_platform.Runtime.WindowBuilder.{select_overlapping, build, not_in_ledger}

module _ {W : Type 0} ⦃d : Double W⦄ where
  -- A signal of another transmission that overlaps the desired one at its receiver.
  abbrev interferes : ReceivedSignal W → ReceivedSignal W → Bool
  interferes desired c =
      receiver_of c == receiver_of desired
      && (not (transmission_id_of c == transmission_id_of desired)
          && has_p0_signal_overlap desired c)

  select_overlapping-keep :
      (desired : ReceivedSignal W) (cs : List (ReceivedSignal W))
      → select_overlapping desired cs
        ≡ keep
            (λ c.
              not (transmission_id_of c == transmission_id_of desired)
              && has_p0_signal_overlap desired c)
            cs
  unfolding select_overlapping keep
  select_overlapping-keep desired [] = refl
  select_overlapping-keep desired (c ∷ cs) =
      let rest = select_overlapping-keep desired cs in ground arith

  select_overlapping-ledger :
      (desired : ReceivedSignal W) (ledger : InFlightSignalLedger W)
      → IsLedger ledger
      → select_overlapping desired (signals_for_receiver ledger (receiver_of desired))
        ≡ keep (interferes desired) ledger
  select_overlapping-ledger desired ledger v =
      let passes : ReceivedSignal W → Bool = λ c.
        not (transmission_id_of c == transmission_id_of desired)
        && has_p0_signal_overlap desired c in
      select_overlapping-keep desired (signals_for_receiver ledger (receiver_of desired))
      ∙ ap (keep passes) (signals_for_receiver-keep ledger (receiver_of desired) v)
      ∙ keep-keep passes (λ c. receiver_of c == receiver_of desired) ledger

  -- Each band begins below the end of each.
  abbrev pub BandsMeet : ReceivedSignal W → ReceivedSignal W → Type 0
  BandsMeet a b =
      (d.lt (lower_frequency_hz a) (upper_frequency_hz a) ≡ true)
      × (d.lt (lower_frequency_hz a) (upper_frequency_hz b) ≡ true)
      × (d.lt (lower_frequency_hz b) (upper_frequency_hz a) ≡ true)
      × (d.lt (lower_frequency_hz b) (upper_frequency_hz b) ≡ true)

  -- The signal is of another transmission and at the same receiver; at some time both are there, and
  -- their bands meet.
  pub record Interferes (desired c : ReceivedSignal W) : Type 0 where
    pub at_receiver : receiver_of c ≡ receiver_of desired
    pub other : transmission_id_of c ≢ transmission_id_of desired
    pub at_once : (t : SimTime) × Covers desired t × Covers c t
    pub in_band : BandsMeet desired c

  module _ (laws : IsIeee W) where
    interferes_iff :
        (desired c : ReceivedSignal W)
        → HasFiniteBand desired
        → HasFiniteBand c
        → (interferes desired c ≡ true) ↔ Interferes desired c
    unfolding has_p0_signal_overlap
    interferes_iff desired c fd fc =
        let (in_time, overlap_in_time) = has_temporal_overlap_iff desired c in
        let (in_bands, overlap_in_bands) = has_spectral_overlap_iff laws desired c fd fc in
        (
          λ h. record {
            at_receiver = ground arith;
            other = ground arith;
            at_once = in_time (ground arith);
            in_band = in_bands (ground arith);
          },
          λ i.
              let at_receiver = i.at_receiver in
              let other = i.other in
              let a = overlap_in_time i.at_once in
              let b = overlap_in_bands i.in_band in ground arith,
        )

    -- With IEEE comparisons and finite bands, a window that `Build` returns on a ledger with its
    -- invariant is at the receiver of the desired signal and around that signal. Its overlapping
    -- signals are exactly those of the ledger that are at that receiver and of another transmission,
    -- that share a time of their half-open intervals with the desired signal, and whose bands begin
    -- below each other's ends. They stand strictly in the order of arrival, then transmission, so that
    -- each stands there once.
    pub build_contents :
        (desired : ReceivedSignal W) (ledger : InFlightSignalLedger W) (w : ReceiverWindow W)
        → IsLedger ledger
        → HasFiniteBand desired
        → All HasFiniteBand ledger
        → build desired ledger ≡ ok w
        → (w.receiver_node_id ≡ receiver_of desired)
          × (w.desired_signal ≡ desired)
          × ((c : ReceivedSignal W)
              → Among c w.overlapping_signals ↔ (Among c ledger × Interferes desired c))
          × Pairwise ArrivesBefore w.overlapping_signals
    unfolding build
    build_contents desired ledger w v fd fs h =
        let (_, k) = reject_if-eq-ok (not (contains ledger desired)) not_in_ledger h in
        let chosen =
          select_overlapping desired (signals_for_receiver ledger (receiver_of desired)) in
        let (receiver, is_desired, arranged, ordered) =
          create_window-ok (receiver_of desired) desired chosen w k in
        let all = select_overlapping-ledger desired ledger v in
        let arranged' = subst (Permᴰ w.overlapping_signals) all arranged in
        (
          receiver,
          is_desired,
          λ c. (
            λ m.
                let (n, e) =
                  (Among-keep_iff (interferes desired) ledger).0 (Among-permᴰ arranged' m) in
                (n, (interferes_iff desired c fd (All-Among HasFiniteBand n fs)).0 e),
            λ (n, i).
                let e = (interferes_iff desired c fd (All-Among HasFiniteBand n fs)).1 i in
                Among-permᴰ (Permᴰ.symm arranged')
                  ((Among-keep_iff (interferes desired) ledger).1 (n, e)),
          ),
          ordered,
        )
