-- ===== src/Runtime/Ledger/Order.antt =====
-- The invariant of the ledger: the signals are in canonical order, and no receiver has two signals
-- of one transmission.
use ns3_bellhop_platform.Prelude.{
  All-Unit, ◌≡◌, ◌≢◌, refl, ◌⊎◌, inl, inr, Bool-cases, false, arith, List, [], ◌∷◌, ◌++◌, All,
  Pairwise, sort_by-perm, sort_by-sorted, IsOrder, Perm, sort_by-Pairwise, Pairwise-snoc, ◌↔◌,
}
use ns3_bellhop_platform.Contracts.Errors.{ok, err}
use ns3_bellhop_platform.Contracts.ReceivedSignal.{ReceivedSignal, transmission_id_of, receiver_of}
use ns3_bellhop_platform.Runtime.Ledger.{
  InFlightSignalLedger, canonical_less, is_registered, insert, already_in_flight,
}

module _ {W : Type 0} where
  -- The two are not the same transmission at the same receiver.
  abbrev pub IsApart : ReceivedSignal W → ReceivedSignal W → Type 0
  IsApart a b = (receiver_of a ≢ receiver_of b) ⊎ (transmission_id_of a ≢ transmission_id_of b)

  pub record IsLedger (ledger : InFlightSignalLedger W) : Type 0 where
    pub ordered : Pairwise (λ a b. canonical_less b a ≡ false) ledger
    pub apart : Pairwise IsApart ledger

  pub canonical_less-IsOrder : IsOrder canonical_less (λ (s : ReceivedSignal W). Unit {0})
  unfolding canonical_less
  canonical_less-IsOrder = record {
    asym = λ x y _ _ h. ground arith;
    negtrans = λ x y z _ _ _ h k. ground arith;
  }

  pub is_registered_iff :
      (s : ReceivedSignal W) (es : List (ReceivedSignal W))
      → (is_registered s es ≡ false) ↔ All (λ e. IsApart e s) es
  unfolding is_registered
  is_registered_iff s [] = (λ h. tt, λ h. refl)
  is_registered_iff s (e ∷ es) = ground (arith, is_registered_iff s es)

  pub IsApart-sym : (a b : ReceivedSignal W) → IsApart a b → IsApart b a
  IsApart-sym a b h = ground arith

  -- On any ledger `Insert` succeeds exactly when no signal in it has both the receiver and the
  -- transmission of the new one.
  pub insert_iff :
      (ledger : InFlightSignalLedger W) (s : ReceivedSignal W)
      → ((insert ledger s).1 ≡ ok tt) ↔ All (λ e. IsApart e s) ledger
  unfolding insert
  insert_iff ledger s = ground (arith, is_registered_iff s ledger)

  -- `Insert` keeps the invariant. A success adds the signal to those of the ledger, each kept as
  -- often; a failure changes nothing.
  pub insert-IsLedger :
      (ledger : InFlightSignalLedger W) (s : ReceivedSignal W)
      → IsLedger ledger
      → IsLedger (insert ledger s).0
        × (((insert ledger s).1 ≡ ok tt) × Perm (insert ledger s).0 (ledger ++ s ∷ [])
            ⊎ ((insert ledger s).1 ≡ err already_in_flight) × ((insert ledger s).0 ≡ ledger))
  unfolding insert
  insert-IsLedger ledger s v = elim (Bool-cases (is_registered s ledger)) [
    | inl e ↦ rw (e, insert) (v, inr (refl, refl))
    | inr e ↦
        rw (e, insert)
          (
            record {
              ordered =
                  sort_by-sorted canonical_less canonical_less-IsOrder (ledger ++ s ∷ [])
                    (All-Unit (ledger ++ s ∷ []));
              apart =
                  sort_by-Pairwise canonical_less IsApart IsApart-sym (ledger ++ s ∷ [])
                    (Pairwise-snoc IsApart ledger s v.apart ((is_registered_iff s ledger).0 e));
            },
            inl (refl, sort_by-perm canonical_less (ledger ++ s ∷ [])),
          )
  ]
