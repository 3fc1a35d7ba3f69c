-- ===== src/Runtime/Ledger/Contains.antt =====
-- `Contains`, and what it answers after `Insert`.

use ns3_bellhop_platform.Prelude.{
  ◌==◌, ◌||◌, Bool, Bool-cases, ◌≡◌, ◌≢◌, refl, sym, ap, ◌∙◌, inl, inr, true, false, arith, List,
  [], ◌∷◌, ◌++◌, All-map, Pairwise, any, any-keep, any-false, any-snoc, any-permᴰ, sort_by-arranges,
  sort_by,
}
use ns3_bellhop_platform.Contracts.Errors.{ok}
use ns3_bellhop_platform.Contracts.Doubles.{Double}
use ns3_bellhop_platform.Contracts.Channel.{response_eq}
use ns3_bellhop_platform.Contracts.ReceivedSignal.{
  ReceivedSignal, transmission_id_of, receiver_of, signal_eq,
}
use ns3_bellhop_platform.Runtime.Ledger.{
  InFlightSignalLedger, canonical_less, is_registered, insert, is_first_match, contains,
  signals_for_receiver,
}
use ns3_bellhop_platform.Runtime.Ledger.Order.{IsLedger, insert-IsLedger}
use ns3_bellhop_platform.Runtime.Ledger.Lookup.{
  apart_at_one, signals_for_receiver-keep, signals_for_receiver-Pairwise,
}

or_false : (b : Bool) → b ≡ (b || false)
or_false true = refl
or_false false = refl

module _ {W : Type 0} where
  insert-ok :
      (ledger : InFlightSignalLedger W) (s : ReceivedSignal W)
      → (insert ledger s).1 ≡ ok tt
      → (insert ledger s).0 ≡ sort_by canonical_less (ledger ++ s ∷ [])
  unfolding insert
  insert-ok ledger s h = elim (Bool-cases (is_registered s ledger)) [
    | inl e ↦ absurd (ground arith)
    | inr e ↦ rw (insert, e) refl
  ]

module _ {W : Type 0} ⦃d : Double W⦄ where
  -- Signals of which `==` holds are of one transmission and one receiver.
  signal_eq-ids :
      (a b : ReceivedSignal W)
      → signal_eq a b ≡ true
      → (transmission_id_of a ≡ transmission_id_of b) × (receiver_of a ≡ receiver_of b)
  unfolding signal_eq response_eq
  signal_eq-ids a b h = ground arith

  signal_eq-other :
      (a b : ReceivedSignal W) → transmission_id_of a ≢ transmission_id_of b → signal_eq a b ≡ false
  signal_eq-other a b h = elim (Bool-cases (signal_eq a b)) [
    | inl e ↦ absurd (h (signal_eq-ids a b e).0)
    | inr e ↦ e
  ]

  -- Of signals of different transmissions at one receiver the first match is the only one.
  is_first_match-any :
      (s : ReceivedSignal W) (es : List (ReceivedSignal W))
      → Pairwise (λ a b. transmission_id_of a ≢ transmission_id_of b) es
      → is_first_match s es ≡ any (λ e. signal_eq e s) es
  unfolding is_first_match any
  is_first_match-any s [] r = refl
  is_first_match-any s (e ∷ es) r =
      elim (Bool-cases (transmission_id_of e == transmission_id_of s)) [
        | inl h ↦
            let same : transmission_id_of e ≡ transmission_id_of s = ground arith in
            let none =
              any-false (λ e. signal_eq e s) es
                (All-map es (λ x ne. signal_eq-other x s (λ g. ne (same ∙ sym g))) r.0) in
            rw (h, none) (or_false (signal_eq e s))
        | inr h ↦
            rw (h, signal_eq-other e s (λ g. absurd (ground arith))) (is_first_match-any s es r.1)
      ]

  -- On a ledger in order `Contains` is true exactly when `==` holds of an entry and the signal.
  contains-any :
      (ledger : InFlightSignalLedger W) (s : ReceivedSignal W)
      → IsLedger ledger
      → contains ledger s ≡ any (λ e. signal_eq e s) ledger
  unfolding contains
  contains-any ledger s v =
      let (at, apart) = signals_for_receiver-Pairwise ledger (receiver_of s) v in
      is_first_match-any s (signals_for_receiver ledger (receiver_of s))
        (apart_at_one (receiver_of s) _ at apart)
      ∙ ap (any (λ e. signal_eq e s)) (signals_for_receiver-keep ledger (receiver_of s) v)
      ∙ any-keep (λ e. signal_eq e s) (λ e. receiver_of e == receiver_of s) ledger
          (λ e h. let (_, same) = signal_eq-ids e s h in ground arith)

  -- After a successful `Insert` into a ledger in order `Contains` is true of what it was true of
  -- before, and of the signals of which `==` holds with the one inserted.
  pub contains-insert :
      (ledger : InFlightSignalLedger W) (s t : ReceivedSignal W)
      → IsLedger ledger
      → (insert ledger s).1 ≡ ok tt
      → contains (insert ledger s).0 t ≡ (contains ledger t || signal_eq s t)
  contains-insert ledger s t v h =
      let (w, _) = insert-IsLedger ledger s v in
      contains-any (insert ledger s).0 t w
      ∙ ap (any (λ e. signal_eq e t)) (insert-ok ledger s h)
      ∙ any-permᴰ (λ e. signal_eq e t) (sort_by-arranges canonical_less (ledger ++ s ∷ []))
      ∙ any-snoc (λ e. signal_eq e t) ledger s
      ∙ ap (◌|| signal_eq s t) (sym (contains-any ledger t v))
