-- ===== src/Runtime/Ledger/Arrivals.antt =====
-- The order in which signals arrive at the ledger.
use mathlib.Core.List.Permᴰ
use ns3_bellhop_platform.Prelude.{
  All-Unit, ◌≡◌, refl, sym, ap, ap₂, ◌∙◌, inl, inr, Bool-cases, true, false, arith, List, [], ◌∷◌,
  ◌++◌, Pairwise, Pairwise-map, IsComparable, Permᴰ, All-permᴰ, Pairwise-permᴰ, sort_by,
  sort_by-snoc_comm, sort_by_unique, sort_by_id, sort_by-arranges, All-snoc, All-unsnoc,
  Pairwise-snoc,
}
use ns3_bellhop_platform.Contracts.ReceivedSignal.{ReceivedSignal}
use ns3_bellhop_platform.Runtime.Ledger.{
  InFlightSignalLedger, canonical_less, is_registered, insert,
}
use ns3_bellhop_platform.Runtime.Ledger.Order.{
  IsApart, IsApart-sym, IsLedger, canonical_less-IsOrder, is_registered_iff, insert-IsLedger,
}

module _ {W : Type 0} where
  IsApart-IsComparable : (a b : ReceivedSignal W) → IsApart a b → IsComparable canonical_less a b
  unfolding canonical_less
  IsApart-IsComparable a b h = ground arith

  -- The signals of a list, inserted one after the other.
  abbrev pub insert_all : InFlightSignalLedger W → List (ReceivedSignal W) → InFlightSignalLedger W
  insert_all ledger [] = ledger
  insert_all ledger (s ∷ ss) = insert_all (insert ledger s).0 ss

  -- A signal apart from one added is as registered as before.
  is_registered-snoc :
      (ledger : InFlightSignalLedger W) (a b : ReceivedSignal W)
      → IsApart a b
      → is_registered b (sort_by canonical_less (ledger ++ a ∷ [])) ≡ is_registered b ledger
  is_registered-snoc ledger a b h =
      let sorted = sort_by canonical_less (ledger ++ a ∷ []) in
      let same = sort_by-arranges canonical_less (ledger ++ a ∷ []) in
      elim (Bool-cases (is_registered b ledger)) [
        | inr e ↦
            (is_registered_iff b sorted).1 (
              All-permᴰ (λ s. IsApart s b) (Permᴰ.symm same)
                (All-snoc (λ s. IsApart s b) ledger a ((is_registered_iff b ledger).0 e) h))
            ∙ sym e
        | inl e ↦ elim (Bool-cases (is_registered b sorted)) [
          | inl f ↦ f ∙ sym e
          | inr f ↦ cc (
              (is_registered_iff b ledger).1
                (All-unsnoc (λ s. IsApart s b) ledger a
                  (All-permᴰ (λ s. IsApart s b) same ((is_registered_iff b sorted).0 f))).0)
        ]
      ]

  is_registered-insert :
      (ledger : InFlightSignalLedger W) (a b : ReceivedSignal W)
      → IsApart a b
      → is_registered b (insert ledger a).0 ≡ is_registered b ledger
  unfolding insert
  is_registered-insert ledger a b h = elim (Bool-cases (is_registered a ledger)) [
    | inl e ↦ rw (insert, e) refl
    | inr e ↦ rw (insert, e) (is_registered-snoc ledger a b h)
  ]

  insert-known :
      (ledger : InFlightSignalLedger W) (s : ReceivedSignal W)
      → is_registered s ledger ≡ true
      → (insert ledger s).0 ≡ ledger
  unfolding insert
  insert-known ledger s e = rw (insert, e) refl

  insert-new :
      (ledger : InFlightSignalLedger W) (s : ReceivedSignal W)
      → is_registered s ledger ≡ false
      → (insert ledger s).0 ≡ sort_by canonical_less (ledger ++ s ∷ [])
  unfolding insert
  insert-new ledger s e = rw (insert, e) refl

  insert_known_comm :
      (ledger : InFlightSignalLedger W) (a b : ReceivedSignal W)
      → IsApart a b
      → is_registered a ledger ≡ true
      → (insert (insert ledger a).0 b).0 ≡ (insert (insert ledger b).0 a).0
  insert_known_comm ledger a b h e =
      let still = is_registered-insert ledger b a (IsApart-sym a b h) ∙ e in
      cc (insert-known ledger a e, insert-known (insert ledger b).0 a still)

  insert_new_comm :
      (ledger : InFlightSignalLedger W) (a b : ReceivedSignal W)
      → IsLedger ledger
      → IsApart a b
      → is_registered a ledger ≡ false
      → is_registered b ledger ≡ false
      → (insert (insert ledger a).0 b).0 ≡ (insert (insert ledger b).0 a).0
  insert_new_comm ledger a b v h e f =
      let after_a = is_registered-insert ledger a b h ∙ f in
      let after_b = is_registered-insert ledger b a (IsApart-sym a b h) ∙ e in
      let one = Pairwise-snoc IsApart ledger a v.apart ((is_registered_iff a ledger).0 e) in
      let two =
        Pairwise-snoc IsApart (ledger ++ a ∷ []) b one
          (All-snoc (λ s. IsApart s b) ledger a ((is_registered_iff b ledger).0 f) h) in
      let all = (ledger ++ a ∷ []) ++ b ∷ [] in
      cc (
        insert-new ledger a e,
        insert-new ledger b f,
        insert-new (insert ledger a).0 b after_a,
        insert-new (insert ledger b).0 a after_b,
        sort_by-snoc_comm canonical_less canonical_less-IsOrder ledger a b (All-Unit all)
            (Pairwise-map all IsApart-IsComparable two),
      )

  -- `Insert` of two signals apart from each other, in the two orders.
  insert_comm :
      (ledger : InFlightSignalLedger W) (a b : ReceivedSignal W)
      → IsLedger ledger
      → IsApart a b
      → (insert (insert ledger a).0 b).0 ≡ (insert (insert ledger b).0 a).0
  insert_comm ledger a b v h = elim (Bool-cases (is_registered a ledger)) [
    | inl e ↦ insert_known_comm ledger a b h e
    | inr e ↦ elim (Bool-cases (is_registered b ledger)) [
      | inl f ↦ sym (insert_known_comm ledger b a (IsApart-sym a b h) f)
      | inr f ↦ insert_new_comm ledger a b v h e f
    ]
  ]

  -- Signals apart from each other leave the same ledger in whatever order they are inserted, those
  -- that an entry of the ledger refuses among them.
  pub insert_all-permᴰ :
      (ledger : InFlightSignalLedger W) {ss ts : List (ReceivedSignal W)}
      → IsLedger ledger
      → Pairwise IsApart ss
      → Permᴰ ss ts
      → insert_all ledger ss ≡ insert_all ledger ts
  insert_all-permᴰ ledger v r Permᴰ.nil = refl
  insert_all-permᴰ ledger v r (Permᴰ.cons {a = a} {b = b} {l₂ = ts} e p) =
      insert_all-permᴰ (insert ledger a).0 (insert-IsLedger ledger a v).0 r.1 p
      ∙ ap (λ z. insert_all (insert ledger z).0 ts) e
  insert_all-permᴰ ledger v r (Permᴰ.swap {a = a} {b = b} {l = ss} e f) =
      ap (λ z. insert_all z ss) (insert_comm ledger a b v r.0.0)
      ∙ ap₂ (λ y z. insert_all (insert (insert ledger y).0 z).0 ss) f e
  insert_all-permᴰ ledger v r (Permᴰ.trans p q) =
      insert_all-permᴰ ledger v r p
      ∙ insert_all-permᴰ ledger v (Pairwise-permᴰ IsApart IsApart-sym p r) q

  -- A ledger is determined by the signals in it: two with the same signals are the same vector.
  pub IsLedger-unique :
      {ss ts : InFlightSignalLedger W} → IsLedger ss → IsLedger ts → Permᴰ ss ts → ss ≡ ts
  IsLedger-unique {ss = ss} {ts = ts} v w p =
      sort_by_unique canonical_less canonical_less-IsOrder p (All-Unit ss)
        (Pairwise-map ss IsApart-IsComparable v.apart) v.ordered
      ∙ sort_by_id canonical_less ts w.ordered
