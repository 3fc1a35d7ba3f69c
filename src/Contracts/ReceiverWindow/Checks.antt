-- ===== src/Contracts/ReceiverWindow/Checks.antt =====
-- Which signals `ReceiverWindow::Create` accepts.
use ns3_bellhop_platform.Prelude.{
  All-Unit, ◌≡◌, ◌≢◌, ◌↔◌, refl, true, false, arith, List, [], ◌∷◌, ◌++◌, All, Pairwise, sort_by,
  ◌<◌, ◌⊎◌, sym, sort_by-arranges, sort_by-Pairwise, sort_by-sorted, NotAfter, IsOrder, Permᴰ,
  Pairwise-both, All-snoc, All-unsnoc, not, ◌==◌, subst,
}
use ns3_bellhop_platform.Prelude.Int.{◌<ℤ◌, eqb_ℤ_iff}
use ns3_bellhop_platform.Contracts.Errors.{ok, reject_if-eq-ok, >>=-eq-ok, ok-injective}
use ns3_bellhop_platform.Contracts.Doubles.{Double}
use ns3_bellhop_platform.Contracts.State.{NodeId}
use ns3_bellhop_platform.Contracts.ReceivedSignal.{
  ReceivedSignal, transmission_id_of, receiver_of, first_arrival_at, has_p0_signal_overlap,
}
use ns3_bellhop_platform.Contracts.ReceiverWindow.{
  ReceiverWindow, seen_before, arrival_less, check_overlaps, create, receiver_mismatch,
}

module _ {W : Type 0} where
  abbrev pub Distinct : ReceivedSignal W → ReceivedSignal W → Type 0
  Distinct a b = transmission_id_of a ≢ transmission_id_of b

  seen_before_iff :
      (s : ReceivedSignal W) (es : List (ReceivedSignal W))
      → (seen_before s es ≡ false) ↔ All (λ e. Distinct e s) es
  unfolding seen_before
  seen_before_iff s [] = (λ h. tt, λ h. refl)
  seen_before_iff s (e ∷ es) = ground (arith, seen_before_iff s es)

  pub arrival_less-IsOrder : IsOrder arrival_less (λ (s : ReceivedSignal W). Unit {0})
  unfolding arrival_less
  arrival_less-IsOrder = record {
    asym = λ x y _ _ h. ground arith;
    negtrans = λ x y z _ _ _ h k. ground arith;
  }

module _ {W : Type 0} ⦃d : Double W⦄ where
  -- A signal that may stand in the window of the desired signal.
  pub record IsOverlapping (receiver : NodeId) (desired s : ReceivedSignal W) : Type 0 where
    pub at_receiver : receiver_of s ≡ receiver
    pub other : transmission_id_of s ≢ transmission_id_of desired
    pub overlaps : has_p0_signal_overlap desired s ≡ true

  -- Each is distinct from those before it, of `earlier` too.
  abbrev pub AllFresh : List (ReceivedSignal W) → List (ReceivedSignal W) → Type 0
  AllFresh earlier [] = Unit {0}
  AllFresh earlier (s ∷ ss) = All (λ e. Distinct e s) earlier × AllFresh (earlier ++ s ∷ []) ss

  pub check_overlaps_iff :
      (receiver : NodeId) (desired : ReceivedSignal W) (earlier ss : List (ReceivedSignal W))
      → (check_overlaps receiver desired earlier ss ≡ ok tt)
        ↔ (All (IsOverlapping receiver desired) ss × AllFresh earlier ss)
  unfolding check_overlaps
  check_overlaps_iff receiver desired earlier [] = (λ h. (tt, tt), λ h. refl)
  check_overlaps_iff receiver desired earlier (s ∷ ss) =
      ground (
        arith,
        seen_before_iff s earlier,
        check_overlaps_iff receiver desired (earlier ++ s ∷ []) ss,
      )

  pub AllFresh-of_Pairwise :
      (earlier ss : List (ReceivedSignal W))
      → All (λ s. All (λ e. Distinct e s) earlier) ss
      → Pairwise Distinct ss
      → AllFresh earlier ss
  AllFresh-of_Pairwise earlier [] h r = tt
  AllFresh-of_Pairwise earlier (s ∷ ss) h r =
      (h.0, AllFresh-of_Pairwise (earlier ++ s ∷ []) ss (later ss h.1 r.0) r.1)
    where
      later :
          (ts : List (ReceivedSignal W))
          → All (λ t. All (λ e. Distinct e t) earlier) ts
          → All (Distinct s) ts
          → All (λ t. All (λ e. Distinct e t) (earlier ++ s ∷ [])) ts
      later [] g q = tt
      later (t ∷ ts) g q = (All-snoc (λ e. Distinct e t) earlier s g.0 q.0, later ts g.1 q.1)

  Pairwise-of_AllFresh :
      (earlier ss : List (ReceivedSignal W))
      → AllFresh earlier ss
      → Pairwise Distinct ss × All (λ s. All (λ e. Distinct e s) earlier) ss
  Pairwise-of_AllFresh earlier [] h = (tt, tt)
  Pairwise-of_AllFresh earlier (s ∷ ss) h =
      let (rest, all) = Pairwise-of_AllFresh (earlier ++ s ∷ []) ss h.1 in
      ((last_of ss all, rest), (h.0, front_of ss all))
    where
      last_of :
          (ts : List (ReceivedSignal W))
          → All (λ t. All (λ e. Distinct e t) (earlier ++ s ∷ [])) ts
          → All (Distinct s) ts
      last_of [] g = tt
      last_of (t ∷ ts) g = ((All-unsnoc (λ e. Distinct e t) earlier s g.0).1, last_of ts g.1)

      front_of :
          (ts : List (ReceivedSignal W))
          → All (λ t. All (λ e. Distinct e t) (earlier ++ s ∷ [])) ts
          → All (λ t. All (λ e. Distinct e t) earlier) ts
      front_of [] g = tt
      front_of (t ∷ ts) g = ((All-unsnoc (λ e. Distinct e t) earlier s g.0).0, front_of ts g.1)

  -- `Create` accepts a window exactly when the receiver is that of the desired signal, every other
  -- signal is of that receiver, of another transmission and overlaps the desired one, and no two of
  -- them are of one transmission.
  pub create_window_iff :
      (receiver : NodeId) (desired : ReceivedSignal W) (ss : List (ReceivedSignal W))
      → ((w : ReceiverWindow W) × (create receiver desired ss ≡ ok w))
        ↔ (receiver ≡ receiver_of desired)
          × All (IsOverlapping receiver desired) ss
          × Pairwise Distinct ss
  unfolding create
  create_window_iff receiver desired ss = (
    λ (w, h).
        let (same, h₁) =
          reject_if-eq-ok (not (receiver == receiver_of desired)) receiver_mismatch h in
        let (u, checked, _) = >>=-eq-ok (check_overlaps receiver desired [] ss) _ h₁ in
        let (all, fresh) = (check_overlaps_iff receiver desired [] ss).0 checked in
        (ground arith, all, (Pairwise-of_AllFresh [] ss fresh).0),
    λ (same, all, distinct).
        let fresh = AllFresh-of_Pairwise [] ss (nothing_before ss) distinct in
        (
          record {
            receiver_node_id = receiver;
            desired_signal = desired;
            overlapping_signals = sort_by arrival_less ss;
          },
          ground (arith, (check_overlaps_iff receiver desired [] ss).1 (all, fresh)),
        ),
  )
    where
      nothing_before : (ts : List (ReceivedSignal W)) → All (λ t. All (λ e. Distinct e t) []) ts
      nothing_before [] = tt
      nothing_before (t ∷ ts) = (tt, nothing_before ts)

  -- Strictly by arrival, then transmission.
  abbrev pub ArrivesBefore : ReceivedSignal W → ReceivedSignal W → Type 0
  ArrivesBefore a b =
      ((first_arrival_at a).nanoseconds <ℤ (first_arrival_at b).nanoseconds)
      ⊎ (((first_arrival_at a).nanoseconds ≡ (first_arrival_at b).nanoseconds)
          × (transmission_id_of a < transmission_id_of b))

  ArrivesBefore-of_sorted :
      (a b : ReceivedSignal W) → NotAfter arrival_less a b → Distinct a b → ArrivesBefore a b
  unfolding arrival_less
  ArrivesBefore-of_sorted a b h k =
      ground (arith, eqb_ℤ_iff (first_arrival_at a).nanoseconds (first_arrival_at b).nanoseconds)

  -- The window holds what was given, its signals in order of arrival and then of transmission.
  pub create_window-ok :
      (receiver : NodeId) (desired : ReceivedSignal W) (ss : List (ReceivedSignal W))
      (w : ReceiverWindow W)
      → create receiver desired ss ≡ ok w
      → (w.receiver_node_id ≡ receiver)
        × (w.desired_signal ≡ desired)
        × Permᴰ w.overlapping_signals ss
        × Pairwise ArrivesBefore w.overlapping_signals
  unfolding create
  create_window-ok receiver desired ss w h =
      let (same, h₁) =
        reject_if-eq-ok (not (receiver == receiver_of desired)) receiver_mismatch h in
      let (u, checked, h₂) = >>=-eq-ok (check_overlaps receiver desired [] ss) _ h₁ in
      let distinct = ((create_window_iff receiver desired ss).0 (w, h)).2 in
      let differ : (a b : ReceivedSignal W) → Distinct a b → Distinct b a = λ a b g e. g (sym e) in
      subst
        (λ w.
          (w.receiver_node_id ≡ receiver)
          × (w.desired_signal ≡ desired)
          × Permᴰ w.overlapping_signals ss
          × Pairwise ArrivesBefore w.overlapping_signals)
        (ok-injective h₂)
        (
          refl,
          refl,
          sort_by-arranges arrival_less ss,
          Pairwise-both ArrivesBefore-of_sorted (sort_by arrival_less ss)
              (sort_by-sorted arrival_less arrival_less-IsOrder ss (All-Unit ss))
              (sort_by-Pairwise arrival_less Distinct differ ss distinct),
        )
