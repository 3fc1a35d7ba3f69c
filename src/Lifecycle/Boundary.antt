-- ===== src/Lifecycle/Boundary.antt =====
-- The arrival of a signal and the decoding of another on the dispatcher. A decoding at the end of a
-- signal has an earlier phase than an arrival at the same time, so the events keep to the half-open
-- intervals of the signals.
use ns3_bellhop_platform.Prelude.{
  ℕ, ◌≡◌, ◌↔◌, refl, ap, subst, Bool, true, false, arith, some, List, [], ◌∷◌, ◌++◌, All-Among,
  Among, here, there, Pairwise,
}
use ns3_bellhop_platform.Prelude.Int.{◌<ℤ◌}
use ns3_bellhop_platform.Contracts.Errors.{Status}
use ns3_bellhop_platform.Contracts.Time.{SimTime, time_lt}
use ns3_bellhop_platform.Contracts.Doubles.{Double}
use ns3_bellhop_platform.Contracts.ReceivedSignal.{
  ReceivedSignal, first_arrival_at, last_effect_end_at, has_temporal_overlap,
}
use ns3_bellhop_platform.Contracts.ReceivedSignal.Overlap.{has_temporal_overlap_iff}
use ns3_bellhop_platform.Kernel.Gateway.{Ns3}
use ns3_bellhop_platform.Kernel.Dispatcher.{
  phase_value, signal_arrival, session_finalize, EventKey, EventDispatcher,
}
use ns3_bellhop_platform.Kernel.Dispatcher.Schedule.{IsQueue}
use ns3_bellhop_platform.Kernel.Dispatch.{EventCallback, Outcome, phase_less, key_less, run}
use ns3_bellhop_platform.Kernel.Dispatch.Least.{key_less_asym}
use ns3_bellhop_platform.Kernel.Dispatch.Sequence.{run-ordered}

-- The one stands before the other.
abbrev pub Precedes : EventKey → EventKey → List EventKey → Type 0
Precedes a b keys =
    (xs : List EventKey) × (ys : List EventKey) × (keys ≡ xs ++ ys) × Among a xs × Among b ys

less_irrefl : (a : EventKey) → key_less a a ≡ true → ⊥
less_irrefl a h = cc (h, key_less_asym a a h)

-- Of two keys in a strictly ascending list the lesser stands first.
Precedes-of_less :
    (a b : EventKey) (keys : List EventKey)
    → Pairwise (λ x y. key_less x y ≡ true) keys
    → Among a keys
    → Among b keys
    → key_less a b ≡ true
    → Precedes a b keys
Precedes-of_less a b [] s m n h = elim m [ ]
Precedes-of_less a b (k ∷ keys) s (here e) (here f) h = absurd (less_irrefl k (rw (e, f) at h))
Precedes-of_less a b (k ∷ keys) s (here e) (there m) h = (k ∷ [], keys, refl, here e, m)
Precedes-of_less a b (k ∷ keys) s (there m) (here f) h =
    absurd (cc (h, f, key_less_asym k a (All-Among (λ y. key_less k y ≡ true) m s.0)))
Precedes-of_less a b (k ∷ keys) s (there m) (there n) h =
    let (xs, ys, e, p, q) = Precedes-of_less a b keys s.1 m n h in
    (k ∷ xs, ys, ap (k ∷◌) e, there p, q)

module _ {W : Type 0} where
  -- The key of an event for the arrival of the signal.
  pub record IsArrivalOf (x : ReceivedSignal W) (key : EventKey) : Type 0 where
    pub at_time : key.time ≡ first_arrival_at x
    pub in_phase : key.phase ≡ signal_arrival

  -- The key of an event for the decoding of the signal.
  pub record IsFinalizeOf (s : ReceivedSignal W) (key : EventKey) : Type 0 where
    pub at_time : key.time ≡ last_effect_end_at s
    pub in_phase : key.phase ≡ session_finalize

less_by_time :
    (k f : EventKey)
    → phase_less k f ≡ false
    → (key_less k f ≡ true) ↔ (k.time.nanoseconds <ℤ f.time.nanoseconds)
unfolding key_less
less_by_time k f h = ground arith

phases_reversed :
    (k f : EventKey) → phase_value k.phase ≡ 20 → phase_value f.phase ≡ 10 → phase_less k f ≡ false
unfolding phase_less
phases_reversed k f a b = ground arith

module _ {W : Type 0} where
  -- An arrival comes before a decoding exactly when the signal arrives before the other has ended.
  arrival_less_iff :
      (x s : ReceivedSignal W) (k f : EventKey)
      → IsArrivalOf x k
      → IsFinalizeOf s f
      → (key_less k f ≡ true)
        ↔ ((first_arrival_at x).nanoseconds <ℤ (last_effect_end_at s).nanoseconds)
  arrival_less_iff x s k f a b =
      subst (λ t. (key_less k f ≡ true) ↔ (t.nanoseconds <ℤ (last_effect_end_at s).nanoseconds))
        a.at_time
        (subst (λ t. (key_less k f ≡ true) ↔ (k.time.nanoseconds <ℤ t.nanoseconds)) b.at_time
          (less_by_time k f
            (phases_reversed k f (ap phase_value a.in_phase) (ap phase_value b.in_phase))))

module _ {W : Type 0} ⦃d : Double W⦄ {T S C A : Type 0} (ns3 : Ns3 T S SimTime)
    (body : C → EventCallback C A) (stop : S → S) (stopped : S → Bool) where
  -- Where ns-3 calls in strictly ascending order of times, in a `Run` from a well-formed queue that
  -- dispatches an arrival of one signal and a decoding of another, the arrival comes first when the
  -- two signals overlap in time.
  pub run-overlap_first :
      (fuel : ℕ) (calls : List (SimTime × (S → S))) (dispatcher : EventDispatcher S C) (a : A)
      (o : Outcome S C A) (status : Status) (x s : ReceivedSignal W) (k f : EventKey)
      → IsQueue dispatcher
      → Pairwise (λ b c. time_lt b.0 c.0 ≡ true) calls
      → run ns3 body stop stopped fuel calls dispatcher a ≡ some (o, status)
      → IsArrivalOf x k
      → IsFinalizeOf s f
      → Among k o.dispatched
      → Among f o.dispatched
      → has_temporal_overlap s x ≡ true
      → Precedes k f o.dispatched
  run-overlap_first fuel calls dispatcher a o status x s k f q r h at_k at_f m n overlap =
      let (t, (_, ends), (arrives, _)) = (has_temporal_overlap_iff s x).0 overlap in
      let order = run-ordered ns3 body stop stopped fuel calls dispatcher a o status q r h in
      Precedes-of_less k f o.dispatched order m n
        ((arrival_less_iff x s k f at_k at_f).1 (omega arith))
