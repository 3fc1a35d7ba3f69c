-- ===== src/Kernel/Dispatch/Take.antt =====
-- What taking the next record of a time does to the buckets.
use mathlib.Core.Option
use ns3_bellhop_platform.Prelude.{
  ℕ, ◌<◌, ◌≡◌, refl, inl, inr, Bool-cases, true, false, arith, Option, none, some, List, [], ◌∷◌,
  All, Pairwise,
}
use ns3_bellhop_platform.Prelude.Int.{◌<ℤ◌}
use ns3_bellhop_platform.Contracts.Time.{SimTime, time_lt, time_eq}
use ns3_bellhop_platform.Kernel.Dispatcher.{EventRecord, TimeBucket, has_bucket}
use ns3_bellhop_platform.Kernel.Dispatcher.Buckets.{Before, IsBucket}
use ns3_bellhop_platform.Kernel.Dispatch.{least, take_from, take_next, drop_bucket}
use ns3_bellhop_platform.Kernel.Dispatch.Least.{least-All, least-rest}
use ns3_bellhop_platform.Kernel.Dispatch.Pending.{pending}

module _ {C : Type 0} where
  -- What holds of the record taken and of the buckets left, if there is a record.
  abbrev pub Fits :
      (EventRecord C → List (TimeBucket C) → Type 0)
      → Option (EventRecord C × List (TimeBucket C))
      → Type 0
  Fits Q none = Unit
  Fits Q (some (r, rest)) = Q r rest

  pub Fits-map :
      (Q : EventRecord C → List (TimeBucket C) → Type 0) (b : TimeBucket C)
      (o : Option (EventRecord C × List (TimeBucket C)))
      → Fits (λ r rest. Q r (b ∷ rest)) o
      → Fits Q (Option.map (λ (r, rest). (r, b ∷ rest)) o)
  Fits-map Q b none h = tt
  Fits-map Q b (some (r, rest)) h = h

  pub Fits-mono :
      (P Q : EventRecord C → List (TimeBucket C) → Type 0)
      → ((r : EventRecord C) (rest : List (TimeBucket C)) → P r rest → Q r rest)
      → (o : Option (EventRecord C × List (TimeBucket C))) → Fits P o
      → Fits Q o
  Fits-mono P Q f none h = tt
  Fits-mono P Q f (some (r, rest)) h = f r rest h

  Fits-both :
      (P Q : EventRecord C → List (TimeBucket C) → Type 0)
      (o : Option (EventRecord C × List (TimeBucket C)))
      → Fits P o
      → Fits Q o
      → Fits (λ r rest. P r rest × Q r rest) o
  Fits-both P Q none h k = tt
  Fits-both P Q (some (r, rest)) h k = (h, k)

  pub Fits-some :
      (Q : EventRecord C → List (TimeBucket C) → Type 0)
      (o : Option (EventRecord C × List (TimeBucket C))) (r : EventRecord C)
      (rest : List (TimeBucket C))
      → o ≡ some (r, rest)
      → Fits Q o
      → Q r rest
  Fits-some Q o r rest e h = rw e at h

  -- The record is the least of those that waited, and the others still wait.
  abbrev pub IsTaken : SimTime → List (TimeBucket C) → EventRecord C → List (TimeBucket C) → Type 0
  IsTaken t bs r rest =
      (p : EventRecord C) × (ps : List (EventRecord C)) × (pending t bs ≡ p ∷ ps)
      × ((least p ps).0 ≡ r)
      × ((least p ps).1 ≡ pending t rest)

  take_from-IsTaken :
      (t : SimTime) (b : TimeBucket C) (bs : List (TimeBucket C)) (rs : List (EventRecord C))
      → b.records ≡ rs
      → time_lt b.time t ≡ false
      → time_eq b.time t ≡ true
      → Fits (IsTaken t (b ∷ bs)) (take_from b bs rs)
  unfolding take_from pending
  take_from-IsTaken t b bs [] e f g = tt
  take_from-IsTaken t b bs (r ∷ rs) e f g = (r, rs, rw (f, g) e, refl, rw (f, g))

  pub take_next-IsTaken :
      (t : SimTime) (bs : List (TimeBucket C)) → Fits (IsTaken t bs) (take_next t bs)
  unfolding take_next pending
  take_next-IsTaken t [] = tt
  take_next-IsTaken t (b ∷ bs) = elim (Bool-cases (time_lt b.time t)) [
    | inl e ↦
        rw (e, take_next)
          (Fits-map (IsTaken t (b ∷ bs)) b (take_next t bs) (
            Fits-mono (IsTaken t bs) (λ r rest. IsTaken t (b ∷ bs) r (b ∷ rest))
              (λ r rest (p, ps, was, this, others). (p, ps, rw e was, this, rw e others))
              (take_next t bs) (take_next-IsTaken t bs)))
    | inr e ↦ elim (Bool-cases (time_eq b.time t)) [
      | inl f ↦ rw (e, f, take_next) (take_from-IsTaken t b bs b.records refl e f)
      | inr f ↦ rw (e, f, take_next) tt
    ]
  ]

  take_from-none :
      (b : TimeBucket C) (bs : List (TimeBucket C)) (rs : List (EventRecord C))
      → take_from b bs rs ≡ none
      → rs ≡ []
  unfolding take_from
  take_from-none b bs [] h = refl
  take_from-none b bs (r ∷ rs) h = cc

  pub take_next-none :
      (t : SimTime) (bs : List (TimeBucket C)) → take_next t bs ≡ none → pending t bs ≡ []
  unfolding take_next take_from pending
  take_next-none t [] h = refl
  take_next-none t (b ∷ bs) h = elim (Bool-cases (time_lt b.time t)) [
    | inl e ↦ rw e (take_next-none t bs ((Option.map-eq-none_iff _ _).0 (rw (e, take_next) at h)))
    | inr e ↦ elim (Bool-cases (time_eq b.time t)) [
      | inl f ↦ rw (e, f) (take_from-none b bs b.records (rw (e, f, take_next) at h))
      | inr f ↦ rw (e, f)
    ]
  ]

  -- The times of the buckets stay.
  pub take_next-times :
      (P : SimTime → Type 0) (t : SimTime) (bs : List (TimeBucket C))
      → All (λ b. P b.time) bs
      → Fits (λ r rest. All (λ b. P b.time) rest) (take_next t bs)
  unfolding take_next take_from
  take_next-times P t [] h = tt
  take_next-times P t (b ∷ bs) h = elim (Bool-cases (time_lt b.time t)) [
    | inl e ↦
        rw (e, take_next)
          (Fits-map (λ r rest. All (λ c. P c.time) rest) b (take_next t bs)
            (Fits-mono (λ r rest. All (λ c. P c.time) rest)
              (λ r rest. All (λ c. P c.time) (b ∷ rest)) (λ r rest k. (h.0, k)) (take_next t bs)
              (take_next-times P t bs h.1)))
    | inr e ↦ elim (Bool-cases (time_eq b.time t)) [
      | inl f ↦ rw (e, f, take_next) (same_times b.records)
      | inr f ↦ rw (e, f, take_next) tt
    ]
  ]
    where
      same_times :
          (rs : List (EventRecord C))
          → Fits (λ r rest. All (λ c. P c.time) rest) (take_from b bs rs)
      same_times [] = tt
      same_times (r ∷ rs) = h

  -- Each bucket stays a bucket of its time, in order.
  pub take_next-IsBucket :
      (n : ℕ) (t : SimTime) (bs : List (TimeBucket C))
      → All (IsBucket n) bs
      → Fits (λ r rest. All (IsBucket n) rest) (take_next t bs)
  unfolding take_next take_from
  take_next-IsBucket n t [] h = tt
  take_next-IsBucket n t (b ∷ bs) h = elim (Bool-cases (time_lt b.time t)) [
    | inl e ↦
        rw (e, take_next)
          (Fits-map (λ r rest. All (IsBucket n) rest) b (take_next t bs)
            (Fits-mono (λ r rest. All (IsBucket n) rest) (λ r rest. All (IsBucket n) (b ∷ rest))
              (λ r rest k. (h.0, k)) (take_next t bs) (take_next-IsBucket n t bs h.1)))
    | inr e ↦ elim (Bool-cases (time_eq b.time t)) [
      | inl f ↦ rw (e, f, take_next) (fewer b.records h.0.of_time h.0.numbered h.0.in_order)
      | inr f ↦ rw (e, f, take_next) tt
    ]
  ]
    where
      fewer :
          (rs : List (EventRecord C))
          → All (λ r. r.key.time.nanoseconds ≡ b.time.nanoseconds) rs
          → All (λ r. r.key.sequence < n) rs
          → Pairwise (λ r s. r.key.sequence < s.key.sequence) rs
          → Fits (λ r rest. All (IsBucket n) rest) (take_from b bs rs)
      fewer [] p q k = tt
      fewer (r ∷ rs) p q k = (
        record {
          of_time = ((least-All (λ r. r.key.time.nanoseconds ≡ b.time.nanoseconds) r rs).0 p).1;
          numbered = ((least-All (λ r. r.key.sequence < n) r rs).0 q).1;
          in_order = least-rest (λ r s. r.key.sequence < s.key.sequence) r rs k;
        },
        h.1,
      )

  pub take_next-ascending :
      (t : SimTime) (bs : List (TimeBucket C))
      → Pairwise Before bs
      → Fits (λ r rest. Pairwise Before rest) (take_next t bs)
  unfolding take_next take_from
  take_next-ascending t [] h = tt
  take_next-ascending t (b ∷ bs) h = elim (Bool-cases (time_lt b.time t)) [
    | inl e ↦
        rw (e, take_next)
          (Fits-map (λ r rest. Pairwise Before rest) b (take_next t bs)
            (Fits-both (λ r rest. All (Before b) rest) (λ r rest. Pairwise Before rest)
              (take_next t bs) (take_next-times (λ u. b.time.nanoseconds <ℤ u.nanoseconds) t bs h.0)
              (take_next-ascending t bs h.1)))
    | inr e ↦ elim (Bool-cases (time_eq b.time t)) [
      | inl f ↦ rw (e, f, take_next) (same_order b.records)
      | inr f ↦ rw (e, f, take_next) tt
    ]
  ]
    where
      same_order :
          (rs : List (EventRecord C)) → Fits (λ r rest. Pairwise Before rest) (take_from b bs rs)
      same_order [] = tt
      same_order (r ∷ rs) = h

  pub drop_bucket-All :
      (P : TimeBucket C → Type 0) (t : SimTime) (bs : List (TimeBucket C))
      → All P bs
      → All P (drop_bucket t bs)
  unfolding drop_bucket
  drop_bucket-All P t [] h = tt
  drop_bucket-All P t (b ∷ bs) h = let rest = drop_bucket-All P t bs h.1 in ground arith

  pub drop_bucket-ascending :
      (t : SimTime) (bs : List (TimeBucket C))
      → Pairwise Before bs
      → Pairwise Before (drop_bucket t bs)
  unfolding drop_bucket
  drop_bucket-ascending t [] h = tt
  drop_bucket-ascending t (b ∷ bs) h =
      let rest = drop_bucket-ascending t bs h.1 in
      let after = drop_bucket-All (Before b) t bs h.0 in ground arith

  -- Nothing of the time is left.
  pub has_bucket-drop_bucket :
      (t : SimTime) (bs : List (TimeBucket C))
      → Pairwise Before bs
      → has_bucket t (drop_bucket t bs) ≡ false
  unfolding drop_bucket has_bucket
  has_bucket-drop_bucket t [] h = refl
  has_bucket-drop_bucket t (b ∷ []) h = ground arith
  has_bucket-drop_bucket t (b ∷ c ∷ bs) h = ground (arith, has_bucket-drop_bucket t (c ∷ bs) h.1)
