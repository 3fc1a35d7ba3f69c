-- ===== src/Kernel/Dispatcher/Buckets.antt =====
-- The buckets of the dispatcher: their order, and what `ScheduleAt` puts into them.
use ns3_bellhop_platform.Prelude.{
  ℕ, ◌+◌, ◌<◌, ◌≤◌, ◌≡◌, refl, inl, inr, Bool-cases, arith, List, [], ◌∷◌, ◌++◌, All, All-map,
  All-snoc, Pairwise, Pairwise-snoc,
}
use ns3_bellhop_platform.Prelude.Int.{◌<ℤ◌}
use ns3_bellhop_platform.Contracts.Time.{time_lt, time_eq}
use ns3_bellhop_platform.Kernel.Dispatcher.{EventRecord, TimeBucket, place, new_bucket}

module _ {C : Type 0} where
  -- The records of a bucket are of its time, in the order of their numbers, which are all used.
  pub record IsBucket (used : ℕ) (b : TimeBucket C) : Type 0 where
    pub of_time : All (λ r. r.key.time.nanoseconds ≡ b.time.nanoseconds) b.records
    pub numbered : All (λ r. r.key.sequence < used) b.records
    pub in_order : Pairwise (λ r s. r.key.sequence < s.key.sequence) b.records

  abbrev pub Before : TimeBucket C → TimeBucket C → Type 0
  Before a b = a.time.nanoseconds <ℤ b.time.nanoseconds

  pub weaken-IsBucket : (m n : ℕ) (b : TimeBucket C) → m ≤ n → IsBucket m b → IsBucket n b
  weaken-IsBucket m n b le h = record {
    of_time = h.of_time;
    numbered = All-map b.records (λ r lt. omega arith) h.numbered;
    in_order = h.in_order;
  }

  new-IsBucket :
      (used : ℕ) (r : EventRecord C)
      → r.key.sequence ≡ used
      → IsBucket (used + 1) (new_bucket r.key.time r)
  new-IsBucket used r e = record {
    of_time = (refl, tt);
    numbered = (omega arith, tt);
    in_order = (tt, tt);
  }

  grown-IsBucket :
      (used : ℕ) (r : EventRecord C) (b : TimeBucket C)
      → r.key.sequence ≡ used
      → r.key.time.nanoseconds ≡ b.time.nanoseconds
      → IsBucket used b
      → IsBucket (used + 1) (record b { records = b.records ++ r ∷ [] })
  grown-IsBucket used r b e same h = record {
    of_time =
        All-snoc (λ s. s.key.time.nanoseconds ≡ b.time.nanoseconds) b.records r h.of_time same;
    numbered =
        All-snoc (λ s. s.key.sequence < used + 1) b.records r
          (All-map b.records (λ s lt. omega arith) h.numbered) (omega arith);
    in_order =
        Pairwise-snoc (λ s t. s.key.sequence < t.key.sequence) b.records r h.in_order
          (All-map b.records (λ s lt. omega arith) h.numbered);
  }

  place-after :
      (x : TimeBucket C) (r : EventRecord C) (bs : List (TimeBucket C))
      → x.time.nanoseconds <ℤ r.key.time.nanoseconds
      → All (Before x) bs
      → All (Before x) (place r.key.time r bs)
  unfolding place
  place-after x r [] h hs = (h, tt)
  place-after x r (b ∷ bs) h hs = let rest = place-after x r bs h hs.1 in ground arith

  pub place-ascending :
      (r : EventRecord C) (bs : List (TimeBucket C))
      → Pairwise Before bs
      → Pairwise Before (place r.key.time r bs)
  unfolding place
  place-ascending r [] p = (tt, tt)
  place-ascending r (b ∷ bs) p = elim (Bool-cases (time_lt b.time r.key.time)) [
    | inl e ↦ rw (e, place) (place-after b r bs (ground arith) p.0, place-ascending r bs p.1)
    | inr e ↦ elim (Bool-cases (time_eq b.time r.key.time)) [
      | inl f ↦ rw (e, f, place) p
      | inr f ↦ rw (e, f, place) ((ground arith, All-map bs (λ c h. ground arith) p.0), p)
    ]
  ]

  pub place-IsBucket :
      (used : ℕ) (r : EventRecord C) (bs : List (TimeBucket C))
      → r.key.sequence ≡ used
      → All (IsBucket used) bs
      → All (IsBucket (used + 1)) (place r.key.time r bs)
  unfolding place
  place-IsBucket used r [] s p = (new-IsBucket used r s, tt)
  place-IsBucket used r (b ∷ bs) s p =
      let later = All-map bs (λ c. weaken-IsBucket used (used + 1) c (omega arith)) p.1 in
      let this = weaken-IsBucket used (used + 1) b (omega arith) p.0 in
      elim (Bool-cases (time_lt b.time r.key.time)) [
        | inl e ↦ rw (e, place) (this, place-IsBucket used r bs s p.1)
        | inr e ↦ elim (Bool-cases (time_eq b.time r.key.time)) [
          | inl f ↦ rw (e, f, place) (grown-IsBucket used r b s (ground arith) p.0, later)
          | inr f ↦ rw (e, f, place) (new-IsBucket used r s, (this, later))
        ]
      ]
