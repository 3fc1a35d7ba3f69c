-- ===== src/Kernel/Dispatch/Ordered.antt =====
-- The order in which `DispatchTime` calls the callbacks.

use ns3_bellhop_platform.Prelude.{
  ℕ, ◌<◌, ◌≡◌, ◌≢◌, sym, subst, ◌∙◌, inl, inr, Bool-cases, true, false, arith, List, [], ◌∷◌, All,
  All-map, All-append, Pairwise,
}
use ns3_bellhop_platform.Prelude.Int.{eqb_ℤ_iff}
use ns3_bellhop_platform.Contracts.Time.{SimTime, time_lt, time_eq}
use ns3_bellhop_platform.Kernel.Dispatcher.{EventKey, EventRecord, TimeBucket, EventDispatcher}
use ns3_bellhop_platform.Kernel.Dispatcher.Buckets.{IsBucket}
use ns3_bellhop_platform.Kernel.Dispatcher.Schedule.{IsQueue, used}
use ns3_bellhop_platform.Kernel.Dispatch.{phase_less, key_less, least}
use ns3_bellhop_platform.Kernel.Dispatch.Pending.{pending}
use ns3_bellhop_platform.Kernel.Dispatch.Least.{
  Later, NotLess, least-All, least-Pairwise, least-NotLess,
}
use ns3_bellhop_platform.Kernel.Dispatch.Effects.{Round}

All_both {ℓ κ μ} :
    {A : Type ℓ} (P : A → Type κ) (Q : A → Type μ) (xs : List A)
    → All P xs
    → All Q xs
    → All (λ x. P x × Q x) xs
All_both P Q [] h k = tt
All_both P Q (x ∷ xs) h k = ((h.0, k.0), All_both P Q xs h.1 k.1)

abbrev pub SameTime : SimTime → EventKey → Type 0
SameTime t key = key.time.nanoseconds ≡ t.nanoseconds

Later-of_not_less : (a b : EventKey) → phase_less b a ≡ false → a.sequence ≢ b.sequence → Later a b
unfolding phase_less
Later-of_not_less a b h n = ground arith

not_less_phase :
    (t : SimTime) (a b : EventKey) → SameTime t a → SameTime t b → key_less b a ≡ phase_less b a
unfolding key_less
not_less_phase t a b h k = ground arith

pub Later-key :
    (t : SimTime) (a b : EventKey) → SameTime t a → SameTime t b → Later a b → key_less a b ≡ true
unfolding key_less phase_less
Later-key t a b h k l = rw (not_less_phase t b a k h) (ground arith)

pub Later-trans : (a b c : EventKey) → Later a b → Later b c → Later a c
Later-trans a b c h k = ground arith

module _ {C : Type 0} where
  pub waiting :
      (n : ℕ) (t : SimTime) (bs : List (TimeBucket C))
      → All (IsBucket n) bs
      → All (λ r. SameTime t r.key) (pending t bs)
        × Pairwise (λ r s. r.key.sequence < s.key.sequence) (pending t bs)
  unfolding pending
  waiting n t [] h = (tt, tt)
  waiting n t (b ∷ bs) h = elim (Bool-cases (time_lt b.time t)) [
    | inl e ↦ rw (e, pending) (waiting n t bs h.1)
    | inr e ↦ elim (Bool-cases (time_eq b.time t)) [
      | inl f ↦
          let same : b.time.nanoseconds ≡ t.nanoseconds =
            (eqb_ℤ_iff b.time.nanoseconds t.nanoseconds).0 f in
          rw (e, f, pending) (All-map b.records (λ r p. p ∙ same) h.0.of_time, h.0.in_order)
      | inr f ↦ rw (e, f, pending) (tt, tt)
    ]
  ]

  -- The least of the records of one time is before the others.
  least-Later :
      (t : SimTime) (r : EventRecord C) (rs : List (EventRecord C))
      → All (λ s. SameTime t s.key) (r ∷ rs)
      → Pairwise (λ r s. r.key.sequence < s.key.sequence) (r ∷ rs)
      → All (λ s. Later (least r rs).0.key s.key) (least r rs).1
  least-Later t r rs same order =
      let (m, rest) = least r rs in
      let all = (least-All (λ s. SameTime t s.key) r rs).0 same in
      let apart =
        least-Pairwise (λ r s. r.key.sequence ≢ s.key.sequence) (λ r s n e. n (sym e)) r rs
          (distinct (r ∷ rs) order) in
      All-map (least r rs).1
        (λ s (n, (same_s, ne)).
          Later-of_not_less (least r rs).0.key s.key
            (sym (not_less_phase t (least r rs).0.key s.key all.0 same_s) ∙ n) ne)
        (All_both (NotLess (least r rs).0)
          (λ s. SameTime t s.key × ((least r rs).0.key.sequence ≢ s.key.sequence)) (least r rs).1
          (least-NotLess r rs)
          (All_both (λ s. SameTime t s.key) (λ s. (least r rs).0.key.sequence ≢ s.key.sequence)
            (least r rs).1 all.1 apart.0))
    where
      distinct :
          (xs : List (EventRecord C))
          → Pairwise (λ r s. r.key.sequence < s.key.sequence) xs
          → Pairwise (λ r s. r.key.sequence ≢ s.key.sequence) xs
      distinct [] h = tt
      distinct (x ∷ xs) h = (All-map xs (λ s lt e. omega arith) h.0, distinct xs h.1)

module _ {S C : Type 0} (t : SimTime) where
  -- The record taken is of this time and before all that wait afterwards.
  pub Round-order :
      (r : EventRecord C) (d d' : EventDispatcher S C)
      → IsQueue d
      → Round t r d d'
      → SameTime t r.key × All (λ s. Later r.key s.key) (pending t d'.buckets)
  Round-order r d d' q h =
      let (same, order) = waiting (used d) t d.buckets q.each in
      let same' = subst (All (λ s. SameTime t s.key)) h.waited same in
      let order' = subst (Pairwise (λ r s. r.key.sequence < s.key.sequence)) h.waited order in
      let others = least-Later t h.first h.others same' order' in
      (
        subst (λ s. SameTime t s.key) h.taken
            ((least-All (λ s. SameTime t s.key) h.first h.others).0 same').0,
        rw h.left_over (
            All-append (λ s. Later r.key s.key) (least h.first h.others).1 h.added
              (subst (λ m. All (λ s. Later m.key s.key) (least h.first h.others).1) h.taken others)
              (All-map h.added (λ s lt. inl lt) h.later)),
      )
