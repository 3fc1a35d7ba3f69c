-- ===== src/Kernel/Dispatch/Pending.antt =====
-- The records that wait for a time, and what the operations on the buckets do to them.
use ns3_bellhop_platform.Prelude.{
  ◌≡◌, refl, inl, inr, Bool, Bool-cases, true, false, arith, List, [], ◌∷◌, ◌++◌, if◌then◌else◌,
}
use ns3_bellhop_platform.Contracts.Time.{SimTime, time_lt, time_eq}
use ns3_bellhop_platform.Kernel.Dispatcher.{EventRecord, TimeBucket, place}

if_same {ℓ} : {A : Type ℓ} (b : Bool) (x : A) → (if b then x else x) ≡ x
if_same true x = refl
if_same false x = refl

lt_self : (t : SimTime) → time_lt t t ≡ false
lt_self t = ground arith

pub eq_self : (t : SimTime) → time_eq t t ≡ true
eq_self t = ground arith

module _ {C : Type 0} where
  unfoldable pub pending : SimTime → List (TimeBucket C) → List (EventRecord C)
  pending t [] = []
  pending t (b ∷ bs) =
      let rest = pending t bs in
      if time_lt b.time t then rest else if time_eq b.time t then b.records else []

  pub pending-place_self :
      (t : SimTime) (r : EventRecord C) (bs : List (TimeBucket C))
      → pending t (place t r bs) ≡ pending t bs ++ r ∷ []
  unfolding pending place
  pending-place_self t r [] = rw (lt_self t, eq_self t)
  pending-place_self t r (b ∷ bs) = elim (Bool-cases (time_lt b.time t)) [
    | inl e ↦ rw e (rw e (pending-place_self t r bs))
    | inr e ↦ elim (Bool-cases (time_eq b.time t)) [
      | inl f ↦ rw (e, f) (rw (e, f))
      | inr f ↦ rw (e, f) (rw (lt_self t, eq_self t))
    ]
  ]

  pub pending-place_ne :
      (t u : SimTime) (r : EventRecord C) (bs : List (TimeBucket C))
      → time_eq t u ≡ false
      → pending u (place t r bs) ≡ pending u bs
  unfolding pending place
  pending-place_ne t u r [] n = rw n (if_same (time_lt t u) [])
  pending-place_ne t u r (b ∷ bs) n = elim (Bool-cases (time_lt b.time t)) [
    | inl e ↦ rw e (rw (pending-place_ne t u r bs n))
    | inr e ↦ elim (Bool-cases (time_eq b.time t)) [
      | inl f ↦ let g : time_eq b.time u ≡ false = ground arith in rw (e, f) (rw g)
      | inr f ↦ elim (Bool-cases (time_lt t u)) [
        | inl k ↦ rw (e, f) (rw k)
        | inr k ↦
            let g : time_lt b.time u ≡ false = ground arith in
            let g' : time_eq b.time u ≡ false = ground arith in rw (e, f) (rw (k, n, g, g'))
      ]
    ]
  ]
