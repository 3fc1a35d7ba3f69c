-- ===== src/Prelude/KeyRanges.antt =====
-- Repeated keys, and the range of one key in a list whose keys do not descend.
use Prim.Native.Nat.{ℕ, ◌≤◌, ◌<◌}
use mathlib.Core.Path.{◌≡◌, refl, sym, ap}
use mathlib.Core.Bool.{true}
use mathlib.Core.Logic.{inl, inr}
use mathlib.Core.List.{
  List, [], ◌∷◌, map, Mem, Nodup, Nodup-cons, Nodup-nil, not-mem-nil, mem-cons, mem-cons_self,
}
use mathlib.Core.Logic.Or
use native.Mathlib.Omega.{arith}
use ns3_bellhop_platform.Prelude.Tests.{ltb, ◌==◌, Bool-cases}
use ns3_bellhop_platform.Prelude.Lists.{All, All-map, Pairwise, IsAscending, keep}
use ns3_bellhop_platform.Prelude.Ranges.{lower_bound, has_adjacent, until}

pub IsAscending-Nodup : (ks : List ℕ) → IsAscending ks → Nodup ks
IsAscending-Nodup [] s = Nodup-nil
IsAscending-Nodup (k ∷ ks) s = Nodup-cons.1 (not_below ks s.0, IsAscending-Nodup ks s.1)
  where
    not_below : (js : List ℕ) → All (λ j. k < j) js → ¬ (Mem k js)
    not_below [] h m = not-mem-nil m
    not_below (j ∷ js) h m =
        Or.elim (λ p q. absurd p) (mem-cons.0 m) (λ e. omega arith) (not_below js h.1)

-- Equal neighbours are a repetition.
pub has_adjacent-not_Nodup {ℓ} :
    {A : Type ℓ} (key : A → ℕ) (xs : List A)
    → has_adjacent (λ x y. key x == key y) xs ≡ true
    → ¬ Nodup (map key xs)
unfolding has_adjacent
has_adjacent-not_Nodup key [] h d = cc
has_adjacent-not_Nodup key (x ∷ []) h d = cc
has_adjacent-not_Nodup key (x ∷ y ∷ ys) h d = elim (Bool-cases (key x == key y)) [
  | inl e ↦ let same : key x ≡ key y = ground arith in (Nodup-cons.0 d).0 (rw same mem-cons_self)
  | inr e ↦ has_adjacent-not_Nodup key (y ∷ ys) (ground arith) (Nodup-cons.0 d).1
]

-- Ranges whose keys do not descend.
module _ {ℓ} {A : Type ℓ} (key : A → ℕ) (k : ℕ) where
  keep_above : (xs : List A) → All (λ x. k < key x) xs → keep (λ x. key x == k) xs ≡ []
  unfolding keep
  keep_above [] h = refl
  keep_above (x ∷ xs) h = ground (arith, keep_above xs h.1)

  until-keep :
      (xs : List A)
      → Pairwise (λ x y. key x ≤ key y) xs
      → All (λ x. k ≤ key x) xs
      → until (λ x. ltb k (key x)) xs ≡ keep (λ x. key x == k) xs
  unfolding keep until
  until-keep [] r h = refl
  until-keep (x ∷ xs) r h = elim (Bool-cases (ltb k (key x))) [
    | inl gt ↦
        rw gt (sym (keep_above (x ∷ xs) (ground arith, All-map xs (λ y le. ground arith) r.0)))
    | inr le ↦
        let same : (key x == k) ≡ true = ground arith in
        rw (le, same) (ap (◌∷◌ x) (until-keep xs r.1 h.1))
  ]

  -- The range from `lower_bound` to `upper_bound` of a key holds the elements with that key.
  pub equal_range-keep :
      (xs : List A)
      → Pairwise (λ x y. key x ≤ key y) xs
      → until (λ x. ltb k (key x)) (lower_bound (λ x. ltb (key x) k) xs) ≡ keep (λ x. key x == k) xs
  unfolding keep until lower_bound
  equal_range-keep [] r = refl
  equal_range-keep (x ∷ xs) r = elim (Bool-cases (ltb (key x) k)) [
    | inl lt ↦ ground (arith, equal_range-keep xs r.1)
    | inr ge ↦ rw ge (until-keep (x ∷ xs) r (ground arith, All-map xs (λ y le. ground arith) r.0))
  ]
