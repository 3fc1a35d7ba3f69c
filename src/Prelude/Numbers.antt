-- ===== src/Prelude/Numbers.antt =====
-- Lists of numbers sort alike in every order.
use Prim.Native.Nat.{ℕ, ◌<◌}
use mathlib.Core.Path.{◌≡◌, refl, sym}
use mathlib.Core.Bool.{false}
use mathlib.Core.Logic.{◌≢◌, ◌↔◌, ∥∥₁_elim}
use mathlib.Core.List.{List, [], ◌∷◌, Perm}
use mathlib.Core.List.Permᴰ
use native.Mathlib.Omega.{arith}
use ns3_bellhop_platform.Prelude.Tests.{ltb, ◌==◌}
use ns3_bellhop_platform.Prelude.Lists.{All, Pairwise, All-Unit, All-map, Pairwise-map, IsAscending}
use ns3_bellhop_platform.Prelude.Ranges.{has_adjacent}
use ns3_bellhop_platform.Prelude.Sort.{sort_by, sort_by-sorted, IsOrder, NotAfter}
use ns3_bellhop_platform.Prelude.Rearranged.{
  IsComparable, sort_by-permᴰ, sort_by-arranges, Pairwise-permᴰ,
}

ltb-IsOrder : IsOrder ltb (λ (n : ℕ). Unit {0})
ltb-IsOrder = record {
  asym = λ x y _ _ h. ground arith;
  negtrans = λ x y z _ _ _ h k. ground arith;
}

IsComparable-ℕ : (m n : ℕ) → IsComparable ltb m n
IsComparable-ℕ m n = ground arith

all-IsComparable : (ns : List ℕ) → Pairwise (IsComparable ltb) ns
all-IsComparable [] = tt
all-IsComparable (n ∷ ns) = (to n ns, all-IsComparable ns)
  where
    to : (n : ℕ) (ms : List ℕ) → All (IsComparable ltb n) ms
    to n [] = tt
    to n (m ∷ ms) = (IsComparable-ℕ n m, to n ms)

List-ℕ-IsSet : IsSet (List ℕ)
List-ℕ-IsSet = hlevel

-- Numbers sort alike in every order.
pub sort_by-ltb-perm : {ms ns : List ℕ} → Perm ms ns → sort_by ltb ms ≡ sort_by ltb ns
sort_by-ltb-perm {ms = ms} {ns = ns} p =
    ∥∥₁_elim p (List-ℕ-IsSet (sort_by ltb ms) (sort_by ltb ns))
      (λ d. sort_by-permᴰ ltb ltb-IsOrder d (All-Unit ms) (all-IsComparable ms))

has_adjacent-of_distinct : (xs : List ℕ) → Pairwise ◌≢◌ xs → has_adjacent ◌==◌ xs ≡ false
unfolding has_adjacent
has_adjacent-of_distinct [] r = refl
has_adjacent-of_distinct (x ∷ []) r = refl
has_adjacent-of_distinct (x ∷ y ∷ ys) r =
    let rest = has_adjacent-of_distinct (y ∷ ys) r.1 in let apart = r.0.0 in ground arith

distinct-of_sorted :
    (xs : List ℕ) → Pairwise (NotAfter ltb) xs → has_adjacent ◌==◌ xs ≡ false → IsAscending xs
unfolding has_adjacent
distinct-of_sorted [] s h = tt
distinct-of_sorted (x ∷ []) s h = (tt, tt)
distinct-of_sorted (x ∷ y ∷ ys) s h =
    let rest = distinct-of_sorted (y ∷ ys) s.1 (ground arith) in
    let lt : x < y = ground arith in ((lt, All-map ys (λ z l. omega arith) rest.0), rest)

-- A sorted range has no equal neighbours exactly when no number is repeated.
pub has_adjacent-sort_by_iff :
    (xs : List ℕ) → (has_adjacent ◌==◌ (sort_by ltb xs) ≡ false) ↔ Pairwise ◌≢◌ xs
has_adjacent-sort_by_iff xs =
    let differ : (a b : ℕ) → a ≢ b → b ≢ a = λ a b g e. g (sym e) in
    let arranged = sort_by-arranges ltb xs in
    (
      λ h.
          let up =
            distinct-of_sorted (sort_by ltb xs) (sort_by-sorted ltb ltb-IsOrder xs (All-Unit xs))
              h in
          Pairwise-permᴰ ◌≢◌ differ arranged
            (Pairwise-map (sort_by ltb xs) (λ a b l e. omega arith) up),
      λ r.
          has_adjacent-of_distinct (sort_by ltb xs)
            (Pairwise-permᴰ ◌≢◌ differ (Permᴰ.symm arranged) r),
    )
