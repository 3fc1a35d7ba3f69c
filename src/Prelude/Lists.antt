-- ===== src/Prelude/Lists.antt =====
-- Lists measured by native numbers, predicates on all elements, and ascending key lists.
use Prim.Native.Nat.{ℕ, suc, ◌<◌}
use mathlib.Core.Path.{◌≡◌, refl, ap}
use mathlib.Core.List.{List, [], ◌∷◌, ◌++◌}
use mathlib.Core.Bool.{Bool, true, false, ◌&&◌, ◌||◌}
use native.Mathlib.Omega.{arith}
use mathlib.Core.Logic.{inl, inr}
use ns3_bellhop_platform.Prelude.Tests.{if◌then◌else◌, Bool-cases}

module _ {ℓ} {A : Type ℓ} where
  abbrev pub length : List A → ℕ
  length [] = 0
  length (x ∷ xs) = suc (length xs)

  -- Every element satisfies `P`.
  abbrev pub All {κ} : (A → Type κ) → List A → Type κ
  All P [] = Unit
  All P (x ∷ xs) = P x × All P xs

  -- Each earlier element stands in the relation to each later one.
  abbrev pub Pairwise {κ} : (A → A → Type κ) → List A → Type κ
  Pairwise R [] = Unit
  Pairwise R (x ∷ xs) = All (R x) xs × Pairwise R xs

  -- The elements that pass a Boolean test, in their order.
  unfoldable pub keep : (A → Bool) → List A → List A
  keep p [] = []
  keep p (x ∷ xs) = if p x then x ∷ keep p xs else keep p xs

  -- Some element passes.
  unfoldable pub any : (A → Bool) → List A → Bool
  any p [] = false
  any p (x ∷ xs) = p x || any p xs

  pub any-snoc : (p : A → Bool) (xs : List A) (y : A) → any p (xs ++ y ∷ []) ≡ (any p xs || p y)
  unfolding any
  any-snoc p [] y = ground arith
  any-snoc p (x ∷ xs) y = ground (arith, any-snoc p xs y)

  pub any-false : (p : A → Bool) (xs : List A) → All (λ x. p x ≡ false) xs → any p xs ≡ false
  unfolding any
  any-false p [] h = refl
  any-false p (x ∷ xs) h = rw (h.0, any-false p xs h.1) refl

  pub All-map {κ λ'} :
      {P : A → Type κ} {Q : A → Type λ'} (xs : List A) → ((x : A) → P x → Q x) → All P xs → All Q xs
  All-map [] f ps = tt
  All-map (x ∷ xs) f ps = (f x ps.0, All-map xs f ps.1)

  pub Pairwise-map {κ λ'} :
      {R : A → A → Type κ} {S : A → A → Type λ'} (xs : List A)
      → ((x y : A) → R x y → S x y)
      → Pairwise R xs
      → Pairwise S xs
  Pairwise-map [] f r = tt
  Pairwise-map (x ∷ xs) f r = (All-map xs (f x) r.0, Pairwise-map xs f r.1)

  All-both {κ λ' μ} :
      {P : A → Type κ} {Q : A → Type λ'} {R : A → Type μ} (xs : List A)
      → ((x : A) → P x → Q x → R x)
      → All P xs
      → All Q xs
      → All R xs
  All-both [] f ps qs = tt
  All-both (x ∷ xs) f ps qs = (f x ps.0 qs.0, All-both xs f ps.1 qs.1)

  -- Two relations between all pairs together.
  pub Pairwise-both {κ λ' μ} :
      {R : A → A → Type κ} {S : A → A → Type λ'} {T : A → A → Type μ}
      → ((x y : A) → R x y → S x y → T x y)
      → (xs : List A) → Pairwise R xs
      → Pairwise S xs
      → Pairwise T xs
  Pairwise-both f [] r s = tt
  Pairwise-both f (x ∷ xs) r s = (All-both xs (f x) r.0 s.0, Pairwise-both f xs r.1 s.1)

  pub All-front {κ} : (P : A → Type κ) (xs ys : List A) → All P (xs ++ ys) → All P xs
  All-front P [] ys ps = tt
  All-front P (x ∷ xs) ys ps = (ps.0, All-front P xs ys ps.1)

  pub Pairwise-front {κ} :
      (R : A → A → Type κ) (xs ys : List A) → Pairwise R (xs ++ ys) → Pairwise R xs
  Pairwise-front R [] ys r = tt
  Pairwise-front R (x ∷ xs) ys r = (All-front (R x) xs ys r.0, Pairwise-front R xs ys r.1)

  -- For orders that hold of all elements.
  pub All-Unit : (xs : List A) → All (λ _. Unit {0}) xs
  All-Unit [] = tt
  All-Unit (x ∷ xs) = (tt, All-Unit xs)

module _ {ℓ κ} {A : Type ℓ} where
  pub All-snoc : (P : A → Type κ) (xs : List A) (y : A) → All P xs → P y → All P (xs ++ y ∷ [])
  All-snoc P [] y ps p = (p, tt)
  All-snoc P (x ∷ xs) y ps p = (ps.0, All-snoc P xs y ps.1 p)

  pub All-append : (P : A → Type κ) (xs ys : List A) → All P xs → All P ys → All P (xs ++ ys)
  All-append P [] ys h k = k
  All-append P (x ∷ xs) ys h k = (h.0, All-append P xs ys h.1 k)

  pub Pairwise-append :
      (R : A → A → Type κ) (xs ys : List A)
      → Pairwise R xs
      → Pairwise R ys
      → All (λ x. All (R x) ys) xs
      → Pairwise R (xs ++ ys)
  Pairwise-append R [] ys r s h = s
  Pairwise-append R (x ∷ xs) ys r s h =
      (All-append (R x) xs ys r.0 h.0, Pairwise-append R xs ys r.1 s h.1)

  pub All-unsnoc : (P : A → Type κ) (xs : List A) (y : A) → All P (xs ++ y ∷ []) → All P xs × P y
  All-unsnoc P [] y h = (tt, h.0)
  All-unsnoc P (x ∷ xs) y h = let rest = All-unsnoc P xs y h.1 in ((h.0, rest.0), rest.1)

  pub Pairwise-snoc :
      (R : A → A → Type κ) (xs : List A) (y : A)
      → Pairwise R xs
      → All (λ x. R x y) xs
      → Pairwise R (xs ++ y ∷ [])
  Pairwise-snoc R [] y r h = (tt, tt)
  Pairwise-snoc R (x ∷ xs) y r h = (All-snoc (R x) xs y r.0 h.0, Pairwise-snoc R xs y r.1 h.1)

  pub keep-All : (P : A → Type κ) (p : A → Bool) (xs : List A) → All P xs → All P (keep p xs)
  unfolding keep
  keep-All P p [] h = tt
  keep-All P p (x ∷ xs) h = elim (Bool-cases (p x)) [
    | inl e ↦ rw e (h.0, keep-All P p xs h.1)
    | inr e ↦ rw e (keep-All P p xs h.1)
  ]

  pub keep-Pairwise :
      (R : A → A → Type κ) (p : A → Bool) (xs : List A) → Pairwise R xs → Pairwise R (keep p xs)
  unfolding keep
  keep-Pairwise R p [] h = tt
  keep-Pairwise R p (x ∷ xs) h = elim (Bool-cases (p x)) [
    | inl e ↦ rw e (keep-All (R x) p xs h.0, keep-Pairwise R p xs h.1)
    | inr e ↦ rw e (keep-Pairwise R p xs h.1)
  ]

-- An element that passes `p` passes `q`, so it is kept by `q`.
pub any-keep {ℓ} :
    {A : Type ℓ} (p q : A → Bool) (xs : List A)
    → ((x : A) → p x ≡ true → q x ≡ true)
    → any p (keep q xs) ≡ any p xs
unfolding keep any
any-keep p q [] f = refl
any-keep p q (x ∷ xs) f = elim (Bool-cases (q x)) [
  | inl e ↦ rw (e, any) (ap (p x ||◌) (any-keep p q xs f))
  | inr e ↦ elim (Bool-cases (p x)) [
    | inl g ↦ cc (e, f x g)
    | inr g ↦ rw (e, g) (any-keep p q xs f)
  ]
]

-- What passes one test, then another, passes both.
pub keep-keep {ℓ} :
    {A : Type ℓ} (p q : A → Bool) (xs : List A) → keep p (keep q xs) ≡ keep (λ x. q x && p x) xs
unfolding keep
keep-keep p q [] = refl
keep-keep p q (x ∷ xs) = let h = keep-keep p q xs in ground arith

-- Everything that is kept passes the test.
pub keep-passes {ℓ} : {A : Type ℓ} (p : A → Bool) (xs : List A) → All (λ x. p x ≡ true) (keep p xs)
unfolding keep
keep-passes p [] = tt
keep-passes p (x ∷ xs) = elim (Bool-cases (p x)) [
  | inl e ↦ rw (e, keep) (e, keep-passes p xs)
  | inr e ↦ rw (e, keep) (keep-passes p xs)
]

-- Strictly ascending numbers.
abbrev pub IsAscending : List ℕ → Type 0
IsAscending = Pairwise ◌<◌
