-- ===== src/Prelude/Keys.antt =====
-- Ranges ordered by a number in each element: lookup, storing, and ascending keys.
use Prim.Native.Nat.{ℕ, ◌≤◌, ◌<◌}
use mathlib.Core.Path.{◌≡◌, refl, ◌∙◌}
use mathlib.Core.Bool.{false}
use mathlib.Core.Logic.{◌⊎◌, inl, inr}
use mathlib.Core.Option.{Option, none, some}
use mathlib.Core.List.{List, [], ◌∷◌, map}
use native.Mathlib.Omega.{arith}
use ns3_bellhop_platform.Prelude.Tests.{ltb, ◌==◌, if◌then◌else◌, Bool-cases}
use ns3_bellhop_platform.Prelude.Lists.{All, Pairwise, IsAscending}
use ns3_bellhop_platform.Prelude.Ranges.{
  lower_bound, insert_at_bound, assign_at_bound, at_iterator, has_adjacent, Among, here, there,
}

module _ {ℓ} {A : Type ℓ} (key : A → ℕ) where
  -- How the source looks an element up: `lower_bound`, then a test of what stands there.
  unfoldable pub find_key : ℕ → List A → Option A
  unfolding lower_bound at_iterator
  find_key k xs = at_iterator (λ x. key x == k) (lower_bound (λ x. ltb (key x) k) xs)

  find_key-cons_lt : (k : ℕ) (x : A) (xs : List A) → key x < k → find_key k (x ∷ xs) ≡ find_key k xs
  unfolding find_key
  find_key-cons_lt k x xs h = ground arith

  find_key-cons_ge :
      (k : ℕ) (x : A) (xs : List A)
      → k ≤ key x
      → find_key k (x ∷ xs) ≡ (if key x == k then some x else none)
  unfolding find_key
  find_key-cons_ge k x xs h = ground arith

  -- A hit is an element with the key sought.
  pub find_key_sound :
      (k : ℕ) (xs : List A) {a : A} → find_key k xs ≡ some a → Among a xs × (key a ≡ k)
  unfolding find_key
  find_key_sound k [] h = cc
  find_key_sound k (x ∷ xs) {a} h = elim (Bool-cases (ltb (key x) k)) [
    | inl lt ↦
        let (m, e) = find_key_sound k xs (find_key-cons_lt k x xs (ground arith) ∙' h) in
        (there m, e)
    | inr ge ↦ head (find_key-cons_ge k x xs (ground arith) ∙' h)
  ]
    where
      infixl 30 ◌∙'◌
      ◌∙'◌ : {u v w : Option A} → u ≡ v → u ≡ w → v ≡ w
      p ∙' q = cc

      head : (if key x == k then some x else none) ≡ some a → Among a (x ∷ xs) × (key a ≡ k)
      head h = elim (Bool-cases (key x == k)) [
        | inl e ↦ (here (ground arith), ground arith)
        | inr e ↦ absurd (ground arith)
      ]

  below-keys :
      (x : A) (xs : List A) {a : A} → All (λ n. key x < n) (map key xs) → Among a xs → key x < key a
  below-keys x [] h m = elim m [ ]
  below-keys x (y ∷ ys) h (here e) = ground arith
  below-keys x (y ∷ ys) h (there m) = below-keys x ys h.1 m

  -- On a range with ascending keys every element is found.
  pub find_key_complete :
      {a : A} (xs : List A) → IsAscending (map key xs) → Among a xs → find_key (key a) xs ≡ some a
  unfolding find_key
  find_key_complete {a} [] s m = elim m [ ]
  find_key_complete {a} (x ∷ xs) s (here e) = ground arith
  find_key_complete {a} (x ∷ xs) s (there m) =
      find_key-cons_lt (key a) x xs (below-keys x xs s.0 m) ∙ find_key_complete xs s.1 m

  -- How the source stores an element: it overwrites the one with the same key, or inserts.
  unfoldable pub put_key : A → List A → List A
  unfolding find_key insert_at_bound assign_at_bound
  put_key v xs = elim (find_key (key v) xs) [
    | some _ ↦ assign_at_bound (λ x. ltb (key x) (key v)) v xs
    | none ↦ insert_at_bound (λ x. ltb (key x) (key v)) v xs
  ]

  put_key-cons_lt : (v x : A) (xs : List A) → key x < key v → put_key v (x ∷ xs) ≡ x ∷ put_key v xs
  unfolding put_key
  put_key-cons_lt v x xs h = ground arith

  put_key-cons_eq : (v x : A) (xs : List A) → key x ≡ key v → put_key v (x ∷ xs) ≡ v ∷ xs
  unfolding put_key
  put_key-cons_eq v x xs h = ground arith

  put_key-cons_gt : (v x : A) (xs : List A) → key v < key x → put_key v (x ∷ xs) ≡ v ∷ x ∷ xs
  unfolding put_key
  put_key-cons_gt v x xs h = ground arith

  -- Neighbours in order, none of them equal: the keys ascend strictly.
  pub IsAscending-of_sorted :
      (xs : List A)
      → Pairwise (λ x y. ltb (key y) (key x) ≡ false) xs
      → has_adjacent (λ x y. key x == key y) xs ≡ false
      → IsAscending (map key xs)
  unfolding has_adjacent
  IsAscending-of_sorted [] s h = tt
  IsAscending-of_sorted (x ∷ []) s h = (tt, tt)
  IsAscending-of_sorted (x ∷ y ∷ ys) s h =
      let rest = IsAscending-of_sorted (y ∷ ys) s.1 (ground arith) in
      let lt : key x < key y = ground arith in ((lt, lift_below (map key ys) lt rest.0), rest)
    where
      lift_below : {m n : ℕ} (ks : List ℕ) → m < n → All (λ k. n < k) ks → All (λ k. m < k) ks
      lift_below [] h b = tt
      lift_below (k ∷ ks) h b = (omega arith, lift_below ks h b.1)

  -- And back: ascending keys are in order, with no equal neighbours.
  pub sorted_of_IsAscending :
      (xs : List A) → IsAscending (map key xs) → Pairwise (λ x y. ltb (key y) (key x) ≡ false) xs
  sorted_of_IsAscending [] s = tt
  sorted_of_IsAscending (x ∷ xs) s = (after xs s.0, sorted_of_IsAscending xs s.1)
    where
      after :
          (ys : List A)
          → All (λ n. key x < n) (map key ys)
          → All (λ y. ltb (key y) (key x) ≡ false) ys
      after [] h = tt
      after (y ∷ ys) h = (ground arith, after ys h.1)

  pub distinct_of_IsAscending :
      (xs : List A) → IsAscending (map key xs) → has_adjacent (λ x y. key x == key y) xs ≡ false
  unfolding has_adjacent
  distinct_of_IsAscending [] s = refl
  distinct_of_IsAscending (x ∷ []) s = refl
  distinct_of_IsAscending (x ∷ y ∷ ys) s = ground (arith, distinct_of_IsAscending (y ∷ ys) s.1)

module _ {A : Type 0} (key : A → ℕ) where
  put_key_cases {κ} :
      (P : List A → Type κ) (v x : A) (xs : List A)
      → (key x < key v → P (x ∷ put_key key v xs))
      → (key x ≡ key v → P (v ∷ xs))
      → (key v < key x → P (v ∷ x ∷ xs))
      → P (put_key key v (x ∷ xs))
  put_key_cases P v x xs before same after = elim (trichotomy (key x) (key v)) [
    | inl lt ↦ rw (put_key-cons_lt key v x xs lt) (before lt)
    | inr (inl eq) ↦ rw (put_key-cons_eq key v x xs eq) (same eq)
    | inr (inr gt) ↦ rw (put_key-cons_gt key v x xs gt) (after gt)
  ]
    where
      trichotomy : (a b : ℕ) → (a < b) ⊎ ((a ≡ b) ⊎ (b < a))
      trichotomy a b = omega arith

  find_key-cons :
      (k : ℕ) (x : A) (xs : List A)
      → find_key key k (x ∷ xs)
        ≡ (if ltb (key x) k then find_key key k xs else if key x == k then some x else none)
  unfolding find_key
  find_key-cons k x xs = ground arith

  -- A lookup after a store finds the new element under its key, and all others as before.
  pub find_key-put_key :
      (k : ℕ) (v : A) (xs : List A)
      → find_key key k (put_key key v xs) ≡ (if k == key v then some v else find_key key k xs)
  find_key-put_key k v [] = unfold find_key put_key in ground arith
  find_key-put_key k v (x ∷ xs) =
      put_key_cases
        (λ l. find_key key k l ≡ (if k == key v then some v else find_key key k (x ∷ xs))) v x xs
        (λ lt.
          rw (find_key-cons k x (put_key key v xs), find_key-cons k x xs)
            (ground (arith, find_key-put_key k v xs)))
        (λ eq. rw (find_key-cons k v xs, find_key-cons k x xs) (ground arith))
        (λ gt. rw (find_key-cons k v (x ∷ xs), find_key-cons k x xs) (ground arith))

  put_key-Below :
      (m : ℕ) (v : A) (xs : List A)
      → m < key v
      → All (λ n. m < n) (map key xs)
      → All (λ n. m < n) (map key (put_key key v xs))
  put_key-Below m v [] h b = unfold put_key in (h, tt)
  put_key-Below m v (x ∷ xs) h b =
      put_key_cases (λ l. All (λ n. m < n) (map key l)) v x xs
        (λ _. (b.0, put_key-Below m v xs h b.1)) (λ _. (h, b.1)) (λ _. (h, b))

  Below-mono : {m n : ℕ} (ks : List ℕ) → m < n → All (λ k. n < k) ks → All (λ k. m < k) ks
  Below-mono [] h b = tt
  Below-mono (k ∷ ks) h b = (omega arith, Below-mono ks h b.1)

  -- Storing keeps the keys ascending.
  pub put_key-IsAscending :
      (v : A) (xs : List A) → IsAscending (map key xs) → IsAscending (map key (put_key key v xs))
  put_key-IsAscending v [] s = unfold put_key in (tt, tt)
  put_key-IsAscending v (x ∷ xs) s =
      put_key_cases (λ l. IsAscending (map key l)) v x xs
        (λ lt. (put_key-Below (key x) v xs lt s.0, put_key-IsAscending v xs s.1))
        (λ eq. (rw eq at (s.0), s.1)) (λ gt. ((gt, Below-mono (map key xs) gt s.0), s))

  -- Storing an element that satisfies `P` keeps `P` on all elements.
  pub put_key-All {κ} :
      (P : A → Type κ) (v : A) (xs : List A) → P v → All P xs → All P (put_key key v xs)
  put_key-All P v [] p ps = unfold put_key in (p, tt)
  put_key-All P v (x ∷ xs) p ps =
      put_key_cases (All P) v x xs (λ _. (ps.0, put_key-All P v xs p ps.1)) (λ _. (p, ps.1))
        (λ _. (p, ps))
