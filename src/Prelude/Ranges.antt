-- ===== src/Prelude/Ranges.antt =====
-- The algorithms of `<algorithm>` on ordered ranges, and their laws on ranges whose keys ascend.
-- An iterator is the suffix that starts at it.
use mathlib.Core.Path.{◌≡◌, refl, sym, ap, subst, ◌∙◌}
use mathlib.Core.Bool.{Bool, true, false, ◌||◌}
use mathlib.Core.Logic.{◌≢◌, ◌↔◌, ◌⊎◌, inl, inr}
use mathlib.Core.Option.{Option, none, some}
use mathlib.Core.List.{List, [], ◌∷◌, ◌++◌}
use native.Mathlib.Omega.{arith}
use ns3_bellhop_platform.Prelude.Tests.{if◌then◌else◌, Bool-cases}
use ns3_bellhop_platform.Prelude.Lists.{All, keep}

module _ {ℓ} {A : Type ℓ} where
  -- `std::lower_bound`: the first place whose element does not come before the value sought.
  unfoldable pub lower_bound : (A → Bool) → List A → List A
  lower_bound before [] = []
  lower_bound before (x ∷ xs) = if before x then lower_bound before xs else x ∷ xs

  -- `vector::insert` at that place.
  unfoldable pub insert_at_bound : (A → Bool) → A → List A → List A
  insert_at_bound before v [] = v ∷ []
  insert_at_bound before v (x ∷ xs) =
      if before x then x ∷ insert_at_bound before v xs else v ∷ x ∷ xs

  -- Assignment through the iterator at that place; nothing to assign to at the end.
  unfoldable pub assign_at_bound : (A → Bool) → A → List A → List A
  assign_at_bound before v [] = []
  assign_at_bound before v (x ∷ xs) = if before x then x ∷ assign_at_bound before v xs else v ∷ xs

  -- The elements up to `std::upper_bound`: those before the first that comes after the value.
  unfoldable pub until : (A → Bool) → List A → List A
  until after [] = []
  until after (x ∷ xs) = if after x then [] else x ∷ until after xs

  -- The element at the iterator, unless it is the end or fails the test.
  unfoldable pub at_iterator : (A → Bool) → List A → Option A
  at_iterator test [] = none
  at_iterator test (x ∷ xs) = if test x then some x else none

  -- `std::adjacent_find` finds something.
  unfoldable pub has_adjacent : (A → A → Bool) → List A → Bool
  has_adjacent same [] = false
  has_adjacent same (x ∷ []) = false
  has_adjacent same (x ∷ y ∷ ys) = same x y || has_adjacent same (y ∷ ys)

-- `a` is an element of the list.
pub data Among {ℓ} {A : Type ℓ} (a : A) : List A → Type ℓ where
  here : {x : A} {xs : List A} → a ≡ x → Among a (x ∷ xs)
  there : {x : A} {xs : List A} → Among a xs → Among a (x ∷ xs)

module _ {ℓ} {A : Type ℓ} where
  pub not-Among-nil : {a : A} {xs : List A} → Among a xs → xs ≢ []
  not-Among-nil (here e) h = cc
  not-Among-nil (there m) h = cc

  pub Among-cons_inv : {a x : A} {xs ys : List A} → Among a ys → ys ≡ x ∷ xs → (a ≡ x) ⊎ Among a xs
  Among-cons_inv (here e) h = inl (ground arith)
  Among-cons_inv {a} (there m) h = inr (subst (Among a) (cons_tail h) m)
    where
      cons_tail : {x y : A} {xs ys : List A} → x ∷ xs ≡ y ∷ ys → xs ≡ ys
      cons_tail h = cc

  pub All-Among {κ} : (P : A → Type κ) {a : A} {xs : List A} → Among a xs → All P xs → P a
  All-Among P (here e) ps = subst P (sym e) ps.0
  All-Among P (there m) ps = All-Among P m ps.1

  pub Among-All {κ} : (P : A → Type κ) (xs : List A) → ((a : A) → Among a xs → P a) → All P xs
  Among-All P [] f = tt
  Among-All P (x ∷ xs) f = (f x (here refl), Among-All P xs (λ a m. f a (there m)))

module _ {ℓ} {A : Type ℓ} where
  pub Among-left : {a : A} {xs : List A} (ys : List A) → Among a xs → Among a (xs ++ ys)
  Among-left ys (here e) = here e
  Among-left ys (there m) = there (Among-left ys m)

  pub Among-right : {a : A} (xs : List A) {ys : List A} → Among a ys → Among a (xs ++ ys)
  Among-right [] m = m
  Among-right (x ∷ xs) m = there (Among-right xs m)

module _ {ℓ} {A : Type ℓ} (p : A → Bool) where
  Among-keep : {a : A} (xs : List A) → Among a (keep p xs) → Among a xs × (p a ≡ true)
  unfolding keep
  Among-keep [] m = absurd (not-Among-nil m refl)
  Among-keep {a = a} (x ∷ xs) m = elim (Bool-cases (p x)) [
    | inl e ↦ elim (Among-cons_inv m (rw (e, keep) refl)) [
      | inl g ↦ (here g, ap p g ∙ e)
      | inr m' ↦ let (n, h) = Among-keep xs m' in (there n, h)
    ]
    | inr e ↦ let (n, h) = Among-keep xs (rw (e, keep) at m) in (there n, h)
  ]

  keep-Among : {a : A} (xs : List A) → Among a xs → p a ≡ true → Among a (keep p xs)
  unfolding keep
  keep-Among [] m h = elim m [ ]
  keep-Among (x ∷ xs) (here g) h = let e : p x ≡ true = ap p (sym g) ∙ h in rw (e, keep) (here g)
  keep-Among (x ∷ xs) (there m) h = elim (Bool-cases (p x)) [
    | inl e ↦ rw (e, keep) (there (keep-Among xs m h))
    | inr e ↦ rw (e, keep) (keep-Among xs m h)
  ]

  -- What is kept of a list is what of it passes the test.
  pub Among-keep_iff : {a : A} (xs : List A) → Among a (keep p xs) ↔ (Among a xs × (p a ≡ true))
  Among-keep_iff xs = (Among-keep xs, λ (m, h). keep-Among xs m h)
