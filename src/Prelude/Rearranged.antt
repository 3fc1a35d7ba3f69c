-- ===== src/Prelude/Rearranged.antt =====
-- Sorting forgets the order of its input where the comparison decides between any two elements:
-- what makes a result independent of the order in which a container or a caller gives its parts.
use mathlib.Core.Path.{◌≡◌, refl, sym, ap, ap₂, subst, ◌∙◌}
use mathlib.Core.Bool.{Bool, true, false, ◌||◌}
use mathlib.Core.Logic.{◌⊎◌, inl, inr}
use mathlib.Core.List.{List, [], ◌∷◌, ◌++◌, Permᴰ}
use mathlib.Core.List.Permᴰ
use native.Mathlib.Omega.{arith}
use ns3_bellhop_platform.Prelude.Tests.{Bool-cases}
use ns3_bellhop_platform.Prelude.Lists.{All, Pairwise, any}
use ns3_bellhop_platform.Prelude.Ranges.{Among, here, there}
use ns3_bellhop_platform.Prelude.Sort.{
  insert_by, sort_by, sort_by_id, sort_by-All, NotAfter, IsOrder,
}

module _ {ℓ} {A : Type ℓ} where
  -- What holds of every element holds of every element of a rearrangement.
  pub All-permᴰ {κ} : (P : A → Type κ) {xs ys : List A} → Permᴰ xs ys → All P xs → All P ys
  All-permᴰ P Permᴰ.nil ps = tt
  All-permᴰ P (Permᴰ.cons e p) ps = (subst P e ps.0, All-permᴰ P p ps.1)
  All-permᴰ P (Permᴰ.swap e f) ps = (subst P f ps.1.0, (subst P e ps.0, ps.1.1))
  All-permᴰ P (Permᴰ.trans p q) ps = All-permᴰ P q (All-permᴰ P p ps)

  pub any-permᴰ : (p : A → Bool) {xs ys : List A} → Permᴰ xs ys → any p xs ≡ any p ys
  unfolding any
  any-permᴰ p Permᴰ.nil = refl
  any-permᴰ p (Permᴰ.cons e h) = ap₂ (λ x b. p x || b) e (any-permᴰ p h)
  any-permᴰ p (Permᴰ.swap {a = a} {b = b} {l = l} e f) = ground (arith, ap p e, ap p f)
  any-permᴰ p (Permᴰ.trans h k) = any-permᴰ p h ∙ any-permᴰ p k

  -- A rearrangement has the same elements.
  pub Among-permᴰ : {a : A} {xs ys : List A} → Permᴰ xs ys → Among a xs → Among a ys
  Among-permᴰ Permᴰ.nil m = elim m [ ]
  Among-permᴰ (Permᴰ.cons e p) (here h) = here (h ∙ e)
  Among-permᴰ (Permᴰ.cons e p) (there m) = there (Among-permᴰ p m)
  Among-permᴰ (Permᴰ.swap e f) (here h) = there (here (h ∙ e))
  Among-permᴰ (Permᴰ.swap e f) (there (here h)) = here (h ∙ f)
  Among-permᴰ (Permᴰ.swap e f) (there (there m)) = there (there m)
  Among-permᴰ (Permᴰ.trans p q) m = Among-permᴰ q (Among-permᴰ p m)

  module _ {κ} (R : A → A → Type κ) (sym_R : (x y : A) → R x y → R y x) where
    -- A symmetric relation between all pairs does not depend on the order.
    pub Pairwise-permᴰ : {xs ys : List A} → Permᴰ xs ys → Pairwise R xs → Pairwise R ys
    Pairwise-permᴰ Permᴰ.nil r = tt
    Pairwise-permᴰ (Permᴰ.cons {l₂ = ys} e p) r =
        (subst (λ z. All (R z) ys) e (All-permᴰ (R _) p r.0), Pairwise-permᴰ p r.1)
    Pairwise-permᴰ (Permᴰ.swap {a = a} {b = b} {b' = b'} {l = l} e f) r = (
      (subst (λ z. R z b') f (subst (R b) e (sym_R a b r.0.0)), subst (λ z. All (R z) l) f r.1.0),
      (subst (λ z. All (R z) l) e r.0.1, r.1.1),
    )
    Pairwise-permᴰ (Permᴰ.trans p q) r = Pairwise-permᴰ q (Pairwise-permᴰ p r)

  snoc-snoc_swap :
      (xs : List A) (a b : A) → Permᴰ ((xs ++ a ∷ []) ++ b ∷ []) ((xs ++ b ∷ []) ++ a ∷ [])
  snoc-snoc_swap [] a b = Permᴰ.swap refl refl
  snoc-snoc_swap (x ∷ xs) a b = Permᴰ.cons refl (snoc-snoc_swap xs a b)

module _ {ℓ} {A : Type ℓ} (less : A → A → Bool) where
  insert_by-arranges : (x : A) (ys : List A) → Permᴰ (insert_by less x ys) (x ∷ ys)
  unfolding insert_by
  insert_by-arranges x [] = Permᴰ.refl (x ∷ [])
  insert_by-arranges x (y ∷ ys) = elim (Bool-cases (less y x)) [
    | inl e ↦ rw e (Permᴰ.trans (Permᴰ.cons refl (insert_by-arranges x ys)) (Permᴰ.swap refl refl))
    | inr e ↦ rw e (Permᴰ.refl (x ∷ y ∷ ys))
  ]

  -- The sorted range is a rearrangement.
  pub sort_by-arranges : (xs : List A) → Permᴰ (sort_by less xs) xs
  unfolding sort_by
  sort_by-arranges [] = Permᴰ.refl []
  sort_by-arranges (x ∷ xs) =
      Permᴰ.trans (insert_by-arranges x (sort_by less xs)) (Permᴰ.cons refl (sort_by-arranges xs))

  -- The comparison puts one of the two first, or they are the same.
  abbrev pub IsComparable : A → A → Type ℓ
  IsComparable x y = (less x y ≡ true) ⊎ (less y x ≡ true) ⊎ (x ≡ y)

  pub IsComparable-sym : (x y : A) → IsComparable x y → IsComparable y x
  IsComparable-sym x y (inl e) = inr (inl e)
  IsComparable-sym x y (inr (inl e)) = inl e
  IsComparable-sym x y (inr (inr e)) = inr (inr (sym e))

  insert_by-above :
      (x y : A) (ys : List A)
      → less y x ≡ true
      → insert_by less x (y ∷ ys) ≡ y ∷ insert_by less x ys
  unfolding insert_by
  insert_by-above x y ys e = rw e refl

  insert_by-below :
      (x y : A) (ys : List A) → less y x ≡ false → insert_by less x (y ∷ ys) ≡ x ∷ y ∷ ys
  unfolding insert_by
  insert_by-below x y ys e = rw e refl

  module _ {κ} {P : A → Type κ} (o : IsOrder less P) where
    -- An element that belongs before another is inserted before it, whichever comes first.
    insert_by-comm_less :
        (x y : A) (zs : List A)
        → P x
        → P y
        → All P zs
        → less x y ≡ true
        → insert_by less x (insert_by less y zs) ≡ insert_by less y (insert_by less x zs)
    unfolding insert_by
    insert_by-comm_less x y [] p q ps e = rw (e, o.asym x y p q e) refl
    insert_by-comm_less x y (z ∷ zs) p q ps e = elim (Bool-cases (less z x)) [
      | inl f ↦ elim (Bool-cases (less z y)) [
        | inl g ↦ cc (
          insert_by-above x z zs f,
          insert_by-above y z zs g,
          insert_by-above x z (insert_by less y zs) f,
          insert_by-above y z (insert_by less x zs) g,
          insert_by-comm_less x y zs p q ps.1 e,
        )
        | inr g ↦ cc (f, o.negtrans x y z p q ps.0 (o.asym x y p q e) g)
      ]
      | inr f ↦ elim (Bool-cases (less z y)) [
        | inl g ↦ cc (
          insert_by-below x z zs f,
          insert_by-above y z zs g,
          insert_by-below x z (insert_by less y zs) f,
          insert_by-above y x (z ∷ zs) e,
        )
        | inr g ↦ cc (
          insert_by-below x z zs f,
          insert_by-below y z zs g,
          insert_by-below x y (z ∷ zs) (o.asym x y p q e),
          insert_by-above y x (z ∷ zs) e,
        )
      ]
    ]

    insert_by_comm :
        (x y : A) (zs : List A)
        → P x
        → P y
        → All P zs
        → IsComparable x y
        → insert_by less x (insert_by less y zs) ≡ insert_by less y (insert_by less x zs)
    insert_by_comm x y zs p q ps (inl e) = insert_by-comm_less x y zs p q ps e
    insert_by_comm x y zs p q ps (inr (inl e)) = sym (insert_by-comm_less y x zs q p ps e)
    insert_by_comm x y zs p q ps (inr (inr e)) = cc

    -- Any rearrangement has the same sorted range, where the comparison decides between any two.
    pub sort_by-permᴰ :
        {xs ys : List A}
        → Permᴰ xs ys
        → All P xs
        → Pairwise IsComparable xs
        → sort_by less xs ≡ sort_by less ys
    unfolding sort_by
    sort_by-permᴰ Permᴰ.nil ps r = refl
    sort_by-permᴰ (Permᴰ.cons e h) ps r = ap₂ (insert_by less) e (sort_by-permᴰ h ps.1 r.1)
    sort_by-permᴰ (Permᴰ.swap {a = a} {b = b} {l = l} e f) ps r =
        insert_by_comm a b (sort_by less l) ps.0 ps.1.0 (sort_by-All less P l ps.1.1) r.0.0
        ∙ ap₂ (λ u v. insert_by less u (insert_by less v (sort_by less l))) f e
    sort_by-permᴰ (Permᴰ.trans h k) ps r =
        sort_by-permᴰ h ps r
        ∙ sort_by-permᴰ k (All-permᴰ P h ps) (Pairwise-permᴰ IsComparable IsComparable-sym h r)

    -- A rearrangement that is in order is the sorted range: `std::sort`, by whatever algorithm, has
    -- this result.
    pub sort_by_unique :
        {xs ys : List A}
        → Permᴰ ys xs
        → All P ys
        → Pairwise IsComparable ys
        → Pairwise (NotAfter less) ys
        → ys ≡ sort_by less xs
    sort_by_unique {ys = ys} h ps r s = sym (sort_by_id less ys s) ∙ sort_by-permᴰ h ps r

    -- Two elements appended to a sorted range, which is sorted again after each, in the two orders.
    pub sort_by-snoc_comm :
        (xs : List A) (a b : A)
        → All P ((xs ++ a ∷ []) ++ b ∷ [])
        → Pairwise IsComparable ((xs ++ a ∷ []) ++ b ∷ [])
        → sort_by less (sort_by less (xs ++ a ∷ []) ++ b ∷ [])
          ≡ sort_by less (sort_by less (xs ++ b ∷ []) ++ a ∷ [])
    sort_by-snoc_comm xs a b ps r =
        let to = Permᴰ.append_right (b ∷ []) (Permᴰ.symm (sort_by-arranges (xs ++ a ∷ []))) in
        let from = Permᴰ.append_right (a ∷ []) (Permᴰ.symm (sort_by-arranges (xs ++ b ∷ []))) in
        sym (sort_by-permᴰ to ps r) ∙ sort_by-permᴰ (Permᴰ.trans (snoc-snoc_swap xs a b) from) ps r

    -- A range sorted after every element that is appended is sorted as a whole.
    pub sort_by-sort_by_append :
        (xs ys : List A)
        → All P (xs ++ ys)
        → Pairwise IsComparable (xs ++ ys)
        → sort_by less (sort_by less xs ++ ys) ≡ sort_by less (xs ++ ys)
    sort_by-sort_by_append xs ys ps r =
        let p = Permᴰ.append_right ys (Permᴰ.symm (sort_by-arranges xs)) in
        sym (sort_by-permᴰ p ps r)
