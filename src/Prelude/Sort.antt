-- ===== src/Prelude/Sort.antt =====
-- `std::sort` by a comparison function, as insertion. Where no two elements are equivalent under
-- the comparison, the ascending arrangement is unique and `std::sort` has this result too.
use mathlib.Core.Path.{◌≡◌, refl}
use mathlib.Core.Bool.{Bool, true, false}
use mathlib.Core.Logic.{inl, inr}
use mathlib.Core.List.{List, [], ◌∷◌, Perm}
use mathlib.Core.List.Perm
use ns3_bellhop_platform.Prelude.Tests.{if◌then◌else◌, Bool-cases}
use ns3_bellhop_platform.Prelude.Lists.{All, Pairwise}

module _ {ℓ} {A : Type ℓ} (less : A → A → Bool) where
  unfoldable pub insert_by : A → List A → List A
  insert_by x [] = x ∷ []
  insert_by x (y ∷ ys) = if less y x then y ∷ insert_by x ys else x ∷ y ∷ ys

  unfoldable pub sort_by : List A → List A
  unfolding insert_by
  sort_by [] = []
  sort_by (x ∷ xs) = insert_by x (sort_by xs)

  -- The order that a sorted range is in: a later element is never less than an earlier one.
  abbrev pub NotAfter : A → A → Type 0
  NotAfter x y = less y x ≡ false

  pub insert_by-All {κ} :
      (P : A → Type κ) (x : A) (ys : List A) → P x → All P ys → All P (insert_by x ys)
  unfolding insert_by
  insert_by-All P x [] p ps = (p, tt)
  insert_by-All P x (y ∷ ys) p ps = elim (Bool-cases (less y x)) [
    | inl e ↦ rw e (ps.0, insert_by-All P x ys p ps.1)
    | inr e ↦ rw e (p, ps)
  ]

  pub sort_by-All {κ} : (P : A → Type κ) (xs : List A) → All P xs → All P (sort_by xs)
  unfolding sort_by
  sort_by-All P [] ps = tt
  sort_by-All P (x ∷ xs) ps = insert_by-All P x (sort_by xs) ps.0 (sort_by-All P xs ps.1)

  insert_by-perm : (x : A) (ys : List A) → Perm (insert_by x ys) (x ∷ ys)
  unfolding insert_by
  insert_by-perm x [] = Perm.refl (x ∷ [])
  insert_by-perm x (y ∷ ys) = elim (Bool-cases (less y x)) [
    | inl e ↦ rw e (Perm.trans (Perm.cons y (insert_by-perm x ys)) (Perm.swap x y ys))
    | inr e ↦ rw e (Perm.refl (x ∷ y ∷ ys))
  ]

  pub sort_by-perm : (xs : List A) → Perm (sort_by xs) xs
  unfolding sort_by
  sort_by-perm [] = Perm.refl []
  sort_by-perm (x ∷ xs) = Perm.trans (insert_by-perm x (sort_by xs)) (Perm.cons x (sort_by-perm xs))

  -- A range in order is left alone.
  pub sort_by_id : (xs : List A) → Pairwise NotAfter xs → sort_by xs ≡ xs
  unfolding sort_by insert_by
  sort_by_id [] s = refl
  sort_by_id (x ∷ []) s = refl
  sort_by_id (x ∷ y ∷ ys) s = rw (sort_by_id (y ∷ ys) s.1, insert_by) (rw s.0.0)

  -- Sorting keeps a symmetric relation between all pairs.
  module _ {κ} (R : A → A → Type κ) (sym_R : (x y : A) → R x y → R y x) where
    insert_by-Pairwise :
        (x : A) (ys : List A) → All (R x) ys → Pairwise R ys → Pairwise R (insert_by x ys)
    unfolding insert_by
    insert_by-Pairwise x [] h r = (tt, tt)
    insert_by-Pairwise x (y ∷ ys) h r = elim (Bool-cases (less y x)) [
      | inl e ↦ rw e (insert_by-All (R y) x ys (sym_R x y h.0) r.0, insert_by-Pairwise x ys h.1 r.1)
      | inr e ↦ rw e (h, r)
    ]

    pub sort_by-Pairwise : (xs : List A) → Pairwise R xs → Pairwise R (sort_by xs)
    unfolding sort_by
    sort_by-Pairwise [] r = tt
    sort_by-Pairwise (x ∷ xs) r =
        insert_by-Pairwise x (sort_by xs) (sort_by-All (R x) xs r.0) (sort_by-Pairwise xs r.1)

  -- What C++ asks of a comparison, on the elements that satisfy `P`.
  pub record IsOrder {κ} (P : A → Type κ) : Type (ℓ ⊔ κ) where
    pub asym : (x y : A) → P x → P y → less x y ≡ true → less y x ≡ false
    pub negtrans :
        (x y z : A) → P x → P y → P z → less y x ≡ false → less z y ≡ false → less z x ≡ false

  module _ {κ} {P : A → Type κ} (o : IsOrder P) where
    insert_by-sorted :
        (x : A) (ys : List A)
        → P x
        → All P ys
        → Pairwise NotAfter ys
        → Pairwise NotAfter (insert_by x ys)
    unfolding insert_by
    insert_by-sorted x [] p ps s = (tt, tt)
    insert_by-sorted x (y ∷ ys) p ps s = elim (Bool-cases (less y x)) [
      | inl e ↦
          rw e (insert_by-All _ x ys (o.asym y x ps.0 p e) s.0, insert_by-sorted x ys p ps.1 s.1)
      | inr e ↦ rw e ((e, below ys ps.1 s.0 e), s)
    ]
      where
        below :
            (zs : List A) → All P zs → All (NotAfter y) zs → less y x ≡ false → All (NotAfter x) zs
        below [] qs h e = tt
        below (z ∷ zs) qs h e = (o.negtrans x y z p ps.0 qs.0 e h.0, below zs qs.1 h.1 e)

    -- The result is in order.
    pub sort_by-sorted : (xs : List A) → All P xs → Pairwise NotAfter (sort_by xs)
    unfolding sort_by
    sort_by-sorted [] ps = tt
    sort_by-sorted (x ∷ xs) ps =
        insert_by-sorted x (sort_by xs) ps.0 (sort_by-All P xs ps.1) (sort_by-sorted xs ps.1)
