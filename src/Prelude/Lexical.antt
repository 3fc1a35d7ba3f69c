-- ===== src/Prelude/Lexical.antt =====
-- A comparison by a first field and then by the rest.
use mathlib.Core.Path.{◌≡◌}
use mathlib.Core.Bool.{Bool, true, false, not}
use mathlib.Core.Logic.{◌⊎◌, inl, inr}
use native.Mathlib.Omega.{arith}
use ns3_bellhop_platform.Prelude.Tests.{if◌then◌else◌, Bool-cases}
use ns3_bellhop_platform.Prelude.Sort.{IsOrder}

-- Equality and order of the first field, on the elements that satisfy `P`.
pub record IsField {ℓ κ} {A : Type ℓ} (P : A → Type κ) (eq lt : A → A → Bool) : Type (ℓ ⊔ κ) where
  pub eq_sym : (x y : A) → eq x y ≡ true → eq y x ≡ true
  pub lt_asym : (x y : A) → lt x y ≡ true → lt y x ≡ false
  pub lt_trans : (x y z : A) → lt x y ≡ true → lt y z ≡ true → lt x z ≡ true
  pub lt-ne : (x y : A) → lt x y ≡ true → eq x y ≡ false
  pub lt_eq : (x y z : A) → lt x y ≡ true → eq y z ≡ true → lt x z ≡ true
  pub eq_lt : (x y z : A) → eq x y ≡ true → lt y z ≡ true → lt x z ≡ true
  pub lt_total : (x y : A) → P x → P y → lt x y ≡ false → eq x y ≡ false → lt y x ≡ true

module _ {ℓ κ} {A : Type ℓ} {P : A → Type κ} {eq lt : A → A → Bool} (f : IsField P eq lt) where
  field_negtrans : (x y z : A) → P x → P y → P z → lt y x ≡ false → lt z y ≡ false → lt z x ≡ false
  field_negtrans x y z p q r h k = elim (Bool-cases (lt z x)) [
    | inr e ↦ e
    | inl e ↦ elim (Bool-cases (eq y x)) [
      | inl g ↦ cc (k, f.lt_eq z x y e (f.eq_sym y x g))
      | inr g ↦ cc (k, f.lt_trans z x y e (f.lt_total y x q p h g))
    ]
  ]

  -- The order of the field alone.
  pub field-IsOrder : IsOrder lt P
  field-IsOrder = record { asym = λ x y _ _ h. f.lt_asym x y h; negtrans = field_negtrans }

module _ {ℓ κ} {A : Type ℓ} {P : A → Type κ} {eq lt : A → A → Bool} (f : IsField P eq lt)
    (rest : A → A → Bool) where
  abbrev pub lexical : A → A → Bool
  lexical x y = if not (eq x y) then lt x y else rest x y

  -- Not above: less in the field, or equal in it and not above in the rest.
  below_cases :
      (x y : A)
      → P x
      → P y
      → lexical y x ≡ false
      → (lt x y ≡ true) ⊎ (eq x y ≡ true) × (rest y x ≡ false)
  below_cases x y p q h = elim (Bool-cases (eq y x)) [
    | inl e ↦ inr (f.eq_sym y x e, ground arith)
    | inr e ↦ inl (f.lt_total y x q p (ground arith) e)
  ]

  ne_of_lt : (x y : A) → lt x y ≡ true → eq y x ≡ false
  ne_of_lt x y h = elim (Bool-cases (eq y x)) [
    | inl e ↦ cc (f.lt-ne x y h, f.eq_sym y x e)
    | inr e ↦ e
  ]

  below_less : (x y : A) → lt x y ≡ true → lexical y x ≡ false
  below_less x y h = rw (ne_of_lt x y h) (f.lt_asym x y h)

  below_rest : (x y : A) → eq x y ≡ true → rest y x ≡ false → lexical y x ≡ false
  below_rest x y e h = rw (f.eq_sym x y e) h

  eq_trans : (x y z : A) → P x → P z → eq x y ≡ true → eq y z ≡ true → eq x z ≡ true
  eq_trans x y z p q e g = elim (Bool-cases (eq x z)) [
    | inl h ↦ h
    | inr h ↦ elim (Bool-cases (lt x z)) [
      | inl k ↦ cc (e, f.lt-ne x y (f.lt_eq x z y k (f.eq_sym y z g)))
      | inr k ↦ cc (f.lt-ne y x (f.eq_lt y z x g (f.lt_total x z p q k h)), f.eq_sym x y e)
    ]
  ]

  lexical_asym : IsOrder rest P → (x y : A) → P x → P y → lexical x y ≡ true → lexical y x ≡ false
  lexical_asym o x y p q h = elim (Bool-cases (eq x y)) [
    | inl e ↦ below_rest x y e (o.asym x y p q (ground arith))
    | inr e ↦ below_less x y (ground arith)
  ]

  lexical_negtrans :
      IsOrder rest P
      → (x y z : A) → P x
      → P y
      → P z
      → lexical y x ≡ false
      → lexical z y ≡ false
      → lexical z x ≡ false
  lexical_negtrans o x y z p q r h k = elim (below_cases x y p q h) [
    | inl a ↦ elim (below_cases y z q r k) [
      | inl b ↦ below_less x z (f.lt_trans x y z a b)
      | inr (b, _) ↦ below_less x z (f.lt_eq x y z a b)
    ]
    | inr (a, c) ↦ elim (below_cases y z q r k) [
      | inl b ↦ below_less x z (f.eq_lt x y z a b)
      | inr (b, e) ↦ below_rest x z (eq_trans x y z p r a b) (o.negtrans x y z p q r c e)
    ]
  ]

  -- What C++ asks of a comparison holds of this one when it holds of the rest.
  pub lexical-IsOrder : IsOrder rest P → IsOrder lexical P
  lexical-IsOrder o = record { asym = lexical_asym o; negtrans = lexical_negtrans o }

  -- Two elements between which neither decides are equal in the field and in the rest.
  pub lexical_cases :
      (x y : A)
      → P x
      → P y
      → (lexical x y ≡ true)
        ⊎ (lexical y x ≡ true)
        ⊎ (eq x y ≡ true) × (rest x y ≡ false) × (rest y x ≡ false)
  lexical_cases x y p q = elim (Bool-cases (eq x y)) [
    | inl e ↦ ground (arith, f.eq_sym x y e)
    | inr e ↦ elim (Bool-cases (lt x y)) [
      | inl h ↦ inl (rw e h)
      | inr h ↦ let k = f.lt_total x y p q h e in inr (inl (rw (f.lt-ne y x k) k))
    ]
  ]
