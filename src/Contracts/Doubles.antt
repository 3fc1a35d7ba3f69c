-- ===== src/Contracts/Doubles.antt =====
-- What the headers do with a `double`: the arithmetic, comparisons and classification of the
-- platform's floating point, which is a parameter of the model.
use ns3_bellhop_platform.Prelude.{Bool, true, false, ◌≡◌}
use ns3_bellhop_platform.Prelude.Int.{ℤ}

pub record Double {ℓ} (W : Type ℓ) : Type ℓ where
  -- `static_cast<double>` of an integer, and the value of a literal such as 2.0.
  pub of_int : ℤ → W
  pub add : W → W → W
  pub sub : W → W → W
  pub mul : W → W → W
  pub div : W → W → W
  pub lt : W → W → Bool
  pub le : W → W → Bool
  pub eq : W → W → Bool
  pub is_finite : W → Bool

-- Comparisons of IEEE 754 values: `<` is transitive; on finite values it leaves exactly one of
-- less, equal, greater, `<=` is "less or equal", and `==` agrees with the comparisons.
pub record IsIeee {ℓ} (W : Type ℓ) ⦃d : Double W⦄ : Type ℓ where
  pub lt_asym : (x y : W) → d.lt x y ≡ true → d.lt y x ≡ false
  pub lt_trans : (x y z : W) → d.lt x y ≡ true → d.lt y z ≡ true → d.lt x z ≡ true
  pub lt-ne : (x y : W) → d.lt x y ≡ true → d.eq x y ≡ false
  pub eq_refl : (x : W) → d.is_finite x ≡ true → d.eq x x ≡ true
  pub eq_sym : (x y : W) → d.eq x y ≡ true → d.eq y x ≡ true
  pub lt_eq : (x y z : W) → d.lt x y ≡ true → d.eq y z ≡ true → d.lt x z ≡ true
  pub eq_lt : (x y z : W) → d.eq x y ≡ true → d.lt y z ≡ true → d.lt x z ≡ true
  pub lt_total :
      (x y : W)
      → d.is_finite x ≡ true
      → d.is_finite y ≡ true
      → d.lt x y ≡ false
      → d.eq x y ≡ false
      → d.lt y x ≡ true
