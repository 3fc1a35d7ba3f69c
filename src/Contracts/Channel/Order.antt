-- ===== src/Contracts/Channel/Order.antt =====
-- The order of propagation paths.
use ns3_bellhop_platform.Prelude.{
  ◌≡◌, refl, true, false, arith, ◌⊎◌, inl, inr, IsOrder, IsField, field-IsOrder, lexical-IsOrder,
  lexical_cases, IsComparable, Bool, Bool-cases, if◌then◌else◌, not,
}
use ns3_bellhop_platform.Prelude.Int.{pos, ◌≤ℤ◌}
use ns3_bellhop_platform.Contracts.Errors.{ok}
use ns3_bellhop_platform.Contracts.Time.{duration_eq, duration_lt}
use ns3_bellhop_platform.Contracts.Doubles.{Double, IsIeee}
use ns3_bellhop_platform.Contracts.Channel.{PropagationPath, create_path, path_less, path_eq}

module _ {W : Type 0} ⦃d : Double W⦄ where
  -- A path as `PropagationPath::Create` makes it.
  pub record IsPath (p : PropagationPath W) : Type 0 where
    pub delay_not_negative : pos 0 ≤ℤ p.excess_delay.nanoseconds
    pub gain_not_negative : d.lt p.pressure_gain_linear (d.of_int (pos 0)) ≡ false
    pub gain_finite : d.is_finite p.pressure_gain_linear ≡ true
    pub phase_finite : d.is_finite p.phase_radians ≡ true

  -- What `PropagationPath::Create` returns is the path given.
  pub create_path-IsPath : (p q : PropagationPath W) → create_path p ≡ ok q → (q ≡ p) × IsPath q
  unfolding create_path
  create_path-IsPath p q h = (
    ground arith,
    record {
      delay_not_negative = ground arith;
      gain_not_negative = ground arith;
      gain_finite = ground arith;
      phase_finite = ground arith;
    },
  )

  abbrev phase_less : PropagationPath W → PropagationPath W → Bool
  phase_less p q = d.lt p.phase_radians q.phase_radians

  -- The comparison of two paths of one excess delay.
  abbrev gain_less : PropagationPath W → PropagationPath W → Bool
  gain_less p q =
      if not (d.eq p.pressure_gain_linear q.pressure_gain_linear)
      then d.lt p.pressure_gain_linear q.pressure_gain_linear
      else phase_less p q

  excess-IsField :
      IsField IsPath
        (λ p q. duration_eq p.excess_delay q.excess_delay)
        (λ p q. duration_lt p.excess_delay q.excess_delay)
  excess-IsField = record {
    eq_sym = λ x y h. ground arith;
    lt_asym = λ x y h. ground arith;
    lt_trans = λ x y z h k. ground arith;
    lt-ne = λ x y h. ground arith;
    lt_eq = λ x y z h k. ground arith;
    eq_lt = λ x y z h k. ground arith;
    lt_total = λ x y _ _ h k. ground arith;
  }

  module _ (laws : IsIeee W) where
    gain-IsField :
        IsField IsPath
          (λ p q. d.eq p.pressure_gain_linear q.pressure_gain_linear)
          (λ p q. d.lt p.pressure_gain_linear q.pressure_gain_linear)
    gain-IsField = record {
      eq_sym = λ x y. laws.eq_sym _ _;
      lt_asym = λ x y. laws.lt_asym _ _;
      lt_trans = λ x y z. laws.lt_trans _ _ _;
      lt-ne = λ x y. laws.lt-ne _ _;
      lt_eq = λ x y z. laws.lt_eq _ _ _;
      eq_lt = λ x y z. laws.eq_lt _ _ _;
      lt_total = λ x y p q. laws.lt_total _ _ p.gain_finite q.gain_finite;
    }

    phase-IsField :
        IsField IsPath
          (λ p q. d.eq p.phase_radians q.phase_radians)
          (λ p q. d.lt p.phase_radians q.phase_radians)
    phase-IsField = record {
      eq_sym = λ x y. laws.eq_sym _ _;
      lt_asym = λ x y. laws.lt_asym _ _;
      lt_trans = λ x y z. laws.lt_trans _ _ _;
      lt-ne = λ x y. laws.lt-ne _ _;
      lt_eq = λ x y z. laws.lt_eq _ _ _;
      eq_lt = λ x y z. laws.eq_lt _ _ _;
      lt_total = λ x y p q. laws.lt_total _ _ p.phase_finite q.phase_finite;
    }

    pub path_less-IsOrder : IsOrder path_less IsPath
    unfolding path_less
    path_less-IsOrder =
        lexical-IsOrder excess-IsField gain_less
          (lexical-IsOrder gain-IsField phase_less (field-IsOrder phase-IsField))

    -- Of two paths one goes first, unless `==` holds of them.
    path_less_cases :
        (p q : PropagationPath W)
        → IsPath p
        → IsPath q
        → (path_less p q ≡ true) ⊎ (path_less q p ≡ true) ⊎ (path_eq p q ≡ true)
    unfolding path_less
    path_less_cases p q v w = elim (lexical_cases excess-IsField gain_less p q v w) [
      | inl h ↦ inl h
      | inr (inl h) ↦ inr (inl h)
      | inr (inr (e, h, k)) ↦ elim (lexical_cases gain-IsField phase_less p q v w) [
        | inl g ↦ cc (h, g)
        | inr (inl g) ↦ cc (k, g)
        | inr (inr (f, h', k')) ↦ elim (Bool-cases (d.eq p.phase_radians q.phase_radians)) [
          | inl g ↦ inr (inr (rw (e, f, g) refl))
          | inr g ↦ cc (k', laws.lt_total _ _ v.phase_finite w.phase_finite h' g)
        ]
      ]
    ]

    pub path-IsComparable :
        (p q : PropagationPath W)
        → IsPath p
        → IsPath q
        → (path_eq p q ≡ true → p ≡ q)
        → IsComparable path_less p q
    path-IsComparable p q v w u = elim (path_less_cases p q v w) [
      | inl h ↦ inl h
      | inr (inl h) ↦ inr (inl h)
      | inr (inr h) ↦ inr (inr (u h))
    ]
