-- ===== src/Contracts/ReceivedSignal/Overlap.antt =====
-- When two signals overlap in time and in the band.
use ns3_bellhop_platform.Prelude.{◌≡◌, ◌↔◌, inl, inr, Bool-cases, true, arith}
use ns3_bellhop_platform.Prelude.Int.{◌≤ℤ◌, ◌<ℤ◌}
use ns3_bellhop_platform.Contracts.Time.{SimTime, time_lt}
use ns3_bellhop_platform.Contracts.Doubles.{Double, IsIeee}
use ns3_bellhop_platform.Contracts.ReceivedSignal.{
  ReceivedSignal, first_arrival_at, last_effect_end_at, lower_frequency_hz, upper_frequency_hz,
  has_temporal_overlap, has_spectral_overlap,
}

module _ {W : Type 0} where
  -- The signal is at the receiver at this time: its interval is half open.
  abbrev pub Covers : ReceivedSignal W → SimTime → Type 0
  Covers s t =
      ((first_arrival_at s).nanoseconds ≤ℤ t.nanoseconds)
      × (t.nanoseconds <ℤ (last_effect_end_at s).nanoseconds)

module _ {W : Type 0} ⦃d : Double W⦄ where
  -- Two signals overlap in time exactly when some time lies in the half-open interval of each.
  pub has_temporal_overlap_iff :
      (a b : ReceivedSignal W)
      → (has_temporal_overlap a b ≡ true) ↔ ((t : SimTime) × Covers a t × Covers b t)
  unfolding has_temporal_overlap
  has_temporal_overlap_iff a b = (
    λ h. elim (Bool-cases (time_lt (first_arrival_at a) (first_arrival_at b))) [
      | inl e ↦ (first_arrival_at b, ground arith, ground arith)
      | inr e ↦ (first_arrival_at a, ground arith, ground arith)
    ],
    λ (t, ca, cb). ground arith,
  )

  -- The edges of the band are finite, as `Create` checks.
  pub record HasFiniteBand (s : ReceivedSignal W) : Type 0 where
    pub lower_finite : d.is_finite (lower_frequency_hz s) ≡ true
    pub upper_finite : d.is_finite (upper_frequency_hz s) ≡ true

  module _ (laws : IsIeee W) where
    open laws use {lt_asym, lt_trans, lt_eq, eq_lt, eq_sym, lt_total}

    -- Two finite bands overlap exactly when each begins below the end of each.
    pub has_spectral_overlap_iff :
        (a b : ReceivedSignal W)
        → HasFiniteBand a
        → HasFiniteBand b
        → (has_spectral_overlap a b ≡ true)
          ↔ (d.lt (lower_frequency_hz a) (upper_frequency_hz a) ≡ true)
            × (d.lt (lower_frequency_hz a) (upper_frequency_hz b) ≡ true)
            × (d.lt (lower_frequency_hz b) (upper_frequency_hz a) ≡ true)
            × (d.lt (lower_frequency_hz b) (upper_frequency_hz b) ≡ true)
    unfolding has_spectral_overlap
    has_spectral_overlap_iff a b fa fb =
        let la : W = lower_frequency_hz a in
        let lb : W = lower_frequency_hz b in
        let ua : W = upper_frequency_hz a in
        let ub : W = upper_frequency_hz b in
        (grind (arith, lt_asym, lt_trans, lt_eq, eq_lt, eq_sym, lt_total), ground arith)
