-- ===== src/Contracts/ReceivedSignal/Interval.antt =====
-- The interval of a received signal in exact arithmetic.
use ns3_bellhop_platform.Prelude.{
  ◌≡◌, sym, subst, inl, inr, Bool-cases, true, false, arith, some, List, [], ◌∷◌, All, Option-cases,
}
use ns3_bellhop_platform.Prelude.Int.{pos, ◌≤ℤ◌, ◌+ℤ◌}
use ns3_bellhop_platform.Contracts.Errors.{ok}
use ns3_bellhop_platform.Contracts.Time.{
  SimTime, SimDuration, InRange, zero_duration, checked_add, duration_lt,
}
use ns3_bellhop_platform.Contracts.Time.Exact.{checked_add_iff}
use ns3_bellhop_platform.Contracts.Doubles.{Double}
use ns3_bellhop_platform.Contracts.TxPhy.{TxEmission}
use ns3_bellhop_platform.Contracts.Channel.{PropagationPath, ChannelFieldResponse}
use ns3_bellhop_platform.Contracts.ReceivedSignal.{
  ReceivedSignal, create, latest_from, latest_excess_delay, first_arrival_at, last_effect_end_at,
}

module _ {W : Type 0} where
  -- The sums of `Create` exist, and `first_arrival_at` and `last_effect_end_at` read them.
  pub record IsTimed (s : ReceivedSignal W) : Type 0 where
    pub same_transmission : s.emission.transmission_id ≡ s.channel_response.transmission_id
    pub latest_path_start : SimTime
    pub arrives :
        checked_add s.emission.started_at s.channel_response.first_arrival_delay
        ≡ some (first_arrival_at s)
    pub starts : checked_add (first_arrival_at s) (latest_excess_delay s) ≡ some latest_path_start
    pub ends : checked_add latest_path_start s.emission.duration ≡ some (last_effect_end_at s)

  -- What the value types guarantee of the counts in an emission and a response.
  pub record IsCounted (e : TxEmission W) (r : ChannelFieldResponse W) : Type 0 where
    pub started_fits : InRange e.started_at.nanoseconds
    pub duration_fits : InRange e.duration.nanoseconds
    pub delay_fits : InRange r.first_arrival_delay.nanoseconds
    pub paths_fit : All (λ p. InRange p.excess_delay.nanoseconds) r.paths

  -- `out` is a value of `int64_t` that neither `latest` nor a path's excess delay exceeds.
  abbrev IsLatest : SimDuration → List (PropagationPath W) → SimDuration → Type 0
  IsLatest latest ps out =
      InRange out.nanoseconds
      × (latest.nanoseconds ≤ℤ out.nanoseconds)
      × All (λ p. p.excess_delay.nanoseconds ≤ℤ out.nanoseconds) ps

  latest_from_lem :
      (latest : SimDuration) (ps : List (PropagationPath W))
      → InRange latest.nanoseconds
      → All (λ p. InRange p.excess_delay.nanoseconds) ps
      → IsLatest latest ps (latest_from latest ps)
  unfolding latest_from
  latest_from_lem latest [] h hs = (h, omega arith, tt)
  latest_from_lem latest (p ∷ ps) h hs = elim (Bool-cases (duration_lt latest p.excess_delay)) [
    | inl e ↦
        subst (IsLatest latest (p ∷ ps)) (sym (later e))
          (extend e (latest_from_lem p.excess_delay ps hs.0 hs.1))
    | inr e ↦
        subst (IsLatest latest (p ∷ ps)) (sym (earlier e))
          (keep_latest e (latest_from_lem latest ps h hs.1))
  ]
    where
      later :
          duration_lt latest p.excess_delay ≡ true
          → latest_from latest (p ∷ ps) ≡ latest_from p.excess_delay ps
      later e = rw (e, latest_from)

      earlier :
          duration_lt latest p.excess_delay ≡ false
          → latest_from latest (p ∷ ps) ≡ latest_from latest ps
      earlier e = rw (e, latest_from)

      extend :
          duration_lt latest p.excess_delay ≡ true
          → IsLatest p.excess_delay ps (latest_from p.excess_delay ps)
          → IsLatest latest (p ∷ ps) (latest_from p.excess_delay ps)
      extend e (fits, le, all) = (fits, ground arith, (le, all))

      keep_latest :
          duration_lt latest p.excess_delay ≡ false
          → IsLatest latest ps (latest_from latest ps)
          → IsLatest latest (p ∷ ps) (latest_from latest ps)
      keep_latest e (fits, le, all) = (fits, le, (ground arith, all))

module _ {W : Type 0} ⦃d : Double W⦄ where
  -- A signal that `Create` returns holds the emission and the response given, and reads no empty
  -- optional.
  pub create-IsTimed :
      (e : TxEmission W) (r : ChannelFieldResponse W) (s : ReceivedSignal W)
      → create e r ≡ ok s
      → (s.emission ≡ e) × (s.channel_response ≡ r) × IsTimed s
  unfolding create first_arrival_at last_effect_end_at latest_excess_delay
  create-IsTimed e r s h = elim (Option-cases (checked_add e.started_at r.first_arrival_delay)) [
    | inl f ↦ absurd (ground arith)
    | inr (a, f) ↦ elim (Option-cases (checked_add a (latest_from zero_duration r.paths))) [
      | inl g ↦ absurd (ground arith)
      | inr (b, g) ↦ elim (Option-cases (checked_add b e.duration)) [
        | inl k ↦ absurd (ground arith)
        | inr (c, k) ↦ (
          ground arith,
          ground arith,
          record {
            same_transmission = ground arith;
            latest_path_start = b;
            arrives = ground arith;
            starts = ground arith;
            ends = ground arith;
          },
        )
      ]
    ]
  ]

module _ {W : Type 0} {s : ReceivedSignal W} (t : IsTimed s)
    (c : IsCounted s.emission s.channel_response) where
  -- The first arrival is the start of the emission plus the first arrival delay; the last effect
  -- ends after that by the latest excess delay and the duration. Both are values of `int64_t`, and
  -- no path has a later excess delay than the latest one, which is not negative.
  pub interval_exact :
      ((first_arrival_at s).nanoseconds
        ≡ s.emission.started_at.nanoseconds +ℤ s.channel_response.first_arrival_delay.nanoseconds)
      × ((last_effect_end_at s).nanoseconds
          ≡ (first_arrival_at s).nanoseconds
            +ℤ (latest_excess_delay s).nanoseconds
            +ℤ s.emission.duration.nanoseconds)
      × InRange (first_arrival_at s).nanoseconds
      × InRange (last_effect_end_at s).nanoseconds
      × (pos 0 ≤ℤ (latest_excess_delay s).nanoseconds)
      × All
          (λ p. p.excess_delay.nanoseconds ≤ℤ (latest_excess_delay s).nanoseconds)
          s.channel_response.paths
  unfolding latest_excess_delay
  interval_exact =
      let (latest_fits, latest_pos, latest_max) =
        latest_from_lem zero_duration s.channel_response.paths (omega arith) c.paths_fit in
      let (first_fits, first) = (checked_add_iff _ _ _ c.started_fits c.delay_fits).0 t.arrives in
      let (start_fits, start) = (checked_add_iff _ _ _ first_fits latest_fits).0 t.starts in
      let (end_fits, last) = (checked_add_iff _ _ _ start_fits c.duration_fits).0 t.ends in
      (first, rw (last, start), first_fits, end_fits, latest_pos, latest_max)
