-- ===== src/Kernel/Gateway/Exact.antt =====
-- What the guards of the conversions are worth on any ns-3, and in nanosecond resolution: the
-- conversions lose nothing, and an event is scheduled after exactly the time that is left.
use ns3_bellhop_platform.Prelude.{◌≡◌, ◌≢◌, ◌↔◌, refl, sym, ap, subst, ◌∙◌, inl, inr, true, arith}
use ns3_bellhop_platform.Prelude.Int.{◌-ℤ◌, ◌≤ℤ◌, eqb_ℤ_iff}
use ns3_bellhop_platform.Contracts.Errors.{Error, Result, ok, err, ok-injective, Result-cases}
use ns3_bellhop_platform.Contracts.Time.{SimTime, SimDuration, InRange, time, duration, time_lt}
use ns3_bellhop_platform.Contracts.Time.Exact.{checked_subtract_iff}
use ns3_bellhop_platform.Kernel.Gateway.{
  Ns3, IsNs3, to_ns3_time, to_ns3_duration, from_ns3_time, platform_now, checked_delay, delay_until,
  schedule_at, before_origin,
}

module _ {T S C : Type 0} (ns3 : Ns3 T S C) where
  to_ns3_time_accepts :
      (t : SimTime) (x : T)
      → (to_ns3_time ns3 t ≡ ok x)
        ↔ (ns3.resolution_is_ns ≡ true)
          × (ns3.from_count t.nanoseconds ≡ x)
          × (ns3.get_nanoseconds x ≡ t.nanoseconds)
  unfolding to_ns3_time
  to_ns3_time_accepts t x =
      ground (arith, eqb_ℤ_iff (ns3.get_nanoseconds (ns3.from_count t.nanoseconds)) t.nanoseconds)

  from_ns3_time_accepts :
      (x : T) (t : SimTime)
      → (from_ns3_time ns3 x ≡ ok t)
        ↔ (ns3.resolution_is_ns ≡ true)
          × (ns3.get_nanoseconds x ≡ t.nanoseconds)
          × ((y : T) × (to_ns3_time ns3 t ≡ ok y) × (ns3.same_time y x ≡ true))
  unfolding from_ns3_time
  from_ns3_time_accepts x t =
      let converted : SimTime = time (ns3.get_nanoseconds x) in
      elim (Result-cases (to_ns3_time ns3 converted)) [
        | inr (e, f) ↦ (
          λ h. absurd (ground arith),
          λ (r, g, (y, h, s)).
              let same : converted ≡ t = ap time g in
              absurd (err_not_ok (sym f ∙ ap (to_ns3_time ns3) same ∙ h)),
        )
        | inl (z, f) ↦ (
          λ h.
              let same : converted ≡ t = ground arith in
              let r : ns3.resolution_is_ns ≡ true = ground arith in
              let s : ns3.same_time z x ≡ true = ground arith in
              (r, ap (λ u. u.nanoseconds) same, (z, ap (to_ns3_time ns3) (sym same) ∙ f, s)),
          λ (r, g, (y, h, s)).
              let same : converted ≡ t = ap time g in
              let found : z ≡ y = ok-injective (sym f ∙ ap (to_ns3_time ns3) same ∙ h) in
              let s' : ns3.same_time z x ≡ true =
                subst (λ u. ns3.same_time u x ≡ true) (sym found) s in
              let made : from_ns3_time ns3 x ≡ ok converted = ground arith in made ∙ ap ok same,
        )
      ]
    where
      err_not_ok : {e : Error} {y : T} → Result.err e ≢ Result.ok y
      err_not_ok h = cc

  -- On any ns-3 whose == is reflexive, a time of ns-3 is the answer of ToNs3Time exactly when ns-3
  -- makes it of the count and FromNs3Time takes it back to the same time. FromNs3Time returns a time
  -- exactly when the resolution is nanoseconds, ns-3's time counts as many, and ToNs3Time takes the
  -- returned time to one of the same count that == ns-3's.
  pub from-to_ns3_time_iff :
      (t : SimTime) (x : T)
      → ((y : T) → ns3.same_time y y ≡ true)
      → ((to_ns3_time ns3 t ≡ ok x)
          ↔ (ns3.from_count t.nanoseconds ≡ x) × (from_ns3_time ns3 x ≡ ok t))
        × ((from_ns3_time ns3 x ≡ ok t)
            ↔ (ns3.resolution_is_ns ≡ true)
              × (ns3.get_nanoseconds x ≡ t.nanoseconds)
              × ((y : T) × (to_ns3_time ns3 t ≡ ok y)
                  × (ns3.get_nanoseconds y ≡ t.nanoseconds)
                  × (ns3.same_time y x ≡ true)))
  from-to_ns3_time_iff t x same =
      let (accepted, accepts) = to_ns3_time_accepts t x in
      let (returned, returns) = from_ns3_time_accepts x t in
      (
        (
          λ h. let (r, made, g) = accepted h in (made, returns (r, g, (x, h, same x))),
          λ (made, h). let (r, g, (y, found, s)) = returned h in accepts (r, made, g),
        ),
        (
          λ h.
              let (r, g, (y, found, s)) = returned h in
              (r, g, (y, found, ((to_ns3_time_accepts t y).0 found).2, s)),
          λ (r, g, (y, found, counted, s)). returns (r, g, (y, found, s)),
        ),
      )

module _ {T S C : Type 0} (ns3 : Ns3 T S C) (laws : IsNs3 ns3)
    (ns : ns3.resolution_is_ns ≡ true) where
  to_ns3_duration-ok :
      (d : SimDuration)
      → InRange d.nanoseconds
      → to_ns3_duration ns3 d ≡ ok (ns3.from_count d.nanoseconds)
  unfolding to_ns3_duration
  to_ns3_duration-ok d h = ground (arith, laws.counts d.nanoseconds h)

  to_ns3_time-ok :
      (t : SimTime) → InRange t.nanoseconds → to_ns3_time ns3 t ≡ ok (ns3.from_count t.nanoseconds)
  unfolding to_ns3_time
  to_ns3_time-ok t h = ground (arith, laws.counts t.nanoseconds h)

  from_ns3_time-ok :
      (t : T)
      → InRange (ns3.get_nanoseconds t)
      → from_ns3_time ns3 t ≡ ok (time (ns3.get_nanoseconds t))
  unfolding from_ns3_time
  from_ns3_time-ok t h = rw (
    to_ns3_time-ok (time (ns3.get_nanoseconds t)) h,
    ns,
    (laws.same_time_iff (ns3.from_count (ns3.get_nanoseconds t)) t).1 (laws.counted t),
  )

  delay_until-ok :
      (s : S) (target : SimTime)
      → InRange (ns3.get_nanoseconds (ns3.now s))
      → InRange target.nanoseconds
      → ns3.get_nanoseconds (ns3.now s) ≤ℤ target.nanoseconds
      → InRange (target.nanoseconds -ℤ ns3.get_nanoseconds (ns3.now s))
      → delay_until ns3 s target
        ≡ ok (ns3.from_count (target.nanoseconds -ℤ ns3.get_nanoseconds (ns3.now s)))
  unfolding delay_until platform_now checked_delay
  delay_until-ok s target now_fits h late fits =
      let origin : SimTime = time (ns3.get_nanoseconds (ns3.now s)) in
      let left : SimDuration = duration (target.nanoseconds -ℤ origin.nanoseconds) in
      let found = (checked_subtract_iff target origin left h now_fits).1 (fits, refl) in
      ground (arith, from_ns3_time-ok (ns3.now s) now_fits, found, to_ns3_duration-ok left fits)

  -- In nanosecond resolution `ScheduleAt` for a time that is not before now schedules the callback
  -- after exactly the time that is left, when now, the time and what is left are values of `int64_t`.
  pub schedule_at-ok :
      (s : S) (target : SimTime) (callback : C)
      → InRange (ns3.get_nanoseconds (ns3.now s))
      → InRange target.nanoseconds
      → ns3.get_nanoseconds (ns3.now s) ≤ℤ target.nanoseconds
      → InRange (target.nanoseconds -ℤ ns3.get_nanoseconds (ns3.now s))
      → schedule_at ns3 s target callback ≡ (
        ns3.schedule s
            (ns3.from_count (target.nanoseconds -ℤ ns3.get_nanoseconds (ns3.now s)))
            callback,
        ok tt,
      )
  unfolding schedule_at
  schedule_at-ok s target callback now_fits h late fits =
      rw (delay_until-ok s target now_fits h late fits, schedule_at)

  -- In nanosecond resolution, and when now is a value of `int64_t`, `ScheduleAt` for a time before now
  -- schedules nothing and reports that the time is out of range.
  schedule_at-past :
      (s : S) (target : SimTime) (callback : C)
      → InRange (ns3.get_nanoseconds (ns3.now s))
      → time_lt target (time (ns3.get_nanoseconds (ns3.now s))) ≡ true
      → schedule_at ns3 s target callback ≡ (s, err before_origin)
  unfolding schedule_at delay_until platform_now checked_delay
  schedule_at-past s target callback now_fits h =
      ground (arith, from_ns3_time-ok (ns3.now s) now_fits)
