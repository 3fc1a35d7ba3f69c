-- ===== src/Contracts/Time/Exact.antt =====
-- The checked operations of time.hpp against the integers.
use native.Mathlib.Nat.{le-div_iff_mul-le}
use ns3_bellhop_platform.Prelude.{ℕ, suc, ◌-◌, ◌^◌, ◌<◌, ◌≡◌, ◌↔◌, some, arith}
use ns3_bellhop_platform.Prelude.Int.{ℤ, pos, negsuc, ◌+ℤ◌, ◌-ℤ◌, ◌*ℤ◌, ◌/ℤ◌, int_laws}
use ns3_bellhop_platform.Contracts.Time.{
  InRange, checked_add_counts, checked_subtract_counts, checked_scale_nanoseconds, SimTime,
  SimDuration, checked_add, checked_subtract,
}

-- On `int64_t` operands `CheckedAddCounts` returns a count exactly when the sum of the two is an
-- `int64_t`, and then returns that sum.
pub checked_add_counts_exact :
    (lhs rhs result : ℤ)
    → InRange lhs
    → InRange rhs
    → (checked_add_counts lhs rhs ≡ some result) ↔ (InRange result × (result ≡ lhs +ℤ rhs))
unfolding checked_add_counts ◌+ℤ◌ ◌-ℤ◌
checked_add_counts_exact lhs rhs result hl hr = ground arith

-- The same of `CheckedSubtractCounts` and the difference.
checked_subtract_counts_exact :
    (lhs rhs result : ℤ)
    → InRange lhs
    → InRange rhs
    → (checked_subtract_counts lhs rhs ≡ some result) ↔ (InRange result × (result ≡ lhs -ℤ rhs))
unfolding checked_subtract_counts ◌+ℤ◌ ◌-ℤ◌
checked_subtract_counts_exact lhs rhs result hl hr = ground arith

-- The same of the overload for two times.
pub checked_subtract_iff :
    (lhs rhs : SimTime) (result : SimDuration)
    → InRange lhs.nanoseconds
    → InRange rhs.nanoseconds
    → (checked_subtract lhs rhs ≡ some result)
      ↔ (InRange result.nanoseconds × (result.nanoseconds ≡ lhs.nanoseconds -ℤ rhs.nanoseconds))
unfolding checked_subtract
checked_subtract_iff lhs rhs result hl hr =
    ground (
      arith,
      checked_subtract_counts_exact lhs.nanoseconds rhs.nanoseconds result.nanoseconds hl hr,
    )

-- And of `CheckedAdd` of a time and a duration.
pub checked_add_iff :
    (t : SimTime) (d : SimDuration) (result : SimTime)
    → InRange t.nanoseconds
    → InRange d.nanoseconds
    → (checked_add t d ≡ some result)
      ↔ (InRange result.nanoseconds × (result.nanoseconds ≡ t.nanoseconds +ℤ d.nanoseconds))
unfolding checked_add
checked_add_iff t d result ht hd =
    ground (arith, checked_add_counts_exact t.nanoseconds d.nanoseconds result.nanoseconds ht hd)

-- A difference that `CheckedSubtract` returns leads back to the later time by `CheckedAdd`.
add-subtract :
    (from to : SimTime) (d : SimDuration)
    → InRange from.nanoseconds
    → InRange to.nanoseconds
    → checked_subtract to from ≡ some d
    → checked_add from d ≡ some to
add-subtract from to d hf ht h =
    let exact = (checked_subtract_iff to from d ht hf).0 h in
    (checked_add_iff from d to hf exact.0).1 (ht, restore exact.1)
  where
    restore :
        d.nanoseconds ≡ to.nanoseconds -ℤ from.nanoseconds
        → to.nanoseconds ≡ from.nanoseconds +ℤ d.nanoseconds
    restore e = rw e (omega int_laws)

-- On a positive scale `CheckedScaleNanoseconds` returns a count exactly when the product is an
-- `int64_t`, and then returns the product.
pub checked_scale_nanoseconds_exact :
    (value : ℤ) (scale : ℕ) (result : ℤ)
    → 0 < scale
    → (checked_scale_nanoseconds value (pos scale) ≡ some result)
      ↔ (InRange result × (result ≡ value *ℤ pos scale))
unfolding checked_scale_nanoseconds ◌*ℤ◌ ◌/ℤ◌
checked_scale_nanoseconds_exact (pos v) scale result h =
    ground (arith, le-div_iff_mul-le {k = scale} {x = v} {y = 2 ^ 63 - 1} h)
checked_scale_nanoseconds_exact (negsuc v) scale result h =
    ground (arith, le-div_iff_mul-le {k = scale} {x = suc v} {y = 2 ^ 63} h)
