-- ===== src/Contracts/Time.antt =====
-- Platform/contracts/include/ns3_factory/contracts/time.hpp: durations and times as signed counts of
-- nanoseconds in an `int64_t`, with checked arithmetic. A count is an integer; `InRange` says that
-- it is a value of `int64_t`.
pub mod Exact
use ns3_bellhop_platform.Prelude.{◌-◌, ◌^◌, Bool, ◌&&◌, ◌||◌, Option, none, some, if◌then◌else◌}
use ns3_bellhop_platform.Prelude.Int.{ℤ, pos, negsuc, ◌+ℤ◌, ◌-ℤ◌, ◌*ℤ◌, ◌/ℤ◌, ◌≤ℤ◌, ltb_ℤ, eqb_ℤ}
use mathlib.Core.Option

abbrev pub NanosecondCount : Type 0
NanosecondCount = ℤ

abbrev pub k_min : NanosecondCount
k_min = negsuc (2 ^ 63 - 1)

abbrev pub k_max : NanosecondCount
k_max = pos (2 ^ 63 - 1)

-- The values of `int64_t`.
abbrev pub InRange : NanosecondCount → Type 0
InRange n = (k_min ≤ℤ n) × (n ≤ℤ k_max)

unfoldable pub checked_add_counts : NanosecondCount → NanosecondCount → Option NanosecondCount
checked_add_counts lhs rhs =
    if (ltb_ℤ (pos 0) rhs && ltb_ℤ (k_max -ℤ rhs) lhs)
      || (ltb_ℤ rhs (pos 0) && ltb_ℤ lhs (k_min -ℤ rhs))
    then none
    else some (lhs +ℤ rhs)

unfoldable pub checked_subtract_counts : NanosecondCount → NanosecondCount → Option NanosecondCount
checked_subtract_counts lhs rhs =
    if (ltb_ℤ (pos 0) rhs && ltb_ℤ lhs (k_min +ℤ rhs))
      || (ltb_ℤ rhs (pos 0) && ltb_ℤ (k_max +ℤ rhs) lhs)
    then none
    else some (lhs -ℤ rhs)

pub checked_scale_nanoseconds : NanosecondCount → NanosecondCount → Option NanosecondCount
checked_scale_nanoseconds value scale =
    if ltb_ℤ (k_max /ℤ scale) value || ltb_ℤ value (k_min /ℤ scale)
    then none
    else some (value *ℤ scale)

pub record SimDuration : Type 0 where
  pub nanoseconds : NanosecondCount

pub record SimTime : Type 0 where
  pub nanoseconds : NanosecondCount

abbrev pub duration : NanosecondCount → SimDuration
duration value = record { nanoseconds = value }

abbrev pub time : NanosecondCount → SimTime
time value = record { nanoseconds = value }

-- `SimDuration::Zero`
abbrev pub zero_duration : SimDuration
zero_duration = duration (pos 0)

pub from_scaled_nanoseconds : NanosecondCount → NanosecondCount → Option SimDuration
unfolding checked_scale_nanoseconds
from_scaled_nanoseconds value scale = Option.map duration (checked_scale_nanoseconds value scale)

pub try_from_microseconds : NanosecondCount → Option SimDuration
unfolding from_scaled_nanoseconds
try_from_microseconds value = from_scaled_nanoseconds value (pos 1_000)

pub try_from_milliseconds : NanosecondCount → Option SimDuration
unfolding from_scaled_nanoseconds
try_from_milliseconds value = from_scaled_nanoseconds value (pos 1_000_000)

pub try_from_seconds : NanosecondCount → Option SimDuration
unfolding from_scaled_nanoseconds
try_from_seconds value = from_scaled_nanoseconds value (pos 1_000_000_000)

-- The overloads of `CheckedAdd` and `CheckedSubtract`, named by their arguments.
pub checked_add_durations : SimDuration → SimDuration → Option SimDuration
checked_add_durations lhs rhs =
    Option.map duration (checked_add_counts lhs.nanoseconds rhs.nanoseconds)

pub checked_subtract_durations : SimDuration → SimDuration → Option SimDuration
checked_subtract_durations lhs rhs =
    Option.map duration (checked_subtract_counts lhs.nanoseconds rhs.nanoseconds)

unfoldable pub checked_add : SimTime → SimDuration → Option SimTime
unfolding checked_add_counts
checked_add t d = Option.map time (checked_add_counts t.nanoseconds d.nanoseconds)

pub checked_subtract_duration : SimTime → SimDuration → Option SimTime
checked_subtract_duration t d =
    Option.map time (checked_subtract_counts t.nanoseconds d.nanoseconds)

unfoldable pub checked_subtract : SimTime → SimTime → Option SimDuration
unfolding checked_subtract_counts
checked_subtract lhs rhs =
    Option.map duration (checked_subtract_counts lhs.nanoseconds rhs.nanoseconds)

-- The defaulted comparisons of the two classes.
abbrev pub time_lt : SimTime → SimTime → Bool
time_lt a b = ltb_ℤ a.nanoseconds b.nanoseconds

abbrev pub time_eq : SimTime → SimTime → Bool
time_eq a b = eqb_ℤ a.nanoseconds b.nanoseconds

abbrev pub duration_lt : SimDuration → SimDuration → Bool
duration_lt a b = ltb_ℤ a.nanoseconds b.nanoseconds

abbrev pub duration_eq : SimDuration → SimDuration → Bool
duration_eq a b = eqb_ℤ a.nanoseconds b.nanoseconds
