-- ===== src/Kernel/Gateway.antt =====
-- Platform/kernel/internal/ns3_kernel_gateway.hpp: the conversions between the platform's times and
-- ns-3's, and the scheduling of an event. ns-3 is a parameter: `T` is its Time, `S` the state of its
-- Simulator. A callback is of any type `C`.
pub mod Exact
use ns3_bellhop_platform.Prelude.{Bool, true, false, not, ◌≡◌, ◌↔◌}
use ns3_bellhop_platform.Prelude.Int.{ℤ, eqb_ℤ}
use ns3_bellhop_platform.Contracts.Errors.{
  Error, error, failed_precondition, overflow, out_of_range, Result, ok, err, Status, ◌>>=◌, ◌>>◌,
  reject_if, require,
}
use ns3_bellhop_platform.Contracts.Time.{
  SimTime, SimDuration, time, duration, time_lt, checked_subtract, InRange,
}

-- What the gateway calls of ns-3.
pub record Ns3 (T S C : Type 0) : Type 0 where
  -- `Time::GetResolution() == Time::NS`
  pub resolution_is_ns : Bool
  -- The constructor of a Time from a count of the resolution's units.
  pub from_count : ℤ → T
  pub get_nanoseconds : T → ℤ
  pub same_time : T → T → Bool
  -- `Simulator::Now` and `Simulator::Schedule`
  pub now : S → T
  pub schedule : S → T → C → S
  -- What `Simulator::Run` does to the simulator when it starts: it is not stopped any more.
  pub begin_run : S → S

-- In nanosecond resolution a Time is a 64-bit count of nanoseconds.
pub record IsNs3 {T S C : Type 0} (ns3 : Ns3 T S C) : Type 0 where
  pub counts : (n : ℤ) → InRange n → ns3.get_nanoseconds (ns3.from_count n) ≡ n
  pub same_time_iff : (t u : T) → (ns3.same_time t u ≡ true) ↔ (t ≡ u)
  pub counted : (t : T) → ns3.from_count (ns3.get_nanoseconds t) ≡ t

abbrev pub wrong_resolution : Error
wrong_resolution = error failed_precondition "ns-3 Time resolution must be nanoseconds"

abbrev pub time_not_exact : Error
time_not_exact = error overflow "SimTime cannot be represented exactly by ns-3"

abbrev pub duration_not_exact : Error
duration_not_exact = error overflow "SimDuration cannot be represented exactly by ns-3"

abbrev pub no_time_round_trip : Error
no_time_round_trip = error overflow "ns-3 Time cannot round-trip through SimTime"

abbrev pub no_duration_round_trip : Error
no_duration_round_trip = error overflow "ns-3 Time cannot round-trip through SimDuration"

abbrev pub before_origin : Error
before_origin = error out_of_range "Cannot schedule an event before the origin time"

abbrev pub delay_overflow : Error
delay_overflow = error overflow "Event scheduling delay overflow"

module _ {T S C : Type 0} (ns3 : Ns3 T S C) where
  -- `ValidateResolution`
  abbrev pub validate_resolution : Status
  validate_resolution = reject_if (not ns3.resolution_is_ns) wrong_resolution

  -- `ToNs3Time` of a time.
  unfoldable pub to_ns3_time : SimTime → Result T
  to_ns3_time t = do
    validate_resolution
    let converted = ns3.from_count t.nanoseconds
    reject_if (not (eqb_ℤ (ns3.get_nanoseconds converted) t.nanoseconds)) time_not_exact
    ok converted

  -- `ToNs3Time` of a duration.
  unfoldable pub to_ns3_duration : SimDuration → Result T
  to_ns3_duration d = do
    validate_resolution
    let converted = ns3.from_count d.nanoseconds
    reject_if (not (eqb_ℤ (ns3.get_nanoseconds converted) d.nanoseconds)) duration_not_exact
    ok converted

  -- `!round_trip || *round_trip != time`
  abbrev pub differs : Result T → T → Bool
  differs (err e) t = true
  differs (ok u) t = not (ns3.same_time u t)

  unfoldable pub from_ns3_time : T → Result SimTime
  unfolding to_ns3_time
  from_ns3_time t = do
    validate_resolution
    let converted = time (ns3.get_nanoseconds t)
    reject_if (differs (to_ns3_time converted) t) no_time_round_trip
    ok converted

  unfoldable pub from_ns3_duration : T → Result SimDuration
  unfolding to_ns3_duration
  from_ns3_duration t = do
    validate_resolution
    let converted = duration (ns3.get_nanoseconds t)
    reject_if (differs (to_ns3_duration converted) t) no_duration_round_trip
    ok converted

  unfoldable pub checked_delay : SimTime → SimTime → Result T
  unfolding to_ns3_duration
  checked_delay origin target = do
    reject_if (time_lt target origin) before_origin
    delay ← require (checked_subtract target origin) delay_overflow
    to_ns3_duration delay

  unfoldable pub platform_now : S → Result SimTime
  unfolding from_ns3_time
  platform_now s = from_ns3_time (ns3.now s)

  -- What `ScheduleAt` finds before it schedules.
  unfoldable pub delay_until : S → SimTime → Result T
  unfolding platform_now checked_delay
  delay_until s target = do now ← platform_now s; checked_delay now target

  -- `ScheduleAt`, with the simulator that it leaves.
  unfoldable pub schedule_at : S → SimTime → C → S × Status
  unfolding delay_until
  schedule_at s target callback = elim (delay_until s target) [
    | err e ↦ (s, err e)
    | ok delay ↦ (ns3.schedule s delay callback, ok tt)
  ]
