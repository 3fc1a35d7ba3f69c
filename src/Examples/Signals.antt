-- ===== src/Examples/Signals.antt =====
-- Two signals at one receiver, their windows and ledgers.
use ns3_bellhop_platform.Prelude.{
  ◌≡◌, ◌↔◌, ◌⊎◌, inr, refl, arith, [], ◌∷◌, ◌++◌, true, All, Perm, until, lower_bound,
}
use ns3_bellhop_platform.Prelude.Int.{ℤ, pos, ◌+ℤ◌, ◌-ℤ◌, ◌/ℤ◌, ◌≤ℤ◌}
use ns3_bellhop_platform.Contracts.Errors.{ok, err}
use ns3_bellhop_platform.Contracts.Time.{SimTime, InRange, checked_add, checked_add_counts}
use ns3_bellhop_platform.Contracts.Doubles.{IsIeee}
use ns3_bellhop_platform.Contracts.Channel.{response_eq}
use ns3_bellhop_platform.Contracts.ReceivedSignal.{
  ReceivedSignal, receiver_of, first_arrival_at, last_effect_end_at, latest_excess_delay,
  has_temporal_overlap, has_spectral_overlap, has_p0_signal_overlap, lower_frequency_hz,
  upper_frequency_hz, signal_eq,
}
use ns3_bellhop_platform.Contracts.ReceivedSignal
use ns3_bellhop_platform.Contracts.ReceivedSignal.Interval.{
  IsTimed, IsCounted, create-IsTimed, interval_exact,
}
use ns3_bellhop_platform.Contracts.ReceivedSignal.Overlap.{
  Covers, has_temporal_overlap_iff, has_spectral_overlap_iff,
}
use ns3_bellhop_platform.Contracts.ReceiverWindow.{ReceiverWindow}
use ns3_bellhop_platform.Runtime.Ledger.{
  InFlightSignalLedger, insert, signals_for_receiver, contains, already_in_flight, canonical_less,
}
use ns3_bellhop_platform.Runtime.Ledger.Order.{IsLedger, insert-IsLedger}
use ns3_bellhop_platform.Runtime.WindowBuilder.{build}
use ns3_bellhop_platform.Runtime.WindowBuilder.Total.{build_total}
use ns3_bellhop_platform.Examples.{whole, emission_of, response_of, signal}

pub whole-IsIeee : IsIeee ℤ
whole-IsIeee = record {
  lt_asym = λ x y h. ground arith;
  lt_trans = λ x y z h k. ground arith;
  lt-ne = λ x y h. ground arith;
  eq_refl = λ x h. ground arith;
  eq_sym = λ x y h. ground arith;
  lt_eq = λ x y z h k. ground arith;
  eq_lt = λ x y z h k. ground arith;
  lt_total = λ x y h k l m. ground arith;
}

abbrev pub first : ReceivedSignal ℤ
first = signal 7 2 20

abbrev pub second : ReceivedSignal ℤ
second = signal 8 2 28

abbrev FirstIs : ReceivedSignal ℤ → Type 0
FirstIs s = (s.emission ≡ emission_of 7 20) × (s.channel_response ≡ response_of 7 2) × IsTimed s

create-IsTimed_example : FirstIs first
unfolding ReceivedSignal.create checked_add checked_add_counts ◌-ℤ◌ ◌+ℤ◌ ◌/ℤ◌
create-IsTimed_example = create-IsTimed (emission_of 7 20) (response_of 7 2) first refl

first-IsCounted : IsCounted first.emission first.channel_response
first-IsCounted = record {
  started_fits = (omega arith, omega arith);
  duration_fits = (omega arith, omega arith);
  delay_fits = (omega arith, omega arith);
  paths_fit = ((omega arith, omega arith), ((omega arith, omega arith), tt));
}

interval_exact_example :
    ((first_arrival_at first).nanoseconds ≡ pos 20 +ℤ pos 5)
    × ((last_effect_end_at first).nanoseconds
        ≡ (first_arrival_at first).nanoseconds +ℤ (latest_excess_delay first).nanoseconds +ℤ pos 10)
    × InRange (first_arrival_at first).nanoseconds
    × InRange (last_effect_end_at first).nanoseconds
    × (pos 0 ≤ℤ (latest_excess_delay first).nanoseconds)
    × All
        (λ p. p.excess_delay.nanoseconds ≤ℤ (latest_excess_delay first).nanoseconds)
        first.channel_response.paths
interval_exact_example = interval_exact create-IsTimed_example.2 first-IsCounted

has_temporal_overlap_iff_example :
    (has_temporal_overlap first second ≡ true) ↔ ((t : SimTime) × Covers first t × Covers second t)
has_temporal_overlap_iff_example = has_temporal_overlap_iff first second

has_spectral_overlap_iff_example :
    (has_spectral_overlap first second ≡ true)
    ↔ (whole.lt (lower_frequency_hz first) (upper_frequency_hz first) ≡ true)
      × (whole.lt (lower_frequency_hz first) (upper_frequency_hz second) ≡ true)
      × (whole.lt (lower_frequency_hz second) (upper_frequency_hz first) ≡ true)
      × (whole.lt (lower_frequency_hz second) (upper_frequency_hz second) ≡ true)
has_spectral_overlap_iff_example =
    has_spectral_overlap_iff whole-IsIeee first second
      (record { lower_finite = refl; upper_finite = refl })
      (record { lower_finite = refl; upper_finite = refl })

abbrev pub one_signal : InFlightSignalLedger ℤ
one_signal = first ∷ []

pub one_signal-IsLedger : IsLedger one_signal
one_signal-IsLedger = record { ordered = (tt, tt); apart = (tt, tt) }

insert-IsLedger_example :
    IsLedger (insert one_signal second).0
    × (((insert one_signal second).1 ≡ ok tt)
          × Perm (insert one_signal second).0 (one_signal ++ second ∷ [])
        ⊎ ((insert one_signal second).1 ≡ err already_in_flight)
          × ((insert one_signal second).0 ≡ one_signal))
insert-IsLedger_example = insert-IsLedger one_signal second one_signal-IsLedger

abbrev two_signals : InFlightSignalLedger ℤ
two_signals = first ∷ second ∷ []

two_signals-IsLedger : IsLedger two_signals
unfolding canonical_less first_arrival_at checked_add checked_add_counts ◌-ℤ◌ ◌+ℤ◌
two_signals-IsLedger = record {
  ordered = ((refl, tt), (tt, tt));
  apart = ((inr (omega arith), tt), (tt, tt));
}

first_is_there : contains two_signals first ≡ true
unfolding contains signals_for_receiver signal_eq until lower_bound response_eq
first_is_there = refl

build_total_example : (w : ReceiverWindow ℤ) × (build first two_signals ≡ ok w)
build_total_example = build_total first two_signals two_signals-IsLedger first_is_there
