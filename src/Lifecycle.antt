-- ===== src/Lifecycle.antt =====
-- One planning cycle on the event dispatcher, put together as in
-- Platform/tests/ns3_signal_lifecycle_integration_test.cpp: a callback checks that ns-3's time is its
-- own and calls a handler of CycleSignalRuntime with that time, and the start of a transmission
-- schedules, for each signal, its arrival and its decoding. The counters of the test are left out.
pub mod Consistent
pub mod Boundary
use ns3_bellhop_platform.Prelude.{not, if◌then◌else◌, List, [], ◌∷◌, some}
use ns3_bellhop_platform.Contracts.Errors.{
  Error, error, failed_precondition, Result, Status, ok, err,
}
use ns3_bellhop_platform.Contracts.Time.{SimTime, time_eq}
use ns3_bellhop_platform.Contracts.Doubles.{Double}
use ns3_bellhop_platform.Contracts.ReceivedSignal.{
  ReceivedSignal, first_arrival_at, last_effect_end_at,
}
use ns3_bellhop_platform.Kernel.Dispatcher.{EventKey}
use ns3_bellhop_platform.Kernel.Dispatcher
use ns3_bellhop_platform.Kernel.Dispatch.{EventCallback, finish, work, ask_now, schedule}
use ns3_bellhop_platform.Runtime.Executor.{TransmissionSession, ITxPhy, IChannelFieldProvider}
use ns3_bellhop_platform.Runtime.Processor.{INoiseFieldProvider, IRxPhy}
use ns3_bellhop_platform.Runtime.CycleRuntime.{
  CycleSignalRuntime, handle_tx_start, handle_signal_arrival, handle_session_finalize,
  handle_cycle_close,
}
use ns3_bellhop_platform.Runtime.CycleRuntime.History.{
  Event, tx_start, signal_arrival, session_finalize, cycle_close,
}

-- A callback is named by the handler that it calls, with its arguments.
abbrev pub Callback : Type 0 → Type 0
Callback W = EventCallback (Event W) (CycleSignalRuntime W)

abbrev close_not_on_time : Error
close_not_on_time = error failed_precondition "CycleClose did not run at PlatformNow"

abbrev start_not_on_time : Error
start_not_on_time = error failed_precondition "TxStart did not run at PlatformNow"

abbrev arrival_not_on_time : Error
arrival_not_on_time = error failed_precondition "SignalArrival did not run at first arrival"

abbrev finalize_not_on_time : Error
finalize_not_on_time = error failed_precondition "SessionFinalize did not run at signal end"

module _ {W : Type 0} where
  -- The rest of a callback, unless the event was refused.
  abbrev pub unless_refused : Callback W → Result EventKey → Callback W
  unless_refused rest (err e) = finish (err e)
  unless_refused rest (ok _) = rest

  -- What a callback for this time does; the error where ns-3 is at another.
  abbrev pub on_time : Error → SimTime → (SimTime → Callback W) → Result SimTime → Callback W
  on_time late t rest (err e) = finish (err late)
  on_time late t rest (ok now) = if not (time_eq now t) then finish (err late) else rest now

  abbrev pub schedule_signals : List (ReceivedSignal W) → Callback W
  schedule_signals [] = finish (ok tt)
  schedule_signals (s ∷ ss) =
      schedule (first_arrival_at s) Dispatcher.signal_arrival
        (some (signal_arrival (first_arrival_at s) s))
        (unless_refused (
          schedule (last_effect_end_at s) Dispatcher.session_finalize
            (some (session_finalize (last_effect_end_at s) s))
            (unless_refused (schedule_signals ss))))

  abbrev pub schedule_session : Result (TransmissionSession W) → Callback W
  schedule_session (err e) = finish (err e)
  schedule_session (ok session) = schedule_signals session.received_signals

module _ {W : Type 0} ⦃d : Double W⦄ (tx_phy : ITxPhy W) (channel : IChannelFieldProvider W)
    (noise : INoiseFieldProvider W) (rx_phy : IRxPhy W) where
  abbrev pub callback : Event W → Callback W
  callback (tx_start t request) = ask_now (
      on_time start_not_on_time t (λ now.
        work (λ s. (handle_tx_start tx_phy channel s now request).0)
          (λ s. schedule_session (handle_tx_start tx_phy channel s now request).1)))
  callback (signal_arrival t signal) = ask_now (
      on_time arrival_not_on_time t (λ now.
        work (λ s. (handle_signal_arrival s now signal).0)
          (λ s. finish (handle_signal_arrival s now signal).1)))
  callback (session_finalize t signal) = ask_now (
      on_time finalize_not_on_time t (λ now.
        work (λ s. (handle_session_finalize noise rx_phy s now signal).0)
          (λ s. finish (handle_session_finalize noise rx_phy s now signal).1)))
  callback (cycle_close t) = ask_now (
      on_time close_not_on_time t (λ now.
        work (λ s. (handle_cycle_close s now).0) (λ s. finish (handle_cycle_close s now).1)))
