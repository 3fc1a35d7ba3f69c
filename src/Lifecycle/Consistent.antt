-- ===== src/Lifecycle/Consistent.antt =====
-- A run of the dispatcher over the handlers of a cycle.
use ns3_bellhop_platform.Prelude.{inl, inr, Bool-cases, ℕ, ◌≡◌, Bool, some, List, [], ◌∷◌}
use ns3_bellhop_platform.Contracts.Errors.{Error, Result, Status, ok, err}
use ns3_bellhop_platform.Contracts.Time.{SimTime, time_eq}
use ns3_bellhop_platform.Contracts.Doubles.{Double}
use ns3_bellhop_platform.Contracts.ReceivedSignal.{ReceivedSignal}
use ns3_bellhop_platform.Kernel.Gateway.{Ns3}
use ns3_bellhop_platform.Kernel.Dispatcher.{EventKey, EventDispatcher}
use ns3_bellhop_platform.Kernel.Dispatcher.Schedule.{IsQueue}
use ns3_bellhop_platform.Kernel.Dispatch.{Outcome, run}
use ns3_bellhop_platform.Kernel.Dispatch.Whole.{run-returns}
use ns3_bellhop_platform.Kernel.Dispatch.Shared.{Keeps, run-keeps}
use ns3_bellhop_platform.Runtime.Executor.{TransmissionSession, ITxPhy, IChannelFieldProvider}
use ns3_bellhop_platform.Runtime.Processor.{INoiseFieldProvider, IRxPhy}
use ns3_bellhop_platform.Runtime.CycleRuntime.{CycleSignalRuntime, handle_tx_start}
use ns3_bellhop_platform.Runtime.CycleRuntime.History.{
  Event, tx_start, signal_arrival, session_finalize, cycle_close, IsConsistent, handle,
  handle-IsConsistent,
}
use ns3_bellhop_platform.Lifecycle.{
  Callback, on_time, unless_refused, schedule_signals, schedule_session, callback,
}

module _ {W : Type 0} (P : CycleSignalRuntime W → Type 0) where
  unless_refused-Keeps :
      (rest : Callback W)
      → Keeps P rest
      → (key : Result EventKey) → Keeps P (unless_refused rest key)
  unless_refused-Keeps rest k (err e) = tt
  unless_refused-Keeps rest k (ok key) = k

  on_time-Keeps :
      (late : Error) (t : SimTime) (rest : SimTime → Callback W)
      → ((now : SimTime) → Keeps P (rest now))
      → (now : Result SimTime) → Keeps P (on_time late t rest now)
  on_time-Keeps late t rest k (err e) = tt
  on_time-Keeps late t rest k (ok now) = elim (Bool-cases (time_eq now t)) [
    | inl e ↦ rw e (k now)
    | inr e ↦ rw e tt
  ]

  schedule_signals-Keeps : (ss : List (ReceivedSignal W)) → Keeps P (schedule_signals ss)
  schedule_signals-Keeps [] = tt
  schedule_signals-Keeps (s ∷ ss) =
      unless_refused-Keeps _
        (unless_refused-Keeps (schedule_signals ss) (schedule_signals-Keeps ss))

  schedule_session-Keeps : (r : Result (TransmissionSession W)) → Keeps P (schedule_session r)
  schedule_session-Keeps (err e) = tt
  schedule_session-Keeps (ok session) = schedule_signals-Keeps session.received_signals

module _ {W : Type 0} ⦃d : Double W⦄ (tx_phy : ITxPhy W) (channel : IChannelFieldProvider W)
    (noise : INoiseFieldProvider W) (rx_phy : IRxPhy W) (start : CycleSignalRuntime W) where
  callback-Keeps :
      (e : Event W) → Keeps (IsConsistent start) (callback tx_phy channel noise rx_phy e)
  unfolding handle
  callback-Keeps (tx_start t request) = on_time-Keeps (IsConsistent start) _ t _ (λ now s c. (
    handle-IsConsistent tx_phy channel noise rx_phy start s (tx_start now request) c,
    schedule_session-Keeps (IsConsistent start) (handle_tx_start tx_phy channel s now request).1,
  ))
  callback-Keeps (signal_arrival t signal) = on_time-Keeps (IsConsistent start) _ t _ (λ now s c.
      (handle-IsConsistent tx_phy channel noise rx_phy start s (signal_arrival now signal) c, tt))
  callback-Keeps (session_finalize t signal) = on_time-Keeps (IsConsistent start) _ t _ (λ now s c.
      (handle-IsConsistent tx_phy channel noise rx_phy start s (session_finalize now signal) c, tt))
  callback-Keeps (cycle_close t) =
      on_time-Keeps (IsConsistent start) _ t _ (λ now s c.
        (handle-IsConsistent tx_phy channel noise rx_phy start s (cycle_close now) c, tt))

  -- On a well-formed queue of events of a cycle, a run over any times that ns-3 calls returns, and the
  -- cycle is as consistent afterwards as before: the store valid, nothing or exactly one snapshot
  -- committed, the ledger and the results in order, the working state as it was.
  pub run-IsConsistent :
      {T S : Type 0} (ns3 : Ns3 T S SimTime) (stop : S → S) (stopped : S → Bool)
      (calls : List (SimTime × (S → S))) (dispatcher : EventDispatcher S (Event W))
      (s : CycleSignalRuntime W)
      → IsQueue dispatcher
      → IsConsistent start s
      → (fuel : ℕ) × (o : Outcome S (Event W) (CycleSignalRuntime W)) × (status : Status) × (run ns3
            (callback tx_phy channel noise rx_phy)
            stop
            stopped
            fuel
            calls
            dispatcher
            s
          ≡ some (o, status))
        × IsConsistent start o.shared
  run-IsConsistent ns3 stop stopped calls dispatcher s q c =
      let body = callback tx_phy channel noise rx_phy in
      let (fuel, o, status, h) = run-returns ns3 body stop stopped calls dispatcher s q in
      (
        fuel,
        o,
        status,
        h,
        run-keeps ns3 (IsConsistent start) body callback-Keeps stop stopped fuel calls dispatcher s
            o status c h,
      )
