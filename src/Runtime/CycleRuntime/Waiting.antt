-- ===== src/Runtime/CycleRuntime/Waiting.antt =====
-- A signal that has arrived waits in the ledger until the cycle is closed.
use ns3_bellhop_platform.Prelude.{
  ◌≡◌, refl, ap, ◌∙◌, inl, inr, Bool, true, false, not, ◌||◌, arith, List, [], ◌∷◌,
}
use ns3_bellhop_platform.Contracts.Errors.{ok, Result-cases, reject_if}
use ns3_bellhop_platform.Contracts.Time.{SimTime, time_eq}
use ns3_bellhop_platform.Contracts.Doubles.{Double}
use ns3_bellhop_platform.Contracts.ReceivedSignal.{
  ReceivedSignal, first_arrival_at, last_effect_end_at, signal_eq,
}
use ns3_bellhop_platform.Contracts.ReceiverWindow.{ReceiverWindow}
use ns3_bellhop_platform.Runtime.Ledger.{InFlightSignalLedger, insert, contains}
use ns3_bellhop_platform.Runtime.Ledger.Order.{IsLedger, insert-IsLedger}
use ns3_bellhop_platform.Runtime.Ledger.Contains.{contains-insert}
use ns3_bellhop_platform.Runtime.WindowBuilder.{build}
use ns3_bellhop_platform.Runtime.WindowBuilder.Total.{build_total}
use ns3_bellhop_platform.Runtime.Executor.{
  TransmissionExecutionRequest, ITxPhy, IChannelFieldProvider,
}
use ns3_bellhop_platform.Runtime.Processor.{INoiseFieldProvider, IRxPhy, process_received_signal}
use ns3_bellhop_platform.Runtime.CycleRuntime.{
  CycleSignalRuntime, handle_tx_start, handle_signal_arrival, handle_session_finalize,
  handle_cycle_close, wrong_start_time, wrong_arrival_time, wrong_finalize_time,
}
use ns3_bellhop_platform.Runtime.CycleRuntime.Close.{handle_cycle_close_atomic}
use ns3_bellhop_platform.Runtime.CycleRuntime.History.{
  Event, tx_start, signal_arrival, session_finalize, cycle_close, IsConsistent, handle, handle_all,
  handle-IsConsistent, handle_all-IsConsistent,
}

or_true : (b : Bool) → (b || true) ≡ true
or_true true = refl
or_true false = refl

module _ {W : Type 0} ⦃d : Double W⦄ where
  insert-waits :
      (ledger : InFlightSignalLedger W) (s signal : ReceivedSignal W)
      → IsLedger ledger
      → contains ledger signal ≡ true
      → contains (insert ledger s).0 signal ≡ true
  insert-waits ledger s signal v h = elim (insert-IsLedger ledger s v).1 [
    | inl (accepted, _) ↦ contains-insert ledger s signal v accepted ∙ ap (◌|| signal_eq s signal) h
    | inr (_, same) ↦ ap (λ l. contains l signal) same ∙ h
  ]

  module _ (signal : ReceivedSignal W) where
    -- The signal is in the ledger, unless the cycle is closed.
    abbrev Waits : CycleSignalRuntime W → Type 0
    Waits s = s.committed ≡ false → contains s.ledger signal ≡ true

    arrival-Waits :
        (s : CycleSignalRuntime W) (t : SimTime) (other : ReceivedSignal W)
        → IsLedger s.ledger
        → Waits s
        → Waits (handle_signal_arrival s t other).0
    unfolding handle_signal_arrival
    arrival-Waits s t other v h =
        elim (Result-cases
          (reject_if (not (time_eq t (first_arrival_at other))) wrong_arrival_time)) [
            | inr (e, f) ↦ rw (f, handle_signal_arrival) h
            | inl (u, f) ↦
                rw (f, handle_signal_arrival) (λ n. insert-waits s.ledger other signal v (h n))
          ]

    close-Waits :
        (start s : CycleSignalRuntime W) (t : SimTime)
        → IsConsistent start s
        → Waits s
        → Waits (handle_cycle_close s t).0
    close-Waits start s t c h = elim (handle_cycle_close_atomic s t c.valid) [
      | inl (_, e) ↦ rw e h
      | inr (_, closed) ↦ rw closed.left (λ n. cc n)
    ]

    start-Waits :
        (tx_phy : ITxPhy W) (channel : IChannelFieldProvider W) (s : CycleSignalRuntime W)
        (t : SimTime) (request : TransmissionExecutionRequest)
        → Waits s
        → Waits (handle_tx_start tx_phy channel s t request).0
    unfolding handle_tx_start
    start-Waits tx_phy channel s t request h =
        elim (Result-cases (reject_if (not (time_eq t request.started_at)) wrong_start_time)) [
          | inr (e, f) ↦ rw (f, handle_tx_start) h
          | inl (u, f) ↦ rw (f, handle_tx_start) h
        ]

    finalize-Waits :
        (noise : INoiseFieldProvider W) (rx_phy : IRxPhy W) (s : CycleSignalRuntime W) (t : SimTime)
        (desired : ReceivedSignal W)
        → Waits s
        → Waits (handle_session_finalize noise rx_phy s t desired).0
    unfolding handle_session_finalize
    finalize-Waits noise rx_phy s t desired h =
        elim (Result-cases
          (reject_if (not (time_eq t (last_effect_end_at desired))) wrong_finalize_time)) [
            | inr (e, f) ↦ rw (f, handle_session_finalize) h
            | inl (u, f) ↦
                elim (Result-cases
                  (process_received_signal noise rx_phy s.allocator desired s.ledger
                    s.working_state).1) [
                      | inr (e, g) ↦ rw (f, handle_session_finalize, g) h
                      | inl (r, g) ↦ rw (f, handle_session_finalize, g) h
                    ]
          ]

    module _ (tx_phy : ITxPhy W) (channel : IChannelFieldProvider W) (noise : INoiseFieldProvider W)
        (rx_phy : IRxPhy W) where
      handle-Waits :
          (start s : CycleSignalRuntime W) (e : Event W)
          → IsConsistent start s
          → Waits s
          → Waits (handle tx_phy channel noise rx_phy s e)
      unfolding handle
      handle-Waits start s (tx_start t request) c h = start-Waits tx_phy channel s t request h
      handle-Waits start s (signal_arrival t other) c h = arrival-Waits s t other c.in_flight h
      handle-Waits start s (session_finalize t desired) c h =
          finalize-Waits noise rx_phy s t desired h
      handle-Waits start s (cycle_close t) c h = close-Waits start s t c h

      handle_all-Waits :
          (start s : CycleSignalRuntime W) (es : List (Event W))
          → IsConsistent start s
          → Waits s
          → Waits (handle_all tx_phy channel noise rx_phy s es)
      unfolding handle_all
      handle_all-Waits start s [] c h = h
      handle_all-Waits start s (e ∷ es) c h =
          handle_all-Waits start (handle tx_phy channel noise rx_phy s e) es
            (handle-IsConsistent tx_phy channel noise rx_phy start s e c)
            (handle-Waits start s e c h)

    arrived-waits :
        (s : CycleSignalRuntime W) (t : SimTime)
        → IsLedger s.ledger
        → signal_eq signal signal ≡ true
        → (handle_signal_arrival s t signal).1 ≡ ok tt
        → contains (handle_signal_arrival s t signal).0.ledger signal ≡ true
    unfolding handle_signal_arrival
    arrived-waits s t v e h =
        elim (Result-cases
          (reject_if (not (time_eq t (first_arrival_at signal))) wrong_arrival_time)) [
            | inr (x, f) ↦ absurd (ground arith)
            | inl (u, f) ↦
                rw (f, handle_signal_arrival)
                  (contains-insert s.ledger signal signal v (rw (f, handle_signal_arrival) at h)
                    ∙ ap (contains s.ledger signal ||◌) e
                    ∙ or_true (contains s.ledger signal))
          ]

    module _ (tx_phy : ITxPhy W) (channel : IChannelFieldProvider W) (noise : INoiseFieldProvider W)
        (rx_phy : IRxPhy W) where
      -- A signal equal to itself whose arrival was accepted in a consistent state stays decodable:
      -- after any further events, and until a close has succeeded, the ledger contains it and `Build`
      -- returns a window for it.
      pub handle_signal_arrival-waits :
          (start s : CycleSignalRuntime W) (t : SimTime) (es : List (Event W))
          → IsConsistent start s
          → signal_eq signal signal ≡ true
          → (handle_signal_arrival s t signal).1 ≡ ok tt
          → (handle_all tx_phy channel noise rx_phy
              (handle_signal_arrival s t signal).0
              es).committed
            ≡ false
          → (contains
                (handle_all tx_phy channel noise rx_phy
                  (handle_signal_arrival s t signal).0
                  es).ledger
                signal
              ≡ true)
            × ((w : ReceiverWindow W) × (build signal
                    (handle_all tx_phy channel noise rx_phy
                      (handle_signal_arrival s t signal).0
                      es).ledger
                  ≡ ok w))
      unfolding handle
      handle_signal_arrival-waits start s t es c e h open' =
          let s' = (handle_signal_arrival s t signal).0 in
          let c' =
            handle-IsConsistent tx_phy channel noise rx_phy start s (signal_arrival t signal) c in
          let here =
            handle_all-Waits tx_phy channel noise rx_phy start s' es c'
              (λ _. arrived-waits s t c.in_flight e h) open' in
          let after = handle_all-IsConsistent tx_phy channel noise rx_phy start s' es c' in
          (here, build_total signal _ after.in_flight here)
