-- ===== src/Runtime/CycleRuntime/History.antt =====
-- What holds of a cycle after any sequence of its events, whatever the providers answer.
use ns3_bellhop_platform.Prelude.{
  ◌+◌, ◌≡◌, refl, ap, ◌⊎◌, inl, inr, true, false, not, List, [], ◌∷◌, Pairwise,
}
use ns3_bellhop_platform.Contracts.Errors.{Result-cases, reject_if}
use ns3_bellhop_platform.Contracts.Time.{SimTime, time_eq}
use ns3_bellhop_platform.Contracts.Doubles.{Double}
use ns3_bellhop_platform.Contracts.ReceivedSignal.{
  ReceivedSignal, first_arrival_at, last_effect_end_at,
}
use ns3_bellhop_platform.Runtime.Commit.Cycle.{IsValid, next_store-IsValid}
use ns3_bellhop_platform.Runtime.Ledger.Order.{IsLedger, insert-IsLedger}
use ns3_bellhop_platform.Runtime.Executor.{
  TransmissionExecutionRequest, ITxPhy, IChannelFieldProvider,
}
use ns3_bellhop_platform.Runtime.Processor.{
  INoiseFieldProvider, IRxPhy, session_less, process_received_signal,
}
use ns3_bellhop_platform.Runtime.Processor.Sessions.{append-ordered}
use ns3_bellhop_platform.Runtime.CycleRuntime.{
  CycleSignalRuntime, handle_tx_start, handle_signal_arrival, handle_session_finalize,
  handle_cycle_close, wrong_start_time, wrong_arrival_time, wrong_finalize_time,
}
use ns3_bellhop_platform.Runtime.CycleRuntime.Close.{handle_cycle_close_atomic}

-- The calls of the four handlers.
pub data Event (W : Type 0) : Type 0 where
  tx_start : SimTime → TransmissionExecutionRequest → Event W
  signal_arrival : SimTime → ReceivedSignal W → Event W
  session_finalize : SimTime → ReceivedSignal W → Event W
  cycle_close : SimTime → Event W

module _ {W : Type 0} ⦃d : Double W⦄ (tx_phy : ITxPhy W) (channel : IChannelFieldProvider W)
    (noise : INoiseFieldProvider W) (rx_phy : IRxPhy W) where
  unfoldable pub handle : CycleSignalRuntime W → Event W → CycleSignalRuntime W
  handle s (tx_start t request) = (handle_tx_start tx_phy channel s t request).0
  handle s (signal_arrival t signal) = (handle_signal_arrival s t signal).0
  handle s (session_finalize t desired) = (handle_session_finalize noise rx_phy s t desired).0
  handle s (cycle_close t) = (handle_cycle_close s t).0

  unfoldable pub handle_all : CycleSignalRuntime W → List (Event W) → CycleSignalRuntime W
  unfolding handle
  handle_all s [] = s
  handle_all s (e ∷ es) = handle_all (handle s e) es

module _ {W : Type 0} where
  -- Nothing was committed since `start`, or exactly one snapshot was.
  abbrev pub CommittedOnce : CycleSignalRuntime W → CycleSignalRuntime W → Type 0
  CommittedOnce start s =
      ((s.committed ≡ false) × (s.store ≡ start.store))
      ⊎ ((s.committed ≡ true)
          × (s.store.current_snapshot.version ≡ start.store.current_snapshot.version + 1))

  pub record IsConsistent (start s : CycleSignalRuntime W) : Type 0 where
    pub valid : IsValid s.store
    pub in_flight : IsLedger s.ledger
    pub ordered : Pairwise (λ a b. session_less b a ≡ false) s.results
    pub same_working_state : s.working_state ≡ start.working_state
    pub once : CommittedOnce start s

module _ {W : Type 0} where
  arrival :
      (start s : CycleSignalRuntime W) (t : SimTime) (signal : ReceivedSignal W)
      → IsConsistent start s
      → IsConsistent start (handle_signal_arrival s t signal).0
  unfolding handle_signal_arrival
  arrival start s t signal c =
      elim (Result-cases
        (reject_if (not (time_eq t (first_arrival_at signal))) wrong_arrival_time)) [
          | inr (e, f) ↦ rw (f, handle_signal_arrival) c
          | inl (u, f) ↦
              rw (f, handle_signal_arrival)
                (record {
                  valid = c.valid;
                  in_flight = (insert-IsLedger s.ledger signal c.in_flight).0;
                  ordered = c.ordered;
                  same_working_state = c.same_working_state;
                  once = c.once;
                })
        ]

module _ {W : Type 0} ⦃d : Double W⦄ where
  start_of_tx :
      (tx_phy : ITxPhy W) (channel : IChannelFieldProvider W) (start s : CycleSignalRuntime W)
      (t : SimTime) (request : TransmissionExecutionRequest)
      → IsConsistent start s
      → IsConsistent start (handle_tx_start tx_phy channel s t request).0
  unfolding handle_tx_start
  start_of_tx tx_phy channel start s t request c =
      elim (Result-cases (reject_if (not (time_eq t request.started_at)) wrong_start_time)) [
        | inr (e, f) ↦ rw (f, handle_tx_start) c
        | inl (u, f) ↦
            rw (f, handle_tx_start)
              (record {
                valid = c.valid;
                in_flight = c.in_flight;
                ordered = c.ordered;
                same_working_state = c.same_working_state;
                once = c.once;
              })
      ]

  finalize :
      (noise : INoiseFieldProvider W) (rx_phy : IRxPhy W) (start s : CycleSignalRuntime W)
      (t : SimTime) (desired : ReceivedSignal W)
      → IsConsistent start s
      → IsConsistent start (handle_session_finalize noise rx_phy s t desired).0
  unfolding handle_session_finalize
  finalize noise rx_phy start s t desired c =
      elim (Result-cases
        (reject_if (not (time_eq t (last_effect_end_at desired))) wrong_finalize_time)) [
          | inr (e, f) ↦ rw (f, handle_session_finalize) c
          | inl (u, f) ↦
              let processed =
                process_received_signal noise rx_phy s.allocator desired s.ledger s.working_state in
              elim (Result-cases processed.1) [
                | inr (e, g) ↦
                    rw (f, handle_session_finalize, g)
                      (record {
                        valid = c.valid;
                        in_flight = c.in_flight;
                        ordered = c.ordered;
                        same_working_state = c.same_working_state;
                        once = c.once;
                      })
                | inl (r, g) ↦
                    rw (f, handle_session_finalize, g)
                      (record {
                        valid = c.valid;
                        in_flight = c.in_flight;
                        ordered = (append-ordered s.results r).0;
                        same_working_state = c.same_working_state;
                        once = c.once;
                      })
              ]
        ]

  close :
      (start s : CycleSignalRuntime W) (t : SimTime)
      → IsConsistent start s
      → IsConsistent start (handle_cycle_close s t).0
  close start s t c = elim (handle_cycle_close_atomic s t c.valid) [
    | inl (_, e) ↦ rw e c
    | inr (_, closed) ↦ rw closed.left (record {
      valid = (next_store-IsValid c.valid s.expected_version closed.delta closed.accepted).0;
      in_flight = record { ordered = tt; apart = tt };
      ordered = c.ordered;
      same_working_state = c.same_working_state;
      once = inr (refl, committed_now closed.first c.once);
    })
  ]
    where
      committed_now :
          s.committed ≡ false
          → CommittedOnce start s
          → s.store.current_snapshot.version + 1 ≡ start.store.current_snapshot.version + 1
      committed_now first (inl (_, same)) = ap (λ x. x.current_snapshot.version + 1) same
      committed_now first (inr (done, _)) = cc

module _ {W : Type 0} ⦃d : Double W⦄ (tx_phy : ITxPhy W) (channel : IChannelFieldProvider W)
    (noise : INoiseFieldProvider W) (rx_phy : IRxPhy W) where
  pub handle-IsConsistent :
      (start s : CycleSignalRuntime W) (e : Event W)
      → IsConsistent start s
      → IsConsistent start (handle tx_phy channel noise rx_phy s e)
  unfolding handle
  handle-IsConsistent start s (tx_start t request) c =
      start_of_tx tx_phy channel start s t request c
  handle-IsConsistent start s (signal_arrival t signal) c = arrival start s t signal c
  handle-IsConsistent start s (session_finalize t desired) c =
      finalize noise rx_phy start s t desired c
  handle-IsConsistent start s (cycle_close t) c = close start s t c

  -- After any events from a consistent state, in any order and with any answers of the providers,
  -- the store is valid, the ledger is in order and without duplicates, the results are in order, the
  -- working state is the one of the start, and either nothing was committed and the store is the one
  -- of the start, or exactly one version was committed since.
  pub handle_all-IsConsistent :
      (start s : CycleSignalRuntime W) (es : List (Event W))
      → IsConsistent start s
      → IsConsistent start (handle_all tx_phy channel noise rx_phy s es)
  unfolding handle_all
  handle_all-IsConsistent start s [] c = c
  handle_all-IsConsistent start s (e ∷ es) c =
      handle_all-IsConsistent start (handle tx_phy channel noise rx_phy s e) es
        (handle-IsConsistent start s e c)
