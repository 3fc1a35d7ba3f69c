-- ===== src/Runtime/CycleRuntime.antt =====
-- Platform/runtime/internal/cycle_signal_runtime.hpp: the handlers of a planning cycle's events.
-- The class holds references to its parts; here they are the fields of its state, and the two
-- owners that hold providers are parameters: the transmission executor's channel field and TX PHY
-- and the receiver processor's noise field and RX PHY. The two share one id allocator.
pub mod Close
pub mod History
pub mod Waiting
use ns3_bellhop_platform.Prelude.{Bool, true, false, not, List, [], ◌∷◌}
use ns3_bellhop_platform.Contracts.Errors.{
  Error, error, failed_precondition, already_exists, Result, ok, err, Status, ◌>>=◌, ◌>>◌,
  reject_if,
}
use ns3_bellhop_platform.Contracts.Time.{SimTime, time_eq, time_lt}
use ns3_bellhop_platform.Contracts.Doubles.{Double}
use ns3_bellhop_platform.Contracts.State.{SnapshotVersion, DeltaSet}
use ns3_bellhop_platform.Contracts.ReceivedSignal.{
  ReceivedSignal, first_arrival_at, last_effect_end_at,
}
use ns3_bellhop_platform.Runtime.Allocator.{CommunicationIdAllocator}
use ns3_bellhop_platform.Runtime.Commit.{WorldStateStore, commit_cycle}
use ns3_bellhop_platform.Runtime.WorkingState.{CycleWorkingState, finalize_delta_set}
use ns3_bellhop_platform.Runtime.Ledger.{
  InFlightSignalLedger, insert, validate_ready_for_cycle_close, clear_for_cycle_close,
}
use ns3_bellhop_platform.Runtime.Executor.{
  TransmissionExecutionRequest, TransmissionSession, ITxPhy, IChannelFieldProvider,
  execute_transmission,
}
use ns3_bellhop_platform.Runtime.Processor.{
  ReceptionSession, INoiseFieldProvider, IRxPhy, process_received_signal, append,
}

pub record CycleSignalRuntime (W : Type 0) : Type 0 where
  pub allocator : CommunicationIdAllocator
  pub working_state : CycleWorkingState W
  pub store : WorldStateStore W
  pub ledger : InFlightSignalLedger W
  pub results : List (ReceptionSession W)
  pub expected_version : SnapshotVersion
  pub cycle_close_time : SimTime
  pub committed : Bool

abbrev pub wrong_start_time : Error
wrong_start_time = error failed_precondition "TxStart event time does not match request"

abbrev ends_after_close : Error
ends_after_close = error failed_precondition "Transmission extends beyond cycle close"

abbrev effect_after_close : Error
effect_after_close = error failed_precondition "Transmission signal extends beyond cycle close"

abbrev pub wrong_arrival_time : Error
wrong_arrival_time = error failed_precondition "SignalArrival event time does not match signal"

abbrev pub wrong_finalize_time : Error
wrong_finalize_time = error failed_precondition "SessionFinalize event time does not match signal"

abbrev pub already_committed : Error
already_committed = error already_exists "Planning cycle was already committed"

abbrev wrong_close_time : Error
wrong_close_time = error failed_precondition "CycleClose event time does not match cycle policy"

module _ {W : Type 0} where
  -- The loop of `HandleTxStart` over the signals of the session.
  pub check_effects : SimTime → List (ReceivedSignal W) → Status
  check_effects close_time [] = ok tt
  check_effects close_time (s ∷ ss) = do
    reject_if (time_lt close_time (last_effect_end_at s)) effect_after_close
    check_effects close_time ss

  -- The checks of `HandleTxStart` on the session that the executor returned.
  pub accept_session : SimTime → TransmissionSession W → Result (TransmissionSession W)
  unfolding check_effects
  accept_session close_time session = do
    reject_if (time_lt close_time session.transmission.ended_at) ends_after_close
    check_effects close_time session.received_signals
    ok session

  -- `HandleSignalArrival`
  unfoldable pub handle_signal_arrival :
      CycleSignalRuntime W → SimTime → ReceivedSignal W → CycleSignalRuntime W × Status
  handle_signal_arrival s event_time signal =
      elim (reject_if (not (time_eq event_time (first_arrival_at signal))) wrong_arrival_time) [
        | err e ↦ (s, err e)
        | ok _ ↦
            let (ledger, status) = insert s.ledger signal in (record s { ledger = ledger }, status)
      ]

module _ {W : Type 0} ⦃d : Double W⦄ where
  -- `HandleTxStart`
  unfoldable pub handle_tx_start :
      ITxPhy W
      → IChannelFieldProvider W
      → CycleSignalRuntime W
      → SimTime
      → TransmissionExecutionRequest
      → CycleSignalRuntime W × Result (TransmissionSession W)
  unfolding accept_session
  handle_tx_start tx_phy channel s event_time request =
      elim (reject_if (not (time_eq event_time request.started_at)) wrong_start_time) [
        | err e ↦ (s, err e)
        | ok _ ↦
            let (ids, session) =
              execute_transmission tx_phy channel s.allocator s.working_state request in
            (record s { allocator = ids }, session >>= accept_session s.cycle_close_time)
      ]

  -- `HandleSessionFinalize`
  unfoldable pub handle_session_finalize :
      INoiseFieldProvider W
      → IRxPhy W
      → CycleSignalRuntime W
      → SimTime
      → ReceivedSignal W
      → CycleSignalRuntime W × Status
  handle_session_finalize noise rx_phy s event_time desired =
      elim (reject_if (not (time_eq event_time (last_effect_end_at desired))) wrong_finalize_time) [
        | err e ↦ (s, err e)
        | ok _ ↦
            let (ids, session) =
              process_received_signal noise rx_phy s.allocator desired s.ledger s.working_state in
            elim session [
              | err e ↦ (record s { allocator = ids }, err e)
              | ok r ↦ (record s { allocator = ids; results = append s.results r }, ok tt)
            ]
      ]

  -- `HandleCycleClose` up to the delta set that is committed.
  unfoldable pub closing_delta : CycleSignalRuntime W → SimTime → Result (DeltaSet W)
  closing_delta s close_time = do
    reject_if s.committed already_committed
    reject_if (not (time_eq close_time s.cycle_close_time)) wrong_close_time
    validate_ready_for_cycle_close s.ledger close_time
    finalize_delta_set s.working_state close_time

  -- `HandleCycleClose`
  unfoldable pub handle_cycle_close : CycleSignalRuntime W → SimTime → CycleSignalRuntime W × Status
  unfolding closing_delta
  handle_cycle_close s close_time = elim (closing_delta s close_time) [
    | err e ↦ (s, err e)
    | ok delta ↦
        let (store, status) = commit_cycle s.store s.expected_version delta in
        elim status [
          | err e ↦ (record s { store = store }, err e)
          | ok _ ↦ (
            record s { store = store; ledger = clear_for_cycle_close s.ledger; committed = true },
            ok tt,
          )
        ]
  ]
