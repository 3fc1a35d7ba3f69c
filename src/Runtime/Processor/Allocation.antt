-- ===== src/Runtime/Processor/Allocation.antt =====
-- What becomes of the allocator in `ProcessReceivedSignal`.
use ns3_bellhop_platform.Prelude.{◌≡◌, refl, ◌⊎◌, inl, inr, arith}
use ns3_bellhop_platform.Contracts.Errors.{Error, ok, err, Result-cases}
use ns3_bellhop_platform.Contracts.Doubles.{Double}
use ns3_bellhop_platform.Contracts.ReceivedSignal.{ReceivedSignal}
use ns3_bellhop_platform.Runtime.Allocator.{CommunicationIdAllocator, next_reception_id}
use ns3_bellhop_platform.Runtime.Ledger.{InFlightSignalLedger}
use ns3_bellhop_platform.Runtime.WorkingState.{CycleWorkingState}
use ns3_bellhop_platform.Runtime.Processor.{
  ReceptionSession, INoiseFieldProvider, IRxPhy, decode, process_received_signal,
}
use ns3_bellhop_platform.Runtime.Processor.Decoding.{session_with}

next_reception_id_failed :
    (ids : CommunicationIdAllocator) (e : Error)
    → (next_reception_id ids).1 ≡ err e
    → (next_reception_id ids).0 ≡ ids
unfolding next_reception_id
next_reception_id_failed ids e h = ground arith

module _ {W : Type 0} ⦃d : Double W⦄ where
  module _ (noise : INoiseFieldProvider W) (rx_phy : IRxPhy W) where
    -- `ProcessReceivedSignal` returns a session and has taken exactly one reception id from the
    -- allocator, which is the session's, or it reports the error of the decoding or of the allocation
    -- and leaves the allocator as it was: no failure consumes an id.
    pub process_received_signal-ids :
        (ids : CommunicationIdAllocator) (desired : ReceivedSignal W)
        (ledger : InFlightSignalLedger W) (working_state : CycleWorkingState W)
        → ((s : ReceptionSession W) × ((process_received_signal noise rx_phy ids desired ledger
                working_state).1
              ≡ ok s)
            × ((next_reception_id ids).1 ≡ ok s.reception.reception_id)
            × ((process_received_signal noise rx_phy ids desired ledger working_state).0
                ≡ (next_reception_id ids).0))
          ⊎ ((e : Error) × (process_received_signal noise rx_phy ids desired ledger working_state
                ≡ (ids, err e))
              × ((decode noise rx_phy desired ledger working_state ≡ err e)
                  ⊎ ((next_reception_id ids).1 ≡ err e)))
    unfolding process_received_signal
    process_received_signal-ids ids desired ledger working_state =
        elim (Result-cases (decode noise rx_phy desired ledger working_state)) [
          | inr (e, f) ↦ inr (e, rw (f, process_received_signal) refl, inl f)
          | inl (x, f) ↦ elim (Result-cases (next_reception_id ids).1) [
            | inl (id, g) ↦ inl (
              session_with desired x id,
              rw (f, process_received_signal, g) refl,
              g,
              rw (f, process_received_signal) refl,
            )
            | inr (e, g) ↦ inr (
              e,
              rw (f, process_received_signal, g, next_reception_id_failed ids e g) refl,
              inr g,
            )
          ]
        ]
