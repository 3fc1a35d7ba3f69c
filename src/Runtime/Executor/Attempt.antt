-- ===== src/Runtime/Executor/Attempt.antt =====
-- What `ExecuteTransmission` returns.
use ns3_bellhop_platform.Prelude.{
  ◌≡◌, refl, subst, ◌∙◌, inl, inr, arith, some, List, map, All, ltb, sort_by,
}
use ns3_bellhop_platform.Contracts.Errors.{
  ok, ◌>>=◌, ◌>>◌, ok-injective, >>=-eq-ok, reject_if, Result-cases, require, require-eq-ok,
}
use ns3_bellhop_platform.Contracts.Time.{SimTime, checked_add, duration_eq, zero_duration}
use ns3_bellhop_platform.Contracts.Doubles.{Double}
use ns3_bellhop_platform.Contracts.State.{TransmissionId, id_of}
use ns3_bellhop_platform.Contracts.TxPhy.{
  TxEncodeRequest, TxEmission, validate_tx_emission_identity,
}
use ns3_bellhop_platform.Contracts.ReceivedSignal.{ReceivedSignal, receiver_of}
use ns3_bellhop_platform.Contracts.ReceivedSignal.Interval.{IsTimed}
use ns3_bellhop_platform.Runtime.Allocator.{CommunicationIdAllocator, next_transmission_id}
use ns3_bellhop_platform.Runtime.WorkingState.{CycleWorkingState}
use ns3_bellhop_platform.Runtime.Executor.{
  TransmissionExecutionRequest, TransmissionSession, Prepared, ITxPhy, IChannelFieldProvider,
  prepare, receive_all, transmit, execute_transmission, no_duration, end_overflow,
}
use ns3_bellhop_platform.Runtime.Executor.Session.{
  prepare-ids, receive_all-ok, emission_identity-ok,
}

module _ {W : Type 0} ⦃d : Double W⦄ where
  -- What a successful attempt returns, for the allocator before it and its request.
  pub record IsSessionOf (ids : CommunicationIdAllocator) (request : TransmissionExecutionRequest)
      (s : TransmissionSession W) : Type 0 where
    pub allocated : (next_transmission_id ids).1 ≡ ok s.transmission.transmission_id
    pub packet_is : s.packet ≡ request.selected_packet
    pub packet_id_is : s.transmission.packet_id ≡ request.selected_packet.packet_id
    pub sender_is : s.transmission.sender_node_id ≡ request.opportunity.sender_node_id
    pub target_is : s.transmission.target ≡ request.target
    pub started : s.transmission.started_at ≡ request.started_at
    pub emission_id : s.emission.transmission_id ≡ s.transmission.transmission_id
    pub emission_packet : s.emission.packet_id ≡ s.transmission.packet_id
    pub emission_sender : s.emission.sender_node_id ≡ s.transmission.sender_node_id
    pub emission_start : s.emission.started_at ≡ s.transmission.started_at
    pub ended :
        checked_add s.transmission.started_at s.emission.duration ≡ some s.transmission.ended_at
    pub receivers : map receiver_of s.received_signals ≡ sort_by ltb request.candidate_receivers
    pub signals : All (λ x. (x.emission ≡ s.emission) × IsTimed x) s.received_signals

  -- The session that an attempt makes of its parts.
  abbrev session_of :
      TransmissionExecutionRequest
      → TransmissionId
      → TxEmission W
      → SimTime
      → List (ReceivedSignal W)
      → TransmissionSession W
  session_of request id emission ended_at signals = record {
    packet = request.selected_packet;
    transmission = record {
      transmission_id = id;
      packet_id = request.selected_packet.packet_id;
      sender_node_id = request.opportunity.sender_node_id;
      target = request.target;
      started_at = request.started_at;
      ended_at = ended_at;
    };
    emission = emission;
    received_signals = signals;
  }

  module _ (tx_phy : ITxPhy W) (channel : IChannelFieldProvider W) where
    transmit-IsSessionOf :
        (ids : CommunicationIdAllocator) (request : TransmissionExecutionRequest) (p : Prepared W)
        (id : TransmissionId) (s : TransmissionSession W)
        → (next_transmission_id ids).1 ≡ ok id
        → map id_of p.receiver_states ≡ sort_by ltb request.candidate_receivers
        → transmit tx_phy channel request p id ≡ ok s
        → IsSessionOf ids request s
    unfolding transmit
    transmit-IsSessionOf ids request p id s fresh candidates h =
        let encode : TxEncodeRequest = record {
          transmission_id = id;
          sender_node_id = request.opportunity.sender_node_id;
          target = request.target;
          started_at = request.started_at;
        } in
        let (emission, e, h₁) =
          >>=-eq-ok (tx_phy request.selected_packet encode)
            (λ emission. do
              validate_tx_emission_identity request.selected_packet encode emission
              reject_if (duration_eq emission.duration zero_duration) no_duration
              ended_at ← require (checked_add emission.started_at emission.duration) end_overflow
              signals ← receive_all channel request id emission p.sender_state p.receiver_states
              ok (session_of request id emission ended_at signals))
            h in
        let (u, valid, h₂) =
          >>=-eq-ok (validate_tx_emission_identity request.selected_packet encode emission)
            (λ _. do
              reject_if (duration_eq emission.duration zero_duration) no_duration
              ended_at ← require (checked_add emission.started_at emission.duration) end_overflow
              signals ← receive_all channel request id emission p.sender_state p.receiver_states
              ok (session_of request id emission ended_at signals))
            h₁ in
        let (w, positive, h₃) =
          >>=-eq-ok (reject_if (duration_eq emission.duration zero_duration) no_duration)
            (λ _. do
              ended_at ← require (checked_add emission.started_at emission.duration) end_overflow
              signals ← receive_all channel request id emission p.sender_state p.receiver_states
              ok (session_of request id emission ended_at signals))
            h₂ in
        let (ended_at, end, h₄) =
          >>=-eq-ok (require (checked_add emission.started_at emission.duration) end_overflow)
            (λ ended_at. do
              signals ← receive_all channel request id emission p.sender_state p.receiver_states
              ok (session_of request id emission ended_at signals))
            h₃ in
        let (signals, received, h₅) =
          >>=-eq-ok (receive_all channel request id emission p.sender_state p.receiver_states)
            (λ signals. ok (session_of request id emission ended_at signals)) h₄ in
        let (same_id, same_packet, same_sender, same_start) =
          emission_identity-ok request.selected_packet encode emission valid in
        let (receivers, all) =
          receive_all-ok channel request id emission p.sender_state p.receiver_states signals
            received in
        subst (IsSessionOf ids request) (ok-injective h₅) (record {
          allocated = fresh;
          packet_is = refl;
          packet_id_is = refl;
          sender_is = refl;
          target_is = refl;
          started = refl;
          emission_id = same_id;
          emission_packet = same_packet;
          emission_sender = same_sender;
          emission_start = same_start;
          ended =
              subst (λ t. checked_add t emission.duration ≡ some ended_at) same_start
                (require-eq-ok (checked_add emission.started_at emission.duration) end_overflow
                  end);
          receivers = receivers ∙ candidates;
          signals = all;
        })

    -- A success of `ExecuteTransmission` returns a session of its request: the id is the one that
    -- the allocator gives, the transmission and the emission agree with the request, the end is the
    -- start plus the emitted duration, and there is exactly one signal, of this emission and with a
    -- consistent interval, for each candidate receiver, in the order of their ids.
    pub execute_transmission-IsSessionOf :
        (ids : CommunicationIdAllocator) (s : CycleWorkingState W)
        (request : TransmissionExecutionRequest) (session : TransmissionSession W)
        → (execute_transmission tx_phy channel ids s request).1 ≡ ok session
        → IsSessionOf ids request session
    unfolding execute_transmission
    execute_transmission-IsSessionOf ids s request session h =
        elim (Result-cases (prepare s request)) [
          | inr (e, f) ↦ absurd (ground arith)
          | inl (p, f) ↦
              let (id, fresh, sent) =
                >>=-eq-ok (next_transmission_id ids).1 (transmit tx_phy channel request p)
                  (rw (f, execute_transmission) at h) in
              transmit-IsSessionOf ids request p id session fresh (prepare-ids s request p f) sent
        ]
