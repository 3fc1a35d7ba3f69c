-- ===== src/Runtime/Executor/Session.antt =====
-- The parts of a send attempt: the projected receivers, one signal and all signals.
use ns3_bellhop_platform.Prelude.{
  ◌≡◌, refl, ap, subst, ◌∙◌, inl, inr, arith, List, [], ◌∷◌, map, All, ltb, sort_by,
}
use ns3_bellhop_platform.Contracts.Errors.{ok, ◌>>=◌, ◌>>◌, ok-injective, >>=-eq-ok, Result-cases}
use ns3_bellhop_platform.Contracts.Time.{SimTime}
use ns3_bellhop_platform.Contracts.Doubles.{Double}
use ns3_bellhop_platform.Contracts.State.{NodeId, TransmissionId, NodeCommittedState, id_of}
use ns3_bellhop_platform.Contracts.Packets.{DigitalPacket}
use ns3_bellhop_platform.Prelude.Int.{eqb_ℤ_iff}
use ns3_bellhop_platform.Contracts.TxPhy.{
  TxEncodeRequest, TxEmission, validate_tx_emission_identity,
}
use ns3_bellhop_platform.Contracts.Channel.{
  ChannelFieldResponse, create_query, validate_channel_field_response_identity,
}
use ns3_bellhop_platform.Contracts.Channel.Paths.{create_query-ok, identity-ok}
use ns3_bellhop_platform.Contracts.ReceivedSignal.{ReceivedSignal, transmission_id_of, receiver_of}
use ns3_bellhop_platform.Contracts.ReceivedSignal
use ns3_bellhop_platform.Contracts.ReceivedSignal.Interval.{IsTimed, create-IsTimed}
use ns3_bellhop_platform.Runtime.WorkingState.{CycleWorkingState, project_node_state}
use ns3_bellhop_platform.Runtime.WorkingState.Overlays.{project_node_state-id}
use ns3_bellhop_platform.Runtime.Executor.{
  TransmissionExecutionRequest, Prepared, IChannelFieldProvider, project_receivers, prepare,
  query_for, receive_at, receive_all,
}

module _ {W : Type 0} ⦃d : Double W⦄ where
  pub project_receivers-ids :
      (s : CycleWorkingState W) (sender : NodeId) (t : SimTime) (ids : List NodeId)
      (rs : List (NodeCommittedState W))
      → project_receivers s sender t ids ≡ ok rs
      → map id_of rs ≡ ids
  unfolding project_receivers
  project_receivers-ids s sender t [] rs h = ground arith
  project_receivers-ids s sender t (id ∷ ids) rs h =
      elim (Result-cases (project_node_state s id t)) [
        | inr (e, f) ↦ absurd (ground arith)
        | inl (r, f) ↦ elim (Result-cases (project_receivers s sender t ids)) [
          | inr (e, g) ↦ absurd (ground arith)
          | inl (rest, g) ↦
              ground (
                arith,
                project_node_state-id s id t r f,
                project_receivers-ids s sender t ids rest g,
              )
        ]
      ]

  -- The states that the part before the allocation leaves are those of the candidates, by id.
  pub prepare-ids :
      (s : CycleWorkingState W) (request : TransmissionExecutionRequest) (p : Prepared W)
      → prepare s request ≡ ok p
      → map id_of p.receiver_states ≡ sort_by ltb request.candidate_receivers
  unfolding prepare
  prepare-ids s request p h =
      let sender : NodeId = request.opportunity.sender_node_id in
      let candidates : List NodeId = sort_by ltb request.candidate_receivers in
      elim (Result-cases (project_node_state s sender request.started_at)) [
        | inr (e, f) ↦ absurd (ground arith)
        | inl (state, f) ↦
            elim (Result-cases (project_receivers s sender request.started_at candidates)) [
              | inr (e, g) ↦ absurd (ground arith)
              | inl (rs, g) ↦
                  ground (arith, project_receivers-ids s sender request.started_at candidates rs g)
            ]
      ]

  module _ (channel : IChannelFieldProvider W) (request : TransmissionExecutionRequest)
      (id : TransmissionId) (emission : TxEmission W) (sender_state : NodeCommittedState W) where
    -- What each signal of a session is.
    abbrev IsSignal : ReceivedSignal W → Type 0
    IsSignal s = (s.emission ≡ emission) × IsTimed s

    pub receive_at-ok :
        (r : NodeCommittedState W) (s : ReceivedSignal W)
        → receive_at channel request id emission sender_state r ≡ ok s
        → (receiver_of s ≡ id_of r) × (s.emission ≡ emission) × IsTimed s
    unfolding receive_at
    receive_at-ok r s h =
        let query = query_for channel request id emission sender_state r in
        let (q, e, h₁) =
          >>=-eq-ok (create_query query)
            (λ q. do
              response ← channel q
              validate_channel_field_response_identity q response
              ReceivedSignal.create emission response)
            h in
        let (response, f, h₂) =
          >>=-eq-ok (channel q)
            (λ response. do
              validate_channel_field_response_identity q response
              ReceivedSignal.create emission response)
            h₁ in
        let (u, g, h₃) =
          >>=-eq-ok (validate_channel_field_response_identity q response)
            (λ _. ReceivedSignal.create emission response) h₂ in
        let (same, answer, timed) = create-IsTimed emission response s h₃ in
        let asked = create_query-ok query q e in
        let right_receiver = (identity-ok q response g).1 in
        (
          ap receiver_of_response answer ∙ right_receiver ∙ ap (λ x. x.receiver_node_id) asked,
          same,
          timed,
        )
      where
        receiver_of_response : ChannelFieldResponse W → NodeId
        receiver_of_response x = x.receiver_node_id

    -- The receivers of the signals are those asked for, and each signal is one of the emission.
    abbrev AreSignals : List NodeId → List (ReceivedSignal W) → Type 0
    AreSignals receivers ss = (map receiver_of ss ≡ receivers) × All IsSignal ss

    pub receive_all-ok :
        (rs : List (NodeCommittedState W)) (ss : List (ReceivedSignal W))
        → receive_all channel request id emission sender_state rs ≡ ok ss
        → AreSignals (map id_of rs) ss
    unfolding receive_all
    receive_all-ok [] ss h = subst (AreSignals []) (ok-injective h) (refl, tt)
    receive_all-ok (r ∷ rs) ss h =
        let receive = receive_at channel request id emission sender_state in
        let receive_rest = receive_all channel request id emission sender_state rs in
        let (s, e, h₁) = >>=-eq-ok (receive r) (λ s. do rest ← receive_rest; ok (s ∷ rest)) h in
        let (rest, f, h₂) = >>=-eq-ok receive_rest (λ rest. ok (s ∷ rest)) h₁ in
        let (at, same, timed) = receive_at-ok r s e in
        let (receivers, signals) = receive_all-ok rs rest f in
        subst (AreSignals (map id_of (r ∷ rs))) (ok-injective h₂)
          (ground (arith, at, receivers), ((same, timed), signals))

  pub emission_identity-ok :
      (p : DigitalPacket) (q : TxEncodeRequest) (e : TxEmission W)
      → validate_tx_emission_identity p q e ≡ ok tt
      → (e.transmission_id ≡ q.transmission_id)
        × (e.packet_id ≡ p.packet_id)
        × (e.sender_node_id ≡ q.sender_node_id)
        × (e.started_at ≡ q.started_at)
  unfolding validate_tx_emission_identity
  emission_identity-ok p q e h =
      ground (arith, eqb_ℤ_iff e.started_at.nanoseconds q.started_at.nanoseconds)
