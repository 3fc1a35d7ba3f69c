-- ===== src/Runtime/Executor.antt =====
-- Platform/runtime/internal/{transmission_executor,transmission_session}.hpp: one physical send
-- attempt. The allocator is the one thing that an attempt changes: `prepare` is the part before the
-- allocation of an id, `transmit` the part after it.
pub mod Session
pub mod Start
pub mod Attempt
pub mod Order
use ns3_bellhop_platform.Prelude.{◌==◌, Bool, not, List, [], ◌∷◌, ltb, sort_by, has_adjacent}
use ns3_bellhop_platform.Contracts.Errors.{
  Error, error, failed_precondition, already_exists, invalid_argument, overflow, Result, ok, err,
  ◌>>=◌, ◌>>◌, reject_if, require,
}
use ns3_bellhop_platform.Contracts.Time.{SimTime, zero_duration, duration_eq, time_lt, checked_add}
use ns3_bellhop_platform.Contracts.Doubles.{Double}
use ns3_bellhop_platform.Contracts.State.{NodeId, TransmissionId, NodeCommittedState}
use ns3_bellhop_platform.Contracts.Packets.{
  DigitalPacket, TxOpportunity, TransmissionTarget, Transmission,
}
use ns3_bellhop_platform.Contracts.TxPhy.{
  TxEncodeRequest, TxEmission, validate_tx_emission_identity,
}
use ns3_bellhop_platform.Contracts.Channel.{
  ChannelQuery, ChannelFieldResponse, create_query, validate_channel_field_response_identity,
}
use ns3_bellhop_platform.Contracts.ReceivedSignal.{ReceivedSignal}
use ns3_bellhop_platform.Contracts.ReceivedSignal
use ns3_bellhop_platform.Runtime.Allocator.{CommunicationIdAllocator, next_transmission_id}
use ns3_bellhop_platform.Runtime.WorkingState.{CycleWorkingState, project_node_state}

pub record TransmissionExecutionRequest : Type 0 where
  pub opportunity : TxOpportunity
  pub selected_packet : DigitalPacket
  pub target : TransmissionTarget
  pub started_at : SimTime
  pub candidate_receivers : List NodeId

pub record TransmissionSession (W : Type 0) : Type 0 where
  pub packet : DigitalPacket
  pub transmission : Transmission
  pub emission : TxEmission W
  pub received_signals : List (ReceivedSignal W)

abbrev not_eligible : Error
not_eligible = error failed_precondition "Transmission started before its opportunity was eligible"

abbrev duplicate_receiver : Error
duplicate_receiver =
    error already_exists "Transmission candidate receivers contain a duplicate NodeId"

abbrev cannot_transmit : Error
cannot_transmit = error failed_precondition "Transmission sender cannot transmit"

abbrev sender_is_candidate : Error
sender_is_candidate = error invalid_argument "Transmission sender cannot be a candidate receiver"

abbrev cannot_receive : Error
cannot_receive = error failed_precondition "Transmission candidate cannot receive"

abbrev pub no_duration : Error
no_duration = error failed_precondition "Executed transmission duration must be positive"

abbrev pub end_overflow : Error
end_overflow = error overflow "Executed transmission end time overflow"

-- What the part before the allocation leaves: the sender and the receivers at the start.
pub record Prepared (W : Type 0) : Type 0 where
  pub sender_state : NodeCommittedState W
  pub receiver_states : List (NodeCommittedState W)

-- The two providers.
abbrev pub ITxPhy : Type 0 → Type 0
ITxPhy W = DigitalPacket → TxEncodeRequest → Result (TxEmission W)

abbrev pub IChannelFieldProvider : Type 0 → Type 0
IChannelFieldProvider W = ChannelQuery W → Result (ChannelFieldResponse W)

module _ {W : Type 0} ⦃d : Double W⦄ where
  -- The first loop over the candidates.
  unfoldable pub project_receivers :
      CycleWorkingState W → NodeId → SimTime → List NodeId → Result (List (NodeCommittedState W))
  project_receivers working_state sender started_at [] = ok []
  project_receivers working_state sender started_at (id ∷ ids) = do
    reject_if (id == sender) sender_is_candidate
    state ← project_node_state working_state id started_at
    reject_if (not state.capability.can_receive) cannot_receive
    rest ← project_receivers working_state sender started_at ids
    ok (state ∷ rest)

  unfoldable pub prepare : CycleWorkingState W → TransmissionExecutionRequest → Result (Prepared W)
  unfolding project_receivers
  prepare working_state request = do
    let sender = request.opportunity.sender_node_id
    reject_if (time_lt request.started_at request.opportunity.eligible_at) not_eligible
    let candidates = sort_by ltb request.candidate_receivers
    reject_if (has_adjacent ◌==◌ candidates) duplicate_receiver
    sender_state ← project_node_state working_state sender request.started_at
    reject_if (not sender_state.capability.can_transmit) cannot_transmit
    receiver_states ← project_receivers working_state sender request.started_at candidates
    ok (record { sender_state = sender_state; receiver_states = receiver_states })

  module _ (channel : IChannelFieldProvider W) (request : TransmissionExecutionRequest)
      (id : TransmissionId) (emission : TxEmission W) (sender_state : NodeCommittedState W) where
    abbrev pub query_for : NodeCommittedState W → ChannelQuery W
    query_for receiver_state = record {
      transmission_id = id;
      sender_node_id = request.opportunity.sender_node_id;
      receiver_node_id = receiver_state.node_id;
      tx_position = sender_state.motion.position;
      rx_position = receiver_state.motion.position;
      emitted_at = request.started_at;
      center_frequency_hz = emission.center_frequency_hz;
      bandwidth_hz = emission.bandwidth_hz;
    }

    -- One pass of the second loop.
    unfoldable pub receive_at : NodeCommittedState W → Result (ReceivedSignal W)
    receive_at receiver_state = do
      query ← create_query (query_for receiver_state)
      response ← channel query
      validate_channel_field_response_identity query response
      ReceivedSignal.create emission response

    -- The second loop.
    unfoldable pub receive_all : List (NodeCommittedState W) → Result (List (ReceivedSignal W))
    unfolding receive_at
    receive_all [] = ok []
    receive_all (r ∷ rs) = do signal ← receive_at r; rest ← receive_all rs; ok (signal ∷ rest)

  module _ (tx_phy : ITxPhy W) (channel : IChannelFieldProvider W) where
    unfoldable pub transmit :
        TransmissionExecutionRequest → Prepared W → TransmissionId → Result (TransmissionSession W)
    unfolding receive_all
    transmit request prepared id = do
      let encode_request : TxEncodeRequest = record {
        transmission_id = id;
        sender_node_id = request.opportunity.sender_node_id;
        target = request.target;
        started_at = request.started_at;
      }
      emission ← tx_phy request.selected_packet encode_request
      validate_tx_emission_identity request.selected_packet encode_request emission
      reject_if (duration_eq emission.duration zero_duration) no_duration
      ended_at ← require (checked_add emission.started_at emission.duration) end_overflow
      signals ←
          receive_all channel request id emission prepared.sender_state prepared.receiver_states
      ok (record {
        packet = request.selected_packet;
        transmission = record {
          transmission_id = id;
          packet_id = request.selected_packet.packet_id;
          sender_node_id = request.opportunity.sender_node_id;
          target = request.target;
          started_at = request.started_at;
          ended_at = ended_at;
        };
        emission = emission;
        received_signals = signals;
      })

    -- `ExecuteTransmission`, with the allocator that it leaves.
    unfoldable pub execute_transmission :
        CommunicationIdAllocator
        → CycleWorkingState W
        → TransmissionExecutionRequest
        → CommunicationIdAllocator × Result (TransmissionSession W)
    unfolding prepare transmit
    execute_transmission ids working_state request = elim (prepare working_state request) [
      | err e ↦ (ids, err e)
      | ok prepared ↦
          let (ids', id) = next_transmission_id ids in (ids', id >>= transmit request prepared)
    ]
