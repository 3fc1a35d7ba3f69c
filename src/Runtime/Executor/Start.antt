-- ===== src/Runtime/Executor/Start.antt =====
-- When a send attempt can start, and what becomes of the allocator.
use ns3_bellhop_platform.Prelude.{◌≡◌, ◌≢◌, true, List, All, Pairwise}
use mathlib.Core.List.Permᴰ
use ns3_bellhop_platform.Prelude.Int.{◌≤ℤ◌}
use ns3_bellhop_platform.Contracts.Errors.{ok}
use ns3_bellhop_platform.Contracts.Doubles.{Double}
use ns3_bellhop_platform.Contracts.State.{NodeId, NodeCommittedState}
use ns3_bellhop_platform.Runtime.WorkingState.{CycleWorkingState, project_node_state}
use ns3_bellhop_platform.Runtime.Executor.{TransmissionExecutionRequest}

module _ {W : Type 0} ⦃d : Double W⦄ (s : CycleWorkingState W)
    (request : TransmissionExecutionRequest) where
  -- A node other than the sender, which can receive at the start.
  abbrev pub CanReceive : NodeId → Type 0
  CanReceive id =
      (id ≢ request.opportunity.sender_node_id)
      × ((state : NodeCommittedState W) × (project_node_state s id request.started_at ≡ ok state)
          × (state.capability.can_receive ≡ true))

  -- The opportunity is eligible, no candidate is repeated, the sender can transmit at the start, and
  -- every candidate is a node that can receive then.
  pub record CanStart : Type 0 where
    pub eligible : request.opportunity.eligible_at.nanoseconds ≤ℤ request.started_at.nanoseconds
    pub distinct : Pairwise ◌≢◌ request.candidate_receivers
    pub sender_state : NodeCommittedState W
    pub sender_there :
        project_node_state s request.opportunity.sender_node_id request.started_at ≡ ok sender_state
    pub can_transmit : sender_state.capability.can_transmit ≡ true
    pub receivers : All CanReceive request.candidate_receivers
