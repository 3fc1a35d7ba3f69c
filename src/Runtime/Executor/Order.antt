-- ===== src/Runtime/Executor/Order.antt =====
-- The order in which `ExecuteTransmission` is given the candidate receivers.
use ns3_bellhop_platform.Prelude.{◌≡◌, refl, List, Perm, sort_by-ltb-perm}
use ns3_bellhop_platform.Contracts.Doubles.{Double}
use ns3_bellhop_platform.Contracts.State.{NodeId}
use ns3_bellhop_platform.Runtime.Allocator.{CommunicationIdAllocator}
use ns3_bellhop_platform.Runtime.WorkingState.{CycleWorkingState}
use ns3_bellhop_platform.Runtime.Executor.{
  TransmissionExecutionRequest, ITxPhy, IChannelFieldProvider, execute_transmission, prepare,
  transmit,
}

module _ {W : Type 0} ⦃d : Double W⦄ where
  prepare-perm :
      (s : CycleWorkingState W) (request : TransmissionExecutionRequest) (candidates : List NodeId)
      → Perm request.candidate_receivers candidates
      → prepare s (record request { candidate_receivers = candidates }) ≡ prepare s request
  unfolding prepare
  prepare-perm s request candidates p = rw (prepare, sort_by-ltb-perm p) refl

  module _ (tx_phy : ITxPhy W) (channel : IChannelFieldProvider W) where
    -- However the candidate receivers are ordered, `ExecuteTransmission` has the same result and
    -- leaves the same allocator: success and error alike, and each error is the same one.
    pub execute_transmission-perm :
        (ids : CommunicationIdAllocator) (s : CycleWorkingState W)
        (request : TransmissionExecutionRequest) (candidates : List NodeId)
        → Perm request.candidate_receivers candidates
        → execute_transmission tx_phy channel ids s
            (record request { candidate_receivers = candidates })
          ≡ execute_transmission tx_phy channel ids s request
    unfolding execute_transmission transmit
    execute_transmission-perm ids s request candidates p =
        rw (execute_transmission, prepare-perm s request candidates p) refl
