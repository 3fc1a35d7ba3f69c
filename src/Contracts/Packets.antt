-- ===== src/Contracts/Packets.antt =====
-- Platform/contracts/include/ns3_factory/contracts/{destination,transmission_target,packet,
-- tx_opportunity,transmission,reception}.hpp: the plain data of a transmission. A byte of a payload
-- is a number.
use ns3_bellhop_platform.Prelude.{ℕ, List}
use ns3_bellhop_platform.Contracts.Time.{SimTime}
use ns3_bellhop_platform.Contracts.State.{NodeId, PacketId, TransmissionId, ReceptionId}

pub data PacketDestination : Type 0 where
  unicast_destination : NodeId → PacketDestination
  broadcast_destination : PacketDestination

pub data TransmissionTarget : Type 0 where
  unicast_target : NodeId → TransmissionTarget
  broadcast_target : TransmissionTarget

pub record DigitalPacket : Type 0 where
  pub packet_id : PacketId
  pub source_node_id : NodeId
  pub destination : PacketDestination
  pub payload : List ℕ

pub record TxOpportunity : Type 0 where
  pub sender_node_id : NodeId
  pub eligible_at : SimTime

pub record Transmission : Type 0 where
  pub transmission_id : TransmissionId
  pub packet_id : PacketId
  pub sender_node_id : NodeId
  pub target : TransmissionTarget
  pub started_at : SimTime
  pub ended_at : SimTime

pub record Reception : Type 0 where
  pub reception_id : ReceptionId
  pub transmission_id : TransmissionId
  pub receiver_node_id : NodeId
  pub arrival_at : SimTime
