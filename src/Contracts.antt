-- ===== src/Contracts.antt =====
-- Platform/contracts: the value types and the checked constructors that the modules exchange.
pub mod Errors
pub mod Time
pub mod Doubles
pub mod State
pub mod Packets
pub mod TxPhy
pub mod Channel
pub mod ReceivedSignal
pub mod ReceiverWindow
pub mod Noise
pub mod RxPhy
