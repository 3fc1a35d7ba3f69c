-- ===== src/Kernel.antt =====
-- Platform/kernel/internal: the boundary to the simulator.
pub mod Gateway
pub mod Dispatcher
pub mod Dispatch
