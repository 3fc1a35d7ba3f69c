-- ===== src/Runtime.antt =====
-- Platform/runtime: the services that run one planning cycle over the contracts.
pub mod Allocator
pub mod Commit
pub mod Ledger
pub mod WindowBuilder
pub mod Executor
pub mod Processor
pub mod Projector
pub mod WorkingState
pub mod CycleRuntime
