-- ===== src/Lib.antt =====
-- The planning-cycle runtime of an underwater acoustic network simulator, and the contracts of its
-- values.
--
-- A world snapshot holds the committed state of all nodes. A planning cycle works on a base snapshot:
-- transmissions are executed at the projected positions of the nodes, each receiver gets a signal,
-- the signals in flight stand in a ledger, a signal that has ended is decoded in the window of the
-- signals that overlap it, and at the end of the cycle a delta set with all nodes is committed as the
-- next snapshot.
--
-- Files, with the sources (contracts is Platform/contracts/include/ns3_factory/contracts, runtime is
-- Platform/runtime/internal):
--   Prelude             tests, lists, sorting and rearrangements, lexical comparisons, ranges of
--                       sorted lists, association lists, integers
--   Contracts/Errors    contracts/errors.hpp: errors, results and early returns
--   Contracts/Time      contracts/{common,time}.hpp: SimTime, SimDuration, CheckedAdd and the rest
--   Contracts/Doubles   the floating point that the headers rely on
--   Contracts/State     contracts/{identity,node_capability,state,delta}.hpp: WorldSnapshot::Create
--   Contracts/Packets   contracts/{destination,transmission_target,packet,...}.hpp
--   Contracts/TxPhy, Channel, Noise, RxPhy
--                       contracts/{tx_phy,channel,noise,rx_phy}.hpp: values and identity checks
--   Contracts/ReceivedSignal, ReceiverWindow
--                       contracts/{received_signal,receiver_window}.hpp
--   Runtime/Allocator   runtime/communication_id_allocator.hpp: CommunicationIdAllocator
--   Runtime/Commit      runtime/{world_state_store,commit_service}.hpp: CommitService::CommitCycle
--   Runtime/Projector   runtime/state_projector.hpp: StateProjector
--   Runtime/WorkingState
--                       runtime/cycle_working_state.hpp: CycleWorkingState
--   Runtime/Ledger      runtime/in_flight_signal_ledger.hpp: InFlightSignalLedger
--   Runtime/WindowBuilder
--                       runtime/receiver_window_builder.hpp: ReceiverWindowBuilder::Build
--   Runtime/Executor    runtime/{transmission_executor,transmission_session}.hpp
--   Runtime/Processor   runtime/{receiver_processor,reception_session,
--                       reception_result_accumulator}.hpp
--   Runtime/CycleRuntime
--                       runtime/cycle_signal_runtime.hpp: CycleSignalRuntime, the four handlers
--   Kernel/Gateway      Platform/kernel/internal/ns3_kernel_gateway.hpp: Ns3KernelGateway
--   Kernel/Dispatcher   Platform/kernel/internal/event_dispatcher.hpp: EventDispatcher's constructor,
--                       Schedule and ScheduleAt
--   Kernel/Dispatch     the same file: EventDispatcher::DispatchTime and Run
--   Lifecycle           Platform/tests/ns3_signal_lifecycle_integration_test.cpp: the callbacks that
--                       put EventDispatcher and CycleSignalRuntime together
--   Examples            test data and runs
--
-- Correspondence. A function has the name of the C++ function in snake case. std::expected is
-- `Result`; an early return of std::unexpected is a step of a do block. A member function that changes
-- its object takes the object and returns the changed one. A class that holds references to others
-- (CommitService, TransmissionExecutor, CycleSignalRuntime) takes their states. std::sort is a stable
-- insertion sort. An int64_t count is an integer, and `InRange` says where that matters; a uint64_t
-- keeps its wrap-around. Loops are structural recursion, but for the loop of DispatchTime, where
-- callbacks add events: it has fuel, and some amount is always enough.
--
-- Callbacks. What a std::function of the dispatcher does when it is called is an `EventCallback`: what
-- it does to the state that the callbacks share, the events that it schedules, what it does then with
-- each answer, and the status that it returns. So a call of a callback ends, and a callback may
-- schedule itself. What ns-3's Run does is a list of the times whose callback it calls, with what it
-- does to its own state before each, after what it does when it starts.
--
-- Parameters. The modem, the channel field, the noise field and the receiver's PHY are functions that
-- return results. Floating point is the record `Double`; where a theorem needs laws of comparison it
-- takes `IsIeee`. What the gateway calls of ns-3 is the record `Ns3`, with `IsNs3` for nanosecond
-- resolution. The transmission executor and the receiver processor share one id allocator, as they
-- are put together in Platform/tests.
--
-- Not modelled: ns-3's Simulator, so that the queue of ns-3 itself is not related to the buckets
-- (what it calls is an argument of Run); an event phase that is none of the enumerators, for which no
-- public function asks; the other tests; the deleted overloads and the accessors without logic.
pub mod Prelude
pub mod Contracts
pub mod Runtime
pub mod Kernel
pub mod Lifecycle
pub mod Examples
