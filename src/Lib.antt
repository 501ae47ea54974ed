-- ===== src/Lib.antt =====
-- A model of the network kernel extension of MacOSX-Network-Sockets-Filter, a socket filter that holds
-- every packet back, reports it to a client in user mode, and sends it on or drops it as the client
-- answers.
--
-- The parts and the files, with the code under NKE/NetworkKernelExtension, but for the client:
-- - Pool: the communication buffers of NkeSocketFilter.cpp and NkeDataBuffer.cpp. `Pool` is the free
--   list threaded through `freeBuffers`; `acquire`, `release`, `release_data_buffers` and
--   `copy_data_to_buffers` are the functions of these names. Pool/FreeList, Pool/Init, Pool/Copy,
--   Pool/Deliver and Pool/Twice are about what they do to the list. Pool/Activities has the loops of
--   `acquire` and `release` step by step, for several activities at once. DataBuffer is
--   `NkeDataBuffer`.
-- - Packet: the pending packet and the notification of NkeSocketObject.h and NkeUserToKernel.h, and
--   the effects that leave the extension, which the model collects in a trace.
-- - Tags: `checkTag`, `setTag` and `prependMbufHdr` of NkeSocketObject.cpp.
-- - Socket: the socket object of NkeSocketObject.cpp: `allocatePkt`, `checkForInjectionCompletion`;
--   Socket/Reinject for `reinjectDeferredData`, Socket/Purge for `purgePendingQueue`, Socket/Response
--   for `setDeferredDataProperties`, Socket/Verify for `verifyPendingPacketsQueue`, Socket/Events for
--   the event flags, Socket/Address for the addresses, Socket/Detach for the detaching lock of
--   several threads, Socket/Allocation for `init` and `free`. Socket/Counters has the invariant of an
--   object between two operations, `IsValid`.
-- - Filter: the state of the whole filter. Filter/Delivery is `DeliverWaitingNotifications` with
--   `releaseDataBuffersAndDeliverNotifications`, Filter/Data is `FltData`, Filter/Service is
--   `processServiceResponse`, Filter/Life is `FltAttach` and `FltDetach`, Filter/Notify is `FltNotify`
--   of NkeSocketFilter.cpp, with what they do to the pending packets in Filter/Close;
--   Filter/Connect has the callbacks that note an address, Filter/Injection is a round of the
--   injection thread. Filter/References counts the references.
--   They call the operations of Socket and Pool on one shared state.
-- - Queue: the data queue that the kernel shares with its client: `enqueueWithBarrier` and
--   `socketFilterNotification` of NkeIOUserClient.cpp, `IODataQueueDequeue` of NkeSocketObject.cpp.
--   Queue/Layout says how its bytes hold a list of entries; Queue/Enqueue, Queue/Dequeue, Queue/Order
--   and Queue/Bounds are about the calls.
-- - UserClient: `NkeIOUserClientRef` of NkeIOUserClient.cpp, by several threads (UserClient/Threads);
--   UserClient/Session is how `NkeIOUserClient` opens, logs and closes, UserClient/Resources is what
--   it allocates, with `newUserClient` of NetworkKernelExtension.cpp, UserClient/Memory is
--   `clientMemoryForType`, and UserClient/Respond the call that hands a response to Filter/Service.
-- - Extension: `start` and `stop` of NetworkKernelExtension.cpp, `startFilter` and `stopFilter`, and
--   `InitSocketObjectsSubsystem`.
-- - LinkedList: the `LIST_ENTRY` functions of NkeCommon.h, which no other part calls.
-- - Client: `NkeSocketHandler` of NkeClient/NkeClient/main.cpp; Client/Answer is about its responses
--   in Socket and Pool.
-- - System: any sequence of these calls. A call of `FltNotify` that waits in
--   `sock_evt_disconnecting` holds its reference and goes on as a step of its own; the others run to
--   their end.
-- - Base: names, lists and numbers that the parts share. Tests: concrete runs.
--
-- A function returns the new state; effects on the kernel and the client are listed in order. A
-- counter of 32 bits and a `size_t` wrap around. What the kernel and the client answer is a
-- parameter: a record `Environment` of functions, and a record `MbufKpi` for the tags.
-- An address field has the 28 bytes of the union in the code. The copy of a longer address goes over
-- the members that follow, which only an assert excludes; the operations that copy return an
-- `Option`, whose `none` stands for that.
--
-- Bounds and fuel: the loop of `copyDataToBuffers` runs on the number of bytes plus one, of which
-- each round takes at least one; the loop of `DeliverWaitingNotifications` and its nested calls run
-- on the length of `SocketsListToReport` plus one.
--
-- Not modelled: threads that run between two steps of one call, but for the detaching lock, the user
-- client reference, the free list of the buffers and the wait of `FltNotify` (the other locks are
-- taken at once); what a copy beyond an address field does; a `getObject` of a buffer that was not
-- created; the freeing of a socket object within the state of the filter, where its count is zero
-- then; the callbacks that only log, the dispatch table, and what a debug build adds; `main`,
-- `NkeOpenDlDriver` and the output of the client program.
pub mod Base
pub mod Pool
pub mod Packet
pub mod Tags
pub mod Socket
pub mod Filter
pub mod Queue
pub mod UserClient
pub mod Extension
pub mod LinkedList
pub mod Client
pub mod DataBuffer
pub mod System
pub mod Tests
