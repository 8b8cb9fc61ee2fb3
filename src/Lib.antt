-- ===== src/Lib.antt =====
-- A model of coasio, a library of C++ coroutines on top of asio, and what holds of it.
--
-- The program's parts. A `runtime` has a queue of ready coroutines that its workers take from, a list
-- of root tasks, and a pool of threads for blocking functions. A `task` is a coroutine; a root task is
-- spawned with a cancellation scope and a one-shot channel for its result. Awaitables arm a guard on
-- the scope of the task that awaits them: when the scope is cancelled the guard's callback takes the
-- coroutine out of the primitive that it waits in and schedules it. The primitives are the semaphore
-- (and the mutex on it), the channel, the blocking pool, and the awaitables on asio: sleeping, accepting,
-- reading and writing; other operations on files run on the pool. The echo server is a program on top.
--
-- The files, and the code that they model (paths from the repository's root):
--   Common        lists, tests on numbers, what the modules share.
--   Links         the intrusive lists of waiter, cancel_guard and root_node: two maps from addresses
--                 to addresses, with 0 for the null pointer. Links.Chain relates them to lists.
--   Words         64-bit arithmetic of `ptrdiff_t` and `size_t`, with its wrap-around.
--   Error         include/coasio/error.hpp.
--   CancelScope   include/coasio/cancel_scope.hpp: arm, disarm, cancel. Rep: the well-formed scopes;
--                 Firing: what cancel does; Moves: guards that are moved; History: any sequence of
--                 operations, with the callbacks.
--   Semaphore     include/coasio/sync/semaphore.hpp: state::{try_acquire, try_acquire_or_enqueue,
--                 try_cancel_waiter, release, dequeue_or_return}. Fifo: the specification of serving;
--                 Rep, Serving, Granting, Operations, Leaving: the operations against it; World, Wakeups: any
--                 number of tasks; GivenUp: waiters that are given up; Permit: semaphore_permit,
--                 semaphore; Mutex: include/coasio/sync/mutex.hpp; Awaiter: acquire_awaiter.
--   Oneshot       include/coasio/sync/oneshot.hpp: state, sender and the receiver's awaiter.
--   Blocking      include/coasio/detail/blocking: control_block and blocking_awaiter
--                 (spawn_blocking.hpp; Race, Progress: its interleavings), pool (pool.hpp; Pool, and
--                 Pool.Threads: any number of threads and the destructor).
--   Task          include/coasio/task.hpp: the promise, final_suspend, the awaiter of a child task. Void:
--                 task<void>; Ownership: who holds and who destroys a frame.
--   Runtime       include/coasio/runtime.hpp and src/runtime.cpp: the queue (Queue), the roots and the
--                 destructor's loop (Roots), _spawn, the end of a root and join (Spawn,
--                 Finishing); block_on and include/coasio.hpp (BlockOn); the pool on demand
--                 (OnDemand); the destructor against the roots that are left and the pool, and
--                 roots that are spawned late (Shutdown.Ordered, Shutdown.Late); any number of workers and
--                 the joining of them (Workers); how a root's scope reaches what its tasks await
--                 (Scopes).
--   Filesystem    include/coasio/filesystem.hpp; File: include/coasio/filesystem/file.hpp.
--   HostPort      include/coasio/net/helper.hpp: trim_whitespace (Trim), parse_port (Port),
--                 parse_host_port (Parse).
--   Async         include/coasio/detail/async_op.hpp, sleep of include/coasio/time.hpp, and accept of
--                 include/coasio/net/tcp/listener.hpp. Leaf: their interface; Leaf.Race: such an
--                 awaiter, asio and a canceller; CoAwait: the parts of a co_await in order;
--                 Timer: the class timer.
--   Net           include/coasio/net/tcp/{socket,listener}.hpp and include/coasio/net/base_resolver.hpp.
--                 Chain: opening and binding; Connect: connect_to; Streams: the reads, writes and waits,
--                 with those of include/coasio/filesystem/file.hpp.
--                 Create: sockets, listeners and resolvers that are made; Address:
--                 include/coasio/net/tcp/ip_address.hpp and include/coasio/net/base_endpoint.hpp.
--   Programs      examples/echo_client.cpp (Clients) and examples/cancel_that.cpp (Work).
--   Echo          examples/echo_server.cpp: RollingMetrics (Window, Percentiles), the watching task, the
--                 clients' handlers and the main loop (Server).
-- Each component's Examples apply its theorems to concrete states.
--
-- How state and calls are modelled. An object is a record of its members; an operation takes it and
-- gives it back. A section under a mutex is one operation. What an operation hands to
-- `runtime_schedule` or runs as a callback is part of its result. Where several threads meet, the
-- steps are the constructors of a relation `Step`, and reachable states a relation `Reach`: the
-- semaphore with `release` split into its addition, its test of `has_waiters_` and its locked section;
-- the awaiters of the semaphore and of the pool an access at a time; the workers of the runtime and the
-- threads of the pool with the condition variable that they sleep on. A compare-exchange loop is
-- modelled without the interference that makes it repeat.
--
-- Bounds and fuel. Loops over intrusive lists are recursion on fuel, and the theorems say that the
-- length of the list, or one more, is enough. The counters are 64-bit words; theorems on them say which
-- values they need. The buffer of 16 coroutines that the semaphore fills is modelled with that bound.
--
-- Parameters. The functions of `std::filesystem` are a record, StdFilesystem; asio's file flags and
-- files are the records AsioFlags, with the law of a union of flags, and AsioFile; its sockets, acceptors
-- and operations are AsioSocket, AsioAcceptor, AsioNet, AsioStream, AsioRandom and AsioTimer, its
-- addresses and endpoints AsioAddress and AsioEndpoint, with the laws of setters. An asio operation that
-- was started completes or is still under way; a signal reaches it if it was started on the signal's slot
-- and is not complete. Doubles is `double` with an order and std::sort.
--
-- Not modelled: memory orders; asio's event loop, which an io thread leaves some time after the work guard
-- was reset; the copies and moves of
-- smart pointers; what the examples print; examples/smoke_test.cpp and the tests, which only print or
-- assert what they see.
pub mod Common
pub mod Links
pub mod Words
pub mod Error
pub mod CancelScope
pub mod Semaphore
pub mod Oneshot
pub mod Blocking
pub mod Task
pub mod Runtime
pub mod Filesystem
pub mod HostPort
pub mod Async
pub mod Net
pub mod Echo
pub mod Programs
