-- ===== src/Lib.antt =====
-- A model of norn, a single-threaded asynchronous runtime for Linux: what its crates keep as state,
-- each operation as the code has it, and the theorems that make the parts correct.
--
-- The parts and how they interact. An executor (norn-executor) takes runnables from a task queue
-- (norn-task) and, when there are none, parks in a timer driver (norn-timer) that wraps the driver
-- of io_uring (norn-uring). Each of them wakes tasks through wakers.
--
-- norn-task. Task/State is norn-task/src/state.rs: the flags and the reference count.
-- Task/FutureCell is future_cell.rs. Task/Cell is task_cell.rs and header.rs: the vtable of one
-- task and its handles, on a `World` that holds the allocation and counts the handles that are out.
-- Task/World is the view from outside, with an action for each call that schedule.rs, join.rs and
-- tasks.rs offer; ownership decides which actions are there. A poll of the future is two actions,
-- `run` and `returns`, so that others happen between them. Task/World/Safety, Task/Wakeups,
-- Task/Phases and Task/Results prove; Task/Spawn is `TaskSet::bind` and what is reachable from it.
--
-- norn-timer. Timer/Bits is the bit set of a level, a function from the index. Timer/Ticks is the
-- arithmetic of levels and slots, Timer/Level is norn-timer/src/level.rs, Timer/Wheels is
-- wheels.rs. Below them, Ticks/Xor, Ticks/Placement and Ticks/Deadlines show where a deadline
-- belongs, Level/Next is about the search of a level, and Wheels/Sums to Wheels/Due follow
-- `advance` from the slot that it takes to the timers that it fires, Wheels/Removing is about
-- `remove`, Wheels/Stopping about `shutdown`. Timer/Driver is `Driver::park` of lib.rs with the
-- tick of clock.rs, Timer/Sleep the states of a `Sleep` of entry.rs. Timer/Runtime puts every
-- `Sleep` and the wheel that they share together, with the clocks in Runtime/Clock;
-- Runtime/Delivery, Finding, Holding and Owning relate the sleeps to the entries of the wheel,
-- Parking, Ringing, Leaving, Starting and Polling follow the calls, OnTime whole runs of them.
--
-- norn-task/src/taskqueue.rs with the list of tasks.rs is Task/Queue: several tasks and their run
-- queue, from the outside; Queue/Order proves.
--
-- norn-executor. Executor is norn-executor/src/lib.rs with wakerfn.rs: `block_on` as steps on the
-- task queue and on what the root future and the parker answer; Executor/Sleeping proves.
-- Executor/Timed composes it with Timer/Runtime: `block_on` of a `Sleep` with the timer driver as
-- its parker, with the states between the rounds in Timed/Waiting and the whole run in
-- Timed/Returning.
--
-- norn-util. PollSet is norn-util/src/pollset.rs, tasks with a run queue of their own that an outer
-- task polls; PollSet/Pending proves.
--
-- norn-uring, the driver. Uring/Unparker is norn-uring/src/driver/unpark.rs, the flag that remote
-- threads share with the reactor, with the use that `prepare_park` makes of it, on a sequence of
-- steps of all of them; Unparker/Waking proves. Uring/Entry has the submission entries as data.
-- Uring/Driver is norn-uring/src/driver/mod.rs: the two queues of the ring, submission and
-- draining; Driver/Park parks and shuts down, Driver/Requests closes descriptors and cancels,
-- Driver/Push is the push future of driver/futures.rs, Driver/Pushers several of them, Driver/Op
-- the future of an operation from norn-uring/src/operation/mod.rs. Below them, Driver/Pushing,
-- Sending and Room are about the way into the submission queue, Driver/Draining, Dispatch and
-- Completing about the way from the completion queue to an operation; Driver/Backpressure puts the
-- push futures beside the kernel, Driver/Answering follows an operation there and back,
-- Driver/Requesting proves about Requests.
--
-- norn-uring, the rest. Uring/Notify is norn-uring/src/util/notify.rs, the queue of waiters for
-- room in the submission queue, which a descriptor has too; Notify/Queue, Firing, Safety, Waiting
-- and Counting prove. Uring/Operation is norn-uring/src/operation: an operation that the kernel and
-- a future own together; Operation/Shape, Operation/Safety and Operation/Results prove. Uring/Fd is
-- norn-uring/src/fd.rs, a descriptor with its handles, with Fd/Closing about its close. Uring/Net
-- is norn-uring/src/net/socket.rs: the entry, the output and the cleanup of each operation;
-- Net/Readiness are the readiness of streams in net/tcp.rs and the events of socket.rs, Net/Owning
-- proves. Net/Sockets are the methods of socket.rs, tcp.rs and net/udp.rs that make, connect and
-- shut down sockets, as scripts of what they await, with Sockets/Leaks about their drops at any
-- step; Sockets/Requests are those that submit one operation. Net/Incoming is the stream of the
-- connections to a listener, made of multi-shot operations; Incoming/Accepts and Incoming/Kept
-- prove. Net/Streams is the byte stream of tcp.rs with its two halves; Readiness/Settling and
-- Streams/Serving prove. Uring/Fs is norn-uring/src/fs/file.rs and fs/dir.rs. Uring/BufRing is
-- norn-uring/src/bufring.rs, the ring of buffers for the kernel: BufRing/Mask and BufRing/Powers
-- are its arithmetic, BufRing/Window the queue between head and tail, BufRing/Build,
-- BufRing/Refusing and BufRing/Recycling prove. Uring/OpenOptions is norn-uring/src/fs/opts.rs,
-- with OpenOptions/Opening from the setters to the request of fs/file.rs, Uring/Buf the cursor, the
-- limit and the filling of norn-uring/src/buf.rs.
--
-- Conventions. Numbers are natural numbers; where the width matters the wrap is written out.
-- `Outcome` tells a panic, an access to freed memory and a loop out of fuel apart. Assertions,
-- those of debug builds too, are checks. Pointers are numbers, wakers too. Callbacks into user code
-- are inputs.
--
-- Fuel and bounds. The loops of `Wheels::advance` and `Wheels::shutdown` have 385 rounds: each
-- empties one of the 384 slots. The theorems about the wheel take timers that lie less than a turn
-- of the highest level, 2^36 ms, ahead. The loop of the drain has one round more than the maximum
-- that it is given, the push future two rounds, a close four; each is shown to be enough. Parking
-- and shutdown end with the list of the kernel's answers that they are given. A poll of a byte
-- stream ends if it is given as many results of calls as answers of the armed operation.
--
-- Not modelled: the drop of a poll set, whose tasks and shared state own each other; the parkers
-- that spin or wait for a condition variable, the thread-local contexts; the methods of the TCP and
-- UDP types that only pass a call on, the addresses of sockets and the socket options; system
-- calls; formatting; the tests and benchmarks.
pub mod Prelude
pub mod Store
pub mod Executor
pub mod PollSet
pub mod Task
pub mod Timer
pub mod Uring
