-- ===== src/Lib.antt =====
-- Data structures for concurrent programs, modelled from their C++ sources.
--
-- The parts of the program and where they are modelled. Base holds what all parts share: Boolean
-- tests, lists, signed integers, remainders and bit masks over the native numbers. Fifo is the
-- bounded queue that the ring queues are compared with, and Window the slots of a ring. Protocol is
-- how any number of threads share the slots of a ring by tickets: a step relation of its own, which
-- the threads of both lock-free queues are compared with. Its child Inv is what the threads may
-- rely on, Knowledge what the others leave to each, and Steps, with Moves and Slots, is about the
-- steps.
--
-- * DataStructures/LockFreeQueue.h, `LockFreeQueueCpp11`: RingQueue. `_tail` and `_head` are
--   numbers below 2 ^ 64 that wrap, as does each node's pair of counters. `make` is the
--   constructor, `push`, `pop` and `size` are the members; `push_loop` and `pop_loop` are their
--   loops, whose fuel is the number of spurious failures of the weak exchange, so it bounds
--   nothing but these. `widen` is the loop on the mask, with fuel for seven rounds, of which it
--   makes six. The children: Holds (what a queue stands for), Make, Publish, Release (the parts of
--   the operations), Refines and Destroy (the destructor, on fuel, of which one more than there
--   are values is enough). Threads has push and pop as step functions and the threads that run
--   them as a step relation; Abstract is the state of the Protocol that a state stands for, Frame,
--   Pushes, Pops and Simulates are about steps, Safety about what holds of every interleaving,
--   Alone and Fifos about a call that runs alone. It is limited to fewer pushes than would wrap the
--   counters.
-- * DataStructures/timer.cpp, `Timer`: Timer. The std::set is a list in order; the clock is an
--   argument, as is what callbacks do. `check_all` is the inner loop of `main`, on a list of
--   readings of the clock. Order and Set are about the set, Laws and Fire about the operations.
-- * DataStructures/ThreadSafeQueue.h, `ThreadSafeQueue`: ThreadSafeQueue. Nodes lie on a heap by
--   address; an operation gives `none` where the source would follow an invalid pointer.
--   `take_head` is `wait_pop` and `wait_and_pop` after their wait. Chain says when nodes form a
--   queue, Refines what the operations do, Wakeup has the threads as a step relation over the same
--   operations, with waits that may return without a notification, and Threads what holds of them. The destructor's fuel counts nodes.
-- * DataStructures/BlockQueue.h, `BlockQueue`, of which other/4_test_lock_free_queue.cpp has a
--   copy: BlockQueue. What other threads do while a `Dequeue` waits is a list of actions.
-- * DataStructures/ThreadSafeShared_ptr.h, `ThreadSafeShared_ptr`: SharedPtr. Counters and objects
--   are a world by address. Counting and Births are about ownership, Assign about assignment
--   between owners and null pointers.
--   Threads has the accesses of a copy and of a destructor as steps of any number of threads that
--   share one object; its children are Life and Safety.
-- * other/LockFreeArrayQueue.h, `LockFreeArrayQueue`: ArrayQueue. Push_CAS and Pop_CAS are step
--   functions in Cas, one access of shared memory a step; `push_alone` and `pop_alone` run them on
--   fuel, of which six steps are enough for a call that runs alone. Locked and Tickets are about
--   the two modes, Modes about sequences of calls, Collision about sizes that are no power of two.
--   Threads interleaves the steps of many calls, with children as those of RingQueue.Threads.
-- * DataStructures/DataChunkQueue.h, `zmqQueue`: ChunkQueue. Chunks lie on a heap by address; what
--   malloc leaves in a chunk is an argument. The destructor's fuel counts chunks. Growth is about
--   how `push` uses the chunks, Chain and Links about how they are linked, Frees and Destroys
--   about what is freed, Life about a queue from its constructor to its destructor.
-- * DataStructures/LockFreePipe.h, `LockFreePipe`: Pipe, over ChunkQueue. `check_load` and
--   `check_swap` are the two accesses of `check_read` to the shared pointer, and Handshake is
--   about what the writer and the reader tell each other through it, Unwrite about taking a value
--   back.
-- * DataStructures/ThreadPool.h, `ThreadPool`: ThreadPool. `work_step` is one step of
--   `work_thread`, `run` runs a schedule of steps, submissions and the end of the pool. Order is
--   about the order in which tasks start, Exit about how workers end. Linked is the pool over the
--   queue of ThreadSafeQueue.h instead of a list, with its nodes on the heap, and Composed
--   compares the two. Lifetime is the life of a pool: the loop and the catch of the constructor,
--   the destruction of the members in their order, and `threads_joiner`; Inv and Moves are about
--   its steps, Settled, Teardown and Shutdown about how it ends.
-- * test_threadpool.cpp, `parallel_accumulate`: Accumulate, on the list of the elements of the
--   range. Blocks is about how the range is cut and what becomes of its elements.
-- * other/4_test_lock_free_queue.cpp, the producer and consumer threads: Bench. `lxx_atomic_add`
--   is two steps, the add and the reading again. A queue of another header is a parameter whose
--   calls are one step each, and Contract says what it and the producers promise; Producers has
--   the producers, Consumes, Handed, Keeps and PipeKeeps are about single steps, Leaves about
--   every schedule, Exits about the runs of `main`, Single about one producer, Collide about
--   two, and Ends, Drains and Stops about how the threads end (Counts about their steps). Mutex
--   is the list with its mutex (Takes about what comes out, Drains, Leaves and Ends about how
--   the threads end), Condition the pipe with its condition variable (Steps, Asleep). The
--   counters are natural numbers, for fewer values than an `int` counts.
--
-- The parts use each other little: LockFreePipe.h uses DataChunkQueue.h, and ThreadPool.h uses
-- ThreadSafeQueue.h, whose queue stands in the model of the pool as the list of its values
-- (ThreadPool.Linked has the queue itself), and `parallel_accumulate` uses the pool, which runs
-- each of its blocks once. Of a future the model has whether it is ready or broken, not the value
-- that it holds. Memory is sequentially consistent in every model, and the array queue has no
-- bound on its `long long` indices. Not modelled either: the copies of ZeroMQ (other/ypipe.hpp,
-- other/yqueue.hpp, other/atomic_ptr.hpp), which are third-party code;
-- DataStructures/LockFreeStack.h, all of which is a comment; DataStructures/ThreadSafeHashmap.cpp,
-- which has no code; the macros of ErrorAssert.h and atom_opt.h; and the test drivers test.cpp,
-- test_args.cpp and the main of test_threadpool.cpp. Of other/4_test_lock_free_queue.cpp the printing,
-- the clock and the program's arguments are left out, and SimpleLockFreeQueue.h and
-- ArrayLockFreeQueue.h, which it includes, are not in the repository.
pub mod Accumulate
pub mod ArrayQueue
pub mod Base
pub mod Bench
pub mod BlockQueue
pub mod ChunkQueue
pub mod Fifo
pub mod Pipe
pub mod Protocol
pub mod RingQueue
pub mod SharedPtr
pub mod ThreadPool
pub mod ThreadSafeQueue
pub mod Timer
pub mod Window
