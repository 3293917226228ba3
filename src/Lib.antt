-- ===== src/Lib.antt =====
-- ReiserRT_Core: ring buffers, a counting semaphore, a memory pool and a message queue for the threads
-- of a real-time program.
--
-- The parts and how they interact. A simple ring is an array with two counters. A semaphore counts,
-- between zero and a maximum, and lets threads wait for either. A guarded ring is a simple ring whose
-- calls run inside the calls of a semaphore. A memory pool cuts an arena into blocks and keeps the
-- addresses of the free ones in a simple ring. A message queue sends the blocks of its arena round
-- between a guarded ring of raw blocks and a guarded ring of messages. The example program has a
-- dispatcher and its tasks, each a thread behind a message queue: the dispatcher fires jobs, whose
-- objects come from an object pool, and counts those completed.
--
--   Prelude, and its children: shared names, tests, lists, unsigned words, families indexed by
--     threads.
--   Outcome: how a call ends (src/ReiserRT_CoreExceptions.hpp, and what C++ leaves undefined).
--   BoundedQueue: the specification of the rings, a first-in first-out queue with a capacity.
--   RingBufferSimple (src/RingBufferSimple.hpp): the class RingBufferSimpleImple, a function for
--     each member function. Sizing is about numBitsForNE, Contents defines which elements a ring
--     holds, Steps and Refine compare the ring with the queue.
--   Semaphore (src/Semaphore.cpp): the class Semaphore::Imple. The mutex is held but for the waits
--     on the condition variables, so a call is a segment from its start, or from a wake-up, to its
--     end or its next wait. Counts is about one segment. Threads is the step relation of any
--     number of threads that run segments in any order, with signals, broadcasts and spurious
--     wake-ups; Tallies, Pending, Permits and Steps carry its invariant. Discipline is what the
--     functions of a client have to keep, Keeping what they keep, Wakeups and Liveness are about
--     the wake-ups of such clients.
--   RingBufferGuarded (src/RingBufferGuarded.hpp): get, put, prime, flush and abort. Contents,
--     Calls, Priming and Flushing say what one call does to the elements, Aborting what is left to
--     do after an abort. Ledger makes get and put clients of the semaphore's step relation, Fifo
--     shows that they keep its discipline, and Threads is about any number of threads that call
--     them.
--   MemoryPool (src/MemoryPoolBase.cpp): addresses are offsets into the arena. Memory is about
--     sizes and bytes, Ownership says which blocks are free and lent, Construction, Lending,
--     Returning and Lifetime follow them, Overrun is about sizes that are not a whole number of
--     pointers. Threads is the step relation of any number of threads in getRawBlock and
--     returnRawBlock, from one access of the ring, the running state or the arena to the next;
--     Accesses compares it with the calls, Sharing has its invariant, Interleaving shows that the
--     steps keep it, Concurrent, Leaving and Together are about the states that threads reach.
--   MessageQueue (src/MessageQueueBase.cpp, MessageQueueBase.hpp, MessageQueue.cpp,
--     MessageQueue.hpp): the rings, the running state and the arena; Messages has put, emplace,
--     getAndDispatch, purge and the destructor, DispatchLock has AutoDispatchLock. Contents says
--     where the blocks are; Construction, Blocks, RawBlocks, Waiting, Sending, Dispatching and
--     Purging follow them; Exclusion is about the lock, BaseOffset about messages whose base class
--     is not at their start. A call that waits has a second function, named resume, for what
--     follows the wake-up. Threads is the step relation of calls that take turns at the rings;
--     Flight is about what they hold, Passing has the invariant, Circulation and Receipts show
--     that the steps keep it, and Deliveries says what the threads see. A step there is a call of
--     a ring that need not wait: how threads wait at a ring is the subject of
--     RingBufferGuarded.Threads. The theorems on threads are about messages whose base class lies
--     at their start; BaseOffset shows what happens to others.
--   ObjectPool (src/ObjectPool.hpp, ObjectPoolDeleter.hpp) and BlockPool (src/BlockPool.hpp,
--     BlockPoolDeleter.hpp, MemoryPoolDeleterBase.hpp): what is made in the blocks of a memory
--     pool, how a constructor that throws gives its block back, and the deleters. Elements is
--     about the elements of an array, Objects and Arrays follow an object or an array from its
--     construction to its end.
--   JobTask (examples/JobDispatcher/src/JobTask.cpp, JobData.hpp): the calls of a task and the
--     steps of its thread; Lifecycle is about its start and its end.
--   JobDispatcher (examples/JobDispatcher/src/JobDispatcher.cpp, main.cpp): the steps of the
--     threads in runJobs, of the dispatcher and of its tasks while the jobs run; Startup has the
--     constructor, activate, deactivate and the destructor. Accounts says where the jobs are;
--     Moves, Shapes, Owing, Counting, Places and Sound carry the invariant; Next and Measure are
--     about progress, Ids and Starting about the start; Completion and Client follow whole runs.
--     The two message queues are taken as queues of four messages, as the modules of MessageQueue
--     show them to be.
--
-- Numbers. uint32_t and uint16_t arithmetic wraps, written out; size_t is a natural number where it is
-- only compared, and wraps at 64 bits in products. A pointer has 8 bytes. Loops are recursions on the
-- number of rounds, which the source fixes before the loop; _numBitsForNE is a recursion on Acc of
-- the order on numbers, so it needs no fuel. The number of threads is below 2 ^ 16, as the
-- pending counts demand. The dispatcher is followed for 1 to 2 ^ 19 processors, up to where its pool of
-- two objects for each of them reaches the limit of a ring; its runs need no fuel, since a measure
-- bounds their steps.
--
-- Not modelled: the form of the semaphore without POSIX threads, the mutex itself, exhausted memory,
-- the message texts of exceptions, destructors that only free, the bytes of an object that a
-- constructor writes, the waits of the threads of a message queue beside one another, purge and
-- abort among them, and of the example program the names and processors of threads, its console, and
-- the interleaving of activate and deactivate with one another. The random generator of
-- JobData.cpp is a parameter.
pub mod Prelude
pub mod Outcome
pub mod BoundedQueue
pub mod RingBufferSimple
pub mod Semaphore
pub mod RingBufferGuarded
pub mod MemoryPool
pub mod ObjectPool
pub mod BlockPool
pub mod JobTask
pub mod JobDispatcher
pub mod MessageQueue
