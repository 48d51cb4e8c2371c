-- ===== src/Lib.antt =====
-- ostep-code: the programs that accompany the book Operating Systems: Three Easy Pieces, and
-- their owner's C++ exercises on threads. This library models its concurrent core: of
-- threads-sema the readers-writer locks and the programs on semaphores, of threads-cv and
-- threads-bugs those on condition variables and those with a mistake, and from threads-locks the
-- locked containers, the ring buffer, the producers and consumers, the thread pool, the event
-- queue, the dispatch queue, the lock-free stack, the odd and even printers, ping and pong and
-- the rate limiter.
--
-- Threads and semaphores. Threads.antt gives threads as interleavings: a System is shared memory
-- with the program point of each of n threads, a Step lets any thread that has a move take it,
-- and a Run is a sequence of steps. A thread's moves are an executable function `step m p`,
-- `none` where it is blocked or has returned. Sema.antt has sem_wait and sem_post as they are
-- documented. Memory is sequentially consistent, each access of shared memory is a step, except
-- that an update and the test of it under a mutex are one step. A run is bounded by no fuel;
-- where a theorem says that a program ends, the length of every run is bounded.
--
-- RwLock.LightSwitch models struct LightSwitch, whose text stands in all three
-- threads-sema/rwlock*.cpp. RwLock.Starvation models rwlock_writer_starvation.cpp,
-- RwLock.Turnstile models rwlock-1writerprogress.cpp and RwLock.WriterPriority models
-- rwlock-writer-priority.cpp, each with rwlock_init, the four acquire and release functions,
-- reader and writer, for any number of threads and any loop counts; Role says what a thread is
-- created for. Tally and Moves hold the invariant and its preservation, Inv its truth in every
-- reachable state, Safety and Progress (Ends, Priority) the theorems. The global int counter is a
-- number without an upper bound, and the printing is left out.
--
-- RateLimiter models threads-locks/other-problems/IK- problems/RateLimiter, with uint32_t and
-- uint64_t arithmetic written out; the clock is an argument of each call.
--
-- Heap.antt has nodes on a heap: an access through a dangling pointer is the outcome fault, and
-- addresses are not taken twice. LinkedList and HashMap model threads-locks/Locked data
-- structures/linkedlist&hash-map-cpp, LinkedListC and HashMapC model linkedlist-c.cpp and
-- hashmap-c.cpp beside it, TwoLockQueue models threads-locks/locked data structures/queue.cpp.
-- Their loops take fuel, and the theorems ask for more fuel than the list is long, which is
-- enough. Calls under a mutex are taken one after the other.
--
-- RingBuffer models ring-buffer.cpp beside them: Slots says what it is for the ring to hold a
-- list, Mask that `& _mask` is a remainder. A list of Booleans stands for the outcomes of
-- compare_exchange_weak, one for each round of a loop, and is the fuel; the theorems ask for one
-- round in which the exchange may succeed, or hold for any number of rounds. The numbers stay
-- below 2^63, by a hypothesis.
--
-- ProducerConsumer models threads-locks/c++11-Producer-consumer: the circular buffer of
-- MultiProducerMultiConsumerBuffer.cpp, with SingleCv for the put of MpMCSingleCV.cpp and Single
-- for SingleProducerSingleConsumer.cpp. ThreadPool models threads-locks/thread-pool, and
-- EventQueue models threads-locks/other-problems/call-backs/EventQueue. In these a step is what a
-- thread does between taking the mutex and giving it up, and the schedules are lists of steps, of
-- any length. In EventQueue each statement of the forwarding thread is a step, each call of a
-- subscriber too, since PostEvent takes no lock. A step that would wait has no result, and is
-- made anew; Single alone of these tells a thread that has been signalled from one that has not.
--
-- LockFreeStack models class LFS of threads-locks/atomic-tutorial/compare-and-exchange.cpp, with
-- the outcomes of compare_exchange_weak given as for the ring buffer. DispatchQueue models
-- threads-locks/other-problems/call-backs/dispatch-que.cpp, OddEven models OddEven.cpp of IK-
-- problems and PingPong models ping-pong.cpp of c++11-Producer-consumer, all as threads over
-- Threads.antt; a thread of OddEven whose wait would go on has no step, while DispatchQueue has
-- the sleepers and notifications of Cond.antt, and Awake says who sleeps. EventQueue.Trigger is
-- the forwarding thread by itself.
--
-- Threads.Two is about programs of two threads, Threads.Sums has invariants that speak of sums
-- over the threads, and Threads.Simulation shows one program in another. Cond.antt counts the
-- sleepers of a POSIX condition variable and those that have been woken; wake-ups without a
-- signal are left out.
--
-- Bugs models threads-bugs: atomicity.c, deadlock.c and ordering.c with the corrected versions
-- beside them. Join models threads-cv/join*.c, threads-sema/join.c and condition_varaible.cpp of
-- c++11-Producer-consumer: Modular the synchronizer, Lost the versions that leave out the lock or
-- the variable, Sem the semaphore.
--
-- Semaphores models, one module each, rendezvous.c, throttle.c, binary.c, barrier.c,
-- no-starve-mutex.c, zemaphore.h and the dining philosophers of threads-sema, and in Race
-- threads-intro/t1.c, whose loop intro/threads.c has too. Dining is about both orders of the
-- forks without messages, Dining.Forks says who holds which fork, Dining.Print is the text with
-- the messages, whose Steps shows it step by step in the one without. The loop counts, the
-- numbers of threads and the values of semaphores are arguments where the programs take them as
-- such, and in binary.c.
--
-- Bounded models the bounded buffers in C: threads-cv/pc.c, whose threads use the buffer through
-- Ops, with the array of Ring or the list of Queue; SingleCv pc_single_cv.c; Works
-- threads-sema/producer_consumer_works.c. In pc.c a section under the lock is one step.
--
-- Counter models threads-locks/locked data structures/counter.cpp and class Counter of
-- atomic-tutorial/fetch.cpp. HandOver models conditional_variable.cpp, atomic-flag.cpp and
-- promise-future.cpp of c++11-Producer-consumer, and CallBack models thraed-safe-callback.cpp of
-- call-backs, in the order of its tasks and with both at the same time.
--
-- PersistentStack models file-intro/pstack.c on a mapped file, with the arithmetic of size_t
-- written out, and Lottery models cpu-sched-lottery/lottery.c, with the numbers that random
-- returns as an argument.
--
-- Not modelled: input and output, the demonstration mains, the book's introductory C programs,
-- which make single calls of the operating system, the weak memory orders of atomics, and the
-- smaller C++ demonstrations.
pub mod LockFreeStack
pub mod DispatchQueue
pub mod OddEven
pub mod PingPong
pub mod Bugs
pub mod Cond
pub mod Join
pub mod Semaphores
pub mod Bounded
pub mod Counter
pub mod CallBack
pub mod HandOver
pub mod PersistentStack
pub mod Lottery
pub mod Prelude
pub mod Threads
pub mod Sema
pub mod RingBuffer
pub mod RwLock
pub mod ProducerConsumer
pub mod EventQueue
pub mod RateLimiter
pub mod ThreadPool
pub mod Heap
pub mod LinkedList
pub mod HashMap
pub mod LinkedListC
pub mod HashMapC
pub mod TwoLockQueue
