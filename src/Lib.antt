-- ===== src/Lib.antt =====
-- libfev: an abstraction over event-driven I/O for C, with fibers, schedulers, timers and
-- synchronization primitives.
--
-- Parts of the program and how they interact. A scheduler (src/fev_sched_*.c) runs fibers on worker
-- threads and keeps the ready ones in run queues. A fiber that blocks prepares a waiter
-- (src/fev_waiter_impl.h) and switches to the scheduler; a handler (another fiber, the poller, a timer)
-- wakes the waiter and puts the fiber into a run queue. A wait with a deadline first adds a timer to a
-- bucket (src/fev_timers.c), whose timers are in a binary heap (src/fev_timers_binheap.c); deadlines
-- are computed by src/fev_time.h. Waiters queues (src/fev_waiters_queue_impl.h) carry the mutex, the
-- semaphore and the condition variable.
--
-- Files.
--   Base              Boolean tests, signed results, maps, lists, errno codes, and loops on fuel.
--   Time              src/fev_time.h: `timespec_cmp`, `timespec_abs_to_rel`, `get_abs_time_since_now` and
--                     `timespec_to_ns` are the functions fev_timespec_cmp, fev_timespec_abs_to_rel,
--                     fev_get_abs_time_since_now and fev_timespec_to_ns. A `Timespec` is a
--                     struct timespec; the clock's reading is an argument.
--   Timers            src/fev_timers_binheap.c and .h: `sift_up` and `sift_down` (the static functions
--                     of the same names); Timers/Buckets has fev_timers_bucket_add, _del, _del_min
--                     and _grow. A timer is an address; `Mem` holds the array and the timers, so that
--                     the `index` that each timer keeps is part of the state.
--   Waiter            src/fev_waiter_impl.h: fev_waiter_enable_wake_ups (`PostStep`) and any number of
--                     calls of fev_waiter_wake (`WakeStep`), one step per access to shared memory,
--                     interleaved in any order (`Step`, `Reach`).
--   Queues/Spmc       src/fev_bounded_spmc_queue.h, and Queues/Mpmc src/fev_bounded_mpmc_queue.h:
--                     init, size, pop, push and push_stq, with positions that wrap at 32 bits.
--                     Queues/Spmc/Steps has the first one with its owner and any number of thieves,
--                     one step per access to shared memory, interleaved in any order; Queues/Spmc/Known,
--                     Owned and Linear are about it. Queues/Mpmc/Steps has the second one with any
--                     number of threads in the same way: Entries is its abstract queue, Known the
--                     invariant, and Looks to Publishing are about the single steps. Queues/Window has the ring as a window
--                     of an array, and the abstract queues.
--   WaitersQueue      src/fev_waiters_queue_impl.h: the critical sections of fev_waiters_queue_wait
--                     (`wait_enter`, `wait_leave`) and of fev_waiters_queue_wake (`wake`). The outcomes of
--                     fev_waiter_wake are an argument.
--   Mutex             src/fev_mutex.c: any number of fibers that call fev_mutex_lock, _try_lock,
--                     _try_lock_until and _unlock, interleaved, on the waiters queue (`Step`, `Reach`).
--   Timers/Service    src/fev_timers.c: fev_timers_add and fev_timers_del under the bucket's lock;
--   Timers/Expire     fev_timers_wake_expired and fev_timers_process of the same file.
--   Timers/Wait       fev_timed_wait of the same file, around a wait that is an argument.
--   FiberAttr         src/fev_fiber_attr.c: the getters and setters of the attributes, with their checks.
--   FiberCreate       src/fev_fiber.c: fev_fiber_create with its error paths, and fev_fiber_spawn.
--   Sem               src/fev_sem.c: any number of fibers that call fev_sem_wait, _wait_until and _post,
--                     interleaved, on the waiters queue (`Step`, `Reach`).
--   Sched             src/fev_sched_common.c and src/fev_sched_impl.h: waking workers, fev_sched_run
--                     (`run`) and fev_sched_create (`create_sched`), with what the system's calls
--                     answer as arguments. Sched/Counts and Sched/Order are about the calls that a
--                     run makes, Sched/Start about a whole run.
--   SchedInit         src/fev_sched_steal_locking.c: fev_sched_init (`init`) and fev_sched_fini (`fini`),
--                     with the parts of the scheduler that hold a resource as the state.
--   StealLocking      the same file and src/fev_sched_steal_locking_impl.h: run queues behind locks, and
--                     fev_sched_steal (`steal`).
--   StealBounded      src/fev_sched_steal_bounded_mpmc.c, src/fev_sched_steal_bounded_spmc.c and their
--                     _impl.h: run queues of a fixed size with a fallback queue; `Ops` is the kind of
--                     queue, and StealBounded/Instances puts in Queues/Mpmc and Queues/Spmc.
--   Ilock             src/fev_ilock.c and src/fev_ilock_impl.h: any number of fibers that call
--                     fev_ilock_lock and fev_ilock_unlock, interleaved (`Step`, `Reach`).
--   Cond              src/fev_cond.c: any number of fibers that call fev_cond_wait, _wait_until, _notify_one
--                     and _notify_all, interleaved, on the waiters queue (`Step`, `Reach`).
--   FiberJoin         src/fev_fiber.c: fev_fiber_exit of a fiber, interleaved with fev_fiber_join or
--                     fev_fiber_detach by the fiber that has its handle (`Step`, `Reach`).
--   Stack             src/fev_simple_mpmc_stack.h: any number of threads that call
--                     fev_simple_mpmc_stack_push and _pop, interleaved (`Step`, `Reach`).
--   Socket            src/fev_socket_reactor.c: opening, closing and the calls that only forward. Socket/Ops
--                     has FEV_GEN_SOCKET_OP (`socket_op`) and FEV_GEN_SOCKET_OP_TIMEOUT (`timeout_op`),
--                     Socket/Api the operations, Socket/Rounds their loops, Socket/Waits what they keep of epoll's view, Socket/Poll fev_poller_register and fev_process_socket of
--                     src/fev_poller_epoll.c. System calls are functions on a world.
--   ThrMutex          src/fev_thr_mutex_linux.h and src/fev_thr_mutex_linux.c: any number of threads that
--                     lock and unlock the mutex, interleaved with the kernel's futex (`Step`, `Reach`).
--
-- Fuel and bounds. `sift_up` runs its loop on the fuel `len` and `sift_down` on the fuel `len`: the
-- index of the hole is below `len` and shrinks, or grows towards it, in each round, and the theorems on
-- the bucket show that the loops end. `pop` and `push` of the queues take the number of times that the
-- weak compare-exchange fails before it succeeds; each of the theorems holds for every such number.
-- Machine integers wrap where the code lets them: positions of the queues at 2 ^ 32, the capacity of a
-- bucket at 2 ^ 64. A post of a semaphore at the greatest `int32_t` overflows, which is
-- undefined, and is no step. Seconds of a time are numbers: the theorems suppose what keeps the sums of
-- `time_t` in range. The loop that expires timers
-- runs on one more than the number of timers, as each round deletes one.
--
-- Assumptions. Atomic accesses are sequentially consistent: the weaker orders in the code and the
-- fences are not told apart. Memory returned by fev_realloc and fev_aligned_alloc is an argument,
-- `none` for NULL, with any contents.
--
-- The interleaved bounded queues of src/fev_bounded_spmc_queue.h and src/fev_bounded_mpmc_queue.h, and
-- the stack of src/fev_simple_mpmc_stack.h, count their operations without bound, and take the words in
-- memory from the counts; a fiber that sleeps while a word goes round its 32 or 64 bits is ruled out by a hypothesis,
-- as the code does not handle it.
--
-- The operations of sockets run their loop on fuel: one more than the wake-ups that can come before the
-- deadline is enough.
--
-- Not modelled: the operating system's interfaces (threads, stacks, memory, kqueue, io_uring and the main
-- loop of the epoll poller), the context switch in assembly, the worker loops of the schedulers, the red-black tree of timers (which
-- only calls the macros of third_party/tree.h), the pool and the queue of src/fev_simple_mpmc_pool.h and
-- src/fev_simple_mpmc_queue.h, QSBR reclamation, the run counters of the scheduler in the waiter and in
-- the internal lock, and the use of one fiber's handle by several fibers at once.
-- The critical sections of the waiters queue are taken to be atomic, which the internal lock gives.
pub mod Base
pub mod Cond
pub mod FiberAttr
pub mod FiberCreate
pub mod FiberJoin
pub mod Ilock
pub mod Mutex
pub mod Queues
pub mod Sched
pub mod SchedInit
pub mod Sem
pub mod Socket
pub mod Stack
pub mod StealBounded
pub mod StealLocking
pub mod ThrMutex
pub mod Time
pub mod Timers
pub mod Waiter
pub mod WaitersQueue
