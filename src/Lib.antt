-- ===== src/Lib.antt =====
-- hfts is a library of fibers in C++: a scheduler gives tasks to worker threads, each of which runs
-- them on fibers that it switches between.
--
-- The parts. A user enqueues a task (include/hfts/task.hpp) at the scheduler
-- (include/hfts/scheduler.hpp, src/scheduler.cpp), which gives it to a worker that spins, or to the
-- workers in turn. A worker (include/hfts/worker.hpp, src/worker.cpp) keeps a queue of tasks, a
-- queue of fibers that may go on, a set of idle fibers, and the fibers that wait for a point in
-- time (include/hfts/waitingfiber.hpp). A worker with nothing to do steals from another by way of
-- the scheduler. Events (include/hfts/event.hpp) and wait groups (include/hfts/waitgroup.hpp) block
-- and wake fibers by way of ConditionVariable (include/hfts/conditionvariable.hpp). Memory comes
-- from allocators (include/hfts/memory.hpp, src/memory.cpp), which the vector
-- (include/hfts/containers.hpp) uses, and a vector holds the cores that a thread may run on
-- (include/hfts/thread.hpp, src/thread.cpp).
--
-- The files:
--   Base           the shared tests, lists, updates of functions, and integers that wrap
--   Task           Task and Task::Flag; a closure is a name
--   WaitingFibers  WaitingFibers: the ordered set and the map are lists
--   Worker         Worker::Work and Worker: one function for each member function, and for each part
--                  of `suspend`, `waitForWork` and `runUntilIdle` between two points where another
--                  thread can act or fibers are switched
--   Worker/Machine one worker as a step relation: where the current fiber stands, and where each
--                  other fiber goes on when it is switched to
--   Worker/Timeouts  Worker::enqueueFiberTimeouts
--   Worker/Sleep   Worker::Work::wait and the waits of mutex, a turn of another thread at a time;
--                  Worker/Spin is Worker::spinForWorkAndLock, and Scheduler/Idle waitForWork
--   Worker/Wait    Worker::wait, and the two locks that it changes between
--   Fiber          Fiber, which hands its calls to its worker
--   FiberContext   OSFiber (include/hfts/osfiberm.hpp) and hfts_fiber_swap (src/osfiber_i.S)
--   Scheduler      Scheduler: the worker threads, the spinning workers, the bound threads
--   Scheduler/System  all worker threads with their tasks, as a step relation
--   Event          Event and Event::Shared: a store of events, by place
--   ConditionVariable  ConditionVariable; ConditionVariable/Waiters has its callers as a step relation
--   WaitGroup      WaitGroup
--   Memory         alignUp, pagedMalloc, alignedMalloc, DefaultAllocator; Memory/Tracked is
--                  TrackedAllocator, and Memory/Requests the requests of Allocator::create and
--                  make_unique_n, of Deleter and of StlAllocator
--   Vector         containers::vector: a place holds an object or none
--   LinkedList     containers::list: entries with two pointers, and the chain of allocations;
--                  LinkedList/Represents is the sequence of elements that a list stands for
--   Affinity       Thread::Affinity with pthreads, a list of core indices
--   Thread         Thread with pthreads: which object owns which Impl
--   Mutex          mutex and wait_locked (include/hfts/mutex.hpp)
--   Defer          ScopeExit (include/hfts/defer.hpp)
--   Benchmark      example/benchmark.cpp: the work of its tasks and their checksums; Benchmark/Pool is
--                  PlainThreadPool as a step relation, Benchmark/Blocking the blocking
--                  benchmark on fibers, and Benchmark/Options parseArgs
--   Fractal        example/fractal.cpp: writeBMP
--   Tests          runs at concrete inputs
--
-- A member function that changes an object takes its state and returns the new one, with what the
-- function returns. Integers wrap at their width (Base/Words). Addresses are natural numbers. The
-- functions of the system (malloc, mmap, the page size) are the fields of Memory.Os, with no
-- assumption on their values but those that a theorem names; so are strtoull in Benchmark/Options,
-- what fopen, fwrite and fclose do in Fractal, and the size of an element and what the allocator
-- returns in Vector. A call that would block returns none. Behaviour that C++ leaves undefined (a
-- read past the end of a set, a place with no object, a write through null or behind the storage) is
-- none or a fault, and a read of a timeout that is not there is an outcome of its own.
--
-- Fuel. Event.signal runs on fuel, since dependent events may form a cycle; where each event
-- depends on events made earlier only, as many steps as there are events made after the first are
-- enough. The loop of Scheduler::enqueue takes a list of rounds, each with the locks that other
-- threads hold in it. Worker::enqueueFiberTimeouts runs on fuel and may not end. The loop of
-- Affinity::remove runs on as many rounds as there are cores, which is enough, since each round
-- goes one place on.
--
-- Not modelled: that the step relation of a worker rests on the switch in assembly, of which it
-- takes that a fiber goes on where it was left; that the time of a wait comes, within it; a
-- worker's end after its loop; the random choice of a victim, which is an argument; what a
-- notification of a ConditionVariable does within Event and WaitGroup, where it is a log or a
-- count; mutexes within the step relations, of which only whether a worker's is held is kept, since
-- the code between lock and unlock is one step, and so is all of notify_one; class lock, which only
-- forwards; the blocking benchmark on the plain pool, and the colors and the output of the
-- examples; the names of threads; the code for other systems than those with pthreads, and for
-- other processors than AArch64.
pub mod Base
pub mod Benchmark
pub mod Task
pub mod WaitingFibers
pub mod Worker
pub mod Scheduler
pub mod Event
pub mod ConditionVariable
pub mod WaitGroup
pub mod Memory
pub mod Vector
pub mod LinkedList
pub mod FiberContext
pub mod Fiber
pub mod Fractal
pub mod Mutex
pub mod Defer
pub mod Thread
pub mod Affinity
pub mod Tests
