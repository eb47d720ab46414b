-- ===== src/Lib.antt =====
-- tinytools, a C library for embedded and general use: a ring buffer, atomic integers, a mutex, a record
-- of the last error, threads and a description of the platform. This library models its functions and
-- states what they do. Source paths are from the repository's root.
--
-- The parts and how they interact. The ring buffer and the atomic integers stand alone. `tt_error.c` and
-- `tt_thread_internal.c` each keep one global structure behind one global mutex, and call tt_mutex.c
-- around every access. `tt_thread.c` allocates threads, starts them through
-- `tt_platform_thread_create`, and enters them into the table of `tt_thread_internal.c`; the platform's
-- `destroy` takes them out of the table and frees them. `tt_platform.c` calls one of three ports.
--
-- Files, with what they model:
--   Types             include/tt_types.h: `tt_error_t`
--   Ringbuf           src/tt_ringbuf.c. Queue is the specification, Invariant the well-formed rings,
--                     Refine the refinement, Fifo what a client gets back, View the rings up to what a
--                     client reads, as a quotient
--   Atomic            src/tt_atomic.c on 32-bit patterns; Word reads them as signed numbers, Order has the
--                     memory orders, Interleaving threads that share a cell
--   Mutex             the interface of include/tt_mutex.h as a record of operations and laws, and its two
--                     implementations
--   Mutex/Spin        src/tt_mutex.c without a platform. Loop is its spinning, Exclusion the step
--                     relation of threads that share a mutex, Api the interface filled. Shared has threads
--                     that share data behind the mutex: Locks projects them to Exclusion, Logs has calls one
--                     after another, Known the invariant, Serial the order of the calls, Later the states
--                     after a state, Ending and Live how calls end, Choice clients with two kinds of calls
--   Mutex/Posix       the mutex of src/platform/linux/tt_platform_linux.c. Laws is what it relies on of
--                     the C library, Calls what each function does and the interface filled, Model a
--                     concrete library that keeps the laws
--   Error             src/tt_error.c over the interface of the mutex. Calls is the initialised module,
--                     Uninitialized the refusals, Strings `tt_error_to_string`, Posix the module on the
--                     Linux mutex, Concurrent threads that call the module at the same time,
--                     its parts Drain after a `tt_error_deinit` and Alone against the functions
--   ThreadTable       src/tt_thread_internal.c over the interface of the mutex. Loops and Bag are about
--                     its loops, Find about the search, Calls about the functions with their mutex, Refine
--                     about sequences of calls against a bag of threads, Concurrent about threads that
--                     share the table behind the mutex of Mutex/Spin, in its part Search with searches
--                     among the calls
--   Platform          src/platform/tt_platform.c. Ports has the three ports and Ports/Laws what they keep,
--                     Refine sequences of calls, Shipped the macros of the Makefile
--   Thread            Data has the types and the state, Linux the thread functions of
--                     src/platform/linux/tt_platform_linux.c, Api src/tt_thread.c, with what creation and
--                     destruction do, a thread's Lifecycle, Self, and the Invariant of all calls. Stubs
--                     has the functions of include/tt_thread.h without threads
--   Thread/Unused     src/tt_thread.c, lines 136 to 457, under TT_UNUSED_CODE, which the Makefile does not
--                     define: what all platforms share, over a Port with the branches of the `#if` lines.
--                     Settled is creation on any port. Pthread, Freertos and Bare are the ports. In Pthread,
--                     Laws is what is relied on of the heap, Model a heap that keeps it, and Samples states
--                     over that heap; Owned says who owns each cell, Kept which changes leave that as it is,
--                     Launch, Creation, Destruction, Steps and Invariant what calls do to it; Life is a
--                     thread's life, and Shipped compares with Thread/Linux. In Freertos, Join is the loop of
--                     `tt_thread_join` and Task the end of a task. Bare/Calls compares with Stubs
--   Prelude           shared names, tests, lists, integers and families of threads
--
-- Conventions. A function keeps its C name without the prefix `tt_` and the name of its file. A pointer
-- argument that may be NULL is an `Option`; the address of a thread is a number, with 0 for NULL. A
-- function that changes state takes the state and returns it after the result. `none` as the result of a
-- whole call is a call that does not return, or a read through a pointer to nothing. An integer that can
-- overflow has its wrap-around written out: `size_t` as 64 bits in the ring buffer, 32 bits in the
-- atomic integers and in the nanoseconds of a sleep, 8 bits in the number of processors. Priorities are
-- integers without bounds; the range that a system reports is far below that of `int`.
--
-- Fuel. Only the loops of `tt_mutex_lock` and of the FreeRTOS `tt_thread_join` may run for ever. Each
-- has a number of rounds, and what the others do in between; the theorems say when some number is enough
-- and when none is. The loops over the table and the ring are structural.
--
-- Parameters, as code that is not in the repository: the heap, the pthread calls, the calls of FreeRTOS,
-- `sysinfo`, `sysconf`, the scheduler's range, `nanosleep`, the macros of the embedded toolchains, and
-- the functions that a caller passes, the error callback and a thread's function. A theorem that relies
-- on their behaviour has it as a hypothesis.
--
-- Not modelled: a new thread that changes the shared state while another call runs, in Thread/Linux
-- and Thread/Api, which are the view of one caller; in Thread/Unused the steps of a thread come
-- between calls, and not within one. A change of a thread's handle while another thread searches the
-- table; the handles are set before the threads are in it. A `tt_error_init` of the error module that
-- initialises its mutex again while another call is on its way. The effect of a memory order, and that
-- some orders are not allowed for a load, a store or an exchange: the steps of the atomic integers are
-- sequentially consistent. The choice of branches by the TT_TARGET macros in the unused code, and the
-- commented-out code of src/tt_thread.c. The interrupt functions, which have no body; tests and build.
pub mod Prelude
pub mod Types
pub mod Ringbuf
pub mod Atomic
pub mod Mutex
pub mod Error
pub mod ThreadTable
pub mod Platform
pub mod Thread
