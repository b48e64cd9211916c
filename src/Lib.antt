-- ===== src/Lib.antt =====
-- A model of the MESI cache coherence simulator (the C++ of model/ and primitives/), with the
-- theorems that make it correct.
--
-- Program. Every core has an L1 cache, a CacheController, which keeps a MESI state for each
-- 64-byte line and a value for each word it has loaded. The controllers sit on one SnoopingBus,
-- which owns the backing Memory, the PerfCounters and the registry of the words that were ever
-- touched in a line. A processor's miss or upgrade is broadcast to all other controllers, each of
-- which reacts by its state. MesiSystem is the facade that threads call: it validates the core
-- id, takes the bus mutex, acts and logs the operation. check_serial_order judges the log.
--
-- Which file models what.
--  * Common and its children: Boolean tests, maps as functions of their lookups, lists, words,
--    `int` where its sign matters, results that may be errors.
--  * Types, Memory, Perf, Trace: model/mesi_types.hpp, model/memory.hpp, model/perf.hpp,
--    model/trace.hpp.
--  * Cache: the local state of model/cache_controller.hpp and its accessors.
--  * Bus: the state of model/snooping_bus.hpp, registration, accounting and the order of the
--    snoops.
--  * Controller: model/cache_controller.cpp and the broadcast of model/snooping_bus.cpp. A
--    controller of the source reaches the bus through a pointer; here each operation takes the
--    whole bus and returns it. The `switch` of `snoop` is `react`, that of `acquire_exclusive` is
--    `own_line`, the miss of `processor_read` is `read_miss`.
--  * Coherence and its children: the invariant `Coherent m b`, which ties the caches and the
--    memory of the bus `b` to one flat memory `m`, and its preservation by every snoop in
--    whatever order, by every broadcast, and by every operation of a processor.
--  * System: model/mesi_system.hpp. An operation is `validate_core` and then what happens under
--    the mutex (`locked_read` and so on); a thrown exception is an `err`.
--  * Refinement and its children: the facade's contract. Flat is the specification, a memory on
--    which each call acts at once. Serve runs sequences of calls: since the mutex serialises
--    them, the calls of all threads form such a sequence, and every interleaving is one.
--    Guarantees has what follows.
--  * ScChecker and its children: model/sc_checker.cpp. Serial is about the check itself, Recorded
--    and Runs about the traces that the facade records, Cleared about traces that start late.
--  * ScChecker/Search and ScChecker/Orders: the exhaustive search exists_sc_order, against the
--    interleavings of the lists of the cores. Buckets and Sorting are about those lists,
--    ProgramOrder has the search against the recorded events themselves.
--  * StoreBuffer and its children: model/tso.hpp. View is what a core sees through its buffer;
--    Commit, Operations, Guarantees and Drains are about the single operations, Programs about a
--    whole program on one core, Reorder about the relaxed mode.
--  * Dut: primitives/dut.hpp. Threads: threads that run a primitive at once, one for each core. A
--    thread is a program counter, which gives its next call; a schedule says whose call takes the
--    bus mutex next.
--  * Primitives and its children: TasLock is primitives/spinlock.hpp, TicketLock is
--    primitives/ticket_lock.hpp (Tickets counts who is in it, Queue is its invariant, Order and
--    Fifo are about who comes first). Seqlock is primitives/seqlock.hpp (Versions says which
--    write each word comes from). LockFreeStack is primitives/lockfree_stack.hpp (History is the
--    sequence of operations, Nodes the invariant, Step what a moving thread has to show). Barrier
--    is primitives/barrier.hpp (Episodes is its invariant). HazardDomain is
--    primitives/hazard_ptr.hpp (Slots is about protect and release, Scan about is_hazarded).
--    Threads/Protocol is the interface between a primitive and its guarantees. A loop of the
--    source is a program counter that stays where it is, so that no loop needs fuel.
--  * Traffic: the counters of model/perf.hpp over sequences of calls (Counters is about the bus,
--    Accounting about its cycles, Lookups and Accesses about hits and misses).
--  * Workloads: sim/workloads.hpp, as the calls that each workload makes (Alternation is about
--    two cores that write one line in turn, Padding about two cores that write different lines,
--    Sharing about cores that read one, Delivery about the words that the consumer reads).
--  * Driver: sim/cpu_driver.hpp, the class that drives the Verilated system, which is the
--    parameter `Verilated` (Bits is about the request bits, Cycles about the wait for an answer).
--  * Transitions and its children: the MESI state machine as one table of next states and bus
--    transactions, which is the table of test_fsm in sim/tb_top.cpp. Bus is about the
--    controller's operations, Calls about the facade's.
--  * Demo: the concurrent programs of model/model_main.cpp. LockCounter is the worker of
--    emit_lock_scalability_csv (Counting is its invariant), SbLitmus the litmus test of
--    emit_tso_litmus_csv (Stages is what holds at each place, Turns keeps it, Progress is about
--    threads that do not fence), FalseSharing the loop of emit_false_sharing_csv, ScStress the
--    stress test sc_stress (Steps is about one turn of a thread).
--  * Examples: the tests, and each theorem at a concrete input.
--
-- Representation. Numbers are natural numbers; 64-bit counters wrap (`u64`), and a sum of 32-bit
-- words wraps (`u32`). An `unordered_map` is the function of its lookups; an `unordered_set` of
-- words is a list, in any order. A vector with an entry for each core is a function of the core,
-- of which the first `n_cores` entries exist; all calls with a core id are guarded by
-- `validate_core`. The pseudo-random engine and `std::shuffle` are the parameter `RandomEngine`,
-- of which it is assumed that a shuffled list holds what the list held, as often. `std::sort` is
-- an insertion sort: the two agree wherever the keys differ, as the time stamps of a recorded
-- trace do until the 64-bit clock wraps. The search exists_sc_order takes one round of fuel for
-- each event and one more, and drain_all one for each buffered store; the theorems show that this
-- is enough. All other loops run over a list or a count.
--
-- Not modelled: the SystemVerilog of rtl/ and sim/ and the testbench tb_top.cpp, the text of
-- messages and CSV output, and the test programs; of model/model_main.cpp, the output and main.
-- The theorems on store buffers are about one core, but for those on the litmus test.
pub mod Common
pub mod Types
pub mod Memory
pub mod Perf
pub mod Cache
pub mod Bus
pub mod Controller
pub mod Coherence
pub mod Trace
pub mod System
pub mod Refinement
pub mod Dut
pub mod Threads
pub mod Traffic
pub mod Transitions
pub mod Workloads
pub mod Driver
pub mod Demo
pub mod Primitives
pub mod ScChecker
pub mod StoreBuffer
mod Examples
