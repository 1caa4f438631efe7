-- ===== src/Lib.antt =====
-- The cycle-level model of an out-of-order MIPS processor, in C++, and what its parts do.
--
-- The simulator runs a MIPS program twice: an interpreter (`execMips`) gives the reference state, and
-- a pipeline of fetch, decode, rename, issue and retire runs the same program with predictors,
-- caches, register renaming and a reorder buffer, whose retired state is compared with the
-- interpreter's. Here are the data structures that the pipeline stands on, its predictors, the
-- caches, the memory, the interpreter, register renaming and the operations of the integer unit.
--
-- Queue: sim_ooo/sim_queue.hh, the ring buffer of the fetch queue, the decode queue and the reorder
-- buffer. `push_` and `pop_` are `push_raw` and `pop_raw`; the assertions are the `none`. Inv has the
-- invariant, Refine the list of the entries held, Size what `size` answers.
-- Stack: sim_ooo/sim_stack.hh, the return-address stack. Wrap relates pops to pushes.
-- Counter: sim_ooo/counter2b.hh, the packed two-bit counters. Update has their laws.
-- BitVec: sim_ooo/sim_bitvec.hh, with `ln2` and `mod` of sim_ooo/helper.hh. The bits of a word are a
-- field, 8 or 64 in the source. Find has the law of the search for a clear bit, Write of setting one.
-- Cache: sim_ooo/sim_cache.hh and sim_ooo/sim_cache.cc. Geometry is the base class, MyList the list of
-- tags of a set, SetAssoc the set and the cache. A cache and the levels below it are a list.
-- SetAssoc.Lru has the specification of one access, SetAssoc.Trace that of runs.
-- SparseMem: sim_ooo/sparse_mem.hh, pages by number. RoundTrip has the law of load after store.
-- Mips: sim_ooo/state.hh and sim_ooo/interpret.cc. Word has 32-bit arithmetic, State the registers
-- and the history, Memory the loads and stores, RType and IType the other instructions, Exec the
-- dispatch, the branches and the jumps. An instruction of the floating-point coprocessor or of the
-- monitor ends a run with `leaves`; `exit` and undefined behaviour end it with `stopped`.
-- LoopPredictor: sim_ooo/loop_predictor.cc. Learn has what a table learns of a loop.
-- BranchPredictor: sim_ooo/branch_predictor.cc: gshare, gnoalias and bimode. The hash of the history
-- is boost's and is a parameter, as is `lg_pht_entries`. Gshare has the law of gshare.
-- Rename: what sim_ooo/mips_op.cc and sim_ooo/ooo_core.cc do to the alias tables, free vectors, valid
-- bits and values of one register file; the fields are those of sim_ooo/machine_state.hh without
-- their prefix. `claim`, `write_prf`, `publish`, `commit` with `write_arch`, and `undo` are the parts
-- of `allocate`, `execute`, `complete`, `retire` and `rollback` that every class with a destination
-- has, `recover` is the recovery of the retire stage: the files that are `counted`, gpr and cpr1, have
-- the number of their registers in use checked by `popcount`, which BitVec.Count describes.
-- Window has the invariant, with the operations in flight as a list, Steps and Recover its
-- preservation, Reach the state machine, Start the first state, Safety what it promises. Flow adds the
-- sources and results of the operations; Flow.Data has the invariant of the values, Flow.Order the
-- in-order specification. A physical register number below the size of the file stands for it.
-- Op: sim_ooo/mips_op.cc and sim_ooo/mips_op.hh. Decode has `decode_insn`, Value what `execute`
-- computes for the classes of the integer unit, Step their stages; an instruction is decoded to a
-- `Kind`, and a class with its enumeration is a constructor. Value.Same has the interpreter's side.
-- MultDiv has the results that multiplication and division leave in lo and hi.
-- Transfer has what `execute` decides for the branches and jumps, next to the interpreter's side.
-- Pipeline has runs of those operations of the integer unit that have a renamed destination, with any
-- order of their stages and without other operations between them, and Pipeline.Interpret the
-- comparison with the interpreter that sim_ooo/ooo_core.cc makes as it retires.
-- LoadStore: `load_op` and `store_op` of sim_ooo/mips_op.cc with the load and store tables of
-- sim_ooo/machine_state.hh; an operation stands in its slot of the table. Value has the bytes that
-- they move, Load and Store their stages. Tables, Shape and Steps have the tables, what the stages
-- leave of them and the state machine; Block, Fresh and Stall the order of loads and stores; Decoded,
-- Unaligned, Same and Taken the interpreter's side.
-- Fetch: `fetch` of sim_ooo/ooo_core.cc without the oracle, with the tests of sim_ooo/mips.hh. Loop has
-- the turns of a cycle, Choose what the chain of predictions decides, Path the pcs that follow, Follow
-- the branch or jump with the two instructions behind it, Retire the maps that the retirement of
-- branches and jumps in sim_ooo/mips_op.cc fills, Total the absence of failures, Cycle the queue.
-- Decode has the `decode` stage, from the fetch queue to the decode queue, Turn one turn of it and Moved a cycle.
-- Base has the shared Boolean tests, lists and bits; Tests has runs at concrete inputs.
--
-- Bounds and fuel. `execMips` calls itself for a delay slot, and a slot may hold a branch again, in
-- a chain without a bound: `exec` takes fuel for that recursion, one unit for an instruction and one
-- for each delay slot within; Exec.Slot says how much is enough. `ln2` and the loops for
-- the logarithms have the width of their type as fuel, which a size below that power of two does not
-- use up. A cycle of fetch or decode has its bandwidth as fuel, and every turn counts against it. Queue and
-- stack lengths below 2 ^ 62 keep index arithmetic from wrapping before the mask.
--
-- Not modelled. The oracle of the fetch, and the stages of the pipeline behind decode: allocation and
-- issue, the reorder buffer and the reservation stations (sim_ooo/ooo_core.cc); Rename has the steps
-- that they take in any order. Of the operations (sim_ooo/mips_op.cc) the loads and stores with a
-- first-level cache, the renaming of branches and jumps with their updates of the predictors, the
-- stages of multiplication and division, but for what these compute, the
-- moves between register files, and floating point. Floating point and the monitor of the interpreter
-- (sim_ooo/interpret.cc): values and calls of the host. The other cache organisations, the in-flight
-- requests of a cache, the perceptron and gselect predictors (these two read variables that nothing
-- sets), sim_ooo/sim_list.hh. Loading, printing, threads and the driver: input and output.
pub mod Base
pub mod Queue
pub mod Stack
pub mod Counter
pub mod BitVec
pub mod Cache
pub mod SparseMem
pub mod Mips
pub mod LoopPredictor
pub mod BranchPredictor
pub mod Rename
pub mod Op
pub mod LoadStore
pub mod Fetch
pub mod Tests
