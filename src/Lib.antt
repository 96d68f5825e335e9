-- ===== src/Lib.antt =====
-- LPC interpreter: a model of the core of the compiler and of the virtual machine, with the theorems
-- that make these parts correct.
--
-- The program compiles LPC source to mid-level code (MIR), optimises and checks it, writes bytecode,
-- and runs that on a stack machine. The modules here follow its parts; paths are from the root of the
-- repository.
--
-- * `Mir` is compiler/include/frontend/mir.h: `MirOp`, `MirInstr`, `MirFunction`, `MirModule`. An
--   `int` operand is an integer (`Prelude.Int`), a size is a number, a `double` its bit pattern.
-- * `Verifier` is compiler/src/frontend/verifier.cpp. `Tables` has `EfunResultCount`, `IsKnownEfun`
--   and `StackDelta`; `Check` has the tests of one instruction and the depth after it; `Loop` has
--   `enqueue`, the walk along a block, the worklist and both entry points. `Graph` states, from the
--   operands that each instruction takes and leaves, which points a run meets at which depth, with no
--   mention of the worklist; the other children lead from the invariant of the loop to the theorems.
--   The loop takes the length of the code as fuel: no point is queued twice.
-- * `Optimizer` is compiler/src/frontend/mir_opt.cpp. `Words` and `Folding` have the arithmetic on
--   constants, `Base` what the passes share, then a module for each group of passes: `ConstProp` (pass
--   1), `ConstFold` (2, 5, 6), `FloatFold` (3, 4, 5, 7, 14), `Rewrites` (8 to 10, 12, 13), `DeadStore`
--   (11), `Compact` and `Peephole` (`CompactWithKeepMask` and the peepholes), `Unreachable` (15) and
--   `Pipeline` (`OptimizeFunction`, `OptimizeMirModule`). A round is one value of a pass's loop variable
--   and `sweep` is its `for`. Doubles come from the platform: their operations on bit patterns are the
--   parameter `Doubles`, of which nothing is assumed. The search of pass 15 has 2n + 1 steps of fuel for
--   n instructions: each point is popped when first visited, and each visit pushes two at most.
-- * `Value` is vm/include/vm/value. `Word` is value.h, `Handles` is objref.h; `Content` and `Pools` say
--   what a word and a handle stand for. `Boxes` is the pool of large integers of
--   vm/include/vm/runtime/vm.h (`MakeI64`, `GetI64`) and its loop in `Sweep` of
--   vm/src/runtime/vm_gc.cpp. A word is a number below 2^64, and `&`, `|`, `^` are those on
--   binary digits.
-- * `Chunk` is vm/src/bytecode/chunk_serialization.cpp, with the structures of
--   vm/include/vm/bytecode/chunk.h in `Tree` and `Records`. `Bytes` has the writers and readers of
--   words and texts, `Default` those of default values, `Writer` is `SerializeChunk` and `Loader` is
--   `DeserializeChunk`. A reader takes the bytes from the position on, and returns those behind what it
--   took. `ReadFieldDefault` calls itself; its fuel is the length of the data, as each call takes a byte.
--   The memory that `resize` asks for before the entries of a list are read is taken to be there.
--   A module that is refused leaves the parts read so far in the chunk it is loaded into; that chunk is
--   not a result here.
-- * `Heap` is vm/src/runtime/vm_gc.cpp, most of vm/src/runtime/vm_alloc.cpp, and `InternString` of
--   vm/include/vm/runtime/vm.h. `Pools` has the pools and what a value refers to, `Mark` is `MarkValue`
--   and `MarkReachable`, `Slots`, `Strings` and `Sweep` are `Sweep` and `CollectGarbage`, and `Alloc`
--   the allocation. An array is the list of its elements, a mapping that of its entries, and the seven
--   vectors of marks are a function of the kind of pool. `MarkValue` has one more than the slots as
--   fuel: all calls but the last on a path set a mark that was not set. A back of a vector of free slots
--   is the head of its list. `Refers`, `Holds` and `Reachable` say what a value refers to, what an entry
--   holds and what the program can get at, by the tests and accessors of
--   vm/include/vm/value/objref.h and the entries themselves, with no mention of the marker.
--   `InternString` is on the pool of texts alone: it leaves out the increment of the count of
--   allocations.
-- * `Array` is vm/include/vm/value/lpc_array.h and vm/src/value/lpc_array.cpp: `Storage` has the
--   cells, in place or in memory of their own, and the operations; `Refines`, `Pushing` and `Runs`
--   compare them with lists. `Instance` and `Fields` are the same for the class instances of
--   vm/src/value/lpc_class.cpp. Whether there is memory for n values is a parameter, a write outside
--   of the cells has no result, and the release of memory is left out. The loop of `Grow` has one
--   more than the wanted capacity as fuel: the capacity grows by one at least in each round.
--
-- The compiler hands the code of a function through `Optimizer`, then `Verifier`; both work on `Mir`.
-- The module that the bytecode writer makes goes through `Chunk` to the machine, whose values are
-- those of `Value`, and `Heap` keeps what they refer to, with the pool of integers from `Value`.
--
-- Not modelled: the lexer, the preprocessor, the parser, the analysis and the lowering before the
-- mid-level code; the bytecode writer and the dispatch loop; the tables behind mappings and the
-- buffers of closures; the allocation of class instances, which builds default values from the class
-- table of the bound module; hot reload, storage, the debugger and the servers. The statistics
-- variants of the optimiser repeat its pipeline with counters and are left out, as are console and
-- file access.
pub mod Array
pub mod Chunk
pub mod Heap
pub mod Mir
pub mod Optimizer
pub mod Prelude
pub mod Value
pub mod Verifier
