-- ===== src/Lib.antt =====
-- xklee: the KLEE symbolic virtual machine with a concolic file system, verified in parts.
--
-- The program runs LLVM bitcode on symbolic input. Its executor keeps a set of states, each with
-- an address space (an immutable balanced tree) and path constraints; a chain of solvers answers
-- whether a condition must or may hold; the tests found are written to .ktest files.
--
-- Base: helpers shared by all modules: Boolean tests, lists, the key order of the containers,
--   powers of two.
-- ImmutableTree (klee/include/klee/Internal/ADT/ImmutableTree.h): `Tree` is `Node`, with its cached
--   height; `balance`, `insert`, `replace`, `remove`, `pop_min`, `pop_max`, `lookup`, `count` and
--   `lookup_previous` are the methods of those names, `join` the last branch of `remove`. The key
--   and the order are parameters (`key_of_value`, `key_compare`), the order a strict weak one. The
--   contract is the sorted list of elements in ImmutableTree/Sorted. Reference counts are left
--   out: nodes are never written to. Iterators are not modelled.
-- KTest (klee/lib/Basic/KTest.cpp): `to_file` and `from_file` over lists of bytes. Files open,
--   memory is there and the device has room. `block_of` is the size of the block for a string,
--   which wraps around; reading ends where a string would be written behind it, as it does at
--   the label `error`.
-- Solver (klee/lib/Solver/Solver.cpp): `must_be_true`, `may_be_true`, `evaluate`, `get_range`,
--   and `get_range_bool` for its branch at width 1.
--   `SolverImpl::computeTruth` is a parameter, since the solver behind it is another program. The
--   binary search has 64 rounds of fuel, enough since each halves an interval below 2 ^ 64.
-- MapOfSets (klee/include/klee/Internal/ADT/MapOfSets.h): `insert`, `lookup`, `subsets`,
--   `find_subset` and `find_superset` are the methods of those names; the loops over a
--   `std::map` of children are recursions over the ascending list of them. The iterator and
--   `supersets` are left out.
-- Queries (klee/include/klee/Solver.h, klee/include/klee/IncompleteSolver.h): queries, partial
--   validities and what answers mean. `Language` is what the solver layers use of expressions and
--   constraints, with the assignments that satisfy a constraint set, at least one.
-- Staged (klee/lib/Solver/IncompleteSolver.cpp): `partial_validity` is
--   `IncompleteSolver::computeValidity`, `compute_truth` and `compute_validity` are those of
--   `StagedSolverImpl`. The two solvers are parameters.
-- Caching (klee/lib/Solver/CachingSolver.cpp): the methods of those names with the cache as
--   explicit state, over the solver behind as a parameter.
-- Searchers (klee/lib/Core/Searcher.cpp): one module per searcher, with its `select_state` and
--   `update`; a state is its pointer. `BaseSearcher` is what a searcher needs of the one it stands
--   on, and `dfs` provides it; its `select` changes nothing, so the interleaved and the merging
--   searcher do not provide it. An `Iterator` of the deepening searcher names the set it is of, and
--   `erase_paused` fails for one of another set, which is undefined in the program. Random
--   numbers and whether a time is over are arguments.
-- Memory (klee/lib/Core/AddressSpace.cpp, klee/lib/Core/AddressSpace.h): `AddressSpace` with its
--   methods, a client of ImmutableTree; object states live in a heap that the operations take and
--   give back, so that sharing between the states of the program is visible. Of `ObjectState`
--   (klee/lib/Core/Memory.h) the owner, the read-only flag and the bytes are kept.
-- Words (klee/include/klee/Internal/Support/IntEvaluation.h, klee/include/klee/util/Bits.h):
--   the operations on constants of a width in a `uint64_t`; `to_int` is the signed number that a
--   word stands for. Bitwise operations, `sdiv` and `srem` are left out.
-- Assignments (klee/include/klee/util/Assignment.h): the values of arrays and their evaluation.
-- CexCaching (klee/lib/Solver/CexCachingSolver.cpp): the methods of those names; `cache` is a trie
--   of MapOfSets from sets of expressions to assignments, `null` where a set has no solution.
--   Expressions are numbers in their order; their values are a parameter (`Theory`), as is the
--   solver behind.
-- Exprs (klee/include/klee/Expr.h, klee/lib/Expr/Updates.cpp): expressions with their kinds as
--   numbers, update lists, structural equality, the value under given bytes, and
--   `get_width` with the rules of the classes in `width_of`.
-- FindReads (klee/lib/Expr/ExprUtil.cpp): `find_reads` with its stack; the number of subterms
--   bounds the turns, since an expression is pushed once.
-- Independent (klee/lib/Solver/IndependentSolver.cpp): `ElementSet` is `IndependentElementSet`;
--   `close` is the loop of `getIndependentConstraints`, which has one turn more than there are
--   constraints, since a turn that changes the closure removes one. `compute` stands for the three
--   queries that pass the required constraints on.
-- Objects (klee/lib/Core/Memory.cpp, klee/lib/Core/Memory.h): `ObjectState` with its masks, cached
--   expressions and updates, and the methods of those names. `read8_at` and `write8_at_expr` are
--   the overloads for an offset that is an expression; `create_read` is `ReadExpr::create`
--   (klee/lib/Expr/Expr.cpp). Comparison and extension of expressions and the address of a new
--   constant array are parameters (`Builder`). Failed assertions are `none`: a constant offset for
--   the two, and in `extend_byte` a value of an update that has not 8 bits. Bit arrays
--   are functions, so accesses outside an object are not modelled.
-- ProcessTree (klee/lib/Core/PTree.cpp): `split` and `remove` over a heap of nodes; `remove_from` is
--   the loop, whose turns are bounded by the address of the node, the number of its allocation.
--
-- Not modelled: the executor itself (it interprets LLVM's data structures), printing and parsing
-- of expressions, the drivers of external solvers, statistics and command line tools.
pub mod Assignments
pub mod Base
pub mod Caching
pub mod CexCaching
pub mod Exprs
pub mod FindReads
pub mod ImmutableTree
pub mod Independent
pub mod KTest
pub mod MapOfSets
pub mod Memory
pub mod Objects
pub mod ProcessTree
pub mod Queries
pub mod Searchers
pub mod Solver
pub mod Staged
pub mod Words
