-- ===== src/Searchers/DfsSearcher.antt =====
-- `DFSSearcher` of klee/lib/Core/Searcher.cpp.
use xklee.Base.{ℕ, Option, List, ◌++◌}
use xklee.Searchers.{back, dfs_erase, erase_all}

abbrev pub select_state : List ℕ → Option ℕ
select_state states = back states

unfoldable pub update : List ℕ → List ℕ → List ℕ → Option (List ℕ)
update added removed states = erase_all dfs_erase removed (states ++ added)
