-- ===== src/Searchers/BfsSearcher.antt =====
-- `BFSSearcher` of klee/lib/Core/Searcher.cpp.
use xklee.Base.{ℕ, Option, List, ◌++◌}
use xklee.Searchers.{front, bfs_erase, erase_all}

abbrev pub select_state : List ℕ → Option ℕ
select_state states = front states

unfoldable pub update : List ℕ → List ℕ → List ℕ → Option (List ℕ)
update added removed states = erase_all bfs_erase removed (states ++ added)
