-- ===== src/Searchers/RandomSearcher.antt =====
-- `RandomSearcher` of klee/lib/Core/Searcher.cpp. `draw` is `theRNG.getInt32()`.
use xklee.Base.{ℕ, ◌%◌, Option, none, List, [], ◌∷◌, ◌++◌, length}
use xklee.Searchers.{get_elem?, erase, erase_all}

abbrev pub select_state : ℕ → List ℕ → Option ℕ
select_state draw [] = none
select_state draw (s ∷ states) = get_elem? (s ∷ states) (draw % length (s ∷ states))

unfoldable pub update : List ℕ → List ℕ → List ℕ → Option (List ℕ)
update added removed states = erase_all erase removed (states ++ added)
