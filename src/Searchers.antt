-- ===== src/Searchers.antt =====
-- klee/lib/Core/Searcher.cpp: the strategies that choose the next state. A state is its pointer, a
-- number; a `std::set` of states is the list of them in iteration order. `none` is a failed
-- assertion or an access outside a container.
pub mod DfsSearcher
pub mod BfsSearcher
pub mod RandomSearcher
pub mod ConcolicDfsSearcher
pub mod Removal
pub mod Updates
pub mod BaseSearcher
pub mod BatchingSearcher
pub mod InterleavedSearcher
pub mod MergingSearcher
pub mod IterativeDeepeningTimeSearcher
mod Examples
use xklee.Base.{
  ℕ, zero, suc, ◌-◌, ◌%◌, Bool, true, false, not, ◌&&◌, ◌||◌, Option, none, some, List, [], ◌∷◌,
  ◌++◌, ◌==◌, if◌then◌else◌, length,
}
use xklee.Solver.{◌>>=◌}

-- `vec[i]`, `back()`, `front()` and the vector without its last or first element.
abbrev pub get_elem? : List ℕ → ℕ → Option ℕ
get_elem? [] i = none
get_elem? (s ∷ states) zero = some s
get_elem? (s ∷ states) (suc i) = get_elem? states i

abbrev pub back : List ℕ → Option ℕ
back [] = none
back (s ∷ []) = some s
back (s ∷ t ∷ states) = back (t ∷ states)

abbrev pub pop_back : List ℕ → List ℕ
pop_back [] = []
pop_back (s ∷ []) = []
pop_back (s ∷ t ∷ states) = s ∷ pop_back (t ∷ states)

abbrev pub front : List ℕ → Option ℕ
front [] = none
front (s ∷ states) = some s

abbrev pub pop_front : List ℕ → List ℕ
pop_front [] = []
pop_front (s ∷ states) = states

-- The loop that looks for `es`, with its assertion `ok`.
unfoldable pub erase : ℕ → List ℕ → Option (List ℕ)
erase es [] = none
erase es (s ∷ states) =
    let rest = erase es states in
    if es == s then some states else (rest >>= λ others. some (s ∷ others))

-- The body of the loop over the removed states, where the state `end` goes without a search.
abbrev pub erase_or : ℕ → Option ℕ → List ℕ → List ℕ → Option (List ℕ)
erase_or es none popped states = none
erase_or es (some end) popped states = if es == end then some popped else erase es states

abbrev pub dfs_erase : ℕ → List ℕ → Option (List ℕ)
dfs_erase es states = erase_or es (back states) (pop_back states) states

abbrev pub bfs_erase : ℕ → List ℕ → Option (List ℕ)
bfs_erase es states = erase_or es (front states) (pop_front states) states

-- The loop over `removedStates`.
unfoldable pub erase_all : (ℕ → List ℕ → Option (List ℕ)) → List ℕ → List ℕ → Option (List ℕ)
erase_all erase_one [] states = some states
erase_all erase_one (es ∷ removed) states =
    erase_one es states >>= λ rest. erase_all erase_one removed rest
