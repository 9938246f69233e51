-- ===== src/Searchers/ConcolicDfsSearcher.antt =====
-- `ConcolicDFSSearcher` of klee/lib/Core/Searcher.cpp.
use xklee.Base.{ℕ, Bool, true, false, Option, none, some, List, [], ◌∷◌, ◌++◌}
use xklee.Solver.{◌>>=◌}
use xklee.Searchers.{pop_back, dfs_erase, erase_all}

-- `std::swap(states[size-1], states[size-2])`.
unfoldable pub swap_last : List ℕ → Option (List ℕ)
swap_last [] = none
swap_last (s ∷ []) = none
swap_last (s ∷ t ∷ []) = some (t ∷ s ∷ [])
swap_last (s ∷ t ∷ u ∷ states) = swap_last (t ∷ u ∷ states) >>= λ rest. some (s ∷ rest)

abbrev pub swap_if : Bool → List ℕ → Option (List ℕ)
swap_if false states = some states
swap_if true states = swap_last states

-- `update`, from the flag `swapLastState`, which it resets.
unfoldable pub update : List ℕ → List ℕ → Bool × List ℕ → Option (Bool × List ℕ)
update added removed (swap_last_state, states) =
    swap_if swap_last_state (states ++ added) >>= λ swapped.
    erase_all dfs_erase removed swapped >>= λ rest. some (false, rest)

-- The states before the loop over the removed ones in `updateEx`.
unfoldable pub extend : List ℕ → List ℕ → List ℕ → Option (List ℕ)
extend (a ∷ b ∷ []) added [] = none
extend (a ∷ b ∷ []) added (s ∷ states) = some (pop_back (s ∷ states) ++ (a ∷ b ∷ []))
extend xadded added states = some (states ++ added)

unfoldable pub update_ex : List ℕ → List ℕ → List ℕ → List ℕ → Option (List ℕ)
update_ex xadded added removed states =
    extend xadded added states >>= λ extended. erase_all dfs_erase removed extended
