-- ===== src/Searchers/Examples.antt =====
-- The laws of the searchers at a few states.
use xklee.Base.{ℕ, ◌≡◌, ◌<◌, refl, true, false, not, ◌&&◌, ◌||◌, some, List, [], ◌∷◌, arith}
use xklee.Searchers.DfsSearcher
use xklee.Searchers.BfsSearcher
use xklee.Searchers.RandomSearcher
use xklee.Searchers.Removal.{member}
use xklee.Searchers.Updates.{Fits, updates-eq-without}
use xklee.Searchers.BaseSearcher.{dfs, Tracks}
use xklee.Searchers.BatchingSearcher
use xklee.Searchers.BatchingSearcher.{Batching}
use xklee.Searchers.InterleavedSearcher.{next_turn, index_after, turn_comes}
use xklee.Searchers.MergingSearcher
use xklee.Searchers.MergingSearcher.{Merging}
use xklee.Searchers.IterativeDeepeningTimeSearcher
use xklee.Searchers.IterativeDeepeningTimeSearcher.Kept.{deepening_update-keeps}
use xklee.Searchers.IterativeDeepeningTimeSearcher.{Deepening}

fits : Fits (8 ∷ 9 ∷ []) (5 ∷ 9 ∷ []) (4 ∷ 5 ∷ [])
fits = ((refl, (refl, (refl, (refl, tt)))), (refl, (refl, tt)), (refl, (refl, tt)))

updates-eq-without_example :
    (DfsSearcher.update (8 ∷ 9 ∷ []) (5 ∷ 9 ∷ []) (4 ∷ 5 ∷ []) ≡ some (4 ∷ 8 ∷ []))
    × (BfsSearcher.update (8 ∷ 9 ∷ []) (5 ∷ 9 ∷ []) (4 ∷ 5 ∷ []) ≡ some (4 ∷ 8 ∷ []))
    × (RandomSearcher.update (8 ∷ 9 ∷ []) (5 ∷ 9 ∷ []) (4 ∷ 5 ∷ []) ≡ some (4 ∷ 8 ∷ []))
updates-eq-without_example = updates-eq-without (8 ∷ 9 ∷ []) (5 ∷ 9 ∷ []) (4 ∷ 5 ∷ []) fits

abbrev batch : Batching (List ℕ)
batch = record { base = 4 ∷ 5 ∷ []; last_state = some 5 }

select_state-IsChoice_example :
    (es : ℕ) × (b' : Batching (List ℕ)) × (BatchingSearcher.select_state dfs false batch
      ≡ some (es, b'))
    × BatchingSearcher.IsChoice dfs false batch es b'
    × (BatchingSearcher.select_times dfs 2 b' ≡ some (es ∷ es ∷ [], b'))
select_state-IsChoice_example = BatchingSearcher.select_state-IsChoice dfs false 2 batch 5 refl refl

update-IsLive_example :
    (b' : Batching (List ℕ)) × (BatchingSearcher.update dfs (8 ∷ 9 ∷ []) (5 ∷ 9 ∷ []) batch
      ≡ some b')
    × Tracks (8 ∷ 9 ∷ []) (5 ∷ 9 ∷ []) (4 ∷ 5 ∷ []) b'.base
    × BatchingSearcher.IsLive dfs b'.base b'.last_state
update-IsLive_example = BatchingSearcher.update-IsLive dfs (8 ∷ 9 ∷ []) (5 ∷ 9 ∷ []) batch fits refl

turn_comes_example : (k : ℕ) × (k < 3) × ((next_turn 3 (index_after 3 2 k)).0 ≡ 2)
turn_comes_example = turn_comes 3 2 2 (omega arith, omega arith) (omega arith)

abbrev merging : Merging (List ℕ)
merging = record { base = 4 ∷ []; states_at_merge = 5 ∷ [] }

apart : (x : ℕ) → (member x (4 ∷ 8 ∷ 9 ∷ []) && member x (5 ∷ [])) ≡ false
apart x = ground arith

merging_update-keeps_example :
    (b' : Merging (List ℕ)) × (MergingSearcher.update dfs (8 ∷ 9 ∷ []) (5 ∷ 9 ∷ []) merging
      ≡ some b')
    × ((x : ℕ)
        → MergingSearcher.is_kept dfs b' x ≡ (
            (MergingSearcher.is_kept dfs merging x || member x (8 ∷ 9 ∷ []))
            && not (member x (5 ∷ 9 ∷ []))))
merging_update-keeps_example =
    MergingSearcher.merging_update-keeps dfs (8 ∷ 9 ∷ []) (5 ∷ 9 ∷ []) merging
      ((refl, (refl, (refl, tt))), (refl, (refl, tt)), (refl, (refl, tt)), apart)

abbrev deepening : Deepening (List ℕ)
deepening = record { base = 4 ∷ []; paused_states = 5 ∷ [] }

deepening_update-keeps_example :
    (b' : Deepening (List ℕ)) × (IterativeDeepeningTimeSearcher.update dfs true
        (some 4)
        (8 ∷ 9 ∷ [])
        (9 ∷ [])
        deepening
      ≡ some b')
    × IterativeDeepeningTimeSearcher.IsApart dfs b'
    × ((x : ℕ)
        → IterativeDeepeningTimeSearcher.is_kept dfs b' x ≡ (
            (IterativeDeepeningTimeSearcher.is_kept dfs deepening x || member x (8 ∷ 9 ∷ []))
            && not (member x (9 ∷ []))))
deepening_update-keeps_example =
    deepening_update-keeps dfs true (some 4) (8 ∷ 9 ∷ []) (9 ∷ []) deepening
      ((refl, (refl, (refl, tt))), (refl, tt), (refl, tt)) (refl, tt) apart (refl, tt) refl
