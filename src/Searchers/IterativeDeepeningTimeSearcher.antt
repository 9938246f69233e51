-- ===== src/Searchers/IterativeDeepeningTimeSearcher.antt =====
-- `IterativeDeepeningTimeSearcher::update` of klee/lib/Core/Searcher.cpp: a state that takes long
-- is paused until the others are done. Whether the time of the step exceeds the current limit is
-- an argument; the limit itself, which is doubled in each round, is left out.
pub mod Kept
use xklee.Base.{
  ℕ, ◌≡◌, refl, ap, Bool, true, false, not, ◌&&◌, ◌||◌, Option, none, some, List, [], ◌∷◌, ◌++◌,
  ◌==◌, ==_iff, if◌then◌else◌, arith, All, Bool-cases, inl, inr, ◌∙◌, sym, append-nil,
}
use xklee.Solver.{◌>>=◌}
use xklee.Searchers.{erase}
use xklee.Searchers.Removal.{member, Distinct}
use xklee.Searchers.Updates.{Fits, member-append}
use xklee.Searchers.BaseSearcher.{BaseSearcher, Tracks}

pub record Deepening (S : Type 0) : Type 0 where
  pub base : S
  pub paused_states : List ℕ

-- An iterator: the set that it walks and the element that it stands at.
pub data Owner : Type 0 where
  removed_states paused_states : Owner

pub record Iterator : Type 0 where
  pub owner : Owner
  pub element : ℕ

-- `pausedStates.erase(it)`, which is undefined for an iterator of another set.
abbrev pub erase_paused : Iterator → List ℕ → Option (List ℕ)
erase_paused it paused = elim it.owner [
  | removed_states ↦ none
  | paused_states ↦ erase it.element paused
]

-- The body for a state that is found in `pausedStates`: the iterator is the one of the loop over
-- `removedStates`. What is left is `alt` and `pausedStates`.
abbrev pub erase_both : ℕ → List ℕ → List ℕ → Option (List ℕ × List ℕ)
erase_both es alt paused =
    erase_paused (record { owner = Owner.removed_states; element = es }) paused >>= λ paused'.
    erase es alt >>= λ alt'. some (alt', paused')

-- The loop over the removed states.
unfoldable pub check_removed : List ℕ → List ℕ → List ℕ → Option (List ℕ × List ℕ)
check_removed [] alt paused = some (alt, paused)
check_removed (es ∷ removed) alt paused =
    (if member es paused then erase_both es alt paused else some (alt, paused)) >>= λ left.
    check_removed removed left.0 left.1

module _ {S : Type 0} (searcher : BaseSearcher S) where
  open searcher use {empty, states, empty-member, update-Tracks}

  -- `if (current && !removedStates.count(current) && elapsed>time)`.
  abbrev pub is_late : Bool → List ℕ → ℕ → Bool
  is_late over_time removed current = not (member current removed) && over_time

  abbrev pub pause_if : Bool → ℕ → Deepening S → Option (Deepening S)
  pause_if false current b = some b
  pause_if true current b = searcher.update [] (current ∷ []) b.base >>= λ s.
      some (record { base = s; paused_states = current ∷ b.paused_states })

  abbrev pub pause : Bool → List ℕ → Option ℕ → Deepening S → Option (Deepening S)
  pause over_time removed none b = some b
  pause over_time removed (some current) b = pause_if (is_late over_time removed current) current b

  -- `if (baseSearcher->empty())`.
  abbrev pub resume : Bool → Deepening S → Option (Deepening S)
  resume false b = some b
  resume true b = searcher.update b.paused_states [] b.base >>= λ s.
      some (record { base = s; paused_states = [] })

  unfoldable pub update : Bool → Option ℕ → List ℕ → List ℕ → Deepening S → Option (Deepening S)
  update over_time current added removed b =
      check_removed removed removed b.paused_states >>= λ (alt, paused).
      searcher.update added alt b.base >>= λ s.
      pause over_time removed current (record { base = s; paused_states = paused }) >>= λ b'.
      resume (empty b'.base) b'

  -- The state is in one of the two places.
  abbrev pub is_kept : Deepening S → ℕ → Bool
  is_kept b x = member x (states b.base) || member x b.paused_states

  -- No state is twice in these places.
  abbrev pub IsApart : Deepening S → Type 0
  IsApart b =
      Distinct (states b.base)
      × Distinct b.paused_states
      × ((x : ℕ) → (member x (states b.base) && member x b.paused_states) ≡ false)
