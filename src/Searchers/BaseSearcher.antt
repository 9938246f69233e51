-- ===== src/Searchers/BaseSearcher.antt =====
-- `Searcher` of klee/lib/Core/Searcher.h, as the searchers use it that stand on another one.
use xklee.Base.{
  ℕ, ◌≡◌, refl, Bool, true, false, not, ◌&&◌, ◌||◌, Option, some, List, [], ◌∷◌, ◌++◌, arith,
}
use xklee.Searchers.DfsSearcher
use xklee.Searchers.Removal.{member, Distinct, without, member-without, without-Distinct}
use xklee.Searchers.Updates.{Fits, updates-eq-without, member-append}

-- The states are those kept before and those added, less the removed ones.
abbrev pub Tracks : List ℕ → List ℕ → List ℕ → List ℕ → Type 0
Tracks added removed before after =
    (x : ℕ) → member x after ≡ ((member x before || member x added) && not (member x removed))

-- The argument `current` of `update` is left out: of the searchers behind, only the weighted one,
-- which is not modelled, looks at it. `select` changes nothing: of the searchers behind, this leaves
-- out those whose `selectState` changes their state (interleaved, merging).
pub record BaseSearcher (S : Type 0) : Type 0 where
  pub select : S → Option ℕ
  pub update : List ℕ → List ℕ → S → Option S
  pub empty : S → Bool
  pub states : S → List ℕ
  pub empty-member : (s : S) (x : ℕ) → empty s ≡ true → member x (states s) ≡ false
  -- While there is a state, one is chosen.
  pub select-member :
      (s : S) (x : ℕ)
      → member x (states s) ≡ true
      → (es : ℕ) × (select s ≡ some es) × (member es (states s) ≡ true)
  pub update-Tracks :
      (added removed : List ℕ) (s : S)
      → Fits added removed (states s)
      → (s' : S) × (update added removed s ≡ some s')
        × Distinct (states s')
        × Tracks added removed (states s) (states s')

without-Tracks :
    (added removed states : List ℕ)
    → Tracks added removed states (without removed (states ++ added))
without-Tracks added removed states x =
    ground (arith, member-without x removed (states ++ added), member-append x states added)

pub dfs_update-Tracks :
    (added removed states : List ℕ)
    → Fits added removed states
    → (s' : List ℕ) × (DfsSearcher.update added removed states ≡ some s')
      × Distinct s'
      × Tracks added removed states s'
dfs_update-Tracks added removed states f = (
  without removed (states ++ added),
  (updates-eq-without added removed states f).0,
  without-Distinct removed (states ++ added) f.0,
  without-Tracks added removed states,
)

pub dfs_select-member :
    (states : List ℕ) (x : ℕ)
    → member x states ≡ true
    → (es : ℕ) × (DfsSearcher.select_state states ≡ some es) × (member es states ≡ true)
dfs_select-member [] x h = cc
dfs_select-member (s ∷ []) x h = (s, refl, ground arith)
dfs_select-member (s ∷ t ∷ states) x h =
    let (es, e, m) = dfs_select-member (t ∷ states) t (ground arith) in (es, e, ground arith)

abbrev pub is_empty : List ℕ → Bool
is_empty [] = true
is_empty (s ∷ states) = false

pub is_empty-member : (states : List ℕ) (x : ℕ) → is_empty states ≡ true → member x states ≡ false
is_empty-member [] x h = refl
is_empty-member (s ∷ states) x h = cc

abbrev pub dfs : BaseSearcher (List ℕ)
dfs = record {
  select = DfsSearcher.select_state;
  update = DfsSearcher.update;
  empty = is_empty;
  states = λ states. states;
  empty-member = is_empty-member;
  select-member = dfs_select-member;
  update-Tracks = dfs_update-Tracks;
}
