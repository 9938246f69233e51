-- ===== src/Searchers/Updates.antt =====
-- What `update` of the searchers of klee/lib/Core/Searcher.cpp leaves in their lists of states.
use xklee.Base.{
  ℕ, ◌≡◌, refl, true, false, ◌||◌, some, List, [], ◌∷◌, ◌++◌, arith, All, All-map, ◌%◌, ◌<◌, suc,
  zero, length,
}
use native.Mathlib.Nat.{mod-lt}
use xklee.Searchers.{back, pop_back, erase, dfs_erase, bfs_erase, get_elem?}
use xklee.Searchers.DfsSearcher
use xklee.Searchers.BfsSearcher
use xklee.Searchers.RandomSearcher
use xklee.Searchers.ConcolicDfsSearcher
use xklee.Searchers.Removal.{
  member, Distinct, without, erase_all-eq-without, erase-Erases, bfs_erase-Erases, dfs_erase-Erases,
}

-- New states are new, and removed ones are there: what the executor keeps to.
abbrev pub Fits : List ℕ → List ℕ → List ℕ → Type 0
Fits added removed states =
    Distinct (states ++ added)
    × Distinct removed
    × All (λ es. member es (states ++ added) ≡ true) removed

-- When the states and the added ones are distinct and the removed ones, distinct too, are
-- among them, `update` of the depth-first, the breadth-first and the random searcher passes
-- its assertion and leaves the states followed by the added ones, less the removed ones, in
-- that order.
pub updates-eq-without :
    (added removed states : List ℕ)
    → Fits added removed states
    → (DfsSearcher.update added removed states ≡ some (without removed (states ++ added)))
      × (BfsSearcher.update added removed states ≡ some (without removed (states ++ added)))
      × (RandomSearcher.update added removed states ≡ some (without removed (states ++ added)))
unfolding DfsSearcher.update BfsSearcher.update RandomSearcher.update
updates-eq-without added removed states (d, r, a) = (
  erase_all-eq-without dfs_erase removed (states ++ added) dfs_erase-Erases r d a,
  erase_all-eq-without bfs_erase removed (states ++ added) bfs_erase-Erases r d a,
  erase_all-eq-without erase removed (states ++ added) erase-Erases r d a,
)

pub member-append : (x : ℕ) (xs ys : List ℕ) → member x (xs ++ ys) ≡ (member x xs || member x ys)
member-append x [] ys = refl
member-append x (z ∷ xs) ys = ground (arith, member-append x xs ys)

Distinct-swap :
    (a b : ℕ) (xs : List ℕ) → Distinct (xs ++ (a ∷ b ∷ [])) → Distinct (xs ++ (b ∷ a ∷ []))
Distinct-swap a b [] d = (ground arith, (refl, tt))
Distinct-swap a b (x ∷ xs) d = (
  ground (arith, member-append x xs (a ∷ b ∷ []), member-append x xs (b ∷ a ∷ [])),
  Distinct-swap a b xs d.1,
)

member-swap :
    (x a b : ℕ) (xs : List ℕ)
    → member x (xs ++ (a ∷ b ∷ [])) ≡ true
    → member x (xs ++ (b ∷ a ∷ [])) ≡ true
member-swap x a b xs h =
    ground (arith, member-append x xs (a ∷ b ∷ []), member-append x xs (b ∷ a ∷ []))

swap_last-append :
    (a b : ℕ) (xs : List ℕ)
    → ConcolicDfsSearcher.swap_last (xs ++ (a ∷ b ∷ [])) ≡ some (xs ++ (b ∷ a ∷ []))
unfolding ConcolicDfsSearcher.swap_last
swap_last-append a b [] = refl
swap_last-append a b (x ∷ []) = refl
swap_last-append a b (x ∷ y ∷ []) = refl
swap_last-append a b (x ∷ y ∷ z ∷ xs) = rw (swap_last-append a b (y ∷ z ∷ xs))

-- When the states and the added ones are distinct, end in two states, and the removed ones,
-- distinct too, are among them, and the flag is set, `update` of the concolic searcher
-- exchanges the last two of the states with the added ones, leaves those that are not
-- removed in order, and resets the flag.
pub concolic_update_swapped :
    (added removed states xs : List ℕ) (a b : ℕ)
    → states ++ added ≡ xs ++ (a ∷ b ∷ [])
    → Fits added removed states
    → ConcolicDfsSearcher.update added removed (true, states)
      ≡ some (false, without removed (xs ++ (b ∷ a ∷ [])))
unfolding ConcolicDfsSearcher.update
concolic_update_swapped added removed states xs a b e (d, r, m) =
    let d' : Distinct (xs ++ (a ∷ b ∷ [])) = rw e at d in
    let m' : All (λ es. member es (xs ++ (a ∷ b ∷ [])) ≡ true) removed = rw e at m in
    rw (
      e,
      swap_last-append a b xs,
      erase_all-eq-without dfs_erase removed (xs ++ (b ∷ a ∷ [])) dfs_erase-Erases r
          (Distinct-swap a b xs d') (All-map (λ x h. member-swap x a b xs h) removed m'),
    )

pub concolic_update_plain :
    (added removed states : List ℕ)
    → Fits added removed states
    → ConcolicDfsSearcher.update added removed (false, states)
      ≡ some (false, without removed (states ++ added))
unfolding ConcolicDfsSearcher.update
concolic_update_plain added removed states (d, r, a) =
    rw (erase_all-eq-without dfs_erase removed (states ++ added) dfs_erase-Erases r d a)

get_elem?-member :
    (states : List ℕ) (i : ℕ)
    → i < length states
    → (s : ℕ) × (get_elem? states i ≡ some s) × (member s states ≡ true)
get_elem?-member [] i h = absurd (omega arith)
get_elem?-member (s ∷ states) zero h = (s, refl, ground arith)
get_elem?-member (s ∷ states) (suc i) h =
    let (t, e, m) = get_elem?-member states i (omega arith) in (t, e, ground arith)

pub random_select-member :
    (draw s : ℕ) (states : List ℕ)
    → (t : ℕ) × (RandomSearcher.select_state draw (s ∷ states) ≡ some t)
      × (member t (s ∷ states) ≡ true)
random_select-member draw s states =
    get_elem?-member (s ∷ states) (draw % length (s ∷ states)) (mod-lt draw (omega arith))

-- With two states to put in, `update_ex` of the concolic searcher replaces the last state by
-- them, when the result is distinct and the removed ones are distinct and among it, and
-- leaves those that are not removed in order.
pub update_ex-eq-without :
    (a b : ℕ) (added removed states : List ℕ) (s : ℕ)
    → back states ≡ some s
    → Fits (a ∷ b ∷ []) removed (pop_back states)
    → ConcolicDfsSearcher.update_ex (a ∷ b ∷ []) added removed states
      ≡ some (without removed (pop_back states ++ (a ∷ b ∷ [])))
unfolding ConcolicDfsSearcher.update_ex ConcolicDfsSearcher.extend
update_ex-eq-without a b added removed [] s e f = cc
update_ex-eq-without a b added removed (t ∷ states) s e (d, r, m) =
    erase_all-eq-without dfs_erase removed (pop_back (t ∷ states) ++ (a ∷ b ∷ [])) dfs_erase-Erases
      r d m
