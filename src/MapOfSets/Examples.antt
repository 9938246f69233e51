-- ===== src/MapOfSets/Examples.antt =====
-- The laws of MapOfSets at a small trie.
use xklee.Base.{ℕ, ◌≡◌, ◌≢◌, refl, Bool, some, List, [], ◌∷◌, ltb, arith}
use xklee.MapOfSets.{
  Node, empty, insert, lookup, subsets, find_subset, find_superset, superset_in_any, superset_at,
  subsets_below, find_below, update_child,
}
use xklee.MapOfSets.Subsets.{subsets-eq-stored, stored, proper_sublists}
use xklee.MapOfSets.FindSubset.{find_subset-eq-first, first_accepted}
use xklee.MapOfSets.Ordered.{IsOrdered, insert-IsOrdered, empty-IsOrdered}
use xklee.MapOfSets.Supersets.{find_superset-Succeeds, Succeeds, none_left, taken, passed}
use xklee.MapOfSets.Supersets.Sound.{find_superset-IsStored, IsStored}

abbrev trie : Node ℕ
trie = insert (2 ∷ 5 ∷ []) 10 (insert (5 ∷ []) 20 (insert (1 ∷ 2 ∷ 5 ∷ []) 30 empty))

abbrev above_15 : ℕ → Bool
above_15 v = ltb 15 v

subsets-trie :
    subsets (1 ∷ 2 ∷ 5 ∷ []) trie ≡ (1 ∷ 2 ∷ 5 ∷ [], 30) ∷ (2 ∷ 5 ∷ [], 10) ∷ (5 ∷ [], 20) ∷ []
unfolding insert update_child subsets subsets_below
subsets-trie = refl

find_subset-trie : find_subset above_15 (2 ∷ 5 ∷ []) trie ≡ some 20
unfolding insert update_child find_subset find_below
find_subset-trie = refl

find_superset-trie : find_superset above_15 (2 ∷ 5 ∷ []) trie ≡ some 30
unfolding insert update_child find_superset superset_in_any superset_at
find_superset-trie = refl

lookup-trie : lookup (1 ∷ 2 ∷ 5 ∷ []) trie ≡ some 30
unfolding insert update_child lookup
lookup-trie = refl

trie-IsOrdered : IsOrdered trie
trie-IsOrdered =
    insert-IsOrdered (2 ∷ 5 ∷ []) 10 (insert (5 ∷ []) 20 (insert (1 ∷ 2 ∷ 5 ∷ []) 30 empty)) (
      insert-IsOrdered (5 ∷ []) 20 (insert (1 ∷ 2 ∷ 5 ∷ []) 30 empty)
        (insert-IsOrdered (1 ∷ 2 ∷ 5 ∷ []) 30 empty (empty-IsOrdered empty refl)))

empty-ne : (k : ℕ) (set : List ℕ) → [] ≢ k ∷ set
empty-ne k set e = cc

subsets-eq-stored_example :
    subsets (2 ∷ 5 ∷ []) trie ≡ stored (λ t. lookup t trie) [] ([] ∷ proper_sublists (2 ∷ 5 ∷ []))
subsets-eq-stored_example = subsets-eq-stored (2 ∷ 5 ∷ []) trie

find_subset-eq-first_example :
    find_subset above_15 (2 ∷ 5 ∷ []) trie ≡ first_accepted above_15 (subsets (2 ∷ 5 ∷ []) trie)
find_subset-eq-first_example =
    find_subset-eq-first above_15 (2 ∷ 5 ∷ []) trie ((omega arith, tt), (tt, tt))

find_superset-Succeeds_example : Succeeds (find_superset above_15 (2 ∷ 5 ∷ []) trie)
find_superset-Succeeds_example =
    find_superset-Succeeds above_15 (2 ∷ 5 ∷ []) (1 ∷ 2 ∷ 5 ∷ []) trie lookup-trie
      (passed (taken refl (taken refl none_left))) refl

find_superset-IsStored_example : IsStored above_15 (2 ∷ 5 ∷ []) (λ t. lookup t trie) 30
find_superset-IsStored_example =
    find_superset-IsStored above_15 (2 ∷ 5 ∷ []) trie trie-IsOrdered find_superset-trie
