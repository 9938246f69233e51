-- ===== src/MapOfSets/Subsets.antt =====
-- The listing by `subsets` of klee/include/klee/Internal/ADT/MapOfSets.h beside `lookup`.
use xklee.Base.{ℕ, ◌≡◌, refl, ap, sym, Option, none, some, List, [], ◌∷◌, ◌++◌, map, append_assoc}
use xklee.MapOfSets.{
  Node, node, get_child, lookup, ended, subsets_below, subsets, at_child, mark_of, children_of,
}

-- The subsets of a set that are not empty, in the order of the search.
abbrev pub proper_sublists : List ℕ → List (List ℕ)
proper_sublists [] = []
proper_sublists (k ∷ set) =
    ((k ∷ []) ∷ map (λ t. k ∷ t) (proper_sublists set)) ++ proper_sublists set

module _ {ℓ} {V : Type ℓ} where
  -- The stored ones of the sets `ts`, named with `accum` in front.
  unfoldable pub stored : (List ℕ → Option V) → List ℕ → List (List ℕ) → List (List ℕ × V)
  stored find accum [] = []
  stored find accum (t ∷ ts) = ended (find t) (accum ++ t) ++ stored find accum ts

  stored-append :
      (find : List ℕ → Option V) (accum : List ℕ) (ss ts : List (List ℕ))
      → stored find accum (ss ++ ts) ≡ stored find accum ss ++ stored find accum ts
  unfolding stored
  stored-append find accum [] ts = refl
  stored-append find accum (s ∷ ss) ts = rw (stored-append find accum ss ts) (
      sym
        (append_assoc (ended (find s) (accum ++ s)) (stored find accum ss) (stored find accum ts)))

  -- Below the child of `k`.
  stored-child :
      (find : List ℕ → Option V) (k : ℕ) (accum : List ℕ) (ts : List (List ℕ))
      → stored find accum (map (λ t. k ∷ t) ts) ≡ stored (λ t. find (k ∷ t)) (accum ++ (k ∷ [])) ts
  unfolding stored
  stored-child find k accum [] = refl
  stored-child find k accum (t ∷ ts) =
      rw (stored-child find k accum ts, append_assoc accum (k ∷ []) t)

  stored-none : (accum : List ℕ) (ts : List (List ℕ)) → stored (λ _. none) accum ts ≡ []
  unfolding stored
  stored-none accum [] = refl
  stored-none accum (t ∷ ts) = stored-none accum ts

  -- The part of the list that goes through the child of `k`.
  stored-get_child :
      (k : ℕ) (set : List ℕ) (accum : List ℕ) (o : Option (Node V))
      → ((n : Node V)
          → subsets_below set (children_of n) accum
            ≡ stored (λ t. lookup t n) accum (proper_sublists set))
      → at_child [] (λ n. ended (mark_of n) accum ++ subsets_below set (children_of n) accum) o
        ≡ ended (at_child none (lookup []) o) accum
          ++ stored (λ t. at_child none (lookup t) o) accum (proper_sublists set)
  unfolding lookup
  stored-get_child k set accum none h = sym (stored-none accum (proper_sublists set))
  stored-get_child k set accum (some (node m cs)) h = ap (λ r. ended m accum ++ r) (h (node m cs))

  subsets_below-eq-stored :
      (set : List ℕ) (n : Node V) (accum : List ℕ)
      → subsets_below set (children_of n) accum
        ≡ stored (λ t. lookup t n) accum (proper_sublists set)
  unfolding subsets_below stored lookup
  subsets_below-eq-stored [] (node m cs) accum = refl
  subsets_below-eq-stored (k ∷ set) (node m cs) accum =
      let deeper = λ (n : Node V). subsets_below-eq-stored set n (accum ++ (k ∷ [])) in
      rw
        (
          subsets_below-eq-stored set (node m cs) accum,
          stored-get_child k set (accum ++ (k ∷ [])) (get_child k cs) deeper,
          stored-append (λ t. lookup t (node m cs)) accum (map (λ t. k ∷ t) (proper_sublists set))
              (proper_sublists set),
          stored-child (λ t. lookup t (node m cs)) k accum (proper_sublists set),
        )
        (append_assoc (ended (at_child none (lookup []) (get_child k cs)) (accum ++ (k ∷ [])))
          (stored (λ t. at_child none (lookup t) (get_child k cs)) (accum ++ (k ∷ []))
            (proper_sublists set))
          (stored (λ t. lookup t (node m cs)) accum (proper_sublists set)))

  -- `subsets` lists the stored ones among the empty list and the other sublists of `set`, with
  -- the values that `lookup` gives them.
  pub subsets-eq-stored :
      (set : List ℕ) (n : Node V)
      → subsets set n ≡ stored (λ t. lookup t n) [] ([] ∷ proper_sublists set)
  unfolding subsets stored lookup
  subsets-eq-stored set (node m cs) =
      ap (λ r. ended m [] ++ r) (subsets_below-eq-stored set (node m cs) [])
