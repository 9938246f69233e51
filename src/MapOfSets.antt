-- ===== src/MapOfSets.antt =====
-- klee/include/klee/Internal/ADT/MapOfSets.h: a map from sets to values, kept as a trie over the
-- ascending elements of a set. Of the keys only order and equality are used, so they are numbers;
-- a `std::set` is its ascending list and a `std::map` of children its ascending list of entries.
pub mod Lookup
pub mod Subsets
pub mod FindSubset
pub mod Ordered
pub mod Supersets
pub mod StoredSubset
mod Examples
use xklee.Base.{ℕ, Bool, true, false, Option, none, some, List, [], ◌∷◌, ◌++◌, if◌then◌else◌, ltb}

-- `node mark children`: `mark` is `value` where `isEndOfSet` is true, and `none` where it is false.
mutual
  pub data Node {ℓ} (V : Type ℓ) : Type ℓ where
    node : Option V → Children V → Node V

  pub data Children {ℓ} (V : Type ℓ) : Type ℓ where
    nil : Children V
    child : ℕ → Node V → Children V → Children V

module _ {ℓ} {V : Type ℓ} where
  -- `Node()`, also the map after `clear`.
  abbrev pub empty : Node V
  empty = node none nil

  -- `children.find(k)`; the entries before `k` are passed over.
  abbrev pub get_child : ℕ → Children V → Option (Node V)
  get_child k nil = none
  get_child k (child j n cs) =
      let rest = get_child k cs in if ltb k j then none else (if ltb j k then rest else some n)

  -- `children.insert(make_pair(k, Node())).first->second`, then `f` on what is there.
  unfoldable pub update_child : ℕ → (Node V → Node V) → Children V → Children V
  update_child k f nil = child k (f empty) nil
  update_child k f (child j n cs) =
      if ltb k j
      then child k (f empty) (child j n cs)
      else (if ltb j k then child j n (update_child k f cs) else child j (f n) cs)

  -- The fields of a node.
  abbrev pub mark_of : Node V → Option V
  mark_of (node m cs) = m

  abbrev pub children_of : Node V → Children V
  children_of (node m cs) = cs

  -- `if (kit == children.end()) d else f(kit->second)`.
  abbrev pub at_child {κ} : {B : Type κ} → B → (Node V → B) → Option (Node V) → B
  at_child d f none = d
  at_child d f (some n) = f n

  unfoldable pub insert : List ℕ → V → Node V → Node V
  insert [] v (node m cs) = node (some v) cs
  insert (k ∷ set) v (node m cs) = node m (update_child k (insert set v) cs)

  unfoldable pub lookup : List ℕ → Node V → Option V
  lookup [] (node m cs) = m
  lookup (k ∷ set) (node m cs) = at_child none (lookup set) (get_child k cs)

  -- What a node adds to the results when a set ends at it.
  abbrev pub ended : Option V → List ℕ → List (List ℕ × V)
  ended none accum = []
  ended (some v) accum = (accum, v) ∷ []

  -- The loop of `findSubsets` over the elements `it` to `end`, below the children of the node.
  pub subsets_below : List ℕ → Children V → List ℕ → List (List ℕ × V)
  subsets_below [] cs accum = []
  subsets_below (k ∷ set) cs accum =
      at_child []
        (λ n.
          ended (mark_of n) (accum ++ (k ∷ []))
          ++ subsets_below set (children_of n) (accum ++ (k ∷ [])))
        (get_child k cs)
      ++ subsets_below set cs accum

  -- `subsets`.
  pub subsets : List ℕ → Node V → List (List ℕ × V)
  subsets set (node m cs) = ended m [] ++ subsets_below set cs []

  abbrev pub accepted : (V → Bool) → Option V → Option V
  accepted p none = none
  accepted p (some v) = if p v then some v else none

  infixr 30 ◌orelse◌
  abbrev pub ◌orelse◌ : Option V → Option V → Option V
  none orelse b = b
  some a orelse b = some a

  -- The loop of `findSubset`, which steps through the set and the children like a merge.
  unfoldable pub find_below : (V → Bool) → List ℕ → Children V → Option V
  find_below p [] cs = none
  find_below p (x ∷ set) nil = none
  find_below p (x ∷ set) (child k (node m cs') cs) =
      let skip_element = find_below p set (child k (node m cs') cs) in
      let skip_child = find_below p (x ∷ set) cs in
      let both = accepted p m orelse (find_below p set cs' orelse find_below p set cs) in
      if ltb x k then skip_element else (if ltb k x then skip_child else both)

  unfoldable pub find_subset : (V → Bool) → List ℕ → Node V → Option V
  find_subset p set (node m cs) = accepted p m orelse find_below p set cs

unfoldable mutual
  -- `findSuperset` at a node.
  pub find_superset {ℓ} : {V : Type ℓ} → (V → Bool) → List ℕ → Node V → Option V
  find_superset p [] (node m cs) = accepted p m orelse superset_in_any p [] cs
  find_superset p (k ∷ set) (node m cs) =
      superset_in_any p (k ∷ set) cs orelse superset_at p k set cs

  -- The loop over all children, with the same range of elements.
  pub superset_in_any {ℓ} : {V : Type ℓ} → (V → Bool) → List ℕ → Children V → Option V
  superset_in_any p set nil = none
  superset_in_any p set (child j n cs) = find_superset p set n orelse superset_in_any p set cs

  -- `kmid`, the child of the first element, with the range behind that element.
  pub superset_at {ℓ} : {V : Type ℓ} → (V → Bool) → ℕ → List ℕ → Children V → Option V
  superset_at p k set nil = none
  superset_at p k set (child j n cs) =
      let later = superset_at p k set cs in
      let here = find_superset p set n in
      if ltb k j then none else (if ltb j k then later else here)
