-- ===== src/CexCaching/Search.antt =====
-- What the search of klee/lib/Solver/CexCachingSolver.cpp returns for a key.
use xklee.Base.{
  ℕ, ◌≡◌, Bool, true, false, Option, none, some, List, [], ◌∷◌, if◌then◌else◌, all, Bool-cases, inl,
  inr, subst,
}
use xklee.MapOfSets
use xklee.MapOfSets.{Node, ◌orelse◌, find_superset, find_subset}
use xklee.MapOfSets.Ordered.{IsOrdered}
use xklee.MapOfSets.FindSubset.{IsAscending}
use xklee.MapOfSets.Supersets.{IsWithin}
use xklee.MapOfSets.Supersets.Sound.{find_superset-IsStored, orelse-cases}
use xklee.MapOfSets.StoredSubset.{find_subset-IsStored}
use xklee.Assignments.{Assignment, Bytes, evaluate, satisfies}
use xklee.CexCaching.{
  Theory, CexState, non_null_assignment, null_assignment, null_or_satisfying_assignment,
  first_satisfying, search_for_assignment,
}
use xklee.CexCaching.Sets.{all-within}

module _ (theory : Theory) where
  open theory use {holds}

  -- An assignment satisfies the set; a null one says that nothing does.
  abbrev pub IsSolution : List ℕ → Option Assignment → Type 0
  IsSolution key none = (bytes : Bytes) → all (λ e. holds e bytes) key ≡ false
  IsSolution key (some a) = satisfies holds a key ≡ true

  -- The children of the trie are in order and each stored result is a solution of its set.
  pub record IsRight (cache : Node (Option Assignment)) : Type 0 where
    pub ordered : IsOrdered cache
    pub solutions :
        (t : List ℕ) (v : Option Assignment) → MapOfSets.lookup t cache ≡ some v → IsSolution t v

  -- An assignment of a superset.
  superset-IsSolution :
      (key t : List ℕ) (v : Option Assignment)
      → IsWithin key t
      → IsSolution t v
      → non_null_assignment v ≡ true
      → IsSolution key v
  superset-IsSolution key t none w s h = cc
  superset-IsSolution key t (some a) w s h = all-within (λ e. holds e (evaluate a)) key t w s

  -- A subset without solution.
  subset-null : (key t : List ℕ) → IsWithin t key → IsSolution t none → IsSolution key none
  subset-null key t w s bytes = elim (Bool-cases (all (λ e. holds e bytes) key)) [
    | inl f ↦ let whole = all-within (λ e. holds e bytes) t key w f in let part = s bytes in cc
    | inr f ↦ f
  ]

  subset-IsSolution :
      (key t : List ℕ) (v : Option Assignment)
      → IsWithin t key
      → IsSolution t v
      → null_or_satisfying_assignment theory key v ≡ true
      → IsSolution key v
  subset-IsSolution key t none w s h = subset-null key t w s
  subset-IsSolution key t (some a) w s h = h

  null_subset-IsSolution :
      (key t : List ℕ) (v : Option Assignment)
      → IsWithin t key
      → IsSolution t v
      → null_assignment v ≡ true
      → IsSolution key v
  null_subset-IsSolution key t none w s h = subset-null key t w s
  null_subset-IsSolution key t (some a) w s h = cc

  first_satisfying-IsSolution :
      (key : List ℕ) (table : List Assignment) {v : Option Assignment}
      → first_satisfying theory key table ≡ some v
      → IsSolution key v
  unfolding first_satisfying
  first_satisfying-IsSolution key [] e = cc
  first_satisfying-IsSolution key (a ∷ table) {v} e = elim (Bool-cases (satisfies holds a key)) [
    | inl f ↦ let same : some a ≡ v = cc (rw f at e) in subst (λ x. IsSolution key x) same f
    | inr f ↦ first_satisfying-IsSolution key table (rw f at e)
  ]

  module _ (key : List ℕ) (state : CexState) (ascending : IsAscending key)
      (right : IsRight state.cache) where
    by_superset :
        {v : Option Assignment}
        → find_superset non_null_assignment key state.cache ≡ some v
        → IsSolution key v
    by_superset {v} e =
        let (t, w, found, h) =
          find_superset-IsStored non_null_assignment key state.cache right.ordered e in
        superset-IsSolution key t v w (right.solutions t v found) h

    by_null_subset :
        {v : Option Assignment}
        → find_subset null_assignment key state.cache ≡ some v
        → IsSolution key v
    by_null_subset {v} e =
        let (t, w, found, h) = find_subset-IsStored null_assignment key state.cache ascending e in
        null_subset-IsSolution key t v w (right.solutions t v found) h

    by_subset :
        {v : Option Assignment}
        → find_subset (null_or_satisfying_assignment theory key) key state.cache ≡ some v
        → IsSolution key v
    by_subset {v} e =
        let (t, w, found, h) =
          find_subset-IsStored (null_or_satisfying_assignment theory key) key state.cache ascending
            e in
        subset-IsSolution key t v w (right.solutions t v found) h

    searched :
        (try_all : Bool) {v : Option Assignment}
        → (if try_all
            then (find_subset null_assignment key state.cache
                orelse first_satisfying theory key state.assignments_table)
            else find_subset (null_or_satisfying_assignment theory key) key state.cache)
          ≡ some v
        → IsSolution key v
    searched true e =
        elim (orelse-cases (find_subset null_assignment key state.cache)
          (first_satisfying theory key state.assignments_table) e) [
            | inl f ↦ by_null_subset f
            | inr f ↦ first_satisfying-IsSolution key state.assignments_table f
          ]
    searched false e = by_subset e

    pub search-IsSolution :
        (try_all : Bool) {v : Option Assignment}
        → search_for_assignment theory try_all key state ≡ some v
        → IsSolution key v
    unfolding search_for_assignment
    search-IsSolution try_all {v} e = elim (orelse-cases (MapOfSets.lookup key state.cache) _ e) [
      | inl f ↦ right.solutions key v f
      | inr f ↦ elim (orelse-cases (find_superset non_null_assignment key state.cache) _ f) [
        | inl g ↦ by_superset g
        | inr g ↦ searched try_all g
      ]
    ]
