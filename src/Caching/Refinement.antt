-- ===== src/Caching/Refinement.antt =====
-- A cached validity of klee/lib/Solver/CachingSolver.cpp that was refined by the solver behind.
use xklee.Base.{◌≡◌, refl, Bool, Option, none, some, Option-cases, inl, inr}
use xklee.Solver.{Validity}
use xklee.Queries.{Language, Query, PartialValidity, may_be_true}
use xklee.Caching.{
  CacheMap, find, insert, cache_entry, cache_lookup, cache_insert, remember, compute_truth,
  truth_from,
}

module _ {C E Env : Type 0} (lang : Language C E Env) where
  -- `insert` does nothing under a key that `cache_lookup` finds.
  cache_insert_found :
      (q : Query C E) (pv pv' : PartialValidity) (cache : CacheMap C E)
      → cache_lookup lang q cache ≡ some pv
      → cache_insert lang q pv' cache ≡ cache
  unfolding cache_insert insert cache_lookup
  cache_insert_found q pv pv' cache e = elim (Option-cases (find lang (cache_entry lang q) cache)) [
    | inl f ↦ absurd (cc (rw (cache_lookup, f) at e))
    | inr (kept, f) ↦ rw f
  ]

  remember_found :
      {A : Type 0} (q : Query C E) (pv : PartialValidity) (cache : CacheMap C E)
      (o : Option (A × PartialValidity))
      → cache_lookup lang q cache ≡ some pv
      → (remember lang q cache o).1 ≡ cache
  remember_found q pv cache none e = refl
  remember_found q pv cache (some (result, pv')) e = cache_insert_found q pv pv' cache e

  module _ (solver_truth : Query C E → Option Bool)
      (solver_validity : Query C E → Option Validity) where
    -- When the cache holds MayBeTrue for a query, `compute_truth` leaves the cache as it was,
    -- whatever the solver behind answers: the refined validity is not kept.
    pub compute_truth-keeps_cache :
        (q : Query C E) (cache : CacheMap C E)
        → cache_lookup lang q cache ≡ some may_be_true
        → (compute_truth lang solver_truth solver_validity q cache).1 ≡ cache
    unfolding compute_truth truth_from
    compute_truth-keeps_cache q cache e = rw e (remember_found q may_be_true cache _ e)
