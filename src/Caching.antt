-- ===== src/Caching.antt =====
-- klee/lib/Solver/CachingSolver.cpp: a solver that remembers validities. The `unordered_map` is an
-- association list; each operation takes the cache and gives it back. `none` as an answer is the
-- return value false. The statistics counters are left out.
pub mod Entries
pub mod Refinement
pub mod Right
mod Examples
use xklee.Base.{◌≡◌, Bool, true, false, ◌&&◌, not, Option, none, some, List, [], ◌∷◌, if◌then◌else◌}
use xklee.Solver.{Validity, valid, invalid, unknown}
use xklee.Queries.{
  Language, Query, PartialValidity, must_be_true, must_be_false, may_be_true, may_be_false,
  true_or_false, no_answer, negate_partial_validity, negate_expr,
}
use xklee.Staged.{is_must_be_true}

-- `cache_map`, whose key `CacheEntry` has the fields of a query.
abbrev pub CacheMap : Type 0 → Type 0 → Type 0
CacheMap C E = List (Query C E × PartialValidity)

abbrev pub is_may_be_true : PartialValidity → Bool
is_may_be_true may_be_true = true
is_may_be_true _ = false

abbrev pub with_answer : {A B : Type 0} → (A → B) → Option A → Option B
with_answer f none = none
with_answer f (some a) = some (f a)

-- `insert` of a `map`, given what is there under the key.
abbrev pub add_missing : {A B : Type 0} → A → Option B → List A → List A
add_missing entry none cache = entry ∷ cache
add_missing entry (some _) cache = cache

abbrev pub negate_if : Bool → PartialValidity → PartialValidity
negate_if negation_used pv = if negation_used then negate_partial_validity pv else pv

-- The result of a call of the solver behind, with the validity to remember.
abbrev pub from_may_be_true : Bool → Validity × PartialValidity
from_may_be_true tmp = if tmp then (valid, must_be_true) else (unknown, true_or_false)

abbrev pub from_may_be_false : Bool → Validity × PartialValidity
from_may_be_false tmp = if tmp then (invalid, must_be_false) else (unknown, true_or_false)

abbrev pub from_validity : Validity → Validity × PartialValidity
from_validity valid = (valid, must_be_true)
from_validity invalid = (invalid, must_be_false)
from_validity unknown = (unknown, true_or_false)

abbrev pub from_truth : PartialValidity → Bool → Bool × PartialValidity
from_truth when_false is_valid = (is_valid, if is_valid then must_be_true else when_false)

module _ {C E Env : Type 0} (lang : Language C E Env) where
  open lang use {is_zero, precedes, same_expr, same_constraints}

  -- `canonicalizeQuery`: the canonical expression and `negationUsed`.
  pub canonicalize_query : E → E × Bool
  canonicalize_query original =
      if precedes original (is_zero original) then (original, false) else (is_zero original, true)

  -- `CacheEntry::operator==`.
  abbrev pub same_entry : Query C E → Query C E → Bool
  same_entry a b = same_constraints a.constraints b.constraints && same_expr a.expr b.expr

  -- `cache.find` and `cache.insert`, which leaves a key alone that is there.
  pub find : Query C E → CacheMap C E → Option PartialValidity
  find ce [] = none
  find ce ((entry, pv) ∷ cache) =
      let rest = find ce cache in if same_entry entry ce then some pv else rest

  pub insert : Query C E → PartialValidity → CacheMap C E → CacheMap C E
  insert ce pv cache = add_missing (ce, pv) (find ce cache) cache

  -- The key of a query.
  pub cache_entry : Query C E → Query C E
  unfolding canonicalize_query
  cache_entry q = record { constraints = q.constraints; expr = (canonicalize_query q.expr).0 }

  pub cache_lookup : Query C E → CacheMap C E → Option PartialValidity
  unfolding cache_entry find
  cache_lookup q cache =
      with_answer (negate_if (canonicalize_query q.expr).1) (find (cache_entry q) cache)

  pub cache_insert : Query C E → PartialValidity → CacheMap C E → CacheMap C E
  unfolding cache_entry insert
  cache_insert q result cache =
      insert (cache_entry q) (negate_if (canonicalize_query q.expr).1 result) cache

  -- A call of the solver behind, its answer and the validity to remember.
  abbrev pub remember :
      {A : Type 0}
      → Query C E
      → CacheMap C E
      → Option (A × PartialValidity)
      → Option A × CacheMap C E
  remember q cache none = (none, cache)
  remember q cache (some (result, pv)) = (some result, cache_insert q pv cache)

  module _ (solver_truth : Query C E → Option Bool)
      (solver_validity : Query C E → Option Validity) where
    -- `computeValidity` after the lookup; the assertion on a cached `None` is a failure.
    pub validity_from :
        Query C E → CacheMap C E → Option PartialValidity → Option Validity × CacheMap C E
    validity_from q cache none = remember q cache (with_answer from_validity (solver_validity q))
    validity_from q cache (some must_be_true) = (some valid, cache)
    validity_from q cache (some must_be_false) = (some invalid, cache)
    validity_from q cache (some true_or_false) = (some unknown, cache)
    validity_from q cache (some may_be_true) =
        remember q cache (with_answer from_may_be_true (solver_truth q))
    validity_from q cache (some may_be_false) =
        remember q cache (with_answer from_may_be_false (solver_truth (negate_expr lang q)))
    validity_from q cache (some no_answer) = (none, cache)

    pub compute_validity : Query C E → CacheMap C E → Option Validity × CacheMap C E
    unfolding validity_from cache_lookup
    compute_validity q cache = validity_from q cache (cache_lookup q cache)

    pub truth_from : Query C E → CacheMap C E → Option PartialValidity → Option Bool × CacheMap C E
    truth_from q cache none =
        remember q cache (with_answer (from_truth may_be_false) (solver_truth q))
    truth_from q cache (some cached) =
        if is_may_be_true cached
        then remember q cache (with_answer (from_truth true_or_false) (solver_truth q))
        else (some (is_must_be_true cached), cache)

    pub compute_truth : Query C E → CacheMap C E → Option Bool × CacheMap C E
    unfolding truth_from cache_lookup
    compute_truth q cache = truth_from q cache (cache_lookup q cache)

-- `computeValue` and `computeInitialValues`, which the cache has no part in.
abbrev pub compute_value : {Q A S : Type 0} → (Q → Option A) → Q → S → Option A × S
compute_value solver_value q cache = (solver_value q, cache)

abbrev pub compute_initial_values : {Q A S : Type 0} → (Q → Option A) → Q → S → Option A × S
compute_initial_values solver_values q cache = (solver_values q, cache)
