-- ===== src/Caching/Examples.antt =====
-- The laws of Caching at a cache that is filled by queries.
use xklee.Base.{ℕ, ◌≡◌, refl, false, inl, inr, some, [], ◌∷◌}
use xklee.Queries.{Query, may_be_true, may_be_false}
use xklee.Queries.Meaning.{IsVerdict}
use xklee.Queries.Sample.{
  Test, below, not_below, bytes, truth, validity, truth_right, validity_right,
}
use xklee.Caching.{
  CacheMap, cache_lookup, cache_insert, compute_truth, compute_validity, canonicalize_query, find,
  insert, cache_entry, truth_from,
}
use xklee.Caching.Right.{Outcome, compute_validity-Outcome}
use xklee.Caching.Refinement.{compute_truth-keeps_cache}

abbrev is_below_7 : Query ℕ Test
is_below_7 = record { constraints = 5; expr = below 7 }

abbrev is_not_below_7 : Query ℕ Test
is_not_below_7 = record { constraints = 5; expr = not_below 7 }

-- What the first query leaves.
abbrev filled : CacheMap ℕ Test
filled = (is_below_7, may_be_false) ∷ []

fills : compute_truth bytes truth validity is_below_7 [] ≡ (some false, filled)
unfolding compute_truth truth_from cache_lookup find cache_entry canonicalize_query cache_insert
    insert
fills = refl

finds : cache_lookup bytes is_not_below_7 filled ≡ some may_be_true
unfolding cache_lookup find cache_entry canonicalize_query
finds = refl

asks_again : compute_truth bytes truth validity is_not_below_7 filled ≡ (some false, filled)
unfolding compute_truth truth_from cache_lookup find cache_entry canonicalize_query cache_insert
    insert
asks_again = refl

compute_validity-Outcome_example :
    Outcome bytes ⊥ truth validity
      (IsVerdict bytes is_not_below_7)
      (compute_validity bytes truth validity is_not_below_7 filled)
compute_validity-Outcome_example =
    compute_validity-Outcome bytes ⊥ truth validity truth_right validity_right is_not_below_7 filled
      ((inr (inl refl), λ e. cc), tt)

compute_truth-keeps_cache_example :
    (compute_truth bytes truth validity is_not_below_7 filled).1 ≡ filled
compute_truth-keeps_cache_example =
    compute_truth-keeps_cache bytes truth validity is_not_below_7 filled finds
