-- ===== src/Caching/Right.antt =====
-- The two computations of klee/lib/Solver/CachingSolver.cpp, after a miss and after a hit.
use xklee.Base.{refl, Bool, true, false, Option, none, some, Option-cases, inl, inr}
use xklee.Solver.{Validity, valid, invalid, unknown}
use xklee.Queries.{
  Language, Query, PartialValidity, must_be_true, must_be_false, may_be_true, may_be_false,
  true_or_false, no_answer, negate_expr,
}
use xklee.Queries.Meaning.{
  Returns, IsTruth, IsVerdict, Always-negated, Sometimes-negated, Always, Sometimes,
}
use xklee.Caching.{
  CacheMap, cache_lookup, remember, with_answer, from_validity, from_truth, from_may_be_true,
  from_may_be_false, validity_from, truth_from, compute_validity, compute_truth,
}
use xklee.Caching.Entries.{IsKnown, IsRight, cache_lookup-IsKnown, cache_insert-IsRight}

module _ {C E Env : Type 0} (lang : Language C E Env) (excuse : Type 0)
    (solver_truth : Query C E → Option Bool) (solver_validity : Query C E → Option Validity) where
  -- The answer is right, and so is the cache afterwards.
  abbrev pub Outcome : {A : Type 0} → (A → Type 0) → Option A × CacheMap C E → Type 0
  Outcome P result = Returns excuse P result.0 × IsRight lang result.1

  -- A result with a validity to remember, both right.
  abbrev pub IsPair : {A : Type 0} → (A → Type 0) → Query C E → A × PartialValidity → Type 0
  IsPair P q (result, pv) = P result × IsKnown lang q pv

  remember-Outcome :
      {A : Type 0} (P : A → Type 0) (q : Query C E) (cache : CacheMap C E)
      (o : Option (A × PartialValidity))
      → Returns excuse (IsPair P q) o
      → IsRight lang cache
      → Outcome P (remember lang q cache o)
  remember-Outcome P q cache none h r = (h, r)
  remember-Outcome P q cache (some (result, pv)) h r =
      (h.0, cache_insert-IsRight lang q pv cache h.1 r)

  with_answer-Returns :
      {A B : Type 0} (P : A → Type 0) (Q : B → Type 0) (f : A → B) (o : Option A)
      → ((a : A) → P a → Q (f a))
      → Returns excuse P o
      → Returns excuse Q (with_answer f o)
  with_answer-Returns P Q f none h r = r
  with_answer-Returns P Q f (some a) h r = h a r

  from_validity-IsPair :
      (q : Query C E) (v : Validity)
      → IsVerdict lang q v
      → IsPair (IsVerdict lang q) q (from_validity v)
  from_validity-IsPair q valid h = (h, (h, λ e. cc))
  from_validity-IsPair q invalid h = (h, (h, λ e. cc))
  from_validity-IsPair q unknown h = (h, (h, λ e. cc))

  from_may_be_true-IsPair :
      (q : Query C E) (tmp : Bool)
      → Sometimes lang q true
      → IsTruth lang q tmp
      → IsPair (IsVerdict lang q) q (from_may_be_true tmp)
  from_may_be_true-IsPair q true s h = (h, (h, λ e. cc))
  from_may_be_true-IsPair q false s h = ((s, h), ((s, h), λ e. cc))

  from_may_be_false-IsPair :
      (q : Query C E) (tmp : Bool)
      → Sometimes lang q false
      → IsTruth lang (negate_expr lang q) tmp
      → IsPair (IsVerdict lang q) q (from_may_be_false tmp)
  from_may_be_false-IsPair q true s h =
      let never = Always-negated lang q true false refl h in (never, (never, λ e. cc))
  from_may_be_false-IsPair q false s h =
      let both : Sometimes lang q true × Sometimes lang q false =
        (Sometimes-negated lang q false true refl h, s) in
      (both, (both, λ e. cc))

  from_truth_missed :
      (q : Query C E) (b : Bool)
      → IsTruth lang q b
      → IsPair (IsTruth lang q) q (from_truth may_be_false b)
  from_truth_missed q true h = (h, (h, λ e. cc))
  from_truth_missed q false h = (h, (h, λ e. cc))

  from_truth_known :
      (q : Query C E) (b : Bool)
      → Sometimes lang q true
      → IsTruth lang q b
      → IsPair (IsTruth lang q) q (from_truth true_or_false b)
  from_truth_known q true s h = (h, (h, λ e. cc))
  from_truth_known q false s h = (h, ((s, h), λ e. cc))

  module _ (truth_right : (q : Query C E) → Returns excuse (IsTruth lang q) (solver_truth q))
      (validity_right : (q : Query C E)
        → Returns excuse (IsVerdict lang q) (solver_validity q)) where
    -- After a miss.
    validity_missed :
        (q : Query C E) (cache : CacheMap C E)
        → IsRight lang cache
        → Outcome (IsVerdict lang q) (validity_from lang solver_truth solver_validity q cache none)
    unfolding validity_from
    validity_missed q cache r =
        remember-Outcome (IsVerdict lang q) q cache (with_answer from_validity (solver_validity q))
          (with_answer-Returns (IsVerdict lang q) (IsPair (IsVerdict lang q) q) from_validity
            (solver_validity q) (from_validity-IsPair q) (validity_right q))
          r

    -- After a hit.
    validity_hit :
        (q : Query C E) (cache : CacheMap C E) (pv : PartialValidity)
        → IsKnown lang q pv
        → IsRight lang cache
        → Outcome
            (IsVerdict lang q)
            (validity_from lang solver_truth solver_validity q cache (some pv))
    unfolding validity_from
    validity_hit q cache must_be_true k r = (k.0, r)
    validity_hit q cache must_be_false k r = (k.0, r)
    validity_hit q cache true_or_false k r = (k.0, r)
    validity_hit q cache may_be_true k r =
        remember-Outcome (IsVerdict lang q) q cache (with_answer from_may_be_true (solver_truth q))
          (with_answer-Returns (IsTruth lang q) (IsPair (IsVerdict lang q) q) from_may_be_true
            (solver_truth q) (λ tmp. from_may_be_true-IsPair q tmp k.0) (truth_right q))
          r
    validity_hit q cache may_be_false k r =
        remember-Outcome (IsVerdict lang q) q cache
          (with_answer from_may_be_false (solver_truth (negate_expr lang q)))
          (with_answer-Returns (IsTruth lang (negate_expr lang q)) (IsPair (IsVerdict lang q) q)
            from_may_be_false (solver_truth (negate_expr lang q))
            (λ tmp. from_may_be_false-IsPair q tmp k.0) (truth_right (negate_expr lang q)))
          r
    validity_hit q cache no_answer k r = absurd (k.1 refl)

    -- Over a solver whose answers are right, or whose failures have an excuse, and with a cache
    -- of right entries, the caching solver's `compute_validity` answers right, fails only with
    -- that excuse (never, where the excuse is the empty type), and leaves a cache of right
    -- entries.
    pub compute_validity-Outcome :
        (q : Query C E) (cache : CacheMap C E)
        → IsRight lang cache
        → Outcome (IsVerdict lang q) (compute_validity lang solver_truth solver_validity q cache)
    unfolding compute_validity
    compute_validity-Outcome q cache r = elim (Option-cases (cache_lookup lang q cache)) [
      | inl e ↦ rw e (validity_missed q cache r)
      | inr (pv, e) ↦ rw e (validity_hit q cache pv (cache_lookup-IsKnown lang q cache r e) r)
    ]

    IsTruth-missed :
        (q : Query C E) (cache : CacheMap C E)
        → IsRight lang cache
        → Outcome (IsTruth lang q) (truth_from lang solver_truth solver_validity q cache none)
    unfolding truth_from
    IsTruth-missed q cache r =
        remember-Outcome (IsTruth lang q) q cache
          (with_answer (from_truth may_be_false) (solver_truth q))
          (with_answer-Returns (IsTruth lang q) (IsPair (IsTruth lang q) q)
            (from_truth may_be_false) (solver_truth q) (from_truth_missed q) (truth_right q))
          r

    falsified : (q : Query C E) → Always lang q false → Sometimes lang q false
    falsified q a = inl a.0

    IsTruth-hit :
        (q : Query C E) (cache : CacheMap C E) (pv : PartialValidity)
        → IsKnown lang q pv
        → IsRight lang cache
        → Outcome (IsTruth lang q) (truth_from lang solver_truth solver_validity q cache (some pv))
    unfolding truth_from
    IsTruth-hit q cache must_be_true k r = (k.0, r)
    IsTruth-hit q cache must_be_false k r = (falsified q k.0, r)
    IsTruth-hit q cache true_or_false k r = (k.0.1, r)
    IsTruth-hit q cache may_be_true k r =
        remember-Outcome (IsTruth lang q) q cache
          (with_answer (from_truth true_or_false) (solver_truth q))
          (with_answer-Returns (IsTruth lang q) (IsPair (IsTruth lang q) q)
            (from_truth true_or_false) (solver_truth q) (λ b. from_truth_known q b k.0)
            (truth_right q))
          r
    IsTruth-hit q cache may_be_false k r = (k.0, r)
    IsTruth-hit q cache no_answer k r = absurd (k.1 refl)

    -- Over a solver whose answers are right, or whose failures have an excuse, and with a cache
    -- of right entries, the caching solver's `compute_truth` answers right, fails only with that
    -- excuse, and leaves a cache of right entries.
    pub compute_truth-Outcome :
        (q : Query C E) (cache : CacheMap C E)
        → IsRight lang cache
        → Outcome (IsTruth lang q) (compute_truth lang solver_truth solver_validity q cache)
    unfolding compute_truth
    compute_truth-Outcome q cache r = elim (Option-cases (cache_lookup lang q cache)) [
      | inl e ↦ rw e (IsTruth-missed q cache r)
      | inr (pv, e) ↦ rw e (IsTruth-hit q cache pv (cache_lookup-IsKnown lang q cache r e) r)
    ]
