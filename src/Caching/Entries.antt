-- ===== src/Caching/Entries.antt =====
-- The entries of the cache of klee/lib/Solver/CachingSolver.cpp, and what makes them right.
use xklee.Base.{
  ◌≡◌, ◌≢◌, refl, true, Option, none, some, [], ◌∷◌, arith, All, Bool-cases, Option-cases, inl, inr,
  subst,
}
use xklee.Queries.{
  Language, Query, PartialValidity, must_be_true, must_be_false, may_be_true, may_be_false,
  true_or_false, no_answer, negate_partial_validity, negate_expr,
}
use xklee.Queries.Meaning.{IsPartial, negated-IsPartial, negating-IsPartial}
use xklee.Caching.{
  CacheMap, canonicalize_query, same_entry, find, insert, cache_entry, negate_if, cache_lookup,
  cache_insert, with_answer,
}

module _ {C E Env : Type 0} (lang : Language C E Env) where
  open lang use {is_zero, precedes, same_expr, same_constraints, same_expr-eq, same_constraints-eq}

  -- A definite answer that is right.
  abbrev pub IsKnown : Query C E → PartialValidity → Type 0
  IsKnown q pv = IsPartial lang q pv × (pv ≢ no_answer)

  abbrev pub IsRight : CacheMap C E → Type 0
  IsRight cache = All (λ entry. IsKnown entry.0 entry.1) cache

  negate-known : (pv : PartialValidity) → pv ≢ no_answer → negate_partial_validity pv ≢ no_answer
  negate-known must_be_true ne e = cc
  negate-known must_be_false ne e = cc
  negate-known may_be_true ne e = cc
  negate-known may_be_false ne e = cc
  negate-known true_or_false ne e = cc
  negate-known no_answer ne e = cc

  same_entry-eq : (a b : Query C E) → same_entry lang a b ≡ true → a ≡ b
  same_entry-eq a b h = cc (
    same_constraints-eq a.constraints b.constraints (ground arith),
    same_expr-eq a.expr b.expr (ground arith),
  )

  find-IsKnown :
      (ce : Query C E) (cache : CacheMap C E) {pv : PartialValidity}
      → IsRight cache
      → find lang ce cache ≡ some pv
      → IsKnown ce pv
  unfolding find
  find-IsKnown ce [] r e = cc
  find-IsKnown ce ((entry, pv') ∷ cache) {pv} r e = elim (Bool-cases (same_entry lang entry ce)) [
    | inl h ↦
        let same : pv' ≡ pv = ground arith in
        subst (λ v. IsKnown ce v) same (subst (λ q. IsKnown q pv') (same_entry-eq entry ce h) r.0)
    | inr h ↦ find-IsKnown ce cache r.1 (ground arith)
  ]

  -- The validity kept under the key of the query is turned into that of the query.
  from_entry-IsKnown :
      (q : Query C E) (pv : PartialValidity)
      → IsKnown (cache_entry lang q) pv
      → IsKnown q (negate_if (canonicalize_query lang q.expr).1 pv)
  unfolding cache_entry canonicalize_query
  from_entry-IsKnown q pv k = elim (Bool-cases (precedes q.expr (is_zero q.expr))) [
    | inl e ↦ rw e (rw e at k)
    | inr e ↦
        let k' : IsKnown (negate_expr lang q) pv = rw e at k in
        rw e (negated-IsPartial lang q pv k'.1 k'.0, negate-known pv k'.1)
  ]

  to_entry-IsKnown :
      (q : Query C E) (pv : PartialValidity)
      → IsKnown q pv
      → IsKnown (cache_entry lang q) (negate_if (canonicalize_query lang q.expr).1 pv)
  unfolding cache_entry canonicalize_query
  to_entry-IsKnown q pv k = elim (Bool-cases (precedes q.expr (is_zero q.expr))) [
    | inl e ↦ rw e k
    | inr e ↦ rw e (negating-IsPartial lang q pv k.1 k.0, negate-known pv k.1)
  ]

  with_answer-inverse :
      (f : PartialValidity → PartialValidity) (o : Option PartialValidity) {b : PartialValidity}
      → with_answer f o ≡ some b
      → (a : PartialValidity) × (o ≡ some a) × (f a ≡ b)
  with_answer-inverse f none e = cc
  with_answer-inverse f (some a) e = (a, refl, cc)

  pub cache_lookup-IsKnown :
      (q : Query C E) (cache : CacheMap C E) {pv : PartialValidity}
      → IsRight cache
      → cache_lookup lang q cache ≡ some pv
      → IsKnown q pv
  unfolding cache_lookup
  cache_lookup-IsKnown q cache {pv} r e =
      let (kept, found, same) =
        with_answer-inverse (negate_if (canonicalize_query lang q.expr).1)
          (find lang (cache_entry lang q) cache) e in
      subst (λ v. IsKnown q v) same
        (from_entry-IsKnown q kept (find-IsKnown (cache_entry lang q) cache r found))

  pub cache_insert-IsRight :
      (q : Query C E) (pv : PartialValidity) (cache : CacheMap C E)
      → IsKnown q pv
      → IsRight cache
      → IsRight (cache_insert lang q pv cache)
  unfolding cache_insert insert
  cache_insert-IsRight q pv cache k r = elim (Option-cases (find lang (cache_entry lang q) cache)) [
    | inl f ↦ rw f (to_entry-IsKnown q pv k, r)
    | inr (kept, f) ↦ rw f r
  ]
