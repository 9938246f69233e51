-- ===== src/Independent/Values.antt =====
-- What the value of an expression depends on, for klee/lib/Solver/IndependentSolver.cpp.
use xklee.Base.{
  ℕ, ◌≡◌, refl, ap, ap₂, ◌∙◌, Bool, true, List, ◌∷◌, ◌++◌, arith, if◌then◌else◌, inl, inr, ◌%◌, ◌^◌,
}
use xklee.Exprs.{
  Expr, constant, read, operation, Updates, no_updates, update, Kids, no_kids, kid, is_read, member,
  eval, eval_updates, eval_kids,
}
use xklee.Exprs.Same.{same_expr_refl, member-append}
use xklee.FindReads.{subterms, subterms_of_updates, subterms_of_kids}
use xklee.Independent.{ElementSet, element_set}
use xklee.Independent.Covers.{covers}
use xklee.Independent.Reads.{IsCovered, index_may, element_set-IsCovered}

module _ (is_constant_array : ℕ → Bool) (constant_value : ℕ → ℕ → ℕ)
    (apply : ℕ → List ℕ → List ℕ → ℕ) where
  -- The initial contents of the arrays where `bytes` are those of the symbolic ones.
  abbrev pub contents : (ℕ → ℕ → ℕ) → ℕ → ℕ → ℕ
  contents bytes a n = if is_constant_array a then constant_value a n else bytes a n

  abbrev pub value : (ℕ → ℕ → ℕ) → Expr → ℕ
  value bytes e = eval apply (contents bytes) e

  -- The same bytes in all places of the set.
  abbrev pub Agree : ElementSet → (ℕ → ℕ → ℕ) → (ℕ → ℕ → ℕ) → Type 0
  Agree s bytes bytes' = (a n : ℕ) → covers s a n ≡ true → bytes a n ≡ bytes' a n

  -- The value depends on the bytes of the set only.
  abbrev pub IsBound : ElementSet → Expr → Type 0
  IsBound s e = (bytes bytes' : ℕ → ℕ → ℕ) → Agree s bytes bytes' → value bytes e ≡ value bytes' e

  abbrev AreCovered : ElementSet → List Expr → Type 0
  AreCovered s es =
      (r : Expr) → is_read r ≡ true → member r es ≡ true → IsCovered is_constant_array s r

  index_may-eval : (i : Expr) (bytes : ℕ → ℕ → ℕ) → index_may i (value bytes i % 2 ^ 32) ≡ true
  unfolding eval
  index_may-eval (constant w v) bytes = ground arith
  index_may-eval (read a us i) bytes = refl
  index_may-eval (operation k c es) bytes = refl

  module _ (s : ElementSet) (bytes bytes' : ℕ → ℕ → ℕ) (agree : Agree s bytes bytes') where
    contents_same :
        (a : ℕ) (us : Updates) (i : Expr) (n : ℕ)
        → index_may i n ≡ true
        → IsCovered is_constant_array s (read a us i)
        → contents bytes a n ≡ contents bytes' a n
    contents_same a us i n h (inl c) = ground arith
    contents_same a us i n h (inr c) = let g = agree a n (c n h) in ground arith

    mutual
      unfolding eval eval_updates eval_kids subterms subterms_of_updates subterms_of_kids

      eval_same : (e : Expr) → AreCovered s (subterms e) → value bytes e ≡ value bytes' e
      eval_same (constant w v) c = refl
      eval_same (read a us i) c =
          let index = eval_same i (λ r h m.
            c r h
              (let l = member-append r (subterms i) (subterms_of_updates us) in ground arith)) in
          let self = same_expr_refl (read a us i) in
          let base =
            contents_same a us i (value bytes i % 2 ^ 32) (index_may-eval i bytes)
              (c (read a us i) refl (ground arith)) in
          let at = updates_same us a (value bytes i % 2 ^ 32) base (λ r h m.
            c r h
              (let l = member-append r (subterms i) (subterms_of_updates us) in ground arith)) in
          at ∙ ap (λ x. eval_updates apply (contents bytes') us a (x % 2 ^ 32)) index
      eval_same (operation k o es) c = ap (apply k o) (kids_same es (λ r h m. c r h (ground arith)))

      updates_same :
          (us : Updates) (a n : ℕ)
          → contents bytes a n ≡ contents bytes' a n
          → AreCovered s (subterms_of_updates us)
          → eval_updates apply (contents bytes) us a n ≡ eval_updates apply (contents bytes') us a n
      updates_same no_updates a n base c = base
      updates_same (update i v us) a n base c =
          let rest = subterms v ++ subterms_of_updates us in
          let index =
            eval_same i
              (λ r h m. c r h (let l = member-append r (subterms i) rest in ground arith)) in
          let written = eval_same v (λ r h m. c r h (
            let l = member-append r (subterms i) rest in
            let l' = member-append r (subterms v) (subterms_of_updates us) in ground arith)) in
          let older = updates_same us a n base (λ r h m. c r h (
            let l = member-append r (subterms i) rest in
            let l' = member-append r (subterms v) (subterms_of_updates us) in ground arith)) in
          rw (index, written, older) refl

      kids_same :
          (es : Kids)
          → AreCovered s (subterms_of_kids es)
          → eval_kids apply (contents bytes) es ≡ eval_kids apply (contents bytes') es
      kids_same no_kids c = refl
      kids_same (kid e es) c =
          ap₂ ◌∷◌
            (eval_same e (λ r h m.
              c r h (let l = member-append r (subterms e) (subterms_of_kids es) in ground arith)))
            (kids_same es (λ r h m.
              c r h (let l = member-append r (subterms e) (subterms_of_kids es) in ground arith)))

  pub element_set-IsBound : (e : Expr) → IsBound (element_set is_constant_array e) e
  element_set-IsBound e bytes bytes' agree =
      eval_same (element_set is_constant_array e) bytes bytes' agree e
        (element_set-IsCovered is_constant_array e)
