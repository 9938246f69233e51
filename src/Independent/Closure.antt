-- ===== src/Independent/Closure.antt =====
-- The fixpoint of `getIndependentConstraints` (klee/lib/Solver/IndependentSolver.cpp).
use xklee.Base.{
  ℕ, suc, ◌≡◌, ◌≤◌, ◌<◌, refl, ◌∙◌, Bool, true, false, not, ◌&&◌, [], ◌∷◌, arith, inl, inr,
  Bool-cases, All, length, subst,
}
use xklee.Exprs.{Expr}
use xklee.Independent.{ElementSet, Worklist, Sweep, intersects, add, add_if, place, sweep}
use xklee.Independent.Covers.{covers}
use xklee.Independent.Add.{add-keeps, add_unmodified}

-- Every byte of the first set is one of the second.
abbrev pub Grows : ElementSet → ElementSet → Type 0
Grows s s' = (a n : ℕ) → covers s a n ≡ true → covers s' a n ≡ true

pub add_if-Grows : (hit : Bool) (es closure : ElementSet) → Grows closure (add_if hit es closure).1
add_if-Grows true es closure a n h = add-keeps es closure a n h
add_if-Grows false es closure a n h = h

pub place-closure :
    (hit : Bool) (c : Expr) (es : ElementSet) (rest : Sweep)
    → (place hit c es rest).closure ≡ rest.closure
place-closure true c es rest = refl
place-closure false c es rest = refl

place-done :
    (hit : Bool) (c : Expr) (es : ElementSet) (rest : Sweep)
    → (place hit c es rest).done ≡ rest.done
place-done true c es rest = refl
place-done false c es rest = refl

pub sweep-Grows :
    (worklist : Worklist) (done : Bool) (closure : ElementSet)
    → Grows closure (sweep worklist done closure).closure
unfolding sweep
sweep-Grows [] done closure a n h = h
sweep-Grows ((c, es) ∷ worklist) done closure a n h =
    let next = add_if (intersects es closure) es closure in
    let rest = sweep worklist (done && not next.0) next.1 in
    rw (place-closure (intersects es closure) c es rest) (
      sweep-Grows worklist (done && not next.0) next.1 a n
        (add_if-Grows (intersects es closure) es closure a n h))

place-left_le :
    (hit : Bool) (c : Expr) (es : ElementSet) (rest : Sweep)
    → length (place hit c es rest).left ≤ suc (length rest.left)
place-left_le true c es rest = omega arith
place-left_le false c es rest = omega arith

sweep-left_le :
    (worklist : Worklist) (done : Bool) (closure : ElementSet)
    → length (sweep worklist done closure).left ≤ length worklist
unfolding sweep
sweep-left_le [] done closure = omega arith
sweep-left_le ((c, es) ∷ worklist) done closure =
    let next = add_if (intersects es closure) es closure in
    let rest = sweep-left_le worklist (done && not next.0) next.1 in
    let first =
      place-left_le (intersects es closure) c es (sweep worklist (done && not next.0) next.1) in
    omega arith

-- A turn that changes the closure takes a constraint off the work list.
pub sweep-left_lt :
    (worklist : Worklist) (closure : ElementSet)
    → (sweep worklist true closure).done ≡ false
    → length (sweep worklist true closure).left < length worklist
unfolding sweep
sweep-left_lt [] closure h = cc
sweep-left_lt ((c, es) ∷ worklist) closure h = elim (Bool-cases (intersects es closure)) [
  | inl f ↦
      let next = add es closure in
      let rest = sweep-left_le worklist (not next.0) next.1 in rw f (omega arith)
  | inr f ↦
      let h' : (sweep worklist true closure).done ≡ false = rw f at h in
      let rest = sweep-left_lt worklist closure h' in rw f (omega arith)
]

-- A turn without a change: the closure and what is left do not meet.
pub sweep_done :
    (worklist : Worklist) (done : Bool) (closure : ElementSet)
    → (sweep worklist done closure).done ≡ true
    → ((sweep worklist done closure).closure ≡ closure)
      × (done ≡ true)
      × All (λ p. intersects p.1 closure ≡ false) (sweep worklist done closure).left
unfolding sweep
sweep_done [] done closure h = (refl, h, tt)
sweep_done ((c, es) ∷ worklist) done closure h = elim (Bool-cases (intersects es closure)) [
  | inl f ↦
      let next = add es closure in
      let h' : (sweep worklist (done && not next.0) next.1).done ≡ true = rw f at h in
      let (same, flag, apart) = sweep_done worklist (done && not next.0) next.1 h' in
      let unmodified : next.1 ≡ closure = add_unmodified es closure (ground arith) in
      rw f (
        same ∙ unmodified,
        ground arith,
        subst
            (λ s.
              All (λ p. intersects p.1 s ≡ false) (sweep worklist (done && not next.0) next.1).left)
            unmodified apart,
      )
  | inr f ↦
      let h' : (sweep worklist (done && true) closure).done ≡ true = rw f at h in
      let (same, flag, apart) = sweep_done worklist (done && true) closure h' in
      rw f (same, ground arith, (f, apart))
]
