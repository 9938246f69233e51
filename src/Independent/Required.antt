-- ===== src/Independent/Required.antt =====
-- What `getIndependentConstraints` (klee/lib/Solver/IndependentSolver.cpp) returns and leaves out.
use xklee.Base.{
  ℕ, zero, suc, ◌≡◌, ◌<◌, refl, ap, sym, ◌∙◌, Bool, true, false, not, ◌&&◌, some, List, [], ◌∷◌,
  ◌++◌, ◌==◌, arith, inl, inr, Bool-cases, All, All-append, All-map, all, length, append_assoc,
  subst,
}
use xklee.Exprs.{Expr}
use xklee.Independent.{ElementSet, Worklist, Sweep, intersects, add, add_if, place, sweep, close}
use xklee.Independent.Add.{add-covers}
use xklee.Independent.Values.{value, IsBound}
use xklee.Independent.Closure.{Grows, sweep-Grows, sweep-left_lt, sweep_done}

module _ (is_constant_array : ℕ → Bool) (constant_value : ℕ → ℕ → ℕ)
    (apply : ℕ → List ℕ → List ℕ → ℕ) where
  -- An expression of width 1 is true.
  abbrev pub holds : (ℕ → ℕ → ℕ) → Expr → Bool
  holds bytes e = not (value is_constant_array constant_value apply bytes e == 0)

  abbrev pub all_hold : (ℕ → ℕ → ℕ) → List Expr → Bool
  all_hold bytes es = all (λ e. holds bytes e) es

  abbrev pub worklist_holds : (ℕ → ℕ → ℕ) → Worklist → Bool
  worklist_holds bytes worklist = all (λ p. holds bytes p.0) worklist

  abbrev pub Fits : ElementSet → Expr → Type 0
  Fits s e = IsBound is_constant_array constant_value apply s e

  pub Fits-Grows : (s s' : ElementSet) (e : Expr) → Grows s s' → Fits s e → Fits s' e
  Fits-Grows s s' e g b bytes bytes' agree = b bytes bytes' (λ a n h. agree a n (g a n h))

  all_hold-append :
      (bytes : ℕ → ℕ → ℕ) (xs ys : List Expr)
      → all_hold bytes (xs ++ ys) ≡ (all_hold bytes xs && all_hold bytes ys)
  all_hold-append bytes [] ys = refl
  all_hold-append bytes (x ∷ xs) ys = ground (arith, all_hold-append bytes xs ys)

  place-holds :
      (bytes : ℕ → ℕ → ℕ) (hit : Bool) (c : Expr) (es : ElementSet) (rest : Sweep)
      → (all_hold bytes (place hit c es rest).required
          && worklist_holds bytes (place hit c es rest).left)
        ≡ (holds bytes c && (all_hold bytes rest.required && worklist_holds bytes rest.left))
  place-holds bytes true c es rest = ground arith
  place-holds bytes false c es rest = ground arith

  -- A turn divides the work list.
  sweep-holds :
      (bytes : ℕ → ℕ → ℕ) (worklist : Worklist) (done : Bool) (closure : ElementSet)
      → worklist_holds bytes worklist ≡ (
          all_hold bytes (sweep worklist done closure).required
          && worklist_holds bytes (sweep worklist done closure).left)
  unfolding sweep
  sweep-holds bytes [] done closure = refl
  sweep-holds bytes ((c, es) ∷ worklist) done closure =
      let next = add_if (intersects es closure) es closure in
      let rest = sweep worklist (done && not next.0) next.1 in
      let later = sweep-holds bytes worklist (done && not next.0) next.1 in
      let first = place-holds bytes (intersects es closure) c es rest in
      ap (λ b. holds bytes c && b) later ∙ sym first

  abbrev pub AreFit : Worklist → Type 0
  AreFit worklist = All (λ p. Fits p.1 p.0) worklist

  sweep-left-AreFit :
      (worklist : Worklist) (done : Bool) (closure : ElementSet)
      → AreFit worklist
      → AreFit (sweep worklist done closure).left
  unfolding sweep
  sweep-left-AreFit [] done closure b = tt
  sweep-left-AreFit ((c, es) ∷ worklist) done closure b =
      let next = add_if (intersects es closure) es closure in
      let rest = sweep-left-AreFit worklist (done && not next.0) next.1 b.1 in
      elim (Bool-cases (intersects es closure)) [
        | inl f ↦
            rw f
              (sweep-left-AreFit worklist (done && not (add es closure).0) (add es closure).1 b.1)
        | inr f ↦ rw f (b.0, sweep-left-AreFit worklist (done && true) closure b.1)
      ]

  sweep-required-Fits :
      (worklist : Worklist) (done : Bool) (closure : ElementSet)
      → AreFit worklist
      → All
          (λ c. Fits (sweep worklist done closure).closure c)
          (sweep worklist done closure).required
  unfolding sweep
  sweep-required-Fits [] done closure b = tt
  sweep-required-Fits ((c, es) ∷ worklist) done closure b =
      elim (Bool-cases (intersects es closure)) [
        | inl f ↦
            let next = add es closure in
            let rest = sweep worklist (done && not next.0) next.1 in
            rw f (
              Fits-Grows es rest.closure c
                  (λ a n h.
                    sweep-Grows worklist (done && not next.0) next.1 a n
                      (add-covers es closure a n h))
                  b.0,
              sweep-required-Fits worklist (done && not next.0) next.1 b.1,
            )
        | inr f ↦ rw f (sweep-required-Fits worklist (done && true) closure b.1)
      ]

  -- The constraints are those required, which depend on bytes of the closure, and those left,
  -- which depend on other bytes.
  pub record IsSplit (whole : (ℕ → ℕ → ℕ) → Bool) (closure : ElementSet) (required : List Expr)
      : Type 0 where
    pub left : Worklist
    pub inside : All (λ c. Fits closure c) required
    pub bounds : All (λ p. Fits p.1 p.0) left
    pub apart : All (λ p. intersects p.1 closure ≡ false) left
    pub divided :
        (bytes : ℕ → ℕ → ℕ) → whole bytes ≡ (all_hold bytes required && worklist_holds bytes left)

  pub close-IsSplit :
      (fuel : ℕ) (worklist : Worklist) (closure : ElementSet) (result : List Expr)
      → AreFit worklist
      → length worklist < fuel
      → (end : ElementSet) × (required : List Expr) × (close fuel worklist closure result
          ≡ some (end, result ++ required))
        × Grows closure end
        × IsSplit (λ bytes. worklist_holds bytes worklist) end required
  unfolding close
  close-IsSplit zero worklist closure result b l = absurd (omega arith)
  close-IsSplit (suc fuel) worklist closure result b l =
      let turn = sweep worklist true closure in
      elim (Bool-cases turn.done) [
        | inl f ↦
            let (same, flag, apart) = sweep_done worklist true closure f in
            (
              turn.closure,
              turn.required,
              rw f refl,
              sweep-Grows worklist true closure,
              record {
                left = turn.left;
                inside = sweep-required-Fits worklist true closure b;
                bounds = sweep-left-AreFit worklist true closure b;
                apart = subst (λ s. All (λ p. intersects p.1 s ≡ false) turn.left) (sym same) apart;
                divided = λ bytes. sweep-holds bytes worklist true closure;
              },
            )
        | inr f ↦
            let shorter = sweep-left_lt worklist closure f in
            let (end, required, e, grows, split) =
              close-IsSplit fuel turn.left turn.closure (result ++ turn.required)
                (sweep-left-AreFit worklist true closure b) (omega arith) in
            (
              end,
              turn.required ++ required,
              rw f (e ∙ ap (λ r. some (end, r)) (append_assoc result turn.required required)),
              (λ a n h. grows a n (sweep-Grows worklist true closure a n h)),
              record {
                left = split.left;
                inside =
                    All-append (λ c. Fits end c) turn.required required
                      (All-map (λ c i. Fits-Grows turn.closure end c grows i) turn.required
                        (sweep-required-Fits worklist true closure b))
                      split.inside;
                bounds = split.bounds;
                apart = split.apart;
                divided = λ bytes.
                    let first = sweep-holds bytes worklist true closure in
                    let rest = split.divided bytes in
                    let joined = all_hold-append bytes turn.required required in ground arith;
              },
            )
      ]
