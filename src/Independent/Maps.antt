-- ===== src/Independent/Maps.antt =====
-- The `std::map` and `DenseSet` of klee/lib/Solver/IndependentSolver.cpp.
use xklee.Base.{
  ℕ, ◌≡◌, refl, ap, Bool, true, false, ◌||◌, none, some, List, [], ◌∷◌, ◌==◌, ==_iff, arith,
  if◌then◌else◌, contains, inl, inr, Bool-cases,
}
use xklee.Independent.{
  Elements, find_elements, erase_elements, set_elements, dense_add, dense_add_all, dense_intersects,
}

pub find_elements-erase_elements :
    (a b : ℕ) (es : Elements)
    → find_elements a (erase_elements b es) ≡ (if a == b then none else find_elements a es)
find_elements-erase_elements a b [] = ground arith
find_elements-erase_elements a b ((c, d) ∷ es) = ground (arith, find_elements-erase_elements a b es)

pub find_elements-set_elements :
    (a b : ℕ) (d : List ℕ) (es : Elements)
    → find_elements a (set_elements b d es) ≡ (if a == b then some d else find_elements a es)
find_elements-set_elements a b d [] = ground arith
find_elements-set_elements a b d ((c, d') ∷ es) =
    ground (arith, find_elements-set_elements a b d es)

pub set_elements_same :
    (a : ℕ) (d : List ℕ) (es : Elements) → find_elements a es ≡ some d → set_elements a d es ≡ es
set_elements_same a d [] e = cc
set_elements_same a d ((c, d') ∷ es) e = ground (arith, set_elements_same a d es)

pub contains-dense_add :
    (x y : ℕ) (s : List ℕ) → contains x (dense_add y s) ≡ ((x == y) || contains x s)
contains-dense_add x y s = elim (Bool-cases (contains y s)) [
  | inl f ↦ elim (Bool-cases (x == y)) [
    | inl e ↦
        let same : contains x s ≡ contains y s = ap (λ z. contains z s) ((==_iff x y).0 e) in
        rw f (ground arith)
    | inr e ↦ rw f (ground arith)
  ]
  | inr f ↦ rw f refl
]

-- The union; what is added only if something is missing.
pub contains-dense_add_all :
    (x : ℕ) (b : List ℕ) (modified : Bool) (s : List ℕ)
    → contains x (dense_add_all b (modified, s)).1 ≡ (contains x s || contains x b)
contains-dense_add_all x [] modified s = ground arith
contains-dense_add_all x (y ∷ b) true s =
    let rest = contains-dense_add_all x b true (dense_add y s) in
    let first = contains-dense_add x y s in ground arith
contains-dense_add_all x (y ∷ b) false s = elim (Bool-cases (contains y s)) [
  | inl f ↦
      let rest = contains-dense_add_all x b false s in
      elim (Bool-cases (x == y)) [
        | inl e ↦
            let same : contains x s ≡ contains y s = ap (λ z. contains z s) ((==_iff x y).0 e) in
            rw (f, dense_add_all) (ground arith)
        | inr e ↦ rw (f, dense_add_all) (ground arith)
      ]
  | inr f ↦
      let rest = contains-dense_add_all x b true (y ∷ s) in rw (f, dense_add_all) (ground arith)
]

pub dense_add_all_modified : (b : List ℕ) (s : List ℕ) → (dense_add_all b (true, s)).0 ≡ true
dense_add_all_modified [] s = refl
dense_add_all_modified (x ∷ b) s = dense_add_all_modified b (dense_add x s)

-- A set that is not modified stays.
pub dense_add_all_unmodified :
    (b : List ℕ) (modified : Bool) (s : List ℕ)
    → (dense_add_all b (modified, s)).0 ≡ false
    → (dense_add_all b (modified, s)).1 ≡ s
dense_add_all_unmodified [] modified s e = refl
dense_add_all_unmodified (x ∷ b) true s e = let m = dense_add_all_modified b (dense_add x s) in cc
dense_add_all_unmodified (x ∷ b) false s e = elim (Bool-cases (contains x s)) [
  | inl f ↦ rw (f, dense_add_all) (dense_add_all_unmodified b false s (rw (f, dense_add_all) at e))
  | inr f ↦ let m = dense_add_all_modified b (x ∷ s) in cc (rw (f, dense_add_all) at e)
]

pub dense_intersects-contains :
    (x : ℕ) (s b : List ℕ)
    → dense_intersects s b ≡ false
    → contains x s ≡ true
    → contains x b ≡ false
dense_intersects-contains x [] b n m = cc
dense_intersects-contains x (y ∷ s) b n m = elim (Bool-cases (x == y)) [
  | inl e ↦
      let same : contains x b ≡ contains y b = ap (λ z. contains z b) ((==_iff x y).0 e) in
      ground arith
  | inr e ↦ dense_intersects-contains x s b (ground arith) (ground arith)
]
