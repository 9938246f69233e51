-- ===== src/Independent/Covers.antt =====
-- The bytes that an `IndependentElementSet` of klee/lib/Solver/IndependentSolver.cpp stands for.
use xklee.Base.{
  ℕ, ◌≡◌, refl, ap, Bool, true, false, ◌||◌, Option, none, some, List, [], ◌∷◌, ◌==◌, ==_iff, arith,
  contains, inl, inr, Bool-cases,
}
use xklee.Independent.{
  ElementSet, Elements, find_elements, whole_intersects, elements_intersect, intersects,
  dense_meets, is_some, add_whole, add_wholes,
}
use xklee.Independent.Maps.{find_elements-erase_elements, dense_intersects-contains}

abbrev pub in_dense : ℕ → Option (List ℕ) → Bool
in_dense n none = false
in_dense n (some d) = contains n d

-- Byte `n` of array `a`.
abbrev pub covers : ElementSet → ℕ → ℕ → Bool
covers s a n = contains a s.whole_objects || in_dense n (find_elements a s.elements)

pub contains_eq : (a b : ℕ) (xs : List ℕ) → (a == b) ≡ true → contains a xs ≡ contains b xs
contains_eq a b xs e = ap (λ z. contains z xs) ((==_iff a b).0 e)

pub find_elements_eq :
    (a b : ℕ) (es : Elements) → (a == b) ≡ true → find_elements a es ≡ find_elements b es
find_elements_eq a b es e = ap (λ z. find_elements z es) ((==_iff a b).0 e)

in_dense-is_some : (n : ℕ) (o : Option (List ℕ)) → is_some o ≡ false → in_dense n o ≡ false
in_dense-is_some n none h = refl
in_dense-is_some n (some d) h = cc

in_dense-dense_meets :
    (n : ℕ) (d : List ℕ) (o : Option (List ℕ))
    → dense_meets d o ≡ false
    → contains n d ≡ true
    → in_dense n o ≡ false
in_dense-dense_meets n d none h m = refl
in_dense-dense_meets n d (some d') h m = dense_intersects-contains n d d' h m

whole_intersects-covers :
    (a n : ℕ) (whole : List ℕ) (b : ElementSet)
    → whole_intersects whole b ≡ false
    → contains a whole ≡ true
    → covers b a n ≡ false
whole_intersects-covers a n [] b h m = cc
whole_intersects-covers a n (c ∷ whole) b h m = elim (Bool-cases (a == c)) [
  | inl e ↦
      let f = contains_eq a c b.whole_objects e in
      let g = ap is_some (find_elements_eq a c b.elements e) in
      let k = in_dense-is_some n (find_elements a b.elements) (ground arith) in ground arith
  | inr e ↦ whole_intersects-covers a n whole b (ground arith) (ground arith)
]

elements_intersect-covers :
    (a n : ℕ) (es : Elements) (b : ElementSet)
    → elements_intersect es b ≡ false
    → in_dense n (find_elements a es) ≡ true
    → covers b a n ≡ false
elements_intersect-covers a n [] b h m = cc
elements_intersect-covers a n ((c, d) ∷ es) b h m = elim (Bool-cases (a == c)) [
  | inl e ↦
      let f = contains_eq a c b.whole_objects e in
      let g = ap (in_dense n) (find_elements_eq a c b.elements e) in
      let inside : contains n d ≡ true = rw e at m in
      let k = in_dense-dense_meets n d (find_elements c b.elements) (ground arith) inside in
      ground arith
  | inr e ↦ elements_intersect-covers a n es b (ground arith) (rw e at m)
]

-- Sets that do not intersect have no byte in common.
pub intersects-covers :
    (s b : ElementSet) (a n : ℕ)
    → intersects s b ≡ false
    → covers s a n ≡ true
    → covers b a n ≡ false
intersects-covers s b a n h m = elim (Bool-cases (contains a s.whole_objects)) [
  | inl f ↦ whole_intersects-covers a n s.whole_objects b (ground arith) f
  | inr f ↦ elements_intersect-covers a n s.elements b (ground arith) (ground arith)
]

-- The first loop.
add_whole-covers :
    (a n c : ℕ) (modified : Bool) (s : ElementSet)
    → covers (add_whole c (modified, s)).1 a n ≡ ((a == c) || covers s a n)
add_whole-covers a n c modified s = elim (Bool-cases (is_some (find_elements c s.elements))) [
  | inl f ↦ let g = find_elements-erase_elements a c s.elements in rw (f, g) (ground arith)
  | inr f ↦ elim (Bool-cases (contains c s.whole_objects)) [
    | inl g ↦ elim (Bool-cases (a == c)) [
      | inl e ↦ let k = contains_eq a c s.whole_objects e in rw (f, g) (ground arith)
      | inr e ↦ rw (f, g) (ground arith)
    ]
    | inr g ↦ rw (f, g) (ground arith)
  ]
]

pub add_wholes-covers :
    (a n : ℕ) (whole : List ℕ) (modified : Bool) (s : ElementSet)
    → covers (add_wholes whole (modified, s)).1 a n ≡ (contains a whole || covers s a n)
add_wholes-covers a n [] modified s = refl
add_wholes-covers a n (c ∷ whole) modified s =
    let next = add_whole c (modified, s) in
    let first = add_whole-covers a n c modified s in
    let rest = add_wholes-covers a n whole next.0 next.1 in ground arith
