-- ===== src/Independent/Add.antt =====
-- `add` of klee/lib/Solver/IndependentSolver.cpp: the union of two sets, and whether it is larger.
use xklee.Base.{
  ℕ, ◌≡◌, refl, ap, ◌∙◌, Bool, true, false, ◌||◌, ◌&&◌, List, [], ◌∷◌, ◌==◌, arith, contains, inl,
  inr, Bool-cases, Option-cases,
}
use xklee.Independent.{
  ElementSet, Elements, find_elements, set_elements, dense_add_all, is_some, add_whole, add_wholes,
  add_element, add_elements, add,
}
use xklee.Independent.Maps.{
  find_elements-set_elements, set_elements_same, contains-dense_add_all, dense_add_all_unmodified,
}
use xklee.Independent.Covers.{covers, in_dense, add_wholes-covers, contains_eq, find_elements_eq}

-- The second loop.
add_element-covers :
    (a n c : ℕ) (d : List ℕ) (modified : Bool) (s : ElementSet)
    → covers (add_element c d (modified, s)).1 a n ≡ (((a == c) && contains n d) || covers s a n)
add_element-covers a n c d modified s = elim (Bool-cases (contains c s.whole_objects)) [
  | inl f ↦ elim (Bool-cases (a == c)) [
    | inl e ↦ let k = contains_eq a c s.whole_objects e in rw f (ground arith)
    | inr e ↦ rw f (ground arith)
  ]
  | inr f ↦ elim (Option-cases (find_elements c s.elements)) [
    | inl g ↦ elim (Bool-cases (a == c)) [
      | inl e ↦
          let k = ap (in_dense n) (find_elements_eq a c s.elements e ∙ g) in
          let l = ap (in_dense n) (find_elements-set_elements a c d s.elements) in
          rw (f, g) (ground arith)
      | inr e ↦
          let l = ap (in_dense n) (find_elements-set_elements a c d s.elements) in
          rw (f, g) (ground arith)
    ]
    | inr (d', g) ↦
        let united = (dense_add_all d (false, d')).1 in
        let l = ap (in_dense n) (find_elements-set_elements a c united s.elements) in
        let u = contains-dense_add_all n d false d' in
        elim (Bool-cases (a == c)) [
          | inl e ↦
              let k = ap (in_dense n) (find_elements_eq a c s.elements e ∙ g) in
              rw (f, g) (ground arith)
          | inr e ↦ rw (f, g) (ground arith)
        ]
  ]
]

add_elements-keeps :
    (a n : ℕ) (es : Elements) (modified : Bool) (s : ElementSet)
    → covers s a n ≡ true
    → covers (add_elements es (modified, s)).1 a n ≡ true
add_elements-keeps a n [] modified s h = h
add_elements-keeps a n ((c, d) ∷ es) modified s h =
    let next = add_element c d (modified, s) in
    let first = add_element-covers a n c d modified s in
    add_elements-keeps a n es next.0 next.1 (ground arith)

add_elements-covers :
    (a n : ℕ) (es : Elements) (modified : Bool) (s : ElementSet)
    → in_dense n (find_elements a es) ≡ true
    → covers (add_elements es (modified, s)).1 a n ≡ true
add_elements-covers a n [] modified s h = cc
add_elements-covers a n ((c, d) ∷ es) modified s h =
    let next = add_element c d (modified, s) in
    let first = add_element-covers a n c d modified s in
    elim (Bool-cases (a == c)) [
      | inl e ↦
          let inside : contains n d ≡ true = rw e at h in
          add_elements-keeps a n es next.0 next.1 (ground arith)
      | inr e ↦ add_elements-covers a n es next.0 next.1 (rw e at h)
    ]

-- The union has the bytes of both sets.
pub add-keeps : (b s : ElementSet) (a n : ℕ) → covers s a n ≡ true → covers (add b s).1 a n ≡ true
add-keeps b s a n h =
    let wholes = add_wholes b.whole_objects (false, s) in
    let first = add_wholes-covers a n b.whole_objects false s in
    add_elements-keeps a n b.elements wholes.0 wholes.1 (ground arith)

pub add-covers : (b s : ElementSet) (a n : ℕ) → covers b a n ≡ true → covers (add b s).1 a n ≡ true
add-covers b s a n h =
    let wholes = add_wholes b.whole_objects (false, s) in
    let first = add_wholes-covers a n b.whole_objects false s in
    elim (Bool-cases (contains a b.whole_objects)) [
      | inl f ↦ add_elements-keeps a n b.elements wholes.0 wholes.1 (ground arith)
      | inr f ↦ add_elements-covers a n b.elements wholes.0 wholes.1 (ground arith)
    ]

-- Without a change, the set is the one before and no flag was up.
abbrev Stays : Bool → ElementSet → Bool × ElementSet → Type 0
Stays modified s after = (after.0 ≡ false) → (after.1 ≡ s) × (modified ≡ false)

add_whole-Stays :
    (c : ℕ) (modified : Bool) (s : ElementSet) → Stays modified s (add_whole c (modified, s))
add_whole-Stays c modified s h = elim (Bool-cases (is_some (find_elements c s.elements))) [
  | inl f ↦ cc (rw f at h)
  | inr f ↦ elim (Bool-cases (contains c s.whole_objects)) [
    | inl g ↦ rw (f, g) (refl, rw (f, g) at h)
    | inr g ↦ cc (rw (f, g) at h)
  ]
]

add_wholes-Stays :
    (whole : List ℕ) (modified : Bool) (s : ElementSet)
    → Stays modified s (add_wholes whole (modified, s))
add_wholes-Stays [] modified s h = (refl, h)
add_wholes-Stays (c ∷ whole) modified s h =
    let next = add_whole c (modified, s) in
    let (rest, flag) = add_wholes-Stays whole next.0 next.1 h in
    let (first, flag') = add_whole-Stays c modified s flag in (rest ∙ first, flag')

add_element-Stays :
    (c : ℕ) (d : List ℕ) (modified : Bool) (s : ElementSet)
    → Stays modified s (add_element c d (modified, s))
add_element-Stays c d modified s h = elim (Bool-cases (contains c s.whole_objects)) [
  | inl f ↦ rw f (refl, rw f at h)
  | inr f ↦ elim (Option-cases (find_elements c s.elements)) [
    | inl g ↦ cc (rw (f, g) at h)
    | inr (d', g) ↦
        let h' : (modified || (dense_add_all d (false, d')).0) ≡ false = rw (f, g) at h in
        let same = dense_add_all_unmodified d false d' (ground arith) in
        let kept = set_elements_same c d' s.elements g in
        let united : set_elements c (dense_add_all d (false, d')).1 s.elements ≡ s.elements =
          ap (λ x. set_elements c x s.elements) same ∙ kept in
        rw (f, g) (ap (λ x. record s { elements = x }) united, ground arith)
  ]
]

add_elements-Stays :
    (es : Elements) (modified : Bool) (s : ElementSet)
    → Stays modified s (add_elements es (modified, s))
add_elements-Stays [] modified s h = (refl, h)
add_elements-Stays ((c, d) ∷ es) modified s h =
    let next = add_element c d (modified, s) in
    let (rest, flag) = add_elements-Stays es next.0 next.1 h in
    let (first, flag') = add_element-Stays c d modified s flag in (rest ∙ first, flag')

pub add_unmodified : (b s : ElementSet) → (add b s).0 ≡ false → (add b s).1 ≡ s
add_unmodified b s h =
    let wholes = add_wholes b.whole_objects (false, s) in
    let (rest, flag) = add_elements-Stays b.elements wholes.0 wholes.1 h in
    let (first, _) = add_wholes-Stays b.whole_objects false s flag in rest ∙ first
