-- ===== src/MapOfSets/Supersets.antt =====
-- `findSuperset` of klee/include/klee/Internal/ADT/MapOfSets.h on the stored supersets of a set.
pub mod Sound
use xklee.Base.{
  ℕ, ◌≡◌, ◌<◌, ◌+◌, refl, ap, sym, ◌∙◌, Bool, true, false, Option, none, some, List, [], ◌∷◌, arith,
  ltb, if◌then◌else◌, inl, inr, Bool-cases, Option-cases, subst,
}
use xklee.MapOfSets.{
  Node, node, Children, nil, child, get_child, lookup, accepted, ◌orelse◌, at_child, find_superset,
  superset_in_any, superset_at,
}

-- Each element of the first list stands in the second, in the same order.
pub data IsWithin : List ℕ → List ℕ → Type 0 where
  none_left : {t : List ℕ} → IsWithin [] t
  taken : {k j : ℕ} {set t : List ℕ} → k ≡ j → IsWithin set t → IsWithin (k ∷ set) (j ∷ t)
  passed : {j : ℕ} {set t : List ℕ} → IsWithin set t → IsWithin set (j ∷ t)

module _ {ℓ} {V : Type ℓ} where
  abbrev pub Succeeds : Option V → Type ℓ
  Succeeds o = (v : V) × (o ≡ some v)

  orelse-Succeeds_left : (a b : Option V) → Succeeds a → Succeeds (a orelse b)
  orelse-Succeeds_left none b (v, e) = cc
  orelse-Succeeds_left (some w) b (v, e) = (w, refl)

  orelse-Succeeds_right : (a b : Option V) → Succeeds b → Succeeds (a orelse b)
  orelse-Succeeds_right none b s = s
  orelse-Succeeds_right (some w) b s = (w, refl)

  superset_in_any-Succeeds :
      (p : V → Bool) (set : List ℕ) (j : ℕ) (n : Node V) (cs : Children V)
      → get_child j cs ≡ some n
      → Succeeds (find_superset p set n)
      → Succeeds (superset_in_any p set cs)
  unfolding find_superset superset_in_any superset_at
  superset_in_any-Succeeds p set j n nil e s = cc
  superset_in_any-Succeeds p set j n (child i n' cs) e s = elim (Bool-cases (ltb j i)) [
    | inl f ↦ ground arith
    | inr f ↦ elim (Bool-cases (ltb i j)) [
      | inl g ↦
          orelse-Succeeds_right (find_superset p set n') (superset_in_any p set cs)
            (superset_in_any-Succeeds p set j n cs (ground arith) s)
      | inr g ↦
          let same : n ≡ n' = ground arith in
          orelse-Succeeds_left (find_superset p set n') (superset_in_any p set cs)
            (subst (λ x. Succeeds (find_superset p set x)) same s)
    ]
  ]

  superset_at-eq :
      (p : V → Bool) (k : ℕ) (set : List ℕ) (n : Node V) (cs : Children V)
      → get_child k cs ≡ some n
      → superset_at p k set cs ≡ find_superset p set n
  unfolding find_superset superset_in_any superset_at
  superset_at-eq p k set n nil e = cc
  superset_at-eq p k set n (child i n' cs) e = ground (arith, superset_at-eq p k set n cs)

  at_child-inverse :
      (f : Node V → Option V) (o : Option (Node V)) {v : V}
      → at_child none f o ≡ some v
      → (n : Node V) × (o ≡ some n) × (f n ≡ some v)
  at_child-inverse f none e = cc
  at_child-inverse f (some n) e = (n, refl, e)

  -- If a stored set that contains the elements of `set` has a value that the predicate
  -- accepts, `find_superset` finds a value.
  pub find_superset-Succeeds :
      (p : V → Bool) (set t : List ℕ) (n : Node V) {v : V}
      → lookup t n ≡ some v
      → IsWithin set t
      → p v ≡ true
      → Succeeds (find_superset p set n)
  unfolding find_superset superset_in_any superset_at lookup
  find_superset-Succeeds p [] [] (node m cs) {v} e w a =
      orelse-Succeeds_left (accepted p m) (superset_in_any p [] cs) (v, ground arith)
  find_superset-Succeeds p (k ∷ set) [] n e w a = elim w [ ]
  find_superset-Succeeds p [] (j ∷ t) (node m cs) e w a =
      let (n', found, rest) = at_child-inverse (lookup t) (get_child j cs) e in
      orelse-Succeeds_right (accepted p m) (superset_in_any p [] cs) (
        superset_in_any-Succeeds p [] j n' cs found
          (find_superset-Succeeds p [] t n' rest none_left a))
  find_superset-Succeeds p (k ∷ set) (j ∷ t) (node m cs) e (taken same w) a =
      let (n', found, rest) = at_child-inverse (lookup t) (get_child j cs) e in
      let (v', hit) = find_superset-Succeeds p set t n' rest w a in
      orelse-Succeeds_right (superset_in_any p (k ∷ set) cs) (superset_at p k set cs)
        (v', superset_at-eq p k set n' cs (rw same found) ∙ hit)
  find_superset-Succeeds p (k ∷ set) (j ∷ t) (node m cs) e (passed w) a =
      let (n', found, rest) = at_child-inverse (lookup t) (get_child j cs) e in
      orelse-Succeeds_left (superset_in_any p (k ∷ set) cs) (superset_at p k set cs) (
        superset_in_any-Succeeds p (k ∷ set) j n' cs found
          (find_superset-Succeeds p (k ∷ set) t n' rest w a))
