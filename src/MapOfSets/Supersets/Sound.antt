-- ===== src/MapOfSets/Supersets/Sound.antt =====
-- What `findSuperset` of klee/include/klee/Internal/ADT/MapOfSets.h returns.
use xklee.Base.{
  ℕ, ◌≡◌, Bool, true, Option, none, some, List, [], ◌∷◌, arith, ltb, inl, inr, ◌⊎◌, Bool-cases,
  Option-cases, subst,
}
use xklee.MapOfSets.{
  Node, node, Children, nil, child, get_child, lookup, accepted, ◌orelse◌, at_child, find_superset,
  superset_in_any, superset_at,
}
use xklee.MapOfSets.Ordered.{KeysAbove, IsOrdered, AreOrdered, get_child-behind}
use xklee.MapOfSets.Supersets.{IsWithin, none_left, taken, passed}

module _ {ℓ} {V : Type ℓ} where
  -- A stored superset with an accepted value.
  abbrev pub IsStored : (V → Bool) → List ℕ → (List ℕ → Option V) → V → Type ℓ
  IsStored p set find v = (t : List ℕ) × IsWithin set t × (find t ≡ some v) × (p v ≡ true)

  abbrev find_under : Children V → List ℕ → Option V
  find_under cs [] = none
  find_under cs (j ∷ t) = at_child none (lookup t) (get_child j cs)

  lookup-find_under :
      (m : Option V) (cs : Children V) (t : List ℕ) {v : V}
      → find_under cs t ≡ some v
      → lookup t (node m cs) ≡ some v
  unfolding lookup
  lookup-find_under m cs [] e = cc
  lookup-find_under m cs (j ∷ t) e = e

  lookup-here :
      (m : Option V) (cs : Children V) {v : V} → m ≡ some v → lookup [] (node m cs) ≡ some v
  unfolding lookup
  lookup-here m cs e = e

  pub orelse-cases : (a b : Option V) {v : V} → (a orelse b) ≡ some v → (a ≡ some v) ⊎ (b ≡ some v)
  orelse-cases none b e = inr e
  orelse-cases (some w) b e = inl e

  accepted-inverse :
      (p : V → Bool) (m : Option V) {v : V} → accepted p m ≡ some v → (m ≡ some v) × (p v ≡ true)
  accepted-inverse p none e = cc
  accepted-inverse p (some w) e = ground arith

  get_child_first : (j : ℕ) (n : Node V) (cs : Children V) → get_child j (child j n cs) ≡ some n
  get_child_first j n cs = ground arith

  find_under-later :
      (j : ℕ) (n : Node V) (cs : Children V) (t : List ℕ) {v : V}
      → KeysAbove j cs
      → find_under cs t ≡ some v
      → find_under (child j n cs) t ≡ some v
  find_under-later j n cs [] a e = cc
  find_under-later j n cs (i ∷ t) {v} a e = elim (Option-cases (get_child i cs)) [
    | inl f ↦ cc
    | inr (n', f) ↦
        rw (get_child-behind j i n cs a f) (subst (λ o. at_child none (lookup t) o ≡ some v) f e)
  ]

  find_under_first :
      (j : ℕ) (n : Node V) (cs : Children V) (t : List ℕ) {v : V}
      → lookup t n ≡ some v
      → find_under (child j n cs) (j ∷ t) ≡ some v
  find_under_first j n cs t e = rw (get_child_first j n cs) e

mutual
  unfolding find_superset superset_in_any superset_at IsOrdered AreOrdered

  at_node {ℓ} :
      {V : Type ℓ} (p : V → Bool) (set : List ℕ) (n : Node V) {v : V}
      → IsOrdered n
      → find_superset p set n ≡ some v
      → IsStored p set (λ t. lookup t n) v
  at_node p [] (node m cs) {v} o e =
      elim (orelse-cases (accepted p m) (superset_in_any p [] cs) e) [
        | inl f ↦
            let (here, a) = accepted-inverse p m f in ([], none_left, lookup-here m cs here, a)
        | inr f ↦
            let (t, w, found, a) = in_any p [] cs o f in (t, w, lookup-find_under m cs t found, a)
      ]
  at_node p (k ∷ set) (node m cs) {v} o e =
      elim (orelse-cases (superset_in_any p (k ∷ set) cs) (superset_at p k set cs) e) [
        | inl f ↦
            let (t, w, found, a) = in_any p (k ∷ set) cs o f in
            (t, w, lookup-find_under m cs t found, a)
        | inr f ↦
            let (t, w, found, a) = at_mid p k set cs o f in
            (t, w, lookup-find_under m cs t found, a)
      ]

  in_any {ℓ} :
      {V : Type ℓ} (p : V → Bool) (set : List ℕ) (cs : Children V) {v : V}
      → AreOrdered cs
      → superset_in_any p set cs ≡ some v
      → IsStored p set (find_under cs) v
  in_any p set nil o e = cc
  in_any p set (child j n cs) o e =
      elim (orelse-cases (find_superset p set n) (superset_in_any p set cs) e) [
        | inl f ↦
            let (t, w, found, a) = at_node p set n o.0 f in
            (j ∷ t, passed w, find_under_first j n cs t found, a)
        | inr f ↦
            let (t, w, found, a) = in_any p set cs o.2 f in
            (t, w, find_under-later j n cs t o.1 found, a)
      ]

  at_mid {ℓ} :
      {V : Type ℓ} (p : V → Bool) (k : ℕ) (set : List ℕ) (cs : Children V) {v : V}
      → AreOrdered cs
      → superset_at p k set cs ≡ some v
      → IsStored p (k ∷ set) (find_under cs) v
  at_mid p k set nil o e = cc
  at_mid p k set (child j n cs) {v} o e = elim (Bool-cases (ltb k j)) [
    | inl f ↦ ground arith
    | inr f ↦ elim (Bool-cases (ltb j k)) [
      | inl g ↦
          let later : superset_at p k set cs ≡ some v = ground arith in
          let (t, w, found, a) = at_mid p k set cs o.2 later in
          (t, w, find_under-later j n cs t o.1 found, a)
      | inr g ↦
          let same : k ≡ j = ground arith in
          let hit : find_superset p set n ≡ some v = ground arith in
          let (t, w, found, a) = at_node p set n o.0 hit in
          (j ∷ t, taken same w, find_under_first j n cs t found, a)
    ]
  ]

-- On a trie whose children are in order, the value that `find_superset` finds is accepted
-- and is the value of a stored set that contains the elements of `set`.
pub find_superset-IsStored {ℓ} :
    {V : Type ℓ} (p : V → Bool) (set : List ℕ) (n : Node V) {v : V}
    → IsOrdered n
    → find_superset p set n ≡ some v
    → IsStored p set (λ t. lookup t n) v
find_superset-IsStored = at_node
