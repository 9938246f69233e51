-- ===== src/MapOfSets/Ordered.antt =====
-- The order of the children in the tries of klee/include/klee/Internal/ADT/MapOfSets.h, as a
-- `std::map` keeps it.
use xklee.Base.{ℕ, ◌≡◌, ◌<◌, some, List, [], ◌∷◌, arith, ltb, inl, inr, Bool-cases, ltb→lt, refl}
use xklee.MapOfSets.{Node, node, Children, nil, child, get_child, insert, update_child, empty}

module _ {ℓ} {V : Type ℓ} where
  abbrev pub KeysAbove : ℕ → Children V → Type 0
  KeysAbove k nil = Unit
  KeysAbove k (child j n cs) = (k < j) × KeysAbove k cs

unfoldable mutual
  pub IsOrdered {ℓ} : {V : Type ℓ} → Node V → Type 0
  IsOrdered (node m cs) = AreOrdered cs

  pub AreOrdered {ℓ} : {V : Type ℓ} → Children V → Type 0
  AreOrdered nil = Unit
  AreOrdered (child j n cs) = IsOrdered n × KeysAbove j cs × AreOrdered cs

module _ {ℓ} {V : Type ℓ} where
  pub get_child-above :
      (k j : ℕ) (cs : Children V) {n : Node V} → KeysAbove k cs → get_child j cs ≡ some n → k < j
  get_child-above k j nil a e = cc
  get_child-above k j (child i n cs) {n = n'} a e = elim (Bool-cases (ltb j i)) [
    | inl f ↦ ground arith
    | inr f ↦ elim (Bool-cases (ltb i j)) [
      | inl g ↦
          let later : get_child j cs ≡ some n' = ground arith in get_child-above k j cs a.1 later
      | inr g ↦ ground arith
    ]
  ]

  -- An entry passes the key of the first child to lookup in the rest.
  pub get_child-behind :
      (k j : ℕ) (n : Node V) (cs : Children V) {n' : Node V}
      → KeysAbove k cs
      → get_child j cs ≡ some n'
      → get_child j (child k n cs) ≡ some n'
  get_child-behind k j n cs a e = let above = get_child-above k j cs a e in ground arith

  update_child-KeysAbove :
      (i k : ℕ) (f : Node V → Node V) (cs : Children V)
      → i < k
      → KeysAbove i cs
      → KeysAbove i (update_child k f cs)
  unfolding update_child
  update_child-KeysAbove i k f nil h a = (h, a)
  update_child-KeysAbove i k f (child j n cs) h a = elim (Bool-cases (ltb k j)) [
    | inl e ↦ rw e (h, a)
    | inr e ↦ elim (Bool-cases (ltb j k)) [
      | inl g ↦ rw (e, g) (a.0, update_child-KeysAbove i k f cs h a.1)
      | inr g ↦ rw (e, g) a
    ]
  ]

  KeysAbove-trans : (i k : ℕ) (cs : Children V) → i < k → KeysAbove k cs → KeysAbove i cs
  KeysAbove-trans i k nil h a = a
  KeysAbove-trans i k (child j n cs) h a = (omega arith, KeysAbove-trans i k cs h a.1)

  pub empty-IsOrdered : (n : Node V) → n ≡ empty → IsOrdered n
  unfolding IsOrdered AreOrdered
  empty-IsOrdered n e = rw e tt

  update_child-AreOrdered :
      (k : ℕ) (f : Node V → Node V) (cs : Children V)
      → ((n : Node V) → IsOrdered n → IsOrdered (f n))
      → AreOrdered cs
      → AreOrdered (update_child k f cs)
  unfolding update_child IsOrdered AreOrdered
  update_child-AreOrdered k f nil h o = (h empty (empty-IsOrdered empty refl), tt, tt)
  update_child-AreOrdered k f (child j n cs) h o = elim (Bool-cases (ltb k j)) [
    | inl e ↦
        let before = ltb→lt k j e in
        rw e (h empty (empty-IsOrdered empty refl), (before, KeysAbove-trans k j cs before o.1), o)
    | inr e ↦ elim (Bool-cases (ltb j k)) [
      | inl g ↦
          rw (e, g)
            (
              o.0,
              update_child-KeysAbove j k f cs (ltb→lt j k g) o.1,
              update_child-AreOrdered k f cs h o.2,
            )
      | inr g ↦ rw (e, g) (h n o.0, o.1, o.2)
    ]
  ]

  -- An insertion keeps the children of every node in order.
  pub insert-IsOrdered :
      (set : List ℕ) (v : V) (n : Node V) → IsOrdered n → IsOrdered (insert set v n)
  unfolding insert IsOrdered AreOrdered
  insert-IsOrdered [] v (node m cs) o = o
  insert-IsOrdered (k ∷ set) v (node m cs) o =
      update_child-AreOrdered k (insert set v) cs (insert-IsOrdered set v) o
