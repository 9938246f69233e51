-- ===== src/MapOfSets/Lookup.antt =====
-- `insert` and `lookup` of klee/include/klee/Internal/ADT/MapOfSets.h as a finite map.
use mathlib.Core.Option.{get_or}
use xklee.Base.{
  ℕ, ◌≡◌, ◌≢◌, refl, ap₂, Option, none, some, List, [], ◌∷◌, arith, ltb, if◌then◌else◌, inl, inr,
  Bool-cases, ◌==◌, ==_iff, ◌∙◌,
}
use xklee.MapOfSets.{
  Node, node, Children, nil, child, empty, get_child, update_child, insert, lookup, at_child,
}

module _ {ℓ} {V : Type ℓ} where
  pub get_child-update_child :
      (i k : ℕ) (f : Node V → Node V) (cs : Children V)
      → get_child i (update_child k f cs) ≡ (
          if ltb i k
          then get_child i cs
          else (if ltb k i then get_child i cs else some (f (get_or (get_child k cs) empty))))
  unfolding update_child
  get_child-update_child i k f nil = ground arith
  get_child-update_child i k f (child j n cs) = ground (arith, get_child-update_child i k f cs)

  get_child-update_child_same :
      (k : ℕ) (f : Node V → Node V) (cs : Children V)
      → get_child k (update_child k f cs) ≡ some (f (get_or (get_child k cs) empty))
  get_child-update_child_same k f cs = ground (arith, get_child-update_child k k f cs)

  get_child-update_child_ne :
      (i k : ℕ) (f : Node V → Node V) (cs : Children V)
      → i ≢ k
      → get_child i (update_child k f cs) ≡ get_child i cs
  get_child-update_child_ne i k f cs ne = ground (arith, get_child-update_child i k f cs)

  lookup-empty : (set : List ℕ) → lookup {V = V} set empty ≡ none
  unfolding lookup
  lookup-empty [] = refl
  lookup-empty (k ∷ set) = refl

  lookup-get_or :
      (t : List ℕ) (o : Option (Node V)) → lookup t (get_or o empty) ≡ at_child none (lookup t) o
  lookup-get_or t none = lookup-empty t
  lookup-get_or t (some n) = refl

  -- `lookup` of a set after its insertion gives the inserted value.
  pub lookup-insert_self :
      (set : List ℕ) (v : V) (n : Node V) → lookup set (insert set v n) ≡ some v
  unfolding lookup insert
  lookup-insert_self [] v (node m cs) = refl
  lookup-insert_self (k ∷ set) v (node m cs) =
      rw (get_child-update_child_same k (insert set v) cs)
        (lookup-insert_self set v (get_or (get_child k cs) empty))

  -- `lookup` of a set after the insertion of another set gives what it gave before.
  pub lookup-insert_ne :
      (set t : List ℕ) (v : V) (n : Node V) → set ≢ t → lookup t (insert set v n) ≡ lookup t n
  unfolding lookup insert
  lookup-insert_ne [] [] v (node m cs) ne = absurd (ne refl)
  lookup-insert_ne [] (j ∷ t) v (node m cs) ne = refl
  lookup-insert_ne (k ∷ set) [] v (node m cs) ne = refl
  lookup-insert_ne (k ∷ set) (j ∷ t) v (node m cs) ne =
      let rest = λ (n : Node V) (q : set ≢ t). lookup-insert_ne set t v n q in
      elim (Bool-cases (k == j)) [
        | inl e ↦
            let same : k ≡ j = (==_iff k j).0 e in
            rw (← same, get_child-update_child_same k (insert set v) cs)
              (rest (get_or (get_child k cs) empty) (λ q. ne (ap₂ ◌∷◌ same q))
                ∙ lookup-get_or t (get_child k cs))
        | inr e ↦ rw (get_child-update_child_ne j k (insert set v) cs (λ q. ground arith))
      ]
