-- ===== src/MapOfSets/StoredSubset.antt =====
-- The stored set behind the result of `findSubset` of klee/include/klee/Internal/ADT/MapOfSets.h.
use xklee.Base.{
  ℕ, ◌≡◌, refl, ap, sym, ◌∙◌, Bool, true, Option, some, List, [], ◌∷◌, map, All, All-append,
  All-map, Bool-cases, Option-cases, inl, inr,
}
use xklee.MapOfSets.{Node, lookup, find_subset}
use xklee.MapOfSets.Subsets.{proper_sublists, stored, subsets-eq-stored}
use xklee.MapOfSets.FindSubset.{IsAscending, first_accepted, find_subset-eq-first}
use xklee.MapOfSets.Supersets.{IsWithin, none_left, taken, passed}

All-of-map :
    (P Q : List ℕ → Type 0) (f : List ℕ → List ℕ) (ts : List (List ℕ))
    → ((t : List ℕ) → P t → Q (f t))
    → All P ts
    → All Q (map f ts)
All-of-map P Q f [] h a = tt
All-of-map P Q f (t ∷ ts) h a = (h t a.0, All-of-map P Q f ts h a.1)

sublists-IsWithin : (set : List ℕ) → All (λ t. IsWithin t set) (proper_sublists set)
sublists-IsWithin [] = tt
sublists-IsWithin (k ∷ set) = (
  taken refl none_left,
  All-append (λ t. IsWithin t (k ∷ set)) (map (λ t. k ∷ t) (proper_sublists set))
      (proper_sublists set)
      (All-of-map (λ t. IsWithin t set) (λ t. IsWithin t (k ∷ set)) (λ t. k ∷ t)
        (proper_sublists set) (λ t w. taken refl w) (sublists-IsWithin set))
      (All-map (λ t w. passed w) (proper_sublists set) (sublists-IsWithin set)),
)

module _ {ℓ} {V : Type ℓ} where
  first_accepted-stored :
      (p : V → Bool) (find : List ℕ → Option V) (Q : List ℕ → Type 0) (ts : List (List ℕ)) {v : V}
      → All Q ts
      → first_accepted p (stored find [] ts) ≡ some v
      → (t : List ℕ) × Q t × (find t ≡ some v) × (p v ≡ true)
  unfolding first_accepted stored
  first_accepted-stored p find Q [] a e = cc
  first_accepted-stored p find Q (t ∷ ts) {v} a e = elim (Option-cases (find t)) [
    | inl f ↦ first_accepted-stored p find Q ts a.1 (rw f at e)
    | inr (w, f) ↦ elim (Bool-cases (p w)) [
      | inl h ↦
          let here : w ≡ v = cc (rw (f, h) at e) in (t, a.0, f ∙ ap some here, ap p (sym here) ∙ h)
      | inr h ↦ first_accepted-stored p find Q ts a.1 (rw (f, h) at e)
    ]
  ]

  -- The value found is accepted, and is that of a stored set within the given one.
  pub find_subset-IsStored :
      (p : V → Bool) (set : List ℕ) (n : Node V) {v : V}
      → IsAscending set
      → find_subset p set n ≡ some v
      → (t : List ℕ) × IsWithin t set × (lookup t n ≡ some v) × (p v ≡ true)
  find_subset-IsStored p set n a e =
      first_accepted-stored p (λ t. lookup t n) (λ t. IsWithin t set) ([] ∷ proper_sublists set)
        (none_left, sublists-IsWithin set)
        (sym (find_subset-eq-first p set n a ∙ ap (first_accepted p) (subsets-eq-stored set n)) ∙ e)
