-- ===== src/MapOfSets/FindSubset.antt =====
-- `findSubset` of klee/include/klee/Internal/ADT/MapOfSets.h beside the listing by `subsets`.
use xklee.Base.{
  ℕ, ◌≡◌, ◌<◌, refl, sym, Bool, Option, none, some, List, [], ◌∷◌, ◌++◌, arith, ltb, if◌then◌else◌,
  inl, inr, All, All-map, Bool-cases, ltb→lt,
}
use xklee.MapOfSets.{
  Node, node, Children, nil, child, get_child, ended, subsets_below, subsets, accepted, ◌orelse◌,
  find_below, find_subset,
}

-- The elements of a set in order.
abbrev pub IsAscending : List ℕ → Type 0
IsAscending [] = Unit
IsAscending (x ∷ set) = All (λ y. x < y) set × IsAscending set

All-lt_trans : (k x : ℕ) (set : List ℕ) → k < x → All (λ y. x < y) set → All (λ y. k < y) set
All-lt_trans k x set h a = All-map (λ y p. omega arith) set a

module _ {ℓ} {V : Type ℓ} where
  -- The value of the first result that is accepted.
  unfoldable pub first_accepted : (V → Bool) → List (List ℕ × V) → Option V
  first_accepted p [] = none
  first_accepted p ((t, v) ∷ results) =
      let rest = first_accepted p results in if p v then some v else rest

  orelse_assoc : (a b c : Option V) → ((a orelse b) orelse c) ≡ (a orelse (b orelse c))
  orelse_assoc none b c = refl
  orelse_assoc (some v) b c = refl

  first_accepted-append :
      (p : V → Bool) (xs ys : List (List ℕ × V))
      → first_accepted p (xs ++ ys) ≡ (first_accepted p xs orelse first_accepted p ys)
  unfolding first_accepted
  first_accepted-append p [] ys = refl
  first_accepted-append p ((t, v) ∷ xs) ys = ground (arith, first_accepted-append p xs ys)

  first_accepted-ended :
      (p : V → Bool) (m : Option V) (t : List ℕ) (ys : List (List ℕ × V))
      → first_accepted p (ended m t ++ ys) ≡ (accepted p m orelse first_accepted p ys)
  unfolding first_accepted
  first_accepted-ended p none t ys = refl
  first_accepted-ended p (some v) t ys = ground arith

  -- A child before all elements of the set adds nothing.
  subsets_below-skip :
      (set : List ℕ) (k : ℕ) (n : Node V) (cs : Children V) (accum : List ℕ)
      → All (λ y. k < y) set
      → subsets_below set (child k n cs) accum ≡ subsets_below set cs accum
  unfolding subsets_below
  subsets_below-skip [] k n cs accum h = refl
  subsets_below-skip (x ∷ set) k n cs accum h =
      let above : get_child x (child k n cs) ≡ get_child x cs = ground arith in
      rw (above, subsets_below-skip set k n cs accum h.1)

  subsets_below_missed :
      (x : ℕ) (set : List ℕ) (cs : Children V) (accum : List ℕ)
      → get_child x cs ≡ none
      → subsets_below (x ∷ set) cs accum ≡ subsets_below set cs accum
  unfolding subsets_below
  subsets_below_missed x set cs accum e = rw e

  subsets_below_found :
      (x : ℕ) (set : List ℕ) (cs cs' : Children V) (m : Option V) (accum : List ℕ)
      → get_child x cs ≡ some (node m cs')
      → subsets_below (x ∷ set) cs accum
        ≡ (ended m (accum ++ (x ∷ [])) ++ subsets_below set cs' (accum ++ (x ∷ [])))
          ++ subsets_below set cs accum
  unfolding subsets_below
  subsets_below_found x set cs cs' m accum e = rw e

  subsets_below-nil : (set : List ℕ) (accum : List ℕ) → subsets_below {V = V} set nil accum ≡ []
  unfolding subsets_below
  subsets_below-nil [] accum = refl
  subsets_below-nil (x ∷ set) accum = subsets_below-nil set accum

  find_below-eq-first :
      (p : V → Bool) (set : List ℕ) (cs : Children V) (accum : List ℕ)
      → IsAscending set
      → find_below p set cs ≡ first_accepted p (subsets_below set cs accum)
  unfolding find_below
  find_below-eq-first p [] cs accum a = unfold subsets_below first_accepted in refl
  find_below-eq-first p (x ∷ set) nil accum a =
      rw (subsets_below-nil (x ∷ set) accum) (unfold first_accepted in refl)
  find_below-eq-first p (x ∷ set) (child k (node m cs') cs) accum a =
      let skip_element = find_below-eq-first p set (child k (node m cs') cs) accum a.1 in
      let skip_child = find_below-eq-first p (x ∷ set) cs accum a in
      let inside = find_below-eq-first p set cs' (accum ++ (x ∷ [])) a.1 in
      let behind = find_below-eq-first p set cs accum a.1 in
      elim (Bool-cases (ltb x k)) [
        | inl e ↦
            rw (e, subsets_below_missed x set (child k (node m cs') cs) accum (rw e)) skip_element
        | inr e ↦ elim (Bool-cases (ltb k x)) [
          | inl f ↦
              let above = ltb→lt k x f in
              rw
                (
                  e,
                  f,
                  subsets_below-skip (x ∷ set) k (node m cs') cs accum
                      (above, All-lt_trans k x set above a.0),
                )
                skip_child
          | inr f ↦
              let same : k ≡ x = ground arith in
              rw
                (
                  e,
                  f,
                  subsets_below_found x set (child k (node m cs') cs) cs' m accum (rw (e, f)),
                  subsets_below-skip set k (node m cs') cs accum (rw same a.0),
                  first_accepted-append p
                      (ended m (accum ++ (x ∷ [])) ++ subsets_below set cs' (accum ++ (x ∷ [])))
                      (subsets_below set cs accum),
                  first_accepted-ended p m (accum ++ (x ∷ []))
                      (subsets_below set cs' (accum ++ (x ∷ []))),
                  inside,
                  behind,
                )
                (sym (
                  orelse_assoc (accepted p m)
                    (first_accepted p (subsets_below set cs' (accum ++ (x ∷ []))))
                    (first_accepted p (subsets_below set cs accum))))
        ]
      ]

  -- For an ascending set, the merging search `find_subset` returns the first accepted value of
  -- the listing `subsets`, or nothing when none is accepted.
  pub find_subset-eq-first :
      (p : V → Bool) (set : List ℕ) (n : Node V)
      → IsAscending set
      → find_subset p set n ≡ first_accepted p (subsets set n)
  unfolding find_subset subsets
  find_subset-eq-first p set (node m cs) a =
      rw (first_accepted-ended p m [] (subsets_below set cs []), find_below-eq-first p set cs [] a)
