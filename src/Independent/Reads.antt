-- ===== src/Independent/Reads.antt =====
-- The constructor of `IndependentElementSet` (klee/lib/Solver/IndependentSolver.cpp): the bytes
-- that the value of an expression depends on.
use mathlib.Core.Option.{get_or}
use xklee.Base.{
  ℕ, ◌≡◌, refl, ap, Bool, true, ◌||◌, ◌&&◌, Option, none, some, List, [], ◌∷◌, ◌==◌, arith,
  contains, inl, inr, ◌⊎◌, Bool-cases, ◌%◌, ◌^◌,
}
use xklee.Exprs.{Expr, constant, read, operation, is_read, member}
use xklee.FindReads.{subterms}
use xklee.FindReads.Subterms.{first_or}
use xklee.FindReads.Exact.{find_reads-exact}
use xklee.Independent.{
  ElementSet, find_elements, no_head, dense_add, add_index, add_read, add_reads, element_set,
  no_elements,
}
use xklee.Independent.Maps.{
  find_elements-erase_elements, find_elements-set_elements, contains-dense_add,
}
use xklee.Independent.Covers.{covers, in_dense, find_elements_eq}

-- A read with this index may be of byte `n`.
abbrev pub index_may : Expr → ℕ → Bool
index_may (constant w v) n = v % 2 ^ 32 == n
index_may _ n = true

in_dense-get_or : (n : ℕ) (o : Option (List ℕ)) → contains n (get_or o []) ≡ in_dense n o
in_dense-get_or n none = refl
in_dense-get_or n (some d) = refl

whole-covers :
    (a b n : ℕ) (s : ElementSet)
    → covers (record s { elements = s.elements; whole_objects = a ∷ s.whole_objects }) b n
      ≡ ((b == a) || covers s b n)
whole-covers a b n s = ground arith

module _ (is_constant_array : ℕ → Bool) where
  -- The bytes of a read are covered, or the array is constant and not written.
  abbrev pub IsCovered : ElementSet → Expr → Type 0
  IsCovered s (read a us i) =
      ((is_constant_array a && no_head us) ≡ true)
      ⊎ ((n : ℕ) → index_may i n ≡ true → covers s a n ≡ true)
  IsCovered s _ = Unit

  add_index-keeps :
      (a b n : ℕ) (i : Expr) (s : ElementSet)
      → covers s b n ≡ true
      → covers (add_index a i s) b n ≡ true
  add_index-keeps a b n (constant w v) s h =
      let added = contains-dense_add n (v % 2 ^ 32) (get_or (find_elements a s.elements) []) in
      let before = in_dense-get_or n (find_elements a s.elements) in
      let dense = dense_add (v % 2 ^ 32) (get_or (find_elements a s.elements) []) in
      let same = ap (in_dense n) (find_elements-set_elements b a dense s.elements) in
      elim (Bool-cases (b == a)) [
        | inl e ↦ let k = ap (in_dense n) (find_elements_eq b a s.elements e) in ground arith
        | inr e ↦ ground arith
      ]
  add_index-keeps a b n (read c us i) s h =
      let same = ap (in_dense n) (find_elements-erase_elements b a s.elements) in ground arith
  add_index-keeps a b n (operation k c es) s h =
      let same = ap (in_dense n) (find_elements-erase_elements b a s.elements) in ground arith

  add_index-covers :
      (a n : ℕ) (i : Expr) (s : ElementSet)
      → index_may i n ≡ true
      → covers (add_index a i s) a n ≡ true
  add_index-covers a n (constant w v) s h =
      let added = contains-dense_add n (v % 2 ^ 32) (get_or (find_elements a s.elements) []) in
      let dense = dense_add (v % 2 ^ 32) (get_or (find_elements a s.elements) []) in
      let same = ap (in_dense n) (find_elements-set_elements a a dense s.elements) in ground arith
  add_index-covers a n (read c us i) s h = ground arith
  add_index-covers a n (operation k c es) s h = ground arith

  add_read-keeps :
      (r : Expr) (b n : ℕ) (s : ElementSet)
      → covers s b n ≡ true
      → covers (add_read is_constant_array r s) b n ≡ true
  add_read-keeps (constant w v) b n s h = h
  add_read-keeps (operation k c es) b n s h = h
  add_read-keeps (read a us i) b n s h = elim (Bool-cases (is_constant_array a && no_head us)) [
    | inl f ↦ rw f h
    | inr f ↦ elim (Bool-cases (contains a s.whole_objects)) [
      | inl g ↦ rw (f, g) h
      | inr g ↦ rw (f, g) (add_index-keeps a b n i s h)
    ]
  ]

  add_read-IsCovered : (r : Expr) (s : ElementSet) → IsCovered (add_read is_constant_array r s) r
  add_read-IsCovered (constant w v) s = tt
  add_read-IsCovered (operation k c es) s = tt
  add_read-IsCovered (read a us i) s = elim (Bool-cases (is_constant_array a && no_head us)) [
    | inl f ↦ inl f
    | inr f ↦ elim (Bool-cases (contains a s.whole_objects)) [
      | inl g ↦ inr (λ n m. rw (f, g) (ground arith))
      | inr g ↦ inr (λ n m. rw (f, g) (add_index-covers a n i s m))
    ]
  ]

  IsCovered-grows :
      (s s' : ElementSet) (r : Expr)
      → ((b n : ℕ) → covers s b n ≡ true → covers s' b n ≡ true)
      → IsCovered s r
      → IsCovered s' r
  IsCovered-grows s s' (constant w v) g c = tt
  IsCovered-grows s s' (operation k o es) g c = tt
  IsCovered-grows s s' (read a us i) g (inl h) = inl h
  IsCovered-grows s s' (read a us i) g (inr h) = inr (λ n m. g a n (h n m))

  add_reads-keeps :
      (rs : List Expr) (b n : ℕ) (s : ElementSet)
      → covers s b n ≡ true
      → covers (add_reads is_constant_array rs s) b n ≡ true
  add_reads-keeps [] b n s h = h
  add_reads-keeps (r ∷ rs) b n s h =
      add_reads-keeps rs b n (add_read is_constant_array r s) (add_read-keeps r b n s h)

  add_reads-IsCovered :
      (rs : List Expr) (s : ElementSet) (r : Expr)
      → member r rs ≡ true
      → IsCovered (add_reads is_constant_array rs s) r
  add_reads-IsCovered [] s r m = cc
  add_reads-IsCovered (x ∷ rs) s r m =
      let next = add_read is_constant_array x s in
      let all_of_them = add_reads is_constant_array rs next in
      first_or (λ y. IsCovered all_of_them y) r x rs m
        (IsCovered-grows next all_of_them x (λ b n h. add_reads-keeps rs b n next h)
          (add_read-IsCovered x s))
        (add_reads-IsCovered rs next r)

  -- Each read in the expression is covered by its set.
  pub element_set-IsCovered :
      (e r : Expr)
      → is_read r ≡ true
      → member r (subterms e) ≡ true
      → IsCovered (element_set is_constant_array e) r
  unfolding element_set
  element_set-IsCovered e r h m =
      let (results, found, exact) = find_reads-exact e in
      let x = exact r in rw found (add_reads-IsCovered results no_elements r (ground arith))
