-- ===== src/Memory/Isolation.antt =====
-- Copy on write of klee/lib/Core/AddressSpace.cpp: two address spaces over one heap.
use xklee.Base.{
  ℕ, ◌+◌, ◌%◌, ◌^◌, ◌<◌, ◌≤◌, ◌≡◌, ◌≢◌, ap, sym, ◌∙◌, false, some, List, [], ◌∷◌, ◌++◌, ◌==◌,
  ==_iff, ltb, arith, Any, ◌⊎◌, inl, inr, Bool-cases, subst, length,
}
use xklee.Base.Order.{nat_order}
use xklee.ImmutableTree.{Tree, replace}
use xklee.ImmutableTree.Elements.{elements}
use xklee.ImmutableTree.Sorted.{replace_sorted}
use xklee.ImmutableTree.Ordered.{IsOrdered, elements-replace}
use xklee.Memory.{
  MemoryObject, ObjectState, AddressSpace, address_of, copy, owned_by, get_elem?, set_elem, fork,
  get_writeable,
}
use xklee.Memory.Heap.{get_elem?-lt, get_elem?-set_elem_ne, get_elem?-append, get_elem?-new}

abbrev pub Points : ℕ → List (MemoryObject × ℕ) → Type 0
Points p entries = Any (λ e. e.1 ≡ p) entries

-- An object of the space has the object state `p`.
abbrev pub Holds : ℕ → AddressSpace → Type 0
Holds p space = Points p (elements space.objects)

-- The object state is there and owned by this key or an earlier one.
abbrev pub IsOwnedUpTo : ℕ → List ObjectState → ℕ → Type 0
IsOwnedUpTo key heap p =
    (object : ObjectState) × (get_elem? heap p ≡ some object) × (object.copy_on_write_owner ≤ key)

-- The invariant that is stated with the class.
abbrev pub IsValid : List ObjectState → AddressSpace → Type 0
IsValid heap space = (p : ℕ) → Holds p space → IsOwnedUpTo space.cow_key heap p

-- An object state of both spaces is owned by neither.
abbrev pub AreSeparate : List ObjectState → AddressSpace → AddressSpace → Type 0
AreSeparate heap a b =
    (p : ℕ) (object : ObjectState)
    → Holds p a
    → Holds p b
    → get_elem? heap p ≡ some object
    → (object.copy_on_write_owner < a.cow_key) × (object.copy_on_write_owner < b.cow_key)

replace_sorted-Points :
    (v : MemoryObject × ℕ) (entries : List (MemoryObject × ℕ)) (p : ℕ)
    → Points p (replace_sorted address_of nat_order v entries)
    → (v.1 ≡ p) ⊎ Points p entries
unfolding replace_sorted
replace_sorted-Points v [] p h = h
replace_sorted-Points v (x ∷ entries) p h = elim (Bool-cases (ltb (address_of v) (address_of x))) [
  | inl e ↦ rw e at h
  | inr e ↦ elim (Bool-cases (ltb (address_of x) (address_of v))) [
    | inl f ↦
        let h' : (x.1 ≡ p) ⊎ Points p (replace_sorted address_of nat_order v entries) =
          rw (e, f) at h in
        elim h' [
          | inl i ↦ inr (inl i)
          | inr i ↦ elim (replace_sorted-Points v entries p i) [
            | inl j ↦ inl j
            | inr j ↦ inr (inr j)
          ]
        ]
    | inr f ↦
        let h' : (v.1 ≡ p) ⊎ Points p entries = rw (e, f) at h in
        elim h' [ inl i ↦ inl i | inr i ↦ inr (inr i) ]
  ]
]

replace-Holds :
    (v : MemoryObject × ℕ) (t : Tree (MemoryObject × ℕ)) (p : ℕ)
    → IsOrdered address_of nat_order t
    → Points p (elements (replace address_of nat_order v t))
    → (v.1 ≡ p) ⊎ Points p (elements t)
replace-Holds v t p s h =
    replace_sorted-Points v (elements t) p (rw (elements-replace address_of nat_order v t s) at h)

-- What a call of `get_writeable` for an object of `a` guarantees beside another space `b`.
pub record IsIsolated (heap : List ObjectState) (a b : AddressSpace) (p : ℕ)
    (heap' : List ObjectState) (a' : AddressSpace) : Type 0 where
  -- Whatever is written to the object state, `b` does not see it.
  pub unseen :
      (q : ℕ) (written : ObjectState)
      → Holds q b
      → get_elem? (set_elem heap' p written) q ≡ get_elem? heap q
  pub valid : IsValid heap' a'
  pub valid_other : IsValid heap' b
  pub separate : AreSeparate heap' a' b

owner-ne :
    (heap : List ObjectState) (a b : AddressSpace) (os q : ℕ) (object : ObjectState)
    → AreSeparate heap a b
    → Holds os a
    → Holds q b
    → get_elem? heap os ≡ some object
    → a.cow_key ≡ object.copy_on_write_owner
    → os ≢ q
owner-ne heap a b os q object s ha hb e k same =
    let below = s os object ha (subst (λ x. Holds x b) (sym same) hb) e in omega arith

in_place-IsIsolated :
    (heap : List ObjectState) (a b : AddressSpace) (os : ℕ) (object : ObjectState)
    → IsValid heap a
    → IsValid heap b
    → AreSeparate heap a b
    → Holds os a
    → get_elem? heap os ≡ some object
    → a.cow_key ≡ object.copy_on_write_owner
    → IsIsolated heap a b os heap a
in_place-IsIsolated heap a b os object va vb s h e k = record {
  unseen = λ q written hb.
      get_elem?-set_elem_ne heap os q written (owner-ne heap a b os q object s h hb e k);
  valid = va;
  valid_other = vb;
  separate = s;
}

still_owned :
    (key : ℕ) (heap : List ObjectState) (os : ObjectState) (p : ℕ)
    → IsOwnedUpTo key heap p
    → IsOwnedUpTo key (heap ++ (os ∷ [])) p
still_owned key heap os p (object, e, h) =
    (object, get_elem?-append heap (os ∷ []) p (get_elem?-lt heap p e) ∙ e, h)

copied-IsIsolated :
    (heap : List ObjectState) (a b : AddressSpace) (mo : MemoryObject) (object : ObjectState)
    → IsOrdered address_of nat_order a.objects
    → IsValid heap a
    → IsValid heap b
    → AreSeparate heap a b
    → IsIsolated heap a b (length heap) (heap ++ (owned_by a.cow_key object ∷ [])) (record {
      cow_key = a.cow_key;
      objects = replace address_of nat_order (mo, length heap) a.objects;
    })
copied-IsIsolated heap a b mo object o va vb s = record {
  unseen = λ q written hb.
      let (there, e, k) = vb q hb in
      let inside = get_elem?-lt heap q e in
      get_elem?-set_elem_ne (heap ++ (owned_by a.cow_key object ∷ [])) (length heap) q written
        (λ same. omega arith)
      ∙ get_elem?-append heap (owned_by a.cow_key object ∷ []) q inside;
  valid = λ p h. elim (replace-Holds (mo, length heap) a.objects p o h) [
    | inl e ↦
        subst (λ x. IsOwnedUpTo a.cow_key (heap ++ (owned_by a.cow_key object ∷ [])) x) e
          (owned_by a.cow_key object, get_elem?-new heap (owned_by a.cow_key object), omega arith)
    | inr old ↦ still_owned a.cow_key heap (owned_by a.cow_key object) p (va p old)
  ];
  valid_other = λ p h. still_owned b.cow_key heap (owned_by a.cow_key object) p (vb p h);
  separate = λ p found ha hb e.
      let (there, e', k) = vb p hb in
      let inside = get_elem?-lt heap p e' in
      let same = get_elem?-append heap (owned_by a.cow_key object ∷ []) p inside in
      elim (replace-Holds (mo, length heap) a.objects p o ha) [
        | inl new ↦ absurd (omega arith)
        | inr old ↦ s p found old hb (sym same ∙ e)
      ];
}

-- For an object state of an address space that is not read-only, with two valid spaces that
-- are separate (an object state of both is owned by neither), `get_writeable` succeeds,
-- whatever is then written to the object state it returns is not seen through the other
-- space, and both spaces stay valid and separate.
pub get_writeable-IsIsolated :
    (heap : List ObjectState) (a b : AddressSpace) (mo : MemoryObject) (os : ℕ)
    (object : ObjectState)
    → IsOrdered address_of nat_order a.objects
    → IsValid heap a
    → IsValid heap b
    → AreSeparate heap a b
    → Holds os a
    → get_elem? heap os ≡ some object
    → object.read_only ≡ false
    → (p : ℕ) × (heap' : List ObjectState) × (a' : AddressSpace) × (get_writeable mo os (heap, a)
        ≡ some (p, heap', a'))
      × IsIsolated heap a b p heap' a'
unfolding get_writeable
get_writeable-IsIsolated heap a b mo os object o va vb s h e r =
    elim (Bool-cases (a.cow_key == object.copy_on_write_owner)) [
      | inl k ↦ (
        os,
        heap,
        a,
        rw (e, r, k),
        in_place-IsIsolated heap a b os object va vb s h e ((==_iff _ _).0 k),
      )
      | inr k ↦ (
        length heap,
        heap ++ (owned_by a.cow_key (copy object) ∷ []),
        record {
          cow_key = a.cow_key;
          objects = replace address_of nat_order (mo, length heap) a.objects;
        },
        rw (e, r, k),
        copied-IsIsolated heap a b mo (copy object) o va vb s,
      )
    ]

-- As long as the ownership key does not wrap around, the two spaces after a fork of a valid
-- space are valid and separate.
pub fork-AreSeparate :
    (heap : List ObjectState) (b : AddressSpace)
    → b.cow_key + 1 < 2 ^ 32
    → IsValid heap b
    → IsValid heap (fork b).0 × IsValid heap (fork b).1 × AreSeparate heap (fork b).0 (fork b).1
unfolding fork
fork-AreSeparate heap b h v =
    let fits : (b.cow_key + 1) % 2 ^ 32 ≡ b.cow_key + 1 = omega arith in
    (
      λ p held. let (object, e, k) = v p held in (object, e, omega arith),
      λ p held. let (object, e, k) = v p held in (object, e, omega arith),
      λ p object held _ e.
          let (object', e', k) = v p held in
          let same : object' ≡ object = cc in
          let owner = ap (λ x. x.copy_on_write_owner) same in (omega arith, omega arith),
    )
