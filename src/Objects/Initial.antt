-- ===== src/Objects/Initial.antt =====
-- The states that the constructors and initialisers of klee/lib/Core/Memory.cpp leave.
use mathlib.Core.Option.{some-injective}
use xklee.Base.{
  subst, ℕ, zero, suc, ◌≡◌, ◌<◌, ◌≤◌, ◌+◌, refl, ap, ◌∙◌, Bool, true, false, Option, none, some,
  List, ◌==◌, ==_iff, arith, ◌⊎◌, inl, inr, Bool-cases,
}
use xklee.Exprs.{no_updates, eval, get_width}
use xklee.Objects.{
  ObjectState, bit_or, flushed_mask, is_byte_concrete, is_byte_flushed, cached, initialize_to_zero,
  make_bytes_symbolic, of_array, mark_byte_symbolic, set_known_symbolic, mark_byte_flushed,
}
use xklee.Objects.Meaning.{
  known_at-known_with, updated, base_of, stored, byte, value_or, IsCoherent,
}

module _ (apply : ℕ → List ℕ → List ℕ → ℕ) (Possible : (ℕ → ℕ → ℕ) → Type 0) where
  pub initialize_to_zero-IsCoherent :
      (os : ObjectState)
      → IsCoherent apply Possible (initialize_to_zero os)
        × ((bytes : ℕ → ℕ → ℕ) (i : ℕ) → byte apply (initialize_to_zero os) bytes i ≡ 0)
  unfolding eval get_width
  initialize_to_zero-IsCoherent os = (
    λ i l. record {
      wide = λ v e. subst (λ x. get_width x ≡ 8) (some-injective _ _ e) refl;
      exclusive = refl;
      unflushed = λ h. refl;
      flushed = λ h bytes possible. cc;
    },
    λ bytes i. refl,
  )

  -- A byte that is neither concrete nor known, and flushed.
  IsBare : ObjectState → ℕ → Type 0
  IsBare os j =
      (cached os j ≡ none) × (is_byte_concrete os j ≡ false) × (is_byte_flushed os j ≡ true)

  flushed_mask-at : (i j : ℕ) (mask : Option (ℕ → Bool)) → j ≡ i → flushed_mask i mask j ≡ false
  flushed_mask-at i j none e = refl
  flushed_mask-at i j (some mask) e = ground arith

  flushed_mask-keeps :
      (i j : ℕ) (mask : Option (ℕ → Bool))
      → bit_or true mask j ≡ false
      → flushed_mask i mask j ≡ false
  flushed_mask-keeps i j none e = refl
  flushed_mask-keeps i j (some mask) e = ground arith

  abbrev made : ℕ → ObjectState → ObjectState
  made i os = mark_byte_flushed i (set_known_symbolic i none (mark_byte_symbolic i os))

  made-IsBare : (i j : ℕ) (os : ObjectState) → (j ≡ i) ⊎ IsBare os j → IsBare (made i os) j
  unfolding IsBare
  made-IsBare i j os (inl e) =
      let k = known_at-known_with i j none os.known_symbolics in
      let f = flushed_mask-at i j os.flush_mask e in (ground arith, ground arith, ground arith)
  made-IsBare i j os (inr (a, b, c)) =
      let k = known_at-known_with i j none os.known_symbolics in
      let f = flushed_mask-keeps i j os.flush_mask (ground arith) in
      (ground arith, ground arith, ground arith)

  make_bytes_symbolic-IsBare :
      (i n j : ℕ) (os : ObjectState)
      → ((i ≤ j) × (j < i + n)) ⊎ IsBare os j
      → IsBare (make_bytes_symbolic i n os) j
  make_bytes_symbolic-IsBare i zero j os (inl h) = absurd (omega arith)
  make_bytes_symbolic-IsBare i zero j os (inr h) = h
  make_bytes_symbolic-IsBare i (suc n) j os (inr h) =
      make_bytes_symbolic-IsBare (suc i) n j (made i os) (inr (made-IsBare i j os (inr h)))
  make_bytes_symbolic-IsBare i (suc n) j os (inl h) = elim (Bool-cases (j == i)) [
    | inl e ↦
        make_bytes_symbolic-IsBare (suc i) n j (made i os)
          (inr (made-IsBare i j os (inl ((==_iff j i).0 e))))
    | inr e ↦
        let other : (j ≡ i) → ⊥ = λ q. let r = (==_iff j i).1 q in cc in
        make_bytes_symbolic-IsBare (suc i) n j (made i os) (inl (grind arith, omega arith))
  ]

  stored_over-IsBare :
      (os : ObjectState) (j : ℕ) → IsBare os j → IsBare (record os { concrete_store = λ i. 0 }) j
  unfolding IsBare
  stored_over-IsBare os j (a, b, c) = (ground arith, b, c)

  -- What the loop does not touch.
  abbrev Keeps : ObjectState → ObjectState → Type 0
  Keeps os os' = (os'.root ≡ os.root) × (os'.updates ≡ os.updates) × (os'.size ≡ os.size)

  make_bytes_symbolic-Keeps : (i n : ℕ) (os : ObjectState) → Keeps os (make_bytes_symbolic i n os)
  make_bytes_symbolic-Keeps i zero os = (refl, refl, refl)
  make_bytes_symbolic-Keeps i (suc n) os = make_bytes_symbolic-Keeps (suc i) n (made i os)

  -- A symbolic object is the array.
  pub of_array-IsCoherent :
      (size array : ℕ)
      → IsCoherent apply Possible (of_array size array)
        × ((bytes : ℕ → ℕ → ℕ) (i : ℕ)
            → i < size
            → byte apply (of_array size array) bytes i ≡ bytes array i)
  unfolding IsBare updated
  of_array-IsCoherent size array =
      let start : ObjectState = record {
        concrete_store = λ i. 0;
        concrete_mask = none;
        flush_mask = none;
        known_symbolics = none;
        root = some array;
        updates = no_updates;
        size = size;
        read_only = false;
      } in
      let (root, updates, same_size) = make_bytes_symbolic-Keeps 0 size start in
      let os = of_array size array in
      let looped = make_bytes_symbolic 0 size start in
      let bare = λ (i : ℕ) (l : i < size).
        make_bytes_symbolic-IsBare 0 size i start (inl (omega arith, omega arith)) in
      let cached_none = λ (i : ℕ) (l : i < size). (stored_over-IsBare looped i (bare i l)).0 in
      let array_there = λ (bytes : ℕ → ℕ → ℕ) (i : ℕ).
        ap (λ us. updated apply bytes us (base_of apply looped.root bytes i) i) updates
        ∙ ap (λ r. base_of apply r bytes i) root in
      (
        λ i l.
            let below : i < size = omega arith in
            let (n, c, f) = stored_over-IsBare looped i (bare i below) in
            record {
              wide = λ value e. cc;
              exclusive = ground arith;
              unflushed = λ h. cc;
              flushed = λ h bytes possible. ap (value_or apply bytes (stored apply os bytes i)) n;
            },
        λ bytes i l.
            ap (value_or apply bytes (stored apply os bytes i)) (cached_none i l)
            ∙ array_there bytes i,
      )
