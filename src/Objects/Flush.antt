-- ===== src/Objects/Flush.antt =====
-- `flushRangeForRead` and `flushRangeForWrite` of klee/lib/Core/Memory.cpp.
use xklee.Base.{
  ℕ, zero, suc, ◌≡◌, ◌<◌, ◌≤◌, ◌+◌, refl, ap, sym, ◌∙◌, true, false, ◌||◌, none, some, List, ◌==◌,
  ==_iff, ◌%◌, ◌^◌, arith, if◌then◌else◌, inl, inr, Bool-cases, Option-cases, subst,
}
use xklee.Exprs.{Expr, constant, eval}
use xklee.Objects.{
  ObjectState, known_at, is_known, is_byte_concrete, is_byte_flushed, is_byte_known_symbolic,
  cached, unset_flush, extend_updates, with_flush_mask, flush_byte_for_read, flush_bytes_for_read,
  flush_for_read,
}
use xklee.Objects.Meaning.{
  updated, stored, byte, value_or, IsCoherentAt, IsCoherent, IsSameAt, byte-IsSameAt,
  IsSameAt-IsCoherentAt,
}

module _ (apply : ℕ → List ℕ → List ℕ → ℕ) (Possible : (ℕ → ℕ → ℕ) → Type 0) where
  -- The cached value of the byte on the list of updates.
  abbrev flushed_state : ℕ → Expr → ObjectState → ObjectState
  flushed_state i value os = unset_flush i (extend_updates (constant 32 i) value os)

  stored_extended :
      (i j : ℕ) (value : Expr) (os : ObjectState) (bytes : ℕ → ℕ → ℕ)
      → i < 2 ^ 32
      → stored apply (flushed_state i value os) bytes j
        ≡ (if i == j then eval apply bytes value else stored apply os bytes j)
  unfolding updated eval
  stored_extended i j value os bytes l = let same : i % 2 ^ 32 ≡ i = omega arith in rw same refl

  flushed_state-IsSameAt :
      (i j : ℕ) (value : Expr) (os : ObjectState)
      → i < 2 ^ 32
      → (j == i) ≡ false
      → IsSameAt apply os (flushed_state i value os) j
  flushed_state-IsSameAt i j value os l n = record {
    concrete = refl;
    known = refl;
    store = refl;
    mask = rw n refl;
    updates = λ bytes. let s = stored_extended i j value os bytes l in ground arith;
  }

  flushed_state-flushed :
      (i : ℕ) (value : Expr) (os : ObjectState)
      → i < 2 ^ 32
      → cached os i ≡ some value
      → IsCoherentAt apply Possible os i
      → IsCoherentAt apply Possible (flushed_state i value os) i
  flushed_state-flushed i value os l e c = record {
    wide = c.wide;
    exclusive = c.exclusive;
    unflushed = λ h. ground arith;
    flushed = λ h bytes possible.
        let s = stored_extended i i value os bytes l in
        let v : byte apply (flushed_state i value os) bytes i ≡ eval apply bytes value =
          ap (value_or apply bytes (stored apply (flushed_state i value os) bytes i)) e in
        ground arith;
  }

  flushed_state-byte :
      (i j : ℕ) (value : Expr) (os : ObjectState) (bytes : ℕ → ℕ → ℕ)
      → i < 2 ^ 32
      → cached os i ≡ some value
      → byte apply (flushed_state i value os) bytes j ≡ byte apply os bytes j
  flushed_state-byte i j value os bytes l e = elim (Bool-cases (j == i)) [
    | inl f ↦
        let here : cached os j ≡ some value = ap (cached os) ((==_iff j i).0 f) ∙ e in
        ap (value_or apply bytes (stored apply (flushed_state i value os) bytes j)) here
        ∙ sym (ap (value_or apply bytes (stored apply os bytes j)) here)
    | inr f ↦
        byte-IsSameAt apply os (flushed_state i value os) j bytes
          (flushed_state-IsSameAt i j value os l f)
  ]

  -- The state behind some flushes: bytes, size and invariants are as before.
  pub record IsFlush (os os' : ObjectState) : Type 0 where
    pub coherent : IsCoherent apply Possible os'
    pub size : os'.size ≡ os.size
    pub bytes_same :
        (bytes : ℕ → ℕ → ℕ) (j : ℕ)
        → Possible bytes
        → j < os.size
        → byte apply os' bytes j ≡ byte apply os bytes j
    pub still_flushed : (j : ℕ) → is_byte_flushed os j ≡ true → is_byte_flushed os' j ≡ true
    pub still_uncached : (j : ℕ) → cached os j ≡ none → cached os' j ≡ none

  cached-is_some :
      (os : ObjectState) (i : ℕ)
      → (is_byte_concrete os i || is_byte_known_symbolic os i) ≡ true
      → (value : Expr) × (cached os i ≡ some value)
  cached-is_some os i h = elim (Bool-cases (is_byte_concrete os i)) [
    | inl f ↦ (constant 8 (os.concrete_store i), rw f refl)
    | inr f ↦ elim (Option-cases (known_at os.known_symbolics i)) [
      | inl g ↦ let n = ap is_known g in absurd (ground arith)
      | inr (e, g) ↦ (e, rw (f, g) refl)
    ]
  ]

  -- A byte is flushed, whichever way.
  pub flush_byte_for_read-IsFlush :
      (i : ℕ) (os : ObjectState)
      → i < os.size
      → os.size ≤ 2 ^ 32
      → IsCoherent apply Possible os
      → (os' : ObjectState) × (flush_byte_for_read i os ≡ some os')
        × IsFlush os os'
        × (is_byte_flushed os' i ≡ true)
  flush_byte_for_read-IsFlush i os l s c = elim (Bool-cases (is_byte_flushed os i)) [
    | inl f ↦ (
      os,
      rw f refl,
      record {
        coherent = c;
        size = refl;
        bytes_same = λ bytes j possible h. refl;
        still_flushed = λ j h. h;
        still_uncached = λ j h. h;
      },
      f,
    )
    | inr f ↦
        let (value, e) = cached-is_some os i ((c i l).unflushed f) in
        (
          flushed_state i value os,
          rw (f, e, (c i l).wide value e) refl,
          record {
            coherent = λ j h. elim (Bool-cases (j == i)) [
              | inl g ↦
                  let same : i ≡ j = sym ((==_iff j i).0 g) in
                  subst (λ x. IsCoherentAt apply Possible (flushed_state i value os) x) same
                    (flushed_state-flushed i value os (omega arith) e (c i l))
              | inr g ↦
                  IsSameAt-IsCoherentAt apply Possible os (flushed_state i value os) j
                    (flushed_state-IsSameAt i j value os (omega arith) g) (c j h)
            ];
            size = refl;
            bytes_same =
                λ bytes j possible h. flushed_state-byte i j value os bytes (omega arith) e;
            still_flushed = λ j h. ground arith;
            still_uncached = λ j h. h;
          },
          ground arith,
        )
  ]

  pub IsFlush-trans : (a b c : ObjectState) → IsFlush a b → IsFlush b c → IsFlush a c
  IsFlush-trans a b c f g = record {
    coherent = g.coherent;
    size = g.size ∙ f.size;
    bytes_same = λ bytes j possible h.
        let below : j < b.size = let s = f.size in omega arith in
        g.bytes_same bytes j possible below ∙ f.bytes_same bytes j possible h;
    still_flushed = λ j h. g.still_flushed j (f.still_flushed j h);
    still_uncached = λ j h. g.still_uncached j (f.still_uncached j h);
  }

  pub with_flush_mask-IsFlush :
      (os : ObjectState) → IsCoherent apply Possible os → IsFlush os (with_flush_mask os)
  with_flush_mask-IsFlush os c = record {
    coherent = λ j h.
        IsSameAt-IsCoherentAt apply Possible os (with_flush_mask os) j
          (record {
            concrete = refl;
            known = refl;
            store = refl;
            mask = refl;
            updates = λ bytes. refl;
          })
          (c j h);
    size = refl;
    bytes_same = λ bytes j possible h. refl;
    still_flushed = λ j h. h;
    still_uncached = λ j h. h;
  }

  flush_bytes_for_read-IsFlush :
      (i n : ℕ) (os : ObjectState)
      → i + n ≤ os.size
      → os.size ≤ 2 ^ 32
      → IsCoherent apply Possible os
      → (os' : ObjectState) × (flush_bytes_for_read i n os ≡ some os')
        × IsFlush os os'
        × ((j : ℕ) → i ≤ j → j < i + n → is_byte_flushed os' j ≡ true)
  flush_bytes_for_read-IsFlush i zero os l s c = (
    os,
    refl,
    record {
      coherent = c;
      size = refl;
      bytes_same = λ bytes j possible h. refl;
      still_flushed = λ j h. h;
      still_uncached = λ j h. h;
    },
    λ j a b. absurd (omega arith),
  )
  flush_bytes_for_read-IsFlush i (suc n) os l s c =
      let (next, e, f, here) = flush_byte_for_read-IsFlush i os (omega arith) s c in
      let size = f.size in
      let (os', e', f', there) =
        flush_bytes_for_read-IsFlush (suc i) n next (omega arith) (omega arith) f.coherent in
      (
        os',
        rw e e',
        IsFlush-trans os next os' f f',
        λ j a b. elim (Bool-cases (j == i)) [
          | inl g ↦
              let same : i ≡ j = sym ((==_iff j i).0 g) in
              f'.still_flushed j (subst (λ x. is_byte_flushed next x ≡ true) same here)
          | inr g ↦
              let other : (j ≡ i) → ⊥ = λ q. let r = (==_iff j i).1 q in cc in
              there j (grind arith) (omega arith)
        ],
      )

  -- Flushing for a read keeps all bytes, and has them all on the list of updates.
  pub flush_for_read-IsFlush :
      (os : ObjectState)
      → os.size ≤ 2 ^ 32
      → IsCoherent apply Possible os
      → (os' : ObjectState) × (flush_for_read os ≡ some os')
        × IsFlush os os'
        × ((bytes : ℕ → ℕ → ℕ) (j : ℕ)
            → Possible bytes
            → j < os.size
            → stored apply os' bytes j ≡ byte apply os bytes j)
  flush_for_read-IsFlush os s c =
      let masked = with_flush_mask os in
      let first = with_flush_mask-IsFlush os c in
      let (os', e, f, flushed) =
        flush_bytes_for_read-IsFlush 0 os.size masked (omega arith) s first.coherent in
      let size = f.size in
      (
        os',
        e,
        IsFlush-trans os masked os' first f,
        λ bytes j possible h.
            sym (
              (f.coherent j (omega arith)).flushed (flushed j (omega arith) (omega arith)) bytes
                possible)
            ∙ f.bytes_same bytes j possible h,
      )
