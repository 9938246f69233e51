-- ===== src/Objects/Forget.antt =====
-- `flushRangeForWrite` of klee/lib/Core/Memory.cpp: no byte is cached any more.
use xklee.Base.{
  ℕ, zero, suc, ◌≡◌, ◌<◌, ◌≤◌, ◌+◌, refl, ap, sym, ◌∙◌, true, false, not, Option, none, some, List,
  ◌==◌, ==_iff, ◌^◌, arith, inl, inr, Bool-cases, subst,
}
use xklee.Exprs.{Expr}
use xklee.Objects.{
  ObjectState, known_at, is_known, is_byte_concrete, is_byte_flushed, is_byte_known_symbolic,
  cached, mark_byte_symbolic, set_known_symbolic, with_flush_mask, forget, flush_byte_for_write,
  flush_bytes_for_write, flush_for_write,
}
use xklee.Objects.Meaning.{
  known_at-known_with, stored, byte, value_or, IsCoherentAt, IsCoherent, IsSameAt, byte-IsSameAt,
  IsSameAt-IsCoherentAt, cached-IsSameAt,
}
use xklee.Objects.Flush.{
  IsFlush, IsFlush-trans, flush_byte_for_read-IsFlush, with_flush_mask-IsFlush,
}

not_known : (known : Option Expr) → is_known known ≡ false → known ≡ none
not_known none h = refl
not_known (some e) h = cc

module _ (apply : ℕ → List ℕ → List ℕ → ℕ) (Possible : (ℕ → ℕ → ℕ) → Type 0) where
  mark_byte_symbolic-IsSameAt :
      (i j : ℕ) (os : ObjectState)
      → (j == i) ≡ false
      → IsSameAt apply os (mark_byte_symbolic i os) j
  mark_byte_symbolic-IsSameAt i j os n = record {
    concrete = rw n refl;
    known = refl;
    store = refl;
    mask = refl;
    updates = λ bytes. refl;
  }

  set_known_symbolic-IsSameAt :
      (i j : ℕ) (os : ObjectState)
      → (j == i) ≡ false
      → IsSameAt apply os (set_known_symbolic i none os) j
  set_known_symbolic-IsSameAt i j os n = record {
    concrete = refl;
    known = let k = known_at-known_with i j none os.known_symbolics in ground arith;
    store = refl;
    mask = refl;
    updates = λ bytes. refl;
  }

  same-IsSameAt : (os : ObjectState) (j : ℕ) → IsSameAt apply os os j
  same-IsSameAt os j = record {
    concrete = refl;
    known = refl;
    store = refl;
    mask = refl;
    updates = λ bytes. refl;
  }

  forget-IsSameAt :
      (i j : ℕ) (os : ObjectState) → (j == i) ≡ false → IsSameAt apply os (forget i os) j
  forget-IsSameAt i j os n = elim (Bool-cases (is_byte_concrete os i)) [
    | inl f ↦ rw f (mark_byte_symbolic-IsSameAt i j os n)
    | inr f ↦ elim (Bool-cases (is_byte_known_symbolic os i)) [
      | inl g ↦ rw (f, g) (set_known_symbolic-IsSameAt i j os n)
      | inr g ↦ rw (f, g) (same-IsSameAt os j)
    ]
  ]

  -- What stays at the byte itself.
  record IsForgotten (i : ℕ) (os os' : ObjectState) : Type 0 where
    none_cached : cached os' i ≡ none
    not_concrete : is_byte_concrete os' i ≡ false
    still : is_byte_flushed os' i ≡ is_byte_flushed os i
    updates : (bytes : ℕ → ℕ → ℕ) → stored apply os' bytes i ≡ stored apply os bytes i

  forget-IsForgotten :
      (i : ℕ) (os : ObjectState) → IsCoherentAt apply Possible os i → IsForgotten i os (forget i os)
  forget-IsForgotten i os c = elim (Bool-cases (is_byte_concrete os i)) [
    | inl f ↦
        let no = not_known (known_at os.known_symbolics i) (let x = c.exclusive in ground arith) in
        rw f (record {
          none_cached = ground arith;
          not_concrete = ground arith;
          still = refl;
          updates = λ bytes. refl;
        })
    | inr f ↦ elim (Bool-cases (is_byte_known_symbolic os i)) [
      | inl g ↦
          let k = known_at-known_with i i none os.known_symbolics in
          rw (f, g)
            (record {
              none_cached = ground arith;
              not_concrete = f;
              still = refl;
              updates = λ bytes. refl;
            })
      | inr g ↦
          let no = not_known (known_at os.known_symbolics i) g in
          rw (f, g)
            (record {
              none_cached = ground arith;
              not_concrete = f;
              still = refl;
              updates = λ bytes. refl;
            })
    ]
  ]

  size-forget : (i : ℕ) (os : ObjectState) → (forget i os).size ≡ os.size
  size-forget i os = ground arith

  forget-IsFlush :
      (i : ℕ) (os : ObjectState)
      → i < os.size
      → IsCoherent apply Possible os
      → is_byte_flushed os i ≡ true
      → IsFlush apply Possible os (forget i os)
  forget-IsFlush i os l c f =
      let gone = forget-IsForgotten i os (c i l) in
      let size = size-forget i os in
      let other = λ (j : ℕ) (n : (j == i) ≡ false). forget-IsSameAt i j os n in
      let byte_here = λ (bytes : ℕ → ℕ → ℕ).
        ap (value_or apply bytes (stored apply (forget i os) bytes i)) gone.none_cached in
      record {
        coherent = λ j h. elim (Bool-cases (j == i)) [
          | inl g ↦
              subst (λ x. IsCoherentAt apply Possible (forget i os) x) (sym ((==_iff j i).0 g))
                (record {
                  wide = λ value e. let n = gone.none_cached in cc;
                  exclusive = let n = gone.not_concrete in ground arith;
                  unflushed = λ h. let n = gone.still in cc;
                  flushed = λ h bytes possible. byte_here bytes;
                })
          | inr g ↦
              IsSameAt-IsCoherentAt apply Possible os (forget i os) j (other j g)
                (c j (omega arith))
        ];
        size = size;
        bytes_same = λ bytes j possible h. elim (Bool-cases (j == i)) [
          | inl g ↦
              subst (λ x. byte apply (forget i os) bytes x ≡ byte apply os bytes x)
                (sym ((==_iff j i).0 g))
                (byte_here bytes ∙ gone.updates bytes ∙ sym ((c i l).flushed f bytes possible))
          | inr g ↦ byte-IsSameAt apply os (forget i os) j bytes (other j g)
        ];
        still_flushed = λ j h. elim (Bool-cases (j == i)) [
          | inl g ↦
              let same : j ≡ i = (==_iff j i).0 g in
              subst (λ x. is_byte_flushed (forget i os) x ≡ true) (sym same) (gone.still ∙ f)
          | inr g ↦ ap not ((other j g).mask) ∙ h
        ];
        still_uncached = λ j h. elim (Bool-cases (j == i)) [
          | inl g ↦
              subst (λ x. cached (forget i os) x ≡ none) (sym ((==_iff j i).0 g)) gone.none_cached
          | inr g ↦ cached-IsSameAt apply os (forget i os) j (other j g) ∙ h
        ];
      }

  flush_byte_for_write-IsFlush :
      (i : ℕ) (os : ObjectState)
      → i < os.size
      → os.size ≤ 2 ^ 32
      → IsCoherent apply Possible os
      → (os' : ObjectState) × (flush_byte_for_write i os ≡ some os')
        × IsFlush apply Possible os os'
        × (cached os' i ≡ none)
  flush_byte_for_write-IsFlush i os l s c =
      let (next, e, f, here) = flush_byte_for_read-IsFlush apply Possible i os l s c in
      let size = f.size in
      let below : i < next.size = omega arith in
      (
        forget i next,
        rw e refl,
        IsFlush-trans apply Possible os next (forget i next) f
            (forget-IsFlush i next below f.coherent here),
        (forget-IsForgotten i next (f.coherent i below)).none_cached,
      )

  flush_bytes_for_write-IsFlush :
      (i n : ℕ) (os : ObjectState)
      → i + n ≤ os.size
      → os.size ≤ 2 ^ 32
      → IsCoherent apply Possible os
      → (os' : ObjectState) × (flush_bytes_for_write i n os ≡ some os')
        × IsFlush apply Possible os os'
        × ((j : ℕ) → i ≤ j → j < i + n → cached os' j ≡ none)
  flush_bytes_for_write-IsFlush i zero os l s c = (
    os,
    refl,
    record {
      coherent = c;
      size = refl;
      bytes_same = λ bytes j possible h. refl;
      still_flushed = λ j h. h;
      still_uncached = λ j h. h;
    },
    λ j a b. absurd (omega arith),
  )
  flush_bytes_for_write-IsFlush i (suc n) os l s c =
      let (next, e, f, here) = flush_byte_for_write-IsFlush i os (omega arith) s c in
      let size = f.size in
      let (os', e', f', there) =
        flush_bytes_for_write-IsFlush (suc i) n next (omega arith) (omega arith) f.coherent in
      (
        os',
        rw e e',
        IsFlush-trans apply Possible os next os' f f',
        λ j a b. elim (Bool-cases (j == i)) [
          | inl g ↦
              let same : i ≡ j = sym ((==_iff j i).0 g) in
              f'.still_uncached j (subst (λ x. cached next x ≡ none) same here)
          | inr g ↦
              let other : (j ≡ i) → ⊥ = λ q. let r = (==_iff j i).1 q in cc in
              there j (grind arith) (omega arith)
        ],
      )

  -- Flushing for a write keeps all bytes, and leaves none of them cached.
  pub flush_for_write-IsFlush :
      (os : ObjectState)
      → os.size ≤ 2 ^ 32
      → IsCoherent apply Possible os
      → (os' : ObjectState) × (flush_for_write os ≡ some os')
        × IsFlush apply Possible os os'
        × ((j : ℕ) → j < os.size → cached os' j ≡ none)
  flush_for_write-IsFlush os s c =
      let masked = with_flush_mask os in
      let first = with_flush_mask-IsFlush apply Possible os c in
      let (os', e, f, uncached) =
        flush_bytes_for_write-IsFlush 0 os.size masked (omega arith) s first.coherent in
      (
        os',
        e,
        IsFlush-trans apply Possible os masked os' first f,
        λ j h. uncached j (omega arith) (omega arith),
      )
