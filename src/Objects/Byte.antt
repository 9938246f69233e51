-- ===== src/Objects/Byte.antt =====
-- `write8` at a constant offset (klee/lib/Core/Memory.cpp).
use mathlib.Core.Option.{some-injective}
use xklee.Base.{
  ℕ, ◌≡◌, ◌<◌, refl, ap, sym, subst, ◌∙◌, true, false, none, some, List, ◌==◌, ◌%◌, ◌^◌, arith,
  if◌then◌else◌, inl, inr, Bool-cases,
}
use xklee.Exprs.{Expr, constant, read, operation, eval, get_width}
use xklee.Objects.{
  ObjectState, is_known, cached, write8_concrete, write8_at, mark_byte_unflushed,
  mark_byte_symbolic, set_known_symbolic,
}
use xklee.Objects.Meaning.{
  bit_or-put_if, known_at-known_with, stored, byte, value_or, IsCoherentAt, IsCoherent, IsSameAt,
  byte-IsSameAt, IsSameAt-IsCoherentAt,
}

module _ (apply : ℕ → List ℕ → List ℕ → ℕ) where
  cached-write8_concrete :
      (i j value : ℕ) (os : ObjectState)
      → cached (write8_concrete i value os) j
        ≡ (if j == i then some (constant 8 value) else cached os j)
  cached-write8_concrete i j value os =
      let c = bit_or-put_if i j os.concrete_mask in
      let k = known_at-known_with i j none os.known_symbolics in ground arith

  pub byte-write8_concrete :
      (i j value : ℕ) (os : ObjectState) (bytes : ℕ → ℕ → ℕ)
      → byte apply (write8_concrete i value os) bytes j
        ≡ (if j == i then value else byte apply os bytes j)
  unfolding eval
  byte-write8_concrete i j value os bytes =
      rw (cached-write8_concrete i j value os)
        (elim (Bool-cases (j == i)) [ inl e ↦ rw e refl | inr e ↦ rw e refl ])

module _ (apply : ℕ → List ℕ → List ℕ → ℕ) (Possible : (ℕ → ℕ → ℕ) → Type 0) where
  write8_concrete-IsSameAt :
      (i j value : ℕ) (os : ObjectState)
      → (j == i) ≡ false
      → IsSameAt apply os (write8_concrete i value os) j
  write8_concrete-IsSameAt i j value os n =
      let c = bit_or-put_if i j os.concrete_mask in
      let f = bit_or-put_if i j os.flush_mask in
      let k = known_at-known_with i j none os.known_symbolics in
      record {
        concrete = ground arith;
        known = ground arith;
        store = ground arith;
        mask = ground arith;
        updates = λ bytes. refl;
      }

  write8_concrete-written :
      (i j value : ℕ) (os : ObjectState)
      → (j == i) ≡ true
      → IsCoherentAt apply Possible (write8_concrete i value os) j
  unfolding get_width
  write8_concrete-written i j value os n =
      let c = bit_or-put_if i j os.concrete_mask in
      let f = bit_or-put_if i j os.flush_mask in
      let k = known_at-known_with i j none os.known_symbolics in
      record {
        wide = λ v e.
            let here : cached (write8_concrete i value os) j ≡ some (constant 8 value) =
              cached-write8_concrete apply i j value os ∙ rw n refl in
            subst (λ x. get_width x ≡ 8) (some-injective _ _ (sym here ∙ e)) refl;
        exclusive = ground arith;
        unflushed = λ h. ground arith;
        flushed = λ h bytes possible. cc;
      }

  pub write8_concrete-IsCoherent :
      (i value : ℕ) (os : ObjectState)
      → IsCoherent apply Possible os
      → IsCoherent apply Possible (write8_concrete i value os)
  write8_concrete-IsCoherent i value os c j l = elim (Bool-cases (j == i)) [
    | inl e ↦ write8_concrete-written i j value os e
    | inr e ↦
        IsSameAt-IsCoherentAt apply Possible os (write8_concrete i value os) j
          (write8_concrete-IsSameAt i j value os e) (c j l)
  ]

  -- An expression that is not constant.
  abbrev write8_symbolic : ℕ → Expr → ObjectState → ObjectState
  write8_symbolic i value os =
      mark_byte_unflushed i (mark_byte_symbolic i (set_known_symbolic i (some value) os))

  write8_symbolic-IsSameAt :
      (i j : ℕ) (value : Expr) (os : ObjectState)
      → (j == i) ≡ false
      → IsSameAt apply os (write8_symbolic i value os) j
  write8_symbolic-IsSameAt i j value os n =
      let f = bit_or-put_if i j os.flush_mask in
      let k = known_at-known_with i j (some value) os.known_symbolics in
      record {
        concrete = ground arith;
        known = ground arith;
        store = refl;
        mask = ground arith;
        updates = λ bytes. refl;
      }

  cached-write8_symbolic :
      (i j : ℕ) (value : Expr) (os : ObjectState)
      → (j == i) ≡ true
      → cached (write8_symbolic i value os) j ≡ some value
  cached-write8_symbolic i j value os n =
      let k = known_at-known_with i j (some value) os.known_symbolics in ground arith

  write8_symbolic-written :
      (i j : ℕ) (value : Expr) (os : ObjectState)
      → (j == i) ≡ true
      → get_width value ≡ 8
      → IsCoherentAt apply Possible (write8_symbolic i value os) j
  write8_symbolic-written i j value os n w =
      let f = bit_or-put_if i j os.flush_mask in
      let k = known_at-known_with i j (some value) os.known_symbolics in
      let known = ap is_known k in
      let here = cached-write8_symbolic i j value os n in
      record {
        wide = λ v e. subst (λ x. get_width x ≡ 8) (some-injective _ _ (sym here ∙ e)) w;
        exclusive = ground arith;
        unflushed = λ h. ground arith;
        flushed = λ h bytes possible. cc;
      }

  symbolic-IsCoherent :
      (i : ℕ) (value : Expr) (os : ObjectState)
      → get_width value ≡ 8
      → IsCoherent apply Possible os
      → IsCoherent apply Possible (write8_symbolic i value os)
  symbolic-IsCoherent i value os w c j l = elim (Bool-cases (j == i)) [
    | inl e ↦ write8_symbolic-written i j value os e w
    | inr e ↦
        IsSameAt-IsCoherentAt apply Possible os (write8_symbolic i value os) j
          (write8_symbolic-IsSameAt i j value os e) (c j l)
  ]

  symbolic-byte :
      (i j : ℕ) (value : Expr) (os : ObjectState) (bytes : ℕ → ℕ → ℕ)
      → byte apply (write8_symbolic i value os) bytes j
        ≡ (if j == i then eval apply bytes value else byte apply os bytes j)
  symbolic-byte i j value os bytes = elim (Bool-cases (j == i)) [
    | inl e ↦
        let pick : eval apply bytes value
            ≡ (if j == i then eval apply bytes value else byte apply os bytes j) =
          rw e refl in
        ap (value_or apply bytes (stored apply os bytes j)) (cached-write8_symbolic i j value os e)
        ∙ pick
    | inr e ↦
        let pick : byte apply os bytes j
            ≡ (if j == i then eval apply bytes value else byte apply os bytes j) =
          rw e refl in
        byte-IsSameAt apply os (write8_symbolic i value os) j bytes
          (write8_symbolic-IsSameAt i j value os e)
        ∙ pick
  ]

  -- A write of 8 bits keeps the invariants and changes the one byte.
  pub write8_at-IsCoherent :
      (i : ℕ) (value : Expr) (os : ObjectState)
      → get_width value ≡ 8
      → IsCoherent apply Possible os
      → IsCoherent apply Possible (write8_at i value os)
  write8_at-IsCoherent i (constant w v) os wide c = write8_concrete-IsCoherent i (v % 2 ^ 8) os c
  write8_at-IsCoherent i (read a us x) os wide c = symbolic-IsCoherent i (read a us x) os wide c
  write8_at-IsCoherent i (operation k o es) os wide c =
      symbolic-IsCoherent i (operation k o es) os wide c

  pub byte-write8_at :
      (i j : ℕ) (value : Expr) (os : ObjectState) (bytes : ℕ → ℕ → ℕ)
      → eval apply bytes value < 2 ^ 8
      → byte apply (write8_at i value os) bytes j
        ≡ (if j == i then eval apply bytes value else byte apply os bytes j)
  unfolding eval
  byte-write8_at i j (constant w v) os bytes l =
      let small : v % 2 ^ 8 ≡ v = omega arith in
      byte-write8_concrete apply i j (v % 2 ^ 8) os bytes
      ∙ ap (λ x. if j == i then x else byte apply os bytes j) small
  byte-write8_at i j (read a us x) os bytes l = symbolic-byte i j (read a us x) os bytes
  byte-write8_at i j (operation k o es) os bytes l = symbolic-byte i j (operation k o es) os bytes
