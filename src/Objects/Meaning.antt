-- ===== src/Objects/Meaning.antt =====
-- What the bytes of an `ObjectState` (klee/lib/Core/Memory.cpp) are worth, and the invariants that
-- its comment on the cache names.
use xklee.Base.{
  ℕ, ◌≡◌, ◌<◌, refl, ap, sym, ◌∙◌, Bool, true, false, ◌&&◌, ◌||◌, Option, none, some, List, ◌==◌,
  ◌%◌, ◌^◌, arith, if◌then◌else◌,
}
use xklee.Exprs.{Expr, Updates, no_updates, update, eval, eval_updates, eval_kids, get_width}
use xklee.Objects.{
  ObjectState, bit_or, put_if, known_at, known_with, is_known, is_byte_concrete, is_byte_flushed,
  is_byte_known_symbolic, cached,
}

pub bit_or-put_if :
    (i j : ℕ) (mask : Option (ℕ → Bool))
    → bit_or true (put_if true i mask) j ≡ (if j == i then true else bit_or true mask j)
bit_or-put_if i j none = ground arith
bit_or-put_if i j (some mask) = refl

pub known_at-known_with :
    (i j : ℕ) (value : Option Expr) (known : Option (ℕ → Option Expr))
    → known_at (known_with i value known) j ≡ (if j == i then value else known_at known j)
known_at-known_with i j value (some known) = refl
known_at-known_with i j none none = ground arith
known_at-known_with i j (some e) none = refl

module _ (apply : ℕ → List ℕ → List ℕ → ℕ) where
  -- Byte `n` under updates of an array where it is `base`.
  unfoldable pub updated : (ℕ → ℕ → ℕ) → Updates → ℕ → ℕ → ℕ
  updated bytes no_updates base n = base
  updated bytes (update i v us) base n =
      let older = updated bytes us base n in
      if eval apply bytes i % 2 ^ 32 == n then eval apply bytes v else older

  pub eval_updates-updated :
      (bytes : ℕ → ℕ → ℕ) (us : Updates) (a n : ℕ)
      → eval_updates apply bytes us a n ≡ updated bytes us (bytes a n) n
  unfolding eval eval_updates eval_kids updated
  eval_updates-updated bytes no_updates a n = refl
  eval_updates-updated bytes (update i v us) a n =
      let older = eval_updates-updated bytes us a n in ground arith

  -- An array that is not created yet is all 0.
  abbrev pub base_of : Option ℕ → (ℕ → ℕ → ℕ) → ℕ → ℕ
  base_of none bytes n = 0
  base_of (some a) bytes n = bytes a n

  abbrev pub stored : ObjectState → (ℕ → ℕ → ℕ) → ℕ → ℕ
  stored os bytes n = updated bytes os.updates (base_of os.root bytes n) n

  abbrev pub value_or : (ℕ → ℕ → ℕ) → ℕ → Option Expr → ℕ
  value_or bytes default none = default
  value_or bytes default (some e) = eval apply bytes e

  -- The contents of an object where `bytes` are those of the arrays.
  abbrev pub byte : ObjectState → (ℕ → ℕ → ℕ) → ℕ → ℕ
  byte os bytes i = value_or bytes (stored os bytes i) (cached os i)

  -- Nothing at this byte differs.
  pub record IsSameAt (os os' : ObjectState) (i : ℕ) : Type 0 where
    pub concrete : is_byte_concrete os' i ≡ is_byte_concrete os i
    pub known : known_at os'.known_symbolics i ≡ known_at os.known_symbolics i
    pub store : os'.concrete_store i ≡ os.concrete_store i
    pub mask : bit_or true os'.flush_mask i ≡ bit_or true os.flush_mask i
    pub updates : (bytes : ℕ → ℕ → ℕ) → stored os' bytes i ≡ stored os bytes i

  pub cached-IsSameAt :
      (os os' : ObjectState) (i : ℕ) → IsSameAt os os' i → cached os' i ≡ cached os i
  cached-IsSameAt os os' i s =
      let c = s.concrete in let k = s.known in let t = s.store in ground arith

  pub byte-IsSameAt :
      (os os' : ObjectState) (i : ℕ) (bytes : ℕ → ℕ → ℕ)
      → IsSameAt os os' i
      → byte os' bytes i ≡ byte os bytes i
  byte-IsSameAt os os' i bytes s =
      let u = s.updates bytes in rw (cached-IsSameAt os os' i s, u) refl

module _ (apply : ℕ → List ℕ → List ℕ → ℕ) (Possible : (ℕ → ℕ → ℕ) → Type 0) where
  -- The cache invariants at a byte, with 8 bits for what is cached, and that a flushed byte is the one of the updates, under the
  -- bytes that are possible.
  pub record IsCoherentAt (os : ObjectState) (i : ℕ) : Type 0 where
    pub wide : (value : Expr) → cached os i ≡ some value → get_width value ≡ 8
    pub exclusive : (is_byte_concrete os i && is_byte_known_symbolic os i) ≡ false
    pub unflushed :
        is_byte_flushed os i ≡ false → (is_byte_concrete os i || is_byte_known_symbolic os i) ≡ true
    pub flushed :
        is_byte_flushed os i ≡ true
        → (bytes : ℕ → ℕ → ℕ) → Possible bytes
        → byte apply os bytes i ≡ stored apply os bytes i

  abbrev pub IsCoherent : ObjectState → Type 0
  IsCoherent os = (i : ℕ) → i < os.size → IsCoherentAt os i

  pub IsSameAt-IsCoherentAt :
      (os os' : ObjectState) (i : ℕ)
      → IsSameAt apply os os' i
      → IsCoherentAt os i
      → IsCoherentAt os' i
  IsSameAt-IsCoherentAt os os' i s c =
      let a = s.concrete in
      let k = ap is_known s.known in
      let m = s.mask in
      record {
        wide = λ value e. c.wide value (sym (cached-IsSameAt apply os os' i s) ∙ e);
        exclusive = let x = c.exclusive in ground arith;
        unflushed = λ h. let x = c.unflushed (ground arith) in ground arith;
        flushed = λ h bytes possible.
            byte-IsSameAt apply os os' i bytes s
            ∙ c.flushed (ground arith) bytes possible
            ∙ sym (s.updates bytes);
      }
