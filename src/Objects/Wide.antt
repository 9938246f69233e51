-- ===== src/Objects/Wide.antt =====
-- `write16`, `write32` and `write64` of klee/lib/Core/Memory.cpp, in both byte orders.
use xklee.Base.{
  ℕ, zero, suc, ◌≡◌, ◌<◌, ◌≤◌, ◌+◌, ◌-◌, ◌*◌, ◌/◌, ap, Bool, true, false, List, ◌==◌, ==_iff, ltb,
  ◌%◌, ◌^◌, arith, if◌then◌else◌, inl, inr, Bool-cases,
}
use xklee.Objects.{ObjectState, write8_concrete, write_bytes}
use xklee.Objects.Meaning.{byte}
use xklee.Objects.Byte.{byte-write8_concrete}

-- Where the byte of a significance stands.
abbrev pub place : Bool → ℕ → ℕ → ℕ
place little_endian num_bytes i = if little_endian then i else num_bytes - i - 1

place_eq :
    (little_endian : Bool) (num_bytes offset i k : ℕ)
    → i < num_bytes
    → k < num_bytes
    → (offset + place little_endian num_bytes k == offset + place little_endian num_bytes i)
      ≡ (k == i)
place_eq true num_bytes offset i k a b = ground arith
place_eq false num_bytes offset i k a b = ground arith

module _ (apply : ℕ → List ℕ → List ℕ → ℕ) where
  -- After `write_bytes` of the last `n` of `num_bytes` bytes of a value, in either byte order,
  -- the byte of each significance is that of the value if it was written, and as before if
  -- not.
  pub byte-write_bytes :
      (little_endian : Bool) (num_bytes offset n value k : ℕ) (os : ObjectState) (bytes : ℕ → ℕ → ℕ)
      → n ≤ num_bytes
      → k < num_bytes
      → byte apply
          (write_bytes little_endian num_bytes offset n value os)
          bytes
          (offset + place little_endian num_bytes k)
        ≡ (if ltb k (num_bytes - n)
            then byte apply os bytes (offset + place little_endian num_bytes k)
            else value / 2 ^ (8 * k) % 2 ^ 8)
  byte-write_bytes little_endian num_bytes offset zero value k os bytes a b = ground arith
  byte-write_bytes little_endian num_bytes offset (suc n) value k os bytes a b =
      let i = num_bytes - suc n in
      let written =
        write8_concrete (offset + place little_endian num_bytes i) (value / 2 ^ (8 * i) % 2 ^ 8)
          os in
      let rest =
        byte-write_bytes little_endian num_bytes offset n value k written bytes (omega arith) b in
      let first =
        byte-write8_concrete apply (offset + place little_endian num_bytes i)
          (offset + place little_endian num_bytes k) (value / 2 ^ (8 * i) % 2 ^ 8) os bytes in
      let at = place_eq little_endian num_bytes offset i k (omega arith) b in
      elim (Bool-cases (k == i)) [
        | inl e ↦
            let same : k ≡ i = (==_iff k i).0 e in
            let val : value / 2 ^ (8 * k) % 2 ^ 8 ≡ value / 2 ^ (8 * i) % 2 ^ 8 =
              ap (λ x. value / 2 ^ (8 * x) % 2 ^ 8) same in
            ground arith
        | inr e ↦ ground arith
      ]
