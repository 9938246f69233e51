-- ===== src/Objects.antt =====
-- `ObjectState` of klee/lib/Core/Memory.cpp: the bytes of an object, each concrete, cached as an
-- expression or held by the list of updates. A bit array or an array of the object's size is the
-- function that reads it, of which the offsets below `size` matter. A failed assertion is `none`.
-- Owner and reference counts are those of klee/lib/Core/AddressSpace.cpp.
pub mod Meaning
pub mod Byte
pub mod Flush
pub mod Wide
pub mod Initial
pub mod Forget
pub mod Lazy
pub mod Access
mod Examples
use mathlib.Core.Option.{get_or}
use xklee.Base.{
  ℕ, zero, suc, ◌+◌, ◌/◌, ◌%◌, ◌^◌, ◌*◌, ◌-◌, Bool, true, false, not, ◌&&◌, Option, none, some,
  List, [], ◌∷◌, ◌==◌, if◌then◌else◌,
}
use xklee.Exprs.{Expr, constant, read, operation, Updates, no_updates, update, extend, get_width}
use xklee.Solver.{◌>>=◌}

pub record ObjectState : Type 0 where
  pub concrete_store : ℕ → ℕ
  pub concrete_mask : Option (ℕ → Bool)
  pub flush_mask : Option (ℕ → Bool)
  pub known_symbolics : Option (ℕ → Option Expr)
  -- The array under the updates, which is created lazily.
  pub root : Option ℕ
  pub updates : Updates
  pub size : ℕ
  pub read_only : Bool

abbrev pub put {ℓ} : {A : Type ℓ} → ℕ → A → (ℕ → A) → ℕ → A
put i a f j = if j == i then a else f j

abbrev pub bit_or : Bool → Option (ℕ → Bool) → ℕ → Bool
bit_or default none i = default
bit_or default (some mask) i = mask i

abbrev pub put_if : Bool → ℕ → Option (ℕ → Bool) → Option (ℕ → Bool)
put_if b i none = none
put_if b i (some mask) = some (put i b mask)

-- `knownSymbolics[offset]`, null where there is no array.
abbrev pub known_at : Option (ℕ → Option Expr) → ℕ → Option Expr
known_at none i = none
known_at (some known) i = known i

abbrev pub is_known : Option Expr → Bool
is_known none = false
is_known (some e) = true

abbrev pub is_byte_concrete : ObjectState → ℕ → Bool
is_byte_concrete os i = bit_or true os.concrete_mask i

abbrev pub is_byte_flushed : ObjectState → ℕ → Bool
is_byte_flushed os i = not (bit_or true os.flush_mask i)

abbrev pub is_byte_known_symbolic : ObjectState → ℕ → Bool
is_byte_known_symbolic os i = is_known (known_at os.known_symbolics i)

abbrev pub mark_byte_concrete : ℕ → ObjectState → ObjectState
mark_byte_concrete i os = record os { concrete_mask = put_if true i os.concrete_mask }

abbrev pub mark_byte_symbolic : ℕ → ObjectState → ObjectState
mark_byte_symbolic i os = record os {
  concrete_mask = some (put i false (bit_or true os.concrete_mask));
}

abbrev pub mark_byte_unflushed : ℕ → ObjectState → ObjectState
mark_byte_unflushed i os = record os { flush_mask = put_if true i os.flush_mask }

-- Without a mask, the new one marks every byte as flushed.
abbrev pub flushed_mask : ℕ → Option (ℕ → Bool) → ℕ → Bool
flushed_mask i none = λ j. false
flushed_mask i (some mask) = put i false mask

abbrev pub mark_byte_flushed : ℕ → ObjectState → ObjectState
mark_byte_flushed i os = record os { flush_mask = some (flushed_mask i os.flush_mask) }

abbrev pub known_with : ℕ → Option Expr → Option (ℕ → Option Expr) → Option (ℕ → Option Expr)
known_with i value (some known) = some (put i value known)
known_with i none none = none
known_with i (some e) none = some (put i (some e) (λ j. none))

abbrev pub set_known_symbolic : ℕ → Option Expr → ObjectState → ObjectState
set_known_symbolic i value os = record os {
  known_symbolics = known_with i value os.known_symbolics;
}

-- `makeConcrete`.
abbrev pub make_concrete : ObjectState → ObjectState
make_concrete os = record os { concrete_mask = none; flush_mask = none; known_symbolics = none }

abbrev pub initialize_to_zero : ObjectState → ObjectState
initialize_to_zero os = record (make_concrete os) { concrete_store = λ i. 0 }

abbrev pub initialize_to_random : ObjectState → ObjectState
initialize_to_random os = record (make_concrete os) { concrete_store = λ i. 171 }

-- The loop of `makeSymbolic`, over the offsets from `i`.
abbrev pub make_bytes_symbolic : ℕ → ℕ → ObjectState → ObjectState
make_bytes_symbolic i zero os = os
make_bytes_symbolic i (suc n) os =
    make_bytes_symbolic (suc i) n
      (mark_byte_flushed i (set_known_symbolic i none (mark_byte_symbolic i os)))

-- The constructor for symbolic contents, of an array.
abbrev pub of_array : ℕ → ℕ → ObjectState
of_array size array =
    record (make_bytes_symbolic 0 size (record {
      concrete_store = λ i. 0;
      concrete_mask = none;
      flush_mask = none;
      known_symbolics = none;
      root = some array;
      updates = no_updates;
      size = size;
      read_only = false;
    })) { concrete_store = λ i. 0 }

-- The updates with one more.
abbrev pub extend_updates : Expr → Expr → ObjectState → ObjectState
extend_updates index value os = record os { updates = extend index value os.updates }

-- `updates.extend`; the new `UpdateNode` asserts that the value has 8 bits.
abbrev pub extend_byte : Expr → Expr → ObjectState → Option ObjectState
extend_byte index value os =
    if get_width value == 8 then some (extend_updates index value os) else none

abbrev pub cached : ObjectState → ℕ → Option Expr
cached os i =
    if is_byte_concrete os i
    then some (constant 8 (os.concrete_store i))
    else known_at os.known_symbolics i

abbrev pub unset_flush : ℕ → ObjectState → ObjectState
unset_flush i os = record os { flush_mask = some (put i false (bit_or true os.flush_mask)) }

-- `if (!flushMask) flushMask = new BitArray(size, true)`.
abbrev pub with_flush_mask : ObjectState → ObjectState
with_flush_mask os = record os { flush_mask = some (bit_or true os.flush_mask) }

abbrev pub flush_value : ℕ → ObjectState → Option Expr → Option ObjectState
flush_value i os none = none
flush_value i os (some value) = do
  next ← extend_byte (constant 32 i) value os
  some (unset_flush i next)

-- The body of the loop of `flushRangeForRead`.
abbrev pub flush_byte_for_read : ℕ → ObjectState → Option ObjectState
flush_byte_for_read i os = if is_byte_flushed os i then some os else flush_value i os (cached os i)

abbrev pub flush_bytes_for_read : ℕ → ℕ → ObjectState → Option ObjectState
flush_bytes_for_read i zero os = some os
flush_bytes_for_read i (suc n) os = do
  next ← flush_byte_for_read i os
  flush_bytes_for_read (suc i) n next

-- `flushRangeForRead` of all bytes.
abbrev pub flush_for_read : ObjectState → Option ObjectState
flush_for_read os = flush_bytes_for_read 0 os.size (with_flush_mask os)

-- The cached value of the byte is dropped.
abbrev pub forget : ℕ → ObjectState → ObjectState
forget i os =
    if is_byte_concrete os i
    then mark_byte_symbolic i os
    else (if is_byte_known_symbolic os i then set_known_symbolic i none os else os)

-- The body of the loop of `flushRangeForWrite`.
abbrev pub flush_byte_for_write : ℕ → ObjectState → Option ObjectState
flush_byte_for_write i os = do next ← flush_byte_for_read i os; some (forget i next)

abbrev pub flush_bytes_for_write : ℕ → ℕ → ObjectState → Option ObjectState
flush_bytes_for_write i zero os = some os
flush_bytes_for_write i (suc n) os = do
  next ← flush_byte_for_write i os
  flush_bytes_for_write (suc i) n next

abbrev pub flush_for_write : ObjectState → Option ObjectState
flush_for_write os = flush_bytes_for_write 0 os.size (with_flush_mask os)

-- `write8` of a byte, and of an expression, at a constant offset.
abbrev pub write8_concrete : ℕ → ℕ → ObjectState → ObjectState
write8_concrete i value os = mark_byte_unflushed i (
    mark_byte_concrete i
      (set_known_symbolic i none (record os { concrete_store = put i value os.concrete_store })))

abbrev pub write8_at : ℕ → Expr → ObjectState → ObjectState
write8_at i (constant width value) os = write8_concrete i (value % 2 ^ 8) os
write8_at i value os =
    mark_byte_unflushed i (mark_byte_symbolic i (set_known_symbolic i (some value) os))

-- `write16`, `write32` and `write64` for 2, 4 and 8 bytes, from byte `i` on.
abbrev pub write_bytes : Bool → ℕ → ℕ → ℕ → ℕ → ObjectState → ObjectState
write_bytes little_endian num_bytes i zero value os = os
write_bytes little_endian num_bytes offset (suc n) value os =
    let i = num_bytes - suc n in
    let idx = if little_endian then i else num_bytes - i - 1 in
    write_bytes little_endian num_bytes offset n value
      (write8_concrete (offset + idx) (value / 2 ^ (8 * i) % 2 ^ 8) os)
