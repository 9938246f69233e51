-- ===== src/Words.antt =====
-- klee/include/klee/Internal/Support/IntEvaluation.h and klee/include/klee/util/Bits.h: constants of
-- a width from 1 to 64 in a `uint64_t`. A shift by 64 or more and a division by 0 are undefined in
-- C and have no meaning here; the callers exclude them.
pub mod Masks
pub mod Modular
pub mod Signed
mod Examples
use xklee.Base.{
  ℕ, zero, suc, ◌+◌, ◌-◌, ◌*◌, ◌/◌, ◌%◌, ◌^◌, Bool, true, false, not, ◌==◌, ltb, leb, if◌then◌else◌,
}
use Prim.Native.Nat.{bit_and}

-- Integers, as a number or the negative of a successor.
pub data ℤ : Type 0 where
  pos negsuc : ℕ → ℤ

-- `<` and `<=` of `int64_t`.
abbrev pub lt_int : ℤ → ℤ → Bool
lt_int (pos a) (pos b) = ltb a b
lt_int (pos a) (negsuc b) = false
lt_int (negsuc a) (pos b) = true
lt_int (negsuc a) (negsuc b) = ltb b a

abbrev pub le_int : ℤ → ℤ → Bool
le_int a b = not (lt_int b a)

-- The number that the low `w` bits stand for in two's complement; the conversion to `int64_t` at 64.
abbrev pub to_int : ℕ → ℕ → ℤ
to_int w x = if ltb x (2 ^ (w - 1)) then pos x else negsuc (2 ^ w - 1 - x)

-- `bits64::truncateToNBits`.
unfoldable pub truncate_to_n_bits : ℕ → ℕ → ℕ
truncate_to_n_bits x n = bit_and x ((2 ^ 64 - 1) / 2 ^ (64 - n))

-- `l << s`, and `>>` of the `int64_t` with these bits, which fills in the sign.
abbrev pub shift_left : ℕ → ℕ → ℕ
shift_left l s = l * 2 ^ s % 2 ^ 64

abbrev pub shift_right_signed : ℕ → ℕ → ℕ
shift_right_signed x s = if ltb x (2 ^ 63) then x / 2 ^ s else x / 2 ^ s + (2 ^ 64 - 2 ^ (64 - s))

unfoldable pub add : ℕ → ℕ → ℕ → ℕ
add l r in_width = truncate_to_n_bits ((l + r) % 2 ^ 64) in_width

unfoldable pub sub : ℕ → ℕ → ℕ → ℕ
sub l r in_width = truncate_to_n_bits ((l + (2 ^ 64 - r)) % 2 ^ 64) in_width

unfoldable pub mul : ℕ → ℕ → ℕ → ℕ
mul l r in_width = truncate_to_n_bits (l * r % 2 ^ 64) in_width

unfoldable pub trunc : ℕ → ℕ → ℕ → ℕ
trunc l out_width in_width = truncate_to_n_bits l out_width

abbrev pub zext : ℕ → ℕ → ℕ → ℕ
zext l out_width in_width = l

unfoldable pub sext : ℕ → ℕ → ℕ → ℕ
sext l out_width in_width =
    let num_invalid_bits = 64 - in_width in
    truncate_to_n_bits (shift_right_signed (shift_left l num_invalid_bits) num_invalid_bits)
      out_width

unfoldable pub udiv : ℕ → ℕ → ℕ → ℕ
udiv l r in_width = truncate_to_n_bits (l / r) in_width

unfoldable pub urem : ℕ → ℕ → ℕ → ℕ
urem l r in_width = truncate_to_n_bits (l % r) in_width

unfoldable pub ashr : ℕ → ℕ → ℕ → ℕ
ashr l shift in_width = truncate_to_n_bits (shift_right_signed (sext l 64 in_width) shift) in_width

abbrev pub lshr : ℕ → ℕ → ℕ → ℕ
lshr l shift in_width = l / 2 ^ shift

unfoldable pub shl : ℕ → ℕ → ℕ → ℕ
shl l shift in_width = truncate_to_n_bits (shift_left l shift) in_width

abbrev pub ult : ℕ → ℕ → ℕ → Bool
ult l r in_width = ltb l r

abbrev pub ule : ℕ → ℕ → ℕ → Bool
ule l r in_width = leb l r

unfoldable pub slt : ℕ → ℕ → ℕ → Bool
slt l r in_width = lt_int (to_int 64 (sext l 64 in_width)) (to_int 64 (sext r 64 in_width))

unfoldable pub sle : ℕ → ℕ → ℕ → Bool
sle l r in_width = le_int (to_int 64 (sext l 64 in_width)) (to_int 64 (sext r 64 in_width))

unfoldable pub sgt : ℕ → ℕ → ℕ → Bool
sgt l r in_width = lt_int (to_int 64 (sext r 64 in_width)) (to_int 64 (sext l 64 in_width))

unfoldable pub sge : ℕ → ℕ → ℕ → Bool
sge l r in_width = le_int (to_int 64 (sext r 64 in_width)) (to_int 64 (sext l 64 in_width))
