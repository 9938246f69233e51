-- ===== src/Words/Examples.antt =====
-- The laws of Words at bytes.
use xklee.Base.{◌+◌, ◌-◌, ◌*◌, ◌%◌, ◌^◌, ◌≡◌, refl, arith}
use xklee.Words.{
  lt_int, le_int, to_int, truncate_to_n_bits, add, sub, mul, shl, sext, slt, sle, sgt, sge, ashr,
}
use xklee.Words.Modular.{ops_mod}
use xklee.Words.Signed.{comparisons_signed}

sext-byte : sext 0xf0 16 8 ≡ 0xfff0
unfolding sext truncate_to_n_bits
sext-byte = refl

ashr-byte : ashr 0xf0 2 8 ≡ 0xfc
unfolding ashr sext truncate_to_n_bits
ashr-byte = refl

ops_mod_example :
    (add 200 100 8 ≡ (200 + 100) % 2 ^ 8)
    × (sub 200 100 8 ≡ (200 + (2 ^ 64 - 100)) % 2 ^ 8)
    × (mul 200 100 8 ≡ 200 * 100 % 2 ^ 8)
    × (shl 200 3 8 ≡ 200 * 2 ^ 3 % 2 ^ 8)
ops_mod_example = ops_mod 200 100 3 8 (omega arith) (omega arith) (omega arith) (omega arith)

comparisons_signed_example :
    (slt 0xf0 0x10 8 ≡ lt_int (to_int 8 0xf0) (to_int 8 0x10))
    × (sle 0xf0 0x10 8 ≡ le_int (to_int 8 0xf0) (to_int 8 0x10))
    × (sgt 0xf0 0x10 8 ≡ lt_int (to_int 8 0x10) (to_int 8 0xf0))
    × (sge 0xf0 0x10 8 ≡ le_int (to_int 8 0x10) (to_int 8 0xf0))
comparisons_signed_example =
    comparisons_signed 0xf0 0x10 8 (omega arith) (omega arith) (omega arith) (omega arith)
