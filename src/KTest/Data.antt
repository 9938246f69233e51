-- ===== src/KTest/Data.antt =====
-- The structs of klee/include/klee/Internal/ADT/KTest.h and the constants of the format.
use xklee.Base.{ℕ, zero, suc, Option, none, some, ◌+◌, ◌%◌, ◌^◌, List, [], ◌∷◌, if◌then◌else◌, ◌==◌}

pub record KTestObject : Type 0 where
  pub name : List ℕ
  pub num_bytes : ℕ
  pub bytes : List ℕ

pub record KTest : Type 0 where
  pub version : ℕ
  pub num_args : ℕ
  pub args : List (List ℕ)
  pub sym_argvs : ℕ
  pub sym_argv_len : ℕ
  pub num_objects : ℕ
  pub objects : List KTestObject

-- `KTEST_VERSION`, which `kTest_getCurrentVersion` returns.
abbrev pub current_version : ℕ
current_version = 3

-- "KTEST"
abbrev pub ktest_magic : List ℕ
ktest_magic = b'K' ∷ b'T' ∷ b'E' ∷ b'S' ∷ b'T' ∷ []

-- "BOUT\n"
abbrev pub bout_magic : List ℕ
bout_magic = b'B' ∷ b'O' ∷ b'U' ∷ b'T' ∷ 10 ∷ []

-- The part of a buffer before its first 0; `strlen` is its length.
unfoldable pub c_string : List ℕ → List ℕ
c_string [] = []
c_string (c ∷ s) = let rest = c_string s in if c == 0 then [] else (c ∷ rest)

-- The loop of `kTest_numBytes`, over the rounds left; `none` is a read past the array's end.
sum_bytes : ℕ → ℕ → List KTestObject → Option ℕ
sum_bytes zero res objects = some res
sum_bytes (suc n) res [] = none
sum_bytes (suc n) res (o ∷ objects) = sum_bytes n ((res + o.num_bytes) % 2 ^ 32) objects

unfoldable pub total_bytes : KTest → Option ℕ
unfolding sum_bytes
total_bytes bo = sum_bytes bo.num_objects 0 bo.objects
