-- ===== src/KTest/Read.antt =====
-- The reading half of klee/lib/Basic/KTest.cpp: a parser of the bytes left; `none` is the way to
-- the label `error`, after which nothing of the file is used, or a write behind a block, which is
-- undefined. Allocations succeed.
use xklee.Base.{
  ℕ, zero, suc, ◌+◌, ◌*◌, ◌%◌, ◌^◌, Bool, true, false, ◌&&◌, ◌||◌, Option, none, some, List, [],
  ◌∷◌, if◌then◌else◌, ◌==◌, leb, ltb,
}
use xklee.KTest.Data.{KTest, KTestObject, current_version, ktest_magic, bout_magic}

abbrev pub Reader : Type 0 → Type 0
Reader A = List ℕ → Option (A × List ℕ)

infixl 5 ◌>>=◌ ◌>>◌
abbrev pub ◌>>=◌ : {A B : Type 0} → Reader A → (A → Reader B) → Reader B
◌>>=◌ m k f = elim (m f) [ none ↦ none | some (a, f') ↦ k a f' ]

abbrev pub ◌>>◌ : {B : Type 0} → Reader (Unit {0}) → Reader B → Reader B
m >> k = m >>= λ _. k

abbrev pub pure : {A : Type 0} → A → Reader A
pure a f = some (a, f)

abbrev pub check : Bool → Reader (Unit {0})
check true f = some (tt, f)
check false f = none

-- The next `n` bytes, if there are as many.
unfoldable pub split_at : ℕ → Reader (List ℕ)
split_at zero f = some ([], f)
split_at (suc n) [] = none
split_at (suc n) (b ∷ f) = elim (split_at n f) [ none ↦ none | some (bs, f') ↦ some (b ∷ bs, f') ]

-- `fread(buf, size, 1, f)` held against 1.
unfoldable pub fread : ℕ → Reader (List ℕ)
fread size = if size == 0 then (λ _. none) else split_at size

unfoldable pub read_uint32 : Reader ℕ
read_uint32 (a ∷ b ∷ c ∷ d ∷ f) = some (((((a * 256 + b) * 256 + c) * 256) + d) % 2 ^ 32, f)
read_uint32 _ = none

-- The size that `malloc(len+1)` is asked for, in `unsigned`.
abbrev pub block_of : ℕ → ℕ
block_of len = (len + 1) % 2 ^ 32

-- The block has to hold the `len` bytes that are read and the 0 at index `len`: for a length field
-- 2 ^ 32 - 1 it has no byte.
unfoldable pub read_string : Reader (List ℕ)
read_string = do len ← read_uint32; check (ltb len (block_of len)); fread len

unfoldable pub same_bytes : List ℕ → List ℕ → Bool
same_bytes [] [] = true
same_bytes (a ∷ as') (b ∷ bs) = a == b && same_bytes as' bs
same_bytes _ _ = false

unfoldable pub check_header : Reader (Unit {0})
check_header = do
  header ← fread 5
  check (same_bytes header ktest_magic || same_bytes header bout_magic)

unfoldable pub read_args : ℕ → Reader (List (List ℕ))
read_args zero = pure []
read_args (suc n) = do arg ← read_string; args ← read_args n; pure (arg ∷ args)

unfoldable pub read_object : Reader KTestObject
read_object = do
  name ← read_string
  num_bytes ← read_uint32
  bytes ← fread num_bytes
  pure (record { name = name; num_bytes = num_bytes; bytes = bytes })

unfoldable pub read_objects : ℕ → Reader (List KTestObject)
read_objects zero = pure []
read_objects (suc n) = do o ← read_object; objects ← read_objects n; pure (o ∷ objects)

-- Before version 2 the two fields are not in the file, and `calloc` left them 0.
unfoldable pub read_since_2 : ℕ → Reader ℕ
read_since_2 version = if leb 2 version then read_uint32 else pure 0

unfoldable pub from_file : Reader KTest
from_file = do
  check_header
  version ← read_uint32
  check (leb version current_version)
  num_args ← read_uint32
  args ← read_args num_args
  sym_argvs ← read_since_2 version
  sym_argv_len ← read_since_2 version
  num_objects ← read_uint32
  objects ← read_objects num_objects
  pure (record {
    version = version;
    num_args = num_args;
    args = args;
    sym_argvs = sym_argvs;
    sym_argv_len = sym_argv_len;
    num_objects = num_objects;
    objects = objects;
  })
