-- ===== src/KTest/Examples.antt =====
-- A small test case, as the witness of the theorems, and the bytes of its file.
use xklee.Base.{ℕ, ◌≡◌, refl, some, List, [], ◌∷◌, arith}
use xklee.KTest.Data.{KTest, c_string}
use xklee.KTest.Write.{error, to_file}
use xklee.KTest.Read.{
  from_file, check_header, fread, split_at, read_uint32, read_args, read_objects, read_since_2,
  same_bytes,
}
use xklee.KTest.RoundTrip.{RoundTrips, IsStorable, to_file-from_file}
use xklee.KTest.Errors.{IsLoaded, from_file-IsLoaded, to_file_empty_arg}

abbrev sample : KTest
sample = record {
  version = 3;
  num_args = 1;
  args = (b'a' ∷ []) ∷ [];
  sym_argvs = 0;
  sym_argv_len = 0;
  num_objects = 1;
  objects = record { name = b'x' ∷ []; num_bytes = 2; bytes = 7 ∷ 0 ∷ [] } ∷ [];
}

sample-IsStorable : IsStorable sample
unfolding c_string
sample-IsStorable = ground arith

to_file-from_file_example : RoundTrips (to_file sample) from_file sample
to_file-from_file_example = to_file-from_file sample sample-IsStorable

-- A file of the old format, version 1, with no argument and no object.
abbrev old_file : List ℕ
old_file = b'B' ∷ b'O' ∷ b'U' ∷ b'T' ∷ 10 ∷ 0 ∷ 0 ∷ 0 ∷ 1 ∷ 0 ∷ 0 ∷ 0 ∷ 0 ∷ 0 ∷ 0 ∷ 0 ∷ 0 ∷ []

abbrev old_test : KTest
old_test = record {
  version = 1;
  num_args = 0;
  args = [];
  sym_argvs = 0;
  sym_argv_len = 0;
  num_objects = 0;
  objects = [];
}

old_file_loads : from_file old_file ≡ some (old_test, [])
unfolding from_file check_header fread split_at read_uint32 read_args read_objects read_since_2
    same_bytes
old_file_loads = refl

from_file-IsLoaded_example : IsLoaded old_test
from_file-IsLoaded_example = from_file-IsLoaded old_file [] old_test old_file_loads

abbrev bad : KTest
bad = record sample { num_args = 2; args = (b'a' ∷ []) ∷ [] ∷ [] }

to_file_empty_arg_example : to_file bad ≡ error
unfolding c_string
to_file_empty_arg_example =
    to_file_empty_arg bad ((b'a' ∷ []) ∷ []) [] [] refl refl (ground arith) refl
