-- ===== src/KTest/Write.antt =====
-- The writing half of klee/lib/Basic/KTest.cpp. Each function yields the bytes that it appends.
use xklee.Base.{
  ℕ, zero, suc, ◌/◌, ◌%◌, ◌^◌, List, [], ◌∷◌, ◌++◌, if◌then◌else◌, ◌==◌, length, take, ltb,
}
use xklee.KTest.Data.{KTest, KTestObject, current_version, ktest_magic, c_string}

-- `error` is the return value 0; `fault` is a read past the end of an array, undefined in C.
pub data Written : Type 0 where
  done : List ℕ → Written
  error fault : Written

unfoldable pub append_to : List ℕ → Written → Written
append_to xs (done ys) = done (xs ++ ys)
append_to xs error = error
append_to xs fault = fault

infixl 5 ◌>>◌
abbrev pub ◌>>◌ : Written → Written → Written
unfolding append_to
done xs >> k = append_to xs k
error >> k = error
fault >> k = fault

-- `fwrite(buf, size, 1, f)` held against 1.
unfoldable pub fwrite : List ℕ → ℕ → Written
fwrite buf size =
    if ltb (length buf) size then fault else (if size == 0 then error else done (take size buf))

unfoldable pub write_uint32 : ℕ → Written
write_uint32 value =
    done (value / 2 ^ 24 % 256 ∷ value / 2 ^ 16 % 256 ∷ value / 2 ^ 8 % 256 ∷ value % 256 ∷ [])

unfoldable pub write_string : List ℕ → Written
write_string value = do
  write_uint32 (length (c_string value) % 2 ^ 32)
  fwrite (c_string value) (length (c_string value) % 2 ^ 32)

-- `for (i = 0; i < numArgs; i++)`, over the rounds left and the arguments left.
unfoldable pub write_args : ℕ → List (List ℕ) → Written
write_args zero args = done []
write_args (suc n) [] = fault
write_args (suc n) (arg ∷ args) = do write_string arg; write_args n args

unfoldable pub write_object : KTestObject → Written
write_object o = do write_string o.name; write_uint32 o.num_bytes; fwrite o.bytes o.num_bytes

unfoldable pub write_objects : ℕ → List KTestObject → Written
write_objects zero objects = done []
write_objects (suc n) [] = fault
write_objects (suc n) (o ∷ objects) = do write_object o; write_objects n objects

unfoldable pub to_file : KTest → Written
to_file bo = do
  fwrite ktest_magic (length ktest_magic)
  write_uint32 current_version
  write_uint32 bo.num_args
  write_args bo.num_args bo.args
  write_uint32 bo.sym_argvs
  write_uint32 bo.sym_argv_len
  write_uint32 bo.num_objects
  write_objects bo.num_objects bo.objects
