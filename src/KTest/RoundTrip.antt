-- ===== src/KTest/RoundTrip.antt =====
-- The writers of klee/lib/Basic/KTest.cpp followed by its readers.
use xklee.Base.{
  ℕ, zero, suc, ◌%◌, ◌/◌, ◌^◌, ◌≡◌, ◌<◌, refl, ap, some, List, [], ◌∷◌, ◌++◌, arith, All, length,
  Bool, true, lt→ltb, ◌+◌, append_assoc, take-length,
}
use xklee.KTest.Data.{KTest, KTestObject, current_version, ktest_magic, c_string}
use xklee.KTest.Write.{
  Written, done, append_to, fwrite, write_uint32, write_string, write_args, write_object,
  write_objects, to_file,
}
use xklee.KTest.Write.{◌>>◌ as then_write}
use xklee.KTest.Read.{
  Reader, ◌>>=◌, pure, check, split_at, fread, read_uint32, read_string, same_bytes, check_header,
  read_args, read_object, read_objects, read_since_2, from_file,
}

-- The writer emits bytes from which the reader makes `a`, whatever follows them.
pub record RoundTrips {A : Type 0} (w : Written) (r : Reader A) (a : A) : Type 0 where
  pub bytes : List ℕ
  pub writes : w ≡ done bytes
  pub reads : (rest : List ℕ) → r (bytes ++ rest) ≡ some (a, rest)

module _ {A B : Type 0} where
  round_trip-bind :
      {w w' : Written} {r : Reader A} (k : A → Reader B) {a : A} {b : B}
      → RoundTrips w r a
      → RoundTrips w' (k a) b
      → RoundTrips (then_write w w') (r >>= k) b
  unfolding append_to
  round_trip-bind k t u = record {
    bytes = t.bytes ++ u.bytes;
    writes = rw (t.writes, u.writes);
    reads = λ rest.
        rw (append_assoc t.bytes u.bytes rest, t.reads (u.bytes ++ rest), ◌>>=◌) (u.reads rest);
  }

  round_trip-map :
      {w : Written} {r : Reader A} (f : A → B) {a : A}
      → RoundTrips w r a
      → RoundTrips w (r >>= λ x. pure (f x)) (f a)
  round_trip-map f t = record {
    bytes = t.bytes;
    writes = t.writes;
    reads = λ rest. rw (t.reads rest, ◌>>=◌);
  }

round_trip-check :
    {B : Type 0} {w : Written} (r : Reader B) (c : Bool) {b : B}
    → c ≡ true
    → RoundTrips w r b
    → RoundTrips w (check c >>= λ _. r) b
round_trip-check r c e t = rw e t

abbrev pub IsWord : ℕ → Type 0
IsWord n = n < 2 ^ 32

pub uint32_RoundTrips : (v : ℕ) → IsWord v → RoundTrips (write_uint32 v) read_uint32 v
unfolding write_uint32 read_uint32
uint32_RoundTrips v h = record {
  bytes = v / 2 ^ 24 % 256 ∷ v / 2 ^ 16 % 256 ∷ v / 2 ^ 8 % 256 ∷ v % 256 ∷ [];
  writes = refl;
  reads = λ rest. ap (λ (n : ℕ). some (n, rest)) (omega arith);
}

split_at-append : (xs rest : List ℕ) → split_at (length xs) (xs ++ rest) ≡ some (xs, rest)
unfolding split_at
split_at-append [] rest = refl
split_at-append (x ∷ xs) rest = rw (split_at-append xs rest)

-- A block of `n` bytes, `n` not 0.
fwrite-RoundTrips :
    (xs : List ℕ) (n : ℕ) → n ≡ length xs → 0 < n → RoundTrips (fwrite xs n) (fread n) xs
unfolding fwrite fread
fwrite-RoundTrips xs n e h = record {
  bytes = xs;
  writes = rw e (ground (arith, take-length xs));
  reads = λ rest. rw e (ground (arith, split_at-append xs rest));
}

-- A string that the format can hold: not empty, no 0 inside, and a length that fits a word with the 0
-- behind the string counted.
abbrev pub IsText : List ℕ → Type 0
IsText s = (c_string s ≡ s) × (0 < length s) × IsWord (length s + 1)

pub string_RoundTrips : (s : List ℕ) → IsText s → RoundTrips (write_string s) read_string s
unfolding write_string read_string
string_RoundTrips s h =
    let e : length s % 2 ^ 32 ≡ length s = omega arith in
    rw (h.0, e)
      (round_trip-bind _ (uint32_RoundTrips (length s) (omega arith)) (
        round_trip-check (fread (length s)) _ (lt→ltb (length s) _ (omega arith))
          (fwrite-RoundTrips s (length s) refl h.1)))

pub args_RoundTrips :
    (n : ℕ) (args : List (List ℕ))
    → n ≡ length args
    → All IsText args
    → RoundTrips (write_args n args) (read_args n) args
unfolding write_args read_args
args_RoundTrips zero [] e h = record { bytes = []; writes = refl; reads = λ rest. refl }
args_RoundTrips zero (arg ∷ args) e h = absurd (omega arith)
args_RoundTrips (suc n) [] e h = absurd (omega arith)
args_RoundTrips (suc n) (arg ∷ args) e h =
    round_trip-bind (λ x. read_args n >>= λ xs. pure (x ∷ xs)) (string_RoundTrips arg h.0)
      (round_trip-map (λ xs. arg ∷ xs) (args_RoundTrips n args (omega arith) h.1))

-- An object that the format can hold: a name that it can hold, and its bytes, at least one.
abbrev pub IsObject : KTestObject → Type 0
IsObject o = IsText o.name × (o.num_bytes ≡ length o.bytes) × (0 < o.num_bytes) × IsWord o.num_bytes

pub object_RoundTrips : (o : KTestObject) → IsObject o → RoundTrips (write_object o) read_object o
unfolding write_object read_object
object_RoundTrips o h = round_trip-bind _ (string_RoundTrips o.name h.0) (
    round_trip-bind _ (uint32_RoundTrips o.num_bytes h.3) (
      round_trip-map (λ bytes. record { name = o.name; num_bytes = o.num_bytes; bytes = bytes })
        (fwrite-RoundTrips o.bytes o.num_bytes h.1 h.2)))

objects_RoundTrips :
    (n : ℕ) (objects : List KTestObject)
    → n ≡ length objects
    → All IsObject objects
    → RoundTrips (write_objects n objects) (read_objects n) objects
unfolding write_objects read_objects
objects_RoundTrips zero [] e h = record { bytes = []; writes = refl; reads = λ rest. refl }
objects_RoundTrips zero (o ∷ objects) e h = absurd (omega arith)
objects_RoundTrips (suc n) [] e h = absurd (omega arith)
objects_RoundTrips (suc n) (o ∷ objects) e h =
    round_trip-bind (λ x. read_objects n >>= λ xs. pure (x ∷ xs)) (object_RoundTrips o h.0)
      (round_trip-map (λ xs. o ∷ xs) (objects_RoundTrips n objects (omega arith) h.1))

pub header_RoundTrips : RoundTrips (fwrite ktest_magic 5) check_header tt
unfolding fwrite fread split_at check_header same_bytes
header_RoundTrips = record { bytes = ktest_magic; writes = refl; reads = λ rest. refl }

-- A test case that the format can hold.
pub record IsStorable (bo : KTest) : Type 0 where
  pub args_counted : bo.num_args ≡ length bo.args
  pub args_stored : All IsText bo.args
  pub objects_counted : bo.num_objects ≡ length bo.objects
  pub objects_stored : All IsObject bo.objects
  pub num_args_fits : IsWord bo.num_args
  pub num_objects_fits : IsWord bo.num_objects
  pub sym_argvs_fits : IsWord bo.sym_argvs
  pub sym_argv_len_fits : IsWord bo.sym_argv_len

-- A test case whose strings hold no 0 and have from 1 to 2 ^ 32 - 2 bytes, whose objects
-- have at least one byte, and whose counts agree and fit 32 bits is written to a file, and
-- reading the file, whatever follows, gives the test case back with version 3.
pub to_file-from_file :
    (bo : KTest)
    → IsStorable bo
    → RoundTrips (to_file bo) from_file (record bo { version = current_version })
unfolding to_file from_file read_since_2
to_file-from_file bo h = round_trip-bind _ header_RoundTrips (
    round_trip-bind _ (uint32_RoundTrips current_version (omega arith)) (
      round_trip-bind _ (uint32_RoundTrips bo.num_args h.num_args_fits) (
        round_trip-bind _ (args_RoundTrips bo.num_args bo.args h.args_counted h.args_stored) (
          round_trip-bind _ (uint32_RoundTrips bo.sym_argvs h.sym_argvs_fits) (
            round_trip-bind _ (uint32_RoundTrips bo.sym_argv_len h.sym_argv_len_fits) (
              round_trip-bind _ (uint32_RoundTrips bo.num_objects h.num_objects_fits) (
                round_trip-map _ (
                  objects_RoundTrips bo.num_objects bo.objects h.objects_counted
                    h.objects_stored))))))))
