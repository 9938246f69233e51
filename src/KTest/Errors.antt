-- ===== src/KTest/Errors.antt =====
-- The error paths of klee/lib/Basic/KTest.cpp.
use xklee.Base.{
  ℕ, zero, suc, ◌≡◌, ◌<◌, ◌≤◌, refl, ap, Bool, true, false, Option, none, some, List, [], ◌∷◌, ◌++◌,
  arith, All, ltb, ltb→lt, ◌+◌, ◌%◌, ◌^◌, leb, length, leb→le, subst,
}
use xklee.KTest.Data.{KTest, KTestObject, current_version, c_string}
use xklee.KTest.Write.{error, append_to, fwrite, write_uint32, write_string, write_args, to_file}
use xklee.KTest.Read.{
  Reader, pure, check, split_at, fread, block_of, read_uint32, read_string, check_header, read_args,
  read_object, read_objects, read_since_2, from_file,
}
use xklee.KTest.Read.{◌>>=◌ as bind_read}
use xklee.KTest.RoundTrip.{IsText, string_RoundTrips}

-- Every value that the reader can return satisfies `P`.
abbrev Ensures {κ} : {A : Type 0} → Reader A → (A → Type κ) → Type κ
Ensures {A} r P = (f f' : List ℕ) (a : A) → r f ≡ some (a, f') → P a

module _ {A B : Type 0} where
  ensures-bind {κ} :
      {P : A → Type 0} {Q : B → Type κ} (r : Reader A) (k : A → Reader B)
      → Ensures r P
      → ((a : A) → P a → Ensures (k a) Q)
      → Ensures (bind_read r k) Q
  ensures-bind {P} {Q} r k hr hk f f' b e = go (r f) refl e
    where
      go :
          (o : Option (A × List ℕ))
          → r f ≡ o
          → (elim o [ none ↦ none | some (a, f1) ↦ k a f1 ]) ≡ some (b, f')
          → Q b
      go none p q = cc
      go (some (a, f1)) p q = hk a (hr f f1 a p) f1 f' b q

ensures_any : {A : Type 0} (r : Reader A) → Ensures r (λ _. Unit {0})
ensures_any r f f' a e = tt

ensures-pure {κ} : {B : Type 0} (P : B → Type κ) (b : B) → P b → Ensures (pure b) P
ensures-pure P b p f f' a e = let q : b ≡ a = cc in subst P q p

abbrev HasLength : ℕ → Option (List ℕ × List ℕ) → Type 0
HasLength n none = Unit
HasLength n (some (xs, f)) = length xs ≡ n

split_at-HasLength : (n : ℕ) (f : List ℕ) → HasLength n (split_at n f)
unfolding split_at
split_at-HasLength zero f = refl
split_at-HasLength (suc n) [] = tt
split_at-HasLength (suc n) (b ∷ f) = one_more (split_at n f) (split_at-HasLength n f)
  where
    one_more :
        (o : Option (List ℕ × List ℕ))
        → HasLength n o
        → HasLength (suc n) (elim o [ none ↦ none | some (bs, f') ↦ some (b ∷ bs, f') ])
    one_more none h = tt
    one_more (some (bs, f')) h = ap suc h

split_at-length : (n : ℕ) → Ensures (split_at n) (λ xs. length xs ≡ n)
split_at-length n f f' xs e = subst (HasLength n) e (split_at-HasLength n f)

fread-length : (n : ℕ) → Ensures (fread n) (λ xs. (n ≡ length xs) × (0 < n))
unfolding fread
fread-length n f f' xs e = ground (arith, split_at-length n f f' xs)

check-Ensures : (b : Bool) → Ensures (check b) (λ _. b ≡ true)
check-Ensures true f f' a e = refl
check-Ensures false f f' a e = cc

-- The string is not empty, and its block has a byte more.
abbrev pub IsHeld : List ℕ → Type 0
IsHeld s = (0 < length s) × (length s + 1 < 2 ^ 32)

read_string-IsHeld : Ensures read_string IsHeld
unfolding read_string
read_string-IsHeld = ensures-bind read_uint32 _ (ensures_any read_uint32) (λ len _.
    ensures-bind (check (ltb len (block_of len))) _ (check-Ensures _) (λ _ held f f' s e.
      let (same, positive) = fread-length len f f' s e in
      let below : len < (len + 1) % 2 ^ 32 = ltb→lt len (block_of len) held in
      (omega arith, omega arith)))

read_args-IsHeld : (n : ℕ) → Ensures (read_args n) (λ xs. (n ≡ length xs) × All IsHeld xs)
unfolding read_args
read_args-IsHeld zero = ensures-pure _ [] (refl, tt)
read_args-IsHeld (suc n) =
    let rest = read_args-IsHeld n in
    ensures-bind read_string _ read_string-IsHeld (λ arg a.
      ensures-bind (read_args n) _ rest (λ args h.
        ensures-pure (λ xs. (suc n ≡ length xs) × All IsHeld xs) (arg ∷ args)
          (omega arith, (a, h.1))))

-- The name is held by its block, and the bytes are as many as the object says, and not none.
abbrev pub IsCounted : KTestObject → Type 0
IsCounted o = IsHeld o.name × (o.num_bytes ≡ length o.bytes) × (0 < o.num_bytes)

read_object-IsCounted : Ensures read_object IsCounted
unfolding read_object
read_object-IsCounted = ensures-bind read_string _ read_string-IsHeld (λ name named.
    ensures-bind read_uint32 _ (ensures_any read_uint32) (λ n _.
      ensures-bind (fread n) _ (fread-length n) (λ bytes h.
        ensures-pure IsCounted (record { name = name; num_bytes = n; bytes = bytes })
          (named, h.0, h.1))))

read_objects-IsCounted :
    (n : ℕ) → Ensures (read_objects n) (λ xs. (n ≡ length xs) × All IsCounted xs)
unfolding read_objects
read_objects-IsCounted zero = ensures-pure _ [] (refl, tt)
read_objects-IsCounted (suc n) =
    let rest = read_objects-IsCounted n in
    ensures-bind read_object _ read_object-IsCounted (λ o c.
      ensures-bind (read_objects n) _ rest (λ objects h.
        ensures-pure (λ xs. (suc n ≡ length xs) × All IsCounted xs) (o ∷ objects)
          (omega arith, (c, h.1))))

pub record IsLoaded (bo : KTest) : Type 0 where
  pub version_known : bo.version ≤ current_version
  pub args_counted : bo.num_args ≡ length bo.args
  pub args_held : All IsHeld bo.args
  pub objects_counted : bo.num_objects ≡ length bo.objects
  pub each_counted : All IsCounted bo.objects

-- Whatever the bytes of the file, a test case that is read, without a write behind a block,
-- has a known version, as many arguments and objects as its counts say, arguments and object
-- names that are not empty and that their blocks hold with a 0 behind them (at most 2 ^ 32 -
-- 2 bytes), and in each object as many bytes as its count says, at least one.
pub from_file-IsLoaded :
    (f rest : List ℕ) (bo : KTest) → from_file f ≡ some (bo, rest) → IsLoaded bo
unfolding from_file
from_file-IsLoaded = ensures-bind {P = λ _. Unit} check_header _ (ensures_any check_header) (λ _ _.
    ensures-bind read_uint32 _ (ensures_any read_uint32) (λ version _.
      ensures-bind (check (leb version current_version)) _ (check-Ensures _) (λ _ known.
        ensures-bind read_uint32 _ (ensures_any read_uint32) (λ num_args _.
          ensures-bind (read_args num_args) _ (read_args-IsHeld num_args) (λ args counted.
            ensures-bind (read_since_2 version) _ (ensures_any _) (λ argvs _.
              ensures-bind (read_since_2 version) _ (ensures_any _) (λ argv_len _.
                ensures-bind read_uint32 _ (ensures_any read_uint32) (λ num_objects _.
                  ensures-bind (read_objects num_objects) _ (read_objects-IsCounted num_objects)
                    (λ objects h. ensures-pure IsLoaded _ (record {
                      version_known = leb→le version current_version known;
                      args_counted = counted.0;
                      args_held = counted.1;
                      objects_counted = h.0;
                      each_counted = h.1;
                    }))))))))))

-- An empty string cannot be written: its body is a block of size 0.
write_string_empty : (s : List ℕ) → c_string s ≡ [] → write_string s ≡ error
unfolding write_string write_uint32 fwrite append_to
write_string_empty s e = rw e

write_args_empty :
    (before after : List (List ℕ)) (s : List ℕ) (n : ℕ)
    → All IsText before
    → c_string s ≡ []
    → n ≡ length (before ++ (s ∷ after))
    → write_args n (before ++ (s ∷ after)) ≡ error
unfolding write_args append_to
write_args_empty [] after s zero t e h = absurd (omega arith)
write_args_empty (arg ∷ before) after s zero t e h = absurd (omega arith)
write_args_empty [] after s (suc n) t e h = rw (write_string_empty s e)
write_args_empty (arg ∷ before) after s (suc n) t e h =
    rw ((string_RoundTrips arg t.0).writes, write_args_empty before after s n t.1 e (omega arith))

-- A test case with counted arguments, one of which is the empty string behind arguments that
-- can be written, is not saved: writing it fails.
pub to_file_empty_arg :
    (bo : KTest) (before after : List (List ℕ)) (s : List ℕ)
    → bo.args ≡ before ++ (s ∷ after)
    → bo.num_args ≡ length bo.args
    → All IsText before
    → c_string s ≡ []
    → to_file bo ≡ error
unfolding to_file append_to write_uint32 fwrite
to_file_empty_arg bo before after s a n t e =
    rw (a, write_args_empty before after s bo.num_args t e (rw (← a) n))
