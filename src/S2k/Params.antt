-- ===== src/S2k/Params.antt =====
-- openpgp/s2k/s2k.go: the parameters of a transform, and how they are made, read and written.
pub mod Laws
pub mod Generate
use go_crypto.Base.{
  ℕ, zero, suc, ◌+◌, ◌-◌, ◌*◌, Bool, true, false, ◌||◌, ◌&&◌, Option, none, some, List, [], ◌∷◌,
  ◌++◌, length, take, drop, replicate, get_or, Bytes, Result, ok, err, panic, stuck, unsupported,
  ◌>>=◌, ◌>>◌, fail_if, ◌==◌, ltb, if◌then◌else◌,
}
use go_crypto.ByteUtil.{copy}
use go_crypto.Io.{read_full}
use go_crypto.S2k.Hash.{Hash, sha256, hash_to_hash_id}
use go_crypto.S2k.Count.{Argon2Config, passes_of, parallelism_of, encoded_memory, encoded_count}

abbrev pub simple_s2k : ℕ
simple_s2k = 0

abbrev pub salted_s2k : ℕ
salted_s2k = 1

abbrev pub iterated_salted_s2k : ℕ
iterated_salted_s2k = 3

abbrev pub argon2_s2k : ℕ
argon2_s2k = 4

abbrev pub gnu_s2k : ℕ
gnu_s2k = 101

abbrev pub argon2_salt_size : ℕ
argon2_salt_size = 16

pub record Params : Type 0 where
  pub mode : ℕ
  pub hash_id : ℕ
  pub salt_bytes : Bytes
  pub count_byte : ℕ
  pub passes : ℕ
  pub parallelism : ℕ
  pub memory_exp : ℕ

-- `&Params{mode: mode}`: all else is zero.
abbrev pub new_params : ℕ → Params
new_params mode = record {
  mode = mode;
  hash_id = 0;
  salt_bytes = replicate argon2_salt_size 0;
  count_byte = 0;
  passes = 0;
  parallelism = 0;
  memory_exp = 0;
}

-- How long the slice `params.salt()` is.
unfoldable pub salt_size : Params → ℕ
salt_size p =
    if p.mode == salted_s2k || p.mode == iterated_salted_s2k
    then 8
    else if p.mode == argon2_s2k
    then argon2_salt_size
    else 0

-- `Params.salt`
unfoldable pub salt : Params → Bytes
unfolding salt_size
salt p = take (salt_size p) p.salt_bytes

-- What is copied to `params.salt()` stands in `saltBytes`.
unfoldable pub copy_salt : Params → Bytes → Params
unfolding salt
copy_salt p bs = record p { salt_bytes = copy (salt p) bs ++ drop (salt_size p) p.salt_bytes }

-- `Params.Dummy`
unfoldable pub dummy : Params → Bool
dummy p = p.mode == gnu_s2k

-- `Config`; `hash` is none where the field is zero.
pub record Config : Type 0 where
  pub s2k_mode : ℕ
  pub hash : Option Hash
  pub argon2_config : Option Argon2Config
  pub s2k_count : ℕ
  pub passphrase_is_high_entropy : Bool

-- `Config.hash`
unfoldable pub hash_of : Option Config → Hash
hash_of none = sha256
hash_of (some c) = elim c.hash [ none ↦ sha256 | some h ↦ h ]

unfoldable pub hash_id_of : Option Config → Result ℕ
unfolding hash_of
hash_id_of c = elim (hash_to_hash_id (hash_of c)) [
  | none ↦ err (unsupported "no such hash")
  | some id ↦ ok id
]

-- The parameters of the iterated mode, which `Generate` falls back to.
unfoldable pub iterated_params : Option Config → Option ℕ → Result Params
unfolding hash_id_of
iterated_params c count = do
  id ← hash_id_of c
  octet ← encoded_count count
  ok (record (new_params iterated_salted_s2k) { hash_id = id; count_byte = octet })

unfoldable pub argon2_params : Option Argon2Config → Result Params
argon2_params c = do
  octet ← encoded_memory c
  ok (record (new_params argon2_s2k) {
    passes = passes_of c;
    parallelism = parallelism_of c;
    memory_exp = octet;
  })

unfoldable pub salted_params : Option Config → Result Params
salted_params c = do id ← hash_id_of c; ok (record (new_params salted_s2k) { hash_id = id })

unfoldable pub params_for : Option Config → Result Params
unfolding iterated_params argon2_params salted_params
params_for none = iterated_params none none
params_for (some c) =
    if c.s2k_mode == argon2_s2k
    then argon2_params c.argon2_config
    else if c.passphrase_is_high_entropy && c.s2k_mode == salted_s2k
    then salted_params (some c)
    else iterated_params (some c) (some c.s2k_count)

-- `c.S2KMode = IteratedSaltedS2K`, where `Generate` falls back to that mode with a hash function at hand.
unfoldable pub config_after : Option Config → Option Config
config_after none = none
config_after (some c) =
    if c.s2k_mode == argon2_s2k || c.passphrase_is_high_entropy && c.s2k_mode == salted_s2k
    then some c
    else elim (hash_to_hash_id (hash_of (some c))) [
      | none ↦ some c
      | some id ↦ some (record c { s2k_mode = iterated_salted_s2k })
    ]

-- `io.ReadFull(rand, params.salt())`, and the random bytes that are left.
unfoldable pub with_salt : Bytes → Params → Result (Params × Bytes)
with_salt rand p = do
  (bs, rest) ← read_full (salt_size p) rand
  ok (record p { salt_bytes = bs ++ drop (salt_size p) p.salt_bytes }, rest)

-- `Generate`: the parameters with the random bytes that are left, and the config as it leaves it.
unfoldable pub generate : Bytes → Option Config → Result (Params × Bytes) × Option Config
unfolding params_for config_after with_salt
generate rand c = (params_for c >>= with_salt rand, config_after c)

unfoldable pub parse_simple : Bytes → Result (Params × Bytes)
parse_simple src = do
  (buf, rest) ← read_full 1 src
  ok (record (new_params simple_s2k) { hash_id = get_or buf 0 0 }, rest)

unfoldable pub parse_salted : Bytes → Result (Params × Bytes)
unfolding copy_salt
parse_salted src = do
  (buf, rest) ← read_full 9 src
  let p = record (new_params salted_s2k) { hash_id = get_or buf 0 0 }
  ok (copy_salt p (take 8 (drop 1 buf)), rest)

unfoldable pub parse_iterated : Bytes → Result (Params × Bytes)
unfolding copy_salt
parse_iterated src = do
  (buf, rest) ← read_full 10 src
  let p = record (new_params iterated_salted_s2k) {
    hash_id = get_or buf 0 0;
    count_byte = get_or buf 9 0;
  }
  ok (copy_salt p (take 8 (drop 1 buf)), rest)

unfoldable pub parse_argon2 : Bytes → Result (Params × Bytes)
unfolding copy_salt
parse_argon2 src = do
  (buf, rest) ← read_full 19 src
  let p = record (new_params argon2_s2k) {
    passes = get_or buf 16 0;
    parallelism = get_or buf 17 0;
    memory_exp = get_or buf 18 0;
  }
  ok (copy_salt p (take 16 buf), rest)

-- `buf[1] == 'G' && buf[2] == 'N' && buf[3] == 'U' && buf[4] == 1`
abbrev is_gnu_dummy : Bytes → Bool
is_gnu_dummy buf =
    get_or buf 1 0 == 71 && get_or buf 2 0 == 78 && get_or buf 3 0 == 85 && get_or buf 4 0 == 1

unfoldable pub parse_gnu : Bytes → Result (Params × Bytes)
parse_gnu src = do
  (buf, rest) ← read_full 5 src
  if is_gnu_dummy buf
      then ok (record (new_params gnu_s2k) { hash_id = get_or buf 0 0 }, rest)
      else err (unsupported "GNU S2K extension")

-- `ParseIntoParams`
unfoldable pub parse_into_params : Bytes → Result (Params × Bytes)
unfolding parse_simple parse_salted parse_iterated parse_argon2 parse_gnu
parse_into_params src = do
  (buf, rest) ← read_full 1 src
  let mode = get_or buf 0 0
  if mode == simple_s2k
      then parse_simple rest
      else if mode == salted_s2k
      then parse_salted rest
      else if mode == iterated_salted_s2k
      then parse_iterated rest
      else if mode == argon2_s2k
      then parse_argon2 rest
      else if mode == gnu_s2k
      then parse_gnu rest
      else err (unsupported "S2K function")

-- `Params.Serialize`, to a writer that does not fail.
unfoldable pub serialize : Params → Bytes
unfolding dummy salt
serialize p =
    let id = if p.mode == argon2_s2k then [] else p.hash_id ∷ [] in
    let count = if p.mode == iterated_salted_s2k then p.count_byte ∷ [] else [] in
    let argon2 =
      if p.mode == argon2_s2k then p.passes ∷ p.parallelism ∷ p.memory_exp ∷ [] else [] in
    let behind =
      if dummy p
      then 71 ∷ 78 ∷ 85 ∷ 1 ∷ []
      else if ltb 0 p.mode
      then salt p ++ (count ++ argon2)
      else [] in
    p.mode ∷ id ++ behind
