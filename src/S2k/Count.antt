-- ===== src/S2k/Count.antt =====
-- openpgp/s2k/s2k.go and s2k_config.go: iteration counts and memory sizes in one octet.
pub mod Laws
use go_crypto.Base.{
  ℕ, zero, suc, ◌+◌, ◌*◌, ◌/◌, ◌^◌, Bool, true, false, ◌||◌, Option, none, some, bit_and, Result,
  ok, err, panic, ltb, leb, ◌==◌, if◌then◌else◌,
}

-- `decodeCount`
unfoldable pub decode_count : ℕ → ℕ
decode_count c = (16 + bit_and c 15) * 2 ^ (c / 2 ^ 4 + 6)

-- The loops of `encodeCount` and `encodeMemory`, with `left` octets to go from `encoded` on: the first
-- that stands for `i` at least.
unfoldable pub find_from : (ℕ → ℕ) → ℕ → ℕ → ℕ → ℕ → ℕ
find_from value last zero encoded i = last
find_from value last (suc left) encoded i =
    if leb i (value encoded) then encoded else find_from value last left (encoded + 1) i

-- `encodeCount`
unfoldable pub encode_count : ℕ → Result ℕ
encode_count i =
    if ltb i 65536 || ltb 65011712 i then panic else ok (find_from decode_count 255 160 96 i)

-- `decodeMemory` of an exponent below 32, in a uint32.
unfoldable pub decode_memory : ℕ → ℕ
decode_memory memory_exponent = if ltb memory_exponent 32 then 2 ^ memory_exponent else 0

-- `encodeMemory`
unfoldable pub encode_memory : ℕ → ℕ → Result ℕ
encode_memory memory parallelism =
    if ltb memory (8 * parallelism) || ltb 2147483648 memory
    then panic
    else ok (find_from decode_memory 31 28 3 memory)

-- `Config.EncodedCount` of `S2KCount`; none is a nil config.
unfoldable pub encoded_count : Option ℕ → Result ℕ
encoded_count none = ok 224
encoded_count (some i) =
    if i == 0
    then ok 224
    else encode_count (if ltb i 65536 then 65536 else if ltb 65011712 i then 65011712 else i)

pub record Argon2Config : Type 0 where
  pub number_of_passes : ℕ
  pub degree_of_parallelism : ℕ
  pub memory : ℕ

-- `Argon2Config.Passes`
unfoldable pub passes_of : Option Argon2Config → ℕ
passes_of none = 3
passes_of (some c) = if c.number_of_passes == 0 then 3 else c.number_of_passes

-- `Argon2Config.Parallelism`
unfoldable pub parallelism_of : Option Argon2Config → ℕ
parallelism_of none = 4
parallelism_of (some c) = if c.degree_of_parallelism == 0 then 4 else c.degree_of_parallelism

-- `Argon2Config.EncodedMemory`
unfoldable pub encoded_memory : Option Argon2Config → Result ℕ
unfolding parallelism_of
encoded_memory none = ok 16
encoded_memory (some c) =
    let parallelism = parallelism_of (some c) in
    let lower_bound = parallelism * 8 in
    if c.memory == 0
    then ok 16
    else encode_memory
        (if ltb c.memory lower_bound
          then lower_bound
          else if ltb 2147483648 c.memory
          then 2147483648
          else c.memory)
        parallelism
