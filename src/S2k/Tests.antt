-- ===== src/S2k/Tests.antt =====
-- Concrete parameters, and a small hash.
use go_crypto.Base.{
  ℕ, ◌<◌, true, false, none, some, [], ◌∷◌, ◌++◌, length, take, replicate, Bytes, ok, ◌⊎◌, ◌≡◌,
  refl, arith,
}
use go_crypto.Io.{read_full}
use go_crypto.S2k.Hash.{hash_to_hash_id}
use go_crypto.S2k.Count.{
  Argon2Config, passes_of, parallelism_of, encoded_memory, encoded_count, decode_count,
}
use go_crypto.S2k.Count.Laws.{IsFirst, clamp_count, encoded_count_lem}
use go_crypto.S2k.Params.{
  Params, Config, new_params, salt_size, salt, hash_id_of, generate, parse_into_params, serialize,
  iterated_salted_s2k, salted_s2k, argon2_s2k,
}
use go_crypto.S2k.Params.Laws.{IsParams, is_iterated, parse_into_params-serialize}
use go_crypto.S2k.Params.Generate.{generate-IsParams}
use go_crypto.S2k.Stretch.{salted, iterated}
use go_crypto.S2k.Stretch.Laws.{IsKey, cycle, iterated-IsKey}
use go_crypto.S2k.Cache.{get_or_compute_derived_key, IsEmptied, get_or_compute_never_hits}

abbrev salt_8 : Bytes
salt_8 = 1 ∷ 2 ∷ 3 ∷ 4 ∷ 5 ∷ 6 ∷ 7 ∷ 8 ∷ []

abbrev word : Bytes
word = 112 ∷ 119 ∷ []

-- A hash of two bytes: the length, and the first byte.
abbrev small_sum : Bytes → Bytes
small_sum bs = length bs ∷ 7 ∷ []

small_sum_some : (bs : Bytes) → 0 < length (small_sum bs)
small_sum_some bs = omega arith

abbrev threads : Argon2Config
threads = record { number_of_passes = 1; degree_of_parallelism = 8; memory = 100 }

encoded_count_lem_example :
    (0 < 100000
      → (r : ℕ) × (encoded_count (some 100000) ≡ ok r)
        × IsFirst decode_count 0 255 (clamp_count 100000) r)
    × (encoded_count (some 0) ≡ ok 224)
    × (encoded_count none ≡ ok 224)
encoded_count_lem_example = encoded_count_lem 100000

abbrev stretched : Params
stretched = record (new_params iterated_salted_s2k) {
  hash_id = 8;
  salt_bytes = salt_8 ++ replicate 8 0;
  count_byte = 224;
}

parse_into_params-serialize_example :
    parse_into_params (serialize stretched ++ word) ≡ ok (stretched, word)
parse_into_params-serialize_example =
    parse_into_params-serialize stretched word (is_iterated 8 224 salt_8 refl)

abbrev simple_config : Config
simple_config = record {
  s2k_mode = 0;
  hash = none;
  argon2_config = none;
  s2k_count = 0;
  passphrase_is_high_entropy = false;
}

generated : (generate (salt_8 ++ word) (some simple_config)).0 ≡ ok (stretched, word)
unfolding generate hash_to_hash_id encoded_count read_full salt_size
generated = refl

generate-IsParams_example :
    IsParams stretched
    × (salt stretched ++ word ≡ salt_8 ++ word)
    × (length word < length (salt_8 ++ word))
    × (((stretched.mode ≡ argon2_s2k)
          × (stretched.passes ≡ passes_of none)
          × (stretched.parallelism ≡ parallelism_of none)
          × (encoded_memory none ≡ ok stretched.memory_exp))
        ⊎ ((stretched.mode ≡ iterated_salted_s2k)
            × (hash_id_of (some simple_config) ≡ ok stretched.hash_id)
            × (encoded_count (some 0) ≡ ok stretched.count_byte))
        ⊎ ((stretched.mode ≡ salted_s2k)
            × (false ≡ true)
            × (hash_id_of (some simple_config) ≡ ok stretched.hash_id)))
generate-IsParams_example =
    generate-IsParams (salt_8 ++ word) word simple_config stretched generated

iterated-IsKey_example :
    IsKey 5
      (λ i. small_sum (replicate i 0 ++ take 23 (cycle 23 (salt_8 ++ word))))
      (iterated small_sum 5 word salt_8 23)
iterated-IsKey_example = iterated-IsKey small_sum small_sum_some 5 23 word salt_8 (omega arith)

get_or_compute_never_hits_example :
    let r =
      get_or_compute_derived_key
        (λ p. ok (λ size w. salted small_sum size w salt_8))
        []
        word
        stretched
        5 in
    (r.0 ≡ salted small_sum 5 word salt_8) × IsEmptied r.1
unfolding IsEmptied
get_or_compute_never_hits_example =
    get_or_compute_never_hits (λ p. ok (λ size w. salted small_sum size w salt_8)) [] word stretched
      5 tt (omega arith)
