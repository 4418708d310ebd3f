-- ===== src/S2k/Params/Generate.antt =====
-- What `Generate` returns.
use go_crypto.Base.{
  ℕ, ◌<◌, true, Bool-cases, inl, inr, ◌⊎◌, ◌&&◌, ◌==◌, ◌++◌, length, drop, Bytes, some, Result, ok,
  ◌>>=◌, >>=-eq-ok, ◌≡◌, refl, ap, subst, arith, length-append, take-append, ◌∙◌,
}
use go_crypto.Io.{read_full}
use go_crypto.Io.Laws.{read_full_splits}
use go_crypto.S2k.Params.{
  Params, Config, new_params, salt_size, salt, generate, with_salt, params_for, argon2_params,
  salted_params, iterated_params, hash_id_of, salted_s2k, iterated_salted_s2k, argon2_s2k,
}
use go_crypto.S2k.Count.{passes_of, parallelism_of, encoded_memory, encoded_count}
use go_crypto.S2k.Params.Laws.{IsParams, is_salted, is_iterated, is_argon2}

-- The parameters that are chosen, before they have a salt.
data IsBare (c : Config) : Params → Type 0 where
  bare_argon2 :
      (memory_exp : ℕ)
      → encoded_memory c.argon2_config ≡ ok memory_exp
      → IsBare c (record (new_params argon2_s2k) {
        passes = passes_of c.argon2_config;
        parallelism = parallelism_of c.argon2_config;
        memory_exp = memory_exp;
      })
  bare_salted :
      (id : ℕ)
      → c.passphrase_is_high_entropy ≡ true
      → hash_id_of (some c) ≡ ok id
      → IsBare c (record (new_params salted_s2k) { hash_id = id })
  bare_iterated :
      (id count : ℕ)
      → hash_id_of (some c) ≡ ok id
      → encoded_count (some c.s2k_count) ≡ ok count
      → IsBare c (record (new_params iterated_salted_s2k) { hash_id = id; count_byte = count })

ok-eq : {x y : Params} → ok x ≡ ok y → x ≡ y
ok-eq e = cc

argon2_params-IsBare : (c : Config) (q : Params) → argon2_params c.argon2_config ≡ ok q → IsBare c q
unfolding argon2_params
argon2_params-IsBare c q e =
    let passes = passes_of c.argon2_config in
    let parallelism = parallelism_of c.argon2_config in
    let whole = λ (octet : ℕ). record (new_params argon2_s2k) {
      passes = passes;
      parallelism = parallelism;
      memory_exp = octet;
    } in
    let (octet, made, same) =
      >>=-eq-ok (encoded_memory c.argon2_config) (λ octet. ok (whole octet)) e in
    subst (IsBare c) (ok-eq same) (bare_argon2 octet made)

salted_params-IsBare :
    (c : Config) (q : Params)
    → c.passphrase_is_high_entropy ≡ true
    → salted_params (some c) ≡ ok q
    → IsBare c q
unfolding salted_params
salted_params-IsBare c q high e =
    let whole = λ (id : ℕ). record (new_params salted_s2k) { hash_id = id } in
    let (id, made, same) = >>=-eq-ok (hash_id_of (some c)) (λ id. ok (whole id)) e in
    subst (IsBare c) (ok-eq same) (bare_salted id high made)

iterated_params-IsBare :
    (c : Config) (q : Params) → iterated_params (some c) (some c.s2k_count) ≡ ok q → IsBare c q
unfolding iterated_params
iterated_params-IsBare c q e =
    let whole = λ (id octet : ℕ). record (new_params iterated_salted_s2k) {
      hash_id = id;
      count_byte = octet;
    } in
    let count = encoded_count (some c.s2k_count) in
    let (id, made, more) =
      >>=-eq-ok (hash_id_of (some c)) (λ id. count >>= λ octet. ok (whole id octet)) e in
    let (octet, found, same) = >>=-eq-ok count (λ octet. ok (whole id octet)) more in
    subst (IsBare c) (ok-eq same) (bare_iterated id octet made found)

params_for-IsBare : (c : Config) (q : Params) → params_for (some c) ≡ ok q → IsBare c q
unfolding params_for
params_for-IsBare c q e = elim (Bool-cases (c.s2k_mode == argon2_s2k)) [
  | inl argon ↦ argon2_params-IsBare c q (rw argon at e)
  | inr other ↦ elim (Bool-cases (c.passphrase_is_high_entropy && c.s2k_mode == salted_s2k)) [
    | inl high ↦ salted_params-IsBare c q (ground (arith, high)) (rw (other, high) at e)
    | inr low ↦ iterated_params-IsBare c q (rw (other, low) at e)
  ]
]

abbrev Good : Config → Bytes → Bytes → Params → Type 0
Good c rand rest p =
    IsParams p
    × (salt p ++ rest ≡ rand)
    × (length rest < length rand)
    × (((p.mode ≡ argon2_s2k)
          × (p.passes ≡ passes_of c.argon2_config)
          × (p.parallelism ≡ parallelism_of c.argon2_config)
          × (encoded_memory c.argon2_config ≡ ok p.memory_exp))
        ⊎ ((p.mode ≡ iterated_salted_s2k)
            × (hash_id_of (some c) ≡ ok p.hash_id)
            × (encoded_count (some c.s2k_count) ≡ ok p.count_byte))
        ⊎ ((p.mode ≡ salted_s2k)
            × (c.passphrase_is_high_entropy ≡ true)
            × (hash_id_of (some c) ≡ ok p.hash_id)))

ok-pair :
    {x y : Params} {r s : Bytes}
    → ◌≡◌ {A = Result (Params × Bytes)} (ok (x, r)) (ok (y, s))
    → (x ≡ y) × (r ≡ s)
ok-pair e = (cc, cc)

-- What a salt of `n` bytes is read to.
with_salt_reads :
    (rand rest : Bytes) (q p : Params)
    → with_salt rand q ≡ ok (p, rest)
    → (bs : Bytes) × (length bs ≡ salt_size q)
      × (bs ++ rest ≡ rand)
      × (record q { salt_bytes = bs ++ drop (salt_size q) q.salt_bytes } ≡ p)
unfolding with_salt
with_salt_reads rand rest q p e =
    let read = λ (x : Bytes × Bytes).
      ok (record q { salt_bytes = x.0 ++ drop (salt_size q) q.salt_bytes }, x.1) in
    let ((bs, rest'), got, same) = >>=-eq-ok (read_full (salt_size q) rand) read e in
    let (joined, size) = read_full_splits (salt_size q) rand bs rest' got in
    let (same_params, same_rest) = ok-pair same in (bs, size, rw (← same_rest) joined, same_params)

with_salt-Good :
    (c : Config) (rand rest : Bytes) (q p : Params)
    → IsBare c q
    → with_salt rand q ≡ ok (p, rest)
    → Good c rand rest p
unfolding salt_size salt
with_salt-Good c rand rest q p (bare_argon2 m made) e =
    let (bs, size, joined, same) = with_salt_reads rand rest q p e in
    subst (Good c rand rest) same (
      is_argon2 (passes_of c.argon2_config) (parallelism_of c.argon2_config) m bs size,
      ap (λ xs. xs ++ rest) (take-append _ bs _ size) ∙ joined,
      omega (arith, ap length joined, length-append bs rest, size),
      inl (refl, refl, refl, made),
    )
with_salt-Good c rand rest q p (bare_salted id high made) e =
    let (bs, size, joined, same) = with_salt_reads rand rest q p e in
    subst (Good c rand rest) same (
      is_salted id bs size,
      ap (λ xs. xs ++ rest) (take-append _ bs _ size) ∙ joined,
      omega (arith, ap length joined, length-append bs rest, size),
      inr (inr (refl, high, made)),
    )
with_salt-Good c rand rest q p (bare_iterated id count made found) e =
    let (bs, size, joined, same) = with_salt_reads rand rest q p e in
    subst (Good c rand rest) same (
      is_iterated id count bs size,
      ap (λ xs. xs ++ rest) (take-append _ bs _ size) ∙ joined,
      omega (arith, ap length joined, length-append bs rest, size),
      inr (inl (refl, made, found)),
    )

-- What Generate returns for a config are well-formed parameters whose salt is what it took, not
-- nothing, from the front of the random bytes, and that are of the Argon2 mode with the config's
-- passes, parallelism and encoded memory, of the iterated mode with the identifier of its hash
-- function and its encoded count, or of the salted mode with that identifier if the config says that
-- the passphrase has high entropy: never of the simple mode.
pub generate-IsParams :
    (rand rest : Bytes) (c : Config) (p : Params)
    → (generate rand (some c)).0 ≡ ok (p, rest)
    → IsParams p
      × (salt p ++ rest ≡ rand)
      × (length rest < length rand)
      × (((p.mode ≡ argon2_s2k)
            × (p.passes ≡ passes_of c.argon2_config)
            × (p.parallelism ≡ parallelism_of c.argon2_config)
            × (encoded_memory c.argon2_config ≡ ok p.memory_exp))
          ⊎ ((p.mode ≡ iterated_salted_s2k)
              × (hash_id_of (some c) ≡ ok p.hash_id)
              × (encoded_count (some c.s2k_count) ≡ ok p.count_byte))
          ⊎ ((p.mode ≡ salted_s2k)
              × (c.passphrase_is_high_entropy ≡ true)
              × (hash_id_of (some c) ≡ ok p.hash_id)))
unfolding generate
generate-IsParams rand rest c p e =
    let (q, made, read) = >>=-eq-ok (params_for (some c)) (with_salt rand) e in
    with_salt-Good c rand rest q p (params_for-IsBare c q made) read
