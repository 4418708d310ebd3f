-- ===== src/S2k/Stretch.antt =====
-- openpgp/s2k/s2k.go: from a passphrase to a key. A hash is the function from all that was written to
-- it to its sum.
pub mod Laws
use go_crypto.Base.{
  ℕ, zero, suc, ◌+◌, ◌-◌, ◌*◌, Bool, true, false, Option, none, some, List, [], ◌∷◌, ◌++◌, length,
  take, drop, replicate, concat, max, Bytes, Result, ok, err, panic, stuck, Error, unsupported,
  failure, ◌>>=◌, ◌>>◌, fail_if, ltb, ◌==◌, not, if◌then◌else◌,
}
use go_crypto.ByteUtil.{copy}
use go_crypto.S2k.Hash.{Hash, hash_id_to_hash_with_sha1}
use go_crypto.S2k.Count.{decode_count, decode_memory}
use go_crypto.S2k.Params.{
  Params, simple_s2k, salted_s2k, iterated_salted_s2k, argon2_s2k, gnu_s2k, salt, dummy,
}

-- The loop `for i := ..; done < len(out); i++` with `left` bytes of the key to go; `digest i` is the
-- digest of the round.
unfoldable pub key_rounds : (ℕ → Result Bytes) → ℕ → ℕ → ℕ → Result Bytes
key_rounds digest zero i left = if left == 0 then ok [] else stuck
key_rounds digest (suc fuel) i left =
    let next = do
      d ← digest i
      more ← key_rounds digest fuel (i + 1) (left - length d)
      ok (take left d ++ more)
    in if left == 0 then ok [] else next

-- The loop `for written < count` of `Iterated`: what it writes to the hash.
unfoldable pub write_rounds : Bytes → ℕ → ℕ → ℕ → Result Bytes
write_rounds combined zero written count = if ltb written count then stuck else ok []
write_rounds combined (suc fuel) written count =
    let next = do
      more ← write_rounds combined fuel (written + length combined) count
      ok (combined ++ more)
    in if ltb written count
      then if ltb count (written + length combined)
        then ok (take (count - written) combined)
        else next
      else ok []

module _ (sum : Bytes → Bytes) where
  -- `Salted`
  unfoldable pub salted : ℕ → Bytes → Bytes → Result Bytes
  unfolding key_rounds
  salted size passphrase salt =
      key_rounds (λ i. ok (sum (replicate i 0 ++ (salt ++ passphrase)))) size 0 size

  -- `Simple`
  unfoldable pub simple : ℕ → Bytes → Result Bytes
  unfolding salted
  simple size passphrase = salted size passphrase []

  -- `Iterated`
  unfoldable pub iterated : ℕ → Bytes → Bytes → ℕ → Result Bytes
  unfolding key_rounds write_rounds
  iterated size passphrase salt count =
      let combined = salt ++ passphrase in
      let count' = if ltb count (length combined) then length combined else count in
      key_rounds
        (λ i. write_rounds combined count' 0 count' >>= λ bs. ok (sum (replicate i 0 ++ bs))) size 0
        size

-- `available` and `sum` are package crypto's, and `argon2` is `argon2.IDKey` with the number of passes,
-- the memory, the parallelism, and the size of the key.
module _ (available : Hash → Bool) (sum : Hash → Bytes → Bytes)
    (argon2 : Bytes → Bytes → ℕ → ℕ → ℕ → ℕ → Bytes) where
  unfoldable pub usable_hash : ℕ → Result Hash
  usable_hash id = elim (hash_id_to_hash_with_sha1 id) [
    | none ↦ err (unsupported "hash for S2K function")
    | some h ↦ if available h then ok h else err (unsupported "hash not available")
  ]

  -- `Params.Function`, applied to the size of the key and the passphrase.
  unfoldable pub derive : Params → Result (ℕ → Bytes → Result Bytes)
  unfolding usable_hash
  derive p =
      let argon = ok (λ size passphrase. ok (
        copy (replicate size 0)
          (argon2 passphrase (salt p) p.passes (decode_memory p.memory_exp) p.parallelism size))) in
      let hashed = do
        h ← usable_hash p.hash_id
        if p.mode == simple_s2k
            then ok (λ size passphrase. simple (sum h) size passphrase)
            else if p.mode == salted_s2k
            then ok (λ size passphrase. salted (sum h) size passphrase (salt p))
            else if p.mode == iterated_salted_s2k
            then ok (λ size passphrase.
              iterated (sum h) size passphrase (salt p) (decode_count p.count_byte))
            else err (unsupported "S2K function")
      in if dummy p
        then err (failure "dummy key found")
        else if p.mode == argon2_s2k
        then argon
        else hashed
