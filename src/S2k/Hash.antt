-- ===== src/S2k/Hash.antt =====
-- openpgp/internal/algorithm/hash.go: the hash functions and their identifiers in OpenPGP.
use go_crypto.Base.{ℕ, Option, none, some, ◌<◌, ◌≡◌, ◌==◌, if◌then◌else◌, arith}

-- `crypto.Hash`: the functions that OpenPGP names, and any other by its number in Go.
pub data Hash : Type 0 where
  sha1 sha224 sha256 sha384 sha512 sha3_256 sha3_512 : Hash
  other : ℕ → Hash

-- `HashById`, through `HashIdToHash`.
unfoldable pub hash_id_to_hash : ℕ → Option Hash
hash_id_to_hash id =
    if id == 8
    then some sha256
    else if id == 9
    then some sha384
    else if id == 10
    then some sha512
    else if id == 11
    then some sha224
    else if id == 12
    then some sha3_256
    else if id == 14
    then some sha3_512
    else none

-- `HashIdToHashWithSha1`
unfoldable pub hash_id_to_hash_with_sha1 : ℕ → Option Hash
unfolding hash_id_to_hash
hash_id_to_hash_with_sha1 id = elim (hash_id_to_hash id) [
  | some h ↦ some h
  | none ↦ if id == 2 then some sha1 else none
]

-- `HashToHashId`: the search through `HashById`.
unfoldable pub hash_to_hash_id : Hash → Option ℕ
hash_to_hash_id sha1 = none
hash_to_hash_id sha224 = some 11
hash_to_hash_id sha256 = some 8
hash_to_hash_id sha384 = some 9
hash_to_hash_id sha512 = some 10
hash_to_hash_id sha3_256 = some 12
hash_to_hash_id sha3_512 = some 14
hash_to_hash_id (other n) = none

-- An identifier and a hash function belong together in HashIdToHash if and only if they do in
-- HashToHashId, and HashIdToHashWithSha1 agrees where HashIdToHash has a function.
pub hash_id_lem :
    (id : ℕ) (h : Hash)
    → (hash_id_to_hash id ≡ some h → hash_to_hash_id h ≡ some id)
      × (hash_to_hash_id h ≡ some id → hash_id_to_hash id ≡ some h)
      × (hash_id_to_hash id ≡ some h → hash_id_to_hash_with_sha1 id ≡ some h)
unfolding hash_id_to_hash hash_to_hash_id hash_id_to_hash_with_sha1
hash_id_lem id h = (ground arith, ground arith, λ e. ground (arith, e))

-- `HashToHashIdWithSha1`
unfoldable pub hash_to_hash_id_with_sha1 : Hash → Option ℕ
unfolding hash_to_hash_id
hash_to_hash_id_with_sha1 sha1 = some 2
hash_to_hash_id_with_sha1 h = hash_to_hash_id h

-- What has an identifier there is found by it.
pub hash_id_to_hash_with_sha1-hash_to_hash_id_with_sha1 :
    (id : ℕ) (h : Hash)
    → hash_to_hash_id_with_sha1 h ≡ some id
    → (hash_id_to_hash_with_sha1 id ≡ some h) × (id < 256)
unfolding hash_to_hash_id_with_sha1 hash_id_to_hash_with_sha1
hash_id_to_hash_with_sha1-hash_to_hash_id_with_sha1 id h e = ground (arith, e)
