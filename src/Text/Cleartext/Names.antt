-- ===== src/Text/Cleartext/Names.antt =====
-- openpgp/clearsign/clearsign.go: the names of hash functions, the start of a message, and the hash
-- functions that a message may be signed with.
use go_crypto.Base.{
  Option, none, some, List, [], ◌∷◌, ◌++◌, drop, Bytes, Result, ok, err, structural, ◌>>=◌,
  bytes_equal, if◌then◌else◌, ◌≡◌, ◌⊎◌, inl, inr, refl,
}
use go_crypto.S2k.Hash.{Hash, sha1, sha224, sha256, sha384, sha512, sha3_256, sha3_512, other}
use go_crypto.Text.Cleartext.{start}

-- `nameOfHash`
unfoldable pub name_of_hash : Hash → Bytes
name_of_hash sha224 = 83 ∷ 72 ∷ 65 ∷ 50 ∷ 50 ∷ 52 ∷ []
name_of_hash sha256 = 83 ∷ 72 ∷ 65 ∷ 50 ∷ 53 ∷ 54 ∷ []
name_of_hash sha384 = 83 ∷ 72 ∷ 65 ∷ 51 ∷ 56 ∷ 52 ∷ []
name_of_hash sha512 = 83 ∷ 72 ∷ 65 ∷ 53 ∷ 49 ∷ 50 ∷ []
name_of_hash sha3_256 = 83 ∷ 72 ∷ 65 ∷ 51 ∷ 45 ∷ 50 ∷ 53 ∷ 54 ∷ []
name_of_hash sha3_512 = 83 ∷ 72 ∷ 65 ∷ 51 ∷ 45 ∷ 53 ∷ 49 ∷ 50 ∷ []
name_of_hash h = []

-- `nameToHash`
unfoldable pub name_to_hash : Bytes → Option Hash
name_to_hash name =
    if bytes_equal name (83 ∷ 72 ∷ 65 ∷ 49 ∷ [])
    then some sha1
    else if bytes_equal name (83 ∷ 72 ∷ 65 ∷ 50 ∷ 50 ∷ 52 ∷ [])
    then some sha224
    else if bytes_equal name (83 ∷ 72 ∷ 65 ∷ 50 ∷ 53 ∷ 54 ∷ [])
    then some sha256
    else if bytes_equal name (83 ∷ 72 ∷ 65 ∷ 51 ∷ 56 ∷ 52 ∷ [])
    then some sha384
    else if bytes_equal name (83 ∷ 72 ∷ 65 ∷ 53 ∷ 49 ∷ 50 ∷ [])
    then some sha512
    else if bytes_equal name (83 ∷ 72 ∷ 65 ∷ 51 ∷ 45 ∷ 50 ∷ 53 ∷ 54 ∷ [])
    then some sha3_256
    else if bytes_equal name (83 ∷ 72 ∷ 65 ∷ 51 ∷ 45 ∷ 53 ∷ 49 ∷ 50 ∷ [])
    then some sha3_512
    else none

-- The start of a message that is signed with one hash function, as `EncodeMulti` writes it.
unfoldable pub message_start : Bytes → Bytes
message_start name = drop 1 start ++ 10 ∷ 72 ∷ 97 ∷ 115 ∷ 104 ∷ 58 ∷ 32 ∷ (name ++ 10 ∷ 10 ∷ [])

-- The loop of `VerifySignature` over the names in the headers.
unfoldable pub expected_hashes : List Bytes → Result (List Hash)
expected_hashes [] = ok []
expected_hashes (name ∷ names) = elim (name_to_hash name) [
  | none ↦ err (structural "unknown hash algorithm in cleartext message headers")
  | some h ↦ expected_hashes names >>= λ hs. ok (h ∷ hs)
]

-- What has a name is found by it.
pub name_to_hash-name_of_hash :
    (h : Hash) → (name_of_hash h ≡ []) ⊎ (name_to_hash (name_of_hash h) ≡ some h)
unfolding name_of_hash name_to_hash bytes_equal
name_to_hash-name_of_hash sha1 = inl refl
name_to_hash-name_of_hash sha224 = inr refl
name_to_hash-name_of_hash sha256 = inr refl
name_to_hash-name_of_hash sha384 = inr refl
name_to_hash-name_of_hash sha512 = inr refl
name_to_hash-name_of_hash sha3_256 = inr refl
name_to_hash-name_of_hash sha3_512 = inr refl
name_to_hash-name_of_hash (other n) = inl refl
