-- ===== src/Packet/Signature/Parse.antt =====
-- openpgp/packet/signature.go: `parse`, `SigExpired` and `CheckKeyIdOrFingerprint`.
use go_crypto.Base.{
  ℕ, zero, suc, ◌+◌, ◌*◌, ◌^◌, Bool, true, false, not, ◌||◌, ◌&&◌, Option, none, some, List, [],
  ◌∷◌, length, get_or, Bytes, Result, ok, err, stuck, unsupported, ◌>>=◌, ◌>>◌, fail_if, ltb, leb,
  ◌==◌, bytes_equal, if◌then◌else◌,
}
use go_crypto.S2k.Hash.{Hash, hash_id_to_hash, hash_id_to_hash_with_sha1}
use go_crypto.Encoding.Mpi.{Mpi, read_from}
use go_crypto.Packet.Framing.Length.{read_full_packet}
use go_crypto.Packet.Signature.{SignatureFields, Signature, Sig, new_signature, to_signature}
use go_crypto.Packet.Signature.Body.{put_values}
use go_crypto.Packet.Signature.HashSuffix.{build_hash_suffix}
use go_crypto.Packet.Signature.Subpacket.{parse_subpackets}

-- `PublicKeyAlgorithm.CanSign`: the algorithms that `parse` lets pass.
unfoldable pub can_sign : ℕ → Bool
can_sign algo = algo == 1 || algo == 3 || algo == 17 || algo == 19 || algo == 22

-- The function that an octet stands for: SHA-1 is none for version 5.
unfoldable pub octet_hash : ℕ → ℕ → Option Hash
octet_hash version id = if ltb version 5 then hash_id_to_hash_with_sha1 id else hash_id_to_hash id

-- `r` numbers behind each other.
unfoldable pub read_numbers : ℕ → Bytes → Result (List Mpi × Bytes)
read_numbers zero r = ok ([], r)
read_numbers (suc n) r = do
  (m, used, r1) ← read_from r
  (ms, r2) ← read_numbers n r1
  ok (m ∷ ms, r2)

-- How many numbers the signatures of an algorithm have.
unfoldable pub number_count : ℕ → ℕ
number_count algo = if algo == 1 || algo == 3 then 1 else 2

-- The function of the header's octet, or the error.
unfoldable pub known_hash : Option Hash → Result Hash
known_hash none = err (unsupported "hash function")
known_hash (some h) = ok h

module _ (parse_embedded : Bytes → Result Signature) where
  -- The tail of `parse`, behind the hashed area.
  unfoldable pub parse_unhashed : Sig → Bytes → Result (Sig × Bytes)
  parse_unhashed sig r = do
    (size, r1) ← read_full_packet 2 r
    (unhashed, r2) ← read_full_packet (get_or size 0 0 * 2 ^ 8 + get_or size 1 0) r1
    (s, embedded) ← parse_subpackets parse_embedded sig unhashed false
    (tag, r3) ← read_full_packet 2 r2
    (ms, r4) ← read_numbers (number_count s.pub_key_algo) r3
    ok ((record s { hash_tag = tag; values = put_values s.pub_key_algo ms s.values }, embedded), r4)

  -- `parse`, given the parser of embedded signatures.
  unfoldable pub parse_with : Bytes → Result (Sig × Bytes)
  parse_with r = do
    (first, r1) ← read_full_packet 1 r
    let version = get_or first 0 0
    fail_if (not (version == 4) && not (version == 5)) (unsupported "signature packet version")
    (buf, r2) ← read_full_packet 5 r1
    let algo = get_or buf 1 0
    fail_if (not (can_sign algo)) (unsupported "public key algorithm")
    hash ← known_hash (octet_hash version (get_or buf 2 0))
    (hashed, r3) ← read_full_packet (get_or buf 3 0 * 2 ^ 8 + get_or buf 4 0) r2
    s ← build_hash_suffix (new_signature version (get_or buf 0 0) algo hash) hashed
    sig ← parse_subpackets parse_embedded (s, none) hashed true
    parse_unhashed sig r3

-- `Signature.parse`: one unit of fuel for each signature inside another.
unfoldable pub parse_signature : ℕ → Bytes → Result (Sig × Bytes)
parse_signature zero r = stuck
parse_signature (suc depth) r =
    parse_with (λ bs. parse_signature depth bs >>= λ parsed. ok (to_signature parsed.0)) r

-- `SigExpired`, at a time after 1970; a signature without a creation time is older than that.
unfoldable pub sig_expired : SignatureFields → ℕ → Bool
sig_expired s now = elim s.creation_time [
  | none ↦ (elim s.sig_lifetime_secs [ none ↦ false | some n ↦ not (n == 0) ])
  | some created ↦ if ltb now created then true else (elim s.sig_lifetime_secs [
    | none ↦ false
    | some n ↦ if n == 0 then false else ltb (created + n) now
  ])
]

-- `CheckKeyIdOrFingerprint`, of a key with that id and fingerprint.
unfoldable pub check_key_id_or_fingerprint : SignatureFields → ℕ → Bytes → Bool
check_key_id_or_fingerprint s key_id fingerprint =
    let by_id : Bool = elim s.issuer_key_id [ none ↦ false | some id ↦ id == key_id ] in
    elim s.issuer_fingerprint [
      | none ↦ by_id
      | some f ↦ if leb 20 (length f) then bytes_equal f fingerprint else by_id
    ]
