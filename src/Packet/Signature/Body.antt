-- ===== src/Packet/Signature/Body.antt =====
-- openpgp/packet/signature.go: `Serialize` and `serializeBody`.
use go_crypto.Base.{
  ℕ, ◌+◌, ◌-◌, ◌*◌, ◌/◌, ◌^◌, Bool, true, false, ◌&&◌, ◌||◌, Option, none, some, [], ◌∷◌, ◌++◌,
  List, length, take, get_or, Bytes, Result, ok, panic, invalid_argument, ◌>>=◌, ◌>>◌, panic_if,
  fail_if, ltb, ◌==◌, if◌then◌else◌,
}
use go_crypto.Base.Words.{u8, u16}
use go_crypto.Encoding.Mpi.{Mpi, encoded_bytes, encoded_length}
use go_crypto.Packet.Framing.Header.{serialize_header}
use go_crypto.Packet.SignatureArea.{OutputSubpacket, subpackets_length, serialize_area}
use go_crypto.Packet.Signature.{SignatureFields, SignatureValues}

-- The numbers that an algorithm writes, in their order. An algorithm that cannot sign is impossible,
-- and a number that is nil panics when it is written.
unfoldable pub numbers : ℕ → SignatureValues → Result (List Mpi)
numbers algo v =
    let one : Option Mpi → Result (List Mpi) =
      λ m. elim m [ none ↦ panic | some a ↦ ok (a ∷ []) ] in
    let two : Option Mpi → Option Mpi → Result (List Mpi) = λ r s. elim r [
      | none ↦ panic
      | some a ↦ elim s [ none ↦ panic | some b ↦ ok (a ∷ b ∷ []) ]
    ] in
    if algo == 1 || algo == 3
    then one v.rsa_signature
    else if algo == 17
    then two v.dsa_sig_r v.dsa_sig_s
    else if algo == 19
    then two v.ecdsa_sig_r v.ecdsa_sig_s
    else if algo == 22
    then two v.eddsa_sig_r v.eddsa_sig_s
    else panic

-- Where the numbers of an algorithm are kept.
unfoldable pub put_values : ℕ → List Mpi → SignatureValues → SignatureValues
put_values algo (m ∷ []) v = record v { rsa_signature = some m }
put_values algo (r ∷ s ∷ []) v =
    if algo == 17
    then record v { dsa_sig_r = some r; dsa_sig_s = some s }
    else if algo == 19
    then record v { ecdsa_sig_r = some r; ecdsa_sig_s = some s }
    else record v { eddsa_sig_r = some r; eddsa_sig_s = some s }
put_values algo _ v = v

unfoldable pub numbers_bytes : List Mpi → Bytes
numbers_bytes [] = []
numbers_bytes (m ∷ ms) = encoded_bytes m ++ numbers_bytes ms

unfoldable pub numbers_length : List Mpi → ℕ
numbers_length [] = 0
numbers_length (m ∷ ms) = encoded_length m + numbers_length ms

-- `HashSuffix[:6+hashedSubpacketsLen]`, where the sum is a `uint16`.
unfoldable pub fields_written : Bytes → Result Bytes
fields_written suffix =
    let n = u16 (6 + (get_or suffix 4 0 * 2 ^ 8 + get_or suffix 5 0)) in
    panic_if (ltb (length suffix) 6 || ltb (length suffix) n) >> ok (take n suffix)

-- The area that is not hashed, behind its length.
unfoldable pub unhashed_area : List OutputSubpacket → Bytes
unhashed_area ps =
    let n = subpackets_length ps false in u8 (n / 2 ^ 8) ∷ u8 n ∷ serialize_area ps false

-- `serializeBody`
unfoldable pub serialize_body : SignatureFields → Result Bytes
serialize_body s = do
  fields ← fields_written s.hash_suffix
  ms ← numbers s.pub_key_algo s.values
  ok (fields ++ (unhashed_area s.out_subpackets ++ (s.hash_tag ++ numbers_bytes ms)))

-- Neither of the fields that hold a signature.
unfoldable pub is_unsigned : SignatureValues → Bool
is_unsigned v =
    let missing : Option Mpi → Bool = λ m. elim m [ none ↦ true | some n ↦ false ] in
    missing v.rsa_signature && missing v.dsa_sig_r && missing v.ecdsa_sig_r && missing v.eddsa_sig_r

-- The length that `Serialize` puts into the header.
unfoldable pub body_length : SignatureFields → List Mpi → ℕ
body_length s ms =
    let n =
      length s.hash_suffix
      - 6
      + 2
      + subpackets_length s.out_subpackets false
      + 2
      + numbers_length ms in
    if s.version == 5 then n - 4 else n

-- A signature that was read is written with the subpackets that were read.
unfoldable pub with_subpackets : SignatureFields → SignatureFields
with_subpackets s =
    if length s.out_subpackets == 0 then record s { out_subpackets = s.raw_subpackets } else s

-- `Serialize`
unfoldable pub serialize_signature : SignatureFields → Result Bytes
serialize_signature s = do
  let s' = with_subpackets s
  fail_if (is_unsigned s.values)
      (invalid_argument "Signature: need to call Sign, SignUserId or SignKey before Serialize")
  ms ← numbers s.pub_key_algo s.values
  body ← serialize_body s'
  ok (serialize_header 2 (body_length s' ms) ++ body)
