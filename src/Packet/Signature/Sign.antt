-- ===== src/Packet/Signature/Sign.antt =====
-- openpgp/packet/signature.go: `Sign`. The signing itself is an argument, from the digest to the
-- numbers of the signature, or none where it fails.
use go_crypto.Base.{
  ℕ, Bool, Option, none, some, List, Bytes, Result, ok, failure, unsupported, not, ◌>>=◌, ◌>>◌,
  fail_if,
}
use go_crypto.Encoding.Mpi.{Mpi}
use go_crypto.Packet.Signature.{SignatureFields, Sig}
use go_crypto.Packet.Signature.Body.{put_values}
use go_crypto.Packet.Signature.Build.{build_subpackets}
use go_crypto.Packet.Signature.HashSuffix.{sign_prepare_hash}
use go_crypto.Packet.Signature.Parse.{can_sign}

-- What `Sign` uses of a private key.
pub record SigningKey : Type 0 where
  pub is_dummy : Bool
  pub version : ℕ
  pub algo : ℕ
  pub fingerprint : Bytes
  pub sign_digest : Bytes → Option (List Mpi)

-- The values after an attempt to sign: an error of the signing is kept in a variable of its own, and
-- it is lost.
unfoldable pub signed_values : ℕ → Option (List Mpi) → SignatureFields → SignatureFields
signed_values algo none s = s
signed_values algo (some ms) s = record s { values = put_values algo ms s.values }

-- `Sign`, of what a hash with digests `sum` was given.
unfoldable pub sign : (Bytes → Bytes) → Bytes → SigningKey → Sig → Result Sig
sign sum signed key (s, embedded) = do
  fail_if key.is_dummy (failure "dummy key found")
  let s1 = record s { version = key.version; issuer_fingerprint = some key.fingerprint }
  ps ← build_subpackets key.version (s1, embedded)
  (s2, digest) ← sign_prepare_hash sum signed (record s1 { out_subpackets = ps })
  fail_if (not (can_sign key.algo)) (unsupported "public key algorithm")
  ok (signed_values key.algo (key.sign_digest digest) s2, embedded)
