-- ===== src/Packet/Signature.antt =====
-- openpgp/packet/signature.go and notation.go: signatures.
pub mod Notations
pub mod Subpacket
pub mod HashSuffix
pub mod Body
pub mod Build
pub mod Parse
pub mod Split
pub mod Gives
pub mod Fields
pub mod Lists
pub mod Flags
pub mod Hashed
pub mod RoundTrip
pub mod Sign
pub mod Whole
pub mod Signed
pub mod Length
pub mod Ends
pub mod ParseEnds
pub mod Tests
use go_crypto.Base.{ℕ, Bool, false, Option, none, some, List, [], ◌∷◌, Bytes}
use go_crypto.S2k.Hash.{Hash}
use go_crypto.Encoding.Mpi.{Mpi}
use go_crypto.Packet.Literal.{LiteralData}
use go_crypto.Packet.SignatureArea.{OutputSubpacket}

-- `Notation`
pub record Notation : Type 0 where
  pub name : Bytes
  pub value : Bytes
  pub is_critical : Bool
  pub is_human_readable : Bool

-- The flags of a key: `FlagsValid` and those behind it.
pub record KeyFlags : Type 0 where
  pub flags_valid : Bool
  pub certify : Bool
  pub signing : Bool
  pub encrypt_communications : Bool
  pub encrypt_storage : Bool
  pub split_key : Bool
  pub authenticate : Bool
  pub group_key : Bool

-- The numbers of the signature itself.
pub record SignatureValues : Type 0 where
  pub rsa_signature : Option Mpi
  pub dsa_sig_r : Option Mpi
  pub dsa_sig_s : Option Mpi
  pub ecdsa_sig_r : Option Mpi
  pub ecdsa_sig_s : Option Mpi
  pub eddsa_sig_r : Option Mpi
  pub eddsa_sig_s : Option Mpi

-- `Signature`, but for `EmbeddedSignature`. A time that is zero is `none`.
pub record SignatureFields : Type 0 where
  pub version : ℕ
  pub sig_type : ℕ
  pub pub_key_algo : ℕ
  pub hash : Hash
  pub hash_suffix : Bytes
  pub hash_tag : Bytes
  pub metadata : Option LiteralData
  pub creation_time : Option ℕ
  pub values : SignatureValues
  pub raw_subpackets : List OutputSubpacket
  pub sig_lifetime_secs : Option ℕ
  pub key_lifetime_secs : Option ℕ
  pub preferred_symmetric : Bytes
  pub preferred_hash : Bytes
  pub preferred_compression : Bytes
  pub preferred_cipher_suites : List (ℕ × ℕ)
  pub issuer_key_id : Option ℕ
  pub issuer_fingerprint : Option Bytes
  pub signer_user_id : Option Bytes
  pub is_primary_id : Option Bool
  pub notations : List Notation
  pub trust_level : ℕ
  pub trust_amount : ℕ
  pub trust_regular_expression : Option Bytes
  pub policy_uri : Bytes
  pub flags : KeyFlags
  pub revocation_reason : Option ℕ
  pub revocation_reason_text : Bytes
  pub seipd_v1 : Bool
  pub seipd_v2 : Bool
  pub out_subpackets : List OutputSubpacket

-- `Signature`: with the signature that `EmbeddedSignature` points to, or without one.
pub data Signature : Type 0 where
  signature : SignatureFields → Signature
  cross_signature : SignatureFields → Signature → Signature

-- A signature under way: its fields and `EmbeddedSignature`.
abbrev pub Sig : Type 0
Sig = SignatureFields × Option Signature

-- The signature that the fields and the pointer make.
unfoldable pub to_signature : Sig → Signature
to_signature (fields, none) = signature fields
to_signature (fields, some embedded) = cross_signature fields embedded

unfoldable pub of_signature : Signature → Sig
of_signature (signature fields) = (fields, none)
of_signature (cross_signature fields embedded) = (fields, some embedded)

abbrev pub no_flags : KeyFlags
no_flags = record {
  flags_valid = false;
  certify = false;
  signing = false;
  encrypt_communications = false;
  encrypt_storage = false;
  split_key = false;
  authenticate = false;
  group_key = false;
}

abbrev pub no_values : SignatureValues
no_values = record {
  rsa_signature = none;
  dsa_sig_r = none;
  dsa_sig_s = none;
  ecdsa_sig_r = none;
  ecdsa_sig_s = none;
  eddsa_sig_r = none;
  eddsa_sig_s = none;
}

-- `new(Signature)`, with its version, type, algorithm and hash function.
abbrev pub new_signature : ℕ → ℕ → ℕ → Hash → SignatureFields
new_signature version sig_type pub_key_algo hash = record {
  version = version;
  sig_type = sig_type;
  pub_key_algo = pub_key_algo;
  hash = hash;
  hash_suffix = [];
  hash_tag = 0 ∷ 0 ∷ [];
  metadata = none;
  creation_time = none;
  values = no_values;
  raw_subpackets = [];
  sig_lifetime_secs = none;
  key_lifetime_secs = none;
  preferred_symmetric = [];
  preferred_hash = [];
  preferred_compression = [];
  preferred_cipher_suites = [];
  issuer_key_id = none;
  issuer_fingerprint = none;
  signer_user_id = none;
  is_primary_id = none;
  notations = [];
  trust_level = 0;
  trust_amount = 0;
  trust_regular_expression = none;
  policy_uri = [];
  flags = no_flags;
  revocation_reason = none;
  revocation_reason_text = [];
  seipd_v1 = false;
  seipd_v2 = false;
  out_subpackets = [];
}
