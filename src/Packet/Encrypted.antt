-- ===== src/Packet/Encrypted.antt =====
-- openpgp/packet/symmetrically_encrypted.go and the two ends of symmetrically_encrypted_mdc.go: the packet of
-- encrypted data, its version 1 from the key to the reader. The ciphers' packages and SHA-1 are parameters.
pub mod Streams
pub mod RoundTrip
pub mod Tests
use go_crypto.Base.{
  ℕ, ◌+◌, ◌-◌, Bool, true, false, not, ◌||◌, Option, none, some, [], ◌∷◌, ◌++◌, length, take, drop,
  get_or, replicate, Bytes, Result, ok, err, panic, stuck, Error, invalid_argument, structural,
  unsupported, ◌>>=◌, ◌>>◌, fail_if, ◌==◌, ltb, if◌then◌else◌,
}
use go_crypto.Crypto.Block.{Block}
use go_crypto.Crypto.Ciphers.{CipherPackages, key_size, block_size, is_supported, new_block, aes128}
use go_crypto.Crypto.Ocfb.{
  OcfbStream, encrypt_stream, decrypt_stream, new_ocfb_encrypter, new_ocfb_decrypter,
}
use go_crypto.Io.{read_full, read_some}
use go_crypto.Packet.Framing.Length.{read_full_packet}
use go_crypto.Packet.Mdc.{SeMdcReader, new_mdc_reader, mdc_written}

abbrev pub version_mdc : ℕ
version_mdc = 1

abbrev pub version_aead : ℕ
version_aead = 2

abbrev pub aead_salt_size : ℕ
aead_salt_size = 32

-- `SymmetricallyEncrypted`; `prefix` is none where the code has nil.
pub record SymmetricallyEncrypted : Type 0 where
  pub version : ℕ
  pub contents : Bytes
  pub integrity_protected : Bool
  pub prefix : Option Bytes
  pub cipher : ℕ
  pub mode : ℕ
  pub chunk_size_byte : ℕ
  pub salt : Bytes

-- What `Read` makes before it parses: `new(SymmetricallyEncrypted)`.
unfoldable pub new_encrypted : Bool → SymmetricallyEncrypted
new_encrypted integrity_protected = record {
  version = 0;
  contents = [];
  integrity_protected = integrity_protected;
  prefix = none;
  cipher = 0;
  mode = 0;
  chunk_size_byte = 0;
  salt = replicate aead_salt_size 0;
}

-- `AEADMode.TagLength`
unfoldable pub tag_length : ℕ → ℕ
tag_length mode = if (mode == 1 || mode == 2) || mode == 3 then 16 else 0

-- A short read is an error of its own.
unfoldable pub or_structural : Error → Result (Bytes × Bytes) → Result (Bytes × Bytes)
or_structural e (err x) = err e
or_structural e r = r

-- `cipher.StreamReader` on a source, whose `Read` deciphers what it got.
pub record StreamReader : Type 0 where
  pub stream : OcfbStream
  pub source : Bytes

unfoldable pub after_stream_read : OcfbStream → Result Bytes × Bytes → Result Bytes × StreamReader
after_stream_read x (ok got, s) =
    let (out, x') = decrypt_stream x got in (ok out, record { stream = x'; source = s })
after_stream_read x (r, s) = (r, record { stream = x; source = s })

unfoldable pub stream_read : (Bytes → ℕ → ℕ) → StreamReader → ℕ → Result Bytes × StreamReader
stream_read grant r k = after_stream_read r.stream (read_some grant k r.source)

-- What `Decrypt` returns: the reader that checks the code, or the stream as it is.
pub data Plaintext : Type 0 where
  protected : SeMdcReader StreamReader → Plaintext
  plain : StreamReader → Plaintext

-- The prefix that is there, or the first bytes of the contents.
unfoldable pub prefix_of : SymmetricallyEncrypted → ℕ → Result (Bytes × Bytes)
prefix_of se size = elim se.prefix [
  | none ↦ read_full_packet size se.contents
  | some prefix ↦
      fail_if (not (length prefix == size))
        (invalid_argument "can't try ciphers with different block lengths")
      >> ok (prefix, se.contents)
]

-- The stream from a prefix of the right length; `plain_prefix` is what stands in `se.prefix` then.
unfoldable pub open_stream :
    SymmetricallyEncrypted
    → Bytes
    → Option (OcfbStream × Bytes)
    → Result (Plaintext × SymmetricallyEncrypted)
open_stream se contents none = panic
open_stream se contents (some (x, plain_prefix)) =
    let r : StreamReader = record { stream = x; source = contents } in
    let se' = record se { prefix = some plain_prefix; contents = contents } in
    if se.integrity_protected
    then ok (protected (new_mdc_reader plain_prefix r), se')
    else ok (plain r, se')

module _ (packages : CipherPackages) where
  -- `parseAead`, which leaves the contents to `parse`
  unfoldable pub parse_aead :
      SymmetricallyEncrypted → Bytes → Result (SymmetricallyEncrypted × Bytes)
  parse_aead se r = do
    (header, r1) ← or_structural (structural "could not read aead header") (read_full 3 r)
    let cipher = get_or header 0 0
    let mode = get_or header 1 0
    let size = get_or header 2 0
    fail_if (not (block_size packages cipher == 16)) (unsupported "invalid aead cipher")
    fail_if (tag_length mode == 0) (unsupported "unknown aead mode")
    fail_if (ltb 16 size) (unsupported "invalid aead chunk size byte")
    (salt, r2) ← or_structural (structural "could not read aead salt") (read_full aead_salt_size r1)
    ok (record se { cipher = cipher; mode = mode; chunk_size_byte = size; salt = salt }, r2)

  -- The versions of integrity protected data.
  unfoldable pub parse_version :
      SymmetricallyEncrypted → ℕ → Bytes → Result (SymmetricallyEncrypted × Bytes)
  parse_version se version r =
      if version == version_mdc
      then ok (record se { version = version_mdc }, r)
      else if version == version_aead
      then parse_aead (record se { version = version_aead }) r
      else err (unsupported "unknown SymmetricallyEncrypted version")

  unfoldable pub parse_protected : SymmetricallyEncrypted → Bytes → Result SymmetricallyEncrypted
  parse_protected se r = do
    (buf, r1) ← read_full_packet 1 r
    (se', r2) ← parse_version se (get_or buf 0 0) r1
    ok (record se' { contents = r2 })

  -- `SymmetricallyEncrypted.parse`
  unfoldable pub parse_encrypted : SymmetricallyEncrypted → Bytes → Result SymmetricallyEncrypted
  parse_encrypted se r =
      let versioned = parse_protected se r in
      if se.integrity_protected then versioned else ok (record se { contents = r })

  -- `decryptMdc`
  unfoldable pub decrypt_mdc :
      ℕ → Bytes → SymmetricallyEncrypted → Result (Plaintext × SymmetricallyEncrypted)
  decrypt_mdc c key se = do
    fail_if (not (is_supported packages c)) (unsupported "unsupported cipher")
    fail_if (not (length key == key_size packages c))
        (invalid_argument "SymmetricallyEncrypted: incorrect key length")
    (prefix, contents) ← prefix_of se (block_size packages c + 2)
    block ← new_block packages c key
    open_stream se contents (new_ocfb_decrypter block prefix (not se.integrity_protected))

  -- `NewOCFBEncrypter` gives no stream for random data of another size, which then panics on its use.
  unfoldable pub or_nil_stream : Option (OcfbStream × Bytes) → Result (OcfbStream × Bytes)
  or_nil_stream none = panic
  or_nil_stream (some x) = ok x

  -- `serializeSymmetricallyEncryptedMdc`, the writes of `body` and the close: what `ciphertext` is given.
  -- `random n` is what `config.Random().Read` puts into a buffer of `n` bytes.
  unfoldable pub serialize_mdc :
      (Bytes → Bytes) → (ℕ → Result Bytes) → ℕ → Bytes → Bytes → Result Bytes
  serialize_mdc sum random c key body = do
    fail_if (not (is_supported packages c) || ltb c aes128)
        (invalid_argument "invalid mdc cipher function")
    fail_if (not (key_size packages c == length key))
        (invalid_argument "error in mdc serialization: bad key length")
    block ← new_block packages c key
    iv ← random block.block_size
    (s, prefix) ← or_nil_stream (new_ocfb_encrypter block iv false)
    ok (
        version_mdc ∷ prefix
        ++ (encrypt_stream s (mdc_written sum (iv ++ drop (block.block_size - 2) iv) body)).0)
