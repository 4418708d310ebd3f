-- ===== src/Packet/Encrypted/RoundTrip.antt =====
-- Encrypted data with a modification detection code, from the key and the text to the packet's body and back.
use go_crypto.Base.{
  ℕ, zero, suc, ◌+◌, ◌-◌, ◌≤◌, ◌<◌, true, false, not, ◌||◌, some, [], ◌∷◌, ◌++◌, length, drop,
  get_or, Bytes, Result, ok, ◌==◌, ltb, ◌≡◌, refl, sym, ap, ◌∙◌, arith, length-append,
}
use go_crypto.Crypto.Block.{Block}
use go_crypto.Crypto.Ciphers.{
  CipherPackages, ArePackages, IsKeyFor, key_size, block_size, is_supported, new_block,
  new_block_lem,
}
use go_crypto.Crypto.Ocfb.{OcfbStream, encrypt_stream, new_ocfb_encrypter, new_ocfb_decrypter}
use go_crypto.Crypto.Ocfb.Laws.{new_ocfb_round_trip}
use go_crypto.Packet.Framing.Length.{read_full_packet}
use go_crypto.Packet.Framing.Length.Laws.{read_full_packet-append}
use go_crypto.Io.Source.{read_to_end}
use go_crypto.Packet.Encrypted.{
  SymmetricallyEncrypted, new_encrypted, parse_encrypted, parse_protected, parse_version,
  StreamReader, stream_read, protected, prefix_of, open_stream, decrypt_mdc, or_nil_stream,
  serialize_mdc,
}
use go_crypto.Packet.Encrypted.Streams.{stream_text, stream_read-IsSource}
use go_crypto.Packet.Mdc.{SeMdcReader, new_mdc_reader, mdc_read, mdc_close, mdc_written}
use go_crypto.Packet.Mdc.Close.{mdc_written_round_trip}

drop_two :
    (n : ℕ) (xs : Bytes) → length xs ≡ n + 2 → drop n xs ≡ get_or xs n 0 ∷ get_or xs (suc n) 0 ∷ []
drop_two n [] h = absurd (omega (arith, h))
drop_two zero (a ∷ []) h = absurd (omega (arith, h))
drop_two zero (a ∷ b ∷ []) h = refl
drop_two zero (a ∷ b ∷ c ∷ xs) h = absurd (omega (arith, h))
drop_two (suc n) (a ∷ xs) h = drop_two n xs (omega (arith, h))

-- The last two bytes of a block.
last_two :
    (n : ℕ) (xs : Bytes)
    → 2 ≤ n
    → length xs ≡ n
    → drop (n - 2) xs ≡ get_or xs (n - 2) 0 ∷ get_or xs (n - 1) 0 ∷ []
last_two n xs large size =
    let e : suc (n - 2) ≡ n - 1 = omega (arith, large) in
    drop_two (n - 2) xs (omega (arith, large, size))
    ∙ ap (λ (m : ℕ). get_or xs (n - 2) 0 ∷ get_or xs m 0 ∷ []) e

length-mdc_written :
    (sum : Bytes → Bytes) (hashed body : Bytes)
    → ((xs : Bytes) → length (sum xs) ≡ 20)
    → length (mdc_written sum hashed body) ≡ length body + 22
unfolding mdc_written
length-mdc_written sum hashed body digest =
    let code : Bytes = 211 ∷ 20 ∷ sum ((hashed ++ body) ++ (211 ∷ 20 ∷ [])) in
    omega (arith, length-append body code, digest ((hashed ++ body) ++ (211 ∷ 20 ∷ [])))

module _ (packages : CipherPackages) where
  serialize_mdc_lem :
      (sum : Bytes → Bytes) (random : ℕ → Result Bytes) (c : ℕ) (key body iv prefix : Bytes)
      (block : Block) (x : OcfbStream)
      → IsKeyFor packages c key
      → 7 ≤ c
      → new_block packages c key ≡ ok block
      → random block.block_size ≡ ok iv
      → new_ocfb_encrypter block iv false ≡ some (x, prefix)
      → serialize_mdc packages sum random c key body
        ≡ ok (
            1 ∷ prefix
            ++ (encrypt_stream x (mdc_written sum (iv ++ drop (block.block_size - 2) iv) body)).0)
  unfolding serialize_mdc or_nil_stream
  serialize_mdc_lem sum random c key body iv prefix block x is new made filled started =
      let allowed : (not (is_supported packages c) || ltb c 7) ≡ false =
        ground (arith, is.supported, new) in
      let fits : not (key_size packages c == length key) ≡ false = ground (arith, is.fits) in
      rw (allowed, fits, made, filled, started) refl

  parse_mdc_lem :
      (contents : Bytes)
      → parse_encrypted packages (new_encrypted true) (1 ∷ contents)
        ≡ ok (record (new_encrypted true) { version = 1; contents = contents })
  unfolding parse_encrypted parse_protected parse_version new_encrypted read_full_packet
  parse_mdc_lem contents = refl

  decrypt_mdc_lem :
      (c : ℕ) (key prefix ct plain_prefix : Bytes) (block : Block) (x : OcfbStream)
      → IsKeyFor packages c key
      → new_block packages c key ≡ ok block
      → length prefix ≡ block_size packages c + 2
      → new_ocfb_decrypter block prefix false ≡ some (x, plain_prefix)
      → (se : SymmetricallyEncrypted) × (decrypt_mdc packages c key
            (record (new_encrypted true) { version = 1; contents = prefix ++ ct })
          ≡ ok (protected (new_mdc_reader plain_prefix (record { stream = x; source = ct })), se))
  unfolding decrypt_mdc prefix_of open_stream new_encrypted
  decrypt_mdc_lem c key prefix ct plain_prefix block x is made size started =
      let supported : not (is_supported packages c) ≡ false = ground (arith, is.supported) in
      let fits : not (length key == key_size packages c) ≡ false = ground (arith, is.fits) in
      let found = read_full_packet-append (block_size packages c + 2) prefix ct size in
      (
        record (new_encrypted true) { version = 1; prefix = some plain_prefix; contents = ct },
        rw (supported, fits, found, made, started) refl,
      )

  -- With cipher packages that keep to what they document, a supported cipher from AES-128 on, a key
  -- of its size, random data of one block and a hash of 20 bytes: what
  -- serializeSymmetricallyEncryptedMdc makes of a body is parsed as integrity protected data,
  -- decryptMdc with that key gives a reader, which delivers the body, with reads and buffers of any
  -- positive size, and whose Close then succeeds.
  pub decrypt_mdc-serialize_mdc :
      (grant : Bytes → ℕ → ℕ) (sum : Bytes → Bytes) (random : ℕ → Result Bytes) (c : ℕ)
      (key body iv : Bytes) (k fuel : ℕ)
      → ArePackages packages
      → IsKeyFor packages c key
      → 7 ≤ c
      → random (block_size packages c) ≡ ok iv
      → length iv ≡ block_size packages c
      → ((xs : Bytes) → length (sum xs) ≡ 20)
      → 0 < k
      → length body + 22 < fuel
      → (out : Bytes) × (se se' : SymmetricallyEncrypted) × (r : SeMdcReader StreamReader)
        × (serialize_mdc packages sum random c key body ≡ ok out)
        × (parse_encrypted packages (new_encrypted true) out ≡ ok se)
        × (decrypt_mdc packages c key se ≡ ok (protected r, se'))
        × let (got, r') = read_to_end (mdc_read (stream_read grant)) k fuel r in
          (got ≡ ok body) × ((mdc_close (stream_read grant) sum fuel r').0 ≡ ok tt)
  decrypt_mdc-serialize_mdc grant sum random c key body iv k fuel are is new filled iv_size digest
        room enough =
      let (block, made, law, size, large) = new_block_lem packages c key are is in
      let (x, prefix, started, prefix_size, restarted, back) =
        new_ocfb_round_trip block iv false law large (iv_size ∙ sym size) in
      let two = last_two block.block_size iv large (iv_size ∙ sym size) in
      let hashed = iv ++ drop (block.block_size - 2) iv in
      let ct = (encrypt_stream x (mdc_written sum hashed body)).0 in
      let same : new_ocfb_decrypter block prefix false ≡ some (x, hashed) =
        restarted ∙ ap (λ xs. some (x, iv ++ xs)) (sym two) in
      let (se', decrypted) =
        decrypt_mdc_lem c key prefix ct hashed block x is made (omega (arith, prefix_size, size))
          same in
      let r : StreamReader = record { stream = x; source = ct } in
      let text : stream_text r ≡ mdc_written sum hashed body = back (mdc_written sum hashed body) in
      (
        1 ∷ prefix ++ ct,
        record (new_encrypted true) { version = 1; contents = prefix ++ ct },
        se',
        new_mdc_reader hashed r,
        serialize_mdc_lem sum random c key body iv prefix block x is new made
            (ap random size ∙ filled) started,
        parse_mdc_lem (prefix ++ ct),
        decrypted,
        mdc_written_round_trip (stream_read grant) stream_text (stream_read-IsSource grant) sum
            hashed body k fuel r digest text room
            (omega (arith, ap length text, length-mdc_written sum hashed body digest, enough)),
      )
