-- ===== src/Packet/Encrypted/Tests.antt =====
-- Encrypted data over small concrete ciphers.
use go_crypto.Base.{
  ℕ, ◌%◌, true, some, [], ◌∷◌, length, replicate, Bytes, Result, ok, ◌≡◌, refl, ◌∙◌, arith,
  length-replicate,
}
use go_crypto.ByteUtil.{xor_bytes}
use go_crypto.ByteUtil.Laws.{xor_bytes_cancel, length-xor_bytes, xor_bytes-AreBytes}
use go_crypto.Crypto.Block.{Block, IsBlock, IsCipher}
use go_crypto.Crypto.Ciphers.{
  CipherPackages, ArePackages, IsKeyFor, key_size, block_size, is_supported,
}
use go_crypto.Crypto.Tests.{xor_cipher, xor_cipher-IsCipher}
use go_crypto.Io.Source.{read_to_end}
use go_crypto.Packet.Encrypted.{
  SymmetricallyEncrypted, new_encrypted, parse_encrypted, StreamReader, stream_read, protected,
  decrypt_mdc, serialize_mdc,
}
use go_crypto.Packet.Encrypted.RoundTrip.{decrypt_mdc-serialize_mdc}
use go_crypto.Packet.Mdc.{SeMdcReader, mdc_read, mdc_close}

abbrev pad8 : Bytes
pad8 = 1 ∷ 2 ∷ 3 ∷ 4 ∷ 250 ∷ 251 ∷ 252 ∷ 253 ∷ []

abbrev cipher8 : Block
cipher8 = record {
  block_size = 8;
  encrypt = λ b. xor_bytes b pad8;
  decrypt = λ b. xor_bytes b pad8;
}

xor_pad8-IsBlock : (b : Bytes) → IsBlock cipher8 b → IsBlock cipher8 (xor_bytes b pad8)
xor_pad8-IsBlock b h = (length-xor_bytes b pad8 ∙ h.0, xor_bytes-AreBytes b pad8 h.1 (omega arith))

cipher8-IsCipher : IsCipher cipher8
cipher8-IsCipher = record {
  encrypt-IsBlock = xor_pad8-IsBlock;
  decrypt-IsBlock = xor_pad8-IsBlock;
  decrypt-encrypt = λ b h. xor_bytes_cancel b pad8 (omega (arith, h.0));
  encrypt-decrypt = λ b h. xor_bytes_cancel b pad8 (omega (arith, h.0));
}

abbrev packages : CipherPackages
packages = record {
  cast5_key_size = 16;
  des_block_size = 8;
  new_triple_des = λ key. some cipher8;
  new_cast5 = λ key. some cipher8;
  new_aes = λ key. some xor_cipher;
}

packages-ArePackages : ArePackages packages
packages-ArePackages = record {
  makes_triple_des = λ key size. (cipher8, refl, cipher8-IsCipher, refl);
  makes_cast5 = λ key size. (cipher8, refl, cipher8-IsCipher, refl);
  makes_aes = λ key size. (xor_cipher, refl, xor_cipher-IsCipher, refl);
  large_blocks = omega arith;
}

abbrev key : Bytes
key = replicate 16 3

key-IsKeyFor : IsKeyFor packages 7 key
unfolding key_size is_supported
key-IsKeyFor = record { supported = refl; fits = refl }

abbrev sum : Bytes → Bytes
sum xs = replicate 20 (length xs % 256)

abbrev random : ℕ → Result Bytes
random n = ok (replicate n 77)

abbrev body : Bytes
body = 1 ∷ 2 ∷ 3 ∷ []

decrypt_mdc-serialize_mdc_example :
    (out : Bytes) × (se se' : SymmetricallyEncrypted) × (r : SeMdcReader StreamReader)
    × (serialize_mdc packages sum random 7 key body ≡ ok out)
    × (parse_encrypted packages (new_encrypted true) out ≡ ok se)
    × (decrypt_mdc packages 7 key se ≡ ok (protected r, se'))
    × let (got, r') = read_to_end (mdc_read (stream_read (λ bs n. 5))) 4 26 r in
      (got ≡ ok body) × ((mdc_close (stream_read (λ bs n. 5)) sum 26 r').0 ≡ ok tt)
unfolding block_size
decrypt_mdc-serialize_mdc_example =
    decrypt_mdc-serialize_mdc packages (λ bs n. 5) sum random 7 key body (replicate 16 77) 4 26
      packages-ArePackages key-IsKeyFor (omega arith) refl refl
      (λ xs. length-replicate {A = ℕ} 20 (length xs % 256)) (omega arith) (omega arith)
