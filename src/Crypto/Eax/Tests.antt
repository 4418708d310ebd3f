-- ===== src/Crypto/Eax/Tests.antt =====
-- EAX over a small concrete cipher.
use go_crypto.Base.{◌+◌, [], ◌∷◌, ◌++◌, length, take, Bytes, ok, ◌≡◌, refl, arith, bytes_equal}
use go_crypto.ByteUtil.{xor_bytes, gfn_double, right_xor, shift_bytes_left, xor_last}
use go_crypto.Crypto.Modes.{next_counter, ctr_stream, ctr_crypt, cbc_encrypt}
use go_crypto.Crypto.Eax.{Eax, eax_seal, eax_open}
use go_crypto.Crypto.Eax.RoundTrip.{IsReadyEax, eax_open-eax_seal, eax_seal-eax_open}
use go_crypto.Crypto.Tests.{xor_cipher, xor_cipher-IsCipher}

abbrev eax8 : Eax
eax8 = record { block = xor_cipher; tag_size = 8; nonce_size = 12 }

abbrev nonce : Bytes
nonce = 1 ∷ 2 ∷ 3 ∷ []

abbrev adata : Bytes
adata = 7 ∷ 8 ∷ []

abbrev text : Bytes
text = 1 ∷ 2 ∷ 3 ∷ 4 ∷ 5 ∷ []

abbrev front : Bytes
front = 200 ∷ 201 ∷ []

eax8-IsReadyEax : IsReadyEax eax8 nonce adata
eax8-IsReadyEax = record {
  size = refl;
  cipher = xor_cipher-IsCipher;
  tag = omega arith;
  fits = omega arith;
  nonce_bytes = omega arith;
  adata_bytes = omega arith;
}

eax_open-eax_seal_example :
    (sealed : Bytes) × (eax_seal eax8 [] nonce text adata ≡ ok ([] ++ sealed))
    × (length sealed ≡ length text + 8)
    × (eax_open eax8 front nonce sealed adata ≡ ok (take (length text) (front ++ text)))
eax_open-eax_seal_example =
    eax_open-eax_seal eax8 nonce adata eax8-IsReadyEax [] front text (omega arith)

abbrev sealed_text : Bytes
sealed_text = 85 ∷ 170 ∷ 254 ∷ 209 ∷ 5 ∷ 23 ∷ 40 ∷ 176 ∷ 64 ∷ 80 ∷ 25 ∷ 222 ∷ 34 ∷ []

opened_text : eax_open eax8 [] nonce sealed_text adata ≡ ok text
unfolding eax_open ctr_crypt cbc_encrypt xor_bytes gfn_double right_xor bytes_equal next_counter
    ctr_stream shift_bytes_left xor_last
opened_text = refl

eax_seal-eax_open_example : eax_seal eax8 [] nonce text adata ≡ ok sealed_text
eax_seal-eax_open_example =
    eax_seal-eax_open eax8 nonce adata eax8-IsReadyEax sealed_text text (omega arith) opened_text
