-- ===== src/Packet/Chunked/Tests.antt =====
-- Data in chunks, over EAX with a small concrete cipher.
use go_crypto.Base.{List, [], ◌∷◌, replicate, concat, Bytes, ok, err, ◌≡◌, refl, arith, inl}
use go_crypto.Crypto.Eax.{Eax, eax_error}
use go_crypto.Crypto.Tests.{xor_cipher, xor_cipher-IsCipher}
use go_crypto.Io.Source.{read_to_end}
use go_crypto.Packet.Chunked.{AeadCrypter, AeadEncrypter, AeadDecrypter, aead_read, new_decrypter}
use go_crypto.Packet.Chunked.RoundTrip.{
  IsFresh, write_pieces, new_encrypter, aead_read-aead_write, aead_read-aead_write_whole,
}
use go_crypto.Packet.Chunked.Eax.{eax_mode, eax_mode-IsAead, eax_mode-Refuses}

abbrev eax16 : Eax
eax16 = record { block = xor_cipher; tag_size = 16; nonce_size = 16 }

-- Chunks of four bytes.
abbrev crypter : AeadCrypter
crypter = record {
  aead = eax_mode eax16;
  chunk_size = 4;
  initial_nonce = 1 ∷ 2 ∷ 3 ∷ 4 ∷ 5 ∷ 6 ∷ 7 ∷ 8 ∷ [];
  associated_data = 210 ∷ 2 ∷ 9 ∷ 1 ∷ 0 ∷ [];
  chunk_index = replicate 8 0;
  packet_tag = 18;
  bytes_processed = 0;
}

crypter-IsFresh : IsFresh 16 crypter
crypter-IsFresh = record {
  ready = record {
    aead = eax_mode-IsAead eax16 refl xor_cipher-IsCipher (omega arith);
    nonce = inl (refl, refl);
    index_size = refl;
    index_bytes = omega arith;
    nonce_bytes = omega arith;
    data_bytes = omega arith;
  };
  room = omega arith;
  index = refl;
  processed = refl;
}

abbrev pieces : List Bytes
pieces = (1 ∷ 2 ∷ 3 ∷ []) ∷ (4 ∷ 5 ∷ 6 ∷ []) ∷ []

abbrev whole : List Bytes
whole = (1 ∷ 2 ∷ 3 ∷ []) ∷ (4 ∷ []) ∷ []

aead_read-aead_write_example :
    (aw : AeadEncrypter) × (ar : AeadDecrypter) × (write_pieces pieces (new_encrypter crypter)
      ≡ (ok tt, aw))
    × (new_decrypter crypter aw.written ≡ ok ar)
    × ((read_to_end aead_read 3 8 ar).0 ≡ ok (concat pieces))
aead_read-aead_write_example =
    aead_read-aead_write 16 crypter crypter-IsFresh pieces 3 8 (omega arith) (omega arith)
      (λ n e. omega (arith, e)) (omega arith) (omega arith)

aead_read-aead_write_whole_example :
    (aw : AeadEncrypter) × (ar : AeadDecrypter) × (write_pieces whole (new_encrypter crypter)
      ≡ (ok tt, aw))
    × (new_decrypter crypter aw.written ≡ ok ar)
    × ((read_to_end aead_read 3 6 ar).0 ≡ err eax_error)
unfolding eax_mode
aead_read-aead_write_whole_example =
    aead_read-aead_write_whole 16 crypter crypter-IsFresh whole 0 3 6 eax_error
      (eax_mode-Refuses eax16) (λ e. absurd cc) (omega arith) (omega arith) (omega arith) refl
      (omega arith) (omega arith)
