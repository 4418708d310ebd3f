-- ===== src/Crypto/Tests.antt =====
-- The modes of operation over a small concrete cipher.
use go_crypto.Base.{
  ◌⊎◌, ◌+◌, ◌%◌, [], ◌∷◌, ◌++◌, length, Bytes, Option, some, ok, err, panic, ◌≡◌, ◌≢◌, refl, ◌∙◌,
  arith, bytes_equal,
}
use go_crypto.Base.Words.{put_be_uint64, be_uint64}
use go_crypto.ByteUtil.{
  xor_bytes, gfn_double, shift_bytes_left, xor_last, shift_n_bytes_left, shift_bits_left, right_xor,
}
use go_crypto.ByteUtil.Laws.{xor_bytes_cancel, length-xor_bytes, xor_bytes-AreBytes}
use go_crypto.Crypto.Block.{Block, IsBlock, IsCipher}
use go_crypto.Crypto.Ocb.{
  Ocb, enc, ocb_error, crypt, seal, open_sealed, ktop_for, padded_nonce, mask_last, or_head,
  text_run, crypt_blocks, crypt_block, crypt_tail, mask_at, extend_table, extend_by, trailing_zeros,
  initial_offset, plain_of, hash, hash_blocks,
}
use go_crypto.Crypto.Ocb.Ready.{IsReady, fresh, fresh-IsReady, fresh-IsValid}
use go_crypto.Crypto.Ocb.RoundTrip.{open_sealed-seal, seal-open_sealed, open_sealed_dst}
use go_crypto.Crypto.Ocb.Spec.{ocb_crypt}
use go_crypto.Crypto.Ocb.Spec.Refines.{IsValid, crypt-ocb_crypt}
use go_crypto.Crypto.KeyWrap.{
  wrap, unwrap, unwrap_rounds, unwrap_round, registers, xor_counter, is_initial_value, cipher_of,
  err_unwrap_ciphertext, err_unwrap_failed,
}
use go_crypto.Crypto.KeyWrap.Laws.{unwrap-wrap, wrap-unwrap}
use go_crypto.Crypto.KeyWrap.Refuses.{unwrap_refuses}

abbrev pad : Bytes
pad = 17 ∷ 34 ∷ 51 ∷ 68 ∷ 85 ∷ 102 ∷ 119 ∷ 136 ∷ 153 ∷ 170 ∷ 187 ∷ 204 ∷ 221 ∷ 238 ∷ 255 ∷ 1 ∷ []

-- A cipher that adds a fixed block.
abbrev pub xor_cipher : Block
xor_cipher = record {
  block_size = 16;
  encrypt = λ b. xor_bytes b pad;
  decrypt = λ b. xor_bytes b pad;
}

xor_pad-IsBlock : (b : Bytes) → IsBlock xor_cipher b → IsBlock xor_cipher (xor_bytes b pad)
xor_pad-IsBlock b h = (length-xor_bytes b pad ∙ h.0, xor_bytes-AreBytes b pad h.1 (omega arith))

xor_pad-undone : (b : Bytes) → IsBlock xor_cipher b → xor_bytes (xor_bytes b pad) pad ≡ b
xor_pad-undone b h = xor_bytes_cancel b pad (omega (arith, h.0))

pub xor_cipher-IsCipher : IsCipher xor_cipher
xor_cipher-IsCipher = record {
  encrypt-IsBlock = xor_pad-IsBlock;
  decrypt-IsBlock = xor_pad-IsBlock;
  decrypt-encrypt = xor_pad-undone;
  encrypt-decrypt = xor_pad-undone;
}

abbrev one_key : Bytes → Option Block
one_key key = some xor_cipher

abbrev nonce : Bytes
nonce = 7 ∷ 9 ∷ 200 ∷ []

abbrev plain : Bytes
plain = 1 ∷ 2 ∷ 3 ∷ 4 ∷ 5 ∷ 6 ∷ 7 ∷ 8 ∷ 9 ∷ 10 ∷ 11 ∷ 12 ∷ 13 ∷ 14 ∷ 15 ∷ 16 ∷ 17 ∷ 18 ∷ []

abbrev adata : Bytes
adata = 104 ∷ 105 ∷ []

abbrev sample : Ocb
sample = fresh xor_cipher 12 8

abbrev sealed : Bytes
sealed =
    16 ∷ 32 ∷ 48 ∷ 64 ∷ 80 ∷ 96 ∷ 112 ∷ 128 ∷ 144 ∷ 160 ∷ 176 ∷ 192 ∷ 208 ∷ 224 ∷ 240 ∷ 17 ∷ 119
    ∷ 169 ∷ 60 ∷ 134 ∷ 236 ∷ 200 ∷ 156 ∷ 36 ∷ 190 ∷ 162 ∷ []

abbrev key_data : Bytes
key_data = 1 ∷ 2 ∷ 3 ∷ 4 ∷ 5 ∷ 6 ∷ 7 ∷ 8 ∷ []

abbrev wrapped : Bytes
wrapped = 166 ∷ 166 ∷ 166 ∷ 166 ∷ 166 ∷ 166 ∷ 166 ∷ 161 ∷ key_data

sample-IsReady : IsReady sample nonce
sample-IsReady =
    fresh-IsReady xor_cipher 12 8 nonce xor_cipher-IsCipher (omega arith) (omega arith)
      (omega arith) (omega arith)

opened_12 : (open_sealed sample [] nonce sealed adata).0 ≡ ok plain
unfolding open_sealed crypt ktop_for padded_nonce mask_last or_head text_run crypt_blocks
    crypt_block crypt_tail mask_at extend_table extend_by trailing_zeros initial_offset plain_of
    hash hash_blocks xor_bytes gfn_double shift_bytes_left xor_last shift_n_bytes_left
    shift_bits_left right_xor bytes_equal
opened_12 = refl

unwrapped : unwrap one_key [] wrapped ≡ ok key_data
unfolding unwrap unwrap_rounds unwrap_round registers xor_counter is_initial_value cipher_of
    xor_bytes put_be_uint64 be_uint64
unwrapped = refl

open_sealed-seal_example :
    (text : Bytes) × ((seal sample key_data nonce plain adata).0 ≡ ok (key_data ++ text))
    × (length text ≡ length plain + 8)
    × ((open_sealed sample [] nonce text adata).0 ≡ ok plain)
open_sealed-seal_example =
    open_sealed-seal sample sample key_data nonce plain adata sample-IsReady sample-IsReady refl
      refl (omega arith)

seal-open_sealed_example : (seal sample [] nonce plain adata).0 ≡ ok sealed
seal-open_sealed_example =
    seal-open_sealed sample sample nonce sealed plain adata sample-IsReady sample-IsReady refl refl
      (omega arith) opened_12

open_sealed_dst_example : (open_sealed sample key_data nonce sealed adata).0 ≡ err ocb_error
open_sealed_dst_example =
    open_sealed_dst sample key_data nonce sealed adata sample-IsReady (omega arith) (omega arith)

nonce_ne : nonce ≢ []
nonce_ne e = cc

crypt-ocb_crypt_example :
    ((crypt sample enc nonce adata plain).0 ≡ ocb_crypt xor_cipher enc 8 nonce adata plain)
    × IsValid (crypt sample enc nonce adata plain).1
    × ((crypt sample enc nonce adata plain).1.block ≡ xor_cipher)
    × ((crypt sample enc nonce adata plain).1.tag_size ≡ 8)
    × ((crypt sample enc nonce adata plain).1.nonce_size ≡ 12)
crypt-ocb_crypt_example =
    crypt-ocb_crypt sample enc nonce adata plain (fresh-IsValid xor_cipher 12 8) nonce_ne

unwrap-wrap_example :
    (text : Bytes) × (wrap one_key [] key_data ≡ ok text)
    × (length text ≡ length key_data + 8)
    × (unwrap one_key [] text ≡ ok key_data)
unwrap-wrap_example =
    unwrap-wrap one_key [] xor_cipher key_data refl refl xor_cipher-IsCipher refl (omega arith)

wrap-unwrap_example : wrap one_key [] key_data ≡ ok wrapped
wrap-unwrap_example =
    wrap-unwrap one_key [] xor_cipher wrapped key_data refl refl xor_cipher-IsCipher (omega arith)
      unwrapped

-- The wrapped key with a changed byte.
abbrev damaged : Bytes
damaged = 167 ∷ 166 ∷ 166 ∷ 166 ∷ 166 ∷ 166 ∷ 166 ∷ 161 ∷ key_data

unwrap_refuses_example :
    ((length damaged % 8 ≢ 0)
      × (unwrap one_key [] damaged ≡ err err_unwrap_ciphertext)
      × (wrap one_key [] key_data ≢ ok damaged))
    ⊎ ((damaged ≡ [])
        × (unwrap one_key [] damaged ≡ panic)
        × (wrap one_key [] key_data ≢ ok damaged))
    ⊎ ((text : Bytes) × (unwrap one_key [] damaged ≡ ok text) × (wrap one_key [] text ≡ ok damaged))
    ⊎ ((unwrap one_key [] damaged ≡ err err_unwrap_failed)
        × (wrap one_key [] key_data ≢ ok damaged))
unwrap_refuses_example =
    unwrap_refuses one_key [] xor_cipher damaged key_data refl refl xor_cipher-IsCipher
      (omega arith) (omega arith)
