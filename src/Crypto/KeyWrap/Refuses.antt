-- ===== src/Crypto/KeyWrap/Refuses.antt =====
-- What Unwrap makes of any text.
use go_crypto.Base.{
  ◌-◌, ◌/◌, ◌%◌, false, Bool-cases, Option, some, [], ◌∷◌, length, take, drop, concat, Bytes,
  AreBytes, ok, err, panic, ltb, ◌==◌, ◌≡◌, ◌≢◌, ◌⊎◌, inl, inr, refl, subst, arith,
}
use go_crypto.Crypto.Block.{Block, IsCipher}
use go_crypto.Crypto.KeyWrap.{
  registers, unwrap_rounds, is_initial_value, cipher_of, wrap, unwrap, err_unwrap_ciphertext,
  err_unwrap_failed,
}
use go_crypto.Crypto.KeyWrap.Laws.{unwrap-wrap, wrap-unwrap}

module _ (new_cipher : Bytes → Option Block) (key : Bytes) where
  wrap_ok_length :
      (plain sealed : Bytes) → wrap new_cipher key plain ≡ ok sealed → length plain % 8 ≡ 0
  unfolding wrap
  wrap_ok_length plain sealed made = elim (Bool-cases (length plain % 8 == 0)) [
    | inl whole ↦ ground (arith, whole)
    | inr part ↦ absurd (let never = rw part at made in cc never)
  ]

  -- What Wrap makes of a text of bytes is accepted.
  unwrap_wrapped :
      (c : Block) (sealed plain : Bytes)
      → new_cipher key ≡ some c
      → c.block_size ≡ 16
      → IsCipher c
      → AreBytes plain
      → wrap new_cipher key plain ≡ ok sealed
      → unwrap new_cipher key sealed ≡ ok plain
  unwrap_wrapped c sealed plain k size cipher bytes made =
      let (sealed', made', longer, opens) =
        unwrap-wrap new_cipher key c plain k size cipher (wrap_ok_length plain sealed made) bytes in
      let same : sealed' ≡ sealed = cc in subst (λ t. unwrap new_cipher key t ≡ ok plain) same opens

  -- A text that is refused was not wrapped.
  refused-wrap :
      (c : Block) (sealed plain : Bytes)
      → new_cipher key ≡ some c
      → c.block_size ≡ 16
      → IsCipher c
      → AreBytes plain
      → unwrap new_cipher key sealed ≢ ok plain
      → wrap new_cipher key plain ≢ ok sealed
  refused-wrap c sealed plain k size cipher bytes refused made =
      refused (unwrap_wrapped c sealed plain k size cipher bytes made)

  unwrap_part :
      (text : Bytes)
      → (length text % 8 == 0) ≡ false
      → unwrap new_cipher key text ≡ err err_unwrap_ciphertext
  unfolding unwrap
  unwrap_part text part = rw part refl

  -- What Unwrap makes of a text of whole blocks with a good key.
  unwrap_whole :
      (c : Block) (text : Bytes)
      → new_cipher key ≡ some c
      → length text % 8 ≡ 0
      → ((text ≡ []) × (unwrap new_cipher key text ≡ panic))
        ⊎ ((plain : Bytes) × (unwrap new_cipher key text ≡ ok plain))
        ⊎ (unwrap new_cipher key text ≡ err err_unwrap_failed)
  unfolding unwrap
  unwrap_whole c [] k whole = inl (refl, rw (k, cipher_of) refl)
  unwrap_whole c (b ∷ text) k whole =
      let cipher_text : Bytes = b ∷ text in
      let enough : ltb (length cipher_text) 8 ≡ false = ground arith in
      let n = length cipher_text / 8 - 1 in
      let (a, rs) = unwrap_rounds c 6 (take 8 cipher_text, registers n (drop 8 cipher_text)) in
      elim (Bool-cases (is_initial_value a)) [
        | inl good ↦ inr (inl (concat rs, rw (unwrap, whole, k, cipher_of, enough, good) refl))
        | inr bad ↦ inr (inr (rw (unwrap, whole, k, cipher_of, enough, bad) refl))
      ]

  -- Over a true block cipher of 16-byte blocks that the key gives, and for any byte strings as the
  -- ciphertext and as a plaintext, one of these holds: the ciphertext is not whole 64-bit blocks and
  -- Unwrap says so; it is empty and Unwrap panics; Unwrap gives a text from which Wrap makes the
  -- ciphertext; or Unwrap fails. Where Unwrap gives no text, Wrap does not make the ciphertext of
  -- the plaintext.
  pub unwrap_refuses :
      (c : Block) (sealed plain : Bytes)
      → new_cipher key ≡ some c
      → c.block_size ≡ 16
      → IsCipher c
      → AreBytes sealed
      → AreBytes plain
      → ((length sealed % 8 ≢ 0)
          × (unwrap new_cipher key sealed ≡ err err_unwrap_ciphertext)
          × (wrap new_cipher key plain ≢ ok sealed))
        ⊎ ((sealed ≡ [])
            × (unwrap new_cipher key sealed ≡ panic)
            × (wrap new_cipher key plain ≢ ok sealed))
        ⊎ ((text : Bytes) × (unwrap new_cipher key sealed ≡ ok text)
            × (wrap new_cipher key text ≡ ok sealed))
        ⊎ ((unwrap new_cipher key sealed ≡ err err_unwrap_failed)
            × (wrap new_cipher key plain ≢ ok sealed))
  unwrap_refuses c sealed plain k size cipher bytes plain_bytes =
      let refused = refused-wrap c sealed plain k size cipher plain_bytes in
      elim (Bool-cases (length sealed % 8 == 0)) [
        | inr part ↦
            let e = unwrap_part sealed part in inl (ground (arith, part), e, refused (λ o. cc))
        | inl whole ↦ elim (unwrap_whole c sealed k (ground (arith, whole))) [
          | inl (nil, e) ↦ inr (inl (nil, e, refused (λ o. cc)))
          | inr (inl (text, e)) ↦
              inr (
                inr (inl (text, e, wrap-unwrap new_cipher key c sealed text k size cipher bytes e)))
          | inr (inr e) ↦ inr (inr (inr (e, refused (λ o. cc))))
        ]
      ]
