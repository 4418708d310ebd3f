-- ===== src/Crypto/Eax/RoundTrip.antt =====
-- What `Seal` returns `Open` opens, and nothing else, with the destination cut as the code cuts it.
use go_crypto.Base.{
  ℕ, ◌+◌, ◌-◌, ◌/◌, ◌%◌, ◌≤◌, ◌<◌, false, Bool-cases, inl, inr, [], ◌∷◌, ◌++◌, length, take, drop,
  replicate, Bytes, AreBytes, IsByte, ok, bytes_equal, bytes_equal_refl, bytes_equal-eq, ltb,
  ltb-eq-false, ◌==◌, ◌≡◌, refl, sym, ap, ◌∙◌, arith, length-append, length-take, length-drop,
  length-replicate, take-append, drop-append, take-append-drop, take_all, All-append, All-take,
  All-drop, All-replicate,
}
use go_crypto.ByteUtil.{gfn_double, xor_bytes, right_xor}
use go_crypto.ByteUtil.Laws.{
  length-xor_bytes, xor_bytes-AreBytes, length-right_xor, gfn_double-AreBytes,
}
use go_crypto.Crypto.Block.{Block, IsBlock, IsCipher}
use go_crypto.Crypto.Modes.{
  ctr_crypt, cbc_encrypt, ctr_crypt-ctr_crypt, ctr_crypt-AreBytes, cbc_encrypt-AreBytes,
  length-ctr_crypt,
}
use go_crypto.Crypto.Eax.{Eax, pad, omac, omac_t, eax_tag, eax_seal, eax_open}

right_xor-AreBytes : (xs ys : Bytes) → AreBytes xs → AreBytes ys → AreBytes (right_xor xs ys)
unfolding right_xor
right_xor-AreBytes xs ys hx hy =
    let offset = length xs - length ys in
    All-append IsByte (take offset xs) _ (All-take IsByte offset xs hx)
      (xor_bytes-AreBytes (drop offset xs) ys (All-drop IsByte offset xs hx) hy)

ok-injective : {x y : Bytes} → ok x ≡ ok y → x ≡ y
ok-injective e = cc

-- A padded text is whole blocks, one at least.
pad-AreBytes :
    (xs b2 b4 : Bytes)
    → AreBytes xs
    → AreBytes b2
    → AreBytes b4
    → let p = pad 16 xs b2 b4 in AreBytes p × (length p % 16 ≡ 0) × (16 ≤ length p)
unfolding pad
pad-AreBytes xs b2 b4 hx h2 h4 =
    let ending : Bytes = 128 ∷ replicate (16 - length xs % 16 - 1) 0 in
    let size : length ending ≡ 16 - length xs % 16 =
      omega (arith, length-replicate {A = ℕ} (16 - length xs % 16 - 1) 0) in
    let he : AreBytes ending =
      (omega arith, All-replicate IsByte (16 - length xs % 16 - 1) 0 (omega arith)) in
    let whole = length-append xs ending in
    elim (Bool-cases (length xs == 0)) [
      | inl none ↦ rw none (
        right_xor-AreBytes (xs ++ ending) b4 (All-append IsByte xs ending hx he) h4,
        omega (arith, length-right_xor (xs ++ ending) b4, whole, size),
        omega (arith, length-right_xor (xs ++ ending) b4, whole, size),
      )
      | inr some ↦ elim (Bool-cases (length xs % 16 == 0)) [
        | inl full ↦
            rw (some, full)
              (
                right_xor-AreBytes xs b2 hx h2,
                ground (arith, length-right_xor xs b2, full),
                ground (arith, length-right_xor xs b2, full, some),
              )
        | inr part ↦
            rw (some, part)
              (
                right_xor-AreBytes (xs ++ ending) b4 (All-append IsByte xs ending hx he) h4,
                omega (arith, length-right_xor (xs ++ ending) b4, whole, size),
                omega (arith, length-right_xor (xs ++ ending) b4, whole, size),
              )
      ]
    ]

pad_of-AreBytes :
    (n : ℕ) (xs b2 b4 : Bytes)
    → n ≡ 16
    → AreBytes xs
    → AreBytes b2
    → AreBytes b4
    → let p = pad n xs b2 b4 in AreBytes p × (length p % 16 ≡ 0) × (16 ≤ length p)
pad_of-AreBytes n xs b2 b4 e hx h2 h4 = rw e (pad-AreBytes xs b2 b4 hx h2 h4)

module _ (b : Block) (size : b.block_size ≡ 16) (cipher : IsCipher b) where
  omac-IsBlock : (xs : Bytes) → AreBytes xs → IsBlock b (omac b xs)
  unfolding omac
  omac-IsBlock xs hx =
      let n = b.block_size in
      let zeros : Bytes = replicate n 0 in
      let hz : IsBlock b zeros =
        (length-replicate {A = ℕ} n 0, All-replicate IsByte n 0 (omega arith)) in
      let l = b.encrypt zeros in
      let b2 = gfn_double l in
      let h2 : AreBytes b2 = gfn_double-AreBytes l (cipher.encrypt-IsBlock zeros hz).1 in
      let padded = pad n xs b2 (gfn_double b2) in
      let (hp, whole, some) =
        pad_of-AreBytes n xs b2 (gfn_double b2) size hx h2 (gfn_double-AreBytes b2 h2) in
      let m = length padded / n in
      let count : m ≡ length padded / 16 = ap (λ (t : ℕ). length padded / t) size in
      let (lo, ho) =
        cbc_encrypt-AreBytes b size cipher m zeros padded hz hp (omega (arith, count)) in
      let out = cbc_encrypt b m zeros padded in
      (
        omega (arith, length-drop (length out - n) out, lo, count, size),
        All-drop IsByte (length out - n) out ho,
      )

  omac_t-IsBlock : (t : ℕ) (xs : Bytes) → t < 256 → AreBytes xs → IsBlock b (omac_t b t xs)
  unfolding omac_t
  omac_t-IsBlock t xs ht hx =
      let front : Bytes = replicate (b.block_size - 1) 0 in
      omac-IsBlock (front ++ t ∷ xs) (
        All-append IsByte front (t ∷ xs) (All-replicate IsByte (b.block_size - 1) 0 (omega arith))
          (ht, hx))

-- An instance over a true block cipher of 16-byte blocks, and a nonce and additional data of bytes.
pub record IsReadyEax (e : Eax) (nonce adata : Bytes) : Type 0 where
  pub size : e.block.block_size ≡ 16
  pub cipher : IsCipher e.block
  pub tag : e.tag_size ≤ 16
  pub fits : length nonce ≤ e.nonce_size
  pub nonce_bytes : AreBytes nonce
  pub adata_bytes : AreBytes adata

module _ (e : Eax) (nonce adata : Bytes) (r : IsReadyEax e nonce adata) where
  length-eax_tag : (text : Bytes) → AreBytes text → length (eax_tag e nonce text adata) ≡ e.tag_size
  unfolding eax_tag
  length-eax_tag text h =
      let c = omac_t e.block 2 text in
      let n = omac_t e.block 0 nonce in
      let a = omac_t e.block 1 adata in
      omega (
        arith,
        length-take e.tag_size (xor_bytes (xor_bytes c n) a),
        length-xor_bytes (xor_bytes c n) a,
        length-xor_bytes c n,
        (omac_t-IsBlock e.block r.size r.cipher 2 text (omega arith) h).0,
        r.size,
        r.tag,
      )

  abbrev eax_iv : Bytes
  eax_iv = omac_t e.block 0 nonce

  eax_iv-IsBlock : IsBlock e.block eax_iv
  eax_iv-IsBlock = omac_t-IsBlock e.block r.size r.cipher 0 nonce (omega arith) r.nonce_bytes

  -- Over a block cipher of 16-byte blocks, with a tag of at most 16 bytes, a nonce that fits and
  -- byte strings, EAX Seal puts a text of the plaintext's length and the tag behind its destination,
  -- and Open of that, with the same nonce and data, returns the first bytes of its own destination
  -- and the plaintext, as many as the plaintext has: all of the plaintext only if that destination
  -- is empty.
  pub eax_open-eax_seal :
      (dst1 dst2 plaintext : Bytes)
      → AreBytes plaintext
      → (sealed : Bytes) × (eax_seal e dst1 nonce plaintext adata ≡ ok (dst1 ++ sealed))
        × (length sealed ≡ length plaintext + e.tag_size)
        × (eax_open e dst2 nonce sealed adata ≡ ok (take (length plaintext) (dst2 ++ plaintext)))
  unfolding eax_seal eax_open
  eax_open-eax_seal dst1 dst2 plaintext h =
      let text = ctr_crypt e.block eax_iv plaintext in
      let ht = ctr_crypt-AreBytes e.block r.size r.cipher eax_iv plaintext eax_iv-IsBlock h in
      let lt = length-ctr_crypt e.block eax_iv plaintext in
      let tag = eax_tag e nonce text adata in
      let size : length (text ++ tag) ≡ length plaintext + e.tag_size =
        omega (arith, length-append text tag, lt, length-eax_tag text ht) in
      let fits : ltb e.nonce_size (length nonce) ≡ false = ground (arith, r.fits) in
      let long : ltb (length (text ++ tag)) e.tag_size ≡ false = ground (arith, size) in
      let sep : length (text ++ tag) - e.tag_size ≡ length plaintext = omega (arith, size) in
      (
        text ++ tag,
        rw fits refl,
        size,
        rw
            (
              fits,
              long,
              sep,
              take-append (length plaintext) text tag lt,
              drop-append (length plaintext) text tag lt,
              bytes_equal_refl tag,
              ctr_crypt-ctr_crypt e.block r.size r.cipher eax_iv plaintext eax_iv-IsBlock,
            )
            refl,
      )

  -- What a text that is opened is like.
  record Opened (sealed plaintext : Bytes) : Type 0 where
    long : e.tag_size ≤ length sealed
    same :
        drop (length sealed - e.tag_size) sealed
        ≡ eax_tag e nonce (take (length sealed - e.tag_size) sealed) adata
    text :
        take
          (length sealed - e.tag_size)
          (ctr_crypt e.block eax_iv (take (length sealed - e.tag_size) sealed))
        ≡ plaintext

  eax_open-Opened :
      (sealed plaintext : Bytes)
      → eax_open e [] nonce sealed adata ≡ ok plaintext
      → Opened sealed plaintext
  unfolding eax_open
  eax_open-Opened sealed plaintext opened =
      let fits : ltb e.nonce_size (length nonce) ≡ false = ground (arith, r.fits) in
      let sep = length sealed - e.tag_size in
      let tag = eax_tag e nonce (take sep sealed) adata in
      elim (Bool-cases (ltb (length sealed) e.tag_size)) [
        | inl short ↦ cc (rw (fits, short) at opened)
        | inr long ↦ elim (Bool-cases (bytes_equal (drop sep sealed) tag)) [
          | inl same ↦ record {
            long = ltb-eq-false _ _ long;
            same = bytes_equal-eq _ _ same;
            text = ok-injective (rw (fits, long, same) at opened);
          }
          | inr other ↦ cc (rw (fits, long, other) at opened)
        ]
      ]

  -- Over a block cipher of 16-byte blocks, with a tag of at most 16 bytes and a nonce that fits,
  -- whatever byte string EAX Open accepts, into an empty destination, is what Seal makes of the
  -- returned text with the same nonce and data.
  pub eax_seal-eax_open :
      (sealed plaintext : Bytes)
      → AreBytes sealed
      → eax_open e [] nonce sealed adata ≡ ok plaintext
      → eax_seal e [] nonce plaintext adata ≡ ok sealed
  unfolding eax_seal
  eax_seal-eax_open sealed plaintext h opened =
      let fits : ltb e.nonce_size (length nonce) ≡ false = ground (arith, r.fits) in
      let sep = length sealed - e.tag_size in
      let o = eax_open-Opened sealed plaintext opened in
      let text = take sep sealed in
      let clear = ctr_crypt e.block eax_iv text in
      let size : length clear ≤ sep =
        omega (arith, length-ctr_crypt e.block eax_iv text, length-take sep sealed) in
      let same : clear ≡ plaintext = sym (take_all sep clear size) ∙ o.text in
      rw
        (
          fits,
          ← same,
          ctr_crypt-ctr_crypt e.block r.size r.cipher eax_iv text eax_iv-IsBlock,
          ← o.same,
          take-append-drop sep sealed,
        )
        refl
