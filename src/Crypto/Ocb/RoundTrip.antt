-- ===== src/Crypto/Ocb/RoundTrip.antt =====
-- What `seal` returns `open_sealed` opens, and nothing else.
use go_crypto.Base.{
  ℕ, ◌+◌, ◌-◌, ◌≤◌, ◌<◌, true, Bool-cases, inl, inr, [], ◌∷◌, ◌++◌, length, take, drop, Bytes,
  AreBytes, IsByte, Result, ok, err, bytes_equal, bytes_equal_refl, bytes_equal-eq, ltb,
  ltb-eq-false, if◌then◌else◌, ◌≡◌, ◌≢◌, refl, sym, ap, ◌∙◌, arith, length-append, length-take,
  length-drop, take-append, drop-append, take-append-drop, All-take,
}
use go_crypto.ByteUtil.{xor_bytes}
use go_crypto.ByteUtil.Laws.{length-xor_bytes}
use go_crypto.Crypto.Ocb.{Ocb, Instruction, enc, dec, ocb_error, seal, open_sealed}
use go_crypto.Crypto.Ocb.Spec.{l_dol, hash_value, pass_text, tag_of, ocb_crypt}
use go_crypto.Crypto.Ocb.Spec.Refines.{crypt-ocb_crypt}
use go_crypto.Crypto.Ocb.Ready.{IsReady}
use go_crypto.Crypto.Ocb.Blocks.{Is16, xor_bytes-Is16, l_dol-Is16, encrypt-Is16}
use go_crypto.Crypto.Ocb.Flip.{flip}
use go_crypto.Crypto.Ocb.Flip.Whole.{pass_text-flip}

ok-injective : {A : Type 0} {x y : A} → ok x ≡ ok y → x ≡ y
ok-injective e = cc

ne-nil : (xs : Bytes) → 0 < length xs → xs ≢ []
ne-nil [] h e = omega (arith, h)
ne-nil (x ∷ xs) h e = cc

seal-eq :
    (o : Ocb) (dst nonce plaintext adata : Bytes)
    → IsReady o nonce
    → (seal o dst nonce plaintext adata).0
      ≡ ok (dst ++ ocb_crypt o.block enc o.tag_size nonce adata plaintext)
unfolding seal
seal-eq o dst nonce plaintext adata r =
    let c = crypt-ocb_crypt o enc nonce adata plaintext r.valid (ne-nil nonce r.some) in
    ground (arith, c.0, r.some, r.fits)

-- What is accepted, of what `crypt` wrote over `dst` and the tag behind the text.
abbrev checked : ℕ → Bytes → Bytes → Result Bytes
checked sep ret ciphertext =
    if bytes_equal (drop sep ret) (drop sep ciphertext) then ok (take sep ret) else err ocb_error

open_sealed-eq :
    (o : Ocb) (dst nonce ciphertext adata : Bytes)
    → IsReady o nonce
    → o.tag_size ≤ length ciphertext
    → let sep = length ciphertext - o.tag_size in
      (open_sealed o dst nonce ciphertext adata).0
      ≡ checked sep
          (dst ++ ocb_crypt o.block dec o.tag_size nonce adata (take sep ciphertext))
          ciphertext
unfolding open_sealed
open_sealed-eq o dst nonce ciphertext adata r h =
    let text = take (length ciphertext - o.tag_size) ciphertext in
    let c = crypt-ocb_crypt o dec nonce adata text r.valid (ne-nil nonce r.some) in
    ground (arith, c.0, r.some, r.fits)

length-tag_of :
    (o : Ocb) (nonce offset sum adata : Bytes)
    → IsReady o nonce
    → Is16 offset
    → Is16 sum
    → length (tag_of o.block o.tag_size offset sum adata) ≡ o.tag_size
unfolding tag_of
length-tag_of o nonce offset sum adata r ho hs =
    let b = o.block in
    let masked =
      xor_bytes-Is16 _ (l_dol b) (xor_bytes-Is16 sum offset hs ho.1)
        (l_dol-Is16 b r.size r.cipher).1 in
    let whole =
      xor_bytes (b.encrypt (xor_bytes (xor_bytes sum offset) (l_dol b))) (hash_value b adata) in
    omega (
      arith,
      length-take o.tag_size whole,
      length-xor_bytes (b.encrypt (xor_bytes (xor_bytes sum offset) (l_dol b)))
          (hash_value b adata),
      (encrypt-Is16 b r.size r.cipher _ masked).0,
      r.tag,
    )

-- What OCB makes of a text and what it makes of that, the other way: one tag stands behind both.
record Undone (o : Ocb) (nonce adata : Bytes) (how : Instruction) (xs : Bytes) : Type 0 where
  text : Bytes
  tag : Bytes
  written : ocb_crypt o.block how o.tag_size nonce adata xs ≡ text ++ tag
  same : length text ≡ length xs
  tag_length : length tag ≡ o.tag_size
  back : ocb_crypt o.block (flip how) o.tag_size nonce adata text ≡ xs ++ tag

ocb_crypt-flip :
    (o : Ocb) (nonce adata : Bytes) (how : Instruction) (xs : Bytes)
    → IsReady o nonce
    → AreBytes xs
    → Undone o nonce adata how xs
unfolding ocb_crypt
ocb_crypt-flip o nonce adata how xs r bytes =
    let small : length nonce ≤ 15 = omega (arith, r.sizes, r.fits) in
    let (same, hy, ho, hs, back) =
      pass_text-flip o.block r.size r.cipher how o.tag_size nonce xs small r.bytes bytes in
    let p = pass_text o.block how o.tag_size nonce xs in
    record {
      text = p.0;
      tag = tag_of o.block o.tag_size p.1 p.2 adata;
      written = refl;
      same = same;
      tag_length = length-tag_of o nonce p.1 p.2 adata r ho hs;
      back = rw back refl;
    }

checked-ok :
    (sep : ℕ) (ret ciphertext plaintext : Bytes)
    → checked sep ret ciphertext ≡ ok plaintext
    → (drop sep ret ≡ drop sep ciphertext) × (take sep ret ≡ plaintext)
checked-ok sep ret ciphertext plaintext e =
    elim (Bool-cases (bytes_equal (drop sep ret) (drop sep ciphertext))) [
      | inl same ↦ (bytes_equal-eq _ _ same, ok-injective (rw same at e))
      | inr other ↦ absurd (ground (arith, other, e))
    ]

checked_longer :
    (sep : ℕ) (ret ciphertext : Bytes)
    → sep ≤ length ciphertext
    → length ciphertext < length ret
    → checked sep ret ciphertext ≡ err ocb_error
checked_longer sep ret ciphertext h longer =
    elim (Bool-cases (bytes_equal (drop sep ret) (drop sep ciphertext))) [
      | inl same ↦
          let l = ap length (bytes_equal-eq _ _ same) in
          absurd (omega (arith, l, length-drop sep ret, length-drop sep ciphertext))
      | inr other ↦ rw other refl
    ]

open_sealed_short :
    (o : Ocb) (dst nonce ciphertext adata : Bytes)
    → IsReady o nonce
    → ltb (length ciphertext) o.tag_size ≡ true
    → (open_sealed o dst nonce ciphertext adata).0 ≡ err ocb_error
unfolding open_sealed
open_sealed_short o dst nonce ciphertext adata r short = ground (arith, r.fits, short)

-- Of two ready OCB instances with one block cipher and tag size, whatever their caches hold, the
-- second opens into an empty slice what the first seals, and finds the plaintext; the first adds the
-- text, longer by the tag size, to its destination.
pub open_sealed-seal :
    (o1 o2 : Ocb) (dst nonce plaintext adata : Bytes)
    → IsReady o1 nonce
    → IsReady o2 nonce
    → o2.block ≡ o1.block
    → o2.tag_size ≡ o1.tag_size
    → AreBytes plaintext
    → (sealed : Bytes) × ((seal o1 dst nonce plaintext adata).0 ≡ ok (dst ++ sealed))
      × (length sealed ≡ length plaintext + o1.tag_size)
      × ((open_sealed o2 [] nonce sealed adata).0 ≡ ok plaintext)
unfolding flip
open_sealed-seal o1 o2 dst nonce plaintext adata r1 r2 same_block same_size bytes =
    let u = ocb_crypt-flip o1 nonce adata enc plaintext r1 bytes in
    let sealed = u.text ++ u.tag in
    let size : length sealed ≡ length plaintext + o1.tag_size =
      omega (arith, length-append u.text u.tag, u.same, u.tag_length) in
    let sep : length sealed - o1.tag_size ≡ length u.text = omega (arith, size, u.same) in
    let back : ocb_crypt o1.block dec o1.tag_size nonce adata u.text ≡ plaintext ++ u.tag =
      u.back in
    (
      sealed,
      rw (seal-eq o1 dst nonce plaintext adata r1, u.written) refl,
      size,
      rw
          (
            open_sealed-eq o2 [] nonce sealed adata r2 (omega (arith, size, same_size)),
            same_block,
            same_size,
            sep,
            take-append (length u.text) u.text u.tag refl,
            back,
            drop-append (length u.text) u.text u.tag refl,
            drop-append (length u.text) plaintext u.tag (sym u.same),
            take-append (length u.text) plaintext u.tag (sym u.same),
            bytes_equal_refl u.tag,
          )
          refl,
    )

open_sealed_long :
    (o : Ocb) (nonce sealed plaintext adata : Bytes)
    → (open_sealed o [] nonce sealed adata).0 ≡ ok plaintext
    → o.tag_size ≤ length sealed
unfolding open_sealed
open_sealed_long o nonce sealed plaintext adata e = ground arith

-- Whatever text a ready OCB instance opens, into an empty slice, is what another ready one with its
-- block cipher and tag size seals of the result.
pub seal-open_sealed :
    (o1 o2 : Ocb) (nonce sealed plaintext adata : Bytes)
    → IsReady o1 nonce
    → IsReady o2 nonce
    → o2.block ≡ o1.block
    → o2.tag_size ≡ o1.tag_size
    → AreBytes sealed
    → (open_sealed o1 [] nonce sealed adata).0 ≡ ok plaintext
    → (seal o2 [] nonce plaintext adata).0 ≡ ok sealed
unfolding flip
seal-open_sealed o1 o2 nonce sealed plaintext adata r1 r2 same_block same_size bytes opened =
    let long = open_sealed_long o1 nonce sealed plaintext adata opened in
    let sep = length sealed - o1.tag_size in
    let u =
      ocb_crypt-flip o1 nonce adata dec (take sep sealed) r1 (All-take IsByte sep sealed bytes) in
    let size : length u.text ≡ sep = omega (arith, length-take sep sealed, u.same, long) in
    let (tags, texts) =
      checked-ok sep _ sealed plaintext
        (sym (open_sealed-eq o1 [] nonce sealed adata r1 long) ∙ opened) in
    let back : ocb_crypt o1.block enc o1.tag_size nonce adata u.text ≡ take sep sealed ++ u.tag =
      u.back in
    let tag : u.tag ≡ drop sep sealed = rw (u.written, drop-append sep u.text u.tag size) at tags in
    let text : u.text ≡ plaintext = rw (u.written, take-append sep u.text u.tag size) at texts in
    rw
      (
        seal-eq o2 [] nonce plaintext adata r2,
        same_block,
        same_size,
        ← text,
        back,
        tag,
        take-append-drop sep sealed,
      )
      refl

-- With a destination that is not empty a ready OCB instance refuses every text, whatever tag it
-- carries.
pub open_sealed_dst :
    (o : Ocb) (dst nonce ciphertext adata : Bytes)
    → IsReady o nonce
    → AreBytes ciphertext
    → 0 < length dst
    → (open_sealed o dst nonce ciphertext adata).0 ≡ err ocb_error
open_sealed_dst o dst nonce ciphertext adata r bytes h =
    elim (Bool-cases (ltb (length ciphertext) o.tag_size)) [
      | inl short ↦ open_sealed_short o dst nonce ciphertext adata r short
      | inr long ↦
          let fits = ltb-eq-false _ _ long in
          let sep = length ciphertext - o.tag_size in
          let u =
            ocb_crypt-flip o nonce adata dec (take sep ciphertext) r
              (All-take IsByte sep ciphertext bytes) in
          open_sealed-eq o dst nonce ciphertext adata r fits
          ∙ checked_longer sep _ ciphertext (omega arith) (
              rw u.written (
                omega (
                  arith,
                  length-append dst (u.text ++ u.tag),
                  length-append u.text u.tag,
                  u.same,
                  u.tag_length,
                  length-take sep ciphertext,
                  fits,
                  h,
                )))
    ]
