-- ===== src/Crypto/Ocb/Ready.antt =====
-- What the round trips ask of an instance and a nonce, and that the constructor gives it.
use go_crypto.Base.{ℕ, ◌≤◌, ◌<◌, inl, [], ◌∷◌, length, Bytes, AreBytes, ok, err, ◌≡◌, refl, arith}
use go_crypto.ByteUtil.{gfn_double}
use go_crypto.Crypto.Block.{Block, IsCipher}
use go_crypto.Crypto.Ocb.{Ocb, new_ocb, ocb_error}
use go_crypto.Crypto.Ocb.Mask.{IsTable, doublings}
use go_crypto.Crypto.Ocb.Spec.{l_ast, l_dol}
use go_crypto.Crypto.Ocb.Spec.Refines.{IsValid}

-- An instance with its caches right, over a true block cipher of 16-byte blocks, and a nonce it takes.
pub record IsReady (o : Ocb) (nonce : Bytes) : Type 0 where
  pub valid : IsValid o
  pub size : o.block.block_size ≡ 16
  pub cipher : IsCipher o.block
  pub tag : o.tag_size ≤ 16
  pub sizes : o.nonce_size < 16
  pub some : 0 < length nonce
  pub fits : length nonce ≤ o.nonce_size
  pub bytes : AreBytes nonce

abbrev pub Accepts : Block → ℕ → ℕ → Type 0
Accepts b nonce_size tag_size =
    (b.block_size ≡ 16) × (1 ≤ nonce_size) × (nonce_size < 16) × (tag_size ≤ 16)

abbrev pub fresh : Block → ℕ → ℕ → Ocb
fresh b nonce_size tag_size = record {
  block = b;
  tag_size = tag_size;
  nonce_size = nonce_size;
  l_ast = l_ast b;
  l_dol = l_dol b;
  table = gfn_double (l_dol b) ∷ [];
  nonce_prefix = [];
  ktop = [];
}

pub fresh-IsValid : (b : Block) (nonce_size tag_size : ℕ) → IsValid (fresh b nonce_size tag_size)
unfolding IsTable doublings
fresh-IsValid b nonce_size tag_size = record {
  ast = refl;
  dol = refl;
  masks = (0, refl);
  prefix = inl refl;
}

new_ocb-fresh :
    (b : Block) (nonce_size tag_size : ℕ)
    → Accepts b nonce_size tag_size
    → new_ocb b nonce_size tag_size ≡ ok (fresh b nonce_size tag_size)
unfolding new_ocb
new_ocb-fresh b nonce_size tag_size (size, low, high, tag) = ground (arith, size)

new_ocb_refuses :
    (b : Block) (nonce_size tag_size : ℕ)
    → ¬ Accepts b nonce_size tag_size
    → new_ocb b nonce_size tag_size ≡ err ocb_error
unfolding new_ocb
new_ocb_refuses b nonce_size tag_size h = ground arith

pub fresh-IsReady :
    (b : Block) (nonce_size tag_size : ℕ) (nonce : Bytes)
    → IsCipher b
    → Accepts b nonce_size tag_size
    → 0 < length nonce
    → length nonce ≤ nonce_size
    → AreBytes nonce
    → IsReady (fresh b nonce_size tag_size) nonce
fresh-IsReady b nonce_size tag_size nonce cipher a some fits bytes = record {
  valid = fresh-IsValid b nonce_size tag_size;
  size = a.0;
  cipher = cipher;
  tag = a.3;
  sizes = a.2;
  some = some;
  fits = fits;
  bytes = bytes;
}

-- The OCB constructor takes a block cipher of 16-byte blocks, a nonce size of 1 to 15 and a tag size
-- of at most 16, and refuses every other; what it returns is ready for every nonce of 1 to
-- nonce_size bytes, and has the key and the tag size asked for.
pub new_ocb-IsReady :
    (b : Block) (nonce_size tag_size : ℕ)
    → IsCipher b
    → (Accepts b nonce_size tag_size
        → (o : Ocb) × (new_ocb b nonce_size tag_size ≡ ok o)
          × (o.block ≡ b)
          × (o.tag_size ≡ tag_size)
          × ((nonce : Bytes)
              → 0 < length nonce
              → length nonce ≤ nonce_size
              → AreBytes nonce
              → IsReady o nonce))
      × (¬ Accepts b nonce_size tag_size → new_ocb b nonce_size tag_size ≡ err ocb_error)
new_ocb-IsReady b nonce_size tag_size cipher = (
  λ a. (
    fresh b nonce_size tag_size,
    new_ocb-fresh b nonce_size tag_size a,
    refl,
    refl,
    λ nonce some fits bytes. fresh-IsReady b nonce_size tag_size nonce cipher a some fits bytes,
  ),
  new_ocb_refuses b nonce_size tag_size,
)
