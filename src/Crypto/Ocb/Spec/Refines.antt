-- ===== src/Crypto/Ocb/Spec/Refines.antt =====
-- The instance with its caches computes what OCB without caches does, and keeps its caches right.
use go_crypto.Base.{
  ℕ, zero, suc, ◌+◌, ◌/◌, ◌%◌, Bool-cases, ◌⊎◌, inl, inr, List, [], ◌∷◌, ◌++◌, length, take, drop,
  Bytes, bytes_equal, bytes_equal-eq, ◌==◌, ◌≡◌, ◌≢◌, refl, ◌∙◌, arith, append_assoc, append-nil,
}
use go_crypto.ByteUtil.{gfn_double, xor_bytes}
use go_crypto.Crypto.Block.{Block}
use go_crypto.Crypto.Ocb.{
  Ocb, Run, Instruction, zeros, trailing_zeros, mask_last, mask_at, padded_nonce, initial_offset,
  crypt_block, ktop_for, crypt_blocks, hash_blocks, hash, crypt_tail, text_run, crypt,
}
use go_crypto.Crypto.Ocb.Mask.{IsTable, mask_at_lem}
use go_crypto.Crypto.Ocb.Spec.{
  l_ast, l_dol, mask, pass_blocks, hash_pass, hash_value, pass_tail, offset_for, pass_text, tag_of,
  ocb_crypt,
}

-- The caches of an instance agree with its key.
pub record IsValid (o : Ocb) : Type 0 where
  pub ast : o.l_ast ≡ l_ast o.block
  pub dol : o.l_dol ≡ l_dol o.block
  pub masks : IsTable (gfn_double (l_dol o.block)) o.table
  pub prefix :
      (o.nonce_prefix ≡ []) ⊎ (o.ktop ≡ o.block.encrypt (padded_nonce o.tag_size o.nonce_prefix))

module _ (b : Block) (how : Instruction) where
  crypt_blocks-pass :
      (m i : ℕ) (xs : Bytes) (r : Run)
      → IsTable (gfn_double (l_dol b)) r.table
      → let p = pass_blocks b how m i xs r.offset r.sum in
        (t : List Bytes) × (crypt_blocks b how m i xs r
          ≡ record { out = r.out ++ p.0; offset = p.1; sum = p.2; table = t })
        × IsTable (gfn_double (l_dol b)) t
  unfolding crypt_blocks pass_blocks mask
  crypt_blocks-pass zero i xs r h = (r.table, rw append-nil, h)
  crypt_blocks-pass (suc m) i xs r h =
      let (found, table) =
        mask_at_lem (trailing_zeros 64 (i + 1)) (gfn_double (l_dol b)) r.table h in
      let offset = xor_bytes r.offset (mask b (i + 1)) in
      let (y, sum) = crypt_block b how offset r.sum (take 16 xs) in
      let r' : Run = record {
        out = r.out ++ y;
        offset = offset;
        sum = sum;
        table = (mask_at (trailing_zeros 64 (i + 1)) r.table).1;
      } in
      let (t, e, h') = crypt_blocks-pass m (i + 1) (drop 16 xs) r' table in
      (t, rw found (rw append_assoc at e), h')

module _ (b : Block) where
  hash_blocks-pass :
      (m i : ℕ) (xs : Bytes) (r : Run)
      → IsTable (gfn_double (l_dol b)) r.table
      → let p = hash_pass b m i xs r.offset r.sum in
        (t : List Bytes) × (hash_blocks b m i xs r
          ≡ record { out = r.out; offset = p.0; sum = p.1; table = t })
        × IsTable (gfn_double (l_dol b)) t
  unfolding hash_blocks hash_pass mask
  hash_blocks-pass zero i xs r h = (r.table, refl, h)
  hash_blocks-pass (suc m) i xs r h =
      let (found, table) =
        mask_at_lem (trailing_zeros 64 (i + 1)) (gfn_double (l_dol b)) r.table h in
      let offset = xor_bytes r.offset (mask b (i + 1)) in
      let r' : Run = record {
        out = r.out;
        offset = offset;
        sum = xor_bytes r.sum (b.encrypt (xor_bytes (take 16 xs) offset));
        table = (mask_at (trailing_zeros 64 (i + 1)) r.table).1;
      } in
      let (t, e, h') = hash_blocks-pass m (i + 1) (drop 16 xs) r' table in (t, rw found e, h')

hash-hash_value :
    (o : Ocb) (adata : Bytes)
    → IsValid o
    → ((hash o adata).0 ≡ hash_value o.block adata)
      × IsTable (gfn_double (l_dol o.block)) (hash o adata).1
unfolding hash hash_value
hash-hash_value o adata v =
    let (t, e, h) =
      hash_blocks-pass o.block (length adata / 16) 0 adata
        (record { out = []; offset = zeros; sum = zeros; table = o.table }) v.masks in
    rw (e, v.ast) (refl, h)

abbrev KtopFor : Ocb → Bytes → Bytes → Type 0
KtopFor o prefix ktop = ktop ≡ o.block.encrypt (padded_nonce o.tag_size prefix)

cached :
    (o : Ocb) (prefix : Bytes)
    → (o.nonce_prefix ≡ []) ⊎ KtopFor o o.nonce_prefix o.ktop
    → prefix ≢ []
    → prefix ≡ o.nonce_prefix
    → KtopFor o prefix o.ktop
cached o prefix (inl e) ne same = absurd (ne (same ∙ e))
cached o prefix (inr e) ne same = rw same e

-- Ktop is what its nonce asks for, whether it was at hand or not.
ktop_for_lem :
    (o : Ocb) (nonce : Bytes)
    → IsValid o
    → mask_last nonce ≢ []
    → KtopFor o (mask_last nonce) (ktop_for o nonce).1
      × KtopFor o (ktop_for o nonce).0 (ktop_for o nonce).1
unfolding ktop_for
ktop_for_lem o nonce v ne = elim (Bool-cases (bytes_equal (mask_last nonce) o.nonce_prefix)) [
  | inl hit ↦
      let same = bytes_equal-eq _ _ hit in
      let good = cached o (mask_last nonce) v.prefix ne same in rw hit (good, rw same at good)
  | inr miss ↦ rw miss (refl, refl)
]

mask_last-ne-nil : (nonce : Bytes) → nonce ≢ [] → mask_last nonce ≢ []
unfolding mask_last
mask_last-ne-nil [] h e = h refl
mask_last-ne-nil (x ∷ []) h e = cc
mask_last-ne-nil (x ∷ y ∷ xs) h e = cc

text_run-pass_text :
    (o : Ocb) (how : Instruction) (nonce xs : Bytes)
    → o.l_ast ≡ l_ast o.block
    → IsTable (gfn_double (l_dol o.block)) o.table
    → KtopFor o (mask_last nonce) o.ktop
    → let p = pass_text o.block how o.tag_size nonce xs in
      (t : List Bytes) × (text_run o how nonce xs
        ≡ record { out = p.0; offset = p.1; sum = p.2; table = t })
      × IsTable (gfn_double (l_dol o.block)) t
unfolding text_run pass_text offset_for crypt_tail pass_tail
text_run-pass_text o how nonce xs ast masks top =
    let (t, e, h) =
      crypt_blocks-pass o.block how (length xs / 16) 0 xs
        (record { out = []; offset = initial_offset o.ktop nonce; sum = zeros; table = o.table })
        masks in
    elim (Bool-cases (length xs % 16 == 0)) [
      | inl full ↦ (t, rw (full, e, top) refl, h)
      | inr part ↦ (t, rw (part, e, top, ast) refl, h)
    ]

-- A valid OCB instance, whatever its caches of masks and of Ktop hold, computes what OCB without
-- caches does from its key, tag size and nonce (which is not empty); its key and sizes stay, and so
-- does its validity.
pub crypt-ocb_crypt :
    (o : Ocb) (how : Instruction) (nonce adata xs : Bytes)
    → IsValid o
    → nonce ≢ []
    → ((crypt o how nonce adata xs).0 ≡ ocb_crypt o.block how o.tag_size nonce adata xs)
      × IsValid (crypt o how nonce adata xs).1
      × ((crypt o how nonce adata xs).1.block ≡ o.block)
      × ((crypt o how nonce adata xs).1.tag_size ≡ o.tag_size)
      × ((crypt o how nonce adata xs).1.nonce_size ≡ o.nonce_size)
unfolding crypt ocb_crypt tag_of
crypt-ocb_crypt o how nonce adata xs v ne =
    let (prefix, ktop) = ktop_for o nonce in
    let o1 = record o { nonce_prefix = prefix; ktop = ktop } in
    let (wanted, kept) = ktop_for_lem o nonce v (mask_last-ne-nil nonce ne) in
    let (t, e, masks) = text_run-pass_text o1 how nonce xs v.ast v.masks wanted in
    let o2 = record o1 { table = (text_run o1 how nonce xs).table } in
    let v2 : IsValid o2 = record {
      ast = v.ast;
      dol = v.dol;
      masks = rw e masks;
      prefix = inr kept;
    } in
    let (a, table) = hash-hash_value o2 adata v2 in
    (
      ground (arith, e, v.dol, a),
      record { ast = v.ast; dol = v.dol; masks = table; prefix = inr kept },
      refl,
      refl,
      refl,
    )
