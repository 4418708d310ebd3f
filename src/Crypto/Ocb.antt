-- ===== src/Crypto/Ocb.antt =====
-- ocb/ocb.go: the OCB mode (RFC 7253) over a block cipher with 16-byte blocks.
pub mod Mask
pub mod Blocks
pub mod Spec
pub mod Ready
pub mod Flip
pub mod RoundTrip
use go_crypto.Base.{
  ℕ, zero, suc, ◌+◌, ◌-◌, ◌*◌, ◌/◌, ◌%◌, ◌<◌, Bool, true, false, not, ◌||◌, List, [], ◌∷◌, ◌++◌,
  length, take, drop, replicate, get_or, bit_and, bit_or, bit_xor, Bytes, Result, ok, err, panic,
  stuck, Error, failure, ◌>>=◌, ◌>>◌, fail_if, ◌==◌, ltb, if◌then◌else◌, bytes_equal,
}
use go_crypto.Base.Words.{u8}
use go_crypto.ByteUtil.{gfn_double, xor_bytes, shift_n_bytes_left}
use go_crypto.Crypto.Block.{Block}

pub data Instruction : Type 0 where
  enc dec : Instruction

-- `mask` and `reusableKtop` are the fields l_ast to table, and nonce_prefix and ktop.
pub record Ocb : Type 0 where
  pub block : Block
  pub tag_size : ℕ
  pub nonce_size : ℕ
  pub l_ast : Bytes
  pub l_dol : Bytes
  pub table : List Bytes
  pub nonce_prefix : Bytes
  pub ktop : Bytes

abbrev pub zeros : Bytes
zeros = replicate 16 0

abbrev pub ocb_error : Error
ocb_error = failure "crypto/ocb"

-- `extendTable`: `n` more entries, each the double of the one before.
unfoldable pub extend_by : ℕ → List Bytes → List Bytes
extend_by zero l = l
extend_by (suc n) l = extend_by n (l ++ gfn_double (get_or l (length l - 1) []) ∷ [])

unfoldable pub extend_table : ℕ → List Bytes → List Bytes
unfolding extend_by
extend_table limit l = extend_by (limit + 1 - length l) l

-- The entry `L[index]` of the table, which is made longer where it is too short.
unfoldable pub mask_at : ℕ → List Bytes → Bytes × List Bytes
unfolding extend_table
mask_at index l =
    let l' = if ltb (length l - 1) index then extend_table index l else l in
    (get_or l' index [], l')

-- `bits.TrailingZeros` of `n`, looking at `fuel` bits.
unfoldable pub trailing_zeros : ℕ → ℕ → ℕ
trailing_zeros zero n = 0
trailing_zeros (suc fuel) n = if n % 2 == 0 then suc (trailing_zeros fuel (n / 2)) else 0

-- `NewOCBWithNonceAndTagSize` with `initializeMaskTable`.
unfoldable pub new_ocb : Block → ℕ → ℕ → Result Ocb
new_ocb block nonce_size tag_size = do
  fail_if (not (block.block_size == 16)) ocb_error
  fail_if (ltb nonce_size 1) ocb_error
  fail_if (not (ltb nonce_size block.block_size)) ocb_error
  fail_if (ltb block.block_size tag_size) ocb_error
  let l_ast = block.encrypt zeros
  let l_dol = gfn_double l_ast
  ok (record {
    block = block;
    tag_size = tag_size;
    nonce_size = nonce_size;
    l_ast = l_ast;
    l_dol = l_dol;
    table = gfn_double l_dol ∷ [];
    nonce_prefix = [];
    ktop = [];
  })

-- `b[len(b)-1] &= 192`
unfoldable pub mask_last : Bytes → Bytes
mask_last [] = []
mask_last (x ∷ []) = bit_and x 192 ∷ []
mask_last (x ∷ y ∷ xs) = x ∷ mask_last (y ∷ xs)

-- `b[0] |= v`
unfoldable pub or_head : Bytes → ℕ → Bytes
or_head [] v = []
or_head (x ∷ xs) v = bit_or x v ∷ xs

-- num2str(TAGLEN mod 128, 7) || zeros(120 - bitlen(N)) || 1 || N, its last six bits cleared.
unfoldable pub padded_nonce : ℕ → Bytes → Bytes
unfolding mask_last or_head
padded_nonce tag_size truncated =
    mask_last
      (or_head (replicate (15 - length truncated) 0 ++ 1 ∷ truncated) (u8 (8 * tag_size % 128 * 2)))

-- `reusableKtop` for a nonce: the instance's, if it was made for the same prefix, or a new one.
unfoldable pub ktop_for : Ocb → Bytes → Bytes × Bytes
unfolding padded_nonce mask_last
ktop_for o nonce =
    let truncated = mask_last nonce in
    let fresh = o.block.encrypt (padded_nonce o.tag_size truncated) in
    if bytes_equal truncated o.nonce_prefix then (o.nonce_prefix, o.ktop) else (truncated, fresh)

-- Stretch = Ktop || (Ktop[1..64] xor Ktop[9..72]), shifted by the last six bits of the nonce.
unfoldable pub initial_offset : Bytes → Bytes → Bytes
initial_offset ktop nonce =
    let stretch = ktop ++ xor_bytes (take 8 ktop) (take 8 (drop 1 ktop)) in
    let bottom = bit_and (get_or nonce (length nonce - 1) 0) 63 in
    take 16 (shift_n_bytes_left (replicate (length stretch) 0) stretch bottom)

-- What the loops over blocks carry.
pub record Run : Type 0 where
  pub out : Bytes
  pub offset : Bytes
  pub sum : Bytes
  pub table : List Bytes

-- One whole block of the text: what is written for it, and the checksum after it.
unfoldable pub crypt_block : Block → Instruction → Bytes → Bytes → Bytes → Bytes × Bytes
crypt_block b enc offset sum x =
    (xor_bytes (b.encrypt (xor_bytes x offset)) offset, xor_bytes sum x)
crypt_block b dec offset sum x =
    let y = xor_bytes (b.decrypt (xor_bytes x offset)) offset in (y, xor_bytes sum y)

-- The loop over the whole blocks, of which `m` are left and `i` are done.
unfoldable pub crypt_blocks : Block → Instruction → ℕ → ℕ → Bytes → Run → Run
unfolding crypt_block mask_at trailing_zeros
crypt_blocks b how zero i xs r = r
crypt_blocks b how (suc m) i xs r =
    let (mask, table) = mask_at (trailing_zeros 64 (i + 1)) r.table in
    let offset = xor_bytes r.offset mask in
    let (y, sum) = crypt_block b how offset r.sum (take 16 xs) in
    crypt_blocks b how m (i + 1) (drop 16 xs)
      (record { out = r.out ++ y; offset = offset; sum = sum; table = table })

-- The loop of `hash` over the whole blocks of the additional data.
unfoldable pub hash_blocks : Block → ℕ → ℕ → Bytes → Run → Run
unfolding mask_at trailing_zeros
hash_blocks b zero i xs r = r
hash_blocks b (suc m) i xs r =
    let (mask, table) = mask_at (trailing_zeros 64 (i + 1)) r.table in
    let offset = xor_bytes r.offset mask in
    let chunk = b.encrypt (xor_bytes (take 16 xs) offset) in
    hash_blocks b m (i + 1) (drop 16 xs)
      (record r { offset = offset; sum = xor_bytes r.sum chunk; table = table })

-- 1 || zeros, behind a text that does not fill its last block.
abbrev pub pad_block : Bytes → Bytes
pad_block chunk = chunk ++ 128 ∷ replicate (16 - length chunk - 1) 0

-- `hash`, with the table as it leaves it.
unfoldable pub hash : Ocb → Bytes → Bytes × List Bytes
hash o adata =
    let m = length adata / 16 in
    let r =
      hash_blocks o.block m 0 adata
        (record { out = []; offset = zeros; sum = zeros; table = o.table }) in
    let offset = xor_bytes r.offset o.l_ast in
    let last = o.block.encrypt (xor_bytes (pad_block (drop (16 * m) adata)) offset) in
    (if length adata % 16 == 0 then r.sum else xor_bytes r.sum last, r.table)

-- Which of what is read and what is written is plaintext.
unfoldable pub plain_of : Instruction → Bytes → Bytes → Bytes
plain_of enc x y = x
plain_of dec x y = y

-- The final partial block: what is written for it, and the run after it.
unfoldable pub crypt_tail : Ocb → Instruction → Bytes → Run → Run
crypt_tail o how chunk r =
    let offset = xor_bytes r.offset o.l_ast in
    let y = xor_bytes chunk (take (length chunk) (o.block.encrypt offset)) in
    let padded = pad_block (plain_of how chunk y) in
    record r { out = r.out ++ y; offset = offset; sum = xor_bytes r.sum padded }

-- The part of `crypt` that goes over the text, with Ktop at hand.
unfoldable pub text_run : Ocb → Instruction → Bytes → Bytes → Run
text_run o how nonce xs =
    let m = length xs / 16 in
    let whole =
      crypt_blocks o.block how m 0 xs
        (record { out = []; offset = initial_offset o.ktop nonce; sum = zeros; table = o.table }) in
    if length xs % 16 == 0 then whole else crypt_tail o how (drop (16 * m) xs) whole

-- `crypt`: the text and behind it the tag, and the instance with its caches.
unfoldable pub crypt : Ocb → Instruction → Bytes → Bytes → Bytes → Bytes × Ocb
crypt o0 how nonce adata xs =
    let (prefix, ktop) = ktop_for o0 nonce in
    let o1 = record o0 { nonce_prefix = prefix; ktop = ktop } in
    let r = text_run o1 how nonce xs in
    let o2 = record o1 { table = r.table } in
    let (a, table) = hash o2 adata in
    let tag = xor_bytes (o1.block.encrypt (xor_bytes (xor_bytes r.sum r.offset) o1.l_dol)) a in
    (r.out ++ take o1.tag_size tag, record o2 { table = table })

-- `Seal`. A nonce that is empty is an index out of range.
unfoldable pub seal : Ocb → Bytes → Bytes → Bytes → Bytes → Result Bytes × Ocb
seal o dst nonce plaintext adata =
    let (out, o') = crypt o enc nonce adata plaintext in
    if ltb o.nonce_size (length nonce) || length nonce == 0
    then (panic, o)
    else (ok (dst ++ out), o')

-- `Open`. `ret` holds `dst` and what `crypt` wrote; it is cut and compared at `sep`.
unfoldable pub open_sealed : Ocb → Bytes → Bytes → Bytes → Bytes → Result Bytes × Ocb
open_sealed o dst nonce ciphertext adata =
    let sep = length ciphertext - o.tag_size in
    let (out, o') = crypt o dec nonce adata (take sep ciphertext) in
    let ret = dst ++ out in
    if ltb o.nonce_size (length nonce)
    then (panic, o)
    else if ltb (length ciphertext) o.tag_size
    then (err ocb_error, o)
    else if length nonce == 0
    then (panic, o)
    else (
      if bytes_equal (drop sep ret) (drop sep ciphertext) then ok (take sep ret) else err ocb_error,
      o',
    )
