-- ===== src/Crypto/KeyWrap/Rounds.antt =====
-- A round of `Wrap` and a round of `Unwrap` undo each other.
use go_crypto.Base.{
  ℕ, zero, suc, ◌+◌, ◌*◌, List, [], ◌∷◌, ◌++◌, length, take, drop, All, bit_xor, Bytes, AreBytes,
  IsByte, ◌≡◌, refl, ◌∙◌, arith, length-append, length-take, length-drop, take-append, drop-append,
  take-append-drop, All-append, All-take, All-drop,
}
use go_crypto.Base.Bits.{bit_xor_cancel, bit_xor-lt}
use go_crypto.Base.Words.{
  be_uint64, put_be_uint64, be_uint64-put_be_uint64, put_be_uint64-be_uint64, u64,
}
use native.Mathlib.Numerals.{add-one}
use go_crypto.Crypto.Block.{Block, IsBlock, IsCipher}
use go_crypto.Crypto.KeyWrap.{xor_counter, wrap_round, wrap_rounds, unwrap_round, unwrap_rounds}

abbrev pub IsRegister : Bytes → Type 0
IsRegister b = (length b ≡ 8) × AreBytes b

put_be_uint64-IsRegister : (v : ℕ) → IsRegister (put_be_uint64 v)
unfolding put_be_uint64
put_be_uint64-IsRegister v = omega arith

pub xor_counter-IsRegister : (a : Bytes) (t : ℕ) → IsRegister (xor_counter a t)
unfolding xor_counter
xor_counter-IsRegister a t = put_be_uint64-IsRegister _

pub xor_counter_cancel : (a : Bytes) (t : ℕ) → IsRegister a → xor_counter (xor_counter a t) t ≡ a
unfolding xor_counter
xor_counter_cancel a t (la, ba) =
    let (small, back) = put_be_uint64-be_uint64 a la ba in
    rw
      (
        be_uint64-put_be_uint64 (bit_xor (be_uint64 a) (u64 t))
            (bit_xor-lt 64 (be_uint64 a) (u64 t) small (omega arith)),
        bit_xor_cancel (be_uint64 a) (u64 t),
      )
      back

IsBlock-append :
    (c : Block) (a r : Bytes) → c.block_size ≡ 16 → IsRegister a → IsRegister r → IsBlock c (a ++ r)
IsBlock-append c a r e ha hr = (omega (arith, length-append a r), All-append IsByte a r ha.1 hr.1)

take-IsRegister : (c : Block) (b : Bytes) → c.block_size ≡ 16 → IsBlock c b → IsRegister (take 8 b)
take-IsRegister c b e h = (omega (arith, length-take 8 b), All-take IsByte 8 b h.1)

drop-IsRegister : (c : Block) (b : Bytes) → c.block_size ≡ 16 → IsBlock c b → IsRegister (drop 8 b)
drop-IsRegister c b e h = (omega (arith, length-drop 8 b), All-drop IsByte 8 b h.1)

-- Registers, as many as before, that the other direction takes back.
pub record Undone (back : Bytes × List Bytes → Bytes × List Bytes) (n : ℕ)
    (old new : Bytes × List Bytes) : Type 0 where
  pub first : IsRegister new.0
  pub others : All IsRegister new.1
  pub count : length new.1 ≡ n
  pub undone : back new ≡ old

module _ (c : Block) (size : c.block_size ≡ 16) (cipher : IsCipher c) where
  pub wrap_round-Undone :
      (t : ℕ) (a : Bytes) (rs : List Bytes)
      → IsRegister a
      → All IsRegister rs
      → Undone (λ s. unwrap_round c t s.0 s.1) (length rs) (a, rs) (wrap_round c t a rs)
  unfolding wrap_round unwrap_round
  wrap_round-Undone t a [] ha hrs = record { first = ha; others = hrs; count = refl; undone = refl }
  wrap_round-Undone t a (r ∷ rs) ha (hr, hrs) =
      let whole = IsBlock-append c a r size ha hr in
      let block = c.encrypt (a ++ r) in
      let sealed = cipher.encrypt-IsBlock (a ++ r) whole in
      let top = take-IsRegister c block size sealed in
      let ih =
        wrap_round-Undone (t + 1) (xor_counter (take 8 block) t) rs
          (xor_counter-IsRegister (take 8 block) t) hrs in
      record {
        first = ih.first;
        others = (drop-IsRegister c block size sealed, ih.others);
        count = omega (arith, ih.count);
        undone =
            rw
              (
                ih.undone,
                xor_counter_cancel (take 8 block) t top,
                take-append-drop 8 block,
                cipher.decrypt-encrypt (a ++ r) whole,
                take-append 8 a r ha.0,
                drop-append 8 a r ha.0,
              )
              refl;
      }

  pub unwrap_round-Undone :
      (t : ℕ) (a : Bytes) (rs : List Bytes)
      → IsRegister a
      → All IsRegister rs
      → Undone (λ s. wrap_round c t s.0 s.1) (length rs) (a, rs) (unwrap_round c t a rs)
  unfolding wrap_round unwrap_round
  unwrap_round-Undone t a [] ha hrs = record {
    first = ha;
    others = hrs;
    count = refl;
    undone = refl;
  }
  unwrap_round-Undone t a (r ∷ rs) ha (hr, hrs) =
      let ih = unwrap_round-Undone (t + 1) a rs ha hrs in
      let a' = (unwrap_round c (t + 1) a rs).0 in
      let x = xor_counter a' t in
      let hx = xor_counter-IsRegister a' t in
      let whole = IsBlock-append c x r size hx hr in
      let block = c.decrypt (x ++ r) in
      let opened = cipher.decrypt-IsBlock (x ++ r) whole in
      record {
        first = take-IsRegister c block size opened;
        others = (drop-IsRegister c block size opened, ih.others);
        count = omega (arith, ih.count);
        undone =
            rw
              (
                take-append-drop 8 block,
                cipher.encrypt-decrypt (x ++ r) whole,
                take-append 8 x r hx.0,
                drop-append 8 x r hx.0,
                xor_counter_cancel a' t ih.first,
                ih.undone,
              )
              refl;
      }

  -- The rounds of `Unwrap` take those of `Wrap` back.
  pub unwrap_rounds-wrap_rounds :
      (left ii k : ℕ) (a : Bytes) (rs : List Bytes)
      → k ≡ ii + left
      → IsRegister a
      → All IsRegister rs
      → Undone
          (unwrap_rounds c k)
          (length rs)
          (unwrap_rounds c ii (a, rs))
          (wrap_rounds c left ii (a, rs))
  unfolding wrap_rounds
  unwrap_rounds-wrap_rounds zero ii k a rs e ha hrs =
      let same : k ≡ ii = omega arith in
      record { first = ha; others = hrs; count = refl; undone = rw same }
  unwrap_rounds-wrap_rounds (suc left) ii k a rs e ha hrs =
      let one = wrap_round-Undone (ii * length rs + 1) a rs ha hrs in
      let (a1, rs1) = wrap_round c (ii * length rs + 1) a rs in
      let ih =
        unwrap_rounds-wrap_rounds left (ii + 1) k a1 rs1 (omega arith) one.first one.others in
      record {
        first = ih.first;
        others = ih.others;
        count = ih.count ∙ one.count;
        undone = ih.undone ∙ unfold unwrap_rounds in rw (add-one ii, one.count, one.undone) refl;
      }

  -- The rounds of `Wrap` take those of `Unwrap` back.
  pub wrap_rounds-unwrap_rounds :
      (left more k : ℕ) (a : Bytes) (rs : List Bytes)
      → k ≡ left + more
      → IsRegister a
      → All IsRegister rs
      → Undone
          (wrap_rounds c k 0)
          (length rs)
          (wrap_rounds c more left (a, rs))
          (unwrap_rounds c left (a, rs))
  unfolding unwrap_rounds
  wrap_rounds-unwrap_rounds zero more k a rs e ha hrs =
      let same : k ≡ more = omega arith in
      record { first = ha; others = hrs; count = refl; undone = rw same }
  wrap_rounds-unwrap_rounds (suc left) more k a rs e ha hrs =
      let one = unwrap_round-Undone (left * length rs + 1) a rs ha hrs in
      let (a1, rs1) = unwrap_round c (left * length rs + 1) a rs in
      let ih =
        wrap_rounds-unwrap_rounds left (suc more) k a1 rs1 (omega arith) one.first one.others in
      record {
        first = ih.first;
        others = ih.others;
        count = ih.count ∙ one.count;
        undone = ih.undone ∙ unfold wrap_rounds in rw (one.count, one.undone, add-one left) refl;
      }
