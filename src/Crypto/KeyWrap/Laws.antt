-- ===== src/Crypto/KeyWrap/Laws.antt =====
-- Wrapping and unwrapping of keys.
use go_crypto.Base.{
  ℕ, zero, suc, ◌+◌, ◌-◌, ◌*◌, ◌/◌, ◌%◌, ◌≤◌, true, false, Option, some, List, [], ◌∷◌, ◌++◌,
  length, take, drop, All, concat, replicate, Bytes, AreBytes, IsByte, ok, err, if◌then◌else◌, ltb,
  ◌≡◌, refl, sym, ap, ap₂, ◌∙◌, arith, length-append, length-take, length-drop, take-append,
  drop-append, take-append-drop, All-append, All-take, All-drop,
}
use go_crypto.Crypto.Block.{Block, IsCipher}
use go_crypto.Crypto.KeyWrap.{
  registers, wrap_rounds, unwrap_rounds, initial_value, is_initial_value, cipher_of, wrap, unwrap,
  err_unwrap_failed,
}
use go_crypto.Crypto.KeyWrap.Rounds.{
  IsRegister, wrap_rounds-unwrap_rounds, unwrap_rounds-wrap_rounds,
}

registers-concat : (rs : List Bytes) → All IsRegister rs → registers (length rs) (concat rs) ≡ rs
unfolding registers
registers-concat [] h = refl
registers-concat (r ∷ rs) (hr, hrs) =
    ap₂ ◌∷◌ (take-append 8 r (concat rs) hr.0)
      (rw (drop-append 8 r (concat rs) hr.0) (registers-concat rs hrs))

length-concat : (rs : List Bytes) → All IsRegister rs → length (concat rs) ≡ 8 * length rs
length-concat [] h = refl
length-concat (r ∷ rs) (hr, hrs) = omega (arith, length-append r (concat rs), length-concat rs hrs)

AreBytes-concat : (rs : List Bytes) → All IsRegister rs → AreBytes (concat rs)
AreBytes-concat [] h = tt
AreBytes-concat (r ∷ rs) (hr, hrs) = All-append IsByte r (concat rs) hr.1 (AreBytes-concat rs hrs)

-- Cutting a text of `8 * n` bytes into registers.
registers_cut :
    (n : ℕ) (bs : Bytes)
    → length bs ≡ 8 * n
    → AreBytes bs
    → (concat (registers n bs) ≡ bs)
      × All IsRegister (registers n bs)
      × (length (registers n bs) ≡ n)
unfolding registers
registers_cut zero [] e h = (refl, tt, refl)
registers_cut zero (b ∷ bs) e h = absurd (omega arith)
registers_cut (suc n) bs e h =
    let (joined, whole, count) =
      registers_cut n (drop 8 bs) (omega (arith, length-drop 8 bs)) (All-drop IsByte 8 bs h) in
    (
      rw joined (take-append-drop 8 bs),
      ((omega (arith, length-take 8 bs), All-take IsByte 8 bs h), whole),
      ap suc count,
    )

is_initial_value-replicate : (a : Bytes) → is_initial_value a ≡ true → a ≡ replicate (length a) 0xA6
unfolding is_initial_value
is_initial_value-replicate [] h = refl
is_initial_value-replicate (x ∷ xs) h = ground (arith, is_initial_value-replicate xs)

is_initial_value-eq : (a : Bytes) → length a ≡ 8 → is_initial_value a ≡ true → a ≡ initial_value
is_initial_value-eq a e h = is_initial_value-replicate a h ∙ ap (λ (n : ℕ). replicate n 0xA6) e

initial_value-IsRegister : IsRegister initial_value
initial_value-IsRegister = omega arith

accepted :
    (a : Bytes) (rs : List Bytes) (plain : Bytes)
    → (if is_initial_value a then ok (concat rs) else err err_unwrap_failed) ≡ ok plain
    → (is_initial_value a ≡ true) × (concat rs ≡ plain)
accepted a rs plain h = ground arith

module _ (new_cipher : Bytes → Option Block) (key : Bytes) where
  unwrap_shape :
      (c : Block) (a : Bytes) (rs : List Bytes)
      → new_cipher key ≡ some c
      → IsRegister a
      → All IsRegister rs
      → unwrap new_cipher key (a ++ concat rs) ≡ (
          let out = unwrap_rounds c 6 (a, rs) in
          if is_initial_value out.0 then ok (concat out.1) else err err_unwrap_failed)
  unfolding unwrap
  unwrap_shape c a rs k ha hrs =
      let text = a ++ concat rs in
      let size : length text ≡ 8 + 8 * length rs =
        omega (arith, length-append a (concat rs), length-concat rs hrs, ha.0) in
      let whole : length text % 8 ≡ 0 = omega arith in
      let enough : ltb (length text) 8 ≡ false = ground arith in
      let count : length text / 8 - 1 ≡ length rs = omega arith in
      rw
        (
          whole,
          k,
          cipher_of,
          enough,
          count,
          take-append 8 a (concat rs) ha.0,
          drop-append 8 a (concat rs) ha.0,
          registers-concat rs hrs,
        )
        refl

  -- Over a true block cipher of 16-byte blocks that the key gives, Wrap succeeds on a text of whole
  -- 64-bit blocks, adds eight bytes, and Unwrap with the same key gives the text back.
  pub unwrap-wrap :
      (c : Block) (plain : Bytes)
      → new_cipher key ≡ some c
      → c.block_size ≡ 16
      → IsCipher c
      → length plain % 8 ≡ 0
      → AreBytes plain
      → (sealed : Bytes) × (wrap new_cipher key plain ≡ ok sealed)
        × (length sealed ≡ length plain + 8)
        × (unwrap new_cipher key sealed ≡ ok plain)
  unfolding wrap
  unwrap-wrap c plain k size cipher whole bytes =
      let n = length plain / 8 in
      let (joined, regs, count) = registers_cut n plain (omega arith) bytes in
      let w =
        unwrap_rounds-wrap_rounds c size cipher 6 0 6 initial_value (registers n plain)
          (omega arith) initial_value-IsRegister regs in
      let (a, rs) = wrap_rounds c 6 0 (initial_value, registers n plain) in
      (
        a ++ concat rs,
        rw (whole, k, cipher_of) refl,
        omega (
          arith,
          length-append a (concat rs),
          w.first.0,
          length-concat rs w.others,
          w.count,
          count,
        ),
        unwrap_shape c a rs k w.first w.others
            ∙ rw w.undone (unfold unwrap_rounds is_initial_value in ap ok joined),
      )

  wrap_shape :
      (c : Block) (rs : List Bytes)
      → new_cipher key ≡ some c
      → All IsRegister rs
      → wrap new_cipher key (concat rs)
        ≡ (let out = wrap_rounds c 6 0 (initial_value, rs) in ok (out.0 ++ concat out.1))
  unfolding wrap
  wrap_shape c rs k hrs =
      let size = length-concat rs hrs in
      let whole : length (concat rs) % 8 ≡ 0 = omega arith in
      let count : length (concat rs) / 8 ≡ length rs = omega arith in
      rw (whole, k, cipher_of, count, registers-concat rs hrs) refl

  unwrap_ok_lengths :
      (c : Block) (text plain : Bytes)
      → new_cipher key ≡ some c
      → unwrap new_cipher key text ≡ ok plain
      → (length text % 8 ≡ 0) × (8 ≤ length text)
  unfolding unwrap
  unwrap_ok_lengths c text plain k h = ground (arith, k)

  -- Over a true block cipher of 16-byte blocks that the key gives, whatever text Unwrap accepts is
  -- what Wrap makes of its result with the same key.
  pub wrap-unwrap :
      (c : Block) (sealed plain : Bytes)
      → new_cipher key ≡ some c
      → c.block_size ≡ 16
      → IsCipher c
      → AreBytes sealed
      → unwrap new_cipher key sealed ≡ ok plain
      → wrap new_cipher key plain ≡ ok sealed
  wrap-unwrap c sealed plain k size cipher bytes opened =
      let (whole, enough) = unwrap_ok_lengths c sealed plain k opened in
      let n = length sealed / 8 - 1 in
      let (joined, regs, count) =
        registers_cut n (drop 8 sealed) (omega (arith, length-drop 8 sealed))
          (All-drop IsByte 8 sealed bytes) in
      let a = take 8 sealed in
      let ha : IsRegister a =
        (omega (arith, length-take 8 sealed), All-take IsByte 8 sealed bytes) in
      let rs = registers n (drop 8 sealed) in
      let text : a ++ concat rs ≡ sealed = rw joined (take-append-drop 8 sealed) in
      let u = wrap_rounds-unwrap_rounds c size cipher 6 0 6 a rs (omega arith) ha regs in
      let (b, ts) = unwrap_rounds c 6 (a, rs) in
      let (good, same) =
        accepted b ts plain (sym (unwrap_shape c a rs k ha regs) ∙ rw text opened) in
      let start : b ≡ initial_value = is_initial_value-eq b u.first.0 good in
      rw (← same, wrap_shape c ts k u.others, ← start, u.undone) (unfold wrap_rounds in ap ok text)
