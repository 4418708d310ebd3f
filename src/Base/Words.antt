-- ===== src/Base/Words.antt =====
-- Fixed-width words, and `binary.BigEndian`.
use Prim.Native.Nat.{ℕ, ◌+◌, ◌*◌, ◌/◌, ◌%◌, ◌^◌, ◌<◌}
use go_crypto.Base.Lists.{length, get_or, All}
use mathlib.Core.List.{List, [], ◌∷◌}
use mathlib.Core.Path.{◌≡◌, refl}
use native.Mathlib.Omega.{arith}

abbrev pub u8 : ℕ → ℕ
u8 n = n % 256

abbrev pub u16 : ℕ → ℕ
u16 n = n % 65536

abbrev pub u32 : ℕ → ℕ
u32 n = n % 4294967296

abbrev pub u64 : ℕ → ℕ
u64 n = n % 18446744073709551616

-- `binary.BigEndian.Uint64` of eight bytes.
unfoldable pub be_uint64 : List ℕ → ℕ
be_uint64 b =
    ((((((get_or b 0 0 * 256 + get_or b 1 0) * 256 + get_or b 2 0) * 256 + get_or b 3 0) * 256
                + get_or b 4 0)
              * 256
            + get_or b 5 0)
          * 256
        + get_or b 6 0)
      * 256
    + get_or b 7 0

-- `binary.BigEndian.PutUint64`.
unfoldable pub put_be_uint64 : ℕ → List ℕ
put_be_uint64 v =
    u8 (v / 2 ^ 56)
    ∷ u8 (v / 2 ^ 48)
    ∷ u8 (v / 2 ^ 40)
    ∷ u8 (v / 2 ^ 32)
    ∷ u8 (v / 2 ^ 24)
    ∷ u8 (v / 2 ^ 16)
    ∷ u8 (v / 2 ^ 8)
    ∷ u8 v
    ∷ []

pub be_uint64-put_be_uint64 : (v : ℕ) → v < 2 ^ 64 → be_uint64 (put_be_uint64 v) ≡ v
unfolding be_uint64 put_be_uint64
be_uint64-put_be_uint64 v h = omega arith

pub put_be_uint64-be_uint64 :
    (b : List ℕ)
    → length b ≡ 8
    → All (λ x. x < 256) b
    → (be_uint64 b < 2 ^ 64) × (put_be_uint64 (be_uint64 b) ≡ b)
unfolding be_uint64 put_be_uint64
put_be_uint64-be_uint64 (a ∷ b ∷ c ∷ d ∷ e ∷ f ∷ g ∷ h ∷ []) l p = ground arith
put_be_uint64-be_uint64 (a ∷ b ∷ c ∷ d ∷ e ∷ f ∷ g ∷ h ∷ i ∷ r) l p = absurd (omega arith)
put_be_uint64-be_uint64 (a ∷ b ∷ c ∷ d ∷ e ∷ f ∷ g ∷ []) l p = absurd (omega arith)
put_be_uint64-be_uint64 (a ∷ b ∷ c ∷ d ∷ e ∷ f ∷ []) l p = absurd (omega arith)
put_be_uint64-be_uint64 (a ∷ b ∷ c ∷ d ∷ e ∷ []) l p = absurd (omega arith)
put_be_uint64-be_uint64 (a ∷ b ∷ c ∷ d ∷ []) l p = absurd (omega arith)
put_be_uint64-be_uint64 (a ∷ b ∷ c ∷ []) l p = absurd (omega arith)
put_be_uint64-be_uint64 (a ∷ b ∷ []) l p = absurd (omega arith)
put_be_uint64-be_uint64 (a ∷ []) l p = absurd (omega arith)
put_be_uint64-be_uint64 [] l p = absurd (omega arith)

-- `binary.BigEndian.Uint32` of four bytes.
unfoldable pub be_word32 : List ℕ → ℕ
be_word32 b = ((get_or b 0 0 * 256 + get_or b 1 0) * 256 + get_or b 2 0) * 256 + get_or b 3 0

-- `binary.BigEndian.PutUint32`.
unfoldable pub put_be_word32 : ℕ → List ℕ
put_be_word32 v = u8 (v / 2 ^ 24) ∷ u8 (v / 2 ^ 16) ∷ u8 (v / 2 ^ 8) ∷ u8 v ∷ []

pub be_word32-put_be_word32 : (v : ℕ) → v < 2 ^ 32 → be_word32 (put_be_word32 v) ≡ v
unfolding be_word32 put_be_word32
be_word32-put_be_word32 v h = omega arith

pub length-put_be_word32 : (v : ℕ) → length (put_be_word32 v) ≡ 4
unfolding put_be_word32
length-put_be_word32 v = refl
