-- ===== src/S2k/Count/Laws.antt =====
-- The octet that is stored stands for the least value that is not below what was asked for.
use go_crypto.Base.{
  ℕ, zero, suc, ◌+◌, ◌*◌, ◌≤◌, ◌<◌, Bool-cases, inl, inr, none, some, ok, ltb, leb, ltb-eq-true,
  ltb-eq-false, ◌==◌, if◌then◌else◌, ◌≡◌, refl, arith,
}
use go_crypto.Base.Bits.{agree_below, agree_below→eq}
use native.Mathlib.Decide.{ℕ_discrete}
use go_crypto.S2k.Count.{
  decode_count, find_from, encode_count, encoded_count, decode_memory, encode_memory,
  encoded_memory, Argon2Config, parallelism_of,
}

-- `r` is the least number from `start` on, and at most `last`, at which `value` is `i` or more.
pub record IsFirst (value : ℕ → ℕ) (start last i r : ℕ) : Type 0 where
  pub upto : r ≤ last
  pub enough : i ≤ value r
  pub least : (c : ℕ) → start ≤ c → c < r → value c < i

module _ (value : ℕ → ℕ) (last i : ℕ) where
  find_from-IsFirst :
      (left start : ℕ)
      → last ≤ start + left
      → start + left ≤ suc last
      → i ≤ value last
      → IsFirst value start last i (find_from value last left start i)
  unfolding find_from
  find_from-IsFirst zero start low high h = record {
    upto = omega arith;
    enough = h;
    least = λ c p q. absurd (omega arith);
  }
  find_from-IsFirst (suc left) start low high h = elim (Bool-cases (leb i (value start))) [
    | inl here ↦ rw here (record {
      upto = omega arith;
      enough = ground (arith, here);
      least = λ c p q. absurd (omega arith);
    })
    | inr later ↦
        let ih = find_from-IsFirst left (start + 1) (omega arith) (omega arith) h in
        rw later (record {
          upto = ih.upto;
          enough = ih.enough;
          least = λ c p q. elim (Bool-cases (c == start)) [
            | inl same ↦ ground (arith, same, later)
            | inr other ↦ ih.least c (ground (arith, other, p)) q
          ];
        })
  ]

abbrev pub clamp_count : ℕ → ℕ
clamp_count i = if ltb i 65536 then 65536 else if ltb 65011712 i then 65011712 else i

-- The octets below 96 stand for counts below the range of `encodeCount`.
low_counts : (c : ℕ) → c < 96 → decode_count c < 65536
unfolding agree_below decode_count ℕ_discrete
low_counts c h = ground (arith, agree_below→eq is_low (λ c. 1) 96 refl c h)
  where
    is_low : ℕ → ℕ
    is_low c = if ltb (decode_count c) 65536 then 1 else 0

count_255 : decode_count 255 ≡ 65011712
unfolding decode_count
count_255 = refl

memory_31 : decode_memory 31 ≡ 2147483648
unfolding decode_memory
memory_31 = refl

encode_count-IsFirst :
    (i : ℕ)
    → 65536 ≤ i
    → i ≤ 65011712
    → (r : ℕ) × (encode_count i ≡ ok r) × IsFirst decode_count 0 255 i r
unfolding encode_count
encode_count-IsFirst i low high =
    let r = find_from decode_count 255 160 96 i in
    let first =
      find_from-IsFirst decode_count 255 i 160 96 (omega arith) (omega arith)
        (omega (arith, count_255, high)) in
    (
      r,
      ground arith,
      record {
        upto = first.upto;
        enough = first.enough;
        least = λ c p q. elim (Bool-cases (ltb c 96)) [
          | inl small ↦ omega (arith, low_counts c (ltb-eq-true _ _ small), low)
          | inr big ↦ first.least c (ltb-eq-false _ _ big) q
        ];
      },
    )

clamp_count_bounds : (i : ℕ) → (65536 ≤ clamp_count i) × (clamp_count i ≤ 65011712)
clamp_count_bounds i = ground arith

-- EncodedCount never panics: the octet for a positive count, first brought into the range from 65536
-- to 65011712, is the first of all octets that stands for so many iterations; none and 0 give 224.
pub encoded_count_lem :
    (i : ℕ)
    → (0 < i
        → (r : ℕ) × (encoded_count (some i) ≡ ok r) × IsFirst decode_count 0 255 (clamp_count i) r)
      × (encoded_count (some 0) ≡ ok 224)
      × (encoded_count none ≡ ok 224)
unfolding encoded_count
encoded_count_lem i = (
  λ h.
      let bounds = clamp_count_bounds i in
      let (r, e, first) = encode_count-IsFirst (clamp_count i) bounds.0 bounds.1 in
      (r, ground (arith, e), first),
  refl,
  refl,
)

abbrev pub clamp_memory : ℕ → ℕ → ℕ
clamp_memory parallelism memory =
    let low = parallelism * 8 in
    if ltb memory low then low else if ltb 2147483648 memory then 2147483648 else memory

clamp_memory_bounds :
    (p memory : ℕ)
    → p < 256
    → (8 * p ≤ clamp_memory p memory) × (clamp_memory p memory ≤ 2147483648)
clamp_memory_bounds p memory h = ground arith

parallelism_of-lt :
    (c : Argon2Config) → c.degree_of_parallelism < 256 → parallelism_of (some c) < 256
unfolding parallelism_of
parallelism_of-lt c h = ground arith

-- EncodedMemory never panics on a parallelism below 256: it stores the first exponent from 3 on that
-- stands for so many kibibytes, where the positive number asked for is first brought to eight for
-- each thread at least, and 2 ^ 31 at most; no config and a size of 0 give 16.
pub encoded_memory_lem :
    (c : Argon2Config)
    → c.degree_of_parallelism < 256
    → let wanted = clamp_memory (parallelism_of (some c)) c.memory in
      (0 < c.memory
        → (r : ℕ) × (encoded_memory (some c) ≡ ok r) × IsFirst decode_memory 3 31 wanted r)
      × (c.memory ≡ 0 → encoded_memory (some c) ≡ ok 16)
      × (encoded_memory none ≡ ok 16)
unfolding encoded_memory encode_memory
encoded_memory_lem c h = (
  λ some_memory.
      let p = parallelism_of (some c) in
      let wanted = clamp_memory p c.memory in
      let bounds = clamp_memory_bounds p c.memory (parallelism_of-lt c h) in
      let first =
        find_from-IsFirst decode_memory 31 wanted 28 3 (omega arith) (omega arith)
          (omega (arith, memory_31, bounds.1)) in
      (find_from decode_memory 31 28 3 wanted, ground (arith, bounds), first),
  λ e. rw e refl,
  refl,
)
