-- ===== src/S2k/Stretch/Laws.antt =====
-- The loops end, and what they hash and return.
use go_crypto.Base.{
  ℕ, zero, suc, ◌+◌, ◌-◌, ◌≤◌, ◌<◌, false, Bool-cases, inl, inr, [], ◌∷◌, ◌++◌, length, take,
  replicate, max, Bytes, Result, ok, ltb, ltb-eq-true, ltb-eq-false, ◌==◌, if◌then◌else◌, ◌≡◌, refl,
  ap, arith, length-append, length-take, take_all, append-nil,
}
use go_crypto.S2k.Stretch.{key_rounds, write_rounds, salted, iterated}

-- The digests of the rounds from `i` on, joined.
unfoldable pub digests : (ℕ → Bytes) → ℕ → ℕ → Bytes
digests digest zero i = []
digests digest (suc n) i = digest i ++ digests digest n (i + 1)

take_more : (n : ℕ) (xs ys : Bytes) → take n (xs ++ ys) ≡ take n xs ++ take (n - length xs) ys
take_more zero [] ys = refl
take_more zero (x ∷ xs) ys = let none : 0 - suc (length xs) ≡ 0 = omega arith in rw none refl
take_more (suc n) [] ys = let all : suc n - 0 ≡ suc n = omega arith in rw all refl
take_more (suc n) (x ∷ xs) ys =
    let left : suc n - suc (length xs) ≡ n - length xs = omega arith in
    rw left (ap (λ l. x ∷ l) (take_more n xs ys))

take_at_most : (n : ℕ) (xs : Bytes) → length xs ≤ n → take n xs ≡ xs
take_at_most n xs h = take_all n xs h

key_rounds-digests :
    (digest : ℕ → Bytes)
    → ((i : ℕ) → 0 < length (digest i))
    → (fuel i left : ℕ) → left ≤ fuel
    → key_rounds (λ i. ok (digest i)) fuel i left ≡ ok (take left (digests digest fuel i))
unfolding key_rounds digests
key_rounds-digests digest some zero i left h = ground arith
key_rounds-digests digest some (suc fuel) i zero h = refl
key_rounds-digests digest some (suc fuel) i (suc left) h =
    let ih =
      key_rounds-digests digest some fuel (i + 1) (suc left - length (digest i))
        (omega (arith, some i, h)) in
    let more : (suc left == 0) ≡ false = ground arith in
    rw (more, ih, take_more (suc left) (digest i) (digests digest fuel (i + 1))) refl

-- What the rounds of `Iterated` hash: `salt` and passphrase over and over, cut at the count.
unfoldable pub cycle : ℕ → Bytes → Bytes
cycle zero combined = []
cycle (suc n) combined = combined ++ cycle n combined

write_rounds-cycle :
    (combined : Bytes)
    → 0 < length combined
    → (fuel written count : ℕ) → count ≤ written + fuel
    → write_rounds combined fuel written count ≡ ok (take (count - written) (cycle fuel combined))
unfolding write_rounds cycle
write_rounds-cycle combined some zero written count h =
    let done : count - written ≡ 0 = omega (arith, h) in rw done (ground (arith, h))
write_rounds-cycle combined some (suc fuel) written count h =
    let ih =
      write_rounds-cycle combined some fuel (written + length combined) count
        (omega (arith, h, some)) in
    elim (Bool-cases (ltb written count)) [
      | inl more ↦ elim (Bool-cases (ltb count (written + length combined))) [
        | inl last ↦
            let fits : (count - written) - length combined ≡ 0 =
              omega (arith, ltb-eq-true _ _ last) in
            rw
              (
                more,
                last,
                take_more (count - written) combined (cycle fuel combined),
                fits,
                append-nil,
              )
              refl
        | inr whole ↦
            let over : length combined ≤ count - written = omega (arith, ltb-eq-false _ _ whole) in
            let left : (count - written) - length combined ≡ count - (written + length combined) =
              omega arith in
            rw
              (
                more,
                whole,
                ih,
                take_more (count - written) combined (cycle fuel combined),
                left,
                take_at_most (count - written) combined over,
              )
              refl
      ]
      | inr done ↦
          let none : count - written ≡ 0 = omega (arith, ltb-eq-false _ _ done) in
          rw (done, none) refl
    ]

length-digests :
    (digest : ℕ → Bytes)
    → ((i : ℕ) → 0 < length (digest i))
    → (n i : ℕ) → n ≤ length (digests digest n i)
unfolding digests
length-digests digest some zero i = omega arith
length-digests digest some (suc n) i = omega (
  arith,
  length-append (digest i) (digests digest n (i + 1)),
  some i,
  length-digests digest some n (i + 1),
)

abbrev pub IsKey : ℕ → (ℕ → Bytes) → Result Bytes → Type 0
IsKey size digest r =
    (key : Bytes) × (r ≡ ok key) × (length key ≡ size) × (key ≡ take size (digests digest size 0))

key_rounds-IsKey :
    (digest : ℕ → Bytes) (size : ℕ)
    → ((i : ℕ) → 0 < length (digest i))
    → IsKey size digest (key_rounds (λ i. ok (digest i)) size 0 size)
key_rounds-IsKey digest size some = (
  take size (digests digest size 0),
  key_rounds-digests digest some size 0 size (omega arith),
  omega (arith, length-take size (digests digest size 0), length-digests digest some size 0),
  refl,
)

module _ (sum : Bytes → Bytes) (some : (bs : Bytes) → 0 < length (sum bs)) where
  -- With a hash whose sums are not empty, the salted key has the size asked for and is the front of
  -- the sums of the salt and the passphrase behind 0, 1, 2, … zeros.
  pub salted-IsKey :
      (size : ℕ) (passphrase salt : Bytes)
      → IsKey size
          (λ i. sum (replicate i 0 ++ (salt ++ passphrase)))
          (salted sum size passphrase salt)
  unfolding salted
  salted-IsKey size passphrase salt =
      key_rounds-IsKey (λ i. sum (replicate i 0 ++ (salt ++ passphrase))) size (λ i. some _)

  -- With a hash whose sums are not empty and a salt or a passphrase, Iterated ends, and its key, of
  -- the size asked for, is the front of the sums of a text behind 0, 1, 2, … zeros, where the text
  -- is the salt and the passphrase over and over, cut after count bytes, or once where the count is
  -- smaller.
  pub iterated-IsKey :
      (size count : ℕ) (passphrase salt : Bytes)
      → 0 < length (salt ++ passphrase)
      → let n = max count (length (salt ++ passphrase)) in
        IsKey size
          (λ i. sum (replicate i 0 ++ take n (cycle n (salt ++ passphrase))))
          (iterated sum size passphrase salt count)
  unfolding iterated
  iterated-IsKey size count passphrase salt h =
      let combined = salt ++ passphrase in
      let n = max count (length combined) in
      let larger : (if ltb count (length combined) then length combined else count) ≡ n =
        ground arith in
      let all : n - 0 ≡ n = omega arith in
      let written : write_rounds combined n 0 n ≡ ok (take n (cycle n combined)) =
        rw all at (write_rounds-cycle combined h n 0 n (omega arith)) in
      rw (larger, written)
        (key_rounds-IsKey (λ i. sum (replicate i 0 ++ take n (cycle n combined))) size
          (λ i. some _))
