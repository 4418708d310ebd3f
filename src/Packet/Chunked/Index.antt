-- ===== src/Packet/Chunked/Index.antt =====
-- The chunk index as a number.
use go_crypto.Base.{
  ℕ, ◌+◌, ◌*◌, ◌^◌, ◌<◌, Bool, true, false, Bool-cases, inl, inr, [], ◌∷◌, length, Bytes, AreBytes,
  ltb, ltb-eq-true, ltb-eq-false, ◌≡◌, refl, ◌∙◌, arith,
}
use go_crypto.Packet.Chunked.{increment_loop}

-- What a byte in front of the index counts for.
unfoldable pub place : Bytes → ℕ
place [] = 1
place (b ∷ index) = 256 * place index

-- The number that the index stands for, the first byte the most significant.
unfoldable pub index_value : Bytes → ℕ
unfolding place
index_value [] = 0
index_value (b ∷ index) = b * place index + index_value index

place_lem : (xs ys : Bytes) → length xs ≡ length ys → place xs ≡ place ys
unfolding place
place_lem [] [] h = refl
place_lem [] (y ∷ ys) h = absurd (omega arith)
place_lem (x ∷ xs) [] h = absurd (omega arith)
place_lem (x ∷ xs) (y ∷ ys) h = omega (arith, place_lem xs ys (omega arith))

-- `done` says whether the index grew by one, or was at its end and is 0 again.
record Counts (index index' : Bytes) (done : Bool) : Type 0 where
  same_size : length index' ≡ length index
  bytes : AreBytes index'
  grows : done ≡ true → index_value index' ≡ index_value index + 1
  wraps : done ≡ false → (index_value index + 1 ≡ place index) × (index_value index' ≡ 0)

increment_loop-Counts :
    (index : Bytes)
    → AreBytes index
    → let (index', done) = increment_loop index in Counts index index' done
unfolding increment_loop index_value place
increment_loop-Counts [] h = record {
  same_size = refl;
  bytes = tt;
  grows = λ e. absurd cc;
  wraps = λ e. (omega arith, refl);
}
increment_loop-Counts (b ∷ index) (hb, h) =
    let ih = increment_loop-Counts index h in
    let index' = (increment_loop index).0 in
    let same = place_lem index' index ih.same_size in
    elim (Bool-cases (increment_loop index).1) [
      | inl done ↦ rw done (record {
        same_size = omega (arith, ih.same_size);
        bytes = (hb, ih.bytes);
        grows = λ e. rw same (omega (arith, ih.grows done));
        wraps = λ e. absurd cc;
      })
      | inr carry ↦
          let (full, none) = ih.wraps carry in
          elim (Bool-cases (ltb b 255)) [
            | inl low ↦
                rw (carry, low)
                  (record {
                    same_size = omega (arith, ih.same_size);
                    bytes = (omega (arith, ltb-eq-true b 255 low), ih.bytes);
                    grows = λ e. rw (same, none) (omega (arith, full));
                    wraps = λ e. absurd cc;
                  })
            | inr high ↦
                let most : b ≡ 255 = omega (arith, ltb-eq-false b 255 high, hb) in
                rw (carry, high)
                  (record {
                    same_size = omega (arith, ih.same_size);
                    bytes = (omega arith, ih.bytes);
                    grows = λ e. absurd cc;
                    wraps = λ e. (rw most (omega (arith, full)), rw none (omega arith));
                  })
          ]
    ]

place_eight : (index : Bytes) → length index ≡ 8 → place index ≡ 2 ^ 64
unfolding place
place_eight index h = place_lem index (0 ∷ 0 ∷ 0 ∷ 0 ∷ 0 ∷ 0 ∷ 0 ∷ 0 ∷ []) h ∙ omega arith

-- An index of eight bytes that is not at its end grows by one.
pub increment_loop_grows :
    (index : Bytes)
    → AreBytes index
    → length index ≡ 8
    → index_value index + 1 < 2 ^ 64
    → let (index', done) = increment_loop index in
      (done ≡ true)
      × (length index' ≡ 8)
      × AreBytes index'
      × (index_value index' ≡ index_value index + 1)
increment_loop_grows index h size room =
    let counts = increment_loop-Counts index h in
    elim (Bool-cases (increment_loop index).1) [
      | inl done ↦ (done, counts.same_size ∙ size, counts.bytes, counts.grows done)
      | inr wrapped ↦ absurd (omega (arith, (counts.wraps wrapped).0, place_eight index size, room))
    ]
