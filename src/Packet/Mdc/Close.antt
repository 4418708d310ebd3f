-- ===== src/Packet/Mdc/Close.antt =====
-- `Close` of data with a modification detection code: what it accepts.
use go_crypto.Base.{
  ℕ, suc, ◌+◌, ◌≤◌, ◌<◌, false, Bool-cases, inl, inr, [], ◌∷◌, ◌++◌, length, take, drop, Bytes,
  Result, ok, ◌≡◌, ◌↔◌, refl, sym, ap, ap₂, subst, ◌∙◌, arith, length-append, take-append,
  drop-append, append_assoc, bytes_equal_refl, bytes_equal-eq,
}
use go_crypto.Io.Source.{read_to_end, IsSource}
use go_crypto.Packet.Mdc.{
  SeMdcReader, mdc_read, drain, check_trailer, mdc_close, new_mdc_reader, mdc_written,
}
use go_crypto.Packet.Mdc.Reads.{IsLive}
use go_crypto.Packet.Mdc.Laws.{mdc_read_all-ReadsAll, live_end}

-- Equal lists with tails of one length have equal parts.
split_unique :
    (n : ℕ) (xs ys xs' ys' : Bytes)
    → length ys ≡ n
    → length ys' ≡ n
    → xs ++ ys ≡ xs' ++ ys'
    → (xs ≡ xs') × (ys ≡ ys')
split_unique n xs ys xs' ys' h h' e =
    let size : length xs ≡ length xs' =
      omega (arith, ap length e, length-append xs ys, length-append xs' ys', h, h') in
    (
      sym (take-append (length xs) xs ys refl)
          ∙ ap (take (length xs)) e
          ∙ take-append (length xs) xs' ys' (sym size),
      sym (drop-append (length xs) xs ys refl)
          ∙ ap (drop (length xs)) e
          ∙ drop-append (length xs) xs' ys' (sym size),
    )

module _ {S : Type 0} (read : S → ℕ → Result Bytes × S) (text : S → Bytes)
    (source : IsSource read text) where
  check_trailer_iff :
      (sum : Bytes → Bytes) (hashed trailer : Bytes)
      → length trailer ≡ 22
      → (check_trailer read sum hashed trailer ≡ ok tt)
        ↔ (trailer ≡ 211 ∷ 20 ∷ sum (hashed ++ (211 ∷ 20 ∷ [])))
  unfolding check_trailer
  check_trailer_iff sum hashed [] size = absurd (omega (arith, size))
  check_trailer_iff sum hashed (a ∷ []) size = absurd (omega (arith, size))
  check_trailer_iff sum hashed (a ∷ b ∷ digest) size = (accepts, accepted)
    where
      total : Bytes
      total = sum (hashed ++ (a ∷ b ∷ []))

      accepts :
          check_trailer read sum hashed (a ∷ b ∷ digest) ≡ ok tt
          → a ∷ b ∷ digest ≡ 211 ∷ 20 ∷ sum (hashed ++ (211 ∷ 20 ∷ []))
      accepts h = ground (arith, h, bytes_equal-eq total digest)

      accepted :
          a ∷ b ∷ digest ≡ 211 ∷ 20 ∷ sum (hashed ++ (211 ∷ 20 ∷ []))
          → check_trailer read sum hashed (a ∷ b ∷ digest) ≡ ok tt
      accepted h = ground (arith, h, bytes_equal_refl digest)

  drain-ends :
      (whole : Bytes) (fuel : ℕ) (r : SeMdcReader S)
      → IsLive read text source whole r
      → length whole < fuel + length r.hashed
      → let (drained, r') = drain read fuel r in
        (drained ≡ ok tt) × (r'.hashed ++ r'.trailer ≡ whole) × (length r'.trailer ≡ 22)
  unfolding drain
  drain-ends whole fuel r live h = elim (Bool-cases r.eof) [
    | inl ended ↦
        let (splits, size) = live_end read text source whole r live ended in
        simp ended (refl, splits, size)
    | inr open_yet ↦
        let all =
          mdc_read_all-ReadsAll read text source whole 1024 fuel r live open_yet (omega arith) h in
        simp (open_yet, all.returns) (refl, all.splits, all.size)
  ]

  mdc_close-check :
      (sum : Bytes → Bytes) (fuel : ℕ) (r : SeMdcReader S)
      → r.error ≡ false
      → (drain read fuel r).0 ≡ ok tt
      → let r' = (drain read fuel r).1 in
        (mdc_close read sum fuel r).0 ≡ check_trailer read sum r'.hashed r'.trailer
  unfolding mdc_close
  mdc_close-check sum fuel r fine done = simp (fine, done) refl

  -- In every state in which the reader has hashed a front of the prefix and the text, holds at most
  -- 22 bytes back, has 22 bytes ahead and saw no error, Close, which reads what is left, succeeds if
  -- and only if the last 22 bytes are the header of the code and the hash of all before them and
  -- that header.
  pub mdc_close_accepts :
      (sum : Bytes → Bytes) (body trailer : Bytes) (fuel : ℕ) (r : SeMdcReader S)
      → IsLive read text source (body ++ trailer) r
      → length trailer ≡ 22
      → length (body ++ trailer) < fuel + length r.hashed
      → ((mdc_close read sum fuel r).0 ≡ ok tt)
        ↔ (trailer ≡ 211 ∷ 20 ∷ sum (body ++ (211 ∷ 20 ∷ [])))
  mdc_close_accepts sum body trailer fuel r live size h =
      let (done, splits, size') = drain-ends (body ++ trailer) fuel r live h in
      let last = (drain read fuel r).1 in
      let (hashes, holds) =
        split_unique 22 last.hashed last.trailer body trailer size' size splits in
      let e : (mdc_close read sum fuel r).0 ≡ check_trailer read sum body trailer =
        mdc_close-check sum fuel r live.fine done ∙ ap₂ (check_trailer read sum) hashes holds in
      rw e (check_trailer_iff sum body trailer size)

  pub new_mdc_reader-IsLive :
      (prefix : Bytes) (s : S)
      → 22 ≤ length (text s)
      → IsLive read text source (prefix ++ text s) (new_mdc_reader prefix s)
  unfolding new_mdc_reader
  new_mdc_reader-IsLive prefix s h = record {
    kept = refl;
    room = omega arith;
    enough = h;
    fine = refl;
    ended = λ e. absurd cc;
  }

  -- Over any source that keeps to the contract of a reader, whose text is a body and 22 bytes more:
  -- reads with buffers of any positive size return the body to the end, and a Close after them
  -- succeeds if and only if the 22 bytes are the header of the code and the hash of the prefix, the
  -- body and that header.
  pub mdc_read-mdc_close :
      (sum : Bytes → Bytes) (prefix body trailer : Bytes) (k fuel : ℕ) (s : S)
      → text s ≡ body ++ trailer
      → length trailer ≡ 22
      → 0 < k
      → length (text s) < fuel
      → let (out, r) = read_to_end (mdc_read read) k fuel (new_mdc_reader prefix s) in
        (out ≡ ok body)
        × (((mdc_close read sum fuel r).0 ≡ ok tt)
            ↔ (trailer ≡ 211 ∷ 20 ∷ sum ((prefix ++ body) ++ (211 ∷ 20 ∷ []))))
  unfolding new_mdc_reader
  mdc_read-mdc_close sum prefix body trailer k fuel s e size some h =
      let size' : 22 ≤ length (text s) =
        omega (arith, ap length e, length-append body trailer, size) in
      let all =
        mdc_read_all-ReadsAll read text source (prefix ++ text s) k fuel (new_mdc_reader prefix s)
          (new_mdc_reader-IsLive prefix s size') refl some
          (omega (arith, h, length-append prefix (text s))) in
      let r = (read_to_end (mdc_read read) k fuel (new_mdc_reader prefix s)).1 in
      let whole : prefix ++ text s ≡ (prefix ++ body) ++ trailer =
        ap (λ xs. prefix ++ xs) e ∙ sym (append_assoc prefix body trailer) in
      let (hashes, holds) =
        split_unique 22 r.hashed r.trailer (prefix ++ body) trailer all.size size
          (all.splits ∙ whole) in
      let bytes =
        sym (drop-append (length prefix) prefix all.bytes refl)
        ∙ ap (drop (length prefix)) (sym all.hashes ∙ hashes)
        ∙ drop-append (length prefix) prefix body refl in
      let closes =
        mdc_close_accepts sum (prefix ++ body) trailer fuel r
          (subst (λ w. IsLive read text source w r) whole all.live) size
          (omega (
            arith,
            h,
            ap length e,
            length-append prefix body,
            length-append (prefix ++ body) trailer,
            length-append body trailer,
            ap length hashes,
          )) in
      (all.returns ∙ ap ok bytes, closes)

  -- With a hash of 20 bytes, what the writer makes of a body is read back, over any source that
  -- keeps to the contract of a reader and with buffers of any positive size, and Close then
  -- succeeds.
  pub mdc_written_round_trip :
      (sum : Bytes → Bytes) (prefix body : Bytes) (k fuel : ℕ) (s : S)
      → ((xs : Bytes) → length (sum xs) ≡ 20)
      → text s ≡ mdc_written sum prefix body
      → 0 < k
      → length (text s) < fuel
      → let (out, r) = read_to_end (mdc_read read) k fuel (new_mdc_reader prefix s) in
        (out ≡ ok body) × ((mdc_close read sum fuel r).0 ≡ ok tt)
  unfolding mdc_written
  mdc_written_round_trip sum prefix body k fuel s digest e some h =
      let trailer : Bytes = 211 ∷ 20 ∷ sum ((prefix ++ body) ++ (211 ∷ 20 ∷ [])) in
      let size : length trailer ≡ 22 =
        ap (λ (n : ℕ). suc (suc n)) (digest ((prefix ++ body) ++ (211 ∷ 20 ∷ []))) in
      let (reads, closes) = mdc_read-mdc_close sum prefix body trailer k fuel s e size some h in
      (reads, closes.1 refl)
