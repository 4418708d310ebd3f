-- ===== src/Packet/Mdc/Reads.antt =====
-- One `Read` of the reader that keeps the trailer back.
use go_crypto.Base.{
  ℕ, zero, suc, ◌+◌, ◌-◌, ◌≤◌, ◌<◌, true, false, Bool-cases, inl, inr, ◌⊎◌, [], ◌++◌, length, take,
  drop, Bytes, Result, ok, err, panic, stuck, eof, ltb, leb, ltb-eq-true, ltb-eq-false, ◌≡◌, ◌≢◌,
  refl, sym, ap, ◌∙◌, arith, length-append, length-take, length-drop, take-append-drop,
  append_assoc, append-nil,
}
use go_crypto.Io.Source.{ReadResult, IsSource, read_up_to, read_up_to-ReadsUpTo, nil_cases}
use go_crypto.Packet.Mdc.{
  SeMdcReader, on_fill, fill_trailer, shift_trailer, short_read, long_read, filled_read, mdc_read,
}

module _ {S : Type 0} (read : S → ℕ → Result Bytes × S) (text : S → Bytes)
    (source : IsSource read text) where
  -- What the reader holds back and what is left to read.
  abbrev pub ahead : SeMdcReader S → Bytes
  ahead r = r.trailer ++ text r.inp

  -- A state in which a `Read` delivers or ends: `whole` is all that was ever hashed or is ahead.
  pub record IsLive (whole : Bytes) (r : SeMdcReader S) : Type 0 where
    pub kept : r.hashed ++ ahead r ≡ whole
    pub room : length r.trailer ≤ 22
    pub enough : 22 ≤ length (ahead r)
    pub fine : r.error ≡ false
    pub ended : r.eof ≡ true → text r.inp ≡ []

  fill_trailer_lem :
      (whole : Bytes) (fuel : ℕ) (r : SeMdcReader S)
      → IsLive whole r
      → r.eof ≡ false
      → 22 < fuel + length r.trailer
      → let (e, r') = fill_trailer read fuel r in
        (e ≡ ok tt)
        × IsLive whole r'
        × (length r'.trailer ≡ 22)
        × (r'.hashed ≡ r.hashed)
        × (r'.eof ≡ false)
  unfolding fill_trailer on_fill
  fill_trailer_lem whole zero r live open_yet h = absurd (omega (arith, h, live.room))
  fill_trailer_lem whole (suc fuel) r live open_yet h =
      elim (Bool-cases (ltb (length r.trailer) 22)) [
        | inl more ↦
            let lt = ltb-eq-true _ _ more in
            let some : text r.inp ≢ [] = λ none. absurd (
              omega
                (arith, live.enough, lt, length-append r.trailer (text r.inp), ap length none)) in
            let (got, s', e, d) = source.delivers r.inp (21 - length r.trailer) some in
            let size : suc (21 - length r.trailer) ≡ 22 - length r.trailer = omega (arith, lt) in
            let e' : read r.inp (22 - length r.trailer) ≡ (ok got, s') =
              ap (λ k. read r.inp k) (sym size) ∙ e in
            let same : (r.trailer ++ got) ++ text s' ≡ ahead r =
              append_assoc r.trailer got (text s') ∙ ap (λ xs. r.trailer ++ xs) d.splits in
            let live' : IsLive whole (record r { inp = s'; trailer = r.trailer ++ got }) = record {
              kept = ap (λ xs. r.hashed ++ xs) same ∙ live.kept;
              room = omega (arith, length-append r.trailer got, d.at_most, lt);
              enough = rw same live.enough;
              fine = live.fine;
              ended = λ p. absurd (cc (p, open_yet));
            } in
            let ih =
              fill_trailer_lem whole fuel (record r { inp = s'; trailer = r.trailer ++ got }) live'
                open_yet (omega (arith, h, d.some_bytes, length-append r.trailer got)) in
            rw (more, e') ih
        | inr full ↦
            rw full (refl, live, omega (arith, ltb-eq-false _ _ full, live.room), refl, open_yet)
      ]

  -- What a `Read` gives in a live state: bytes, and either not EOF and at least one, or EOF for good.
  pub record Reads (whole : Bytes) (r : SeMdcReader S) (got : ReadResult) (r' : SeMdcReader S)
      : Type 0 where
    pub live : IsLive whole r'
    pub hashes : r'.hashed ≡ r.hashed ++ got.0
    pub goes_on :
        ((got.1 ≡ ok tt) × (0 < length got.0) × (r'.eof ≡ false))
        ⊎ ((got.1 ≡ err eof) × (r'.eof ≡ true))

  -- The bytes `got` go through a full trailer.
  shift_trailer-IsLive :
      (whole : Bytes) (r : SeMdcReader S) (got : Bytes) (s : S)
      → IsLive whole r
      → r.eof ≡ false
      → length r.trailer ≡ 22
      → got ++ text s ≡ text r.inp
      → IsLive whole (shift_trailer read r got s)
  unfolding shift_trailer
  shift_trailer-IsLive whole r got s live open_yet full splits =
      let n = length got in
      let front = take n (r.trailer ++ got) in
      let back = drop n (r.trailer ++ got) in
      let whole_trailer = take-append-drop n (r.trailer ++ got) in
      let same : (r.trailer ++ got) ++ text s ≡ ahead r =
        append_assoc r.trailer got (text s) ∙ ap (λ xs. r.trailer ++ xs) splits in
      let size : length (drop n (r.trailer ++ got)) ≡ 22 =
        omega (arith, length-drop n (r.trailer ++ got), length-append r.trailer got, full) in
      record {
        kept =
            append_assoc r.hashed front (back ++ text s)
            ∙ ap (λ xs. r.hashed ++ xs)
                (sym (append_assoc front back (text s))
                  ∙ ap (λ xs. xs ++ text s) whole_trailer
                  ∙ same)
            ∙ live.kept;
        room = omega (arith, size);
        enough = omega (arith, size, length-append (drop n (r.trailer ++ got)) (text s));
        fine = live.fine;
        ended = λ p. absurd (cc (p, open_yet));
      }

  short_read-Reads :
      (whole : Bytes) (k : ℕ) (r : SeMdcReader S)
      → IsLive whole r
      → r.eof ≡ false
      → length r.trailer ≡ 22
      → 0 < k
      → let (got, r') = short_read read k r in Reads whole r got r'
  unfolding short_read
  short_read-Reads whole k r live open_yet full h =
      let upto = read_up_to-ReadsUpTo read text source k k r.inp (omega arith) in
      let got = (read_up_to read k k r.inp).0 in
      let after = (read_up_to read k k r.inp).1 in
      let live' = shift_trailer-IsLive whole r got after live open_yet full upto.splits in
      elim (Bool-cases (ltb (length got) k)) [
        | inl less ↦ rw less (record {
          live = record {
            kept = live'.kept;
            room = live'.room;
            enough = live'.enough;
            fine = live'.fine;
            ended = λ p. upto.all (ltb-eq-true _ _ less);
          };
          hashes = refl;
          goes_on = inr (refl, refl);
        })
        | inr all ↦ rw all (record {
          live = live';
          hashes = refl;
          goes_on = inl (
            refl,
            omega (
              arith,
              h,
              ltb-eq-false _ _ all,
              length-take (length got) (r.trailer ++ got),
              length-append r.trailer got,
            ),
            open_yet,
          );
        })
      ]

  long_read-Reads :
      (whole : Bytes) (k : ℕ) (r : SeMdcReader S)
      → IsLive whole r
      → r.eof ≡ false
      → length r.trailer ≡ 22
      → 0 < k
      → let (got, r') = long_read read r (read r.inp k) in Reads whole r got r'
  unfolding long_read
  long_read-Reads whole zero r live open_yet full h = absurd (omega (arith, h))
  long_read-Reads whole (suc k) r live open_yet full h = elim (nil_cases (text r.inp)) [
    | inl none ↦
        let (s, e, e') = source.at_end r.inp k none in
        rw e (record {
          live = record {
            kept = ap (λ xs. r.hashed ++ (r.trailer ++ xs)) (e' ∙ sym none) ∙ live.kept;
            room = live.room;
            enough = rw (e' ∙ sym none) live.enough;
            fine = live.fine;
            ended = λ p. e';
          };
          hashes = sym (append-nil r.hashed);
          goes_on = inr (refl, refl);
        })
    | inr some ↦
        let (got, s, e, d) = source.delivers r.inp k some in
        rw e (record {
          live = shift_trailer-IsLive whole r got s live open_yet full d.splits;
          hashes = refl;
          goes_on = inl (
            refl,
            omega (
              arith,
              d.some_bytes,
              length-take (length got) (r.trailer ++ got),
              length-append r.trailer got,
            ),
            open_yet,
          );
        })
  ]

  filled_read-Reads :
      (whole : Bytes) (k : ℕ) (before : SeMdcReader S) (filled : Result (Unit {0}) × SeMdcReader S)
      → filled.0 ≡ ok tt
      → IsLive whole filled.1
      → length filled.1.trailer ≡ 22
      → filled.1.hashed ≡ before.hashed
      → filled.1.eof ≡ false
      → 0 < k
      → let (got, r') = filled_read read k filled in Reads whole before got r'
  unfolding filled_read
  filled_read-Reads whole k before (ok x, r) e live full same open_yet h =
      elim (Bool-cases (leb k 22)) [
        | inl short ↦
            let out = short_read-Reads whole k r live open_yet full h in
            rw short (record {
              live = out.live;
              hashes = out.hashes ∙ ap (λ xs. xs ++ (short_read read k r).0.0) same;
              goes_on = out.goes_on;
            })
        | inr long ↦
            let out = long_read-Reads whole (k - 22) r live open_yet full (ground (arith, long)) in
            rw long (record {
              live = out.live;
              hashes =
                  out.hashes ∙ ap (λ xs. xs ++ (long_read read r (read r.inp (k - 22))).0.0) same;
              goes_on = out.goes_on;
            })
      ]
  filled_read-Reads whole k before (err x, r) e live full same open_yet h = absurd cc
  filled_read-Reads whole k before (panic, r) e live full same open_yet h = absurd cc
  filled_read-Reads whole k before (stuck, r) e live full same open_yet h = absurd cc

  mdc_read_open :
      (k : ℕ) (r : SeMdcReader S)
      → r.error ≡ false
      → r.eof ≡ false
      → mdc_read read r k ≡ filled_read read k (fill_trailer read 23 r)
  unfolding mdc_read
  mdc_read_open k r fine open_yet = simp (fine, open_yet) refl

  pub mdc_read-Reads :
      (whole : Bytes) (k : ℕ) (r : SeMdcReader S)
      → IsLive whole r
      → r.eof ≡ false
      → 0 < k
      → let (got, r') = mdc_read read r k in Reads whole r got r'
  mdc_read-Reads whole k r live open_yet h =
      let (done, live', full, same, open') =
        fill_trailer_lem whole 23 r live open_yet (omega arith) in
      rw (mdc_read_open k r live.fine open_yet)
        (filled_read-Reads whole k r (fill_trailer read 23 r) done live' full same open' h)
