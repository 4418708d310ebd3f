-- ===== src/Packet/Mdc/Short.antt =====
-- Data that is too short for a modification detection code.
use go_crypto.Base.{
  ℕ, zero, suc, ◌+◌, ◌-◌, ◌<◌, true, false, Bool-cases, inl, inr, [], ◌++◌, length, Bytes, Result,
  ok, err, panic, stuck, Error, eof, unexpected_eof, ltb, ◌≡◌, refl, sym, ap, ◌∙◌, arith,
  length-append,
}
use go_crypto.Io.Source.{after_both, read_to_end, IsSource, nil_cases}
use go_crypto.Packet.Mdc.{
  SeMdcReader, on_fill, fill_trailer, filled_read, mdc_read, drain, mdc_close, err_mdc_missing,
  new_mdc_reader,
}

module _ {S : Type 0} (read : S → ℕ → Result Bytes × S) (text : S → Bytes)
    (source : IsSource read text) where
  fill_trailer_short :
      (fuel : ℕ) (r : SeMdcReader S)
      → length r.trailer + length (text r.inp) < 22
      → 22 < fuel + length r.trailer
      → let (e, r') = fill_trailer read fuel r in (e ≡ err unexpected_eof) × (r'.error ≡ true)
  unfolding fill_trailer on_fill
  fill_trailer_short zero r short h = absurd (omega (arith, h, short))
  fill_trailer_short (suc fuel) r short h = elim (nil_cases (text r.inp)) [
    | inl none ↦
        let (s', e, e') = source.at_end r.inp (21 - length r.trailer) none in
        let more : ltb (length r.trailer) 22 ≡ true = ground (arith, short) in
        let size : suc (21 - length r.trailer) ≡ 22 - length r.trailer = omega (arith, short) in
        let asked : read r.inp (22 - length r.trailer) ≡ (err eof, s') =
          ap (λ k. read r.inp k) (sym size) ∙ e in
        rw (more, asked) (refl, refl)
    | inr some ↦
        let (got, s', e, d) = source.delivers r.inp (21 - length r.trailer) some in
        let more : ltb (length r.trailer) 22 ≡ true = ground (arith, short) in
        let size : suc (21 - length r.trailer) ≡ 22 - length r.trailer = omega (arith, short) in
        let asked : read r.inp (22 - length r.trailer) ≡ (ok got, s') =
          ap (λ k. read r.inp k) (sym size) ∙ e in
        let ih =
          fill_trailer_short fuel (record r { inp = s'; trailer = r.trailer ++ got })
            (omega (
              arith,
              short,
              length-append r.trailer got,
              ap length d.splits,
              length-append got (text s'),
            ))
            (omega (arith, h, d.some_bytes, length-append r.trailer got)) in
        rw (more, asked) ih
  ]

  filled_read_failed :
      (k : ℕ) (filled : Result (Unit {0}) × SeMdcReader S)
      → filled.0 ≡ err unexpected_eof
      → filled_read read k filled ≡ (([], err unexpected_eof), filled.1)
  unfolding filled_read
  filled_read_failed k (ok x, r) e = absurd cc
  filled_read_failed k (err x, r) e = cc e
  filled_read_failed k (panic, r) e = absurd cc
  filled_read_failed k (stuck, r) e = absurd cc

  mdc_read_short :
      (prefix : Bytes) (k : ℕ) (s : S)
      → length (text s) < 22
      → (r : SeMdcReader S) × (mdc_read read (new_mdc_reader prefix s) k
          ≡ (([], err unexpected_eof), r))
        × (r.error ≡ true)
  unfolding mdc_read new_mdc_reader
  mdc_read_short prefix k s h =
      let r = new_mdc_reader prefix s in
      let (e, bad) = fill_trailer_short 23 r (omega (arith, h)) (omega arith) in
      ((fill_trailer read 23 r).1, filled_read_failed k (fill_trailer read 23 r) e, bad)

  mdc_read_all_short :
      (prefix : Bytes) (k fuel : ℕ) (s : S)
      → length (text s) < 22
      → let (out, r) = read_to_end (mdc_read read) k (suc fuel) (new_mdc_reader prefix s) in
        (out ≡ err unexpected_eof) × (r.error ≡ true)
  unfolding read_to_end after_both
  mdc_read_all_short prefix k fuel s h =
      let (r, e, bad) = mdc_read_short prefix k s h in rw e (refl, bad)

  mdc_close_missing :
      (sum : Bytes → Bytes) (fuel : ℕ) (r : SeMdcReader S) (e : Error)
      → r.eof ≡ false
      → (read_to_end (mdc_read read) 1024 fuel r).0 ≡ err e
      → (mdc_close read sum fuel r).0 ≡ err err_mdc_missing
  unfolding mdc_close drain
  mdc_close_missing sum fuel r e open_yet failed = elim (Bool-cases r.error) [
    | inl bad ↦ simp bad refl
    | inr fine ↦ simp (fine, open_yet, failed) refl
  ]

  mdc_close_bad :
      (sum : Bytes → Bytes) (fuel : ℕ) (r : SeMdcReader S)
      → r.error ≡ true
      → (mdc_close read sum fuel r).0 ≡ err err_mdc_missing
  unfolding mdc_close
  mdc_close_bad sum fuel r bad = simp bad refl

  -- Data of fewer than 22 bytes is an unexpected EOF for whoever reads it, and Close reports a
  -- missing code after that read, or without one.
  pub mdc_close_short :
      (sum : Bytes → Bytes) (prefix : Bytes) (k fuel fuel' : ℕ) (s : S)
      → length (text s) < 22
      → let (out, r) = read_to_end (mdc_read read) k (suc fuel) (new_mdc_reader prefix s) in
        (out ≡ err unexpected_eof)
        × ((mdc_close read sum fuel' r).0 ≡ err err_mdc_missing)
        × ((mdc_close read sum (suc fuel) (new_mdc_reader prefix s)).0 ≡ err err_mdc_missing)
  unfolding new_mdc_reader
  mdc_close_short sum prefix k fuel fuel' s h =
      let (e, bad) = mdc_read_all_short prefix k fuel s h in
      (
        e,
        mdc_close_bad sum fuel'
            (read_to_end (mdc_read read) k (suc fuel) (new_mdc_reader prefix s)).1 bad,
        mdc_close_missing sum (suc fuel) (new_mdc_reader prefix s) unexpected_eof refl
            (mdc_read_all_short prefix 1024 fuel s h).0,
      )
