-- ===== src/Packet/Mdc/Laws.antt =====
-- Reading to the end of data with a modification detection code, and its `Close`.
use go_crypto.Base.{
  ℕ, zero, suc, ◌+◌, ◌<◌, true, false, inl, inr, ◌++◌, length, Bytes, Result, ok, err, panic, stuck,
  eof, unexpected_eof, short_write, structural, unsupported, signature, failure, aead_error,
  invalid_argument, unknown_packet_type, ◌≡◌, refl, sym, ap, ◌∙◌, arith, length-append,
  append_assoc, append-nil,
}
use go_crypto.Io.Source.{ReadResult, after_both, read_to_end, IsSource}
use go_crypto.Packet.Mdc.{SeMdcReader, mdc_read}
use go_crypto.Packet.Mdc.Reads.{IsLive, ahead, Reads, mdc_read-Reads}

module _ {S : Type 0} (read : S → ℕ → Result Bytes × S) (text : S → Bytes)
    (source : IsSource read text) where
  -- All is read: `bs` is returned and hashed, and the trailer is what is left of the text.
  pub record ReadsAll (whole : Bytes) (r : SeMdcReader S) (out : Result Bytes × SeMdcReader S)
      : Type 0 where
    pub bytes : Bytes
    pub returns : out.0 ≡ ok bytes
    pub hashes : out.1.hashed ≡ r.hashed ++ bytes
    pub splits : out.1.hashed ++ out.1.trailer ≡ whole
    pub size : length out.1.trailer ≡ 22
    pub live : IsLive read text source whole out.1
    pub ended : out.1.eof ≡ true

  pub live_end :
      (whole : Bytes) (r : SeMdcReader S)
      → IsLive read text source whole r
      → r.eof ≡ true
      → (r.hashed ++ r.trailer ≡ whole) × (length r.trailer ≡ 22)
  live_end whole r live h =
      let e : r.trailer ≡ r.trailer ++ text r.inp =
        sym (append-nil r.trailer) ∙ ap (λ xs. r.trailer ++ xs) (sym (live.ended h)) in
      (ap (λ xs. r.hashed ++ xs) e ∙ live.kept, omega (arith, live.room, live.enough, ap length e))

  after_both-ReadsAll :
      (whole : Bytes) (next : SeMdcReader S → Result Bytes × SeMdcReader S) (r : SeMdcReader S)
      (step : ReadResult × SeMdcReader S)
      → Reads read text source whole r step.0 step.1
      → (0 < length step.0.0
          → IsLive read text source whole step.1
          → step.1.eof ≡ false
          → ReadsAll whole step.1 (next step.1))
      → ReadsAll whole r (after_both next step)
  unfolding after_both
  after_both-ReadsAll whole next r ((bs, ok x), r') step more = elim step.goes_on [
    | inl goes ↦
        let rest = more goes.1 step.live goes.2 in
        record {
          bytes = bs ++ rest.bytes;
          returns = rw rest.returns refl;
          hashes =
              rest.hashes
              ∙ ap (λ xs. xs ++ rest.bytes) step.hashes
              ∙ append_assoc r.hashed bs rest.bytes;
          splits = rest.splits;
          size = rest.size;
          live = rest.live;
          ended = rest.ended;
        }
    | inr ends ↦ absurd (cc ends.0)
  ]
  after_both-ReadsAll whole next r ((bs, err eof), r') step more = elim step.goes_on [
    | inl goes ↦ absurd (cc goes.0)
    | inr ends ↦
        let (splits, size) = live_end whole r' step.live ends.1 in
        record {
          bytes = bs;
          returns = refl;
          hashes = step.hashes;
          splits = splits;
          size = size;
          live = step.live;
          ended = ends.1;
        }
  ]
  after_both-ReadsAll whole next r ((bs, err unexpected_eof), r') step more =
      absurd (ground (arith, step.goes_on))
  after_both-ReadsAll whole next r ((bs, err short_write), r') step more =
      absurd (ground (arith, step.goes_on))
  after_both-ReadsAll whole next r ((bs, err (structural x)), r') step more =
      absurd (ground (arith, step.goes_on))
  after_both-ReadsAll whole next r ((bs, err (unsupported x)), r') step more =
      absurd (ground (arith, step.goes_on))
  after_both-ReadsAll whole next r ((bs, err (signature x)), r') step more =
      absurd (ground (arith, step.goes_on))
  after_both-ReadsAll whole next r ((bs, err (failure x)), r') step more =
      absurd (ground (arith, step.goes_on))
  after_both-ReadsAll whole next r ((bs, err (aead_error x)), r') step more =
      absurd (ground (arith, step.goes_on))
  after_both-ReadsAll whole next r ((bs, err (invalid_argument x)), r') step more =
      absurd (ground (arith, step.goes_on))
  after_both-ReadsAll whole next r ((bs, err (unknown_packet_type x)), r') step more =
      absurd (ground (arith, step.goes_on))
  after_both-ReadsAll whole next r ((bs, panic), r') step more =
      absurd (ground (arith, step.goes_on))
  after_both-ReadsAll whole next r ((bs, stuck), r') step more =
      absurd (ground (arith, step.goes_on))

  pub mdc_read_all-ReadsAll :
      (whole : Bytes) (k fuel : ℕ) (r : SeMdcReader S)
      → IsLive read text source whole r
      → r.eof ≡ false
      → 0 < k
      → length whole < fuel + length r.hashed
      → ReadsAll whole r (read_to_end (mdc_read read) k fuel r)
  unfolding read_to_end
  mdc_read_all-ReadsAll whole k zero r live open_yet h enough = absurd (
      omega (arith, enough, ap length live.kept, length-append r.hashed (ahead read text source r)))
  mdc_read_all-ReadsAll whole k (suc fuel) r live open_yet h enough =
      let step = mdc_read-Reads read text source whole k r live open_yet h in
      after_both-ReadsAll whole (read_to_end (mdc_read read) k fuel) r (mdc_read read r k) step
        (λ some live' open'.
          mdc_read_all-ReadsAll whole k fuel (mdc_read read r k).1 live' open' h (
            omega (
              arith,
              enough,
              some,
              ap length step.hashes,
              length-append r.hashed (mdc_read read r k).0.0,
            )))
