-- ===== src/Packet/Reader/Skips.antt =====
-- What `Next` passes over, as steps on the stack of sources, and where it stops.
use Prim.Native.String.{String}
use go_crypto.Base.{
  ℕ, zero, suc, ◌+◌, ◌≤◌, ◌<◌, true, false, Bool-cases, Option, inl, inr, List, [], ◌∷◌, length,
  Result, ok, err, Error, eof, unexpected_eof, short_write, structural, unsupported, signature,
  invalid_argument, unknown_packet_type, aead_error, failure, leb, ◌≡◌, ◌≢◌, refl, arith,
}
use go_crypto.Packet.Reader.{
  Outcome, packet, failed, PacketSource, Reader, new_reader, push, unread, blocks, on_outcome,
  next_packet, next,
}

module _ {P R : Type 0} (source : PacketSource P R) where
  -- The errors of packets that are passed over.
  pub data IsSkipped : Option P → Error → Type 0 where
    unknown : {p : Option P} {t : ℕ} → IsSkipped p (unknown_packet_type t)
    not_supported :
        {p : Option P} → {m : String} → blocks source p ≡ false → IsSkipped p (unsupported m)

  -- The errors that end the reading.
  pub data IsFinal : Option P → Error → Type 0 where
    other :
        {p : Option P} {e : Error}
        → e ≢ eof
        → ((t : ℕ) → e ≢ unknown_packet_type t)
        → ((m : String) → e ≢ unsupported m)
        → IsFinal p e
    blocked : {p : Option P} {m : String} → blocks source p ≡ true → IsFinal p (unsupported m)

  -- A source that is at its end is dropped, and a packet that the library does not know is skipped.
  pub data Skips : List R → List R → Type 0 where
    stays : {rs : List R} → Skips rs rs
    drops :
        {r r' : R} {rs rs' : List R} {p : Option P}
        → source.read r ≡ (failed p eof, r')
        → Skips rs rs'
        → Skips (r ∷ rs) rs'
    skips :
        {r r' : R} {rs rs' : List R} {p : Option P} {e : Error}
        → source.read r ≡ (failed p e, r')
        → IsSkipped p e
        → Skips (r' ∷ rs) rs'
        → Skips (r ∷ rs) rs'

  -- Where the reading stops: no source is left, or the topmost gives a packet or a final error.
  pub data Stops : List R → Result P × List R → Type 0 where
    at_end : Stops [] (err eof, [])
    gives :
        {r r' : R} {rs : List R} {p : P}
        → source.read r ≡ (packet p, r')
        → Stops (r ∷ rs) (ok p, r' ∷ rs)
    fails :
        {r r' : R} {rs : List R} {p : Option P} {e : Error}
        → source.read r ≡ (failed p e, r')
        → IsFinal p e
        → Stops (r ∷ rs) (err e, r' ∷ rs)

  -- The sources and what is left of them, where each skipped packet takes some.
  pub record Shrinks (size : R → ℕ) : Type 0 where
    pub consumes :
        (r r' : R) (p : Option P) (e : Error)
        → source.read r ≡ (failed p e, r')
        → IsSkipped p e
        → size r' < size r

  abbrev pub total : (R → ℕ) → List R → ℕ
  total size [] = 0
  total size (r ∷ rs) = suc (size r) + total size rs

  module _ (size : R → ℕ) (shrinks : Shrinks size) where
    on_outcome-Stops :
        (fuel : ℕ) (r : R) (rs : List R) (x : Outcome P × R)
        → source.read r ≡ x
        → ((rs' : List R)
            → total size rs' ≤ fuel
            → (end : List R) × Skips rs' end × Stops end (next_packet source fuel rs'))
        → total size (r ∷ rs) ≤ suc fuel
        → (end : List R) × Skips (r ∷ rs) end
          × Stops end (on_outcome source (next_packet source fuel) rs x)
    unfolding on_outcome
    on_outcome-Stops fuel r rs (packet p, r') e ih h = (r ∷ rs, stays, gives e)
    on_outcome-Stops fuel r rs (failed p eof, r') e ih h =
        let (end, path, stop) = ih rs (omega (arith, h)) in (end, drops e path, stop)
    on_outcome-Stops fuel r rs (failed p (unknown_packet_type t), r') e ih h =
        let less = shrinks.consumes r r' p (unknown_packet_type t) e unknown in
        let (end, path, stop) = ih (r' ∷ rs) (omega (arith, h, less)) in
        (end, skips e unknown path, stop)
    on_outcome-Stops fuel r rs (failed p (unsupported m), r') e ih h =
        elim (Bool-cases (blocks source p)) [
          | inl blocking ↦ (r ∷ rs, stays, rw blocking (fails e (blocked blocking)))
          | inr skipped ↦
              let less = shrinks.consumes r r' p (unsupported m) e (not_supported skipped) in
              let (end, path, stop) = ih (r' ∷ rs) (omega (arith, h, less)) in
              (end, skips e (not_supported skipped) path, rw skipped stop)
        ]
    on_outcome-Stops fuel r rs (failed p unexpected_eof, r') e ih h =
        (r ∷ rs, stays, fails e (other (λ f. absurd cc) (λ t f. absurd cc) (λ n f. absurd cc)))
    on_outcome-Stops fuel r rs (failed p short_write, r') e ih h =
        (r ∷ rs, stays, fails e (other (λ f. absurd cc) (λ t f. absurd cc) (λ n f. absurd cc)))
    on_outcome-Stops fuel r rs (failed p (structural m), r') e ih h =
        (r ∷ rs, stays, fails e (other (λ f. absurd cc) (λ t f. absurd cc) (λ n f. absurd cc)))
    on_outcome-Stops fuel r rs (failed p (signature m), r') e ih h =
        (r ∷ rs, stays, fails e (other (λ f. absurd cc) (λ t f. absurd cc) (λ n f. absurd cc)))
    on_outcome-Stops fuel r rs (failed p (invalid_argument m), r') e ih h =
        (r ∷ rs, stays, fails e (other (λ f. absurd cc) (λ t f. absurd cc) (λ n f. absurd cc)))
    on_outcome-Stops fuel r rs (failed p (aead_error m), r') e ih h =
        (r ∷ rs, stays, fails e (other (λ f. absurd cc) (λ t f. absurd cc) (λ n f. absurd cc)))
    on_outcome-Stops fuel r rs (failed p (failure m), r') e ih h =
        (r ∷ rs, stays, fails e (other (λ f. absurd cc) (λ t f. absurd cc) (λ n f. absurd cc)))

    -- If each skipped packet takes something off its source, the loop of Next ends: it drops sources
    -- that are at their end, skips packets of unknown types and unsupported ones that hold no data,
    -- in order, and stops with the first packet, the first other error, or EOF when no source is
    -- left.
    pub next_packet-Stops :
        (fuel : ℕ) (rs : List R)
        → total size rs ≤ fuel
        → (end : List R) × Skips rs end × Stops end (next_packet source fuel rs)
    unfolding next_packet
    next_packet-Stops fuel [] h = ([], stays, at_end)
    next_packet-Stops zero (r ∷ rs) h = absurd (omega (arith, h))
    next_packet-Stops (suc fuel) (r ∷ rs) h =
        on_outcome-Stops fuel r rs (source.read r) refl (next_packet-Stops fuel) h

  -- What the calls of a client make of a reader.
  pub data Reaches (fuel : ℕ) (start : R) : Reader P R → Type 0 where
    new : Reaches fuel start (new_reader start)
    pushed :
        {r : Reader P R} (reader : R) → Reaches fuel start r → Reaches fuel start (push r reader).1
    unread_of : {r : Reader P R} (p : P) → Reaches fuel start r → Reaches fuel start (unread r p)
    next_of : {r : Reader P R} → Reaches fuel start r → Reaches fuel start (next source fuel r).1

  push_bounded :
      (r : Reader P R) (reader : R) → length r.readers ≤ 32 → length (push r reader).1.readers ≤ 32
  unfolding push
  push_bounded r reader h = elim (Bool-cases (leb 32 (length r.readers))) [
    | inl full ↦ rw full h
    | inr room ↦ rw room (ground (arith, room))
  ]

  on_outcome_bounded :
      (n : ℕ) (more : List R → Result P × List R) (rs : List R) (x : Outcome P × R)
      → ((rs' : List R) → length rs' ≤ n → length (more rs').1 ≤ n)
      → length rs + 1 ≤ n
      → length (on_outcome source more rs x).1 ≤ n
  unfolding on_outcome
  on_outcome_bounded n more rs (packet p, r') ih h = omega (arith, h)
  on_outcome_bounded n more rs (failed p eof, r') ih h = ih rs (omega (arith, h))
  on_outcome_bounded n more rs (failed p (unknown_packet_type t), r') ih h =
      ih (r' ∷ rs) (omega (arith, h))
  on_outcome_bounded n more rs (failed p (unsupported m), r') ih h =
      elim (Bool-cases (blocks source p)) [
        | inl e ↦ rw e (omega (arith, h))
        | inr e ↦ rw e (ih (r' ∷ rs) (omega (arith, h)))
      ]
  on_outcome_bounded n more rs (failed p unexpected_eof, r') ih h = omega (arith, h)
  on_outcome_bounded n more rs (failed p short_write, r') ih h = omega (arith, h)
  on_outcome_bounded n more rs (failed p (structural m), r') ih h = omega (arith, h)
  on_outcome_bounded n more rs (failed p (signature m), r') ih h = omega (arith, h)
  on_outcome_bounded n more rs (failed p (invalid_argument m), r') ih h = omega (arith, h)
  on_outcome_bounded n more rs (failed p (aead_error m), r') ih h = omega (arith, h)
  on_outcome_bounded n more rs (failed p (failure m), r') ih h = omega (arith, h)

  next_packet_bounded :
      (n fuel : ℕ) (rs : List R) → length rs ≤ n → length (next_packet source fuel rs).1 ≤ n
  unfolding next_packet
  next_packet_bounded n fuel [] h = omega (arith, h)
  next_packet_bounded n zero (r ∷ rs) h = h
  next_packet_bounded n (suc fuel) (r ∷ rs) h =
      on_outcome_bounded n (next_packet source fuel) rs (source.read r) (next_packet_bounded n fuel)
        (omega (arith, h))

  -- Whatever calls of Push, Unread and Next are made on a new reader, it never has more than 32
  -- sources.
  pub Reaches-bounded :
      (fuel : ℕ) (start : R) (r : Reader P R) → Reaches fuel start r → length r.readers ≤ 32
  unfolding new_reader unread next
  Reaches-bounded fuel start _ new = omega arith
  Reaches-bounded fuel start _ (pushed {r = r} reader path) =
      push_bounded r reader (Reaches-bounded fuel start r path)
  Reaches-bounded fuel start _ (unread_of {r = r} p path) = Reaches-bounded fuel start r path
  Reaches-bounded fuel start _ (next_of {r = r} path) =
      next_bounded r.q r (Reaches-bounded fuel start r path)
    where
      next_bounded :
          (q : List P) (r : Reader P R)
          → length r.readers ≤ 32
          → length (next source fuel (record r { q = q })).1.readers ≤ 32
      next_bounded [] r h = next_packet_bounded 32 fuel r.readers h
      next_bounded (p ∷ q) r h = h
