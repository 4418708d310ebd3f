-- ===== src/Packet/Framing/Readers.antt =====
-- openpgp/packet/packet.go: `spanReader`, `partialLengthReader` and `consumeAll`, over a source whose
-- `Read` may deliver fewer bytes than were asked for.
pub mod Span
pub mod Chunks
use go_crypto.Base.{
  ℕ, zero, suc, ◌+◌, ◌-◌, ◌*◌, ◌^◌, Bool, true, false, List, [], ◌∷◌, length, min, Bytes, Result,
  ok, err, panic, stuck, Error, eof, unexpected_eof, ◌>>=◌, ◌==◌, ltb, leb, ◌&&◌, if◌then◌else◌,
}
use go_crypto.Io.{read_some, read_all}
use go_crypto.Packet.Framing.Length.{read_length}

pub record SpanReader : Type 0 where
  pub src : Bytes
  pub n : ℕ

pub record PartialReader : Type 0 where
  pub src : Bytes
  pub remaining : ℕ
  pub is_partial : Bool

-- `err == io.EOF` before the end of a span or chunk is an unexpected EOF.
unfoldable pub inside : Result Bytes → Result Bytes
inside (err eof) = err unexpected_eof
inside r = r

-- What `readLength` leaves in `length` when it fails: the high part of a two-octet length.
unfoldable pub unread_length : Bytes → ℕ
unread_length [] = 0
unread_length (b ∷ src) = if leb 192 b && ltb b 224 then (b - 192) * 2 ^ 8 else 0

-- The assignment of `readLength`'s results; a failure has used the source up.
unfoldable pub on_length :
    Result (ℕ × Bool × Bytes)
    → Bytes
    → (PartialReader → Result (Unit {0}) × PartialReader)
    → Result (Unit {0}) × PartialReader
unfolding unread_length
on_length (ok (n, p, rest)) src k = k (record { src = rest; remaining = n; is_partial = p })
on_length (err e) src k =
    (err e, record { src = []; remaining = unread_length src; is_partial = false })
on_length r src k = (r >>= λ x. ok tt, record { src = []; remaining = 0; is_partial = false })

-- The loop at the head of `partialLengthReader.Read`: it goes on to the next chunk.
unfoldable pub next_chunk : ℕ → PartialReader → Result (Unit {0}) × PartialReader
unfolding on_length
next_chunk zero r = (stuck, r)
next_chunk (suc fuel) r =
    if r.remaining == 0
    then if r.is_partial
      then on_length (read_length r.src) r.src (next_chunk fuel)
      else (err eof, r)
    else (ok tt, r)

-- `r.remaining -= int64(n)` behind the `Read` of the source.
unfoldable pub from_chunk : PartialReader → Result Bytes × Bytes → Result Bytes × PartialReader
unfolding inside
from_chunk r (ok bs, rest) = (ok bs, record r { src = rest; remaining = r.remaining - length bs })
from_chunk r (got, rest) = (inside got, record r { src = rest })

unfoldable pub from_span : SpanReader → Result Bytes × Bytes → Result Bytes × SpanReader
unfolding inside
from_span l (ok bs, rest) = (ok bs, record { src = rest; n = l.n - length bs })
from_span l (got, rest) = (inside got, record l { src = rest })

module _ (grant : Bytes → ℕ → ℕ) where
  -- `spanReader.Read` into a buffer of `k` bytes.
  unfoldable pub span_read : SpanReader → ℕ → Result Bytes × SpanReader
  unfolding from_span
  span_read l k = if l.n == 0 then (err eof, l) else from_span l (read_some grant (min k l.n) l.src)

  -- `toRead` bytes of the chunk that the loop has come to.
  unfoldable pub read_chunk : ℕ → Result (Unit {0}) × PartialReader → Result Bytes × PartialReader
  unfolding from_chunk
  read_chunk k (ok x, r) = from_chunk r (read_some grant (min k r.remaining) r.src)
  read_chunk k (e, r) = (e >>= λ x. ok [], r)

  -- `partialLengthReader.Read` into a buffer of `k` bytes. The loop needs two rounds at most.
  unfoldable pub partial_read : PartialReader → ℕ → Result Bytes × PartialReader
  unfolding read_chunk
  partial_read r k = read_chunk k (next_chunk 2 r)

-- `consumeAll`: how many bytes were left, and the reader after them.
unfoldable pub consume_all {ℓ} : {S : Type ℓ} → (S → ℕ → Result Bytes × S) → ℕ → S → Result ℕ × S
consume_all read fuel s =
    let (r, s') = read_all read 1024 fuel s in (r >>= λ bs. ok (length bs), s')
