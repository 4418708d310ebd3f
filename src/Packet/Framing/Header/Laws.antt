-- ===== src/Packet/Framing/Header/Laws.antt =====
-- Reading back a packet from its header on.
use go_crypto.Base.{
  ℕ, zero, suc, ◌+◌, ◌*◌, ◌%◌, ◌^◌, ◌≤◌, ◌<◌, true, false, none, some, List, [], ◌∷◌, ◌++◌, length,
  concat, All, bit_and, bit_or, Bytes, ok, inl, ◌≡◌, refl, arith, append_assoc,
}
use go_crypto.Base.Bits.{agree_below, agree_below→eq}
use go_crypto.Io.{read_all, map_state}
use go_crypto.Io.Laws.{read_all-map_state}
use go_crypto.Packet.Framing.Writer.{write_all}
use go_crypto.Packet.Framing.Writer.Stream.{write_all-Chunked}
use go_crypto.Packet.Framing.Length.{serialize_length}
use go_crypto.Packet.Framing.Length.Laws.{read_length-serialize_length, read_length_partial}
use native.Mathlib.Nat.{mod-eq_of_lt, one-le-pow}
use go_crypto.Packet.Framing.Readers.{SpanReader, PartialReader, span_read, partial_read}
use go_crypto.Packet.Framing.Readers.Span.{read_all-span}
use go_crypto.Packet.Framing.Readers.Chunks.{
  read_all-Chunked, read_all_boundary, at_chunk, Chunked, final, partial,
}
use go_crypto.Packet.Framing.Header.{
  Header, Contents, span, chunks, read_header, serialize_header, serialize_stream_header,
  contents_read, source_of,
}

tag_octet : (t : ℕ) → t < 64 → bit_or 0xc0 t ≡ 192 + t
unfolding agree_below
tag_octet = agree_below→eq _ _ 64 refl

high_bit : (t : ℕ) → t < 64 → bit_and (192 + t) 0x80 ≡ 128
unfolding agree_below
high_bit = agree_below→eq _ _ 64 refl

new_format : (t : ℕ) → t < 64 → bit_and (192 + t) 0x40 ≡ 64
unfolding agree_below
new_format = agree_below→eq _ _ 64 refl

tag_bits : (t : ℕ) → t < 64 → bit_and (192 + t) 0x3f ≡ t
unfolding agree_below
tag_bits = agree_below→eq _ _ 64 refl

-- A written header with a tag below 64 is read back: the tag, the length modulo 2 ^ 32, and a span
-- of that length over what follows.
pub read_header-serialize_header :
    (tag n : ℕ) (rest : Bytes)
    → tag < 64
    → read_header (serialize_header tag n ++ rest)
      ≡ ok (record {
        tag = tag;
        length = some (n % 2 ^ 32);
        contents = span (record { src = rest; n = n % 2 ^ 32 });
      })
unfolding read_header serialize_header
read_header-serialize_header tag n rest h = rw (
  tag_octet tag h,
  high_bit tag h,
  new_format tag h,
  tag_bits tag h,
  read_length-serialize_length n rest,
)

module _ (grant : Bytes → ℕ → ℕ) (k : ℕ) where
  read_all_contents-span :
      (fuel : ℕ) (l : SpanReader)
      → read_all (contents_read grant) k fuel (span l)
        ≡ map_state span (read_all (span_read grant) k fuel l)
  unfolding contents_read
  read_all_contents-span fuel l =
      read_all-map_state span (span_read grant) (contents_read grant) (λ s k. refl) k fuel l

  read_all_contents-chunks :
      (fuel : ℕ) (r : PartialReader)
      → read_all (contents_read grant) k fuel (chunks r)
        ≡ map_state chunks (read_all (partial_read grant) k fuel r)
  unfolding contents_read
  read_all_contents-chunks fuel r =
      read_all-map_state chunks (partial_read grant) (contents_read grant) (λ s k. refl) k fuel r

-- What it means to read a packet whole from a source: the tag, the body, and the source behind it.
pub record ReadsPacket (grant : Bytes → ℕ → ℕ) (size fuel : ℕ) (src : Bytes) (tag : ℕ)
    (body rest : Bytes) : Type 0 where
  pub header : Header
  pub reads_header : read_header src ≡ ok header
  pub tag_eq : header.tag ≡ tag
  pub after : Contents
  pub reads_body : read_all (contents_read grant) size fuel header.contents ≡ (ok body, after)
  pub rest_eq : source_of after ≡ rest

-- A packet of a known length below 2 ^ 32 and a tag below 64 is read back whole, and what follows it
-- is left in the source, however the source splits its bytes.
pub ReadsPacket-serialize_header :
    (grant : Bytes → ℕ → ℕ) (k fuel tag : ℕ) (body rest : Bytes)
    → tag < 64
    → length body < 2 ^ 32
    → length body < fuel
    → ReadsPacket grant
        (suc k)
        fuel
        (serialize_header tag (length body) ++ (body ++ rest))
        tag
        body
        rest
ReadsPacket-serialize_header grant k fuel tag body rest ht hb hf = record {
  header = _;
  reads_header = read_header-serialize_header tag (length body) (body ++ rest) ht;
  tag_eq = refl;
  after = span (record { src = rest; n = 0 });
  reads_body =
      unfold map_state in
      rw
        (
          mod-eq_of_lt hb,
          read_all_contents-span grant (suc k),
          read_all-span grant k fuel body rest hf,
        )
        refl;
  rest_eq = refl;
}

read_header_partial :
    (tag power : ℕ) (rest : Bytes)
    → tag < 64
    → power < 31
    → read_header (bit_or 0xc0 tag ∷ (224 + power) ∷ rest)
      ≡ ok (record { tag = tag; length = none; contents = chunks (at_chunk rest (2 ^ power) true) })
unfolding read_header
read_header_partial tag power rest h p = rw (
  tag_octet tag h,
  high_bit tag h,
  new_format tag h,
  tag_bits tag h,
  read_length_partial power rest p,
)

ReadsPacket-Chunked :
    {body stream : Bytes} (grant : Bytes → ℕ → ℕ) (k fuel tag : ℕ) (rest : Bytes)
    → Chunked body stream
    → tag < 64
    → length body < fuel
    → ReadsPacket grant (suc k) fuel (bit_or 0xc0 tag ∷ stream ++ rest) tag body rest
unfolding serialize_header
ReadsPacket-Chunked grant k zero tag rest c ht hf = absurd (omega arith)
ReadsPacket-Chunked grant k (suc fuel) tag rest (final body b) ht hf =
    rw (append_assoc (serialize_length (length body)) body rest)
      (ReadsPacket-serialize_header grant k (suc fuel) tag body rest ht b hf)
ReadsPacket-Chunked grant k (suc fuel) tag rest (partial power chunk body stream b e c) ht hf =
    record {
      header = _;
      reads_header = read_header_partial tag power ((chunk ++ stream) ++ rest) ht b;
      tag_eq = refl;
      after = chunks (at_chunk rest 0 false);
      reads_body =
          unfold map_state in
          rw
            (
              read_all_contents-chunks grant (suc k),
              ← read_all_boundary grant k fuel _ ((chunk ++ stream) ++ rest) (2 ^ power) true
                  (read_length_partial power _ b) (inl (one-le-pow power 2 (omega arith))),
              read_all-Chunked grant k rest (suc fuel) (partial power chunk body stream b e c) hf,
            )
            refl;
      rest_eq = refl;
    }

-- A body written in pieces of at most m bytes (2 * m + 512 < 2 ^ 31) through a partial-length writer
-- behind a stream header is read back joined with its tag (below 64), and what follows it is left in
-- the source, however the source splits its bytes.
pub ReadsPacket-write_all :
    (grant : Bytes → ℕ → ℕ) (k fuel tag m : ℕ) (ps : List Bytes) (rest : Bytes)
    → tag < 64
    → 2 * m + 512 < 2 ^ 31
    → All (λ p. length p ≤ m) ps
    → length (concat ps) < fuel
    → ReadsPacket grant
        (suc k)
        fuel
        (write_all (serialize_stream_header [] tag) ps ++ rest)
        tag
        (concat ps)
        rest
unfolding serialize_stream_header
ReadsPacket-write_all grant k fuel tag m ps rest ht hm hs hf =
    let (stream, e, c) =
      write_all-Chunked m hm (serialize_stream_header [] tag) ps (omega arith) hs in
    rw e (ReadsPacket-Chunked grant k fuel tag rest c ht hf)
