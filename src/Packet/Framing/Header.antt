-- ===== src/Packet/Framing/Header.antt =====
-- openpgp/packet/packet.go: `readHeader`, `serializeHeader`, `serializeStreamHeader`, and reading on
-- through the `contents` that a header leads to.
pub mod Laws
use go_crypto.Base.{
  ℕ, zero, suc, ◌+◌, ◌*◌, ◌/◌, ◌^◌, Bool, true, false, Option, none, some, List, [], ◌∷◌, ◌++◌,
  bit_and, bit_or, length, Bytes, Result, ok, err, panic, stuck, Error, structural, eof, ◌>>=◌,
  ◌>>◌, fail_if, ◌==◌, if◌then◌else◌,
}
use go_crypto.Io.{read_full, read_some, map_state}
use go_crypto.Packet.Framing.Length.{read_length, read_full_packet, byte_at, serialize_length}
use go_crypto.Packet.Framing.Readers.{SpanReader, PartialReader, span_read, partial_read}
use go_crypto.Packet.Framing.Writer.{PartialWriter}

-- The reader of a packet's body: the source itself, a span of it, or its partial-length chunks.
pub data Contents : Type 0 where
  rest_of : Bytes → Contents
  span : SpanReader → Contents
  chunks : PartialReader → Contents

-- `length` is none for the -1 of an unknown length.
pub record Header : Type 0 where
  pub tag : ℕ
  pub length : Option ℕ
  pub contents : Contents

-- `length <<= 8; length |= int64(buf[i])` over the length octets of an old-format header.
unfoldable pub old_length : ℕ → Bytes → ℕ
old_length n [] = n
old_length n (b ∷ buf) = old_length (bit_or (n * 2 ^ 8) b) buf

unfoldable pub old_header : ℕ → Bytes → Result Header
unfolding old_length read_full_packet
old_header b src =
    let tag = bit_and b 0x3f / 2 ^ 2 in
    let length_type = bit_and b 3 in
    if length_type == 3
    then ok (record { tag = tag; length = none; contents = rest_of src })
    else do
      (buf, rest) ← read_full_packet (2 ^ length_type) src
      let n = old_length 0 buf
      ok (record { tag = tag; length = some n; contents = span (record { src = rest; n = n }) })

unfoldable pub new_header : ℕ → Bytes → Result Header
new_header b src = do
  (n, is_partial, rest) ← read_length src
  ok (
      if is_partial
      then record {
        tag = bit_and b 0x3f;
        length = none;
        contents = chunks (record { src = rest; remaining = n; is_partial = true });
      }
      else record {
        tag = bit_and b 0x3f;
        length = some n;
        contents = span (record { src = rest; n = n });
      })

unfoldable pub read_header : Bytes → Result Header
unfolding read_full old_header new_header
read_header src = do
  (buf, rest) ← read_full 1 src
  let b = byte_at buf 0
  fail_if (bit_and b 0x80 == 0) (structural "tag byte does not have MSB set")
  if bit_and b 0x40 == 0 then old_header b rest else new_header b rest

-- `serializeType` of a packet type, a uint8.
unfoldable pub serialize_type : ℕ → Bytes
serialize_type tag = bit_or (bit_or 0x80 0x40) tag ∷ []

unfoldable pub serialize_header : ℕ → ℕ → Bytes
unfolding serialize_type
serialize_header tag n = serialize_type tag ++ serialize_length n

-- `serializeStreamHeader`: the writer of a body whose length is not known yet.
unfoldable pub serialize_stream_header : Bytes → ℕ → PartialWriter
unfolding serialize_type
serialize_stream_header out tag = record { out = out ++ serialize_type tag; buf = [] }

-- `contents.Read`.
unfoldable pub contents_read : (Bytes → ℕ → ℕ) → Contents → ℕ → Result Bytes × Contents
unfolding map_state
contents_read grant (rest_of src) k = map_state rest_of (read_some grant k src)
contents_read grant (span l) k = map_state span (span_read grant l k)
contents_read grant (chunks r) k = map_state chunks (partial_read grant r k)

-- What the underlying source still holds behind the body.
abbrev pub source_of : Contents → Bytes
source_of (rest_of src) = src
source_of (span l) = l.src
source_of (chunks r) = r.src
