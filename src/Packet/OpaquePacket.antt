-- ===== src/Packet/OpaquePacket.antt =====
-- openpgp/packet/opaque.go: whole packets that are not parsed, and their reader.
use go_crypto.Base.{
  ℕ, zero, suc, ◌^◌, ◌<◌, Option, none, List, [], ◌∷◌, ◌++◌, length, Bytes, All, Result, ok, Error,
  ◌>>=◌, ◌≡◌, refl, sym, append_assoc,
}
use go_crypto.Io.{read_all}
use go_crypto.Packet.Framing.Header.{
  Header, source_of, read_header, serialize_header, contents_read,
}
use go_crypto.Packet.Framing.Header.Laws.{ReadsPacket-serialize_header}

-- `OpaquePacket`
pub record OpaquePacket : Type 0 where
  pub tag : ℕ
  pub reason : Option Error
  pub contents : Bytes

-- `OpaquePacket.Serialize`
unfoldable pub serialize_opaque : OpaquePacket → Bytes
serialize_opaque op = serialize_header op.tag (length op.contents) ++ op.contents

module _ (grant : Bytes → ℕ → ℕ) (size fuel : ℕ) where
  -- `OpaquePacket.parse`, with the source behind what was read.
  unfoldable pub parse_opaque : OpaquePacket → Header → Result (OpaquePacket × Bytes)
  parse_opaque op header =
      let (r, after) = read_all (contents_read grant) size fuel header.contents in
      r >>= λ contents. ok (record op { contents = contents }, source_of after)

  -- `OpaqueReader.Next`, where it gives a packet; what an error leaves of the source is left out.
  unfoldable pub next_opaque : Bytes → Result (OpaquePacket × Bytes)
  unfolding parse_opaque
  next_opaque src = read_header src >>= λ header.
      parse_opaque (record { tag = header.tag; reason = none; contents = [] }) header

  -- As many packets as there are.
  unfoldable pub next_opaques : ℕ → Bytes → Result (List OpaquePacket × Bytes)
  unfolding next_opaque
  next_opaques zero src = ok ([], src)
  next_opaques (suc count) src =
      next_opaque src >>= λ r. next_opaques count r.1 >>= λ more. ok (r.0 ∷ more.0, more.1)

-- A packet that a header can announce.
pub record IsOpaque (fuel : ℕ) (op : OpaquePacket) : Type 0 where
  pub tag_fits : op.tag < 64
  pub length_fits : length op.contents < 2 ^ 32
  pub enough : length op.contents < fuel
  pub no_reason : op.reason ≡ none

unfoldable pub serialize_opaques : List OpaquePacket → Bytes
serialize_opaques [] = []
serialize_opaques (op ∷ ops) = serialize_opaque op ++ serialize_opaques ops

next_opaque-serialize_opaque :
    (grant : Bytes → ℕ → ℕ) (k fuel : ℕ) (op : OpaquePacket) (rest : Bytes)
    → IsOpaque fuel op
    → next_opaque grant (suc k) fuel (serialize_opaque op ++ rest) ≡ ok (op, rest)
unfolding serialize_opaque next_opaque parse_opaque
next_opaque-serialize_opaque grant k fuel op rest h =
    let r =
      ReadsPacket-serialize_header grant k fuel op.tag op.contents rest h.tag_fits h.length_fits
        h.enough in
    let same = append_assoc (serialize_header op.tag (length op.contents)) op.contents rest in
    rw
      (
        next_opaque,
        same,
        r.reads_header,
        parse_opaque,
        r.reads_body,
        r.rest_eq,
        r.tag_eq,
        sym h.no_reason,
      )
      refl

-- Packets with tags below 64 and contents shorter than 2 ^ 32 bytes, and without a reason, whose
-- Serialize is written one after the other: as many calls of Next, with fuel for more bytes than
-- each packet has, give these packets and leave the rest, however the source splits its bytes.
pub next_opaques-serialize_opaques :
    (grant : Bytes → ℕ → ℕ) (k fuel : ℕ) (ops : List OpaquePacket) (rest : Bytes)
    → All (IsOpaque fuel) ops
    → next_opaques grant (suc k) fuel (length ops) (serialize_opaques ops ++ rest) ≡ ok (ops, rest)
unfolding next_opaques serialize_opaques
next_opaques-serialize_opaques grant k fuel [] rest h = refl
next_opaques-serialize_opaques grant k fuel (op ∷ ops) rest (h, hs) =
    let same = append_assoc (serialize_opaque op) (serialize_opaques ops) rest in
    rw
      (
        next_opaques,
        same,
        next_opaque-serialize_opaque grant k fuel op (serialize_opaques ops ++ rest) h,
        next_opaques-serialize_opaques grant k fuel ops rest hs,
      )
      refl
