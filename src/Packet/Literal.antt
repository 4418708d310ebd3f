-- ===== src/Packet/Literal.antt =====
-- openpgp/packet/literal.go: literal data.
pub mod Laws
use go_crypto.Base.{
  ℕ, Bool, true, false, [], ◌∷◌, ◌++◌, length, take, get_or, Bytes, Result, ok, ◌>>=◌, ◌==◌,
  if◌then◌else◌,
}
use go_crypto.Base.Words.{u8, be_word32, put_be_word32}
use go_crypto.Packet.Framing.Length.{read_full_packet}

-- `LiteralData`; the body is what the source still holds.
pub record LiteralData : Type 0 where
  pub format : ℕ
  pub is_binary : Bool
  pub file_name : Bytes
  pub time : ℕ
  pub body : Bytes

-- `LiteralData.parse`
unfoldable pub parse_literal : Bytes → Result LiteralData
parse_literal r = do
  (buf, r1) ← read_full_packet 2 r
  (name, r2) ← read_full_packet (get_or buf 1 0) r1
  (stamp, r3) ← read_full_packet 4 r2
  ok (record {
    format = get_or buf 0 0;
    is_binary = get_or buf 0 0 == 98;
    file_name = name;
    time = be_word32 stamp;
    body = r3;
  })

-- The octet of the format: `'b'` or `'t'`.
unfoldable pub format_octet : Bool → ℕ
format_octet is_binary = if is_binary then 98 else 116

-- `SerializeLiteral`, and the writes of the body: what the stream below the packet's header is given.
unfoldable pub serialize_literal : Bool → Bytes → ℕ → Bytes → Bytes
serialize_literal is_binary file_name time body =
    let name = take 255 file_name in
    format_octet is_binary ∷ u8 (length name) ∷ (name ++ (put_be_word32 time ++ body))
