-- ===== src/Packet/Literal/Laws.antt =====
-- Literal data is read as it was written.
use go_crypto.Base.{
  ℕ, ◌^◌, ◌<◌, Bool, [], ◌∷◌, ◌++◌, length, take, Bytes, ok, ◌==◌, ◌≡◌, refl, arith, length-take,
}
use go_crypto.Base.Words.{u8, put_be_word32, be_word32-put_be_word32, length-put_be_word32}
use go_crypto.Packet.Framing.Length.Laws.{read_full_packet-append}
use go_crypto.Packet.Literal.{parse_literal, format_octet, serialize_literal}

-- Literal data with a time below 2 ^ 32 is parsed as it was serialized: the format octet, whether it
-- is binary, the first 255 bytes of the file name, the time, and the body as what is left.
pub parse_literal-serialize_literal :
    (is_binary : Bool) (file_name : Bytes) (time : ℕ) (body : Bytes)
    → time < 2 ^ 32
    → parse_literal (serialize_literal is_binary file_name time body)
      ≡ ok (record {
        format = format_octet is_binary;
        is_binary = is_binary;
        file_name = take 255 file_name;
        time = time;
        body = body;
      })
unfolding parse_literal serialize_literal format_octet
parse_literal-serialize_literal is_binary file_name time body h =
    let name = take 255 file_name in
    let size : length name ≡ u8 (length name) = omega (arith, length-take 255 file_name) in
    let head : Bytes = format_octet is_binary ∷ u8 (length name) ∷ [] in
    let stamp : length (put_be_word32 time) ≡ 4 = length-put_be_word32 time in
    let known : (format_octet is_binary == 98) ≡ is_binary = ground arith in
    rw
      (
        read_full_packet-append 2 head (name ++ (put_be_word32 time ++ body)) refl,
        read_full_packet-append (u8 (length name)) name (put_be_word32 time ++ body) size,
        read_full_packet-append 4 (put_be_word32 time) body stamp,
        be_word32-put_be_word32 time h,
        known,
      )
      refl
