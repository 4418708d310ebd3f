-- ===== src/Packet/Tests.antt =====
-- Literal data, a one-pass signature and a user id.
use go_crypto.Base.{
  ℕ, none, List, length, All, ◌-◌, true, [], ◌∷◌, ◌++◌, take, drop, Bytes, ok, ◌≡◌, refl, arith,
}
use go_crypto.Packet.Framing.Header.{serialize_header}
use go_crypto.Packet.Literal.{parse_literal, format_octet, serialize_literal}
use go_crypto.Packet.Literal.Laws.{parse_literal-serialize_literal}
use go_crypto.Packet.OnePass.{OnePassSignature, parse_one_pass, one_pass_body, serialize_one_pass}
use go_crypto.Packet.OnePass.Laws.{parse_one_pass-serialize_one_pass}
use go_crypto.Packet.OpaquePacket.{
  OpaquePacket, IsOpaque, serialize_opaques, next_opaques, next_opaques-serialize_opaques,
}
use go_crypto.Packet.UserId.{no_cuts, cut_loop, cut_end, simple_form, parse_user_id}
use go_crypto.Packet.UserId.Slices.{parse_user_id_lem}
use go_crypto.S2k.Hash.{sha256, hash_to_hash_id_with_sha1}

abbrev name : Bytes
name = 97 ∷ 46 ∷ 99 ∷ []

abbrev text : Bytes
text = 104 ∷ 105 ∷ []

parse_literal-serialize_literal_example :
    parse_literal (serialize_literal true name 1700000000 text)
    ≡ ok (record {
      format = format_octet true;
      is_binary = true;
      file_name = take 255 name;
      time = 1700000000;
      body = text;
    })
parse_literal-serialize_literal_example =
    parse_literal-serialize_literal true name 1700000000 text (omega arith)

abbrev signature : OnePassSignature
signature = record {
  sig_type = 1;
  hash = sha256;
  pub_key_algo = 22;
  key_id = 81985529216486895;
  is_last = true;
}

parse_one_pass-serialize_one_pass_example :
    (serialize_one_pass signature ≡ ok (serialize_header 4 13 ++ one_pass_body signature 8))
    × (parse_one_pass (one_pass_body signature 8) ≡ (ok tt, signature))
unfolding hash_to_hash_id_with_sha1
parse_one_pass-serialize_one_pass_example =
    parse_one_pass-serialize_one_pass signature 8 refl (omega arith) (omega arith) (omega arith)

-- "a (b"
abbrev open_comment : Bytes
open_comment = 97 ∷ 32 ∷ 40 ∷ 98 ∷ []

parse_user_id_lem_example :
    let s = cut_end (cut_loop no_cuts 0 open_comment) 4 in
    let part : ℕ → ℕ → Bytes = λ start end. take (end - start) (drop start open_comment) in
    parse_user_id (λ xs. xs) open_comment
    ≡ ok (simple_form (part s.n_start s.n_end) (part s.c_start s.c_end) (part s.e_start s.e_end))
parse_user_id_lem_example = parse_user_id_lem (λ xs. xs) open_comment

-- A packet of type 60, and an empty one.
abbrev two_packets : List OpaquePacket
two_packets =
    record { tag = 60; reason = none; contents = text }
    ∷ record { tag = 13; reason = none; contents = [] }
    ∷ []

two_packets-IsOpaque : All (IsOpaque 8) two_packets
two_packets-IsOpaque = (
  record {
    tag_fits = omega arith;
    length_fits = omega arith;
    enough = omega arith;
    no_reason = refl;
  },
  (
    record {
      tag_fits = omega arith;
      length_fits = omega arith;
      enough = omega arith;
      no_reason = refl;
    },
    tt,
  ),
)

next_opaques-serialize_opaques_example :
    next_opaques (λ src n. 1) 4 8 (length two_packets) (serialize_opaques two_packets ++ name)
    ≡ ok (two_packets, name)
next_opaques-serialize_opaques_example =
    next_opaques-serialize_opaques (λ src n. 1) 3 8 two_packets name two_packets-IsOpaque
