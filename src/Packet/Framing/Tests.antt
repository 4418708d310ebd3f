-- ===== src/Packet/Framing/Tests.antt =====
-- Concrete packets, read one byte at a time.
use go_crypto.Base.{
  ℕ, ◌%◌, ◌^◌, true, false, List, [], ◌∷◌, ◌++◌, concat, replicate, Bytes, ok, stuck, ◌≡◌, ◌≢◌,
  refl, arith,
}
use go_crypto.Io.{read_all}
use go_crypto.Packet.Framing.Length.{read_length, serialize_length}
use go_crypto.Packet.Framing.Length.Laws.{read_length-serialize_length}
use go_crypto.Packet.Framing.Readers.{partial_read, next_chunk}
use go_crypto.Packet.Framing.Readers.Chunks.{
  Chunked, final, partial, at_chunk, next_chunk_two_rounds, read_all-Chunked,
}
use go_crypto.Packet.Framing.Writer.{PartialWriter, write_all}
use go_crypto.Packet.Framing.Header.{serialize_stream_header}
use go_crypto.Packet.Framing.Header.Laws.{ReadsPacket, ReadsPacket-write_all}

abbrev one_by_one : Bytes → ℕ → ℕ
one_by_one src k = 1

abbrev body : Bytes
body = 98 ∷ 111 ∷ 100 ∷ 121 ∷ []

abbrev next_packet : Bytes
next_packet = 0xd3 ∷ 0 ∷ []

abbrev writer : PartialWriter
writer = serialize_stream_header [] 11

-- Long enough for the writer to flush a chunk when the third is written.
abbrev writes : List Bytes
writes = replicate 500 7 ∷ replicate 400 8 ∷ body ∷ []

abbrev two_chunks : Bytes
two_chunks = 225 ∷ 98 ∷ 111 ∷ 2 ∷ 100 ∷ 121 ∷ []

two_chunks-Chunked : Chunked body two_chunks
unfolding serialize_length
two_chunks-Chunked =
    partial 1 (98 ∷ 111 ∷ []) (100 ∷ 121 ∷ []) (2 ∷ 100 ∷ 121 ∷ []) (omega arith) refl
      (final (100 ∷ 121 ∷ []) (omega arith))

read_length-serialize_length_example :
    read_length (serialize_length 9000 ++ body) ≡ ok (9000 % 2 ^ 32, false, body)
read_length-serialize_length_example = read_length-serialize_length 9000 body

next_chunk_two_rounds_example :
    ((next_chunk 2 (at_chunk two_chunks 0 true)).0 ≢ stuck)
    × (next_chunk 9 (at_chunk two_chunks 0 true) ≡ next_chunk 2 (at_chunk two_chunks 0 true))
next_chunk_two_rounds_example = next_chunk_two_rounds 7 (at_chunk two_chunks 0 true) (omega arith)

read_all-Chunked_example :
    read_all (partial_read one_by_one) 512 9 (at_chunk (two_chunks ++ next_packet) 0 true)
    ≡ (ok body, at_chunk next_packet 0 false)
read_all-Chunked_example =
    read_all-Chunked one_by_one 511 next_packet 9 two_chunks-Chunked (omega arith)

ReadsPacket-write_all_example :
    ReadsPacket one_by_one 512 1000
      (write_all (serialize_stream_header [] 11) writes ++ next_packet)
      11
      (concat writes)
      next_packet
ReadsPacket-write_all_example =
    ReadsPacket-write_all one_by_one 511 1000 11 500 writes next_packet (omega arith) (omega arith)
      (omega arith) (omega arith)
