-- ===== src/Packet/Framing/Writer.antt =====
-- openpgp/packet/packet.go: `partialLengthWriter`, over a writer that does not fail. `out` is what the
-- underlying writer was given so far.
pub mod Stream
use go_crypto.Base.{
  ℕ, zero, suc, ◌+◌, ◌^◌, Bool, true, false, List, [], ◌∷◌, ◌++◌, length, take, drop, Bytes, ltb,
  leb, if◌then◌else◌,
}
use go_crypto.Base.Words.{u8}
use go_crypto.Packet.Framing.Length.{serialize_length}

pub record PartialWriter : Type 0 where
  pub out : Bytes
  pub buf : Bytes

-- `for power := uint(30); ; power--`: the highest power, from `power` down, with 2 ^ power at most `n`.
unfoldable pub find_power : ℕ → ℕ → ℕ
find_power zero n = 0
find_power (suc power) n = if leb (2 ^ suc power) n then suc power else find_power power n

unfoldable pub flush : ℕ → PartialWriter → PartialWriter
flush power w = record {
  out = w.out ++ u8 (224 + power) ∷ take (2 ^ power) w.buf;
  buf = drop (2 ^ power) w.buf;
}

unfoldable pub write : PartialWriter → Bytes → PartialWriter
unfolding flush
write w p =
    let w' = if ltb 512 (length w.buf) then flush (find_power 30 (length w.buf)) w else w in
    record w' { buf = w'.buf ++ p }

unfoldable pub close : PartialWriter → Bytes
close w = w.out ++ (serialize_length (length w.buf) ++ w.buf)

-- A caller's writes, one after the other, and `Close`.
unfoldable pub write_all : PartialWriter → List Bytes → Bytes
unfolding write close
write_all w [] = close w
write_all w (p ∷ ps) = write_all (write w p) ps
