-- ===== src/Packet/Opaque.antt =====
-- openpgp/packet/opaque.go: packets and subpackets that are kept as they came.
pub mod Subpackets
pub mod Serialized
pub mod Tests
use go_crypto.Base.{
  ℕ, zero, suc, ◌+◌, ◌-◌, ◌*◌, ◌^◌, Bool, true, false, ◌||◌, List, [], ◌∷◌, ◌++◌, length, take,
  drop, get_or, Bytes, Result, ok, err, panic, stuck, Error, structural, ◌>>=◌, ◌>>◌, fail_if,
  panic_if, ◌==◌, ltb, leb, if◌then◌else◌,
}
use go_crypto.Base.Words.{u32}

-- `OpaqueSubpacket`
pub record OpaqueSubpacket : Type 0 where
  pub sub_type : ℕ
  pub encoded_length : Bytes
  pub contents : Bytes

abbrev pub truncated : Error
truncated = structural "subpacket truncated"

-- The length bytes and the length that they encode, at the first octet `b` of `contents`.
unfoldable pub sub_length : ℕ → Bytes → ℕ × ℕ
sub_length b contents =
    if ltb b 192
    then (1, b)
    else if ltb b 255
    then (2, (b - 192) * 256 + get_or contents 1 0 + 192)
    else (
      5,
      get_or contents 1 0 * 2 ^ 24
          + get_or contents 2 0 * 2 ^ 16
          + get_or contents 3 0 * 2 ^ 8
          + get_or contents 4 0,
    )

-- The part of `nextSubpacket` behind the length of `n` bytes.
unfoldable pub sub_body : ℕ → ℕ → Bytes → Result (ℕ × OpaqueSubpacket)
sub_body n sub_len contents =
    let rest = drop n contents in
    if ltb (u32 (length rest)) sub_len || sub_len == 0
    then err truncated
    else if ltb (length rest) sub_len
    then panic
    else ok (
      suc n,
      record {
        sub_type = get_or rest 0 0;
        encoded_length = take n contents;
        contents = drop 1 (take sub_len rest);
      },
    )

-- `nextSubpacket`: the length of the header with the type, and the subpacket.
unfoldable pub next_subpacket : Bytes → Result (ℕ × OpaqueSubpacket)
next_subpacket [] = err truncated
next_subpacket (b ∷ rest) =
    let (n, sub_len) = sub_length b (b ∷ rest) in
    if ltb (suc (length rest)) (suc n) then err truncated else sub_body n sub_len (b ∷ rest)

-- What the loop of `OpaqueSubpackets` does with a subpacket: the rest of the contents is next.
unfoldable pub after_subpacket :
    (Bytes → Result (Unit {0}) × List OpaqueSubpacket)
    → Bytes
    → Result (ℕ × OpaqueSubpacket)
    → Result (Unit {0}) × List OpaqueSubpacket
after_subpacket next contents (ok (n, p)) =
    let (e, ps) = next (drop (n + length p.contents) contents) in (e, p ∷ ps)
after_subpacket next contents (err e) = (err e, [])
after_subpacket next contents panic = (panic, [])
after_subpacket next contents stuck = (stuck, [])

-- `OpaqueSubpackets`: the error and what was read before it.
unfoldable pub opaque_subpackets : ℕ → Bytes → Result (Unit {0}) × List OpaqueSubpacket
opaque_subpackets fuel [] = (ok tt, [])
opaque_subpackets zero (b ∷ contents) = (stuck, [])
opaque_subpackets (suc fuel) (b ∷ contents) =
    after_subpacket (opaque_subpackets fuel) (b ∷ contents) (next_subpacket (b ∷ contents))

-- `OpaqueSubpacket.Serialize`: a buffer of six bytes takes the encoded length and the type. A longer
-- length is cut by `copy`, and writing the type behind it panics.
unfoldable pub serialize_subpacket : OpaqueSubpacket → Result Bytes
serialize_subpacket p =
    let n = length p.encoded_length in
    panic_if (ltb 5 n) >> ok (p.encoded_length ++ p.sub_type ∷ p.contents)

-- All of them, one after the other.
unfoldable pub serialize_subpackets : List OpaqueSubpacket → Result Bytes
serialize_subpackets [] = ok []
serialize_subpackets (p ∷ ps) =
    serialize_subpacket p >>= λ bs. (serialize_subpackets ps >>= λ rest. ok (bs ++ rest))
