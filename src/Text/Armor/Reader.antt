-- ===== src/Text/Armor/Reader.antt =====
-- openpgp/armor/armor.go: `lineReader`. `base64.StdEncoding.Decode` is an argument.
use go_crypto.Base.{
  ℕ, zero, suc, ◌*◌, ◌^◌, Bool, true, false, ◌&&◌, Option, none, some, [], ◌∷◌, ◌++◌, length, take,
  drop, Bytes, Result, ok, err, panic, stuck, eof, Error, structural, bit_or, ◌>>=◌, ◌==◌, ltb,
  if◌then◌else◌, get_or,
}
use go_crypto.Base.Words.{u32}
use go_crypto.Text.Cleartext.{has_prefix, cut_line, without_cr}
use go_crypto.Text.Armor.{armor_end}

abbrev pub armor_corrupt : Error
armor_corrupt = structural "armor invalid"

-- `bufio.Reader.ReadLine` with a buffer of 100 bytes: the line, whether it is only the start of one, and what
-- is left.
unfoldable pub read_line : Bytes → Option (Bytes × Bool × Bytes)
unfolding cut_line without_cr
read_line [] = none
read_line (c ∷ text) =
    let long =
      if ltb (length (c ∷ text)) 100
      then some (c ∷ text, false, [])
      else some (take 100 (c ∷ text), true, drop 100 (c ∷ text)) in
    elim (cut_line (c ∷ text)) [
      | none ↦ long
      | some (line, rest) ↦
          (if ltb (length line) 100
            then some (without_cr line, false, rest)
            else some (take 100 (c ∷ text), true, drop 100 (c ∷ text)))
    ]

-- `lineReader`
pub record LineReader : Type 0 where
  pub inp : Bytes
  pub buf : Bytes
  pub at_end : Bool
  pub crc : ℕ
  pub crc_set : Bool

abbrev pub new_line_reader : Bytes → LineReader
new_line_reader inp = record { inp = inp; buf = []; at_end = false; crc = 0; crc_set = false }

module _ (b64_decode : Bytes → Result Bytes) where
  -- The line behind the one with the checksum.
  unfoldable pub read_end : LineReader → Result Bytes × LineReader
  read_end l = elim (read_line l.inp) [
    | none ↦ (err armor_corrupt, l)
    | some (line, is_prefix, rest) ↦
        (if has_prefix line armor_end
          then (err eof, record l { inp = rest; at_end = true; crc_set = true })
          else (err armor_corrupt, record l { inp = rest }))
  ]

  -- The line with the checksum.
  unfoldable pub read_checksum : LineReader → Result Bytes → Result Bytes × LineReader
  unfolding read_end
  read_checksum l (ok bytes) =
      if length bytes == 3
      then read_end (record l {
        crc =
            bit_or (bit_or (u32 (get_or bytes 0 0 * 2 ^ 16)) (u32 (get_or bytes 1 0 * 2 ^ 8)))
              (get_or bytes 2 0);
      })
      else (ok [], l)
  read_checksum l r = (r, l)

  -- A line that is no prefix of one.
  unfoldable pub take_line : LineReader → Bytes → ℕ → Result Bytes × LineReader
  unfolding read_checksum
  take_line l line n =
      if has_prefix line armor_end
      then (err eof, record l { at_end = true })
      else if length line == 5 && get_or line 0 0 == 61
      then read_checksum l (b64_decode (drop 1 line))
      else if ltb 96 (length line)
      then (err armor_corrupt, l)
      else (ok (take n line), record l { buf = drop n line })

  -- `lineReader.Read`, into n bytes.
  unfoldable pub line_read : LineReader → ℕ → Result Bytes × LineReader
  unfolding read_line take_line
  line_read l n =
      if l.at_end
      then (err eof, l)
      else if ltb 0 (length l.buf)
      then (ok (take n l.buf), record l { buf = drop n l.buf })
      else (elim (read_line l.inp) [
        | none ↦ (err eof, l)
        | some (line, is_prefix, rest) ↦
            (if is_prefix
              then (err armor_corrupt, record l { inp = rest })
              else take_line (record l { inp = rest }) line n)
      ])

  -- What follows a read.
  unfoldable pub after_read :
      (LineReader → Result (Bytes × LineReader))
      → Result Bytes × LineReader
      → Result (Bytes × LineReader)
  after_read next (ok bs, l) = next l >>= λ r. ok (bs ++ r.0, r.1)
  after_read next (err eof, l) = ok ([], l)
  after_read next (err e, l) = err e
  after_read next (panic, l) = panic
  after_read next (stuck, l) = stuck

  -- All that it reads, by reads into n bytes, up to the end.
  unfoldable pub read_block : ℕ → ℕ → LineReader → Result (Bytes × LineReader)
  unfolding after_read
  read_block zero n l = stuck
  read_block (suc fuel) n l = after_read (read_block fuel n) (line_read l n)
