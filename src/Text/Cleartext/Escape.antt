-- ===== src/Text/Cleartext/Escape.antt =====
-- openpgp/clearsign/clearsign.go: `dashEscaper`, with what it wrote and what its hashes were given.
use go_crypto.Base.{ℕ, Bool, true, false, ◌||◌, List, [], ◌∷◌, ◌++◌, Bytes, ◌==◌, if◌then◌else◌}
use go_crypto.Text.Cleartext.{dash_escape, crlf}

-- `dashEscaper`
pub record DashEscaper : Type 0 where
  pub buffered : Bytes
  pub hashed : Bytes
  pub at_beginning_of_line : Bool
  pub is_first_line : Bool
  pub whitespace : Bytes

-- The escaper that `EncodeMulti` makes.
abbrev pub new_escaper : DashEscaper
new_escaper = record {
  buffered = [];
  hashed = [];
  at_beginning_of_line = true;
  is_first_line = true;
  whitespace = [];
}

-- At the beginning of a line, the CRLF of the line before is hashed.
unfoldable pub begin_line : DashEscaper → DashEscaper
begin_line d =
    if d.at_beginning_of_line
    then record d {
      hashed = if d.is_first_line then d.hashed else d.hashed ++ crlf;
      is_first_line = false;
    }
    else d

unfoldable pub is_whitespace : ℕ → Bool
is_whitespace b = b == 32 || b == 9 || b == 13

-- A byte that is no whitespace, at the beginning of a line.
unfoldable pub first_byte : ℕ → DashEscaper → DashEscaper
first_byte b d =
    if b == 45
    then record d {
      buffered = d.buffered ++ (dash_escape ++ b ∷ []);
      hashed = d.hashed ++ b ∷ [];
      at_beginning_of_line = false;
    }
    else if b == 10
    then record d { buffered = d.buffered ++ b ∷ [] }
    else record d {
      buffered = d.buffered ++ b ∷ [];
      hashed = d.hashed ++ b ∷ [];
      at_beginning_of_line = false;
    }

-- A byte that is no whitespace, later in a line: whitespace in front of it was not at the end.
unfoldable pub later_byte : ℕ → DashEscaper → DashEscaper
later_byte b d =
    if b == 10
    then record d { buffered = d.buffered ++ b ∷ []; at_beginning_of_line = true; whitespace = [] }
    else record d {
      buffered = d.buffered ++ (d.whitespace ++ b ∷ []);
      hashed = d.hashed ++ (d.whitespace ++ b ∷ []);
      whitespace = [];
    }

-- One round of the loop of `Write`.
unfoldable pub write_byte : DashEscaper → ℕ → DashEscaper
unfolding begin_line is_whitespace first_byte later_byte
write_byte d b =
    let d' = begin_line d in
    if is_whitespace b
    then record d' { whitespace = d'.whitespace ++ b ∷ []; at_beginning_of_line = false }
    else if d'.at_beginning_of_line
    then first_byte b d'
    else later_byte b d'

-- `dashEscaper.Write`
unfoldable pub write_escaped : DashEscaper → Bytes → DashEscaper
unfolding write_byte
write_escaped d [] = d
write_escaped d (b ∷ text) = write_escaped (write_byte d b) text

-- The start of `Close`: the last line is ended.
unfoldable pub close_text : DashEscaper → Bytes
close_text d = if d.at_beginning_of_line then d.buffered else d.buffered ++ 10 ∷ []

-- A message that is written in several pieces.
unfoldable pub write_pieces : DashEscaper → List Bytes → DashEscaper
write_pieces d [] = d
write_pieces d (text ∷ pieces) = write_pieces (write_escaped d text) pieces
