-- ===== src/Packet/UserId.antt =====
-- openpgp/packet/userid.go: user ids. All characters that are tested for are ASCII, so that the bytes of a
-- string stand for its runes; `strings.TrimSpace` is the parameter `trim`.
pub mod Slices
use go_crypto.Base.{
  ℕ, zero, suc, ◌+◌, ◌-◌, Bool, true, false, not, ◌||◌, Option, none, some, [], ◌∷◌, ◌++◌, length,
  take, drop, Bytes, Result, ok, panic, ◌>>=◌, ◌>>◌, panic_if, ◌==◌, ltb, if◌then◌else◌,
}

-- `UserId`
pub record UserId : Type 0 where
  pub id : Bytes
  pub name : Bytes
  pub comment : Bytes
  pub email : Bytes

-- `hasInvalidCharacters`
unfoldable pub has_invalid_characters : Bytes → Bool
has_invalid_characters [] = false
has_invalid_characters (c ∷ s) =
    let rest = has_invalid_characters s in
    if ((c == 40 || c == 41) || (c == 60 || c == 62)) || c == 0 then true else rest

-- A part in its brackets, behind a blank if something stands before it.
unfoldable pub add_part : Bytes → ℕ → Bytes → ℕ → Bytes
add_part id before part behind =
    let blank = if length id == 0 then id else id ++ 32 ∷ [] in
    if length part == 0 then id else blank ++ before ∷ (part ++ behind ∷ [])

-- `NewUserId`, none for nil.
unfoldable pub new_user_id : Bytes → Bytes → Bytes → Option UserId
new_user_id name comment email =
    let invalid =
      (has_invalid_characters name || has_invalid_characters comment)
      || has_invalid_characters email in
    let id = add_part (add_part name 40 comment 41) 60 email 62 in
    if invalid
    then none
    else some (record { id = id; name = name; comment = comment; email = email })

-- The variables of `parseUserId`.
pub record Cuts : Type 0 where
  pub state : ℕ
  pub n_start : ℕ
  pub n_end : ℕ
  pub c_start : ℕ
  pub c_end : ℕ
  pub e_start : ℕ
  pub e_end : ℕ

abbrev pub no_cuts : Cuts
no_cuts = record {
  state = 0;
  n_start = 0;
  n_end = 0;
  c_start = 0;
  c_end = 0;
  e_start = 0;
  e_end = 0;
}

-- The cases 1, 3 and 6: in the name, in the comment, in the email.
unfoldable pub in_name : Cuts → ℕ → ℕ → Cuts
in_name s offset c =
    if c == 40
    then record s { state = 2; n_end = offset }
    else if c == 60
    then record s { state = 5; n_end = offset }
    else s

unfoldable pub in_comment : Cuts → ℕ → ℕ → Cuts
in_comment s offset c = if c == 41 then record s { state = 4; c_end = offset } else s

unfoldable pub in_email : Cuts → ℕ → ℕ → Cuts
in_email s offset c = if c == 62 then record s { state = 7; e_end = offset } else s

-- The body of the loop, on the character `c` at `offset`.
unfoldable pub cut_step : Cuts → ℕ → ℕ → Cuts
cut_step s offset c =
    if s.state == 0
    then in_name (record s { n_start = offset; state = 1 }) offset c
    else if s.state == 1
    then in_name s offset c
    else if s.state == 2
    then in_comment (record s { c_start = offset; state = 3 }) offset c
    else if s.state == 3
    then in_comment s offset c
    else if s.state == 4
    then (if c == 60 then record s { state = 5 } else s)
    else if s.state == 5
    then in_email (record s { e_start = offset; state = 6 }) offset c
    else if s.state == 6
    then in_email s offset c
    else s

-- `for offset, rune := range id`
unfoldable pub cut_loop : Cuts → ℕ → Bytes → Cuts
cut_loop s offset [] = s
cut_loop s offset (c ∷ id) = cut_loop (cut_step s offset c) (suc offset) id

-- The last `switch state`.
unfoldable pub cut_end : Cuts → ℕ → Cuts
cut_end s n =
    if s.state == 1
    then record s { n_end = n }
    else if s.state == 3
    then record s { c_end = n }
    else if s.state == 6
    then record s { e_end = n }
    else s

-- `id[start:end]`
unfoldable pub slice : Bytes → ℕ → ℕ → Result Bytes
slice id start end =
    panic_if (ltb end start || ltb (length id) end) >> ok (take (end - start) (drop start id))

-- `strings.ContainsRune(s, '@')`
unfoldable pub contains_at : Bytes → Bool
contains_at [] = false
contains_at (c ∷ s) = let rest = contains_at s in if c == 64 then true else rest

-- An id that is an address only.
unfoldable pub simple_form : Bytes → Bytes → Bytes → Bytes × Bytes × Bytes
simple_form name comment email =
    if length email == 0
    then (if contains_at name then ([], comment, name) else (name, comment, email))
    else (name, comment, email)

-- `parseUserId`
unfoldable pub parse_user_id : (Bytes → Bytes) → Bytes → Result (Bytes × Bytes × Bytes)
parse_user_id trim id = do
  let s = cut_end (cut_loop no_cuts 0 id) (length id)
  name ← slice id s.n_start s.n_end
  comment ← slice id s.c_start s.c_end
  email ← slice id s.e_start s.e_end
  ok (simple_form (trim name) (trim comment) (trim email))
