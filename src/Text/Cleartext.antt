-- ===== src/Text/Cleartext.antt =====
-- openpgp/clearsign/clearsign.go: cleartext signatures. `armor.Decode` is an argument.
pub mod Escape
pub mod Lines
pub mod Written
pub mod RoundTrip
pub mod Names
pub mod Message
use go_crypto.Base.{
  ℕ, zero, suc, ◌+◌, ◌-◌, Bool, true, false, not, ◌&&◌, ◌||◌, Option, none, some, List, [], ◌∷◌,
  ◌++◌, length, take, drop, Bytes, ◌==◌, ltb, bytes_equal, if◌then◌else◌,
}

-- "\n-----BEGIN PGP SIGNED MESSAGE-----"
abbrev pub start : Bytes
start =
    10 ∷ 45 ∷ 45 ∷ 45 ∷ 45 ∷ 45 ∷ 66 ∷ 69 ∷ 71 ∷ 73 ∷ 78 ∷ 32 ∷ 80 ∷ 71 ∷ 80 ∷ 32 ∷ 83 ∷ 73 ∷ 71
    ∷ 78 ∷ 69 ∷ 68 ∷ 32 ∷ 77 ∷ 69 ∷ 83 ∷ 83 ∷ 65 ∷ 71 ∷ 69 ∷ 45 ∷ 45 ∷ 45 ∷ 45 ∷ 45 ∷ []

-- "- "
abbrev pub dash_escape : Bytes
dash_escape = 45 ∷ 32 ∷ []

-- "-----BEGIN PGP SIGNATURE-----"
abbrev pub end_text : Bytes
end_text =
    45 ∷ 45 ∷ 45 ∷ 45 ∷ 45 ∷ 66 ∷ 69 ∷ 71 ∷ 73 ∷ 78 ∷ 32 ∷ 80 ∷ 71 ∷ 80 ∷ 32 ∷ 83 ∷ 73 ∷ 71 ∷ 78
    ∷ 65 ∷ 84 ∷ 85 ∷ 82 ∷ 69 ∷ 45 ∷ 45 ∷ 45 ∷ 45 ∷ 45 ∷ []

-- "\n-----END PGP SIGNATURE-----"
abbrev pub end_marker : Bytes
end_marker =
    10 ∷ 45 ∷ 45 ∷ 45 ∷ 45 ∷ 45 ∷ 69 ∷ 78 ∷ 68 ∷ 32 ∷ 80 ∷ 71 ∷ 80 ∷ 32 ∷ 83 ∷ 73 ∷ 71 ∷ 78 ∷ 65
    ∷ 84 ∷ 85 ∷ 82 ∷ 69 ∷ 45 ∷ 45 ∷ 45 ∷ 45 ∷ 45 ∷ []

abbrev pub crlf : Bytes
crlf = 13 ∷ 10 ∷ []

-- `bytes.HasPrefix`
unfoldable pub has_prefix : Bytes → Bytes → Bool
has_prefix xs [] = true
has_prefix [] (p ∷ ps) = false
has_prefix (x ∷ xs) (p ∷ ps) = x == p && has_prefix xs ps

-- `bytes.Index`
unfoldable pub index_of : Bytes → Bytes → Option ℕ
unfolding has_prefix
index_of [] p = if has_prefix [] p then some 0 else none
index_of (x ∷ xs) p =
    if has_prefix (x ∷ xs) p
    then some 0
    else (elim (index_of xs p) [ none ↦ none | some i ↦ some (suc i) ])

-- A line without the CR at its end.
unfoldable pub without_cr : Bytes → Bytes
without_cr [] = []
without_cr (c ∷ []) = if c == 13 then [] else c ∷ []
without_cr (c ∷ d ∷ line) = c ∷ without_cr (d ∷ line)

-- What is in front of the first LF, and what is behind it.
unfoldable pub cut_line : Bytes → Option (Bytes × Bytes)
cut_line [] = none
cut_line (c ∷ text) =
    if c == 10
    then some ([], text)
    else (elim (cut_line text) [ none ↦ none | some (line, rest) ↦ some (c ∷ line, rest) ])

-- `getLine`
unfoldable pub get_line : Bytes → Bytes × Bytes
unfolding cut_line without_cr
get_line text = elim (cut_line text) [
  | none ↦ (text, [])
  | some (line, rest) ↦ (without_cr line, rest)
]

-- `bytes.TrimRight(line, " \t")`
unfoldable pub trim_right : Bytes → Bytes
trim_right [] = []
trim_right (c ∷ line) = elim (trim_right line) [
  | [] ↦ (if c == 32 || c == 9 then [] else c ∷ [])
  | d ∷ rest ↦ c ∷ d ∷ rest
]

-- `Block`: the headers, the text as it is read, the text that is signed, and the armored signature.
pub record Block {ℓ} (S : Type ℓ) : Type ℓ where
  pub headers : List Bytes
  pub plaintext : Bytes
  pub signed : Bytes
  pub armored_signature : S

-- The lines up to the one that starts the signature: the signed text, the plaintext and the rest,
-- which begins with that line. `at_first` is `firstLine`.
unfoldable pub body_loop : ℕ → Bool → Bytes → Bytes → Bytes → Option (Bytes × Bytes × Bytes)
unfolding get_line has_prefix trim_right
body_loop zero at_first text plain rest = none
body_loop (suc fuel) at_first text plain rest =
    let (line, rest') = get_line rest in
    let text' = if at_first then text else text ++ crlf in
    let line' = trim_right (if has_prefix line dash_escape then drop 2 line else line) in
    let more = body_loop fuel false (text' ++ line') (plain ++ (line' ++ 10 ∷ [])) rest' in
    if length line == 0 && length rest' == 0
    then none
    else if bytes_equal line end_text
    then some (text, plain, rest)
    else more

-- `strings.TrimSpace`, of a line that holds no control characters.
unfoldable pub trim_left : Bytes → Bytes
trim_left [] = []
trim_left (c ∷ line) = if c == 32 then trim_left line else c ∷ line

abbrev pub trim_space : Bytes → Bytes
trim_space line = trim_right (trim_left line)

-- `strings.Split(val, ",")`, each part trimmed: what is in front of the first comma, and the others.
unfoldable pub split_commas : Bytes → Bytes × List Bytes
split_commas [] = ([], [])
split_commas (c ∷ text) =
    let (first, others) = split_commas text in
    if c == 44 then ([], first ∷ others) else (c ∷ first, others)

unfoldable pub trim_all : List Bytes → List Bytes
trim_all [] = []
trim_all (part ∷ parts) = trim_space part ∷ trim_all parts

-- A line with control or Unicode characters.
unfoldable pub is_odd : Bytes → Bool
is_odd [] = false
is_odd (c ∷ line) = ltb c 32 || ltb 126 c || is_odd line

-- The values of a header line, whose key must be "Hash".
unfoldable pub header_values : Bytes → Option (List Bytes)
unfolding is_odd index_of split_commas trim_all
header_values line = if is_odd line then none else (elim (index_of line (58 ∷ [])) [
  | none ↦ none
  | some i ↦
      if bytes_equal (trim_space (take i line)) (72 ∷ 97 ∷ 115 ∷ 104 ∷ [])
      then (let (first, others) = split_commas (drop (suc i) line) in
          some (trim_all (first ∷ others)))
      else none
])

-- The header lines up to an empty one.
unfoldable pub headers_loop : ℕ → List Bytes → Bytes → Option (List Bytes × Bytes)
headers_loop zero headers rest = none
headers_loop (suc fuel) headers rest =
    let (line, rest') = get_line rest in
    let more = λ (values : List Bytes). headers_loop fuel (headers ++ values) rest' in
    if length rest == 0
    then none
    else if length line == 0
    then some (headers, rest')
    else (elim (header_values line) [ none ↦ none | some values ↦ more values ])

-- The CRs and LFs at the front are passed over.
unfoldable pub skip_newlines : Bytes → ℕ
skip_newlines [] = 0
skip_newlines (c ∷ text) = let n = skip_newlines text in if c == 13 || c == 10 then suc n else 0

-- Where the message starts, behind its start line.
unfoldable pub find_start : Bytes → Option Bytes
unfolding has_prefix index_of
find_start text =
    if has_prefix text (drop 1 start)
    then some (drop (length start - 1) text)
    else (elim (index_of text start) [ none ↦ none | some i ↦ some (drop (i + length start) text) ])

module _ {ℓ} {S : Type ℓ} (armor_decode : Bytes → Option S) where
  -- The armored signature and what remains behind it.
  unfoldable pub take_signature : List Bytes → Bytes × Bytes × Bytes → Option (Block S × Bytes)
  take_signature headers (text, plain, rest) = elim (index_of rest end_marker) [
    | none ↦ none
    | some i ↦
        let n = i + length end_marker in
        let m = n + skip_newlines (drop n rest) in
        elim (armor_decode (take m rest)) [
          | none ↦ none
          | some s ↦ some (
            record { headers = headers; plaintext = plain; signed = text; armored_signature = s },
            drop m rest,
          )
        ]
  ]

  -- `Decode`: none stands for no block and all of the data.
  unfoldable pub decode : Bytes → Option (Block S × Bytes)
  decode text = elim (find_start text) [
    | none ↦ none
    | some rest ↦
        let (suffix, rest') = get_line rest in
        if not (length suffix == 0)
        then none
        else (elim (headers_loop (suc (length rest')) [] rest') [
          | none ↦ none
          | some (headers, body) ↦ elim (body_loop (suc (length body)) true [] [] body) [
            | none ↦ none
            | some read ↦ take_signature headers read
          ]
        ])
  ]
