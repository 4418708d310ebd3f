-- ===== src/Packet/Mdc/Tests.antt =====
-- Data with a modification detection code, on a small concrete hash.
use go_crypto.Base.{
  ℕ, ◌%◌, [], ◌∷◌, ◌++◌, length, replicate, Bytes, Result, ok, err, unexpected_eof, ◌≡◌, ◌↔◌, refl,
  arith,
}
use go_crypto.Io.{read_some}
use go_crypto.Io.Source.{IsSource, read_some-IsSource, read_to_end}
use go_crypto.Packet.Mdc.{new_mdc_reader, mdc_read, mdc_close, err_mdc_missing}
use go_crypto.Packet.Mdc.Close.{mdc_read-mdc_close, mdc_close_accepts, new_mdc_reader-IsLive}
use go_crypto.Packet.Mdc.Short.{mdc_close_short}

-- A hash that counts.
abbrev sum : Bytes → Bytes
sum xs = replicate 20 (length xs % 256)

-- A source that delivers at most seven bytes at a time.
abbrev read : Bytes → ℕ → Result Bytes × Bytes
read src k = read_some (λ bs n. 7) k src

slices : IsSource read (λ src. src)
slices = read_some-IsSource (λ bs n. 7)

abbrev prefix : Bytes
prefix = 9 ∷ 8 ∷ 9 ∷ 8 ∷ []

abbrev body : Bytes
body = 1 ∷ 2 ∷ 3 ∷ []

abbrev code : Bytes
code = 211 ∷ 20 ∷ replicate 20 9

abbrev wrong : Bytes
wrong = 211 ∷ 21 ∷ replicate 20 9

mdc_read-mdc_close_example :
    let (out, r) = read_to_end (mdc_read read) 5 26 (new_mdc_reader prefix (body ++ wrong)) in
    (out ≡ ok body)
    × (((mdc_close read sum 26 r).0 ≡ ok tt)
        ↔ (wrong ≡ 211 ∷ 20 ∷ sum ((prefix ++ body) ++ (211 ∷ 20 ∷ []))))
mdc_read-mdc_close_example =
    mdc_read-mdc_close read (λ src. src) slices sum prefix body wrong 5 26 (body ++ wrong) refl refl
      (omega arith) (omega arith)

mdc_close_accepts_example :
    ((mdc_close read sum 30 (new_mdc_reader prefix (body ++ code))).0 ≡ ok tt)
    ↔ (code ≡ 211 ∷ 20 ∷ sum ((prefix ++ body) ++ (211 ∷ 20 ∷ [])))
mdc_close_accepts_example =
    mdc_close_accepts read (λ src. src) slices sum (prefix ++ body) code 30
      (new_mdc_reader prefix (body ++ code))
      (new_mdc_reader-IsLive read (λ src. src) slices prefix (body ++ code) (omega arith)) refl
      (omega arith)

mdc_close_short_example :
    let (out, r) = read_to_end (mdc_read read) 30 3 (new_mdc_reader prefix body) in
    (out ≡ err unexpected_eof)
    × ((mdc_close read sum 4 r).0 ≡ err err_mdc_missing)
    × ((mdc_close read sum 3 (new_mdc_reader prefix body)).0 ≡ err err_mdc_missing)
mdc_close_short_example =
    mdc_close_short read (λ src. src) slices sum prefix 30 2 4 body (omega arith)
