-- ===== src/Io.antt =====
-- What the code uses of Go's package io. A source is the bytes that it still holds, and it is at
-- EOF when it holds none. `io.ReadFull` does not show how the source splits its bytes; `Read` does,
-- by `grant`, which says how many of the requested bytes a call delivers: one at least.
pub mod Laws
pub mod Source
use go_crypto.Base.{
  ℕ, zero, suc, ◌-◌, Bool, true, false, Option, none, some, List, [], ◌∷◌, ◌++◌, min, max, length,
  take, drop, Bytes, Result, ok, err, panic, stuck, Error, eof, unexpected_eof, ◌>>=◌, ◌==◌,
  if◌then◌else◌,
}

fill : ℕ → Bytes → Option (Bytes × Bytes)
fill zero src = some ([], src)
fill (suc n) [] = none
fill (suc n) (b ∷ src) = elim (fill n src) [ none ↦ none | some (bs, rest) ↦ some (b ∷ bs, rest) ]

-- `io.ReadFull` into a buffer of `n` bytes.
unfoldable pub read_full : ℕ → Bytes → Result (Bytes × Bytes)
unfolding fill
read_full zero src = ok ([], src)
read_full (suc n) [] = err eof
read_full (suc n) (b ∷ src) = elim (fill n src) [
  | none ↦ err unexpected_eof
  | some (bs, rest) ↦ ok (b ∷ bs, rest)
]

-- `if err == io.EOF { err = io.ErrUnexpectedEOF }`: the input must not end here.
unfoldable pub within_packet : Result (Bytes × Bytes) → Result (Bytes × Bytes)
within_packet (err eof) = err unexpected_eof
within_packet r = r

-- One `Read` of up to `k` bytes, and the source after it.
unfoldable pub read_some : (Bytes → ℕ → ℕ) → ℕ → Bytes → Result Bytes × Bytes
read_some grant zero src = (ok [], src)
read_some grant (suc k) [] = (err eof, [])
read_some grant (suc k) (b ∷ src) =
    let n = min (grant (b ∷ src) (suc k) - 1) (min k (length src)) in
    (ok (b ∷ take n src), drop n src)

module _ {ℓ} {S : Type ℓ} where
  unfoldable pub prepend : Bytes → Result Bytes × S → Result Bytes × S
  prepend bs (r, s) = (r >>= λ out. ok (bs ++ out), s)

  -- What a reading loop makes of one `Read`: EOF ends it, another error is passed on.
  unfoldable pub after_read : Result Bytes × S → (S → Result Bytes × S) → Result Bytes × S
  unfolding prepend
  after_read (ok bs, s) k = prepend bs (k s)
  after_read (err eof, s) k = (ok [], s)
  after_read (r, s) k = (r, s)

  -- `ioutil.ReadAll`, with buffers of `size` bytes: everything up to EOF, and the reader after it.
  unfoldable pub read_all : (S → ℕ → Result Bytes × S) → ℕ → ℕ → S → Result Bytes × S
  unfolding after_read
  read_all read size zero s = (stuck, s)
  read_all read size (suc fuel) s = after_read (read s size) (read_all read size fuel)

-- A reading step of one state seen as a step of another.
unfoldable pub map_state {ℓ κ} :
    {S : Type ℓ} {T : Type κ} → (S → T) → Result Bytes × S → Result Bytes × T
map_state f (r, s) = (r, f s)
