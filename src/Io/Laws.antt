-- ===== src/Io/Laws.antt =====
-- Laws of the reading functions.
use go_crypto.Base.{
  ℕ, zero, suc, ◌-◌, ◌≤◌, ◌<◌, min, Option-cases, inl, inr, none, some, [], ◌∷◌, ◌++◌, length, take,
  drop, Bytes, Result, ok, err, eof, unexpected_eof, ◌≡◌, refl, ap, arith, length-take,
  take-append-drop,
}
use go_crypto.Io.{fill, read_full, read_some, after_read, read_all, map_state}
use go_crypto.Base.{
  short_write, structural, unsupported, signature, failure, aead_error, invalid_argument,
  unknown_packet_type, panic, stuck,
}

fill-append : (n : ℕ) (bs rest : Bytes) → length bs ≡ n → fill n (bs ++ rest) ≡ some (bs, rest)
unfolding fill
fill-append zero [] rest h = refl
fill-append zero (b ∷ bs) rest h = absurd (omega arith)
fill-append (suc n) [] rest h = absurd (omega arith)
fill-append (suc n) (b ∷ bs) rest h = rw (fill-append n bs rest (omega arith))

pub read_full-append :
    (n : ℕ) (bs rest : Bytes) → length bs ≡ n → read_full n (bs ++ rest) ≡ ok (bs, rest)
unfolding read_full
read_full-append zero [] rest h = refl
read_full-append zero (b ∷ bs) rest h = absurd (omega arith)
read_full-append (suc n) [] rest h = absurd (omega arith)
read_full-append (suc n) (b ∷ bs) rest h = rw (fill-append n bs rest (omega arith), read_full)

fill_short : (n : ℕ) (src : Bytes) → length src < n → fill n src ≡ none
unfolding fill
fill_short zero src h = absurd (omega arith)
fill_short (suc n) [] h = refl
fill_short (suc n) (b ∷ src) h = rw (fill_short n src (omega arith))

pub read_full_short :
    (n b : ℕ) (src : Bytes) → length (b ∷ src) < n → read_full n (b ∷ src) ≡ err unexpected_eof
unfolding read_full
read_full_short zero b src h = absurd (omega arith)
read_full_short (suc n) b src h = rw (fill_short n src (omega arith), read_full)

-- A `Read` delivers a front of the source, not more than was asked for, and one byte at least.
pub record Delivers (k : ℕ) (src got rest : Bytes) : Type 0 where
  pub splits : got ++ rest ≡ src
  pub some_bytes : 0 < length got
  pub at_most : length got ≤ k

pub read_some-Delivers :
    (grant : Bytes → ℕ → ℕ) (k b : ℕ) (src : Bytes)
    → (got : Bytes) × (rest : Bytes) × (read_some grant (suc k) (b ∷ src) ≡ (ok got, rest))
      × Delivers (suc k) (b ∷ src) got rest
unfolding read_some
read_some-Delivers grant k b src =
    let n = min (grant (b ∷ src) (suc k) - 1) (min k (length src)) in
    (
      b ∷ take n src,
      drop n src,
      refl,
      record {
        splits = ap (λ l. b ∷ l) (take-append-drop n src);
        some_bytes = omega arith;
        at_most = omega (arith, length-take n src);
      },
    )

fill_splits :
    (n : ℕ) (src bs rest : Bytes)
    → fill n src ≡ some (bs, rest)
    → (bs ++ rest ≡ src) × (length bs ≡ n)
unfolding fill
fill_splits zero src bs rest h = ground arith
fill_splits (suc n) [] bs rest h = cc
fill_splits (suc n) (b ∷ src) bs rest h = elim (Option-cases (fill n src)) [
  | inl e ↦ ground (arith, e)
  | inr ((bs', rest'), e) ↦ ground (arith, fill_splits n src bs' rest' e)
]

-- A full read takes exactly `n` bytes off the front.
pub read_full_splits :
    (n : ℕ) (src bs rest : Bytes)
    → read_full n src ≡ ok (bs, rest)
    → (bs ++ rest ≡ src) × (length bs ≡ n)
unfolding read_full
read_full_splits zero src bs rest h = ground arith
read_full_splits (suc n) [] bs rest h = cc
read_full_splits (suc n) (b ∷ src) bs rest h = elim (Option-cases (fill n src)) [
  | inl e ↦ ground (arith, e)
  | inr ((bs', rest'), e) ↦ ground (arith, e, fill_splits n src bs' rest' e)
]

module _ {ℓ κ} {S : Type ℓ} {T : Type κ} (f : S → T) where
  after_read-map_state :
      (x : Result Bytes × S) (g : S → Result Bytes × S) (h : T → Result Bytes × T)
      → ((s : S) → h (f s) ≡ map_state f (g s))
      → after_read (map_state f x) h ≡ map_state f (after_read x g)
  unfolding after_read map_state
  after_read-map_state (ok bs, s) g h e = rw (e s)
  after_read-map_state (err eof, s) g h e = refl
  after_read-map_state (err unexpected_eof, s) g h e = refl
  after_read-map_state (err short_write, s) g h e = refl
  after_read-map_state (err (structural m), s) g h e = refl
  after_read-map_state (err (unsupported m), s) g h e = refl
  after_read-map_state (err (signature m), s) g h e = refl
  after_read-map_state (err (failure m), s) g h e = refl
  after_read-map_state (err (aead_error m), s) g h e = refl
  after_read-map_state (err (invalid_argument m), s) g h e = refl
  after_read-map_state (err (unknown_packet_type m), s) g h e = refl
  after_read-map_state (panic, s) g h e = refl
  after_read-map_state (stuck, s) g h e = refl

  -- Reading all of a wrapped reader is reading all of it.
  pub read_all-map_state :
      (read : S → ℕ → Result Bytes × S) (read' : T → ℕ → Result Bytes × T)
      → ((s : S) (k : ℕ) → read' (f s) k ≡ map_state f (read s k))
      → (k fuel : ℕ) (s : S) → read_all read' k fuel (f s) ≡ map_state f (read_all read k fuel s)
  unfolding read_all map_state
  read_all-map_state read read' e k zero s = refl
  read_all-map_state read read' e k (suc fuel) s = rw (e s k) (
      after_read-map_state (read s k) (read_all read k fuel) (read_all read' k fuel)
        (read_all-map_state read read' e k fuel))
