-- ===== src/S2k/Params/Laws.antt =====
-- Parameters are read back as they were written.
use go_crypto.Base.{
  ℕ, zero, suc, ◌+◌, [], ◌∷◌, ◌++◌, length, replicate, get_or, Bytes, ok, ◌≡◌, refl, sym, ap, arith,
  take_all, drop_all, take-append, append-nil, length-append,
}
use go_crypto.Io.{read_full}
use go_crypto.Io.Laws.{read_full-append}
use go_crypto.ByteUtil.{copy}
use go_crypto.S2k.Params.{
  Params, new_params, salt_size, salt, copy_salt, dummy, parse_into_params, serialize, simple_s2k,
  salted_s2k, iterated_salted_s2k, argon2_s2k, gnu_s2k, parse_simple, parse_salted, parse_iterated,
  parse_argon2, parse_gnu,
}

-- The parameters of each mode: a field that the mode does not use is zero.
pub data IsParams : Params → Type 0 where
  is_simple : (id : ℕ) → IsParams (record (new_params simple_s2k) { hash_id = id })
  is_salted :
      (id : ℕ) (bs : Bytes)
      → length bs ≡ 8
      → IsParams (record (new_params salted_s2k) { hash_id = id; salt_bytes = bs ++ replicate 8 0 })
  is_iterated :
      (id count : ℕ) (bs : Bytes)
      → length bs ≡ 8
      → IsParams (record (new_params iterated_salted_s2k) {
        hash_id = id;
        salt_bytes = bs ++ replicate 8 0;
        count_byte = count;
      })
  is_argon2 :
      (passes parallelism memory_exp : ℕ) (bs : Bytes)
      → length bs ≡ 16
      → IsParams (record (new_params argon2_s2k) {
        salt_bytes = bs ++ [];
        passes = passes;
        parallelism = parallelism;
        memory_exp = memory_exp;
      })
  is_gnu : (id : ℕ) → IsParams (record (new_params gnu_s2k) { hash_id = id })

copy_over : (dst src : Bytes) → length dst ≡ length src → copy dst src ≡ src
copy_over dst src h =
    rw
      (
        take_all (length dst) src (omega (arith, h)),
        drop_all (length src) dst (omega (arith, h)),
        append-nil,
      )
      refl

get_or_behind :
    (bs ys : Bytes) (n i : ℕ) → length bs ≡ n → get_or (bs ++ ys) (n + i) 0 ≡ get_or ys i 0
get_or_behind [] ys zero i h =
    let same : 0 + i ≡ i = omega arith in ap (λ (t : ℕ). get_or ys t 0) same
get_or_behind [] ys (suc n) i h = absurd (omega (arith, h))
get_or_behind (b ∷ bs) ys zero i h = absurd (omega (arith, h))
get_or_behind (b ∷ bs) ys (suc n) i h =
    let next : suc n + i ≡ suc (n + i) = omega arith in
    rw next (get_or_behind bs ys n i (omega (arith, h)))

parse_salted-append :
    (id : ℕ) (bs rest : Bytes)
    → length bs ≡ 8
    → parse_salted (id ∷ bs ++ rest)
      ≡ ok (record (new_params salted_s2k) { hash_id = id; salt_bytes = bs ++ replicate 8 0 }, rest)
unfolding parse_salted copy_salt salt salt_size
parse_salted-append id bs rest h =
    rw
      (
        read_full-append 9 (id ∷ bs) rest (omega (arith, h)),
        take_all 8 bs (omega (arith, h)),
        copy_over (replicate 8 0) bs (sym h),
      )
      refl

parse_iterated-append :
    (id count : ℕ) (bs rest : Bytes)
    → length bs ≡ 8
    → parse_iterated (id ∷ (bs ++ count ∷ []) ++ rest)
      ≡ ok (
        record (new_params iterated_salted_s2k) {
          hash_id = id;
          salt_bytes = bs ++ replicate 8 0;
          count_byte = count;
        },
        rest,
      )
unfolding parse_iterated copy_salt salt salt_size
parse_iterated-append id count bs rest h =
    rw
      (
        read_full-append 10 (id ∷ bs ++ count ∷ []) rest
            (omega (arith, h, length-append bs (count ∷ []))),
        take-append 8 bs (count ∷ []) h,
        copy_over (replicate 8 0) bs (sym h),
        get_or_behind bs (count ∷ []) 8 0 h,
      )
      refl

parse_argon2-append :
    (p l m : ℕ) (bs rest : Bytes)
    → length bs ≡ 16
    → parse_argon2 ((bs ++ p ∷ l ∷ m ∷ []) ++ rest)
      ≡ ok (
        record (new_params argon2_s2k) {
          salt_bytes = bs ++ [];
          passes = p;
          parallelism = l;
          memory_exp = m;
        },
        rest,
      )
unfolding parse_argon2 copy_salt salt salt_size
parse_argon2-append p l m bs rest h =
    rw
      (
        read_full-append 19 (bs ++ p ∷ l ∷ m ∷ []) rest
            (omega (arith, h, length-append bs (p ∷ l ∷ m ∷ []))),
        take-append 16 bs (p ∷ l ∷ m ∷ []) h,
        copy_over (replicate 16 0) bs (sym h),
        get_or_behind bs (p ∷ l ∷ m ∷ []) 16 0 h,
        get_or_behind bs (p ∷ l ∷ m ∷ []) 16 1 h,
        get_or_behind bs (p ∷ l ∷ m ∷ []) 16 2 h,
      )
      refl

-- S2K parameters of any mode (a field that the mode does not use is zero) are read back as they were
-- written, and what follows them is left.
pub parse_into_params-serialize :
    (p : Params) (rest : Bytes)
    → IsParams p
    → parse_into_params (serialize p ++ rest) ≡ ok (p, rest)
unfolding parse_into_params serialize parse_simple parse_gnu read_full salt salt_size dummy
parse_into_params-serialize p rest (is_simple id) = refl
parse_into_params-serialize p rest (is_salted id bs h) =
    rw (take-append 8 bs (replicate 8 0) h, append-nil bs) (parse_salted-append id bs rest h)
parse_into_params-serialize p rest (is_iterated id count bs h) =
    rw (take-append 8 bs (replicate 8 0) h) (parse_iterated-append id count bs rest h)
parse_into_params-serialize p rest (is_argon2 x l m bs h) =
    rw (take-append 16 bs [] h) (parse_argon2-append x l m bs rest h)
parse_into_params-serialize p rest (is_gnu id) = refl
