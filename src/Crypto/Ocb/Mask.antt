-- ===== src/Crypto/Ocb/Mask.antt =====
-- The table of masks holds the doublings of its first entry, however far it was extended.
use go_crypto.Base.{
  ℕ, zero, suc, ◌+◌, ◌-◌, ◌<◌, Bool-cases, inl, inr, List, [], ◌∷◌, ◌++◌, length, get_or, Bytes,
  ltb, ltb-eq-true, ltb-eq-false, ◌≡◌, refl, ap, ◌∙◌, arith,
}
use go_crypto.ByteUtil.{gfn_double}
use go_crypto.Crypto.Ocb.{extend_by, mask_at}

-- `x` doubled `n` times.
unfoldable pub doubled : ℕ → Bytes → Bytes
doubled zero x = x
doubled (suc n) x = doubled n (gfn_double x)

unfoldable pub doublings : ℕ → Bytes → List Bytes
doublings zero x = []
doublings (suc n) x = x ∷ doublings n (gfn_double x)

unfoldable pub IsTable : Bytes → List Bytes → Type 0
IsTable x l = (n : ℕ) × (l ≡ doublings (suc n) x)

length-doublings : (n : ℕ) (x : Bytes) → length (doublings n x) ≡ n
unfolding doublings
length-doublings zero x = refl
length-doublings (suc n) x = ap suc (length-doublings n (gfn_double x))

get_or-doublings : (n i : ℕ) (x : Bytes) → i < n → get_or (doublings n x) i [] ≡ doubled i x
unfolding doublings doubled
get_or-doublings zero i x h = absurd (omega arith)
get_or-doublings (suc n) zero x h = refl
get_or-doublings (suc n) (suc i) x h = get_or-doublings n i (gfn_double x) (omega arith)

doublings_next :
    (n : ℕ) (x : Bytes)
    → doublings (suc n) x ++ gfn_double (doubled n x) ∷ [] ≡ doublings (suc (suc n)) x
unfolding doublings doubled
doublings_next zero x = refl
doublings_next (suc n) x = ap (λ l. x ∷ l) (doublings_next n (gfn_double x))

extend_by-doublings :
    (k n : ℕ) (x : Bytes)
    → (m : ℕ) × (extend_by k (doublings (suc n) x) ≡ doublings (suc m) x) × (m ≡ n + k)
unfolding extend_by
extend_by-doublings zero n x = (n, refl, omega arith)
extend_by-doublings (suc k) n x =
    let (m, e, h) = extend_by-doublings k (suc n) x in
    let last : length (doublings (suc n) x) - 1 ≡ n = omega (arith, length-doublings (suc n) x) in
    (m, rw (last, get_or-doublings (suc n) n x (omega arith), doublings_next n x) e, omega arith)

-- A lookup finds the mask that the index stands for, and leaves a table.
pub mask_at_lem :
    (i : ℕ) (x : Bytes) (l : List Bytes)
    → IsTable x l
    → ((mask_at i l).0 ≡ doubled i x) × IsTable x (mask_at i l).1
unfolding mask_at IsTable
mask_at_lem i x l (n, e) =
    let size : length l ≡ suc n = ap length e ∙ length-doublings (suc n) x in
    elim (Bool-cases (ltb (length l - 1) i)) [
      | inl short ↦
          let (m, e', h) = extend_by-doublings (i + 1 - length l) n x in
          let longer : extend_by (i + 1 - length l) l ≡ doublings (suc m) x =
            ap (extend_by (i + 1 - length l)) e ∙ e' in
          rw (short, longer)
            (get_or-doublings (suc m) i x (omega (arith, ltb-eq-true _ _ short)), (m, refl))
      | inr long ↦ rw long (
        ap (λ t. get_or t i []) e
            ∙ get_or-doublings (suc n) i x (omega (arith, ltb-eq-false _ _ long)),
        (n, e),
      )
    ]
