-- ===== src/S2k/Cache.antt =====
-- openpgp/s2k/s2k_cache.go: keys by their parameters. The map is a list of its entries, the last first.
use go_crypto.Base.{
  ℕ, Bool, true, false, Bool-cases, inl, inr, ◌&&◌, List, [], ◌∷◌, ◌<◌, length, All, Bytes, Result,
  ok, err, panic, stuck, ◌>>=◌, bytes_equal, ◌==◌, if◌then◌else◌, ◌≡◌, refl, arith,
}
use go_crypto.S2k.Params.{Params}

-- `==` on the struct.
unfoldable pub same_params : Params → Params → Bool
same_params p q =
    p.mode == q.mode
    && p.hash_id == q.hash_id
    && bytes_equal p.salt_bytes q.salt_bytes
    && p.count_byte == q.count_byte
    && p.passes == q.passes
    && p.parallelism == q.parallelism
    && p.memory_exp == q.memory_exp

abbrev pub Cache : Type 0
Cache = List (Params × Bytes)

-- `(*c)[*params]`: nil where there is no entry.
unfoldable pub cached_key : Cache → Params → Bytes
cached_key [] p = []
cached_key ((q, key) ∷ c) p = let rest = cached_key c p in if same_params p q then key else rest

unfoldable pub is_cached : Cache → Params → Bool
is_cached [] p = false
is_cached ((q, key) ∷ c) p = let rest = is_cached c p in if same_params p q then true else rest

-- What the assignment `(*c)[*params] = key` behind the derivation leaves: it stores `key`.
unfoldable pub after_derive : Cache → Params → Bytes → Result Bytes → Result Bytes × Cache
after_derive c p key (ok derived) = (ok derived, (p, key) ∷ c)
after_derive c p key r = (r, c)

-- `GetOrComputeDerivedKey`, over `Params.Function`.
unfoldable pub get_or_compute_derived_key :
    (Params → Result (ℕ → Bytes → Result Bytes)) → Cache → Bytes → Params → ℕ → Result Bytes × Cache
unfolding cached_key is_cached after_derive
get_or_compute_derived_key derive c passphrase p size =
    let key = cached_key c p in
    if is_cached c p && length key == size
    then (ok key, c)
    else after_derive c p key (derive p >>= λ f. f size passphrase)

-- All entries are nil.
unfoldable pub IsEmptied : Cache → Type 0
IsEmptied c = All (λ e. e.1 ≡ []) c

cached_key-nil : (c : Cache) (p : Params) → IsEmptied c → cached_key c p ≡ []
unfolding cached_key IsEmptied
cached_key-nil [] p h = refl
cached_key-nil ((q, key) ∷ c) p h = elim (Bool-cases (same_params p q)) [
  | inl same ↦ rw same h.0
  | inr other ↦ rw other (cached_key-nil c p h.1)
]

after_derive-IsEmptied :
    (c : Cache) (p : Params) (r : Result Bytes)
    → IsEmptied c
    → ((after_derive c p [] r).0 ≡ r) × IsEmptied (after_derive c p [] r).1
unfolding after_derive IsEmptied
after_derive-IsEmptied c p (ok derived) h = (refl, (refl, h))
after_derive-IsEmptied c p (err e) h = (refl, h)
after_derive-IsEmptied c p panic h = (refl, h)
after_derive-IsEmptied c p stuck h = (refl, h)

-- A cache that is empty, or all of whose entries are nil, never helps: each call for a key of some
-- bytes derives it anew and leaves such a cache again.
pub get_or_compute_never_hits :
    (derive : Params → Result (ℕ → Bytes → Result Bytes))
    → (c : Cache) (passphrase : Bytes) (p : Params) (size : ℕ) → IsEmptied c
    → 0 < size
    → let r = get_or_compute_derived_key derive c passphrase p size in
      (r.0 ≡ (derive p >>= λ f. f size passphrase)) × IsEmptied r.1
unfolding get_or_compute_derived_key
get_or_compute_never_hits derive c passphrase p size h positive =
    let nil = cached_key-nil c p h in
    let miss : (is_cached c p && 0 == size) ≡ false = ground (arith, positive) in
    rw (nil, miss) (after_derive-IsEmptied c p (derive p >>= λ f. f size passphrase) h)
