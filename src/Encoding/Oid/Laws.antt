-- ===== src/Encoding/Oid/Laws.antt =====
-- An identifier is read back as it was written, and the reserved lengths are refused both ways.
use go_crypto.Base.{◌≤◌, ◌<◌, ◌++◌, length, Bytes, ok, panic, ◌≡◌, refl, arith}
use go_crypto.Io.Laws.{read_full-append}
use go_crypto.Encoding.Oid.{Oid, new_oid, encoded_bytes, encoded_length, read_from}

-- An identifier that NewOID makes is read back from its encoding with the count of its bytes, and
-- what follows it is left.
pub read_from-new_oid :
    (bs rest : Bytes) (o : Oid)
    → new_oid bs ≡ ok o
    → read_from (encoded_bytes o ++ rest) ≡ ok (o, encoded_length o, rest)
unfolding new_oid read_from encoded_bytes encoded_length
read_from-new_oid bs rest o h = ground (arith, read_full-append (length bs) bs rest refl)

-- NewOID takes exactly the lengths from 1 to 254, and panics on all others.
pub new_oid_lengths :
    (bs : Bytes)
    → ((1 ≤ length bs) × (length bs ≤ 254) → new_oid bs ≡ ok (record { bytes = bs }))
      × (length bs < 1 → new_oid bs ≡ panic)
      × (254 < length bs → new_oid bs ≡ panic)
unfolding new_oid
new_oid_lengths bs = ground arith
