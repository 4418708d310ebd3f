-- ===== src/Packet/Mdc.antt =====
-- openpgp/packet/symmetrically_encrypted_mdc.go: data with a modification detection code. SHA-1 is a
-- parameter, the function from all that was written to the hash to its sum of 20 bytes.
pub mod Reads
pub mod Laws
pub mod Close
pub mod Short
pub mod Tests
use go_crypto.Base.{
  ℕ, zero, suc, ◌+◌, ◌-◌, Bool, true, false, not, ◌||◌, [], ◌∷◌, ◌++◌, length, take, drop, get_or,
  Bytes, Result, ok, err, panic, stuck, Error, eof, unexpected_eof, signature, ◌==◌, ltb, leb,
  if◌then◌else◌, bytes_equal,
}
use go_crypto.Io.Source.{ReadResult, read_up_to, read_to_end}

abbrev pub mdc_trailer_size : ℕ
mdc_trailer_size = 22

abbrev pub mdc_packet_tag_byte : ℕ
mdc_packet_tag_byte = 211

abbrev pub sha1_size : ℕ
sha1_size = 20

abbrev pub err_mdc_missing : Error
err_mdc_missing = signature "MDC packet not found"

abbrev pub err_mdc_hash_mismatch : Error
err_mdc_hash_mismatch = signature "MDC hash mismatch"

-- `seMDCReader`: `hashed` is what `h` was given, and `trailer` is `trailer[:trailerUsed]`.
pub record SeMdcReader (S : Type 0) : Type 0 where
  pub inp : S
  pub hashed : Bytes
  pub trailer : Bytes
  pub error : Bool
  pub eof : Bool

-- The reader that `decryptMdc` returns for integrity protected data: the hash is given the prefix.
unfoldable pub new_mdc_reader : {S : Type 0} → Bytes → S → SeMdcReader S
new_mdc_reader prefix s = record {
  inp = s;
  hashed = prefix;
  trailer = [];
  error = false;
  eof = false;
}

module _ {S : Type 0} (read : S → ℕ → Result Bytes × S) where
  -- The loop that fills the trailer, on one `Read` of the source.
  unfoldable pub on_fill :
      (SeMdcReader S → Result (Unit {0}) × SeMdcReader S)
      → SeMdcReader S
      → Result Bytes × S
      → Result (Unit {0}) × SeMdcReader S
  on_fill next r (ok got, s) = next (record r { inp = s; trailer = r.trailer ++ got })
  on_fill next r (err eof, s) = (err unexpected_eof, record r { inp = s; error = true })
  on_fill next r (err e, s) = (err e, record r { inp = s })
  on_fill next r (panic, s) = (panic, record r { inp = s })
  on_fill next r (stuck, s) = (stuck, record r { inp = s })

  -- `for ser.trailerUsed < mdcTrailerSize`
  unfoldable pub fill_trailer : ℕ → SeMdcReader S → Result (Unit {0}) × SeMdcReader S
  unfolding on_fill
  fill_trailer zero r = (stuck, r)
  fill_trailer (suc fuel) r =
      let next = on_fill (fill_trailer fuel) r (read r.inp (mdc_trailer_size - length r.trailer)) in
      if ltb (length r.trailer) mdc_trailer_size then next else (ok tt, r)

  -- The new bytes move through the trailer: as many leave it, and are hashed and returned.
  unfoldable pub shift_trailer : SeMdcReader S → Bytes → S → SeMdcReader S
  shift_trailer r got s =
      let n = length got in
      let bytes = r.trailer ++ got in
      record r { inp = s; hashed = r.hashed ++ take n bytes; trailer = drop n bytes }

  -- A buffer of at most 22 bytes.
  unfoldable pub short_read : ℕ → SeMdcReader S → ReadResult × SeMdcReader S
  unfolding shift_trailer
  short_read k r =
      let (got, s) = read_up_to read k k r.inp in
      let n = length got in
      let out = take n (r.trailer ++ got) in
      let r' = shift_trailer r got s in
      if ltb n k then ((out, err eof), record r' { eof = true }) else ((out, ok tt), r')

  -- A larger buffer, on the `Read` behind its first 22 bytes.
  unfoldable pub long_read : SeMdcReader S → Result Bytes × S → ReadResult × SeMdcReader S
  unfolding shift_trailer
  long_read r (ok got, s) = ((take (length got) (r.trailer ++ got), ok tt), shift_trailer r got s)
  long_read r (err eof, s) = (([], err eof), record r { inp = s; eof = true })
  long_read r (err e, s) = (([], err e), record r { inp = s })
  long_read r (panic, s) = (([], panic), record r { inp = s })
  long_read r (stuck, s) = (([], stuck), record r { inp = s })

  unfoldable pub filled_read : ℕ → Result (Unit {0}) × SeMdcReader S → ReadResult × SeMdcReader S
  unfolding short_read long_read
  filled_read k (ok x, r) =
      if leb k mdc_trailer_size
      then short_read k r
      else long_read r (read r.inp (k - mdc_trailer_size))
  filled_read k (e, r) = (([], e), r)

  -- `seMDCReader.Read` into a buffer of `k` bytes.
  unfoldable pub mdc_read : SeMdcReader S → ℕ → ReadResult × SeMdcReader S
  unfolding fill_trailer filled_read
  mdc_read r k =
      if r.error
      then (([], err unexpected_eof), r)
      else if r.eof
      then (([], err eof), r)
      else filled_read k (fill_trailer (suc mdc_trailer_size) r)

  -- The loop of `Close`.
  unfoldable pub drain : ℕ → SeMdcReader S → Result (Unit {0}) × SeMdcReader S
  unfolding mdc_read
  drain fuel r =
      let rest = read_to_end mdc_read 1024 fuel r in
      if r.eof then (ok tt, r) else (
        elim rest.0 [ ok bs ↦ ok tt | err e ↦ err err_mdc_missing | panic ↦ panic | stuck ↦ stuck ],
        rest.1,
      )

  -- The checks of `Close` on the trailer, the hash first.
  unfoldable pub check_trailer : (Bytes → Bytes) → Bytes → Bytes → Result (Unit {0})
  check_trailer sum hashed trailer =
      if not (bytes_equal (sum (hashed ++ take 2 trailer)) (drop 2 trailer))
      then err err_mdc_hash_mismatch
      else if not (get_or trailer 0 0 == mdc_packet_tag_byte)
          || not (get_or trailer 1 0 == sha1_size)
      then err err_mdc_missing
      else ok tt

  -- `seMDCReader.Close`
  unfoldable pub mdc_close : (Bytes → Bytes) → ℕ → SeMdcReader S → Result (Unit {0}) × SeMdcReader S
  unfolding drain check_trailer
  mdc_close sum fuel r =
      let (drained, r') = drain fuel r in
      let checked : Result (Unit {0}) = elim drained [
        | ok x ↦ check_trailer sum r'.hashed r'.trailer
        | err e ↦ err e
        | panic ↦ panic
        | stuck ↦ stuck
      ] in
      if r.error then (err err_mdc_missing, r) else (checked, r')

-- `seMDCWriter.Write` and `Close` after all writes: what goes to the writer below, for a hash that was
-- given `hashed` before.
unfoldable pub mdc_written : (Bytes → Bytes) → Bytes → Bytes → Bytes
mdc_written sum hashed body =
    let head = mdc_packet_tag_byte ∷ sha1_size ∷ [] in
    body ++ (head ++ sum ((hashed ++ body) ++ head))
