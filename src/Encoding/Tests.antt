-- ===== src/Encoding/Tests.antt =====
-- Concrete numbers and identifiers.
use go_crypto.Base.{◌^◌, ◌<◌, [], ◌∷◌, ◌++◌, length, Bytes, ok, ◌≡◌, refl, arith}
use go_crypto.Encoding.Mpi.{new_mpi, strip_zeros, bit_length_of, len_bits, encoded_bytes}
use go_crypto.Encoding.Mpi.Laws.{read_from-new_mpi}
use go_crypto.Encoding.Oid.{new_oid}
use go_crypto.Encoding.Mpi as Numbers

abbrev curve : Bytes
curve = 43 ∷ 129 ∷ 4 ∷ 0 ∷ 34 ∷ []

abbrev padded_number : Bytes
padded_number = 0 ∷ 0 ∷ 1 ∷ 255 ∷ []

number_short : length (new_mpi padded_number).bytes < 2 ^ 13
unfolding new_mpi strip_zeros
number_short = omega arith

number_written : encoded_bytes (new_mpi padded_number) ≡ 0 ∷ 9 ∷ 1 ∷ 255 ∷ []
unfolding new_mpi strip_zeros bit_length_of len_bits encoded_bytes
number_written = refl

read_from-new_mpi_example :
    Numbers.read_from (Numbers.encoded_bytes (new_mpi padded_number) ++ curve)
    ≡ ok (new_mpi padded_number, Numbers.encoded_length (new_mpi padded_number), curve)
read_from-new_mpi_example = read_from-new_mpi padded_number curve number_short

curve_fits : new_oid curve ≡ ok (record { bytes = curve })
unfolding new_oid
curve_fits = refl
