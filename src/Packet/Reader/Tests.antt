-- ===== src/Packet/Reader/Tests.antt =====
-- A reader over two lists of outcomes.
use go_crypto.Base.{
  ℕ, ◌≤◌, ◌<◌, Option, none, some, List, [], ◌∷◌, length, Error, eof, unknown_packet_type,
  unsupported, ◌==◌, ◌≡◌, ◌≢◌, ap, arith,
}
use go_crypto.Packet.Reader.{
  Outcome, packet, failed, PacketSource, Reader, new_reader, push, unread, next, next_packet,
}
use go_crypto.Packet.Reader.Skips.{
  IsSkipped, unknown, not_supported, Skips, Stops, Shrinks, next_packet-Stops, new, pushed,
  unread_of, next_of, Reaches-bounded,
}

abbrev Outcomes : Type 0
Outcomes = List (Outcome ℕ)

abbrev take_one : Outcomes → Outcome ℕ × Outcomes
take_one [] = (failed none eof, [])
take_one (x ∷ xs) = (x, xs)

abbrev source : PacketSource ℕ Outcomes
source = record { read = take_one; holds_data = λ p. p == 9 }

source-Shrinks : Shrinks source (λ xs. length xs)
source-Shrinks = record { consumes = takes }
  where
    real : (p : Option ℕ) (e : Error) → IsSkipped source p e → e ≢ eof
    real p _ unknown = λ f. absurd cc
    real p _ (not_supported h) = λ f. absurd cc

    takes :
        (r r' : Outcomes) (p : Option ℕ) (e : Error)
        → take_one r ≡ (failed p e, r')
        → IsSkipped source p e
        → length r' < length r
    takes [] r' p e h skipped = absurd (real p e skipped (cc h))
    takes (x ∷ r) r' p e h skipped = omega (arith, ap (λ (y : Outcome ℕ × Outcomes). length y.1) h)

abbrev first_source : Outcomes
first_source =
    failed none (unknown_packet_type 60) ∷ failed (some 3) (unsupported "version") ∷ packet 5 ∷ []

abbrev second_source : Outcomes
second_source = failed (some 9) (unsupported "cipher") ∷ []

next_packet-Stops_example :
    (end : List Outcomes) × Skips source ([] ∷ first_source ∷ second_source ∷ []) end
    × Stops source end (next_packet source 7 ([] ∷ first_source ∷ second_source ∷ []))
next_packet-Stops_example =
    next_packet-Stops source (λ xs. length xs) source-Shrinks 7
      ([] ∷ first_source ∷ second_source ∷ []) (omega arith)

abbrev used : Reader ℕ Outcomes
used = (next source 9 (unread (push (new_reader first_source) second_source).1 4)).1

Reaches-bounded_example : length used.readers ≤ 32
Reaches-bounded_example =
    Reaches-bounded source 9 first_source used (next_of (unread_of 4 (pushed second_source new)))
