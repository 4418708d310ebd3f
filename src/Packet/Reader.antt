-- ===== src/Packet/Reader.antt =====
-- openpgp/packet/reader.go: packets from a stack of sources. `Read` of packet.go, which reads one packet, is
-- taken as an operation on a source.
pub mod Skips
pub mod Tests
use go_crypto.Base.{
  ℕ, zero, suc, ◌+◌, ◌≤◌, ◌<◌, Bool, true, false, Option, none, some, List, [], ◌∷◌, length, Result,
  ok, err, panic, stuck, Error, eof, unsupported, unknown_packet_type, structural, leb,
  if◌then◌else◌, ◌≡◌, ◌≢◌,
}

-- What `Read` returns: a packet, or an error, with the packet that was begun where there is one.
pub data Outcome (P : Type 0) : Type 0 where
  packet : P → Outcome P
  failed : Option P → Error → Outcome P

-- `Read` on sources of the type R, and the packets of encrypted, compressed or literal data.
pub record PacketSource (P R : Type 0) : Type 0 where
  pub read : R → Outcome P × R
  pub holds_data : P → Bool

-- `Reader`; both lists have the latest element first.
pub record Reader (P R : Type 0) : Type 0 where
  pub q : List P
  pub readers : List R

abbrev pub max_readers : ℕ
max_readers = 32

-- `NewReader`
unfoldable pub new_reader : {P R : Type 0} → R → Reader P R
new_reader r = record { q = []; readers = r ∷ [] }

-- `Push`
unfoldable pub push : {P R : Type 0} → Reader P R → R → Result (Unit {0}) × Reader P R
push r reader =
    if leb max_readers (length r.readers)
    then (err (structural "too many layers of packets"), r)
    else (ok tt, record r { readers = reader ∷ r.readers })

-- `Unread`
unfoldable pub unread : {P R : Type 0} → Reader P R → P → Reader P R
unread r p = record r { q = p ∷ r.q }

-- `switch p.(type)`: an unsupported packet of data is not skipped.
unfoldable pub blocks : {P R : Type 0} → PacketSource P R → Option P → Bool
blocks source none = false
blocks source (some p) = source.holds_data p

-- What `Next` does with the outcome of the topmost source, which is `r` then, above `rs`.
unfoldable pub on_outcome :
    {P R : Type 0}
    → PacketSource P R
    → (List R → Result P × List R)
    → List R
    → Outcome P × R
    → Result P × List R
on_outcome source next rs (packet p, r) = (ok p, r ∷ rs)
on_outcome source next rs (failed p eof, r) = next rs
on_outcome source next rs (failed p (unknown_packet_type t), r) = next (r ∷ rs)
on_outcome source next rs (failed p (unsupported m), r) =
    let skipped = next (r ∷ rs) in
    if blocks source p then (err (unsupported m), r ∷ rs) else skipped
on_outcome source next rs (failed p e, r) = (err e, r ∷ rs)

-- The loop of `Next`.
unfoldable pub next_packet : {P R : Type 0} → PacketSource P R → ℕ → List R → Result P × List R
next_packet source fuel [] = (err eof, [])
next_packet source zero (r ∷ rs) = (stuck, r ∷ rs)
next_packet source (suc fuel) (r ∷ rs) =
    on_outcome source (next_packet source fuel) rs (source.read r)

-- `Next`
unfoldable pub next : {P R : Type 0} → PacketSource P R → ℕ → Reader P R → Result P × Reader P R
next source fuel r = elim r.q [
  | [] ↦ let (p, rs) = next_packet source fuel r.readers in (p, record r { readers = rs })
  | p ∷ q ↦ (ok p, record r { q = q })
]
