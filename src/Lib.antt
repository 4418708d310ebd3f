-- ===== src/Lib.antt =====
-- A model of parts of go-crypto (OpenPGP in Go), and what holds of them.
--
-- The parts, with the files they model:
--   * Io, Io/Laws, Io/Source: the reading side of Go's package io, as far as the code relies on it. A source is the
--     list of the bytes it still holds. A `Read` may deliver fewer bytes than were asked for; how many,
--     one at least, is a parameter (`grant`) of every definition that depends on it. Io/Source is the contract
--     of a reader (IsSource), which code over any reader takes as a parameter, with `io.ReadFull` and
--     `ioutil.ReadAll` over it.
--   * ByteUtil: internal/byteutil/byteutil.go, the shifts and sums of byte strings.
--   * Encoding/Mpi, Encoding/Oid: openpgp/internal/encoding, `NewMPI` and `NewOID` (new_mpi, new_oid),
--     `EncodedBytes`, `EncodedLength`, `ReadFrom`.
--   * Crypto/Block: `cipher.Block`, a parameter, with the laws of a block cipher (IsCipher).
--   * Crypto/KeyWrap: openpgp/aes/keywrap/keywrap.go, `Wrap` and `Unwrap`; `aes.NewCipher` is a parameter.
--   * Crypto/Ocb: ocb/ocb.go. The type `ocb` is the record Ocb, caches included; `Seal`, `Open`, `crypt`,
--     `hash`, `extendTable` are seal, open_sealed, crypt, hash, extend_table, and return the instance with
--     the caches as they leave it. Crypto/Ocb/Spec is the mode without caches.
--   * Crypto/Modes, Crypto/Eax: eax/eax.go, `Seal`, `Open`, `omac`, `omacT`, `pad` (eax_seal, eax_open, ...), over
--     CTR and CBC of Go's package cipher.
--   * Crypto/Ciphers: openpgp/internal/algorithm/cipher.go, the tables of sizes and `New`.
--   * Packet/Framing: openpgp/packet/packet.go, the layer below the packets: Length (`readLength`,
--     `serializeLength`), Header (`readHeader`, `serializeHeader`, `serializeStreamHeader`), Readers
--     (`spanReader`, `partialLengthReader`, `consumeAll`) and Writer (`partialLengthWriter`).
--   * Crypto/Ocfb: openpgp/packet/ocfb.go, `NewOCFBEncrypter`, `NewOCFBDecrypter` and the streams.
--   * Packet/Mdc: openpgp/packet/symmetrically_encrypted_mdc.go, `seMDCReader` (SeMdcReader, mdc_read, mdc_close)
--     over any reader, and what `seMDCWriter` puts out (mdc_written).
--   * Packet/Encrypted: openpgp/packet/symmetrically_encrypted.go and the ends of the file above: `parse`,
--     `decryptMdc` and `serializeSymmetricallyEncryptedMdc`.
--   * Packet/Chunked: openpgp/packet/aead_crypter.go, `aeadEncrypter` and `aeadDecrypter` over any AEAD (Aead), which
--     Packet/Chunked/Eax fills with EAX.
--   * Packet/Opaque: openpgp/packet/opaque.go, `OpaqueSubpackets`, `nextSubpacket` and `Serialize`.
--   * Packet/OpaquePacket: the same file, `OpaquePacket` with `Serialize`, and `OpaqueReader` (next_opaque).
--   * Packet/SignatureArea: openpgp/packet/signature.go, `serializeSubpackets` and the lengths before it.
--   * Packet/Signature: openpgp/packet/signature.go and notation.go. `Signature` is SignatureFields with an embedded
--     signature or none. Subpacket has `parseSignatureSubpacket` and the loop over an area, Parse `parse`, Build
--     `buildSubpackets`, HashSuffix what is hashed, Body `Serialize`, and Sign `Sign`.
--   * Packet/Reader: openpgp/packet/reader.go, `Next`, `Push` and `Unread` over an operation that reads one packet
--     (PacketSource).
--   * Packet/Literal, Packet/OnePass: openpgp/packet/literal.go and one_pass_signature.go.
--   * Packet/UserId: openpgp/packet/userid.go, `NewUserId` and `parseUserId`.
--   * S2k: openpgp/s2k and openpgp/internal/algorithm/hash.go. Hash has the identifiers, Count the octets
--     for counts and memory sizes, Params the record Params with `Generate`, `ParseIntoParams` and
--     `Serialize`, Stretch `Simple`, `Salted`, `Iterated` and `Function` (derive), Cache the cache of keys.
--   * Text/Canonical: openpgp/canonical_text.go, `writeCanonical` (write_loop) and its state.
--   * Text/Cleartext: openpgp/clearsign/clearsign.go. `Decode` is decode, over an argument for `armor.Decode`; Escape is
--     `dashEscaper`, with what its hashes are given, and Names has the names of hash functions and the header.
--   * Text/Armor: openpgp/armor. Breaker is `lineBreaker`, Encode is `Encode` and `encoding`, over an argument for Go's
--     base64 encoder, and Reader is `lineReader`, with `ReadLine` of Go's package bufio.
--   * Base: lists, words, bits, errors and results that all parts share.
--
-- How they interact. Packet/Framing/Header makes a Contents of the source, which is read through the
-- readers; the writer's output is the source of a later read. Keys, modes and packets meet the block
-- cipher only through Crypto/Block.
--
-- Packet/Encrypted composes the cipher table, OCFB and the detection code: its stream reader is a source in the sense
-- of Io/Source, which Packet/Mdc is used over. The areas of a signature are written by Packet/SignatureArea, for
-- Packet/Signature, and are read by Packet/Opaque and by Packet/Signature; the parser of an embedded signature is an
-- argument of the parser of a signature.
--
-- Conventions. A byte is a ℕ, and AreBytes says where it has to be below 256; machine words keep their
-- wrap-around (Base/Words). Result is a Go result with an error: ok, err with the kind of the error, panic,
-- and stuck for fuel that has run out. Calls that change an object return it.
--
-- Fuel. `read_all` takes one unit for each `Read` and one for the end; a body with fewer bytes than that
-- is read to its end, since each `Read` delivers a byte at least. The loop of `partialLengthReader.Read`
-- has two rounds, and more fuel changes nothing. The loops of `Salted` and `Iterated` take one unit for
-- each byte of the key and of the count, which is enough for digests and texts that are not empty.
-- A `Read` with the detection code fills its trailer in 22 reads at most, and `Close` drains what is left with one unit
-- for each byte. Reading chunks takes one unit for each byte of the text and two more. The loop of `Next` takes one
-- for each source and for each packet it may skip, and `OpaqueSubpackets` one for each byte.
-- The parse of a signature takes one for each signature inside another, fewer than its bytes.
-- `lineBreaker.Write` takes one unit for each byte, and reading armor to its end takes one for each byte.
-- The loops of the cleartext `Decode` take one unit for each byte, where a line takes one at least.
-- `bits.TrailingZeros` looks at all the 64 bits.
--
-- What is not modelled: the spare capacity of slices and what append writes there, failing writers,
-- sources that deliver data together with their end, sources that fail other than by ending (but for
-- the reader with the detection code, which stops on their errors), the keys of version 2 encrypted
-- data, the packets of keys and of session keys, public-key algorithms and elliptic curves,
-- compression, the search for the start of armor, the key ring, and the reading and writing of whole
-- messages. They are mathematics of their own, glue around packages of Go, or built on packets that
-- are not modelled.
pub mod Base
pub mod Io
pub mod ByteUtil
pub mod Encoding
pub mod Crypto
pub mod Packet
pub mod S2k
pub mod Text
