-- ===== src/Lib.antt =====
-- A model of the exact temporal arithmetic, the replication inventories, the reduction of entities and
-- the canonical encodings of Fractonica, with the theorems that make them correct.
--
-- Fractonica counts time in eclipse intervals. The crate crates/fractonica-temporal-core turns an
-- instant inside an interval into an exact fraction of it, a phase, and reads the phase as octal
-- digits. Series of eclipses supply the intervals (series_bracket), intervals and instants the phases
-- (phase_at), phases the projections, words and addresses (PhaseRatio, PhaseProjection, PhaseWord64,
-- OctalAddress), and addresses the rarities (classify_rarity). clock_reading and pulse_reading_10 are
-- the composition that the other crates call.
--
-- Nodes find out what they miss by comparing inventories. The crate crates/fractonica-replication keeps
-- the entries of a space in a Merkle tree over the octal digits of their keys (InventoryTree), whose
-- summaries give the counts and hashes of the branches below a prefix, or the entries themselves.
--
-- What users write is kept as operations on entities. The crate crates/fractonica-data-model writes the
-- bodies of operations as canonical values and reads them back (encode_body, decode_body). The
-- operations on one entity name the ones that they follow, their causal parents; reduce_entity finds
-- the heads, which no other follows.
--
-- The crate crates/fractonica-trust writes canonical values (CanonicalValue) as the one deterministic
-- CBOR that is signed and hashed (to_canonical_cbor), and accepts no other bytes
-- (from_canonical_cbor).
--
-- Requests between nodes carry proofs, of crates/fractonica-peer, whose identifiers and signatures are
-- written in strict lowercase hexadecimal.
--
-- Files, with the part of crates/fractonica-temporal-core/src/lib.rs that each models:
--
--   Temporal             the constants and TemporalError
--   Temporal.Phase       greatest_common_divisor, PhaseRatio, PhaseBitIter, OctalDigitIter
--   Temporal.Power       octal_power_u64 and octal_power_u128
--   Temporal.BitPrecision  BitPrecision
--   Temporal.Ascii       the loops that write digits into a slice
--   Temporal.Projection  PhaseProjection, PhaseBoundary, project_with_remainder
--   Temporal.Word        PhaseWord64
--   Temporal.Address     OctalAddress
--   Temporal.Interval    Timestamp, EclipsePoint, Interval
--   Temporal.Reading     ClockReading, PulseReading10, clock_reading, pulse_reading_10
--   Temporal.Series      series_bracket
--   Temporal.Rarity      RarityFamily, Rarity, classify_rarity, classify_rarity_digits
--   Temporal.Period      TemporalPeriod, RationalDuration
--
-- and of crates/fractonica-replication/src/lib.rs:
--
--   Replication          the data types, constants and errors
--   Replication.Bytes    the order and equality of arrays of bytes
--   Replication.Build    InventoryTree::build
--   Replication.Keys     octal_digit, key_has_prefix, validate_prefix
--   Replication.Hashes   digest_parts, bucket_hash, node_hash
--   Replication.Tree     summary, root, summarize_entries
--
-- and of crates/fractonica-data-model/src, where all but the first three model canonical.rs:
--
--   DataModel            EntitySchema, Visibility, DataModelError
--   DataModel.Documents  the documents and bodies
--   DataModel.Codes      EntitySchema::as_str and parse, and the codes of closed vocabularies
--   DataModel.Json       the values of serde_json
--   DataModel.Fields     the encodings of single fields
--   DataModel.Metadata   encode_metadata_object, encode_json_value and their decoders
--   DataModel.Parts      resources, references, envelopes, protected documents
--   DataModel.Encodings  the documents of records, tags, events and profiles
--   DataModel.Capabilities  grants and revocations
--   DataModel.Bodies     encode_body, decode_body
--   DataModel.Maps       BTreeMap and BTreeSet over arrays of bytes
--   DataModel.Reducer    EntityReducer and reduce_entity, of lib.rs
--
-- and of crates/fractonica-content/src/lib.rs:
--
--   Content              ResourceRef, ContentValidationError
--
-- and of crates/fractonica-trust/src/lib.rs:
--
--   Trust.Value          CanonicalValue
--   Trust.Errors         IdentifierParseError, TrustError
--   Trust.Cbor           the limits, CanonicalCborError, push, encode_head, validate_container
--   Trust.Cbor.Encode    to_canonical_cbor, encode_value, encode_float
--   Trust.Cbor.Decode    from_canonical_cbor and Decoder
--
-- and of crates/fractonica-peer/src/lib.rs:
--
--   Peer                 PeerProofError
--   Peer.Hex             parse_fixed_hex, parse_signature_hex, decode_hex, bytes_hex
--
-- The children of each module hold its theorems (Exact, Digits, RoundTrip and so on), the Tests
-- modules their instances and runs at concrete inputs, and Common the shared names, numbers and lists.
--
-- State and errors. A struct is a record whose fields have the struct's names, an enum a data type, a
-- Result of the code a Result of Common.Result, whose chains are do blocks. The private invariants of
-- the structs are predicates (IsPhase, IsAddress, IsPrecision, IsInventory). An iterator is its state
-- and a function that steps it. A slice that is written is a list that is returned. A panic of an
-- index out of bounds or of an expect is the none of an Option.
--
-- Numbers. Machine integers are natural numbers: shl_u, sub_u, add_u and mul_u write out the
-- wrap-around of their width. A signed i64 is a ℤ, with IsI64 its range; the differences in an i128
-- are differences of ℤ. An f64 is the number of its 64 bits. Floats are compared by these bits, so 0.0 and
-- -0.0 are two values, which the derived PartialEq of CanonicalValue does not tell apart.
--
-- Loops and fuel. A while loop is recursion on the number of rounds that can be left: the remainder of
-- Euclid's algorithm decreases, so its argument is enough; the binary search halves its range, so the
-- length of the slice is enough; the suffix of an address is not longer than its digits. A summary of
-- a prefix recurses to 86 digits at most, so the digits that are left are enough.
-- The CBOR decoder recurses on the levels that the maximal depth leaves, 33 at first, and its loops on
-- their counts.
--
-- Parameters. SHA-256 is a function from the bytes that a hasher was updated with to the digest. A
-- BTreeMap is the list of its entries in the order of the keys. The numbers of serde_json are a type
-- with the conversions that the crate calls. The check that bytes are a public key is a function that
-- returns nothing or a TrustError, the verification of an operation a function too; both rest on
-- Ed25519. The conversions of floats, of the crate half and of the language, and the check of UTF-8
-- are the fields of Platform.
--
-- Not modelled: the messages of Display, the names of digits, the wire identifiers, and the getters
-- of single fields; of the proofs of requests, everything but the hexadecimal encoding; of the
-- data model, the validation of documents and the signing of operations; of trust, identifiers, keys and
-- envelopes. The other crates are not modelled here.
pub mod Common
pub mod Content
pub mod DataModel
pub mod Peer
pub mod Replication
pub mod Temporal
pub mod Trust
