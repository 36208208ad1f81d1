-- ===== src/Peer.antt =====
-- crates/fractonica-peer/src/lib.rs: the errors of the crate. Its proofs of requests to read changes are
-- not modelled here.
pub mod Hex
mod Tests
use fractonica.Common.{ℕ, List}
use fractonica.Common.Int.{ℤ}
use fractonica.Trust.Errors.{TrustError}

pub data PeerProofError : Type 0 where
  unsupported_version : ℕ → PeerProofError
  invalid_page : PeerProofError
  invalid_time : PeerProofError
  invalid_lifetime : ℤ → PeerProofError
  outside_request_window : PeerProofError
  proof_too_large : ℕ → PeerProofError
  invalid_fixed_hex : PeerProofError
  invalid_signature_encoding : PeerProofError
  trust : TrustError → PeerProofError
  canonical : List ℕ → PeerProofError
