-- ===== src/Trust.antt =====
-- crates/fractonica-trust/src/lib.rs: the canonical values that operations are made of. Keys and
-- signatures, which rest on Ed25519, are not modelled.
pub mod Value
pub mod Cbor
pub mod Errors
mod Tests
