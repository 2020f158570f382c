-- ===== src/Keyring.antt =====
-- The versioned key rings (mnemex/accounts/keyring.py): the children hold decimal numbers, the ring
-- with its format of ciphertexts, and the proofs.
pub mod Decimal
pub mod Model
pub mod Format
pub mod Sealing
pub mod Validation
pub mod Json
pub mod Tests
