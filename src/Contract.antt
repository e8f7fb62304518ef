-- ===== src/Contract.antt =====
-- contract/*.go: the ABI of a bridge contract and the decoding of its logs.
pub mod Abi
pub mod Events
