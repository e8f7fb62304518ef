-- ===== src/Geth.antt =====
-- What the monitor uses of go-ethereum (common, crypto and core/types), which is not part of the
-- repository: a parameter of all that calls it. The laws say that a conversion keeps an argument
-- that has the right length already, as the documentation of `BytesToHash` and `BytesToAddress` has it.
use tokenbridge_monitor.Base.{ℕ, ◌≡◌, Bytes, length}
use tokenbridge_monitor.Entity.{Address, Hash}

pub record Geth : Type 0 where
  pub keccak256_hash : Bytes → Hash
  pub bytes_to_hash : Bytes → Hash
  pub bytes_to_address : Bytes → Address
  pub big_to_hash : ℕ → Hash
  pub address_to_hash : Address → Hash

pub record ConvertsExactly (geth : Geth) : Type 0 where
  pub bytes_to_hash_id : (b : Bytes) → length b ≡ 32 → geth.bytes_to_hash b ≡ b
  pub bytes_to_address_id : (b : Bytes) → length b ≡ 20 → geth.bytes_to_address b ≡ b
