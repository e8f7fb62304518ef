-- ===== src/Monitor/Decoders.antt =====
-- monitor/decoders.go: messages and call results from their bytes. A slice or an index out of range
-- is a panic. `uint8` and `uint32` arithmetic wraps.
pub mod RoundTrip
pub mod ConfirmResult
use tokenbridge_monitor.Base.{
  ℕ, zero, suc, ◌+◌, ◌*◌, ◌%◌, ◌^◌, String, Option, none, some, List, [], ◌∷◌, Bytes, ltb,
  bytes_beq, take, length, get_elem?, slice, if◌then◌else◌,
}
use tokenbridge_monitor.Entity.{Direction, Message}
use tokenbridge_monitor.Geth.{Geth}
use tokenbridge_monitor.Exec.{Result, ok, err, panic}

infixl 10 ◌>>=◌
abbrev ◌>>=◌ : {A B : Type 0} → Result A → (A → Result B) → Result B
ok a >>= f = f a
err e >>= f = err e
panic >>= f = panic

abbrev or_panic : {A : Type 0} → Option A → Result A
or_panic none = panic
or_panic (some a) = ok a

-- `b[from:to]`, `b[from:]` and `b[i]`
abbrev part : Bytes → ℕ → ℕ → Result Bytes
part b from to = or_panic (slice from to b)

abbrev rest : Bytes → ℕ → Result Bytes
rest b from = or_panic (slice from (length b) b)

abbrev byte_at : Bytes → ℕ → Result ℕ
byte_at b i = or_panic (get_elem? b i)

-- `binary.BigEndian.Uint32` on four bytes.
unfoldable pub big_endian_uint32 : Bytes → ℕ
big_endian_uint32 (a ∷ b ∷ c ∷ d ∷ _) = a * 2 ^ 24 + b * 2 ^ 16 + c * 2 ^ 8 + d
big_endian_uint32 _ = 0

module _ (geth : Geth) (bridge_id : String) (direction : Direction) where
  -- Prefix 00040000.
  message_v4 : Bytes → Bytes → Result Message
  unfolding big_endian_uint32
  message_v4 message_id encoded = do
    sender ← part encoded 64 84
    executor ← part encoded 84 104
    gas ← part encoded 104 108
    data_type ← byte_at encoded 108
    payload ← rest encoded 108
    ok (record {
      bridge_id = bridge_id;
      msg_hash = geth.keccak256_hash encoded;
      message_id = message_id;
      direction = direction;
      sender = geth.bytes_to_address sender;
      executor = geth.bytes_to_address executor;
      payload = payload;
      data_type = data_type;
      gas_limit = big_endian_uint32 gas;
      raw_message = encoded;
    })

  -- Prefix 00050000. The offset of the data is a sum of bytes, so a byte itself.
  message_v5 : Bytes → Bytes → Result Message
  unfolding big_endian_uint32
  message_v5 message_id encoded = do
    sender ← part encoded 32 52
    executor ← part encoded 52 72
    gas ← part encoded 72 76
    data_type ← byte_at encoded 78
    source_length ← byte_at encoded 76
    target_length ← byte_at encoded 77
    payload ← rest encoded ((79 + source_length + target_length) % 256)
    ok (record {
      bridge_id = bridge_id;
      msg_hash = geth.keccak256_hash encoded;
      message_id = message_id;
      direction = direction;
      sender = geth.bytes_to_address sender;
      executor = geth.bytes_to_address executor;
      payload = payload;
      data_type = data_type;
      gas_limit = big_endian_uint32 gas;
      raw_message = encoded;
    })

  abbrev message_of_version : Bytes → Bytes → Result Message
  message_of_version message_id encoded =
      if bytes_beq (take 4 message_id) (0 ∷ 4 ∷ 0 ∷ 0 ∷ [])
      then message_v4 message_id encoded
      else if bytes_beq (take 4 message_id) (0 ∷ 5 ∷ 0 ∷ 0 ∷ [])
      then message_v5 message_id encoded
      else panic

  unfoldable pub unmarshal_message : Bytes → Result Message
  unfolding message_v4 message_v5
  unmarshal_message encoded = do
    prefix ← part encoded 0 32
    message_of_version (geth.bytes_to_hash prefix) encoded

  legacy_message : ℕ → Bytes → Result Message
  unfolding big_endian_uint32
  legacy_message data_type encoded = if ltb 0 data_type then panic else do
    message_id ← part encoded 0 32
    sender ← part encoded 32 52
    executor ← part encoded 52 72
    gas ← part encoded 100 104
    payload ← rest encoded 105
    ok (record {
      bridge_id = bridge_id;
      msg_hash = geth.keccak256_hash encoded;
      message_id = geth.bytes_to_hash message_id;
      direction = direction;
      sender = geth.bytes_to_address sender;
      executor = geth.bytes_to_address executor;
      payload = payload;
      data_type = 0;
      gas_limit = big_endian_uint32 gas;
      raw_message = encoded;
    })

  unfoldable pub unmarshal_legacy_message : Bytes → Result Message
  unfolding legacy_message
  unmarshal_legacy_message encoded = do
    data_type ← byte_at encoded 104
    legacy_message data_type encoded

abbrev add_uint32 : ℕ → ℕ → ℕ
add_uint32 a b = (a + b) % 2 ^ 32

unfoldable pub unmarshal_confirm_information_result : Bytes → Result Bytes
unfolding big_endian_uint32
unmarshal_confirm_information_result calldata = do
  pointer ← part calldata 96 100
  let result_ptr = add_uint32 4 (big_endian_uint32 pointer)
  size ← part calldata (add_uint32 result_ptr 28) (add_uint32 result_ptr 32)
  let result_len = big_endian_uint32 size
  part calldata (add_uint32 result_ptr 32) (add_uint32 (add_uint32 result_ptr 32) result_len)
