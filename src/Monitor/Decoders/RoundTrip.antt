-- ===== src/Monitor/Decoders/RoundTrip.antt =====
-- A message that is laid out as the bridge contracts lay it out is decoded to what it was made of.
use tokenbridge_monitor.Base.{
  ℕ, ◌+◌, ◌/◌, ◌%◌, ◌^◌, ◌≤◌, ◌≡◌, refl, String, [], ◌∷◌, Bytes, arith, length, concat,
  slice-concat, slice_rest-concat, get_elem?-concat,
}
use tokenbridge_monitor.Entity.{Direction, Message, Address, Hash}
use tokenbridge_monitor.Geth.{Geth, ConvertsExactly}
use tokenbridge_monitor.Exec.{ok}
use tokenbridge_monitor.Monitor.Decoders.{
  big_endian_uint32, message_v4, message_v5, unmarshal_message, unmarshal_legacy_message,
  legacy_message,
}

-- The four bytes of a number below 2^32.
abbrev pub uint32_bytes : ℕ → Bytes
uint32_bytes n = n / 2 ^ 24 ∷ n / 2 ^ 16 % 256 ∷ n / 2 ^ 8 % 256 ∷ n % 256 ∷ []

pub big_endian-bytes : (n : ℕ) → big_endian_uint32 (uint32_bytes n) ≡ n
unfolding big_endian_uint32
big_endian-bytes n = omega arith

-- What a message is made of. `id_rest` is its id after the four bytes of the version; `reserved` is
-- the 28 upper bytes of a legacy gas limit.
pub record Parts : Type 0 where
  pub id_rest : Bytes
  pub sender : Address
  pub executor : Address
  pub gas_limit : ℕ
  pub data_type : ℕ
  pub payload : Bytes

pub record HasLengths (p : Parts) : Type 0 where
  pub id_length : length p.id_rest ≡ 28
  pub sender_length : length p.sender ≡ 20
  pub executor_length : length p.executor ≡ 20

abbrev pub id_v5 : Parts → Hash
id_v5 p = 0 ∷ 5 ∷ 0 ∷ 0 ∷ p.id_rest

abbrev pub id_v4 : Parts → Hash
id_v4 p = 0 ∷ 4 ∷ 0 ∷ 0 ∷ p.id_rest

-- Version 5, where `source` and `target` are the two chain ids.
abbrev pub layout_v5 : Parts → Bytes → Bytes → Bytes
layout_v5 p source target = concat (
    id_v5 p
    ∷ p.sender
    ∷ p.executor
    ∷ uint32_bytes p.gas_limit
    ∷ (length source ∷ [])
    ∷ (length target ∷ [])
    ∷ (p.data_type ∷ [])
    ∷ source
    ∷ target
    ∷ p.payload
    ∷ [])

module _ (geth : Geth) (bridge_id : String) (direction : Direction) where
  abbrev pub decoded : Hash → ℕ → Bytes → Bytes → Parts → Message
  decoded message_id data_type payload encoded p = record {
    bridge_id = bridge_id;
    msg_hash = geth.keccak256_hash encoded;
    message_id = message_id;
    direction = direction;
    sender = p.sender;
    executor = p.executor;
    payload = payload;
    data_type = data_type;
    gas_limit = p.gas_limit;
    raw_message = encoded;
  }

module _ (geth : Geth) (laws : ConvertsExactly geth) (bridge_id : String)
    (direction : Direction) where
  -- unmarshalMessage recovers the parts of a version 5 message, provided that they have their
  -- lengths and that the two chain ids have at most 176 bytes together.
  pub unmarshal_message-layout_v5 :
      (p : Parts) (source target : Bytes)
      → HasLengths p
      → length source + length target ≤ 176
      → unmarshal_message geth bridge_id direction (layout_v5 p source target)
        ≡ ok (
            decoded geth bridge_id direction
              (id_v5 p)
              p.data_type
              p.payload
              (layout_v5 p source target)
              p)
  unfolding unmarshal_message message_v5
  unmarshal_message-layout_v5 p source target h b =
      let gas = uint32_bytes p.gas_limit in
      let s = length source ∷ [] in
      let t = length target ∷ [] in
      let d = p.data_type ∷ [] in
      let tail = source ∷ target ∷ p.payload ∷ [] in
      let offset : (79 + length source + length target) % 256 ≡ 79 + length source + length target =
        omega arith in
      rw
        (
          slice-concat [] (id_v5 p) (p.sender ∷ p.executor ∷ gas ∷ s ∷ t ∷ d ∷ tail) 0 32 refl
              (omega (arith, h.id_length)),
          laws.bytes_to_hash_id (id_v5 p) (omega (arith, h.id_length)),
          slice-concat (id_v5 p ∷ []) p.sender (p.executor ∷ gas ∷ s ∷ t ∷ d ∷ tail) 32 52
              (omega (arith, h.id_length)) (omega (arith, h.sender_length)),
          slice-concat (id_v5 p ∷ p.sender ∷ []) p.executor (gas ∷ s ∷ t ∷ d ∷ tail) 52 72
              (omega (arith, h.id_length, h.sender_length)) (omega (arith, h.executor_length)),
          slice-concat (id_v5 p ∷ p.sender ∷ p.executor ∷ []) gas (s ∷ t ∷ d ∷ tail) 72 76
              (omega (arith, h.id_length, h.sender_length, h.executor_length)) (omega arith),
          get_elem?-concat (id_v5 p ∷ p.sender ∷ p.executor ∷ gas ∷ s ∷ t ∷ []) p.data_type [] tail
              78 (omega (arith, h.id_length, h.sender_length, h.executor_length)),
          get_elem?-concat (id_v5 p ∷ p.sender ∷ p.executor ∷ gas ∷ []) (length source) []
              (t ∷ d ∷ tail) 76 (omega (arith, h.id_length, h.sender_length, h.executor_length)),
          get_elem?-concat (id_v5 p ∷ p.sender ∷ p.executor ∷ gas ∷ s ∷ []) (length target) []
              (d ∷ tail) 77 (omega (arith, h.id_length, h.sender_length, h.executor_length)),
          offset,
          slice_rest-concat
              (id_v5 p ∷ p.sender ∷ p.executor ∷ gas ∷ s ∷ t ∷ d ∷ source ∷ target ∷ []) p.payload
              (79 + length source + length target)
              (omega (arith, h.id_length, h.sender_length, h.executor_length)),
          laws.bytes_to_address_id p.sender h.sender_length,
          laws.bytes_to_address_id p.executor h.executor_length,
          big_endian-bytes p.gas_limit,
        )
        refl

-- Version 4: the id is followed by a word that the monitor does not read.
abbrev pub layout_v4 : Parts → Bytes → Bytes
layout_v4 p word = concat (
    id_v4 p
    ∷ word
    ∷ p.sender
    ∷ p.executor
    ∷ uint32_bytes p.gas_limit
    ∷ (p.data_type ∷ p.payload)
    ∷ [])

-- A legacy message: the gas limit is a word, of which `reserved` is the upper 28 bytes.
abbrev pub layout_legacy : Parts → Hash → Bytes → Bytes
layout_legacy p transaction_hash reserved = concat (
    transaction_hash
    ∷ p.sender
    ∷ p.executor
    ∷ reserved
    ∷ uint32_bytes p.gas_limit
    ∷ (0 ∷ [])
    ∷ p.payload
    ∷ [])

module _ (geth : Geth) (laws : ConvertsExactly geth) (bridge_id : String)
    (direction : Direction) where
  -- Of a version 4 message unmarshalMessage recovers the parts, provided that they have their
  -- lengths; its data is the payload with the byte of the data type before it.
  pub unmarshal_message-layout_v4 :
      (p : Parts) (word : Bytes)
      → HasLengths p
      → length word ≡ 32
      → unmarshal_message geth bridge_id direction (layout_v4 p word)
        ≡ ok (
            decoded geth bridge_id direction
              (id_v4 p)
              p.data_type
              (p.data_type ∷ p.payload)
              (layout_v4 p word)
              p)
  unfolding unmarshal_message message_v4
  unmarshal_message-layout_v4 p word h w =
      let gas = uint32_bytes p.gas_limit in
      let d = p.data_type ∷ p.payload in
      rw
        (
          slice-concat [] (id_v4 p) (word ∷ p.sender ∷ p.executor ∷ gas ∷ d ∷ []) 0 32 refl
              (omega (arith, h.id_length)),
          laws.bytes_to_hash_id (id_v4 p) (omega (arith, h.id_length)),
          slice-concat (id_v4 p ∷ word ∷ []) p.sender (p.executor ∷ gas ∷ d ∷ []) 64 84
              (omega (arith, h.id_length)) (omega (arith, h.sender_length)),
          slice-concat (id_v4 p ∷ word ∷ p.sender ∷ []) p.executor (gas ∷ d ∷ []) 84 104
              (omega (arith, h.id_length, h.sender_length)) (omega (arith, h.executor_length)),
          slice-concat (id_v4 p ∷ word ∷ p.sender ∷ p.executor ∷ []) gas (d ∷ []) 104 108
              (omega (arith, h.id_length, h.sender_length, h.executor_length)) (omega arith),
          get_elem?-concat (id_v4 p ∷ word ∷ p.sender ∷ p.executor ∷ gas ∷ []) p.data_type p.payload
              [] 108 (omega (arith, h.id_length, h.sender_length, h.executor_length)),
          slice_rest-concat (id_v4 p ∷ word ∷ p.sender ∷ p.executor ∷ gas ∷ []) d 108
              (omega (arith, h.id_length, h.sender_length, h.executor_length)),
          laws.bytes_to_address_id p.sender h.sender_length,
          laws.bytes_to_address_id p.executor h.executor_length,
          big_endian-bytes p.gas_limit,
        )
        refl

  -- unmarshalLegacyMessage recovers the parts of a legacy message of data type 0, its transaction
  -- hash as its id, provided that they have their lengths.
  pub unmarshal_legacy_message-layout :
      (p : Parts) (transaction_hash reserved : Bytes)
      → HasLengths p
      → length transaction_hash ≡ 32
      → length reserved ≡ 28
      → unmarshal_legacy_message geth bridge_id direction
          (layout_legacy p transaction_hash reserved)
        ≡ ok (
            decoded geth bridge_id direction transaction_hash 0 p.payload
              (layout_legacy p transaction_hash reserved)
              p)
  unfolding unmarshal_legacy_message legacy_message
  unmarshal_legacy_message-layout p id reserved h i r =
      let gas = uint32_bytes p.gas_limit in
      let tail = (0 ∷ []) ∷ p.payload ∷ [] in
      rw
        (
          get_elem?-concat (id ∷ p.sender ∷ p.executor ∷ reserved ∷ gas ∷ []) 0 [] (p.payload ∷ [])
              104 (omega (arith, h.sender_length, h.executor_length)),
          slice-concat [] id (p.sender ∷ p.executor ∷ reserved ∷ gas ∷ tail) 0 32 refl
              (omega arith),
          slice-concat (id ∷ []) p.sender (p.executor ∷ reserved ∷ gas ∷ tail) 32 52 (omega arith)
              (omega (arith, h.sender_length)),
          slice-concat (id ∷ p.sender ∷ []) p.executor (reserved ∷ gas ∷ tail) 52 72
              (omega (arith, h.sender_length)) (omega (arith, h.executor_length)),
          slice-concat (id ∷ p.sender ∷ p.executor ∷ reserved ∷ []) gas tail 100 104
              (omega (arith, h.sender_length, h.executor_length)) (omega arith),
          slice_rest-concat (id ∷ p.sender ∷ p.executor ∷ reserved ∷ gas ∷ (0 ∷ []) ∷ []) p.payload
              105 (omega (arith, h.sender_length, h.executor_length)),
          laws.bytes_to_hash_id id i,
          laws.bytes_to_address_id p.sender h.sender_length,
          laws.bytes_to_address_id p.executor h.executor_length,
          big_endian-bytes p.gas_limit,
        )
        refl
