-- ===== src/Monitor/Decoders/ConfirmResult.antt =====
-- The result of a confirmed information request, read out of the call data.
use tokenbridge_monitor.Base.{
  ◌+◌, ◌^◌, ◌<◌, ◌≡◌, refl, [], ◌∷◌, Bytes, arith, length, concat, slice-concat,
}
use tokenbridge_monitor.Exec.{ok}
use tokenbridge_monitor.Monitor.Decoders.{add_uint32, unmarshal_confirm_information_result}
use tokenbridge_monitor.Monitor.Decoders.RoundTrip.{uint32_bytes, big_endian-bytes}

-- The arguments of the call that confirms an information request: the selector, two words, the
-- pointer to the result, what lies between, the size of the result, and the result.
abbrev pub layout_confirm : Bytes → Bytes → Bytes → Bytes → Bytes → Bytes
layout_confirm head between high result padding = concat (
    head
    ∷ uint32_bytes (96 + length between)
    ∷ between
    ∷ high
    ∷ uint32_bytes (length result)
    ∷ result
    ∷ padding
    ∷ [])

-- The result that a pointer of 32 bits in the call data leads to is the one that
-- unmarshalConfirmInformationResult recovers, provided that the head is the 96 bytes before the
-- pointer, that 28 bytes stand before the size, and that the end of the result is below 2^32.
pub unmarshal_confirm_information_result-layout :
    (head between high result padding : Bytes)
    → length head ≡ 96
    → length high ≡ 28
    → 200 + length between + length result < 2 ^ 32
    → unmarshal_confirm_information_result (layout_confirm head between high result padding)
      ≡ ok result
unfolding unmarshal_confirm_information_result
unmarshal_confirm_information_result-layout head between high result padding h u b =
    let ptr = uint32_bytes (96 + length between) in
    let size = uint32_bytes (length result) in
    let at : add_uint32 4 (96 + length between) ≡ 100 + length between = omega arith in
    let from : add_uint32 (100 + length between) 28 ≡ 128 + length between = omega arith in
    let to : add_uint32 (100 + length between) 32 ≡ 132 + length between = omega arith in
    let last : add_uint32 (132 + length between) (length result)
        ≡ 132 + length between + length result =
      omega arith in
    rw
      (
        slice-concat (head ∷ []) ptr (between ∷ high ∷ size ∷ result ∷ padding ∷ []) 96 100
            (omega arith) (omega arith),
        big_endian-bytes (96 + length between),
        at,
        from,
        to,
        slice-concat (head ∷ ptr ∷ between ∷ high ∷ []) size (result ∷ padding ∷ [])
            (128 + length between) (132 + length between) (omega arith) (omega arith),
        big_endian-bytes (length result),
        last,
        slice-concat (head ∷ ptr ∷ between ∷ high ∷ size ∷ []) result (padding ∷ [])
            (132 + length between) (132 + length between + length result) (omega arith)
            (omega arith),
      )
      refl
