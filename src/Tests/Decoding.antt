-- ===== src/Tests/Decoding.antt =====
-- Messages and call results decoded.
use tokenbridge_monitor.Base.{◌≡◌, refl, arith, [], ◌∷◌}
use tokenbridge_monitor.Entity.{foreign_to_home}
use tokenbridge_monitor.Exec.{ok}
use tokenbridge_monitor.Monitor.Decoders.{
  unmarshal_message, unmarshal_legacy_message, unmarshal_confirm_information_result,
}
use tokenbridge_monitor.Monitor.Decoders.RoundTrip.{
  Parts, HasLengths, decoded, id_v5, id_v4, layout_v5, layout_v4, layout_legacy,
  unmarshal_message-layout_v5, unmarshal_message-layout_v4, unmarshal_legacy_message-layout,
}
use tokenbridge_monitor.Monitor.Decoders.ConfirmResult.{
  layout_confirm, unmarshal_confirm_information_result-layout,
}
use tokenbridge_monitor.Tests.Values.{some_geth, some_geth-ConvertsExactly, bytes_of}

abbrev some_parts : Parts
some_parts = record {
  id_rest = bytes_of 28 9;
  sender = bytes_of 20 1;
  executor = bytes_of 20 2;
  gas_limit = 70000;
  data_type = 0;
  payload = 170 ∷ 187 ∷ [];
}

some_parts-HasLengths : HasLengths some_parts
some_parts-HasLengths = record { id_length = refl; sender_length = refl; executor_length = refl }

unmarshal_message-layout_v5_example :
    unmarshal_message some_geth "test-amb" foreign_to_home
      (layout_v5 some_parts (42 ∷ []) (100 ∷ []))
    ≡ ok (
        decoded some_geth "test-amb" foreign_to_home
          (id_v5 some_parts)
          0
          (170 ∷ 187 ∷ [])
          (layout_v5 some_parts (42 ∷ []) (100 ∷ []))
          some_parts)
unmarshal_message-layout_v5_example =
    unmarshal_message-layout_v5 some_geth some_geth-ConvertsExactly "test-amb" foreign_to_home
      some_parts (42 ∷ []) (100 ∷ []) some_parts-HasLengths (omega arith)

unmarshal_message-layout_v4_example :
    unmarshal_message some_geth "test-amb" foreign_to_home (layout_v4 some_parts (bytes_of 32 3))
    ≡ ok (
        decoded some_geth "test-amb" foreign_to_home
          (id_v4 some_parts)
          0
          (0 ∷ 170 ∷ 187 ∷ [])
          (layout_v4 some_parts (bytes_of 32 3))
          some_parts)
unmarshal_message-layout_v4_example =
    unmarshal_message-layout_v4 some_geth some_geth-ConvertsExactly "test-amb" foreign_to_home
      some_parts (bytes_of 32 3) some_parts-HasLengths refl

unmarshal_legacy_message-layout_example :
    unmarshal_legacy_message some_geth "test-amb" foreign_to_home
      (layout_legacy some_parts (bytes_of 32 7) (bytes_of 28 0))
    ≡ ok (
        decoded some_geth "test-amb" foreign_to_home
          (bytes_of 32 7)
          0
          (170 ∷ 187 ∷ [])
          (layout_legacy some_parts (bytes_of 32 7) (bytes_of 28 0))
          some_parts)
unmarshal_legacy_message-layout_example =
    unmarshal_legacy_message-layout some_geth some_geth-ConvertsExactly "test-amb" foreign_to_home
      some_parts (bytes_of 32 7) (bytes_of 28 0) some_parts-HasLengths refl refl

unmarshal_confirm_information_result-layout_example :
    unmarshal_confirm_information_result
      (layout_confirm (bytes_of 96 1) [] (bytes_of 28 0) (170 ∷ 187 ∷ []) (bytes_of 30 0))
    ≡ ok (170 ∷ 187 ∷ [])
unmarshal_confirm_information_result-layout_example =
    unmarshal_confirm_information_result-layout (bytes_of 96 1) [] (bytes_of 28 0) (170 ∷ 187 ∷ [])
      (bytes_of 30 0) refl refl (omega arith)
