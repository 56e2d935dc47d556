-- ===== src/Tests/Creations.antt =====
-- Streams that `CreateBiStream` of src/rtmfp/transport.go opens, with small numbers.
use go_rtmfp.Prelude.{ℕ}
use go_rtmfp.SendFlow.State.{SendFlow}
use go_rtmfp.NetStream.{KeyOrder, level_code_description}

abbrev orders : ℕ → KeyOrder
orders n = level_code_description
