-- ===== src/Transport/Creating.antt =====
-- What `CreateBiStream` of src/rtmfp/transport.go does on a session that opens, as the far end answers.
use go_rtmfp.ChunkHeap.{ChunkHeap}
use go_rtmfp.SendFlow.State.{SendFlow}
use go_rtmfp.Handshake.{Handshake}
