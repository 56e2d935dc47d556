-- ===== src/Tests/Streams.antt =====
-- Runs of the opening of a stream in src/rtmfp/bi_stream.go, at both ends.
use go_rtmfp.Prelude.{ℕ, ◌≡◌, refl, false, none, some, List, [], ◌∷◌, arith}
use go_rtmfp.Chunk.{recv_userdata}
use go_rtmfp.Chunk.Decode.{decode_userdata_chunk}
use go_rtmfp.Chunk.Encode.{send_userdata_body}
use go_rtmfp.Packet.Framing.{fresh}
use go_rtmfp.SendFlow.State.{SendFlow}
use go_rtmfp.SendFlow.Transmit.{flow_options}
use go_rtmfp.RecvFlow.State.{RecvFlow}
use go_rtmfp.Session.Flows.{Tables, find_flow}
use go_rtmfp.NetStream.Opening.{no_flows, Timeouts, Opening, net_passive_open, create_active_flow}
use go_rtmfp.NetStream.Attach.{Attaches, create_active_flow-Attaches}
use go_rtmfp.Tests.Codecs.{runtime}
use go_rtmfp.Tests.Heap.{list_heap}
use go_rtmfp.Tests.EndToEnd.{tables}

abbrev pub times : Timeouts
times = record { erto = 3000000000; mrto = 250000 }

-- A stream that plays on the flow 4 and has no flow of replies.
abbrev playing : Opening
playing = record {
  net = some (record { send_flowid = some 4; recv_flowid = none });
  active_flowid = 4;
  dispatchers = 0;
}

create_active_flow-Attaches_example :
    let far = (net_passive_open list_heap times 4 no_flows tables).1 in
    (f : SendFlow) × (opts : List ℕ) × (s : Opening) × (t : Tables list_heap) × (r : RecvFlow
      list_heap)
    × (find_flow far.last_flowid far.send_flows ≡ some f)
    × (flow_options f ≡ some opts)
    × (decode_userdata_chunk runtime
          (send_userdata_body 1 far.last_flowid 1 1 (7 ∷ 8 ∷ []) (some opts) false false)
          fresh
        ≡ some (
          recv_userdata 1 far.last_flowid 1 1 (7 ∷ 8 ∷ []) (some opts) false false,
          record { last_flowid = far.last_flowid; last_seqnum = 1; last_fsn_offset = 1 },
        ))
    × (create_active_flow list_heap (some opts) far.last_flowid playing tables
        ≡ some (s, t, some r))
    × Attaches list_heap far.last_flowid playing s tables t r
create_active_flow-Attaches_example =
    create_active_flow-Attaches list_heap times runtime 4 1 1 (7 ∷ 8 ∷ []) fresh playing
      (record { send_flowid = some 4; recv_flowid = none }) tables tables (omega arith)
      (omega arith) (omega arith) (omega arith) (omega arith) refl refl refl
