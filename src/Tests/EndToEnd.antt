-- ===== src/Tests/EndToEnd.antt =====
-- Runs from one flow to the other, with the slice of src/rtmfp/data_chunk_heap.go replaced by a list.
use go_rtmfp.Prelude.{
  none, ◌≢◌, false, ℕ, ◌+◌, ◌≤◌, ◌≡◌, refl, false, some, List, [], ◌∷◌, add64, if◌then◌else◌, arith,
}
use go_rtmfp.DataChunk.{new_chunk, fc_whole, fc_begin}
use go_rtmfp.RangeQueue.{contain}
use go_rtmfp.Chunk.{ChunkCall, PacketContext}
use go_rtmfp.Chunk.Decode.{decode_userdata_chunk}
use go_rtmfp.Chunk.Encode.{send_userdata_body}
use go_rtmfp.Packet.Framing.{fresh}
use go_rtmfp.RecvFlow.Userdata.{Brings}
use go_rtmfp.Session.Flows.{Tables, Owner, find_flow, flow_call}
use go_rtmfp.Session.Routes.{flow_call-send_userdata_body}
use go_rtmfp.Tests.Codecs.{runtime}
use go_rtmfp.SendFlow.State.{SendFlow}
use go_rtmfp.SendFlow.Transmit.{enqueue, push_back}
use go_rtmfp.SendFlow.State.{next_seqnumber}
use go_rtmfp.RecvFlow.Userdata.{on_userdata_total}
use go_rtmfp.RecvFlow.State.{RecvFlow, read_message}
use go_rtmfp.RecvFlow.Order.{delivered}
use go_rtmfp.RecvFlow.Userdata.{IsSettled}
use go_rtmfp.RecvFlow.Events.{RecvEvent, userdata, buffer_probe, delack, received, run, new_flow}
use go_rtmfp.RecvFlow.Runs.{run_in_order}
use go_rtmfp.RecvFlow.Contents.{held, on_userdata-held}
use go_rtmfp.RecvFlow.EndToEnd.{send-read_message}
use go_rtmfp.Tests.Heap.{list_heap}
use go_rtmfp.Tests.Receives.{limits, gap_flow, gap_flow-IsSettled}
use go_rtmfp.Tests.Flows.{flow}

-- The chunk 2 comes before the chunk 1, which comes twice.
abbrev late_events : List RecvEvent
late_events =
    userdata fc_whole 2 (7 ∷ [])
    ∷ delack
    ∷ userdata fc_whole 1 (8 ∷ [])
    ∷ userdata fc_whole 1 (8 ∷ [])
    ∷ []

run_in_order_example :
    (f : RecvFlow list_heap) × (run list_heap limits late_events (new_flow list_heap 1) ≡ some f)
    × IsSettled list_heap f
    × ((p : ℕ) → contain f.recv_ranges p ≡ received p late_events)
    × ((p : ℕ) → delivered f.last_ordered_seqnum p ≤ (if received p late_events then 1 else 0))
    × (received (f.last_ordered_seqnum + 1) late_events ≡ false)
run_in_order_example = run_in_order list_heap limits 1 late_events (
  (omega arith, omega arith),
  (tt, ((omega arith, omega arith), ((omega arith, omega arith), tt))),
)

on_userdata-held_example :
    (f' : RecvFlow list_heap) × (held list_heap (λ c. c.seq_num) f'
      ≡ held list_heap (λ c. c.seq_num) gap_flow
        + (if contain gap_flow.recv_ranges 1 then 0 else 1))
on_userdata-held_example =
    let (f', e, b) =
      on_userdata_total list_heap limits gap_flow fc_begin 1 (7 ∷ 8 ∷ []) gap_flow-IsSettled
        (omega arith) (omega arith) in
    (f', on_userdata-held list_heap (λ c. c.seq_num) limits gap_flow f' fc_begin 1 (7 ∷ 8 ∷ []) e)

abbrev idle_flow : SendFlow
idle_flow = record flow { send_queue = []; last_seqnum = 0 }

abbrev message : List ℕ
message = 7 ∷ 8 ∷ 9 ∷ []

queued : (enqueue idle_flow message).send_queue ≡ new_chunk fc_whole 1 message ∷ []
unfolding enqueue push_back next_seqnumber add64
queued = refl

-- The one chunk of the message comes twice, and the alarm goes off before it.
abbrev message_events : List RecvEvent
message_events =
    delack ∷ userdata fc_whole 1 message ∷ buffer_probe ∷ userdata fc_whole 1 message ∷ []

send-read_message_example :
    (r : RecvFlow list_heap) × (run list_heap limits message_events (new_flow list_heap 4) ≡ some r)
    × ((read_message list_heap r).0 ≡ some message)
    × ((read_message list_heap r).1.ordered_recv_buf ≡ [])
send-read_message_example =
    send-read_message list_heap limits idle_flow message 4 message_events refl refl (omega arith)
      (omega arith) (rw queued (tt, (refl, (tt, (refl, tt))))) (rw queued (refl, tt))

-- A session that knows the flows 3 and 4.
abbrev pub tables : Tables list_heap
tables = record {
  other_addr = 1 ∷ [];
  last_flowid = 0;
  send_flows = [];
  recv_flows = (3, gap_flow) ∷ (4, gap_flow) ∷ [];
  mobile_tx_ts = 0;
  sent = [];
}

abbrev no_owner : Owner list_heap
no_owner = record { create_recv_flow = none; recv_close_request = none }

flow_4 : find_flow 4 tables.recv_flows ≡ some gap_flow
unfolding find_flow
flow_4 = refl

flow_call-send_userdata_body_example :
    (call : ChunkCall) × (cxt : PacketContext) × (t : Tables list_heap) × (f : RecvFlow list_heap)
    × (decode_userdata_chunk runtime
          (send_userdata_body fc_begin 4 1 1 (7 ∷ 8 ∷ []) none false false)
          fresh
        ≡ some (call, cxt))
    × (flow_call list_heap limits no_owner 0 (1 ∷ []) call tables ≡ some t)
    × (find_flow 4 t.recv_flows ≡ some f)
    × Brings list_heap 1 gap_flow f
    × ((id : ℕ) → id ≢ 4 → find_flow id t.recv_flows ≡ find_flow id tables.recv_flows)
    × (t.send_flows ≡ [])
flow_call-send_userdata_body_example =
    flow_call-send_userdata_body list_heap limits runtime fc_begin 4 1 1 (7 ∷ 8 ∷ []) none false
      false fresh no_owner 0 (1 ∷ []) tables gap_flow (omega arith) (omega arith) (omega arith) tt
      flow_4 gap_flow-IsSettled (omega arith) (omega arith)
