-- ===== src/Tests/Receives.antt =====
-- Runs of the receiving half of src/rtmfp/flow.go, with the list as its heap.
use go_rtmfp.Prelude.{ℕ, ltb, ◌/◌, ◌*◌, ◌≡◌, refl, true, false, some, [], ◌∷◌, arith, add64}
use go_rtmfp.DataChunk.{new_chunk, Globals, fc_begin, fc_end}
use go_rtmfp.Range.{range_contain, range_end}
use go_rtmfp.RangeQueue.{contain}
use go_rtmfp.ChunkHeap.{total, has_seq}
use go_rtmfp.RecvFlow.State.{RangeAck, RecvFlow, send_ack, read_message}
use go_rtmfp.RecvFlow.Receive.{on_userdata}
use go_rtmfp.RecvFlow.Message.{IsBuffered, read_message_whole}
use go_rtmfp.RecvFlow.Order.{IsTracked}
use go_rtmfp.RecvFlow.Delivery.{Reports, Same, send_ack_total}
use go_rtmfp.RecvFlow.Userdata.{IsSettled, Brings, on_userdata_total}
use go_rtmfp.RecvFlow.Wire.{send_ack_wire}
use go_rtmfp.RecvFlow.State.{available_buffers}
use go_rtmfp.Chunk.{recv_range_ack}
use go_rtmfp.Chunk.Decode.{decode_range_ack_chunk}
use go_rtmfp.Chunk.Encode.{send_range_ack_body}
use go_rtmfp.Tests.Heap.{list_heap}

abbrev pub limits : Globals
limits = record { fastgrow_allowed = false; is_time_critical = false; max_recv_buf_size = 1048576 }

-- A flow that has the chunk 2, which waits for the chunk 1.
abbrev pub gap_flow : RecvFlow list_heap
gap_flow = record {
  flowid = 1;
  ordered_recv_buf = [];
  unordered_recv_buf = new_chunk fc_end 2 (9 ∷ []) ∷ [];
  ordered_recved_bytes = 0;
  unordered_recv_buf_bytes = 1;
  recv_ranges = record { pos = 2; len = 1 } ∷ [];
  rx_data_packets = 1;
  prev_rwnd = 1024;
  last_ordered_seqnum = 0;
  delack_alarm = true;
  signals = 0;
  closed = false;
  acks = [];
}

gap_flow-IsTracked : IsTracked list_heap gap_flow
unfolding contain range_contain range_end add64
gap_flow-IsTracked = record {
  tracked = λ p. ground arith;
  valid = (omega arith, record { nonempty = omega arith; fits = omega arith }, tt);
  waiting = refl;
  buffered = refl;
}

pub gap_flow-IsSettled : IsSettled list_heap gap_flow
gap_flow-IsSettled = record {
  tracked = gap_flow-IsTracked;
  no_zero = unfold contain range_contain range_end in refl;
  idle = refl;
}

on_userdata_total_example :
    (f' : RecvFlow list_heap) × (on_userdata list_heap limits gap_flow fc_begin 1 (7 ∷ 8 ∷ [])
      ≡ some f')
    × Brings list_heap 1 gap_flow f'
on_userdata_total_example =
    on_userdata_total list_heap limits gap_flow fc_begin 1 (7 ∷ 8 ∷ []) gap_flow-IsSettled
      (omega arith) (omega arith)

send_ack_total_example :
    (f' : RecvFlow list_heap) × (a : RangeAck) × (send_ack list_heap limits gap_flow ≡ some f')
    × (f'.acks ≡ a ∷ [])
    × Reports list_heap limits gap_flow a
    × Same list_heap gap_flow f'
    × (f'.delack_alarm ≡ false)
send_ack_total_example = send_ack_total list_heap limits gap_flow gap_flow-IsTracked

-- A flow with a message of two chunks and the begin of another.
abbrev full_flow : RecvFlow list_heap
full_flow = record gap_flow {
  ordered_recv_buf =
      new_chunk fc_begin 1 (7 ∷ 8 ∷ [])
      ∷ new_chunk fc_end 2 (9 ∷ [])
      ∷ new_chunk fc_begin 3 (5 ∷ [])
      ∷ [];
  ordered_recved_bytes = 4;
  unordered_recv_buf = [];
  unordered_recv_buf_bytes = 0;
}

read_message_whole_example :
    ((read_message list_heap full_flow).0 ≡ some (7 ∷ 8 ∷ 9 ∷ []))
    × ((read_message list_heap full_flow).1.ordered_recv_buf ≡ new_chunk fc_begin 3 (5 ∷ []) ∷ [])
    × IsBuffered list_heap (read_message list_heap full_flow).1
read_message_whole_example =
    read_message_whole list_heap full_flow 1
      (new_chunk fc_begin 1 (7 ∷ 8 ∷ []) ∷ new_chunk fc_end 2 (9 ∷ []) ∷ [])
      (new_chunk fc_begin 3 (5 ∷ []) ∷ []) refl (refl, refl, (refl, refl)) (omega arith) refl

send_ack_wire_example :
    (f' : RecvFlow list_heap) × (a : RangeAck) × (send_ack list_heap limits gap_flow ≡ some f')
    × (f'.acks ≡ a ∷ [])
    × (decode_range_ack_chunk (send_range_ack_body a.flowid a.buf_avail a.cum_ack a.recv_ranges)
        ≡ recv_range_ack 1
            (available_buffers list_heap limits gap_flow / 1024 * 1024)
            0
            a.recv_ranges)
    × ((p : ℕ)
        → contain a.recv_ranges p ≡ ltb 0 (total (has_seq p) (new_chunk fc_end 2 (9 ∷ []) ∷ [])))
send_ack_wire_example = send_ack_wire list_heap limits gap_flow gap_flow-IsSettled (omega arith)
