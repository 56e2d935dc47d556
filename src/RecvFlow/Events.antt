-- ===== src/RecvFlow/Events.antt =====
-- Sequences of events at a `recv_flow` of src/rtmfp/flow.go: data chunks in any order, lost and
-- repeated ones, buffer probes, the alarm of delayed acknowledgements, and reads.
use go_rtmfp.Prelude.{
  ℕ, ◌+◌, ◌^◌, ◌<◌, Bool, true, false, ◌||◌, Option, some, List, [], ◌∷◌, ◌>>=◌, ◌==◌,
}
use go_rtmfp.DataChunk.{Globals}
use go_rtmfp.ChunkHeap.{ChunkHeap}
use go_rtmfp.RecvFlow.State.{RecvFlow, open_flow, send_ack, on_buffer_probe, read_message}
use go_rtmfp.RecvFlow.Receive.{on_userdata}

pub data RecvEvent : Type 0 where
  userdata : (ctrl seq : ℕ) (buf : List ℕ) → RecvEvent
  buffer_probe : RecvEvent
  delack : RecvEvent
  read : RecvEvent

-- The sequence number is one that a sender gives.
abbrev pub IsSent : RecvEvent → Type 0
IsSent (userdata ctrl seq buf) = (0 < seq) × (seq + 1 < 2 ^ 63)
IsSent buffer_probe = Unit {0}
IsSent delack = Unit {0}
IsSent read = Unit {0}

abbrev pub brings : ℕ → RecvEvent → Bool
brings p (userdata ctrl seq buf) = p == seq
brings p buffer_probe = false
brings p delack = false
brings p read = false

-- Some event of the list brings the number.
abbrev pub received : ℕ → List RecvEvent → Bool
received p [] = false
received p (e ∷ es) = brings p e || received p es

module _ (H : ChunkHeap) (g : Globals) where
  -- An alarm that was stopped does nothing.
  unfoldable pub fire : Bool → RecvFlow H → Option (RecvFlow H)
  fire true f = send_ack H g f
  fire false f = some f

  unfoldable pub handle : RecvEvent → RecvFlow H → Option (RecvFlow H)
  unfolding fire
  handle (userdata ctrl seq buf) f = on_userdata H g f ctrl seq buf
  handle buffer_probe f = on_buffer_probe H g f
  handle delack f = fire f.delack_alarm f
  handle read f = some (read_message H f).1

  unfoldable pub run : List RecvEvent → RecvFlow H → Option (RecvFlow H)
  unfolding handle
  run [] f = some f
  run (e ∷ es) f = handle e f >>= run es

-- The flow that `new_recv_flow` of src/rtmfp/session.go makes.
unfoldable pub new_flow : (H : ChunkHeap) → ℕ → RecvFlow H
unfolding open_flow
new_flow H flowid = open_flow H (record {
  flowid = flowid;
  ordered_recv_buf = [];
  unordered_recv_buf = H.create;
  ordered_recved_bytes = 0;
  unordered_recv_buf_bytes = 0;
  recv_ranges = [];
  rx_data_packets = 0;
  prev_rwnd = 0;
  last_ordered_seqnum = 0;
  delack_alarm = false;
  signals = 0;
  closed = false;
  acks = [];
})
