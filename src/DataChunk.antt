-- ===== src/DataChunk.antt =====
-- `data_chunk` of src/rtmfp/base.go, the fragment controls and sizes of src/rtmfp/flow.go, and the
-- variables of the package that a `Transport` can set.
use go_rtmfp.Prelude.{ℕ, ◌*◌, ◌-◌, ◌^◌, ◌%◌, Bool, false, List, length}

abbrev pub smss : ℕ
smss = 1460

abbrev pub init_recv_wnd : ℕ
init_recv_wnd = smss * 30

abbrev pub init_cong_wnd : ℕ
init_cong_wnd = smss * 3

abbrev pub timeout_cong_wnd : ℕ
timeout_cong_wnd = smss

-- `^uint(0)`
abbrev pub init_ssthresh : ℕ
init_ssthresh = 2 ^ 64 - 1

abbrev pub max_data_chunk_resend_count : ℕ
max_data_chunk_resend_count = 10

abbrev pub fc_whole : ℕ
fc_whole = 0

abbrev pub fc_begin : ℕ
fc_begin = 1

abbrev pub fc_middle : ℕ
fc_middle = 3

abbrev pub fc_end : ℕ
fc_end = 2

-- The field `data` is `payload` here.
pub record DataChunk : Type 0 where
  pub frag_ctrl : ℕ
  pub seq_num : ℕ
  pub payload : List ℕ
  pub send_count : ℕ
  pub in_flight : Bool
  pub tsn : ℕ
  pub nak_count : ℕ

-- `&data_chunk{fragCtrl: …, seqNum: …, data: …}`
abbrev pub new_chunk : ℕ → ℕ → List ℕ → DataChunk
new_chunk ctrl seq buf = record {
  frag_ctrl = ctrl;
  seq_num = seq;
  payload = buf;
  send_count = 0;
  in_flight = false;
  tsn = 0;
  nak_count = 0;
}

-- `uint(len(chunk.data))`
abbrev pub chunk_len : DataChunk → ℕ
chunk_len c = length c.payload % 2 ^ 64

pub record Globals : Type 0 where
  pub fastgrow_allowed : Bool
  pub is_time_critical : Bool
  pub max_recv_buf_size : ℕ
