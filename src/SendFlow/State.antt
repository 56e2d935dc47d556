-- ===== src/SendFlow/State.antt =====
-- The state of `send_flow` (src/rtmfp/flow.go) with the fields of its session that it writes, and
-- its small methods. The counters that are Go's `int` grow by one for an event and are plain
-- numbers; the byte counts are `uint` and wrap.
use go_rtmfp.Prelude.{
  ℕ, ◌+◌, Bool, true, false, Option, none, List, [], ltb, add64, sub64, min_uint,
}
use go_rtmfp.DataChunk.{DataChunk, chunk_len, init_recv_wnd, init_cong_wnd, init_ssthresh}
use go_rtmfp.Range.{Range}

-- The arguments of one call of `session.send_userdata`.
pub record UserData : Type 0 where
  pub frag_ctrl : ℕ
  pub flowid : ℕ
  pub seq_num : ℕ
  pub fsn_offset : ℕ
  pub payload : List ℕ
  pub options : Option (List ℕ)

-- `rtx_alarm` is the time that it was last set to; `bufprob_ticker` is whether there is one; `sent`
-- is what went to the session, latest first. `erto` and `mrto` are the session's, in nanoseconds.
pub record SendFlow : Type 0 where
  pub flowid : ℕ
  pub rel_flowid : ℕ
  pub last_seqnum : ℕ
  pub send_queue : List DataChunk
  pub inflight_bytes : ℕ
  pub acked_bytes_accumulator : ℕ
  pub recv_wnd : ℕ
  pub cong_wnd : ℕ
  pub ssthresh : ℕ
  pub ack_ranges : List Range
  pub data_packets_count : ℕ
  pub bufprob_ticker : Bool
  pub rtx_alarm : Option ℕ
  pub current_tsn : ℕ
  pub signature : Option (List ℕ)
  pub closed : Bool
  pub c_loss : ℕ
  pub erto : ℕ
  pub mrto : ℕ
  pub sent : List UserData

unfoldable pub open_flow : SendFlow → SendFlow
open_flow f = record f {
  send_queue = [];
  recv_wnd = init_recv_wnd;
  cong_wnd = init_cong_wnd;
  ssthresh = init_ssthresh;
}

unfoldable pub close : SendFlow → SendFlow
close f = record f { closed = true; rtx_alarm = none; bufprob_ticker = false }

unfoldable pub next_seqnumber : SendFlow → SendFlow
next_seqnumber f = record f { last_seqnum = add64 f.last_seqnum 1 }

unfoldable pub next_tsn : SendFlow → SendFlow
next_tsn f = record f { current_tsn = f.current_tsn + 1 }

unfoldable pub send_buget : SendFlow → Bool
send_buget f = ltb f.inflight_bytes (min_uint f.recv_wnd f.cong_wnd)

unfoldable pub burst_avoid : SendFlow → Bool
burst_avoid f = ltb f.data_packets_count 6

-- What `chunk_loss` does to the flow, and what it does to the chunk.
unfoldable pub chunk_loss : SendFlow → DataChunk → SendFlow
chunk_loss f c = record f {
  inflight_bytes = sub64 f.inflight_bytes (chunk_len c);
  c_loss = f.c_loss + 1;
}

unfoldable pub lost : DataChunk → DataChunk
lost c = record c { in_flight = false }
