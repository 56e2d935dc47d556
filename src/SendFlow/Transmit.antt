-- ===== src/SendFlow/Transmit.antt =====
-- `send`, `try_send`, `send_userdata` and `on_rtx_alarm` of src/rtmfp/flow.go. A loop over the queue
-- returns the queue as it leaves it, since the source writes to the chunks in place.
use go_rtmfp.Prelude.{
  ℕ, zero, suc, ◌+◌, ◌/◌, Bool, true, false, ◌&&◌, Option, none, some, List, [], ◌∷◌, ◌++◌, leb,
  ltb, ◌==◌, add64, sub64, mul64, max_uint, min, max, if◌then◌else◌, length, take, drop,
}
use go_rtmfp.Vlu.{encode_vlu}
use go_rtmfp.DataChunk.{
  DataChunk, new_chunk, chunk_len, smss, init_cong_wnd, timeout_cong_wnd,
  max_data_chunk_resend_count, fc_whole, fc_begin, fc_middle, fc_end,
}
use go_rtmfp.SendFlow.State.{
  SendFlow, close, next_seqnumber, next_tsn, send_buget, burst_avoid, chunk_loss, lost,
}

-- `get_vlu_size` of src/rtmfp/base.go.
unfoldable pub get_vlu_size : ℕ → ℕ
get_vlu_size n = 1

-- The option list of the first chunk of a flow; `none` is Go's `nil`.
unfoldable pub flow_options : SendFlow → Option (List ℕ)
unfolding get_vlu_size encode_vlu
flow_options f =
    let sig : List ℕ = elim f.signature [ none ↦ [] | some s ↦ s ] in
    let rel : List ℕ =
      if f.rel_flowid == 0
      then []
      else encode_vlu (1 + get_vlu_size f.rel_flowid) ++ (0x0a ∷ encode_vlu f.rel_flowid) in
    if length (sig ++ rel) == 0 then none else some ((sig ++ rel) ++ 0 ∷ [])

-- The chunk as `send_userdata` leaves it, with the number that `next_tsn` gives.
unfoldable pub stamp : SendFlow → DataChunk → DataChunk
stamp f c = record c {
  send_count = c.send_count + 1;
  nak_count = 0;
  in_flight = true;
  tsn = f.current_tsn + 1;
}

-- `front` is the sequence number of the first chunk of the queue.
unfoldable pub send_userdata : SendFlow → ℕ → DataChunk → SendFlow
unfolding next_tsn flow_options
send_userdata f front c = record (next_tsn f) {
  data_packets_count = f.data_packets_count + 1;
  inflight_bytes = add64 f.inflight_bytes (chunk_len c);
  sent =
      record {
        frag_ctrl = c.frag_ctrl;
        flowid = f.flowid;
        seq_num = c.seq_num;
        fsn_offset = sub64 c.seq_num front;
        payload = c.payload;
        options = if c.seq_num == 1 then flow_options f else none;
      }
      ∷ f.sent;
  rtx_alarm = some f.erto;
}

-- One round of the loop of `try_send` on a chunk.
unfoldable pub try_chunk : SendFlow → ℕ → DataChunk → DataChunk × SendFlow
unfolding send_userdata stamp
try_chunk f front c = if c.in_flight then (c, f) else (stamp f c, send_userdata f front c)

unfoldable pub try_loop : List DataChunk → ℕ → SendFlow → List DataChunk × SendFlow
unfolding send_buget burst_avoid
try_loop [] front f = ([], f)
try_loop (c ∷ q) front f =
    let one = try_chunk f front c in
    let rest = try_loop q front one.1 in
    if send_buget f && burst_avoid f then (one.0 ∷ rest.0, rest.1) else (c ∷ q, f)

unfoldable pub front_seq : List DataChunk → ℕ
front_seq [] = 0
front_seq (c ∷ q) = c.seq_num

unfoldable pub try_send : SendFlow → SendFlow
unfolding try_loop front_seq
try_send f =
    let (q, f') = try_loop f.send_queue (front_seq f.send_queue) f in record f' { send_queue = q }

-- `self.send_queue.PushBack(chunk)`
unfoldable pub push_back : SendFlow → DataChunk → SendFlow
push_back f c = record f { send_queue = f.send_queue ++ c ∷ [] }

-- One round of the loop that splits a message, at position `i`: the size of the chunk, its
-- fragment control, and the flow with the chunk queued.
unfoldable pub chunk_length : ℕ → List ℕ → ℕ
chunk_length i buf = if leb (length buf) (add64 i smss) then sub64 (length buf) i else smss

unfoldable pub fragment_ctrl : ℕ → List ℕ → ℕ
fragment_ctrl i buf =
    if leb (length buf) (add64 i smss) then fc_end else if i == 0 then fc_begin else fc_middle

unfoldable pub push_fragment : SendFlow → ℕ → List ℕ → SendFlow
unfolding next_seqnumber push_back chunk_length fragment_ctrl
push_fragment f i buf =
    let f' = next_seqnumber f in
    let part = take (chunk_length i buf) (drop i buf) in
    push_back f' (new_chunk (fragment_ctrl i buf) f'.last_seqnum part)

-- Each round takes a byte at least, so as many rounds as there are bytes are enough.
unfoldable pub fragment_loop : ℕ → ℕ → List ℕ → SendFlow → SendFlow
unfolding push_fragment chunk_length
fragment_loop zero i buf f = f
fragment_loop (suc fuel) i buf f =
    let rest = fragment_loop fuel (add64 i (chunk_length i buf)) buf (push_fragment f i buf) in
    if ltb i (length buf) then rest else f

-- The chunks of a message are put in the queue.
unfoldable pub enqueue : SendFlow → List ℕ → SendFlow
unfolding fragment_loop next_seqnumber push_back
enqueue f buf =
    let f' = next_seqnumber f in
    if leb (length buf) smss
    then push_back f' (new_chunk fc_whole f'.last_seqnum buf)
    else fragment_loop (length buf) 0 buf f

-- The count of bytes taken; `none` is the error of a closed flow.
unfoldable pub send : SendFlow → List ℕ → SendFlow × Option ℕ
unfolding enqueue try_send
send f buf = if f.closed then (f, none) else (try_send (enqueue f buf), some (length buf))

-- The loop of `on_rtx_alarm`: the queue, the flow, `any_loss`, and whether it closed the flow.
unfoldable pub rtx_loop : List DataChunk → Bool → SendFlow → List DataChunk × SendFlow × Bool × Bool
unfolding close chunk_loss lost
rtx_loop [] any_loss f = ([], f, any_loss, false)
rtx_loop (c ∷ q) any_loss f =
    let f' = if c.in_flight then chunk_loss f c else f in
    let c' = if c.in_flight then lost c else c in
    let rest = rtx_loop q (if c.in_flight then true else any_loss) f' in
    if c.in_flight && ltb max_data_chunk_resend_count c.send_count
    then (c ∷ q, close f, any_loss, true)
    else (c' ∷ rest.0, rest.1, rest.2, rest.3)

-- `backoff` is `int64(float64(erto) * 1.4142)`.
unfoldable pub on_rtx_alarm : (ℕ → ℕ) → SendFlow → SendFlow
unfolding rtx_loop try_send
on_rtx_alarm backoff f =
    let (q, f', any_loss, gave_up) = rtx_loop f.send_queue false f in
    let cong_wnd = if any_loss then timeout_cong_wnd else init_cong_wnd in
    let f'' = record f' {
      send_queue = q;
      cong_wnd = cong_wnd;
      erto = if any_loss then max (min (backoff f'.erto) 10_000_000_000) f'.mrto else f'.erto;
      ssthresh = max_uint f'.ssthresh (mul64 cong_wnd 3 / 4);
      acked_bytes_accumulator = 0;
      data_packets_count = 0;
    } in
    if gave_up then record f' { send_queue = q } else try_send f''
