-- ===== src/SendFlow/Ack.antt =====
-- `on_range_ack` of src/rtmfp/flow.go.
use go_rtmfp.Prelude.{
  ℕ, ◌+◌, Bool, true, false, ◌&&◌, Option, none, some, List, [], ◌∷◌, leb, ltb, ◌==◌, ◌>>=◌, add64,
  sub64, if◌then◌else◌,
}
use go_rtmfp.DataChunk.{DataChunk, chunk_len, Globals}
use go_rtmfp.Range.{Range, make_range}
use go_rtmfp.RangeQueue.{add_range, add_range_queue, range_queue_from_array, contain}
use go_rtmfp.SendFlow.State.{SendFlow, chunk_loss, lost}
use go_rtmfp.SendFlow.Transmit.{try_send}
use go_rtmfp.SendFlow.Congestion.{update_congestion_wnd}

-- The variables of the loop that removes the acknowledged chunks.
pub record AckScan : Type 0 where
  pub inflight_bytes : ℕ
  pub acked_bytes : ℕ
  pub max_tsn : ℕ
  pub valid : Bool

abbrev pub start_scan : SendFlow → AckScan
start_scan f = record {
  inflight_bytes = f.inflight_bytes;
  acked_bytes = 0;
  max_tsn = 0;
  valid = false;
}

-- One acknowledged chunk.
unfoldable pub ack_chunk : AckScan → DataChunk → AckScan
ack_chunk s c = record {
  inflight_bytes = if c.in_flight then sub64 s.inflight_bytes (chunk_len c) else s.inflight_bytes;
  acked_bytes = if c.in_flight then add64 s.acked_bytes (chunk_len c) else s.acked_bytes;
  max_tsn = if ltb s.max_tsn c.tsn then c.tsn else s.max_tsn;
  valid = true;
}

unfoldable pub ack_loop : List Range → List DataChunk → AckScan → List DataChunk × AckScan
unfolding ack_chunk
ack_loop ranges [] s = ([], s)
ack_loop ranges (c ∷ q) s =
    let acked = contain ranges c.seq_num in
    let rest = ack_loop ranges q (if acked then ack_chunk s c else s) in
    (if acked then rest.0 else c ∷ rest.0, rest.1)

-- The loop of negative acknowledgements: the queue, the flow, `any_nak` and `any_loss`.
unfoldable pub nak_loop :
    ℕ → List DataChunk → SendFlow → Bool → Bool → List DataChunk × SendFlow × Bool × Bool
unfolding chunk_loss lost
nak_loop max_tsn [] f any_nak any_loss = ([], f, any_nak, any_loss)
nak_loop max_tsn (c ∷ q) f any_nak any_loss =
    let nak = c.in_flight && ltb c.tsn max_tsn in
    let loss = nak && leb 3 (c.nak_count + 1) in
    let c' = if nak then record c { nak_count = c.nak_count + 1 } else c in
    let rest =
      nak_loop max_tsn q (if loss then chunk_loss f c else f) (if nak then true else any_nak)
        (if loss then true else any_loss) in
    ((if loss then lost c' else c') ∷ rest.0, rest.1, rest.2, rest.3)

-- From the negative acknowledgements on.
unfoldable pub finish_ack : Globals → SendFlow → ℕ → ℕ → ℕ → ℕ → SendFlow
unfolding nak_loop update_congestion_wnd try_send
finish_ack g f buf_avail max_tsn acked_bytes pre =
    let (q, f', any_nak, any_loss) = nak_loop max_tsn f.send_queue f false false in
    let f'' = record f' {
      send_queue = q;
      bufprob_ticker = if buf_avail == 0 then true else f'.bufprob_ticker;
      recv_wnd = buf_avail;
    } in
    let f₃ = update_congestion_wnd g f'' any_loss true any_nak acked_bytes pre in
    let alarm : Option ℕ = elim f₃.rtx_alarm [ none ↦ none | some _ ↦ some f₃.erto ] in
    try_send (record f₃ { rtx_alarm = alarm })

-- From the removal of the acknowledged chunks on, with the ranges brought up to date.
unfoldable pub apply_ack : Globals → SendFlow → ℕ → List Range → SendFlow
unfolding ack_loop finish_ack
apply_ack g f buf_avail ranges =
    let (q, s) = ack_loop ranges f.send_queue (start_scan f) in
    let recovers = ltb 0 buf_avail && f.bufprob_ticker in
    let f' = record f {
      data_packets_count = 0;
      ack_ranges = ranges;
      send_queue = q;
      inflight_bytes = s.inflight_bytes;
      bufprob_ticker = if recovers then false else f.bufprob_ticker;
    } in
    let valid = if recovers then true else s.valid in
    if valid then finish_ack g f' buf_avail s.max_tsn s.acked_bytes f.inflight_bytes else f'

-- `none` is a panic of `AddRange`.
unfoldable pub on_range_ack : Globals → SendFlow → ℕ → ℕ → List Range → Option SendFlow
unfolding apply_ack range_queue_from_array
on_range_ack g f buf_avail cum_ack recv_ranges =
    add_range f.ack_ranges (make_range 0 (add64 cum_ack 1)) >>= λ ranges.
    add_range_queue ranges (range_queue_from_array recv_ranges) >>= λ ranges'.
    some (apply_ack g f buf_avail ranges')
