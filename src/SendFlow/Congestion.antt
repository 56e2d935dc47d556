-- ===== src/SendFlow/Congestion.antt =====
-- `update_congestion_wnd` of src/rtmfp/flow.go.
use go_rtmfp.Prelude.{
  ℕ, zero, suc, ◌+◌, ◌/◌, Bool, true, false, ◌&&◌, ◌||◌, not, leb, ltb, add64, sub64, mul64,
  min_uint, max_uint, if◌then◌else◌,
}
use go_rtmfp.DataChunk.{smss, init_cong_wnd, Globals}
use go_rtmfp.SendFlow.State.{SendFlow}

-- `for acc >= aithresh { acc -= aithresh; increase += step }`, for at most `fuel` rounds.
unfoldable pub drain : ℕ → ℕ → ℕ → ℕ → ℕ → ℕ × ℕ
drain zero step aithresh acc increase = (acc, increase)
drain (suc fuel) step aithresh acc increase = elim (leb aithresh acc) [
  | true ↦ drain fuel step aithresh (sub64 acc aithresh) (add64 increase step)
  | false ↦ (acc, increase)
]

-- `min_uint(max_uint(self.cong_wnd/16, 64), cap)`
unfoldable pub aithresh_of : ℕ → ℕ → ℕ
aithresh_of cong_wnd cap = min_uint (max_uint (cong_wnd / 16) 64) cap

-- The branch of additive increase: the new accumulator and the increase.
unfoldable pub additive : SendFlow → ℕ → ℕ → ℕ → ℕ × ℕ
unfolding drain aithresh_of
additive f step cap acked_bytes =
    let acc = add64 f.acked_bytes_accumulator acked_bytes in
    drain acc step (aithresh_of f.cong_wnd cap) acc 0

-- `uint(math.Ceil(float64(acked_bytes) / 4.0))`: exact below 2 ^ 53.
unfoldable pub quarter : ℕ → ℕ
quarter n = (n + 3) / 4

-- The accumulator and the increase after an acknowledgement with nothing missing.
unfoldable pub growth : Globals → SendFlow → ℕ → ℕ × ℕ
unfolding additive quarter
growth g f acked_bytes =
    if g.fastgrow_allowed
    then if ltb f.cong_wnd f.ssthresh
      then (f.acked_bytes_accumulator, acked_bytes)
      else additive f 48 4800 acked_bytes
    else if ltb f.cong_wnd f.ssthresh && g.is_time_critical
    then (f.acked_bytes_accumulator, quarter acked_bytes)
    else additive f 24 (if g.is_time_critical then 2400 else 4800) acked_bytes

-- The slow start threshold after a loss.
unfoldable pub loss_ssthresh : Globals → ℕ → ℕ
loss_ssthresh g pre =
    if g.is_time_critical || (ltb 67200 pre && g.fastgrow_allowed)
    then max_uint (mul64 pre 7 / 8) init_cong_wnd
    else max_uint (mul64 pre 1 / 2) init_cong_wnd

unfoldable pub update_congestion_wnd : Globals → SendFlow → Bool → Bool → Bool → ℕ → ℕ → SendFlow
unfolding loss_ssthresh
update_congestion_wnd g f any_loss any_ack any_nak acked_bytes pre =
    let (acc, increase) = growth g f acked_bytes in
    if any_loss
    then record f {
      ssthresh = loss_ssthresh g pre;
      cong_wnd = loss_ssthresh g pre;
      acked_bytes_accumulator = 0;
    }
    else if any_ack && not any_nak && leb f.cong_wnd pre
    then record f {
      acked_bytes_accumulator = acc;
      cong_wnd = max_uint (add64 f.cong_wnd (min_uint increase smss)) init_cong_wnd;
    }
    else f
