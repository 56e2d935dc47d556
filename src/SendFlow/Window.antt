-- ===== src/SendFlow/Window.antt =====
-- The congestion window of src/rtmfp/flow.go.
use go_rtmfp.Prelude.{
  ℕ, zero, suc, ◌+◌, ◌-◌, ◌*◌, ◌/◌, ◌^◌, ◌≤◌, ◌<◌, ◌≡◌, refl, ◌⊎◌, inl, inr, Bool, true, false,
  arith, max, min, add64, add64_fits, sub64_fits, mul64, min_uint, max_uint, dec_le, Bool-cases,
  ltb, leb, if◌then◌else◌,
}
use go_rtmfp.DataChunk.{Globals}
use go_rtmfp.SendFlow.State.{SendFlow}
use go_rtmfp.SendFlow.Congestion.{
  drain, aithresh_of, additive, growth, quarter, loss_ssthresh, update_congestion_wnd,
}

-- The loop divides: it takes the threshold off `k` times, until less than it is left, and adds one
-- step each time.
abbrev pub Divides : ℕ → ℕ → ℕ → ℕ → ℕ × ℕ → Type 0
Divides step aithresh acc increase r =
    (k : ℕ) × (acc ≡ k * aithresh + r.0) × (r.0 < aithresh) × (r.1 ≡ increase + k * step)

drain-more :
    (fuel step aithresh acc increase : ℕ)
    → aithresh ≤ acc
    → acc < 2 ^ 63
    → increase + step < 2 ^ 64
    → drain (suc fuel) step aithresh acc increase
      ≡ drain fuel step aithresh (acc - aithresh) (increase + step)
unfolding drain
drain-more fuel step aithresh acc increase h a b =
    ground (arith, sub64_fits acc aithresh, add64_fits increase step)

drain-done :
    (fuel step aithresh acc increase : ℕ)
    → acc < aithresh
    → drain (suc fuel) step aithresh acc increase ≡ (acc, increase)
unfolding drain
drain-done fuel step aithresh acc increase h = ground arith

-- As many rounds as the accumulator counts are enough, since the threshold is positive.
pub drain-Divides :
    (fuel step aithresh acc increase : ℕ)
    → acc ≤ fuel
    → 0 < aithresh
    → acc < 2 ^ 63
    → step ≤ aithresh
    → increase + acc < 2 ^ 63
    → Divides step aithresh acc increase (drain fuel step aithresh acc increase)
drain-Divides zero step aithresh acc increase h a b s c =
    unfold drain in (0, omega arith, omega arith, omega arith)
drain-Divides (suc fuel) step aithresh acc increase h a b s c = elim (dec_le aithresh acc) [
  | yes le ↦
      let (k, p, q, r) =
        drain-Divides fuel step aithresh (acc - aithresh) (increase + step) (omega arith) a
          (omega arith) s (omega arith) in
      rw (drain-more fuel step aithresh acc increase le b (omega arith))
        (k + 1, omega arith, q, omega arith)
  | no lt ↦
      rw (drain-done fuel step aithresh acc increase (omega arith))
        (0, omega arith, omega arith, omega arith)
]

aithresh_of_bounds :
    (cong_wnd cap : ℕ)
    → 64 ≤ cap
    → (64 ≤ aithresh_of cong_wnd cap) × (aithresh_of cong_wnd cap ≤ cap)
unfolding aithresh_of min_uint max_uint
aithresh_of_bounds cong_wnd cap h = ground arith

-- Additive increase, for a step of at most 64, a cap of at least 64 and counts below 2 ^ 63: for each full threshold of acknowledged bytes the window is to grow by one
-- step, and what is left of them, less than a threshold, is kept for later.
additive-Divides :
    (f : SendFlow) (step cap acked_bytes : ℕ)
    → step ≤ 64
    → 64 ≤ cap
    → f.acked_bytes_accumulator + acked_bytes < 2 ^ 63
    → Divides step
        (aithresh_of f.cong_wnd cap)
        (f.acked_bytes_accumulator + acked_bytes)
        0
        (additive f step cap acked_bytes)
unfolding additive
additive-Divides f step cap acked_bytes h k l =
    let (lo, hi) = aithresh_of_bounds f.cong_wnd cap k in
    rw (add64_fits f.acked_bytes_accumulator acked_bytes (omega arith))
      (drain-Divides _ step _ _ 0 (omega arith) (omega arith) l (omega arith) (omega arith))

-- The step and the cap of additive increase under the settings.
abbrev pub step_of : Globals → ℕ
step_of g = if g.fastgrow_allowed then 48 else 24

abbrev pub cap_of : Globals → ℕ
cap_of g = if g.fastgrow_allowed then 4800 else if g.is_time_critical then 2400 else 4800

-- The increase, and the bytes that are kept for later: in additive increase by the division above; in slow start, where
-- the window is below the threshold, with fast growth all the bytes, and without it, but time critical, a quarter of them,
-- rounded up, and none are kept.
abbrev pub Increases : Globals → SendFlow → ℕ → ℕ × ℕ → Type 0
Increases g f acked_bytes r =
    Divides (step_of g) (aithresh_of f.cong_wnd (cap_of g))
      (f.acked_bytes_accumulator + acked_bytes) 0 r
    ⊎ (f.cong_wnd < f.ssthresh)
      × (r.0 ≡ f.acked_bytes_accumulator)
      × ((g.fastgrow_allowed ≡ true) × (r.1 ≡ acked_bytes)
          ⊎ (g.fastgrow_allowed ≡ false)
            × (g.is_time_critical ≡ true)
            × (acked_bytes ≤ 4 * r.1)
            × (4 * r.1 ≤ acked_bytes + 3))

growth-Increases :
    (g : Globals) (f : SendFlow) (acked_bytes : ℕ)
    → f.acked_bytes_accumulator + acked_bytes < 2 ^ 63
    → Increases g f acked_bytes (growth g f acked_bytes)
unfolding growth quarter
growth-Increases g f acked_bytes h = elim (Bool-cases g.fastgrow_allowed) [
  | inl fast ↦ elim (Bool-cases (ltb f.cong_wnd f.ssthresh)) [
    | inl slow ↦ rw (fast, slow) (inr (ground arith, refl, inl (refl, refl)))
    | inr past ↦
        rw (fast, past) (inl (additive-Divides f 48 4800 acked_bytes (omega arith) (omega arith) h))
  ]
  | inr calm ↦ elim (Bool-cases g.is_time_critical) [
    | inl critical ↦ elim (Bool-cases (ltb f.cong_wnd f.ssthresh)) [
      | inl slow ↦
          rw (calm, slow, critical)
            (inr (ground arith, refl, inr (refl, refl, omega arith, omega arith)))
      | inr past ↦
          rw (calm, past, critical)
            (inl (additive-Divides f 24 2400 acked_bytes (omega arith) (omega arith) h))
    ]
    | inr patient ↦ elim (Bool-cases (ltb f.cong_wnd f.ssthresh)) [
      | inl slow ↦
          rw (calm, slow, patient)
            (inl (additive-Divides f 24 4800 acked_bytes (omega arith) (omega arith) h))
      | inr past ↦
          rw (calm, past, patient)
            (inl (additive-Divides f 24 4800 acked_bytes (omega arith) (omega arith) h))
    ]
  ]
]

-- After a loss: the window and the threshold are seven eighths of what was in flight, where time is critical or fast growth
-- is allowed and more than 67200 bytes were, else a half; three segments at least.
abbrev pub BacksOff : Globals → ℕ → SendFlow → Type 0
BacksOff g pre f' =
    (f'.ssthresh ≡ f'.cong_wnd)
    × (f'.acked_bytes_accumulator ≡ 0)
    × (((g.is_time_critical ≡ true) ⊎ (g.fastgrow_allowed ≡ true) × (67200 < pre))
          × (f'.cong_wnd ≡ max (7 * pre / 8) 4380)
        ⊎ (g.is_time_critical ≡ false)
          × ((g.fastgrow_allowed ≡ false) ⊎ (pre ≤ 67200))
          × (f'.cong_wnd ≡ max (pre / 2) 4380))

abbrev pub Grows : Globals → ℕ → SendFlow → SendFlow → Type 0
Grows g acked_bytes f f' =
    (increase : ℕ) × Increases g f acked_bytes (f'.acked_bytes_accumulator, increase)
    × (f'.cong_wnd ≡ max (f.cong_wnd + min increase 1460) 4380)
    × (f'.ssthresh ≡ f.ssthresh)

on_loss :
    (g : Globals) (f : SendFlow) (any_ack any_nak : Bool) (acked_bytes pre : ℕ)
    → pre < 2 ^ 60
    → BacksOff g pre (update_congestion_wnd g f true any_ack any_nak acked_bytes pre)
unfolding update_congestion_wnd loss_ssthresh mul64 max_uint
on_loss g f any_ack any_nak acked_bytes pre k = elim (Bool-cases g.is_time_critical) [
  | inl critical ↦ rw critical (refl, refl, inl (inl refl, ground arith))
  | inr patient ↦ elim (Bool-cases (ltb 67200 pre)) [
    | inl much ↦ elim (Bool-cases g.fastgrow_allowed) [
      | inl fast ↦
          rw (patient, much, fast) (refl, refl, inl (inr (refl, ground arith), ground arith))
      | inr calm ↦ rw (patient, much, calm) (refl, refl, inr (refl, inl refl, ground arith))
    ]
    | inr few ↦ rw (patient, few) (refl, refl, inr (refl, inr (ground arith), ground arith))
  ]
]

on_growth :
    (g : Globals) (f : SendFlow) (acked_bytes pre : ℕ)
    → f.cong_wnd < 2 ^ 63
    → f.acked_bytes_accumulator + acked_bytes < 2 ^ 63
    → f.cong_wnd ≤ pre
    → Grows g acked_bytes f (update_congestion_wnd g f false true false acked_bytes pre)
unfolding update_congestion_wnd
on_growth g f acked_bytes pre h k full =
    let used : leb f.cong_wnd pre ≡ true = ground arith in
    rw used (
      (growth g f acked_bytes).1,
      growth-Increases g f acked_bytes k,
      unfold add64 max_uint min_uint in ground arith,
      refl,
    )

-- The window of a flow with less than 2 ^ 60 bytes in flight, a window below 2 ^ 63 and counts of acknowledged bytes that
-- sum below 2 ^ 63, after an acknowledgement, whatever it brings. With a loss the flow backs off: to seven eighths of what
-- was in flight or to a half, as the settings say, to three segments at least. Without a loss, where nothing is missing
-- and the window was used up, it grows by the increase, a segment at most: in slow start by the bytes or a quarter of them,
-- else by one step for each full threshold of the bytes, and what is left of those is kept for later. In all other cases
-- nothing changes.
pub update_congestion_wnd_total :
    (g : Globals) (f : SendFlow) (any_loss any_nak : Bool) (acked_bytes pre : ℕ)
    → pre < 2 ^ 60
    → f.cong_wnd < 2 ^ 63
    → f.acked_bytes_accumulator + acked_bytes < 2 ^ 63
    → let f' = update_congestion_wnd g f any_loss true any_nak acked_bytes pre in
      (any_loss ≡ true) × BacksOff g pre f'
      ⊎ (any_loss ≡ false) × (any_nak ≡ false) × (f.cong_wnd ≤ pre) × Grows g acked_bytes f f'
      ⊎ (any_loss ≡ false) × ((any_nak ≡ true) ⊎ (pre < f.cong_wnd)) × (f' ≡ f)
update_congestion_wnd_total g f true any_nak acked_bytes pre h k l =
    inl (refl, on_loss g f true any_nak acked_bytes pre h)
update_congestion_wnd_total g f false true acked_bytes pre h k l =
    inr (inr (refl, inl refl, unfold update_congestion_wnd in refl))
update_congestion_wnd_total g f false false acked_bytes pre h k l = elim (dec_le f.cong_wnd pre) [
  | yes full ↦ inr (inl (refl, refl, full, on_growth g f acked_bytes pre k l full))
  | no idle ↦
      let unused : leb f.cong_wnd pre ≡ false = ground arith in
      inr (inr (refl, inr (omega arith), (unfold update_congestion_wnd in rw unused refl)))
]
