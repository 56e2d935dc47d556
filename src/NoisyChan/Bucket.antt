-- ===== src/NoisyChan/Bucket.antt =====
-- The speed limit of src/rtmfp/noisy_chan.go.
use go_rtmfp.Prelude.{ℕ, ◌+◌, ◌≤◌, ◌<◌, ◌≡◌, ◌⊎◌}
use go_rtmfp.NoisyChan.{NoisyChan, filled}

-- What a call of the limiter does to a limited channel: it takes the bytes at once, or it takes none and asks to
-- wait for a millisecond at least.
pub record Limits (now data_len : ℕ) (s s' : NoisyChan) (wait : ℕ) : Type 0 where
  pub bounded : s'.bucket ≤ s.speed
  pub taken_or_waits :
      ((wait ≡ 0) × (s'.bucket + data_len ≡ filled now s))
      ⊎ ((1000000 ≤ wait) × (s'.bucket ≡ filled now s) × (filled now s < data_len))
