-- ===== src/Message.antt =====
-- Messages as chunks, as the two halves of a flow (src/rtmfp/flow.go) agree on them.
use go_rtmfp.Prelude.{ℕ, ◌+◌, ◌≡◌, List, [], ◌∷◌, ◌++◌}
use go_rtmfp.DataChunk.{DataChunk, fc_whole, fc_begin, fc_middle, fc_end}

-- The rest of a message from the number `s` on: middle chunks and an end, numbered in order.
abbrev pub IsRest : ℕ → List DataChunk → Type 0
IsRest s [] = ⊥
IsRest s (c ∷ []) = (c.seq_num ≡ s) × (c.frag_ctrl ≡ fc_end)
IsRest s (c ∷ d ∷ q) = (c.seq_num ≡ s) × (c.frag_ctrl ≡ fc_middle) × IsRest (s + 1) (d ∷ q)

-- A message whose first chunk has the number `s`: one whole chunk, or a begin and a rest.
abbrev pub IsMessage : ℕ → List DataChunk → Type 0
IsMessage s [] = ⊥
IsMessage s (c ∷ []) = (c.seq_num ≡ s) × (c.frag_ctrl ≡ fc_whole)
IsMessage s (c ∷ d ∷ q) = (c.seq_num ≡ s) × (c.frag_ctrl ≡ fc_begin) × IsRest (s + 1) (d ∷ q)

-- The bytes of the chunks, joined.
abbrev pub joined : List DataChunk → List ℕ
joined [] = []
joined (c ∷ q) = c.payload ++ joined q
