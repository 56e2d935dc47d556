-- ===== src/RecvFlow/Message.antt =====
-- `read_message` of src/rtmfp/flow.go on a buffer that starts with a whole message.
use go_rtmfp.Prelude.{
  ℕ, ◌+◌, ◌≡◌, true, false, some, none, List, [], ◌∷◌, ◌++◌, arith, length, ◌==◌, sub64, append-nil,
  ◌<◌, ◌%◌, ◌^◌, if◌then◌else◌,
}
use go_rtmfp.DataChunk.{DataChunk, chunk_len}
use go_rtmfp.Message.{IsRest, IsMessage, joined}
use go_rtmfp.ChunkHeap.{ChunkHeap, total}
use go_rtmfp.RecvFlow.State.{RecvFlow, has_end, take_message, read_message}

-- The bytes and the rest of the buffer, whatever the count of bytes.
abbrev Takes : List ℕ → List DataChunk → List ℕ × List DataChunk × ℕ → Type 0
Takes msg q r = (r.0 ≡ msg) × (r.1 ≡ q)

has_end-rest : (s : ℕ) (q more : List DataChunk) → IsRest s q → has_end (q ++ more) ≡ true
unfolding has_end
has_end-rest s [] more h = absurd h
has_end-rest s (c ∷ []) more (e, h) = ground arith
has_end-rest s (c ∷ d ∷ q) more (e, k, h) = ground (arith, has_end-rest (s + 1) (d ∷ q) more h)

has_end-message : (s : ℕ) (q more : List DataChunk) → IsMessage s q → has_end (q ++ more) ≡ true
has_end-message s [] more h = absurd h
has_end-message s (c ∷ []) more (e, h) = unfold has_end in ground arith
has_end-message s (c ∷ d ∷ q) more (e, k, h) =
    unfold has_end in ground (arith, has_end-rest (s + 1) (d ∷ q) more h)

take_message-rest :
    (s bytes : ℕ) (q more : List DataChunk)
    → IsRest s q
    → Takes (joined q) more (take_message (q ++ more) bytes)
unfolding take_message
take_message-rest s bytes [] more h = absurd h
take_message-rest s bytes (c ∷ []) more (e, h) = ground (arith, append-nil c.payload)
take_message-rest s bytes (c ∷ d ∷ q) more (e, k, h) =
    ground (arith, take_message-rest (s + 1) (sub64 bytes (chunk_len c)) (d ∷ q) more h)

take_message-message :
    (s bytes : ℕ) (q more : List DataChunk)
    → IsMessage s q
    → Takes (joined q) more (take_message (q ++ more) bytes)
take_message-message s bytes [] more h = absurd h
take_message-message s bytes (c ∷ []) more (e, h) =
    unfold take_message in ground (arith, append-nil c.payload)
take_message-message s bytes (c ∷ d ∷ q) more (e, k, h) =
    unfold take_message in
    ground (arith, take_message-rest (s + 1) (sub64 bytes (chunk_len c)) (d ∷ q) more h)

pub take_message-bytes :
    (bytes : ℕ) (q : List DataChunk) (k : ℕ)
    → bytes ≡ (k + total chunk_len q) % 2 ^ 64
    → (take_message q bytes).2 ≡ (k + total chunk_len (take_message q bytes).1) % 2 ^ 64
unfolding take_message sub64
take_message-bytes bytes [] k h = h
take_message-bytes bytes (c ∷ q) k h =
    ground (arith, take_message-bytes (sub64 bytes (chunk_len c)) q k)

some-bytes :
    (msg msg' : List ℕ)
    → msg ≡ msg'
    → 0 < length msg'
    → (if length msg == 0 then none else some msg) ≡ some msg'
some-bytes msg msg' e h = ground arith

module _ (H : ChunkHeap) where
  -- The count of buffered bytes is right, modulo 2 ^ 64.
  abbrev pub IsBuffered : RecvFlow H → Type 0
  IsBuffered f = f.ordered_recved_bytes ≡ total chunk_len f.ordered_recv_buf % 2 ^ 64

  -- With a right count of bytes, a buffer that starts with a message of at least one byte: its bytes are returned, joined, the chunks behind
  -- them stay, and the count of buffered bytes stays right.
  pub read_message_whole :
      (f : RecvFlow H) (s : ℕ) (q more : List DataChunk)
      → f.ordered_recv_buf ≡ q ++ more
      → IsMessage s q
      → 0 < length (joined q)
      → IsBuffered f
      → ((read_message H f).0 ≡ some (joined q))
        × ((read_message H f).1.ordered_recv_buf ≡ more)
        × IsBuffered (read_message H f).1
  unfolding read_message
  read_message_whole f s q more e h k b =
      let taken : Takes (joined q) more (take_message f.ordered_recv_buf f.ordered_recved_bytes) =
        rw e (take_message-message s f.ordered_recved_bytes q more h) in
      let ends : has_end f.ordered_recv_buf ≡ true = rw e (has_end-message s q more h) in
      let bytes =
        take_message-bytes f.ordered_recved_bytes f.ordered_recv_buf 0 (omega (arith, b)) in
      rw ends (some-bytes _ (joined q) taken.0 k, taken.1, omega (arith, bytes))

  -- Without the end of a message in the buffer nothing is returned and nothing changes.
  pub read_message_part :
      (f : RecvFlow H) → has_end f.ordered_recv_buf ≡ false → read_message H f ≡ (none, f)
  unfolding read_message
  read_message_part f e = rw e
