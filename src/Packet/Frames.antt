-- ===== src/Packet/Frames.antt =====
-- The loop over the chunks of a packet in src/rtmfp/packet.go, on any bytes that are cut into chunks.
use go_rtmfp.Prelude.{
  ℕ, zero, suc, ◌+◌, ◌*◌, ◌≤◌, ◌<◌, ◌≡◌, ◌%◌, ◌/◌, refl, ◌∙◌, Bool, true, false, Option, none, some,
  List, [], ◌∷◌, ◌++◌, length, length-append, take, drop, arith, All, ltb, take-append_length,
  drop-append_length, if◌then◌else◌,
}
use go_rtmfp.Buffer.{read_u16, write_u16}
use go_rtmfp.Chunk.{ChunkCall, PacketContext, Runtime}
use go_rtmfp.Chunk.Dispatch.{decode_chunk}
use go_rtmfp.Packet.{after_chunk, chunks_loop}
use go_rtmfp.Packet.Reads.{chunk_round, short_round, read-write_u16, ltb-true, ltb-false}

-- A type and a body.
abbrev pub Frame : Type 0
Frame = ℕ × List ℕ

-- The chunks one after the other, each behind its type and length, and what follows them.
abbrev pub framed : List Frame → List ℕ → List ℕ
framed [] tail = tail
framed (c ∷ cs) tail = c.0 ∷ (write_u16 (length c.1) ++ (c.1 ++ framed cs tail))

-- Bytes that hold no whole chunk: fewer than three, or with a length that passes their end.
abbrev pub IsCut : List ℕ → Type 0
IsCut tail = length tail < 3 + (read_u16 (drop 1 tail)).0

-- The calls of the chunks, each decoded from its own body, in order, up to the first that panics.
abbrev pub frame_calls :
    Runtime → List ℕ → PacketContext → List Frame → List ℕ → List ChunkCall × Bool
frame_calls env beyond cxt [] tail = ([], false)
frame_calls env beyond cxt (c ∷ cs) tail =
    after_chunk (decode_chunk env (framed cs tail ++ beyond) c.0 c.1 cxt)
      (λ cxt'. frame_calls env beyond cxt' cs tail)

after_chunk-same :
    (d : Option (ChunkCall × PacketContext)) (k k' : PacketContext → List ChunkCall × Bool)
    → ((cxt : PacketContext) → k cxt ≡ k' cxt)
    → after_chunk d k ≡ after_chunk d k'
unfolding after_chunk
after_chunk-same none k k' h = refl
after_chunk-same (some (call, cxt)) k k' h = rw (h cxt) refl

cut_done :
    (env : Runtime) (beyond : List ℕ) (fuel : ℕ) (cxt : PacketContext) (tail : List ℕ)
    → IsCut tail
    → chunks_loop env beyond fuel cxt tail ≡ ([], false)
cut_done env beyond zero cxt tail h = unfold chunks_loop in refl
cut_done env beyond (suc fuel) cxt [] h = short_round env beyond (suc fuel) cxt [] (omega arith)
cut_done env beyond (suc fuel) cxt (a ∷ []) h =
    short_round env beyond (suc fuel) cxt (a ∷ []) (omega arith)
cut_done env beyond (suc fuel) cxt (a ∷ b ∷ []) h =
    short_round env beyond (suc fuel) cxt (a ∷ b ∷ []) (omega arith)
cut_done env beyond (suc fuel) cxt (a ∷ b ∷ c ∷ r) h =
    let over : ltb (length r) (b * 256 + c) ≡ true =
      ltb-true (length r) (b * 256 + c) (unfold read_u16 in omega arith) in
    chunk_round env beyond fuel a (b * 256 + c) cxt a b c r refl (unfold read_u16 in refl)
    ∙ rw over refl

framed_round :
    (env : Runtime) (beyond : List ℕ) (fuel t : ℕ) (body rest : List ℕ) (cxt : PacketContext)
    → length body < 65536
    → chunks_loop env beyond (suc fuel) cxt (t ∷ (write_u16 (length body) ++ (body ++ rest)))
      ≡ after_chunk
          (decode_chunk env (rest ++ beyond) t body cxt)
          (λ cxt'. chunks_loop env beyond fuel cxt' rest)
framed_round env beyond fuel t body rest cxt h =
    let whole : ltb (length (body ++ rest)) (length body) ≡ false =
      ltb-false (length (body ++ rest)) (length body) (rw (length-append) (omega arith)) in
    let round : chunks_loop env beyond (suc fuel) cxt
          (t ∷ (write_u16 (length body) ++ (body ++ rest)))
        ≡ (if ltb (length (body ++ rest)) (length body)
            then ([], false)
            else after_chunk
                (decode_chunk env (drop (length body) (body ++ rest) ++ beyond) t
                  (take (length body) (body ++ rest)) cxt)
                (λ cxt'. chunks_loop env beyond fuel cxt' (drop (length body) (body ++ rest)))) =
      unfold write_u16 in
      chunk_round env beyond fuel t (length body) cxt t (length body / 256 % 256)
        (length body % 256) (body ++ rest) refl (read-write_u16 (length body) (body ++ rest) h) in
    round ∙ rw (whole, drop-append_length body rest, take-append_length body rest) refl

loop_frames :
    (env : Runtime) (beyond : List ℕ) (fuel : ℕ) (cxt : PacketContext) (cs : List Frame)
    (tail : List ℕ)
    → All (λ (c : Frame). length c.1 < 65536) cs
    → IsCut tail
    → length cs ≤ fuel
    → chunks_loop env beyond fuel cxt (framed cs tail) ≡ frame_calls env beyond cxt cs tail
loop_frames env beyond fuel cxt [] tail h k n = cut_done env beyond fuel cxt tail k
loop_frames env beyond zero cxt (c ∷ cs) tail h k n = absurd (omega arith)
loop_frames env beyond (suc fuel) cxt ((t, body) ∷ cs) tail (h, hs) k n =
    framed_round env beyond fuel t body (framed cs tail) cxt h
    ∙ after_chunk-same (decode_chunk env (framed cs tail ++ beyond) t body cxt)
        (λ cxt'. chunks_loop env beyond fuel cxt' (framed cs tail))
        (λ cxt'. frame_calls env beyond cxt' cs tail)
        (λ cxt'. loop_frames env beyond fuel cxt' cs tail hs k (omega arith))

frames-length : (cs : List Frame) (tail : List ℕ) → length cs ≤ length (framed cs tail)
frames-length [] tail = omega arith
frames-length (c ∷ cs) tail = omega (
  arith,
  frames-length cs tail,
  length-append (write_u16 (length c.1)) (c.1 ++ framed cs tail),
  length-append c.1 (framed cs tail),
)

-- The loop over the chunks of a packet, with the fuel that the packet gives it. On chunks one after the other, of any
-- types and of bodies of at most 65535 bytes, and then bytes that hold no whole chunk, it decodes each chunk from exactly
-- its own body, in order, up to the first that panics, and nothing else: what follows the last chunk is left, also where
-- the last chunk ends with the packet.
pub chunks_loop-framed :
    (env : Runtime) (beyond : List ℕ) (cxt : PacketContext) (cs : List Frame) (tail : List ℕ)
    → All (λ (c : Frame). length c.1 < 65536) cs
    → IsCut tail
    → chunks_loop env beyond (length (framed cs tail)) cxt (framed cs tail)
      ≡ frame_calls env beyond cxt cs tail
chunks_loop-framed env beyond cxt cs tail h k =
    loop_frames env beyond (length (framed cs tail)) cxt cs tail h k (frames-length cs tail)
