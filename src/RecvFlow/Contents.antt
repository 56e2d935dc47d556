-- ===== src/RecvFlow/Contents.antt =====
-- The chunks that a `recv_flow` of src/rtmfp/flow.go holds are those that came.
use go_rtmfp.Prelude.{
  ℕ, zero, suc, ◌+◌, ◌≡◌, refl, ◌∙◌, Bool, true, false, some, List, [], ◌∷◌, if◌then◌else◌, arith,
  length, add64, Bool-cases, Option-cases, ℕ_discrete, inl, inr,
}
use go_rtmfp.DataChunk.{DataChunk, new_chunk, Globals}
use go_rtmfp.Range.{Range, make_range}
use go_rtmfp.ChunkHeap.{ChunkHeap, total}
use go_rtmfp.RangeQueue.{add_range, contain}
use go_rtmfp.RecvFlow.State.{RecvFlow, send_ack, report_loop}
use go_rtmfp.RecvFlow.Receive.{
  move_chunk, order_loop, store_chunk, order_chunks, acknowledge, acks_now, on_userdata,
}
use go_rtmfp.RecvFlow.Order.{total-append, order-move, order-stop, order-none}

module _ (H : ChunkHeap) where
  -- The sum of a weight over all chunks that the flow holds, in order or waiting.
  abbrev pub held : (DataChunk → ℕ) → RecvFlow H → ℕ
  held w f = total w f.ordered_recv_buf + total w (H.chunks f.unordered_recv_buf)

  module _ (w : DataChunk → ℕ) where
    move_chunk-held :
        (f : RecvFlow H) (c : DataChunk) (h : H.Heap)
        → H.pop f.unordered_recv_buf ≡ some (c, h)
        → held w (move_chunk H f c h) ≡ held w f
    unfolding move_chunk
    move_chunk-held f c h e = omega (
      arith,
      total-append w f.ordered_recv_buf (c ∷ []),
      H.total-pop w f.unordered_recv_buf h c e,
    )

    order_loop-held : (fuel : ℕ) (f : RecvFlow H) → held w (order_loop H fuel f) ≡ held w f
    order_loop-held zero f = unfold order_loop in refl
    order_loop-held (suc fuel) f = elim (Option-cases (H.pop f.unordered_recv_buf)) [
      | inl e ↦ rw (order-none H fuel f e) refl
      | inr ((c, h), e) ↦ elim (ℕ_discrete c.seq_num (add64 f.last_ordered_seqnum 1)) [
        | yes k ↦
            rw (order-move H fuel f c h e k)
              (order_loop-held fuel (move_chunk H f c h) ∙ move_chunk-held f c h e)
        | no k ↦
            rw (order-stop H fuel f c h e k)
              (omega (arith, H.total-push w h c, H.total-pop w f.unordered_recv_buf h c e))
      ]
    ]

    order_chunks-held : (f : RecvFlow H) → held w (order_chunks H f) ≡ held w f
    unfolding order_chunks
    order_chunks-held f = order_loop-held (length (H.chunks f.unordered_recv_buf)) f

    send_ack-held :
        (g : Globals) (f f' : RecvFlow H) → send_ack H g f ≡ some f' → held w f' ≡ held w f
    unfolding send_ack
    send_ack-held g f f' e =
        ground (arith, Option-cases (report_loop [] (H.chunks f.unordered_recv_buf)))

    acknowledge-held :
        (g : Globals) (now : Bool) (f f' : RecvFlow H)
        → acknowledge H g now f ≡ some f'
        → held w f' ≡ held w f
    unfolding acknowledge
    acknowledge-held g true f f' e = send_ack-held g (record f { signals = f.signals + 1 }) f' e
    acknowledge-held g false f f' e = ground arith

    store_chunk-held :
        (f : RecvFlow H) (ranges : List Range) (c : DataChunk)
        → held w (store_chunk H f ranges c) ≡ held w f + w c
    unfolding store_chunk
    store_chunk-held f ranges c = omega (arith, H.total-push w f.unordered_recv_buf c)

  -- A chunk of data is neither invented, altered, lost nor stored twice. For any weight of chunks, the sum
  -- over all that the flow holds, in order or waiting, grows by the weight of the chunk that came, exactly as
  -- its bytes and its fragment control came, if its number is new, and stays as it is if the number
  -- was received before.
  pub on_userdata-held :
      (w : DataChunk → ℕ) (g : Globals) (f f' : RecvFlow H) (ctrl seq : ℕ) (buf : List ℕ)
      → on_userdata H g f ctrl seq buf ≡ some f'
      → held w f' ≡ held w f + (if contain f.recv_ranges seq then 0 else w (new_chunk ctrl seq buf))
  unfolding on_userdata
  on_userdata-held w g f f' ctrl seq buf e =
      let f1 = record f { rx_data_packets = f.rx_data_packets + 1 } in
      let c = new_chunk ctrl seq buf in
      elim (Bool-cases (contain f.recv_ranges seq)) [
        | inl old ↦ rw old (omega (arith, send_ack-held w g f1 f' (rw old at e)))
        | inr new ↦ elim (Option-cases (add_range f.recv_ranges (make_range seq (add64 seq 1)))) [
          | inl q ↦ (let bad = (rw (new, q) at e) in cc)
          | inr (ranges, q) ↦
              let stored = store_chunk H f1 ranges c in
              rw new (
                acknowledge-held w g (acks_now H f1) (order_chunks H stored) f' (rw (new, q) at e)
                ∙ order_chunks-held w stored
                ∙ store_chunk-held w f1 ranges c)
        ]
      ]
