-- ===== src/RecvFlow/Userdata.antt =====
-- The whole of `on_userdata` of src/rtmfp/flow.go.
use go_rtmfp.Prelude.{
  ℕ, ◌+◌, ◌%◌, ◌^◌, ◌<◌, ◌≡◌, refl, sym, Bool, true, false, ◌||◌, some, List, [], ◌++◌, arith, ◌==◌,
  add64, append-nil, Bool-cases, inl, inr,
}
use go_rtmfp.DataChunk.{DataChunk, new_chunk, chunk_len, Globals}
use go_rtmfp.Range.{Range}
use go_rtmfp.RangeQueue.{contain}
use go_rtmfp.RangeQueue.Valid.{IsValid}
use go_rtmfp.RangeQueue.Add.{add_range-Adds}
use go_rtmfp.ChunkHeap.{ChunkHeap, total, has_seq}
use go_rtmfp.RecvFlow.State.{RecvFlow}
use go_rtmfp.RecvFlow.Receive.{acks_now, store_chunk, order_chunks, acknowledge, on_userdata}
use go_rtmfp.RecvFlow.Order.{Run, IsTracked, order_chunks-Ordered}
use go_rtmfp.RecvFlow.Delivery.{single, single-IsProper, range_contain-single, Same, send_ack_total}

grown :
    (n m k : ℕ) (c : DataChunk)
    → n ≡ m % 2 ^ 64
    → k ≡ chunk_len c + m
    → add64 n (chunk_len c) ≡ k % 2 ^ 64
unfolding add64
grown n m k c e e' = omega arith

module _ (H : ChunkHeap) where
  -- Between two chunks: the flow is tracked, has not received a number 0, and no chunk waits that
  -- could be delivered.
  pub record IsSettled (f : RecvFlow H) : Type 0 where
    pub tracked : IsTracked H f
    pub no_zero : contain f.recv_ranges 0 ≡ false
    pub idle : total (has_seq (f.last_ordered_seqnum + 1)) (H.chunks f.unordered_recv_buf) ≡ 0

  Same-IsTracked : (f f' : RecvFlow H) → Same H f f' → IsTracked H f → IsTracked H f'
  Same-IsTracked f f' s v = record {
    tracked = λ p. rw (s.last, s.unordered, s.ranges) (v.tracked p);
    valid = rw s.ranges v.valid;
    waiting = rw (s.unordered_bytes, s.unordered) v.waiting;
    buffered = rw (s.ordered_bytes, s.ordered) v.buffered;
  }

  pub Same-IsSettled : (f f' : RecvFlow H) → Same H f f' → IsSettled f → IsSettled f'
  Same-IsSettled f f' s v = record {
    tracked = Same-IsTracked f f' s v.tracked;
    no_zero = rw s.ranges v.no_zero;
    idle = rw (s.last, s.unordered) v.idle;
  }

  -- What a chunk numbered `seq` brings: the number is received, and nothing else is; and the ordered
  -- buffer grows by the chunks that follow the last in order.
  pub record Brings (seq : ℕ) (f f' : RecvFlow H) : Type 0 where
    pub settled : IsSettled f'
    pub received : (p : ℕ) → contain f'.recv_ranges p ≡ (p == seq || contain f.recv_ranges p)
    pub moved :
        (q : List DataChunk) × (f'.ordered_recv_buf ≡ f.ordered_recv_buf ++ q)
        × Run f.last_ordered_seqnum q f'.last_ordered_seqnum

  Brings-Same :
      (seq : ℕ) (f f' f'' : RecvFlow H) → Brings seq f f' → Same H f' f'' → Brings seq f f''
  Brings-Same seq f f' f'' b s = record {
    settled = Same-IsSettled f' f'' s b.settled;
    received = λ p. rw s.ranges (b.received p);
    moved = rw (s.ordered, s.last) b.moved;
  }

  acknowledge_total :
      (g : Globals) (now : Bool) (f : RecvFlow H)
      → IsTracked H f
      → (f' : RecvFlow H) × (acknowledge H g now f ≡ some f') × Same H f f'
  unfolding acknowledge
  acknowledge_total g false f v = (
    _,
    refl,
    record {
      ordered = refl;
      unordered = refl;
      ordered_bytes = refl;
      unordered_bytes = refl;
      ranges = refl;
      last = refl;
    },
  )
  acknowledge_total g true f v =
      let (f', a, e, k, r, s, d) =
        send_ack_total H g (record f { signals = f.signals + 1 })
          (record {
            tracked = v.tracked;
            valid = v.valid;
            waiting = v.waiting;
            buffered = v.buffered;
          }) in
      (
        f',
        e,
        record {
          ordered = s.ordered;
          unordered = s.unordered;
          ordered_bytes = s.ordered_bytes;
          unordered_bytes = s.unordered_bytes;
          ranges = s.ranges;
          last = s.last;
        },
      )

  store_chunk-IsTracked :
      (f : RecvFlow H) (ranges : List Range) (c : DataChunk)
      → IsTracked H f
      → contain f.recv_ranges c.seq_num ≡ false
      → IsValid ranges
      → ((p : ℕ) → contain ranges p ≡ (p == c.seq_num || contain f.recv_ranges p))
      → IsTracked H (store_chunk H f ranges c)
  unfolding store_chunk
  store_chunk-IsTracked f ranges c v e valid holds = record {
    tracked =
        λ p. ground (arith, v.tracked p, holds p, H.total-push (has_seq p) f.unordered_recv_buf c);
    valid = valid;
    waiting = grown _ _ _ c v.waiting (H.total-push chunk_len f.unordered_recv_buf c);
    buffered = v.buffered;
  }

  -- The flow with one more packet counted.
  abbrev counted : RecvFlow H → RecvFlow H
  counted f = record f { rx_data_packets = f.rx_data_packets + 1 }

  counted-IsTracked : (f : RecvFlow H) → IsTracked H f → IsTracked H (counted f)
  counted-IsTracked f v = record {
    tracked = v.tracked;
    valid = v.valid;
    waiting = v.waiting;
    buffered = v.buffered;
  }

  -- A chunk that was not received before.
  fresh-Brings :
      (f : RecvFlow H) (ranges : List Range) (c : DataChunk)
      → IsSettled f
      → contain f.recv_ranges c.seq_num ≡ false
      → 0 < c.seq_num
      → IsValid ranges
      → ((p : ℕ) → contain ranges p ≡ (p == c.seq_num || contain f.recv_ranges p))
      → Brings c.seq_num f (order_chunks H (store_chunk H (counted f) ranges c))
  fresh-Brings f ranges c v e pos valid holds =
      let g = store_chunk H (counted f) ranges c in
      let tracked =
        store_chunk-IsTracked (counted f) ranges c (counted-IsTracked f v.tracked) e valid holds in
      let no_zero : contain ranges 0 ≡ false = ground (arith, holds 0, v.no_zero) in
      let o = order_chunks-Ordered H g tracked (unfold store_chunk in no_zero) in
      record {
        settled = record {
          tracked = o.tracked;
          no_zero = rw o.ranges (unfold store_chunk in no_zero);
          idle = o.idle;
        };
        received = λ p. rw o.ranges (unfold store_chunk in holds p);
        moved = unfold store_chunk in o.moved;
      }

  -- A chunk that was received before is acknowledged once more, and changes nothing else.
  again-Brings :
      (f : RecvFlow H) (seq : ℕ)
      → IsSettled f
      → contain f.recv_ranges seq ≡ true
      → Brings seq f (counted f)
  again-Brings f seq v e = record {
    settled = record {
      tracked = counted-IsTracked f v.tracked;
      no_zero = v.no_zero;
      idle = v.idle;
    };
    received = λ p. ground arith;
    moved = ([], sym (append-nil f.ordered_recv_buf), refl);
  }

  -- On a settled flow a chunk with a number from 1 to 2 ^ 63 - 2 never panics, new or not: afterwards the flow
  -- is settled, exactly this number is received besides those that were, and the ordered buffer has
  -- grown by chunks that are numbered one after the other, up to the new last number in order.
  pub on_userdata_total :
      (g : Globals) (f : RecvFlow H) (ctrl seq : ℕ) (buf : List ℕ)
      → IsSettled f
      → 0 < seq
      → seq + 1 < 2 ^ 63
      → (f' : RecvFlow H) × (on_userdata H g f ctrl seq buf ≡ some f') × Brings seq f f'
  unfolding on_userdata
  on_userdata_total g f ctrl seq buf v pos small = elim (Bool-cases (contain f.recv_ranges seq)) [
    | inl old ↦
        let (f', a, e, k, r, s, d) =
          send_ack_total H g (counted f) (counted-IsTracked f v.tracked) in
        (f', rw old e, Brings-Same seq f (counted f) f' (again-Brings f seq v old) s)
    | inr new ↦
        let (ranges, e, valid, holds) =
          add_range-Adds f.recv_ranges (single seq) v.tracked.valid (single-IsProper seq small) in
        let c = new_chunk ctrl seq buf in
        let b =
          fresh-Brings f ranges c v new pos valid
            (λ p. rw (range_contain-single seq p small) at (holds p)) in
        let (f', e', s) =
          acknowledge_total g (acks_now H (counted f))
            (order_chunks H (store_chunk H (counted f) ranges c)) b.settled.tracked in
        (f', rw (new, e) e', Brings-Same seq f _ f' b s)
  ]
