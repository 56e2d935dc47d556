-- ===== src/NetStream/Attach.antt =====
-- The replies of a stream that was opened passively find the stream that was opened actively: the flows of
-- src/rtmfp/netstream.go and the callbacks of src/rtmfp/bi_stream.go.
use go_rtmfp.Prelude.{
  ℕ, suc, ◌+◌, ◌<◌, ◌≡◌, refl, ap, ◌∙◌, true, false, none, some, List, [], ◌∷◌, ◌++◌, ◌==◌, length,
  IsU64, add64, arith, sub64,
}
use go_rtmfp.Prelude.Order.{lt_wf}
use go_rtmfp.Vlu.{encode_vlu, internal_encode_vlu, group_byte, decode_vlu}
use go_rtmfp.Vlu.RoundTrip.{decode_vlu-encode_vlu, encode-small}
use go_rtmfp.ChunkHeap.{ChunkHeap}
use go_rtmfp.Buffer.{read_u8}
use go_rtmfp.Chunk.{PacketContext, Runtime, recv_userdata}
use go_rtmfp.Chunk.Options.{read_vlu_option, vlu_option_loop}
use go_rtmfp.Handshake.Hello.{vlu_miss}
use go_rtmfp.Chunk.Data.{AreOptions, decode_userdata_chunk-send_userdata_body}
use go_rtmfp.Chunk.Decode.{decode_userdata_chunk}
use go_rtmfp.Chunk.Encode.{send_userdata_body}
use go_rtmfp.SendFlow.State.{SendFlow, open_flow}
use go_rtmfp.SendFlow.Transmit.{flow_options, get_vlu_size}
use go_rtmfp.RecvFlow.State.{RecvFlow}
use go_rtmfp.RecvFlow.Events.{new_flow}
use go_rtmfp.Session.Flows.{Tables, find_flow, new_send_flow, new_recv_flow, new_flowid}
use go_rtmfp.Session.Routes.{find_flow-put_flow}
use go_rtmfp.NetStream.Opening.{
  NetStream, no_flows, Timeouts, Opening, net_stream_res_signature, net_passive_open, attach_flow,
  recv_flow_of, attached, create_active_flow,
}

-- The options of the flow that replies to the flow of a number.
abbrev pub reply_options : ℕ → List ℕ
reply_options a = (net_stream_res_signature ++ (0x02 ∷ 0x0a ∷ encode_vlu a)) ++ 0 ∷ []

-- The signature is passed by, and the number is read.
option_hit :
    (a fuel : ℕ)
    → IsU64 a
    → vlu_option_loop 0x0a 0 (suc fuel) (0x02 ∷ 0x0a ∷ (encode_vlu a ++ 0 ∷ [])) ≡ some a
unfolding vlu_option_loop decode_vlu read_u8
option_hit a fuel h = ap (λ (d : ℕ × List ℕ). some d.0) (decode_vlu-encode_vlu a (0 ∷ []) h)

pub reply_options-found : (a : ℕ) → IsU64 a → read_vlu_option (reply_options a) 0x0a 0 ≡ some a
unfolding read_vlu_option
reply_options-found a h =
    let rest = 0x02 ∷ 0x0a ∷ (encode_vlu a ++ 0 ∷ []) in
    vlu_miss 0x0a 0x00 0 (suc (length (0x54 ∷ 0x43 ∷ 0x04 ∷ 0x00 ∷ rest))) 0x05 5
      (0x00 ∷ 0x54 ∷ 0x43 ∷ 0x04 ∷ 0x00 ∷ rest) (0x54 ∷ 0x43 ∷ 0x04 ∷ 0x00 ∷ []) rest
      (unfold decode_vlu in refl) refl (unfold sub64 in refl) (omega arith)
    ∙ option_hit a (length (0x54 ∷ 0x43 ∷ 0x04 ∷ 0x00 ∷ rest)) h

short : (n : ℕ) → n < 128 → encode_vlu n ≡ n ∷ []
unfolding encode_vlu internal_encode_vlu group_byte
short n h = encode-small n false (lt_wf.apply n) h ∙ ap (λ (b : ℕ). b ∷ []) (omega arith)

reply_options-AreOptions :
    (env : Runtime) (a : ℕ) → a < 128 → 5 < env.max_alloc → AreOptions env (some (reply_options a))
reply_options-AreOptions env a h k = (
  (0x00 ∷ 0x54 ∷ 0x43 ∷ 0x04 ∷ 0x00 ∷ []) ∷ (0x0a ∷ a ∷ []) ∷ [],
  ((omega arith, k, omega arith, (omega arith, omega arith, omega arith, tt))),
  rw (short a h, short 5 (omega arith), short 2 (omega arith), short 0 (omega arith)) refl,
)

-- The sending flow that a stream makes for the flow of a number.
reply_flow :
    (H : ChunkHeap) (times : Timeouts) (a : ℕ) (t : Tables H)
    → let t' = (net_passive_open H times a no_flows t).1 in
      (f : SendFlow) × (find_flow t'.last_flowid t'.send_flows ≡ some f)
      × (f.flowid ≡ t'.last_flowid)
      × (f.rel_flowid ≡ a)
      × (f.signature ≡ some net_stream_res_signature)
unfolding net_passive_open new_send_flow new_recv_flow open_flow
reply_flow H times a t = (_, find_flow-put_flow _ _ t.send_flows, refl, refl, refl)

not_zero : (n : ℕ) → (suc n == 0) ≡ false
not_zero n = ground arith

own_options :
    (f : SendFlow)
    → (f.rel_flowid == 0) ≡ false
    → f.signature ≡ some net_stream_res_signature
    → flow_options f ≡ some (reply_options f.rel_flowid)
unfolding flow_options get_vlu_size
own_options f named s =
    let rel = encode_vlu (1 + get_vlu_size f.rel_flowid) ++ (0x0a ∷ encode_vlu f.rel_flowid) in
    rw (s, named, not_zero (suc (suc (suc (suc (suc (length rel))))))) refl

flow_options-reply :
    (f : SendFlow) (a : ℕ)
    → 0 < a
    → f.rel_flowid ≡ a
    → f.signature ≡ some net_stream_res_signature
    → flow_options f ≡ some (reply_options a)
flow_options-reply f a h r s = own_options f (ground arith) s ∙ ap (λ n. some (reply_options n)) r

-- The stream `s` has the flow `flowid` after the callback, and its messages are taken by one dispatcher more.
pub record Attaches (H : ChunkHeap) (flowid : ℕ) (s s' : Opening) (t t' : Tables H) (r : RecvFlow H)
    : Type 0 where
  pub found : find_flow flowid t'.recv_flows ≡ some r
  pub new : r ≡ new_flow H flowid
  pub dispatched : s'.dispatchers ≡ s.dispatchers + 1
  pub sending : t'.send_flows ≡ t.send_flows
  pub numbered : s'.active_flowid ≡ s.active_flowid
  pub net : (ns : NetStream) × (s'.net ≡ some ns) × (ns.recv_flowid ≡ some flowid)

pub first_flow :
    (H : ChunkHeap) (flowid a : ℕ) (options : List ℕ) (s : Opening) (ns : NetStream) (t : Tables H)
    → read_vlu_option options 0xa 0 ≡ some a
    → s.active_flowid ≡ a
    → s.net ≡ some ns
    → ns.recv_flowid ≡ none
    → (s' : Opening) × (t' : Tables H) × (r : RecvFlow H) × (create_active_flow H
          (some options)
          flowid
          s
          t
        ≡ some (s', t', some r))
      × Attaches H flowid s s' t t' r
unfolding create_active_flow attached attach_flow recv_flow_of new_recv_flow
first_flow H flowid a options s ns t e i n none_yet =
    let put = find_flow-put_flow flowid (new_flow H flowid) t.recv_flows in
    let same : (a == s.active_flowid) ≡ true = ground arith in
    (
      record s {
        net = some (record ns { recv_flowid = some flowid });
        dispatchers = s.dispatchers + 1;
      },
      new_recv_flow H flowid t,
      new_flow H flowid,
      rw (e, same, n, none_yet, put) refl,
      record {
        found = put;
        new = refl;
        dispatched = refl;
        sending = refl;
        numbered = refl;
        net = (record ns { recv_flowid = some flowid }, refl, refl);
      },
    )

last_flowid-IsU64 :
    (H : ChunkHeap) (times : Timeouts) (a : ℕ) (t : Tables H)
    → IsU64 (net_passive_open H times a no_flows t).1.last_flowid
unfolding net_passive_open new_send_flow new_recv_flow new_flowid add64
last_flowid-IsU64 H times a t = omega arith

-- A stream that was opened actively on the flow `a` waits for the flow of its replies. The other end, where a chunk for
-- `a` comes first, opens a stream for it by `passive_open`. The first chunk of that stream's sending flow names `a` in
-- its options, with the signature of a response: its bytes are decoded with exactly these options, and the callback that
-- `active_open` set makes a new receiving flow under the number of the chunk, attaches it to the stream, starts one
-- dispatcher, leaves the sending flows, and returns the flow without a panic. This is for a number of at most 127, since
-- the writer takes the length of a number to be 1, a stream with no flow of replies yet, a fragment control of two bits, a
-- 64-bit offset, and options that can be allocated.
pub create_active_flow-Attaches :
    (H : ChunkHeap) (times : Timeouts) (env : Runtime) (a n fsn : ℕ) (body : List ℕ)
    (cxt : PacketContext) (s : Opening) (ns : NetStream) (t far : Tables H)
    → 0 < a
    → a < 128
    → 5 < env.max_alloc
    → n < 4
    → IsU64 fsn
    → s.active_flowid ≡ a
    → s.net ≡ some ns
    → ns.recv_flowid ≡ none
    → let far' = (net_passive_open H times a no_flows far).1 in
      (f : SendFlow) × (opts : List ℕ) × (s' : Opening) × (t' : Tables H) × (r : RecvFlow H)
      × (find_flow far'.last_flowid far'.send_flows ≡ some f)
      × (flow_options f ≡ some opts)
      × (decode_userdata_chunk env
            (send_userdata_body n far'.last_flowid 1 fsn body (some opts) false false)
            cxt
          ≡ some (
            recv_userdata n far'.last_flowid 1 fsn body (some opts) false false,
            record { last_flowid = far'.last_flowid; last_seqnum = 1; last_fsn_offset = fsn },
          ))
      × (create_active_flow H (some opts) far'.last_flowid s t ≡ some (s', t', some r))
      × Attaches H far'.last_flowid s s' t t' r
create_active_flow-Attaches H times env a n fsn body cxt s ns t far h0 h k hn hf i e none_yet =
    let far' = (net_passive_open H times a no_flows far).1 in
    let (f, found, fid, rel, sig) = reply_flow H times a far in
    let (s', t', r, made, done) =
      first_flow H far'.last_flowid a (reply_options a) s ns t (reply_options-found a (omega arith))
        i e none_yet in
    (
      f,
      reply_options a,
      s',
      t',
      r,
      found,
      flow_options-reply f a h0 rel sig,
      decode_userdata_chunk-send_userdata_body env n far'.last_flowid 1 fsn body
          (some (reply_options a)) false false cxt hn (last_flowid-IsU64 H times a far)
          (omega arith) hf (reply_options-AreOptions env a h k),
      made,
      done,
    )
