-- ===== src/Session/Routes.antt =====
-- A chunk of data on its way from `send_userdata` to the flow of its number in src/rtmfp/session.go.
use go_rtmfp.Prelude.{
  ℕ, ◌+◌, ◌^◌, ◌<◌, ◌≡◌, ◌≢◌, refl, Bool, Option, some, List, [], ◌∷◌, arith, IsU64,
}
use go_rtmfp.DataChunk.{Globals}
use go_rtmfp.ChunkHeap.{ChunkHeap}
use go_rtmfp.Chunk.{ChunkCall, PacketContext, Runtime, recv_userdata}
use go_rtmfp.Chunk.Decode.{decode_userdata_chunk}
use go_rtmfp.Chunk.Encode.{send_userdata_body}
use go_rtmfp.Chunk.Data.{AreOptions, decode_userdata_chunk-send_userdata_body}
use go_rtmfp.RecvFlow.State.{RecvFlow}
use go_rtmfp.RecvFlow.Userdata.{IsSettled, Brings, on_userdata_total}
use go_rtmfp.Session.Flows.{
  find_flow, put_flow, change_flow, Tables, Owner, flow_for, on_flow, flow_call,
}

pub find_flow-put_flow {ℓ} :
    {A : Type ℓ} (id : ℕ) (f : A) (fs : List (ℕ × A)) → find_flow id (put_flow id f fs) ≡ some f
unfolding find_flow put_flow
find_flow-put_flow id f [] = ground arith
find_flow-put_flow id f ((k, g) ∷ fs) = ground (arith, find_flow-put_flow id f fs)

find_flow-other {ℓ} :
    {A : Type ℓ} (i id : ℕ) (f : A) (fs : List (ℕ × A))
    → i ≢ id
    → find_flow i (put_flow id f fs) ≡ find_flow i fs
unfolding find_flow put_flow
find_flow-other i id f [] h = ground arith
find_flow-other i id f ((k, g) ∷ fs) h = ground (arith, find_flow-other i id f fs h)

known_changes {ℓ} :
    {A : Type ℓ} (id : ℕ) (f g : A) (fs : List (ℕ × A))
    → find_flow id fs ≡ some g
    → change_flow id f fs ≡ put_flow id f fs
unfolding change_flow
known_changes id f g fs e = rw (e, change_flow) refl

module _ (H : ChunkHeap) where
  known_flow :
      (owner : Owner H) (o : Option (List ℕ)) (flowid : ℕ) (t : Tables H) (f : RecvFlow H)
      → find_flow flowid t.recv_flows ≡ some f
      → flow_for H owner o flowid t ≡ (t, some (flowid, f))
  unfolding flow_for
  known_flow owner o flowid t f e = rw (e, flow_for) refl

  -- A chunk of data that send_userdata writes is read by the other end, and where its session knows the flow of the
  -- number, that flow takes the chunk, whose number becomes received as on_userdata does it, and the session does not
  -- panic. No other flow changes, in either direction. This is for a fragment control of two bits, 64-bit numbers, options
  -- that can be read back, and a flow and a sequence number as on_userdata wants them.
  pub flow_call-send_userdata_body :
      (g : Globals) (env : Runtime) (n flowid seq fsn : ℕ) (body : List ℕ) (o : Option (List ℕ))
      (a fin : Bool) (cxt : PacketContext) (owner : Owner H) (now : ℕ) (src : List ℕ) (t : Tables H)
      (f : RecvFlow H)
      → n < 4
      → IsU64 flowid
      → IsU64 fsn
      → AreOptions env o
      → find_flow flowid t.recv_flows ≡ some f
      → IsSettled H f
      → 0 < seq
      → seq + 1 < 2 ^ 63
      → (call : ChunkCall) × (cxt' : PacketContext) × (t' : Tables H) × (f' : RecvFlow H)
        × (decode_userdata_chunk env (send_userdata_body n flowid seq fsn body o a fin) cxt
            ≡ some (call, cxt'))
        × (flow_call H g owner now src call t ≡ some t')
        × (find_flow flowid t'.recv_flows ≡ some f')
        × Brings H seq f f'
        × ((id : ℕ) → id ≢ flowid → find_flow id t'.recv_flows ≡ find_flow id t.recv_flows)
        × (t'.send_flows ≡ t.send_flows)
  unfolding flow_call on_flow
  flow_call-send_userdata_body g env n flowid seq fsn body o a fin cxt owner now src t f h hf hn
        opts known settled pos small =
      let (f', e, brought) = on_userdata_total H g f n seq body settled pos small in
      let flows = put_flow flowid f' t.recv_flows in
      (
        recv_userdata n flowid seq fsn body o a fin,
        record { last_flowid = flowid; last_seqnum = seq; last_fsn_offset = fsn },
        record t { recv_flows = flows },
        f',
        decode_userdata_chunk-send_userdata_body env n flowid seq fsn body o a fin cxt h hf
            (omega arith) hn opts,
        rw (known_flow owner o flowid t f known, e, known_changes flowid f' f t.recv_flows known)
            refl,
        find_flow-put_flow flowid f' t.recv_flows,
        brought,
        (λ id k. find_flow-other id flowid f' t.recv_flows k),
        refl,
      )
