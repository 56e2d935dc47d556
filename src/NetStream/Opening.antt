-- ===== src/NetStream/Opening.antt =====
-- How src/rtmfp/netstream.go and src/rtmfp/bi_stream.go open a stream over the flows of a session, at both ends.
use go_rtmfp.Prelude.{
  ℕ, ◌+◌, Bool, true, false, Option, none, some, List, [], ◌∷◌, ◌==◌, ◌>>=◌, if◌then◌else◌,
}
use go_rtmfp.ChunkHeap.{ChunkHeap}
use go_rtmfp.Chunk.Options.{read_vlu_option}
use go_rtmfp.Amf.Value.{text}
use go_rtmfp.RecvFlow.State.{RecvFlow}
use go_rtmfp.Session.Flows.{Tables, find_flow, put_flow, new_send_flow, new_recv_flow}
use go_rtmfp.NetStream.{net_send, cmd_play, cmd_publish}

abbrev pub net_stream_req_signature : List ℕ
net_stream_req_signature = 0x07 ∷ 0x00 ∷ 0x54 ∷ 0x43 ∷ 0x04 ∷ 0xFA ∷ 0x89 ∷ 0x00 ∷ []

abbrev pub net_stream_res_signature : List ℕ
net_stream_res_signature = 0x05 ∷ 0x00 ∷ 0x54 ∷ 0x43 ∷ 0x04 ∷ 0x00 ∷ []

-- `net_stream`: its flows by their numbers in the tables of its session, `none` for nil.
pub record NetStream : Type 0 where
  pub send_flowid : Option ℕ
  pub recv_flowid : Option ℕ

abbrev pub no_flows : NetStream
no_flows = record { send_flowid = none; recv_flowid = none }

-- The session's timeouts at the time.
pub record Timeouts : Type 0 where
  pub erto : ℕ
  pub mrto : ℕ

-- A `bi_stream` as far as its opening goes: `net` is nil at the passive end until a flow comes, and `dispatchers` is how
-- many goroutines take messages off its flow.
pub record Opening : Type 0 where
  pub net : Option NetStream
  pub active_flowid : ℕ
  pub dispatchers : ℕ

module _ (H : ChunkHeap) where
  -- `attach_flow`
  unfoldable pub attach_flow : ℕ → NetStream → Tables H → NetStream × Tables H × Bool
  unfolding new_recv_flow
  attach_flow flowid ns t = elim ns.recv_flowid [
    | none ↦ (record ns { recv_flowid = some flowid }, new_recv_flow H flowid t, true)
    | some _ ↦ (ns, t, false)
  ]

  -- `self.ns.recvFlow`
  unfoldable pub recv_flow_of : NetStream → Tables H → Option (RecvFlow H)
  unfolding find_flow
  recv_flow_of ns t = elim ns.recv_flowid [ none ↦ none | some id ↦ find_flow id t.recv_flows ]

  -- `send` of a command with a name, on the flow of the stream.
  unfoldable pub send_name : List ℕ → List ℕ → NetStream → Tables H → Option (Tables H)
  unfolding find_flow put_flow net_send
  send_name cmd name ns t = elim ns.send_flowid [
    | none ↦ none
    | some id ↦ elim (find_flow id t.send_flows) [
      | none ↦ none
      | some f ↦ net_send f cmd (text name) >>= λ r.
          some (record t { send_flows = put_flow id r.0 t.send_flows })
    ]
  ]

  unfoldable pub play : List ℕ → NetStream → Tables H → Option (Tables H)
  unfolding send_name
  play name ns t = send_name cmd_play name ns t

  unfoldable pub publish : List ℕ → NetStream → Tables H → Option (Tables H)
  unfolding send_name
  publish name ns t = send_name cmd_publish name ns t

  -- The stream, the tables and the flow that a callback returns, none for an error.
  unfoldable pub attached :
      ℕ → NetStream → Opening → Tables H → Opening × Tables H × Option (RecvFlow H)
  unfolding attach_flow recv_flow_of
  attached flowid ns s t =
      let (ns', t', first) = attach_flow flowid ns t in
      (record s { net = some ns'; dispatchers = s.dispatchers + 1 }, t', recv_flow_of ns' t')

  -- The `create_recv_flow` that `active_open` sets. Options that are nil have no bytes. A nil `ns` panics.
  unfoldable pub create_active_flow :
      Option (List ℕ) → ℕ → Opening → Tables H → Option (Opening × Tables H × Option (RecvFlow H))
  unfolding attached
  create_active_flow options flowid s t =
      let bytes : List ℕ = elim options [ none ↦ [] | some o ↦ o ] in
      read_vlu_option bytes 0xa 0 >>= λ rel_flowid.
      if rel_flowid == s.active_flowid
      then (elim s.net [ none ↦ none | some ns ↦ some (attached flowid ns s t) ])
      else some (s, t, none)

module _ (H : ChunkHeap) (times : Timeouts) where
  -- `active_open`, with the number of the flow.
  unfoldable pub net_active_open : NetStream → Tables H → NetStream × Tables H × ℕ
  unfolding new_send_flow
  net_active_open ns t =
      let t' = new_send_flow H 0 (some net_stream_req_signature) times.erto times.mrto t in
      (record ns { send_flowid = some t'.last_flowid }, t', t'.last_flowid)

  -- `passive_open`: the flow that came, and one for the replies, which names it.
  unfoldable pub net_passive_open : ℕ → NetStream → Tables H → NetStream × Tables H
  unfolding new_send_flow new_recv_flow
  net_passive_open recv_flowid ns t =
      let t' =
        new_send_flow H recv_flowid (some net_stream_res_signature) times.erto times.mrto
          (new_recv_flow H recv_flowid t) in
      (record ns { send_flowid = some t'.last_flowid; recv_flowid = some recv_flowid }, t')

  -- `active_open` up to the wait for the reply; the name is played.
  unfoldable pub start_active : List ℕ → Tables H → Option (Opening × Tables H)
  unfolding net_active_open play
  start_active dst_stream t =
      let opened = net_active_open no_flows t in
      play H dst_stream opened.0 opened.1 >>= λ t'.
      some (record { net = some opened.0; active_flowid = opened.2; dispatchers = 0 }, t')

  -- The `create_recv_flow` that `passive_open` sets: a second flow panics.
  unfoldable pub create_passive_flow :
      ℕ → Opening → Tables H → Option (Opening × Tables H × Option (RecvFlow H))
  unfolding net_passive_open recv_flow_of
  create_passive_flow flowid s t = elim s.net [
    | some _ ↦ none
    | none ↦
        let (ns, t') = net_passive_open flowid no_flows t in
        some (record s { net = some ns; dispatchers = s.dispatchers + 1 }, t', recv_flow_of H ns t')
  ]
