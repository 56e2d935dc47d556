-- ===== src/Session/Flows.antt =====
-- The flows of a session, and the handlers of src/rtmfp/session.go for the chunks that concern them.
use go_rtmfp.Prelude.{
  false, ℕ, ◌-◌, not, ◌&&◌, Option, none, some, List, [], ◌∷◌, map, ltb, ◌==◌, ◌>>=◌, if◌then◌else◌,
  add64,
}
use go_rtmfp.DataChunk.{Globals}
use go_rtmfp.ChunkHeap.{ChunkHeap}
use go_rtmfp.Amf.Value.{same_key}
use go_rtmfp.Chunk.{
  ChunkCall, recv_userdata, recv_range_ack, recv_buffer_probe, recv_flow_exception_report,
  recv_session_close_request, recv_ping, recv_ping_reply,
}
use go_rtmfp.SendFlow.State.{SendFlow, open_flow, close as close_send}
use go_rtmfp.SendFlow.Ack.{on_range_ack}
use go_rtmfp.RecvFlow.State.{RecvFlow, on_buffer_probe, close as close_recv}
use go_rtmfp.RecvFlow.Receive.{on_userdata}
use go_rtmfp.RecvFlow.Events.{new_flow}
use go_rtmfp.Session.Keys.{SentChunk}

-- A map from the numbers of flows.
unfoldable pub find_flow {ℓ} : {A : Type ℓ} → ℕ → List (ℕ × A) → Option A
find_flow id [] = none
find_flow id ((k, f) ∷ fs) = if k == id then some f else find_flow id fs

unfoldable pub put_flow {ℓ} : {A : Type ℓ} → ℕ → A → List (ℕ × A) → List (ℕ × A)
put_flow id f [] = (id, f) ∷ []
put_flow id f ((k, g) ∷ fs) = if k == id then (id, f) ∷ fs else (k, g) ∷ put_flow id f fs

-- The flow under a number changes, where there is one.
unfoldable pub change_flow {ℓ} : {A : Type ℓ} → ℕ → A → List (ℕ × A) → List (ℕ × A)
unfolding find_flow put_flow
change_flow id f fs = elim (find_flow id fs) [ none ↦ fs | some _ ↦ put_flow id f fs ]

module _ (H : ChunkHeap) where
  -- The fields of `session` that the handlers of flows use; `sent` is what went out, latest first.
  pub record Tables : Type 0 where
    pub other_addr : List ℕ
    pub last_flowid : ℕ
    pub send_flows : List (ℕ × SendFlow)
    pub recv_flows : List (ℕ × RecvFlow H)
    pub mobile_tx_ts : ℕ
    pub sent : List SentChunk

  -- What the owner of the session set: `create_recv_flow`, whose result is the flow where it is not nil, and
  -- `recv_close_request`.
  pub record Owner : Type 0 where
    pub create_recv_flow : Option (Option (List ℕ) → ℕ → Tables → Tables × Option (RecvFlow H))
    pub recv_close_request : Option (Tables → Tables)

  unfoldable pub send_to : List ℕ → ℕ → List ℕ → Tables → Tables
  send_to addr chunk_type body t = record t {
    sent = record { dst_addr = addr; chunk_type = chunk_type; body = body } ∷ t.sent;
  }

  unfoldable pub new_flowid : Tables → Tables
  new_flowid t = record t { last_flowid = add64 t.last_flowid 1 }

  -- `new_send_flow`, at the session's timeouts.
  unfoldable pub new_send_flow : ℕ → Option (List ℕ) → ℕ → ℕ → Tables → Tables
  unfolding new_flowid put_flow open_flow
  new_send_flow rel_flowid signature erto mrto t =
      let t' = new_flowid t in
      record t' {
        send_flows =
            put_flow t'.last_flowid
              (open_flow (record {
                flowid = t'.last_flowid;
                rel_flowid = rel_flowid;
                last_seqnum = 0;
                send_queue = [];
                inflight_bytes = 0;
                acked_bytes_accumulator = 0;
                recv_wnd = 0;
                cong_wnd = 0;
                ssthresh = 0;
                ack_ranges = [];
                data_packets_count = 0;
                bufprob_ticker = false;
                rtx_alarm = none;
                current_tsn = 0;
                signature = signature;
                closed = false;
                c_loss = 0;
                erto = erto;
                mrto = mrto;
                sent = [];
              }))
              t'.send_flows;
      }

  unfoldable pub new_recv_flow : ℕ → Tables → Tables
  unfolding put_flow new_flow
  new_recv_flow flowid t = record t {
    recv_flows = put_flow flowid (new_flow H flowid) t.recv_flows;
  }

  -- The flow of a chunk, with the number that it stands under: one of the table, or one that the owner returns, which
  -- stands under its own number.
  unfoldable pub flow_for : Owner → Option (List ℕ) → ℕ → Tables → Tables × Option (ℕ × RecvFlow H)
  unfolding find_flow
  flow_for owner options flowid t = elim (find_flow flowid t.recv_flows) [
    | some f ↦ (t, some (flowid, f))
    | none ↦ elim owner.create_recv_flow [
      | none ↦ (t, none)
      | some create ↦
          let (t', made) = create options flowid t in
          (t', elim made [ none ↦ none | some f ↦ some (f.flowid, f) ])
    ]
  ]

  -- A chunk for no flow panics, behind its report. A flow that is in no table changes none.
  unfoldable pub on_flow :
      Globals → ℕ → ℕ → List ℕ → Tables × Option (ℕ × RecvFlow H) → Option Tables
  unfolding change_flow
  on_flow g ctrl seq body (t, none) = none
  on_flow g ctrl seq body (t, some (id, f)) = on_userdata H g f ctrl seq body >>= λ f'.
      some (record t { recv_flows = change_flow id f' t.recv_flows })

  -- The flow of a number in place of the old one, where there is one.
  unfoldable pub on_recv_flow : ℕ → (RecvFlow H → Option (RecvFlow H)) → Tables → Option Tables
  unfolding find_flow put_flow
  on_recv_flow flowid act t = elim (find_flow flowid t.recv_flows) [
    | none ↦ some t
    | some f ↦ act f >>= λ f'. some (record t { recv_flows = put_flow flowid f' t.recv_flows })
  ]

  unfoldable pub on_send_flow : ℕ → (SendFlow → Option SendFlow) → Tables → Option Tables
  unfolding find_flow put_flow
  on_send_flow flowid act t = elim (find_flow flowid t.send_flows) [
    | none ↦ some t
    | some f ↦ act f >>= λ f'. some (record t { send_flows = put_flow flowid f' t.send_flows })
  ]

  unfoldable pub on_close_request : Owner → Tables → Tables
  unfolding send_to
  on_close_request owner t =
      let t' : Tables = elim owner.recv_close_request [ none ↦ t | some act ↦ act t ] in
      send_to t'.other_addr 0x4c [] t'

  -- A reply to a ping confirms a new address within 120 seconds.
  unfoldable pub on_ping_reply : ℕ → List ℕ → Tables → Tables
  on_ping_reply now src t =
      if not (same_key src t.other_addr) && ltb (now - t.mobile_tx_ts) 120000000000
      then record t { other_addr = src }
      else t

  -- The calls that the chunks make on the session. Those of the handshake and of the keys leave the flows.
  unfoldable pub flow_call : Globals → Owner → ℕ → List ℕ → ChunkCall → Tables → Option Tables
  unfolding on_flow flow_for on_recv_flow on_send_flow on_close_request on_ping_reply send_to
  flow_call g owner now src (recv_userdata ctrl flowid seq fsn_offset body options abandon final)
        t =
      on_flow g ctrl seq body (flow_for owner options flowid t)
  flow_call g owner now src (recv_range_ack flowid buf_avail cum_ack ranges) t =
      on_send_flow flowid (λ f. on_range_ack g f buf_avail cum_ack ranges) t
  flow_call g owner now src (recv_buffer_probe flowid) t =
      on_recv_flow flowid (on_buffer_probe H g) t
  flow_call g owner now src (recv_flow_exception_report flowid exception) t =
      on_send_flow flowid (λ f. some f) t
  flow_call g owner now src recv_session_close_request t = some (on_close_request owner t)
  flow_call g owner now src (recv_ping msg) t = some (send_to src 0x41 msg t)
  flow_call g owner now src (recv_ping_reply msg) t = some (on_ping_reply now src t)
  flow_call g owner now src _ t = some t

  -- What `recv_packet` does once the chunks are handled: a packet from a new address is answered by a ping, "hello",
  -- at most once a second.
  unfoldable pub note_address : ℕ → List ℕ → Tables → Tables
  unfolding send_to
  note_address now src t =
      if not (same_key src t.other_addr) && ltb 1000000000 (now - t.mobile_tx_ts)
      then send_to src 0x01 (0x68 ∷ 0x65 ∷ 0x6c ∷ 0x6c ∷ 0x6f ∷ [])
          (record t { mobile_tx_ts = now })
      else t

  -- `close`
  unfoldable pub close_session : Tables → Tables
  unfolding send_to close_send close_recv
  close_session t =
      let t' = send_to t.other_addr 0x0c [] t in
      record t' {
        send_flows = map (λ (e : ℕ × SendFlow). (e.0, close_send e.1)) t'.send_flows;
        recv_flows = map (λ (e : ℕ × RecvFlow H). (e.0, close_recv H e.1)) t'.recv_flows;
      }
