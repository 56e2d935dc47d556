-- ===== src/Transport/Rounds.antt =====
-- Rounds of the events of a stream, over the model of src/rtmfp/transport.go and src/rtmfp/bi_stream.go.
use go_rtmfp.Prelude.{
  ℕ, ◌≡◌, refl, sym, ap, ◌∙◌, true, false, Option, none, some, List, [], ◌∷◌, ◌++◌, length, All,
  map, ◌>>=◌, ltb, append-nil, append_assoc,
}
use go_rtmfp.ChunkHeap.{ChunkHeap}
use go_rtmfp.Amf.Value.{text}
use go_rtmfp.Amf.ValueTrip.{IsReadable}
use go_rtmfp.SendFlow.State.{SendFlow}
use go_rtmfp.SendFlow.Transmit.{send}
use go_rtmfp.RecvFlow.State.{RecvFlow}
use go_rtmfp.Packet.Reads.{==-same}
use go_rtmfp.Session.Flows.{Tables, find_flow, put_flow}
use go_rtmfp.NetStream.{cmd_play, encode_msg, net_send}
use go_rtmfp.NetStream.Opening.{NetStream, Opening, send_name, play, create_active_flow}
use go_rtmfp.NetStream.Streams.{AreMessages}
use go_rtmfp.NetStream.ActiveStream.{ActiveStream, waits, active_round}
use go_rtmfp.NetStream.Replies.{with_data, data_round}
use go_rtmfp.Transport.{
  Event, message_comes, Stream, flow_arrives, after_round, reads_from, message_arrives,
  stream_event, run_stream, wait_start,
}

-- The last chunks of messages on a flow.
abbrev pub messages_on : ℕ → List (List ℕ) → List Event
messages_on id bufs = map (message_comes id) bufs

module _ (H : ChunkHeap) where
  abbrev pub kept : Stream H → ActiveStream → Stream H
  kept s a = record s {
    active = a;
    tables = record s.tables {
      send_flows = put_flow s.opening.active_flowid a.send_flow s.tables.send_flows;
    };
  }

  -- A dispatcher takes messages of the flow.
  abbrev pub Takes : ℕ → Stream H → Type 0
  Takes id s = (reads_from H id s ≡ true) × (ltb s.blocked s.opening.dispatchers ≡ true)

  pub kept-Takes : (id : ℕ) (s : Stream H) (a : ActiveStream) → Takes id s → Takes id (kept s a)
  unfolding reads_from
  kept-Takes id s a h = h

  pub message_round :
      (id : ℕ) (buf : List ℕ) (s : Stream H) (a : ActiveStream)
      → Takes id s
      → active_round s.active buf ≡ waits a
      → stream_event H (message_comes id buf) s ≡ some (kept s a)
  unfolding stream_event message_arrives after_round
  message_round id buf s a (r, d) e = rw (r, d, e, after_round) refl

  -- Payloads that come to a dispatcher.
  pub run_payloads :
      (id : ℕ) (s : Stream H) (ds bufs : List (List ℕ))
      → Takes id s
      → All (λ d. IsReadable (length d)) ds
      → AreMessages ds bufs
      → (s' : Stream H) × (run_stream H (messages_on id bufs) s ≡ some s')
        × (s'.active.received_msgs ≡ s.active.received_msgs ++ ds)
  unfolding run_stream
  run_payloads id s [] [] h r m = (s, refl, sym (append-nil s.active.received_msgs))
  run_payloads id s [] (buf ∷ bufs) h r m = absurd m
  run_payloads id s (d ∷ ds) [] h r m = absurd m
  run_payloads id s (d ∷ ds) (buf ∷ bufs) h (r, rs) (m, ms) =
      let next = kept s (with_data s.active (d ∷ [])) in
      let (s', e, k) =
        run_payloads id next ds bufs (kept-Takes id s (with_data s.active (d ∷ [])) h) rs ms in
      let one =
        message_round id buf s (with_data s.active (d ∷ [])) h (data_round s.active d buf r m) in
      (
        s',
        ap (λ x. x >>= run_stream H (messages_on id bufs)) one ∙ e,
        k ∙ append_assoc s.active.received_msgs (d ∷ []) ds,
      )

  -- A round of the wait that does not end it, and one that does.
  pub wait_next :
      (e : Event) (es : List Event) (s s' : Stream H)
      → stream_event H e s ≡ some s'
      → s'.active.opened ≡ false
      → wait_start H (e ∷ es) s ≡ wait_start H es s'
  unfolding wait_start
  wait_next e es s s' k o = rw (k, o) refl

  pub wait_over :
      (e : Event) (es : List Event) (s s' : Stream H)
      → stream_event H e s ≡ some s'
      → s'.active.opened ≡ true
      → wait_start H (e ∷ es) s ≡ some (some (s', es))
  unfolding wait_start
  wait_over e es s s' k o = rw (k, o) refl

  pub unread :
      (id : ℕ) (buf : List ℕ) (s : Stream H)
      → reads_from H id s ≡ false
      → stream_event H (message_comes id buf) s ≡ some s
  unfolding stream_event message_arrives
  unread id buf s h = rw h refl

  -- Messages of a flow that the stream does not read stay where they are.
  pub wait_unread :
      (id : ℕ) (s : Stream H) (bufs : List (List ℕ))
      → reads_from H id s ≡ false
      → s.active.opened ≡ false
      → wait_start H (messages_on id bufs) s ≡ some none
  wait_unread id s [] h o = unfold wait_start in refl
  wait_unread id s (buf ∷ bufs) h o =
      wait_next (message_comes id buf) (messages_on id bufs) s s (unread id buf s h) o
      ∙ wait_unread id s bufs h o

  pub play_encoded :
      (name buf : List ℕ) (id : ℕ) (f : SendFlow) (ns : NetStream) (t : Tables H)
      → ns.send_flowid ≡ some id
      → find_flow id t.send_flows ≡ some f
      → encode_msg cmd_play (text name) ≡ some buf
      → play H name ns t ≡ some (record t { send_flows = put_flow id (send f buf).0 t.send_flows })
  unfolding play send_name net_send
  play_encoded name buf id f ns t h m e = rw (h, m, send_name, e, net_send) refl

  pub reads_own :
      (id : ℕ) (s : Stream H) (ns : NetStream)
      → s.opening.net ≡ some ns
      → ns.recv_flowid ≡ some id
      → reads_from H id s ≡ true
  unfolding reads_from
  reads_own id s ns h k = rw (h, reads_from, k) (==-same id)

  pub reads_none :
      (id : ℕ) (s : Stream H) (ns : NetStream)
      → s.opening.net ≡ some ns
      → ns.recv_flowid ≡ none
      → reads_from H id s ≡ false
  unfolding reads_from
  reads_none id s ns h k = rw (h, reads_from, k) refl

  pub arrives_new :
      (s : Stream H) (options : Option (List ℕ)) (id : ℕ) (o : Opening) (t : Tables H)
      (f : RecvFlow H)
      → find_flow id s.tables.recv_flows ≡ none
      → create_active_flow H options id s.opening s.tables ≡ some (o, t, some f)
      → flow_arrives H options id s ≡ some (record s { opening = o; tables = t })
  unfolding flow_arrives
  arrives_new s options id o t f h k = rw (h, flow_arrives, k) refl
