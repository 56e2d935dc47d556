-- ===== src/Transport/Begun.antt =====
-- A stream from its play on, in `active_open` of src/rtmfp/bi_stream.go.
use go_rtmfp.Prelude.{
  ℕ, ◌≡◌, ◌≢◌, refl, ap, ◌∙◌, true, false, none, some, List, [], ◌∷◌, ◌++◌, length, All, ◌==◌,
  arith, add64,
}
use go_rtmfp.ChunkHeap.{ChunkHeap}
use go_rtmfp.Chunk.Options.{read_vlu_option}
use go_rtmfp.Amf.Value.{text}
use go_rtmfp.Amf.ValueTrip.{IsReadable}
use go_rtmfp.SendFlow.State.{SendFlow}
use go_rtmfp.SendFlow.Transmit.{send}
use go_rtmfp.RecvFlow.State.{RecvFlow}
use go_rtmfp.RecvFlow.Events.{new_flow}
use go_rtmfp.Session.Keys.{Keying}
use go_rtmfp.Session.Flows.{Tables, find_flow, put_flow, new_send_flow, new_flowid}
use go_rtmfp.Session.Routes.{find_flow-put_flow}
use go_rtmfp.NetStream.{
  KeyOrder, cmd_on_status, cmd_play, play_reset, play_start, is_reset, is_playing, status_object,
  encode_msg,
}
use go_rtmfp.NetStream.Opening.{
  NetStream, Timeouts, Opening, no_flows, net_active_open, start_active, create_active_flow,
}
use go_rtmfp.NetStream.Attach.{first_flow}
use go_rtmfp.NetStream.Streams.{AreMessages}
use go_rtmfp.NetStream.Replies.{started, reset_round, start_round}
use go_rtmfp.Transport.{
  Event, flow_comes, message_comes, stream_name, open_tables, Stream, flow_arrives, reads_from,
  stream_event, run_stream, wait_start, waiting_stream, open_stream,
}
use go_rtmfp.Transport.Rounds.{
  messages_on, kept, Takes, kept-Takes, message_round, run_payloads, wait_next, wait_over,
  play_encoded, reads_own, reads_none, arrives_new,
}

module _ (H : ChunkHeap) (times : Timeouts) (session : Keying) where
  -- The stream's flows and tables at the opening, and after the play of the name.
  abbrev pub opened : NetStream × Tables H × ℕ
  opened = net_active_open H times no_flows (open_tables H session)

  abbrev pub begun : Opening
  begun = record { net = some opened.0; active_flowid = opened.2; dispatchers = 0 }

  abbrev pub played : SendFlow → List ℕ → Tables H
  played f buf = record opened.1 {
    send_flows = put_flow opened.2 (send f buf).0 opened.1.send_flows;
  }

  pub opened_flow : (f : SendFlow) × (find_flow opened.2 opened.1.send_flows ≡ some f)
  unfolding net_active_open new_send_flow
  opened_flow = (_, find_flow-put_flow _ _ (open_tables H session).send_flows)

  pub no_recv_flows : opened.1.recv_flows ≡ []
  unfolding net_active_open new_send_flow new_flowid open_tables
  no_recv_flows = refl

  pub first_flowid : opened.2 ≡ 1
  unfolding net_active_open new_send_flow new_flowid open_tables add64
  first_flowid = refl

  pub unattached : opened.0.recv_flowid ≡ none
  unfolding net_active_open new_send_flow
  unattached = refl

  pub sends_on : opened.0.send_flowid ≡ some opened.2
  unfolding net_active_open new_send_flow
  sends_on = refl

  pub start_active-played :
      (name buf : List ℕ) (f : SendFlow)
      → find_flow opened.2 opened.1.send_flows ≡ some f
      → encode_msg cmd_play (text name) ≡ some buf
      → start_active H times name (open_tables H session) ≡ some (begun, played f buf)
  unfolding start_active
  start_active-played name buf f m e =
      rw (play_encoded H name buf opened.2 f opened.0 opened.1 sends_on m e) refl

  -- The stream when its wait begins.
  abbrev pub at_wait : (ℕ → KeyOrder) → SendFlow → List ℕ → Stream H
  at_wait orders f buf = record {
    session = session;
    tables = played f buf;
    opening = begun;
    active = record {
      received_msgs = [];
      play_start_event = false;
      opening = true;
      opened = false;
      send_flow = (send f buf).0;
      key_orders = orders;
    };
    blocked = 0;
  }

  pub waiting_stream-at_wait :
      (orders : ℕ → KeyOrder) (buf : List ℕ) (f : SendFlow)
      → waiting_stream H orders session begun (played f buf) ≡ some (at_wait orders f buf)
  unfolding waiting_stream
  waiting_stream-at_wait orders buf f =
      let found = find_flow-put_flow opened.2 (send f buf).0 opened.1.send_flows in
      rw (found, waiting_stream) refl

  pub open_stream-waits :
      (orders : ℕ → KeyOrder) (events : List Event) (buf : List ℕ) (f : SendFlow)
      → find_flow opened.2 opened.1.send_flows ≡ some f
      → encode_msg cmd_play (text stream_name) ≡ some buf
      → open_stream H times orders events session ≡ wait_start H events (at_wait orders f buf)
  unfolding open_stream
  open_stream-waits orders events buf f m e =
      rw (start_active-played stream_name buf f m e, waiting_stream-at_wait orders buf f) refl

  pub unread_at_wait :
      (orders : ℕ → KeyOrder) (f : SendFlow) (buf : List ℕ) (id : ℕ)
      → reads_from H id (at_wait orders f buf) ≡ false
  unread_at_wait orders f buf id = reads_none H id (at_wait orders f buf) opened.0 refl unattached

  -- The first chunk of a flow, as its options name the stream's flow or another.
  pub other_flow :
      (orders : ℕ → KeyOrder) (options buf : List ℕ) (id n : ℕ) (f : SendFlow)
      → read_vlu_option options 0xa 0 ≡ some n
      → n ≢ 1
      → flow_arrives H (some options) id (at_wait orders f buf) ≡ none
  unfolding flow_arrives create_active_flow find_flow
  other_flow orders options buf id n f e k =
      let other : (n == opened.2) ≡ false = rw first_flowid (ground arith) in
      rw (no_recv_flows, e, other) refl

  pub own_flow :
      (orders : ℕ → KeyOrder) (options buf : List ℕ) (id : ℕ) (f : SendFlow)
      → read_vlu_option options 0xa 0 ≡ some 1
      → (o : Opening) × (t : Tables H) × (flow_arrives H (some options) id (at_wait orders f buf)
          ≡ some (record (at_wait orders f buf) { opening = o; tables = t }))
        × (o.active_flowid ≡ opened.2)
        × Takes H id (record (at_wait orders f buf) { opening = o; tables = t })
        × (t.send_flows ≡ (played f buf).send_flows)
        × (find_flow id t.recv_flows ≡ some (new_flow H id))
        × (o.dispatchers ≡ 1)
  own_flow orders options buf id f e =
      let fresh : find_flow id opened.1.recv_flows ≡ none =
        ap (λ (fs : List (ℕ × RecvFlow H)). find_flow id fs) no_recv_flows
        ∙ (unfold find_flow in refl) in
      let (o, t, r, made, done) =
        first_flow H id 1 options begun opened.0 (played f buf) e first_flowid refl unattached in
      let (ns, named, attached) = done.net in
      (
        o,
        t,
        arrives_new H (at_wait orders f buf) (some options) id o t r fresh made,
        done.numbered,
        (
          reads_own H id (record (at_wait orders f buf) { opening = o; tables = t }) ns named
              attached,
          rw done.dispatched refl,
        ),
        done.sending,
        done.found ∙ ap some done.new,
        done.dispatched,
      )

  -- A flow that names the stream's, the two replies and payloads come.
  pub own_replies :
      (orders : ℕ → KeyOrder) (q q' : KeyOrder) (options buf reset start : List ℕ) (id : ℕ)
      (ds bufs : List (List ℕ)) (f : SendFlow)
      → read_vlu_option options 0xa 0 ≡ some 1
      → encode_msg cmd_on_status (status_object q play_reset (stream_name ++ is_reset)) ≡ some reset
      → encode_msg cmd_on_status (status_object q' play_start (stream_name ++ is_playing))
        ≡ some start
      → All (λ d. IsReadable (length d)) ds
      → AreMessages ds bufs
      → (s : Stream H) × (s' : Stream H) × (wait_start H
            (flow_comes (some options) id ∷ messages_on id (reset ∷ start ∷ bufs))
            (at_wait orders f buf)
          ≡ some (some (s, messages_on id bufs)))
        × (run_stream H (messages_on id bufs) s ≡ some s')
        × (s.session ≡ session)
        × (s.active.received_msgs ≡ [])
        × (s'.active.received_msgs ≡ ds)
        × (find_flow opened.2 s.tables.send_flows ≡ some (send f buf).0)
        × (find_flow id s.tables.recv_flows ≡ some (new_flow H id))
        × (s.opening.dispatchers ≡ 1)
  own_replies orders q q' options buf reset start id ds bufs f e r k readable m =
      let (o, t, arrives, numbered, takes, sends, receives, one) =
        own_flow orders options buf id f e in
      let s1 : Stream H = record (at_wait orders f buf) { opening = o; tables = t } in
      let s2 = kept H s1 s1.active in
      let s3 = kept H s2 (started s2.active) in
      let takes2 = kept-Takes H id s1 s1.active takes in
      let takes3 = kept-Takes H id s2 (started s2.active) takes2 in
      let first =
        message_round H id reset s1 s1.active takes
          (reset_round s1.active q stream_name reset (omega arith) r) in
      let second =
        message_round H id start s2 (started s2.active) takes2
          (start_round s2.active q' stream_name start (omega arith) refl k) in
      let (s', ran, got) = run_payloads H id s3 ds bufs takes3 readable m in
      (
        s3,
        s',
        wait_next H (flow_comes (some options) id) (messages_on id (reset ∷ start ∷ bufs))
              (at_wait orders f buf) s1 (unfold stream_event in arrives) refl
            ∙ wait_next H (message_comes id reset) (messages_on id (start ∷ bufs)) s1 s2 first refl
            ∙ wait_over H (message_comes id start) (messages_on id bufs) s2 s3 second refl,
        ran,
        refl,
        refl,
        got,
        rw⁻¹ numbered (find_flow-put_flow o.active_flowid (send f buf).0 s2.tables.send_flows),
        receives,
        one,
      )
