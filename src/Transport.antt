-- ===== src/Transport.antt =====
-- src/rtmfp/transport.go: the settings, the noisy channels, and `CreateBiStream`, which opens a session and a stream on it.
pub mod Rounds
pub mod Begun
pub mod Creating
use go_rtmfp.Prelude.{
  ℕ, Bool, true, false, Option, none, some, List, [], ◌∷◌, ◌>>=◌, if◌then◌else◌, ◌+◌, ◌==◌, ◌&&◌,
  ltb,
}
use go_rtmfp.DataChunk.{Globals}
use go_rtmfp.ChunkHeap.{ChunkHeap}
use go_rtmfp.SendFlow.State.{SendFlow}
use go_rtmfp.Session.Keys.{Keying}
use go_rtmfp.Session.Flows.{Tables, find_flow, put_flow}
use go_rtmfp.Handshake.{Handshake, Outside}
use go_rtmfp.Handshake.Opening.{Course, Created, create_session}
use go_rtmfp.NetStream.Opening.{Timeouts, Opening, start_active, create_active_flow}
use go_rtmfp.NetStream.ActiveStream.{
  ActiveStream, ActiveOutcome, waits, stuck, crashed, active_round,
}
use go_rtmfp.NetStream.{KeyOrder}
use go_rtmfp.NoisyChan.{NoisyChan}
use go_rtmfp.NoisyChan.Sending.{Loop, start}

-- "WHATEVER"
abbrev pub stream_name : List ℕ
stream_name = 0x57 ∷ 0x48 ∷ 0x41 ∷ 0x54 ∷ 0x45 ∷ 0x56 ∷ 0x45 ∷ 0x52 ∷ []

-- `SetFlowRecvBufSize`, `SetTimeCritical` and `SetFastGrow`. The size is not negative.
unfoldable pub set_flow_recv_buf_size : ℕ → Globals → Globals
set_flow_recv_buf_size size g = record g { max_recv_buf_size = size }

unfoldable pub set_time_critical : Bool → Globals → Globals
set_time_critical tc g = record g { is_time_critical = tc }

unfoldable pub set_fast_grow : Bool → Globals → Globals
set_fast_grow fg g = record g { fastgrow_allowed = fg }

-- The channel that `SetInChannelParam` and `SetOutChannelParam` make and open; `disorder` and `max_packet_size` are not set.
unfoldable pub set_channel_param : ℕ → ℕ → ℕ → ℕ → ℕ → Loop
unfolding start
set_channel_param now delay capacity lose_rate speed = start now (record {
  lose_rate = lose_rate;
  delay = delay;
  capacity = capacity;
  disorder = false;
  max_packet_size = 0;
  speed = speed;
  packets = [];
  rx_count = 0;
  tx_count = 0;
  drop_count = 0;
  bucket = 0;
  bucket_inc_rate = 0;
  bucket_update_ts = 0;
  out = [];
})

-- What comes for a stream: a chunk of a flow that may be new, with its options, or the last chunk of a message.
pub data Event : Type 0 where
  flow_comes : (options : Option (List ℕ)) → (flowid : ℕ) → Event
  message_comes : (flowid : ℕ) → (message : List ℕ) → Event

module _ (H : ChunkHeap) where
  -- The tables of a session that is open and has no flows.
  unfoldable pub open_tables : Keying → Tables H
  open_tables s = record {
    other_addr = s.other_addr;
    last_flowid = 0;
    send_flows = [];
    recv_flows = [];
    mobile_tx_ts = 0;
    sent = [];
  }

  -- A stream that is opened actively: its session, what `active_open` made, the state of its dispatchers, and how many of
  -- them wait for good at a full channel.
  pub record Stream : Type 0 where
    pub session : Keying
    pub tables : Tables H
    pub opening : Opening
    pub active : ActiveStream
    pub blocked : ℕ

  -- `recv_userdata` of a chunk with options, up to the flow: where its number is unknown, the callback that `active_open`
  -- set is called, and no flow from it panics.
  unfoldable pub flow_arrives : Option (List ℕ) → ℕ → Stream → Option Stream
  unfolding find_flow create_active_flow
  flow_arrives options flowid s = elim (find_flow flowid s.tables.recv_flows) [
    | some f ↦ some s
    | none ↦ create_active_flow H options flowid s.opening s.tables >>= λ r. elim r.2 [
      | none ↦ none
      | some f ↦ some (record s { opening = r.0; tables = r.1 })
    ]
  ]

  -- The stream after a round of a dispatcher, with its sending flow in the tables.
  unfoldable pub after_round : Stream → ActiveOutcome → Option Stream
  unfolding put_flow
  after_round s (waits a) = some (record s {
    active = a;
    tables = record s.tables {
      send_flows = put_flow s.opening.active_flowid a.send_flow s.tables.send_flows;
    };
  })
  after_round s (stuck a) = some (record s { active = a; blocked = s.blocked + 1 })
  after_round s crashed = none

  -- The receiving flow of the stream is the one of the number.
  unfoldable pub reads_from : ℕ → Stream → Bool
  reads_from flowid s = elim s.opening.net [
    | none ↦ false
    | some ns ↦ elim ns.recv_flowid [ none ↦ false | some id ↦ id == flowid ]
  ]

  -- A whole message is in the buffer of a flow: a dispatcher takes it where there is one on this flow that is not blocked.
  unfoldable pub message_arrives : ℕ → List ℕ → Stream → Option Stream
  unfolding reads_from active_round after_round
  message_arrives flowid buf s =
      if reads_from flowid s && ltb s.blocked s.opening.dispatchers
      then after_round s (active_round s.active buf)
      else some s

  unfoldable pub stream_event : Event → Stream → Option Stream
  unfolding flow_arrives message_arrives
  stream_event (flow_comes options flowid) s = flow_arrives options flowid s
  stream_event (message_comes flowid buf) s = message_arrives flowid buf s

  unfoldable pub run_stream : List Event → Stream → Option Stream
  unfolding stream_event
  run_stream [] s = some s
  run_stream (e ∷ es) s = stream_event e s >>= run_stream es

  -- The `select` of `active_open`: the stream and the events after it where the event of play.start ends the wait, none
  -- where the timer does, behind the events of three seconds.
  unfoldable pub wait_start : List Event → Stream → Option (Option (Stream × List Event))
  unfolding stream_event
  wait_start [] s = some none
  wait_start (e ∷ es) s = stream_event e s >>= λ s'.
      let later = wait_start es s' in if s'.active.opened then some (some (s', es)) else later

  -- The stream of `active_open` when its wait begins.
  unfoldable pub waiting_stream : (ℕ → KeyOrder) → Keying → Opening → Tables H → Option Stream
  unfolding find_flow
  waiting_stream orders k o t = elim (find_flow o.active_flowid t.send_flows) [
    | none ↦ none
    | some f ↦ some (record {
      session = k;
      tables = t;
      opening = o;
      active = record {
        received_msgs = [];
        play_start_event = false;
        opening = true;
        opened = false;
        send_flow = f;
        key_orders = orders;
      };
      blocked = 0;
    })
  ]

  -- `bi_stream.active_open` on a session: the name is played, and the events come.
  unfoldable pub open_stream :
      Timeouts → (ℕ → KeyOrder) → List Event → Keying → Option (Option (Stream × List Event))
  unfolding open_tables start_active waiting_stream wait_start
  open_stream times orders events k =
      start_active H times stream_name (open_tables k) >>= λ started.
      waiting_stream orders k started.0 started.1 >>= wait_start events

  unfoldable pub on_created :
      Timeouts
      → (ℕ → KeyOrder)
      → List Event
      → Created
      → Option (Handshake × Option (Stream × List Event))
  unfolding open_stream
  on_created times orders events c = elim c.session [
    | none ↦ some (c.handshake, none)
    | some k ↦
        if c.is_open
        then (open_stream times orders events k >>= λ r. some (c.handshake, r))
        else some (c.handshake, none)
  ]

  -- `CreateBiStream`: none for an error, else the stream, and the events that come after the return.
  unfoldable pub create_bi_stream :
      Outside
      → Timeouts
      → (ℕ → KeyOrder)
      → Course
      → List Event
      → List ℕ
      → List ℕ
      → Handshake
      → Option (Handshake × Option (Stream × List Event))
  unfolding create_session on_created
  create_bi_stream env times orders course events addr target h =
      create_session env course addr target h >>= on_created times orders events
