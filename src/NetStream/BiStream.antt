-- ===== src/NetStream/BiStream.antt =====
-- `passive_open_dispatch`, `close` and `send` of src/rtmfp/bi_stream.go.
use go_rtmfp.Prelude.{
  ℕ, ◌+◌, Bool, true, ◌||◌, Option, none, some, List, [], ◌∷◌, ◌++◌, ◌==◌, if◌then◌else◌, length,
}
use go_rtmfp.Amf.Value.{Value, text, bytearray, same_key}
use go_rtmfp.SendFlow.State.{SendFlow, close}
use go_rtmfp.NetStream.{KeyOrder, cmd_play, cmd_close_stream, bi_stream_handler, net_send, recv_msg}

-- `play_event` is whether the channel of that name, of one place, is full; nobody reads it. `received_msgs` is all that
-- went to the channel of that name: the wait for a reader when its 1000 places are full is left out.
-- `session_closes` counts the calls of `session.close`.
pub record BiStream : Type 0 where
  pub name : List ℕ
  pub closed : Bool
  pub received_msgs : List (List ℕ)
  pub play_event : Bool
  pub send_flow : SendFlow
  pub key_orders : ℕ → KeyOrder
  pub session_closes : ℕ

-- The dispatcher waits for a message, has returned, waits for good at a full channel, or has panicked.
pub data Outcome : Type 0 where
  running : BiStream → Outcome
  ended : BiStream → Outcome
  blocked : BiStream → Outcome
  panicked : Outcome

-- `close`, with what `session.close` does to the sending flow.
unfoldable pub close_stream : BiStream → BiStream
close_stream s = if s.closed then s else record s {
  closed = true;
  send_flow = close s.send_flow;
  session_closes = s.session_closes + 1;
}

-- "play": the name is checked where the stream has one.
unfoldable pub on_play : BiStream → Value → Outcome
on_play s (text stream_name) =
    if length s.name == 0 || same_key stream_name s.name
    then (if s.play_event then blocked s else running (record s { play_event = true }))
    else (if s.play_event then blocked s else panicked)
on_play s _ = panicked

-- A payload must be a byte array.
unfoldable pub on_payload : BiStream → Value → Outcome
on_payload s (bytearray payload) =
    running (record s { received_msgs = s.received_msgs ++ payload ∷ [] })
on_payload s _ = panicked

unfoldable pub passive_step : BiStream → List ℕ → Value → Outcome
unfolding close_stream on_play on_payload
passive_step s cmd param =
    if same_key cmd cmd_play
    then on_play s param
    else if same_key cmd cmd_close_stream
    then running (close_stream s)
    else if same_key cmd bi_stream_handler
    then on_payload s param
    else running s

unfoldable pub and_then : Outcome → (BiStream → Outcome) → Outcome
and_then (running s) next_round = next_round s
and_then (ended s) next_round = ended s
and_then (blocked s) next_round = blocked s
and_then panicked next_round = panicked

-- One message at `net_stream.recv`, and the switch on its command.
unfoldable pub passive_round : BiStream → List ℕ → Outcome
unfolding passive_step
passive_round s buf = elim (recv_msg s.key_orders s.send_flow buf) [
  | none ↦ panicked
  | some (f, cmd, param) ↦ passive_step (record s { send_flow = f }) cmd param
]

-- `passive_open_dispatch` on the messages that come, in order.
unfoldable pub passive_dispatch : List (List ℕ) → BiStream → Outcome
unfolding passive_round and_then
passive_dispatch [] s = if s.closed then ended s else running s
passive_dispatch (buf ∷ bufs) s =
    let rest = and_then (passive_round s buf) (passive_dispatch bufs) in
    if s.closed then ended s else rest

-- `bi_stream.send`
unfoldable pub bi_send : SendFlow → List ℕ → Option (SendFlow × Option ℕ)
bi_send f payload = net_send f bi_stream_handler (bytearray payload)
