-- ===== src/NetStream/ActiveStream.antt =====
-- `active_open_dispatch` of src/rtmfp/bi_stream.go, and the wait of `active_open` for the event that it sends.
use go_rtmfp.Prelude.{ℕ, Bool, true, false, Option, none, some, List, [], ◌∷◌, ◌++◌, if◌then◌else◌}
use go_rtmfp.Amf.Value.{Value, Fields, field, done, text, object, bytearray, same_key}
use go_rtmfp.SendFlow.State.{SendFlow}
use go_rtmfp.NetStream.{KeyOrder, cmd_on_status, key_code, play_start, bi_stream_handler, recv_msg}

-- `opening`: `active_open` waits for the event; `opened`: it has come. `play_start_event` is whether the channel of that
-- name, of one place, is full. `received_msgs` is all that went to the channel of that name: the wait for a reader when
-- its 1000 places are full, and its close while a message is on its way, are left out.
-- `key_orders` are the orders of the keys in its replies.
pub record ActiveStream : Type 0 where
  pub received_msgs : List (List ℕ)
  pub play_start_event : Bool
  pub opening : Bool
  pub opened : Bool
  pub send_flow : SendFlow
  pub key_orders : ℕ → KeyOrder

-- The dispatcher waits for a message, waits for good at a full channel, or has panicked.
pub data ActiveOutcome : Type 0 where
  waits : ActiveStream → ActiveOutcome
  stuck : ActiveStream → ActiveOutcome
  crashed : ActiveOutcome

-- The value under a key, none where a map gives nil.
unfoldable pub look_up : List ℕ → Fields → Option Value
look_up key done = none
look_up key (field k v fs) = if same_key k key then some v else look_up key fs

-- `obj["code"] == "NetStream.Play.Start"`
unfoldable pub is_text : List ℕ → Option Value → Bool
is_text t (some (text v)) = same_key v t
is_text t _ = false

-- `play_start_event <- true`. The wait of `active_open` takes the first.
unfoldable pub send_event : ActiveStream → ActiveOutcome
send_event s =
    if s.opening
    then waits (record s { opening = false; opened = true })
    else if s.play_start_event
    then stuck s
    else waits (record s { play_start_event = true })

-- "onStatus": a parameter that is no map panics.
unfoldable pub on_status : ActiveStream → Value → ActiveOutcome
unfolding look_up is_text send_event
on_status s (object obj) =
    if is_text play_start (look_up key_code obj) then send_event s else waits s
on_status s _ = crashed

unfoldable pub on_data : ActiveStream → Value → ActiveOutcome
on_data s (bytearray payload) = waits (record s { received_msgs = s.received_msgs ++ payload ∷ [] })
on_data s _ = crashed

unfoldable pub active_step : ActiveStream → List ℕ → Value → ActiveOutcome
unfolding on_status on_data
active_step s cmd param =
    if same_key cmd cmd_on_status
    then on_status s param
    else if same_key cmd bi_stream_handler
    then on_data s param
    else waits s

-- One message at `net_stream.recv`, and the switch on its command.
unfoldable pub active_round : ActiveStream → List ℕ → ActiveOutcome
unfolding active_step
active_round s buf = elim (recv_msg s.key_orders s.send_flow buf) [
  | none ↦ crashed
  | some (f, cmd, param) ↦ active_step (record s { send_flow = f }) cmd param
]

unfoldable pub goes_on : ActiveOutcome → (ActiveStream → ActiveOutcome) → ActiveOutcome
goes_on (waits s) next_round = next_round s
goes_on (stuck s) next_round = stuck s
goes_on crashed next_round = crashed

-- `active_open_dispatch` on the messages that come, in order.
unfoldable pub active_dispatch : List (List ℕ) → ActiveStream → ActiveOutcome
unfolding active_round goes_on
active_dispatch [] s = waits s
active_dispatch (buf ∷ bufs) s = goes_on (active_round s buf) (active_dispatch bufs)
