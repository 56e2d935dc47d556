-- ===== src/NetStream/Replies.antt =====
-- What the replies of the passive end and its payloads do to an active stream of src/rtmfp/bi_stream.go.
use go_rtmfp.Prelude.{
  ℕ, ◌+◌, ◌<◌, ◌≡◌, refl, ◌∙◌, true, false, some, List, [], ◌∷◌, if◌then◌else◌, ◌++◌, length,
  length-append, append-nil, append_assoc, All, arith,
}
use go_rtmfp.Amf.Value.{Value, text, bytearray, put, same_key}
use go_rtmfp.Amf.ValueTrip.{IsReadable}
use go_rtmfp.Amf.ObjectTrip.{IsPlain}
use go_rtmfp.NetStream.{
  cmd_on_status, bi_stream_handler, play_reset, play_start, is_reset, is_playing, status_object,
  status_fields, KeyOrder, status_level, key_code, level_code_description, level_description_code,
  code_level_description, code_description_level, description_level_code, description_code_level,
  encode_msg,
}
use go_rtmfp.NetStream.Streams.{AreMessages, recv_own}
use go_rtmfp.NetStream.ActiveStream.{
  ActiveStream, waits, active_step, active_round, active_dispatch, goes_on, on_status, on_data,
  look_up, is_text, send_event,
}

-- A round that leaves the stream waiting for the next message.
dispatch_next :
    (s s' : ActiveStream) (buf : List ℕ) (bufs : List (List ℕ))
    → active_round s buf ≡ waits s'
    → active_dispatch (buf ∷ bufs) s ≡ active_dispatch bufs s'
unfolding active_dispatch goes_on
dispatch_next s s' buf bufs e = rw e refl

round_of :
    (s : ActiveStream) (cmd : List ℕ) (v : Value) (buf : List ℕ)
    → length cmd < 65536
    → IsPlain v
    → encode_msg cmd v ≡ some buf
    → same_key cmd (0x70 ∷ 0x6c ∷ 0x61 ∷ 0x79 ∷ []) ≡ false
    → same_key cmd (0x70 ∷ 0x75 ∷ 0x62 ∷ 0x6c ∷ 0x69 ∷ 0x73 ∷ 0x68 ∷ []) ≡ false
    → active_round s buf ≡ active_step s cmd v
unfolding active_round
round_of s cmd v buf h k e p q =
    rw (recv_own s.key_orders s.send_flow cmd v buf h k e p q, active_round) refl

-- A status object fits its encoding where its description does.
pub status_object-IsPlain :
    (o : KeyOrder) (code description : List ℕ)
    → length code < 65536
    → length description < 65536
    → IsPlain (status_object o code description)
unfolding status_object status_fields put IsPlain
status_object-IsPlain level_code_description code description h k = (
  ((
    (omega arith, omega arith, omega arith),
    omega arith,
    ((omega arith, omega arith, omega arith), h, ((omega arith, omega arith, omega arith), k, tt)),
  )),
  (refl, (refl, (refl, tt))),
)
status_object-IsPlain level_description_code code description h k = (
  ((
    (omega arith, omega arith, omega arith),
    omega arith,
    ((omega arith, omega arith, omega arith), k, ((omega arith, omega arith, omega arith), h, tt)),
  )),
  (refl, (refl, (refl, tt))),
)
status_object-IsPlain code_level_description code description h k = (
  ((
    (omega arith, omega arith, omega arith),
    h,
    (
      (omega arith, omega arith, omega arith),
      omega arith,
      ((omega arith, omega arith, omega arith), k, tt),
    ),
  )),
  (refl, (refl, (refl, tt))),
)
status_object-IsPlain code_description_level code description h k = (
  ((
    (omega arith, omega arith, omega arith),
    h,
    (
      (omega arith, omega arith, omega arith),
      k,
      ((omega arith, omega arith, omega arith), omega arith, tt),
    ),
  )),
  (refl, (refl, (refl, tt))),
)
status_object-IsPlain description_level_code code description h k = (
  ((
    (omega arith, omega arith, omega arith),
    k,
    (
      (omega arith, omega arith, omega arith),
      omega arith,
      ((omega arith, omega arith, omega arith), h, tt),
    ),
  )),
  (refl, (refl, (refl, tt))),
)
status_object-IsPlain description_code_level code description h k = (
  ((
    (omega arith, omega arith, omega arith),
    k,
    (
      (omega arith, omega arith, omega arith),
      h,
      ((omega arith, omega arith, omega arith), omega arith, tt),
    ),
  )),
  (refl, (refl, (refl, tt))),
)

-- The code of a status object is found in any order.
found_code : (o : KeyOrder) (l c d : Value) → look_up key_code (status_fields o l c d) ≡ some c
unfolding look_up status_fields
found_code level_code_description l c d = refl
found_code level_description_code l c d = refl
found_code code_level_description l c d = refl
found_code code_description_level l c d = refl
found_code description_level_code l c d = refl
found_code description_code_level l c d = refl

status_step :
    (s : ActiveStream) (o : KeyOrder) (code description : List ℕ)
    → active_step s cmd_on_status (status_object o code description)
      ≡ (if is_text play_start (some (text code)) then send_event s else waits s)
unfolding active_step on_status status_object
status_step s o code description =
    rw (found_code o (text status_level) (text code) (text description)) refl

-- The event of the reply that starts.
abbrev pub started : ActiveStream → ActiveStream
started s = record s { opening = false; opened = true }

abbrev pub with_data : ActiveStream → List (List ℕ) → ActiveStream
with_data s ds = record s { received_msgs = s.received_msgs ++ ds }

pub reset_round :
    (s : ActiveStream) (q : KeyOrder) (name buf : List ℕ)
    → length name + 10 < 65536
    → encode_msg cmd_on_status (status_object q play_reset (name ++ is_reset)) ≡ some buf
    → active_round s buf ≡ waits s
reset_round s q name buf h e =
    round_of s cmd_on_status (status_object q play_reset (name ++ is_reset)) buf (omega arith)
      (status_object-IsPlain q play_reset (name ++ is_reset) (omega arith)
        (rw (length-append) (omega arith)))
      e refl refl
    ∙ status_step s q play_reset (name ++ is_reset)
    ∙ (unfold is_text in refl)

pub start_round :
    (s : ActiveStream) (q : KeyOrder) (name buf : List ℕ)
    → length name + 12 < 65536
    → s.opening ≡ true
    → encode_msg cmd_on_status (status_object q play_start (name ++ is_playing)) ≡ some buf
    → active_round s buf ≡ waits (started s)
start_round s q name buf h o e =
    round_of s cmd_on_status (status_object q play_start (name ++ is_playing)) buf (omega arith)
      (status_object-IsPlain q play_start (name ++ is_playing) (omega arith)
        (rw (length-append) (omega arith)))
      e refl refl
    ∙ status_step s q play_start (name ++ is_playing)
    ∙ (unfold is_text send_event in rw o refl)

pub data_round :
    (s : ActiveStream) (d buf : List ℕ)
    → IsReadable (length d)
    → encode_msg bi_stream_handler (bytearray d) ≡ some buf
    → active_round s buf ≡ waits (with_data s (d ∷ []))
data_round s d buf h e =
    round_of s bi_stream_handler (bytearray d) buf (omega arith) (unfold IsPlain in h) e refl refl
    ∙ (unfold active_step on_data in refl)

data_rounds :
    (s : ActiveStream) (ds bufs : List (List ℕ))
    → All (λ d. IsReadable (length d)) ds
    → AreMessages ds bufs
    → active_dispatch bufs s ≡ waits (with_data s ds)
data_rounds s [] [] h m = unfold active_dispatch in rw append-nil refl
data_rounds s [] (buf ∷ bufs) h m = absurd m
data_rounds s (d ∷ ds) [] h m = absurd m
data_rounds s (d ∷ ds) (buf ∷ bufs) (h, hs) (m, ms) =
    dispatch_next s (with_data s (d ∷ [])) buf bufs (data_round s d buf h m)
    ∙ data_rounds (with_data s (d ∷ [])) ds bufs hs ms
    ∙ rw append_assoc refl

-- The two replies that the other end makes to a "play" open an active stream, the second one and not the first, and the
-- payloads that the other end sends behind them go to received_msgs, all of them and in their order. The dispatcher does
-- not panic and waits for more. This is for a stream whose active_open still waits, a name of which the reply fits a
-- string of AMF0, and payloads whose lengths AMF3 reads back.
pub active_dispatch-started :
    (s : ActiveStream) (q q' : KeyOrder) (name reset start : List ℕ) (ds bufs : List (List ℕ))
    → s.opening ≡ true
    → length name + 12 < 65536
    → encode_msg cmd_on_status (status_object q play_reset (name ++ is_reset)) ≡ some reset
    → encode_msg cmd_on_status (status_object q' play_start (name ++ is_playing)) ≡ some start
    → All (λ d. IsReadable (length d)) ds
    → AreMessages ds bufs
    → active_dispatch (reset ∷ start ∷ bufs) s ≡ waits (with_data (started s) ds)
active_dispatch-started s q q' name reset start ds bufs o h e k readable m =
    dispatch_next s s reset (start ∷ bufs) (reset_round s q name reset (omega arith) e)
    ∙ dispatch_next s (started s) start bufs (start_round s q' name start h o k)
    ∙ data_rounds (started s) ds bufs readable m
