-- ===== src/Tests/Values.antt =====
-- Runs of the values of src/rtmfp/amf.go, the commands of src/rtmfp/netstream.go and the streams of src/rtmfp/bi_stream.go.
use go_rtmfp.Prelude.{ℕ, ◌<◌, ◌≡◌, ◌≢◌, refl, false, some, List, [], ◌∷◌, ◌++◌, inl, arith}
use go_rtmfp.Amf.Value.{
  Value, text, number, object, null, bytearray, field, done, write_amf0, read_amf0,
}
use go_rtmfp.Amf.ObjectTrip.{IsPlain, read_amf0-write_amf0}
use go_rtmfp.NetStream.{level_code_description, cmd_close_stream, bi_stream_handler}
use go_rtmfp.NetStream.Trip.{decode_msg-encode_msg}
use go_rtmfp.NetStream.BiStream.{BiStream, ended, passive_dispatch, close_stream}
use go_rtmfp.NetStream.Streams.{with_payloads, passive_dispatch-close_stream}
use go_rtmfp.Tests.Flows.{flow}

-- An object with a string, a number and an object in it.
abbrev status : Value
status = object (
    field (0x61 ∷ []) (text (0x62 ∷ 0x63 ∷ []))
      (field (0x64 ∷ []) (number 7) (field (0x65 ∷ []) (object done) done)))

status-IsPlain : IsPlain status
unfolding IsPlain
status-IsPlain =
    let key : (0 < 1) × (1 < 65536) × (0 ≢ 9) = (omega arith, omega arith, omega arith) in
    ((key, omega arith, (key, omega arith, (key, (tt, tt), tt))), (refl, (refl, (refl, tt))))

read_amf0-write_amf0_example :
    (w : List ℕ) × (write_amf0 status ≡ some w) × (read_amf0 (w ++ 9 ∷ []) ≡ some (status, 9 ∷ []))
read_amf0-write_amf0_example = read_amf0-write_amf0 status (9 ∷ []) status-IsPlain

null-IsPlain : IsPlain null
unfolding IsPlain
null-IsPlain = tt

abbrev stream : BiStream
stream = record {
  name = [];
  closed = false;
  received_msgs = [];
  play_event = false;
  send_flow = flow;
  key_orders = λ n. level_code_description;
  session_closes = 0;
}

payload-IsPlain : IsPlain (bytearray (4 ∷ 5 ∷ []))
unfolding IsPlain
payload-IsPlain = inl (omega arith)

-- A payload, the close, and the payload again.
passive_dispatch-close_stream_example :
    (buf close : List ℕ) × (passive_dispatch (buf ∷ close ∷ buf ∷ []) stream
      ≡ ended (close_stream (with_payloads stream ((4 ∷ 5 ∷ []) ∷ []))))
passive_dispatch-close_stream_example =
    let (buf, e, k) =
      decode_msg-encode_msg bi_stream_handler (bytearray (4 ∷ 5 ∷ [])) (omega arith)
        payload-IsPlain in
    let (close, f, l) = decode_msg-encode_msg cmd_close_stream null (omega arith) null-IsPlain in
    (
      buf,
      close,
      passive_dispatch-close_stream stream ((4 ∷ 5 ∷ []) ∷ []) (buf ∷ []) close (buf ∷ []) refl
          (inl (omega arith), tt) (e, tt) f,
    )
