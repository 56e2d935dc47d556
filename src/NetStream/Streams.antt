-- ===== src/NetStream/Streams.antt =====
-- What the dispatcher of src/rtmfp/bi_stream.go delivers.
use go_rtmfp.Prelude.{
  some_inj, ℕ, ◌<◌, ◌≡◌, refl, sym, ap, ◌∙◌, true, false, some, List, [], ◌∷◌, ◌++◌, length,
  append-nil, append_assoc, All, arith,
}
use go_rtmfp.Amf.Value.{Value, bytearray, null, same_key}
use go_rtmfp.Amf.ValueTrip.{IsReadable}
use go_rtmfp.Amf.ObjectTrip.{IsPlain}
use go_rtmfp.SendFlow.State.{SendFlow}
use go_rtmfp.NetStream.{
  KeyOrder, bi_stream_handler, cmd_close_stream, cmd_play, cmd_publish, encode_msg, decode_msg,
  recv_msg,
}
use go_rtmfp.NetStream.Trip.{decode_msg-encode_msg}
use go_rtmfp.NetStream.BiStream.{
  BiStream, running, ended, passive_step, passive_round, passive_dispatch, close_stream, and_then,
  on_payload,
}

-- The messages that `bi_stream.send` makes of the payloads.
abbrev pub AreMessages : List (List ℕ) → List (List ℕ) → Type 0
AreMessages [] [] = Unit {0}
AreMessages [] (buf ∷ bufs) = ⊥
AreMessages (d ∷ ds) [] = ⊥
AreMessages (d ∷ ds) (buf ∷ bufs) =
    (encode_msg bi_stream_handler (bytearray d) ≡ some buf) × AreMessages ds bufs

abbrev pub with_payloads : BiStream → List (List ℕ) → BiStream
with_payloads s ds = record s { received_msgs = s.received_msgs ++ ds }

-- What comes of an encoded command that has no reply of its own.
pub recv_own :
    (orders : ℕ → KeyOrder) (f : SendFlow) (cmd : List ℕ) (v : Value) (buf : List ℕ)
    → length cmd < 65536
    → IsPlain v
    → encode_msg cmd v ≡ some buf
    → same_key cmd cmd_play ≡ false
    → same_key cmd cmd_publish ≡ false
    → recv_msg orders f buf ≡ some (f, cmd, v)
unfolding recv_msg
recv_own orders f cmd v buf h k e p q =
    let (buf', e', back) = decode_msg-encode_msg cmd v h k in
    let same : decode_msg buf ≡ some (cmd, v) = ap decode_msg (some_inj (sym e ∙ e')) ∙ back in
    rw (same, p, q) refl

payload_round :
    (s : BiStream) (d buf : List ℕ)
    → IsReadable (length d)
    → encode_msg bi_stream_handler (bytearray d) ≡ some buf
    → passive_round s buf ≡ running (with_payloads s (d ∷ []))
unfolding passive_round passive_step on_payload
payload_round s d buf h e =
    rw
      (
        recv_own s.key_orders s.send_flow bi_stream_handler (bytearray d) buf (omega arith)
            (unfold IsPlain in h) e refl refl,
        passive_round,
      )
      refl

ended_now :
    (s : BiStream) (bufs : List (List ℕ)) → s.closed ≡ true → passive_dispatch bufs s ≡ ended s
unfolding passive_dispatch
ended_now s [] e = rw e refl
ended_now s (buf ∷ bufs) e = rw e refl

dispatch_next :
    (s s' : BiStream) (buf : List ℕ) (bufs : List (List ℕ))
    → s.closed ≡ false
    → passive_round s buf ≡ running s'
    → passive_dispatch (buf ∷ bufs) s ≡ passive_dispatch bufs s'
unfolding passive_dispatch and_then
dispatch_next s s' buf bufs o e = rw (e, o) refl

with_more :
    (s : BiStream) (d : List ℕ) (ds : List (List ℕ))
    → with_payloads (with_payloads s (d ∷ [])) ds ≡ with_payloads s (d ∷ ds)
with_more s d ds = rw append_assoc refl

payload_rounds :
    (s : BiStream) (ds bufs rest : List (List ℕ))
    → s.closed ≡ false
    → All (λ d. IsReadable (length d)) ds
    → AreMessages ds bufs
    → passive_dispatch (bufs ++ rest) s ≡ passive_dispatch rest (with_payloads s ds)
payload_rounds s [] [] rest o h m = rw append-nil refl
payload_rounds s [] (buf ∷ bufs) rest o h m = absurd m
payload_rounds s (d ∷ ds) [] rest o h m = absurd m
payload_rounds s (d ∷ ds) (buf ∷ bufs) rest o (h, hs) (m, ms) =
    dispatch_next s (with_payloads s (d ∷ [])) buf (bufs ++ rest) o (payload_round s d buf h m)
    ∙ payload_rounds (with_payloads s (d ∷ [])) ds bufs rest o hs ms
    ∙ ap (passive_dispatch rest) (with_more s d ds)

close_round :
    (s : BiStream) (buf : List ℕ)
    → encode_msg cmd_close_stream null ≡ some buf
    → passive_round s buf ≡ running (close_stream s)
unfolding passive_round passive_step
close_round s buf e =
    rw
      (
        recv_own s.key_orders s.send_flow cmd_close_stream null buf (omega arith)
            (unfold IsPlain in tt) e refl refl,
        passive_round,
      )
      refl

close_stream-closed : (s : BiStream) → (close_stream s).closed ≡ true
unfolding close_stream
close_stream-closed s = ground arith

-- A dispatcher whose stream is open takes the payloads that bi_stream.send encoded, whose lengths AMF3 reads back,
-- into received_msgs, all of them and in their order. At the "closeStream" message that follows it closes the stream
-- and returns, and no later message changes anything.
pub passive_dispatch-close_stream :
    (s : BiStream) (ds bufs : List (List ℕ)) (buf : List ℕ) (rest : List (List ℕ))
    → s.closed ≡ false
    → All (λ d. IsReadable (length d)) ds
    → AreMessages ds bufs
    → encode_msg cmd_close_stream null ≡ some buf
    → passive_dispatch (bufs ++ buf ∷ rest) s ≡ ended (close_stream (with_payloads s ds))
passive_dispatch-close_stream s ds bufs buf rest o h m e =
    let t = with_payloads s ds in
    payload_rounds s ds bufs (buf ∷ rest) o h m
    ∙ dispatch_next t (close_stream t) buf rest o (close_round t buf e)
    ∙ ended_now (close_stream t) rest (close_stream-closed t)
