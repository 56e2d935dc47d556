-- ===== src/NetStream/Trip.antt =====
-- Round trip of the commands of src/rtmfp/netstream.go.
use go_rtmfp.Prelude.{
  ℕ, ◌^◌, ◌<◌, ◌≡◌, refl, sym, ap, ◌∙◌, some, List, [], ◌∷◌, ◌++◌, length, append-nil, arith,
}
use go_rtmfp.Buffer.{read_u8, write_u32, next}
use go_rtmfp.Amf.Value.{
  Value, read_amf0_type_string, read_amf0_type_number, write_amf0_type_string,
  write_amf0_type_number, write_amf0_type_null, read_amf0,
}
use go_rtmfp.Amf.ValueTrip.{number_trip, string_trip}
use go_rtmfp.Amf.ObjectTrip.{IsPlain, read_amf0-write_amf0}
use go_rtmfp.NetStream.{decode_param, decode_handler_msg, decode_msg, encode_msg}

type_string_trip :
    (v r : List ℕ)
    → length v < 65536
    → read_amf0_type_string (write_amf0_type_string v ++ r) ≡ some (v, r)
unfolding read_amf0_type_string write_amf0_type_string read_u8
type_string_trip v r h = rw (string_trip v r h) refl

type_number_trip :
    (bits : ℕ) (r : List ℕ)
    → bits < 2 ^ 64
    → read_amf0_type_number (write_amf0_type_number bits ++ r) ≡ some (bits, r)
unfolding read_amf0_type_number write_amf0_type_number read_u8
type_number_trip bits r h = rw (number_trip bits r h) refl

-- A command and its parameter come back from the message that `encode_msg` makes of them, for a command shorter
-- than 65536 bytes and any parameter whose parts fit their encodings; a null parameter included.
pub decode_msg-encode_msg :
    (cmd : List ℕ) (v : Value)
    → length cmd < 65536
    → IsPlain v
    → (buf : List ℕ) × (encode_msg cmd v ≡ some buf) × (decode_msg buf ≡ some (cmd, v))
decode_msg-encode_msg cmd v h k =
    let (w, e, back) = read_amf0-write_amf0 v [] k in
    let param : read_amf0 w ≡ some (v, []) = ap read_amf0 (sym (append-nil w)) ∙ back in
    let rest = write_amf0_type_number 0 ++ (write_amf0_type_null ++ w) in
    (
      0x14 ∷ (write_u32 0 ++ (write_amf0_type_string cmd ++ rest)),
      unfold encode_msg in rw e refl,
      unfold decode_msg write_u32 read_u8 next decode_handler_msg write_amf0_type_null
            decode_param in
          rw
            (
              type_string_trip cmd rest h,
              type_number_trip 0 (write_amf0_type_null ++ w) (omega arith),
              param,
            )
            refl,
    )
