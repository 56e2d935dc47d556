-- ===== src/NetStream.antt =====
-- The commands of src/rtmfp/netstream.go and the dispatch of src/rtmfp/bi_stream.go.
pub mod Trip
pub mod BiStream
pub mod Streams
pub mod Opening
pub mod Attach
pub mod ActiveStream
pub mod Replies
use go_rtmfp.Prelude.{
  ℕ, ◌+◌, Bool, true, false, Option, none, some, List, [], ◌∷◌, ◌++◌, ◌==◌, ◌>>=◌, if◌then◌else◌,
}
use go_rtmfp.Buffer.{read_u8, write_u32, next}
use go_rtmfp.Amf.Value.{
  Value, text, object, Fields, field, done, same_key, read_amf0_type_string, read_amf0_type_number,
  write_amf0_type_string, write_amf0_type_number, write_amf0_type_null, write_amf0, read_amf0,
}
use go_rtmfp.SendFlow.State.{SendFlow}
use go_rtmfp.SendFlow.Transmit.{send}

-- The parameter that follows the command and its number, behind a null that servers write. `r.Bytes()[0]` panics at
-- the end of the buffer.
unfoldable pub decode_param : List ℕ → Option (Value × List ℕ)
decode_param [] = none
decode_param (b ∷ r) = if b == 0x5 then read_amf0 r else read_amf0 (b ∷ r)

-- A command, its number and its parameter.
unfoldable pub decode_handler_msg : List ℕ → Option (List ℕ × Value)
unfolding decode_param
decode_handler_msg r = read_amf0_type_string r >>= λ cmd.
    read_amf0_type_number cmd.1 >>= λ callback.
    decode_param callback.1 >>= λ param. some (cmd.0, param.0)

unfoldable pub decode_plain_msg : List ℕ → Option (List ℕ × Value)
decode_plain_msg r =
    read_amf0_type_string r >>= λ cmd. read_amf0 cmd.1 >>= λ param. some (cmd.0, param.0)

-- `decode_msg`; `none` is a panic. A message of another type gives no command and nil.
unfoldable pub decode_msg : List ℕ → Option (List ℕ × Value)
unfolding decode_handler_msg decode_plain_msg
decode_msg buf =
    let msg_type = read_u8 buf in
    if msg_type.0 == 0x11
    then decode_handler_msg (next 5 msg_type.1)
    else if msg_type.0 == 0x14
    then decode_handler_msg (next 4 msg_type.1)
    else if msg_type.0 == 0x0F
    then decode_plain_msg (next 5 msg_type.1)
    else some ([], Value.null)

unfoldable pub encode_msg : List ℕ → Value → Option (List ℕ)
encode_msg cmd v = write_amf0 v >>= λ w. some (
    0x14
    ∷ (write_u32 0
        ++ (write_amf0_type_string cmd
            ++ (write_amf0_type_number 0 ++ (write_amf0_type_null ++ w)))))

-- `net_stream.send`: the message goes to the sending flow.
unfoldable pub net_send : SendFlow → List ℕ → Value → Option (SendFlow × Option ℕ)
unfolding encode_msg
net_send f cmd v = encode_msg cmd v >>= λ buf. some (send f buf)

-- "play"
abbrev pub cmd_play : List ℕ
cmd_play = 0x70 ∷ 0x6c ∷ 0x61 ∷ 0x79 ∷ []

-- "publish"
abbrev pub cmd_publish : List ℕ
cmd_publish = 0x70 ∷ 0x75 ∷ 0x62 ∷ 0x6c ∷ 0x69 ∷ 0x73 ∷ 0x68 ∷ []

-- "onStatus"
abbrev pub cmd_on_status : List ℕ
cmd_on_status = 0x6f ∷ 0x6e ∷ 0x53 ∷ 0x74 ∷ 0x61 ∷ 0x74 ∷ 0x75 ∷ 0x73 ∷ []

-- "closeStream"
abbrev pub cmd_close_stream : List ℕ
cmd_close_stream = 0x63 ∷ 0x6c ∷ 0x6f ∷ 0x73 ∷ 0x65 ∷ 0x53 ∷ 0x74 ∷ 0x72 ∷ 0x65 ∷ 0x61 ∷ 0x6d ∷ []

-- "__data"
abbrev pub bi_stream_handler : List ℕ
bi_stream_handler = 0x5f ∷ 0x5f ∷ 0x64 ∷ 0x61 ∷ 0x74 ∷ 0x61 ∷ []

-- "level"
abbrev pub key_level : List ℕ
key_level = 0x6c ∷ 0x65 ∷ 0x76 ∷ 0x65 ∷ 0x6c ∷ []

-- "code"
abbrev pub key_code : List ℕ
key_code = 0x63 ∷ 0x6f ∷ 0x64 ∷ 0x65 ∷ []

-- "description"
abbrev pub key_description : List ℕ
key_description = 0x64 ∷ 0x65 ∷ 0x73 ∷ 0x63 ∷ 0x72 ∷ 0x69 ∷ 0x70 ∷ 0x74 ∷ 0x69 ∷ 0x6f ∷ 0x6e ∷ []

-- "status"
abbrev pub status_level : List ℕ
status_level = 0x73 ∷ 0x74 ∷ 0x61 ∷ 0x74 ∷ 0x75 ∷ 0x73 ∷ []

-- "NetStream.Play.Reset"
abbrev pub play_reset : List ℕ
play_reset =
    0x4e ∷ 0x65 ∷ 0x74 ∷ 0x53 ∷ 0x74 ∷ 0x72 ∷ 0x65 ∷ 0x61 ∷ 0x6d ∷ 0x2e ∷ 0x50 ∷ 0x6c ∷ 0x61 ∷ 0x79
    ∷ 0x2e ∷ 0x52 ∷ 0x65 ∷ 0x73 ∷ 0x65 ∷ 0x74 ∷ []

-- "NetStream.Play.Start"
abbrev pub play_start : List ℕ
play_start =
    0x4e ∷ 0x65 ∷ 0x74 ∷ 0x53 ∷ 0x74 ∷ 0x72 ∷ 0x65 ∷ 0x61 ∷ 0x6d ∷ 0x2e ∷ 0x50 ∷ 0x6c ∷ 0x61 ∷ 0x79
    ∷ 0x2e ∷ 0x53 ∷ 0x74 ∷ 0x61 ∷ 0x72 ∷ 0x74 ∷ []

-- "NetStream.Publish.Start"
abbrev pub publish_start : List ℕ
publish_start =
    0x4e ∷ 0x65 ∷ 0x74 ∷ 0x53 ∷ 0x74 ∷ 0x72 ∷ 0x65 ∷ 0x61 ∷ 0x6d ∷ 0x2e ∷ 0x50 ∷ 0x75 ∷ 0x62 ∷ 0x6c
    ∷ 0x69 ∷ 0x73 ∷ 0x68 ∷ 0x2e ∷ 0x53 ∷ 0x74 ∷ 0x61 ∷ 0x72 ∷ 0x74 ∷ []

-- " is reset!"
abbrev pub is_reset : List ℕ
is_reset = 0x20 ∷ 0x69 ∷ 0x73 ∷ 0x20 ∷ 0x72 ∷ 0x65 ∷ 0x73 ∷ 0x65 ∷ 0x74 ∷ 0x21 ∷ []

-- " is playing!"
abbrev pub is_playing : List ℕ
is_playing = 0x20 ∷ 0x69 ∷ 0x73 ∷ 0x20 ∷ 0x70 ∷ 0x6c ∷ 0x61 ∷ 0x79 ∷ 0x69 ∷ 0x6e ∷ 0x67 ∷ 0x21 ∷ []

-- " is now published!"
abbrev pub is_published : List ℕ
is_published =
    0x20 ∷ 0x69 ∷ 0x73 ∷ 0x20 ∷ 0x6e ∷ 0x6f ∷ 0x77 ∷ 0x20 ∷ 0x70 ∷ 0x75 ∷ 0x62 ∷ 0x6c ∷ 0x69 ∷ 0x73
    ∷ 0x68 ∷ 0x65 ∷ 0x64 ∷ 0x21 ∷ []

-- The order in which `range` takes the three keys of a status object: Go leaves it open.
pub data KeyOrder : Type 0 where
  level_code_description : KeyOrder
  level_description_code : KeyOrder
  code_level_description : KeyOrder
  code_description_level : KeyOrder
  description_level_code : KeyOrder
  description_code_level : KeyOrder

-- A status object as it is written, in an order.
unfoldable pub status_fields : KeyOrder → Value → Value → Value → Fields
status_fields level_code_description l c d =
    field key_level l (field key_code c (field key_description d done))
status_fields level_description_code l c d =
    field key_level l (field key_description d (field key_code c done))
status_fields code_level_description l c d =
    field key_code c (field key_level l (field key_description d done))
status_fields code_description_level l c d =
    field key_code c (field key_description d (field key_level l done))
status_fields description_level_code l c d =
    field key_description d (field key_level l (field key_code c done))
status_fields description_code_level l c d =
    field key_description d (field key_code c (field key_level l done))

unfoldable pub status_object : KeyOrder → List ℕ → List ℕ → Value
unfolding status_fields
status_object order code description =
    object (status_fields order (text status_level) (text code) (text description))

-- `recv_play`: two replies. A parameter that is no string panics. `orders n` is the order that `range` takes where `n` is
-- the last sequence number of the flow at the reply.
unfoldable pub recv_play : (ℕ → KeyOrder) → SendFlow → Value → Option SendFlow
unfolding status_object net_send
recv_play orders f (text name) =
    net_send f cmd_on_status (status_object (orders f.last_seqnum) play_reset (name ++ is_reset))
    >>= λ first.
        net_send first.0 cmd_on_status
          (status_object (orders first.0.last_seqnum) play_start (name ++ is_playing))
        >>= λ second. some second.0
recv_play orders f _ = none

unfoldable pub recv_publish : (ℕ → KeyOrder) → SendFlow → Value → Option SendFlow
unfolding status_object net_send
recv_publish orders f (text name) =
    net_send f cmd_on_status
      (status_object (orders f.last_seqnum) publish_start (name ++ is_published))
    >>= λ first. some first.0
recv_publish orders f _ = none

-- The body of `net_stream.recv` on a message: the standard reply, and the command for the caller.
unfoldable pub recv_msg : (ℕ → KeyOrder) → SendFlow → List ℕ → Option (SendFlow × List ℕ × Value)
unfolding decode_msg recv_play recv_publish
recv_msg orders f buf = decode_msg buf >>= λ msg.
    (if same_key msg.0 cmd_play
      then recv_play orders f msg.1
      else if same_key msg.0 cmd_publish
      then recv_publish orders f msg.1
      else some f)
    >>= λ f'. some (f', msg.0, msg.1)
