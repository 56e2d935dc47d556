-- ===== src/Handshake.antt =====
-- `handshake` of src/rtmfp/handshake.go, with the callback that src/rtmfp/transport.go gives it.
pub mod Calls
pub mod Table
pub mod Hello
pub mod Opening
pub mod Unanswered
pub mod Answered
pub mod Complete
use go_rtmfp.Prelude.{
  ℕ, ◌+◌, ◌-◌, ◌%◌, ◌^◌, Bool, true, false, not, ◌&&◌, ◌||◌, Option, none, some, List, [], ◌∷◌,
  ◌++◌, ◌==◌, ◌>>=◌, if◌then◌else◌, ltb, length, take, drop, replicate, bit_xor, add64,
}
use go_rtmfp.Vlu.{encode_vlu, encode_vlu_prefix_bytes}
use go_rtmfp.SendFlow.Transmit.{get_vlu_size}
use go_rtmfp.Buffer.{read_u32}
use go_rtmfp.Amf.Value.{same_key}
use go_rtmfp.Chunk.{
  ChunkCall, recv_ihello, recv_fihello, recv_rhello, recv_redirect, recv_iikeying, Runtime,
}
use go_rtmfp.Chunk.Options.{read_vlu_option}
use go_rtmfp.Packet.{
  Cipher, Packet, default_crypto_key, init, add_chunk, pack, Decoded, decode_packet, scramble,
}
use go_rtmfp.Session.Keys.{Crypto, Keying, SentChunk, mode_startup, init_dh}
use go_rtmfp.Session.Opening.{NetworkPacket, new_keying}
use go_rtmfp.Session.Keys

-- A call of the callback of a request: the address, the cookie and the public number, `none` for nil.
pub record Answer : Type 0 where
  pub src_addr : List ℕ
  pub cookie : List ℕ
  pub dh_public : Option (List ℕ)

-- A session under its number, with what went to its channel. The wait where the channel is full is left out.
pub record Entry : Type 0 where
  pub sessionid : ℕ
  pub keying : Keying
  pub queue : List NetworkPacket

-- `requests` are the targets by their tags, `answers` the calls of the callbacks, latest first; `last_sessionid` is the
-- variable of that name; `sent` is what went out, latest first.
pub record Handshake : Type 0 where
  pub cookie : List ℕ
  pub certificate : List ℕ
  pub requests : List (List ℕ × List ℕ)
  pub answers : List (List ℕ × Answer)
  pub sessions : List Entry
  pub last_sessionid : ℕ
  pub sent : List SentChunk

-- What the handshake takes from outside. `stream_handler` is the application's, `none` where it is not set.
pub record Outside : Type 0 where
  pub runtime : Runtime
  pub cipher : Cipher
  pub crypto : Crypto
  pub stream_handler : Option (List ℕ → Bool)

-- `gen_certificate`, of the 64 bytes of the pseudo id.
unfoldable pub gen_certificate : List ℕ → List ℕ
gen_certificate pseudo_id =
    0x01
    ∷ 0x0A
    ∷ 0x41
    ∷ 0x0E
    ∷ (pseudo_id ++ 0x02 ∷ 0x15 ∷ 0x02 ∷ 0x02 ∷ 0x15 ∷ 0x05 ∷ 0x02 ∷ 0x15 ∷ 0x0E ∷ [])

-- The copy of `Open` in src/rtmfp/transport.go into the array of 64 bytes.
unfoldable pub pseudo_id_of : List ℕ → List ℕ
pseudo_id_of id = take 64 id ++ replicate (64 - length id) 0

-- `open`, of the random cookie.
unfoldable pub open_handshake : List ℕ → List ℕ → Handshake
unfolding gen_certificate pseudo_id_of
open_handshake cookie id = record {
  cookie = cookie;
  certificate = gen_certificate (pseudo_id_of id);
  requests = [];
  answers = [];
  sessions = [];
  last_sessionid = 0;
  sent = [];
}

unfoldable pub find_request : List ℕ → List (List ℕ × List ℕ) → Option (List ℕ)
find_request tag [] = none
find_request tag (q ∷ qs) = if same_key q.0 tag then some q.1 else find_request tag qs

unfoldable pub drop_request : List ℕ → List (List ℕ × List ℕ) → List (List ℕ × List ℕ)
drop_request tag [] = []
drop_request tag (q ∷ qs) =
    if same_key q.0 tag then drop_request tag qs else q ∷ drop_request tag qs

-- "rtmfp://"
abbrev pub url_mark : List ℕ
url_mark = 0x72 ∷ 0x74 ∷ 0x6d ∷ 0x66 ∷ 0x70 ∷ 0x3a ∷ 0x2f ∷ 0x2f ∷ []

unfoldable pub starts_with : List ℕ → List ℕ → Bool
starts_with [] r = true
starts_with (a ∷ p) [] = false
starts_with (a ∷ p) (b ∷ r) = a == b && starts_with p r

-- `strings.Contains`
unfoldable pub contains : List ℕ → List ℕ → Bool
unfolding starts_with
contains [] p = starts_with p []
contains (b ∷ r) p = starts_with p (b ∷ r) || contains r p

unfoldable pub edp_type_of : List ℕ → ℕ
unfolding contains
edp_type_of edp = if contains edp url_mark then 0x0a else 0x0f

unfoldable pub ihello_body : List ℕ → List ℕ → List ℕ
unfolding edp_type_of
ihello_body edp tag =
    let edp_len = length edp in
    encode_vlu (add64 (add64 (get_vlu_size (add64 1 edp_len)) 1) edp_len)
    ++ (encode_vlu (add64 1 edp_len) ++ (edp_type_of edp ∷ (edp ++ tag)))

unfoldable pub rhello_body : List ℕ → List ℕ → List ℕ → List ℕ
rhello_body tag cookie certificate =
    encode_vlu_prefix_bytes tag ++ (encode_vlu_prefix_bytes cookie ++ certificate)

-- The packet of a chunk that `send_ihello` or `send_rhello` sends, at a time stamp.
unfoldable pub startup_packet : Cipher → ℕ → SentChunk → Option (List ℕ)
startup_packet cipher now c =
    pack cipher
      (add_chunk
        (init (record {
          time_critical = false;
          time_critical_reverse = false;
          time_stamp = now;
          time_stamp_echo = 0;
          mode = mode_startup;
          buf = [];
        }))
        c.chunk_type c.body)
      0 (some default_crypto_key)

unfoldable pub send_ihello : List ℕ → List ℕ → List ℕ → Handshake → Handshake
unfolding ihello_body
send_ihello addr edp tag h = record h {
  sent = record { dst_addr = addr; chunk_type = 0x30; body = ihello_body edp tag } ∷ h.sent;
}

unfoldable pub send_rhello : List ℕ → List ℕ → Handshake → Handshake
unfolding rhello_body
send_rhello dst_addr tag h = record h {
  sent =
      record {
        dst_addr = dst_addr;
        chunk_type = 0x70;
        body = rhello_body tag h.cookie h.certificate;
      }
      ∷ h.sent;
}

-- The public number at the end of a certificate that says there is one.
unfoldable pub cert_public : List ℕ → Option (Option (List ℕ))
cert_public resp_cert = read_vlu_option resp_cert 0x1D 0 >>= λ mode. some (
    if mode == 0x02 && ltb 128 (length resp_cert)
    then some (drop (length resp_cert - 128) resp_cert)
    else none)

-- A far id that is not the target makes no difference.
unfoldable pub on_rhello : List ℕ → List ℕ → List ℕ → List ℕ → Handshake → Option Handshake
unfolding find_request drop_request cert_public
on_rhello src_addr tag_echo cookie resp_cert h = elim (find_request tag_echo h.requests) [
  | none ↦ some h
  | some target ↦ cert_public resp_cert >>= λ dh_public. some (record h {
    requests = drop_request tag_echo h.requests;
    answers =
        (tag_echo, record { src_addr = src_addr; cookie = cookie; dh_public = dh_public })
        ∷ h.answers;
  })
]

-- The loop of `recv_redirect`.
unfoldable pub send_ihellos : List (List ℕ) → List ℕ → List ℕ → Handshake → Handshake
unfolding send_ihello
send_ihellos [] target tag h = h
send_ihellos (a ∷ addrs) target tag h = send_ihellos addrs target tag (send_ihello a target tag h)

unfoldable pub on_redirect : List ℕ → List (List ℕ) → Handshake → Handshake
unfolding find_request send_ihellos
on_redirect tag_echo destinations h = elim (find_request tag_echo h.requests) [
  | none ↦ h
  | some target ↦ send_ihellos destinations target tag_echo h
]

unfoldable pub put_session : Entry → List Entry → List Entry
put_session e [] = e ∷ []
put_session e (s ∷ ss) = if s.sessionid == e.sessionid then e ∷ ss else s ∷ put_session e ss

-- `new_sessionid`, a `uint32`.
unfoldable pub next_sessionid : ℕ → ℕ
next_sessionid last = (last + 1) % 2 ^ 32

-- The session goes under its number; one that was there is lost.
unfoldable pub new_session : Keying → Handshake → Handshake
unfolding put_session
new_session k h = record h {
  sessions = put_session (record { sessionid = k.sessionid; keying = k; queue = [] }) h.sessions;
  last_sessionid = k.sessionid;
}

-- The session that `create_passive_session` of src/rtmfp/transport.go makes, and its `recv_iikeying` where the
-- application accepts it. It stays in the table where it does not.
unfoldable pub passive_session :
    Option (List ℕ → Bool) → Outside → NetworkPacket → ℕ → List ℕ → List ℕ → Keying → Option Keying
passive_session none env p init_sid init_cert init_nonce opened = none
passive_session (some accepts) env p init_sid init_cert init_nonce opened =
    if accepts p.addr
    then Keys.recv_iikeying env.crypto p.cert_beyond p.addr init_sid init_cert init_nonce opened
    else some opened

-- `recv_iikeying`
unfoldable pub on_iikeying :
    Outside → NetworkPacket → ℕ → List ℕ → List ℕ → List ℕ → Handshake → Option Handshake
unfolding next_sessionid new_keying new_session passive_session
on_iikeying env p init_sid cookie_echo init_cert init_nonce h =
    let opened = new_keying env.crypto (next_sessionid h.last_sessionid) p.private in
    if same_key h.cookie cookie_echo
    then (passive_session env.stream_handler env p init_sid init_cert init_nonce opened >>= λ keyed.
        some (new_session keyed h))
    else some h

-- A chunk for the handshake. The chunks of a session panic.
unfoldable pub handle : Outside → NetworkPacket → ChunkCall → Handshake → Option Handshake
unfolding send_rhello on_rhello on_redirect on_iikeying
handle env p (recv_ihello edp_type edp_data tag) h = some (send_rhello p.addr tag h)
handle env p (recv_fihello edp_type edp_data reply_address tag) h =
    some (send_rhello reply_address tag h)
handle env p (recv_rhello tag_echo cookie resp_cert) h =
    on_rhello p.addr tag_echo cookie resp_cert h
handle env p (recv_redirect tag_echo destinations) h = some (on_redirect tag_echo destinations h)
handle env p (recv_iikeying init_sid cookie_echo init_cert init_nonce) h =
    on_iikeying env p init_sid cookie_echo init_cert init_nonce h
handle env p _ h = none

unfoldable pub handle_all : Outside → NetworkPacket → List ChunkCall → Handshake → Option Handshake
unfolding handle
handle_all env p [] h = some h
handle_all env p (c ∷ cs) h = handle env p c h >>= handle_all env p cs

-- The packet to the channel of its session; one for an unknown session is dropped.
unfoldable pub deliver : ℕ → NetworkPacket → List Entry → List Entry
deliver id p [] = []
deliver id p (s ∷ ss) =
    if s.sessionid == id then record s { queue = s.queue ++ p ∷ [] } ∷ ss else s ∷ deliver id p ss

unfoldable pub recv_packet : Outside → NetworkPacket → Handshake → Option Handshake
unfolding deliver handle_all
recv_packet env p h =
    let first = read_u32 p.bytes in
    let id = scramble first.0 first.1 in
    let decoded = decode_packet env.runtime env.cipher p.beyond p.bytes (some default_crypto_key) in
    if ltb 0 id
    then some (record h { sessions = deliver id p h.sessions })
    else (handle_all env p decoded.calls h >>= λ h'. if decoded.panicked then none else some h')

-- `dispatch`
unfoldable pub dispatch : Outside → List NetworkPacket → Handshake → Option Handshake
unfolding recv_packet
dispatch env [] h = some h
dispatch env (p ∷ ps) h = recv_packet env p h >>= dispatch env ps
