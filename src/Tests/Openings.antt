-- ===== src/Tests/Openings.antt =====
-- A session that is opened over packets between two ends of src/rtmfp, with small numbers.
use go_rtmfp.Prelude.{
  ℕ, ◌^◌, ◌≡◌, refl, Bool, true, false, ◌&&◌, Option, none, some, List, [], ◌∷◌, ◌++◌, length,
  replicate, ltb, ltb→lt, All, IsByte, arith, if◌then◌else◌, ◌==◌,
}
use go_rtmfp.Chunk.Encode.{send_iikeying_body, send_rikeying_body}
use go_rtmfp.Packet.{Packet, default_crypto_key, key_of}
use go_rtmfp.Session.Keys.{init_dh}
use go_rtmfp.Session.Opening.{NetworkPacket, new_keying}
use go_rtmfp.Session.Carried.{Carries, pack_total}
use go_rtmfp.Handshake.{
  Handshake, Outside, gen_certificate, rhello_body, next_sessionid, find_request,
}
use go_rtmfp.Handshake.Opening.{Course, Created, create_session}
use go_rtmfp.Handshake.Unanswered.{IsRouted, ihello, create_session-unanswered}
use go_rtmfp.Packet.{scramble}
use go_rtmfp.Buffer.{read_u32}
use go_rtmfp.Handshake.Complete.{Opens, create_session-Opens}
use go_rtmfp.Tests.Codecs.{shift_cipher, shift_cipher-IsBlockCipher}
use go_rtmfp.Tests.Handshakes.{outside, asking}

are_bytes : List ℕ → Bool
are_bytes [] = true
are_bytes (b ∷ r) = ltb b 256 && are_bytes r

are_bytes-bytes : (l : List ℕ) → are_bytes l ≡ true → All IsByte l
unfolding are_bytes
are_bytes-bytes [] e = tt
are_bytes-bytes (b ∷ r) e = ground (arith, are_bytes-bytes r)

-- The shifting cipher in place of AES.
abbrev pub ends : Outside
ends = record outside { cipher = shift_cipher }

-- The second end, whose certificate is its own.
abbrev other : Handshake
other = record asking { cookie = 4 ∷ 5 ∷ 6 ∷ []; requests = [] }

abbrev marks : Packet
marks = record {
  time_critical = false;
  time_critical_reverse = false;
  time_stamp = 7;
  time_stamp_echo = 0;
  mode = 3;
  buf = [];
}

-- The second end draws the private number 6.
abbrev packet_of : List ℕ → NetworkPacket
packet_of bytes = record {
  addr = 9 ∷ [];
  bytes = bytes;
  beyond = [];
  cert_beyond = [];
  private = 6;
}

packed :
    (id : ℕ) (o : Option (List ℕ)) (chunk_type : ℕ) (body : List ℕ)
    → length (key_of o id) ≡ 16
    → ltb id (2 ^ 32) ≡ true
    → ltb chunk_type 256 ≡ true
    → ltb (length body) 65536 ≡ true
    → are_bytes body ≡ true
    → (bytes : List ℕ) × Carries shift_cipher id o chunk_type body (packet_of bytes)
packed id o chunk_type body hk hid ht hl hb =
    let bytes = are_bytes-bytes body hb in
    let sent =
      pack_total outside.runtime shift_cipher id o marks chunk_type body shift_cipher-IsBlockCipher
        hk (ltb→lt _ _ hid) (omega arith) (omega arith) (omega arith) (ltb→lt _ _ ht)
        (ltb→lt _ _ hl) bytes in
    (
      sent.0,
      record {
        packet = marks;
        mode = omega arith;
        stamp = omega arith;
        stamp_echo = omega arith;
        packed = sent.1;
        type_byte = ltb→lt _ _ ht;
        size = ltb→lt _ _ hl;
        bytes = bytes;
      },
    )

pub rhello_sent :
    (bytes : List ℕ) × Carries shift_cipher 0
      (some default_crypto_key)
      0x70
      (rhello_body (5 ∷ []) other.cookie other.certificate)
      (packet_of bytes)
unfolding rhello_body are_bytes key_of gen_certificate go_rtmfp.Vlu.encode_vlu_prefix_bytes
rhello_sent = packed 0 (some default_crypto_key) 0x70 _ refl refl refl refl refl

pub iikeying_sent :
    (bytes : List ℕ) × Carries shift_cipher 0 none 0x38
      (send_iikeying_body 1 other.cookie (5 ∷ []) (new_keying outside.crypto 1 5).nonce)
      (packet_of bytes)
unfolding are_bytes send_iikeying_body key_of go_rtmfp.Buffer.write_u32
    go_rtmfp.Vlu.encode_vlu_prefix_bytes new_keying
iikeying_sent = packed 0 none 0x38 _ refl refl refl refl refl

pub rikeying_sent :
    (bytes : List ℕ) × Carries shift_cipher 1 none 0x78
      (send_rikeying_body 1 (new_keying outside.crypto 1 6).nonce)
      (packet_of bytes)
unfolding are_bytes send_rikeying_body key_of go_rtmfp.Buffer.write_u32
    go_rtmfp.Vlu.encode_vlu_prefix_bytes new_keying
rikeying_sent = packed 1 none 0x78 _ refl refl refl refl refl

-- The tag is 5, the private numbers are 5 and 6, and nothing comes in later waits.
abbrev pub course : Course
course = record {
  tag = 5 ∷ [];
  private = 5;
  hello_waits = λ i. if i == 0 then (packet_of rhello_sent.0) ∷ [] else [];
  keying_waits = λ i. if i == 0 then (packet_of rikeying_sent.0) ∷ [] else [];
}

create_session-Opens_example :
    Opens ends course
      (8 ∷ [])
      (7 ∷ [])
      asking
      other
      (packet_of rhello_sent.0)
      (packet_of iikeying_sent.0)
unfolding next_sessionid new_keying init_dh
create_session-Opens_example =
    create_session-Opens ends (λ addr. true) course (8 ∷ []) (7 ∷ []) (replicate 64 0) asking other
      (packet_of rhello_sent.0) (packet_of iikeying_sent.0) (packet_of rikeying_sent.0)
      shift_cipher-IsBlockCipher refl refl refl refl (omega arith) (omega arith) refl refl
      rhello_sent.1 iikeying_sent.1 rikeying_sent.1

-- That opening, for the streams on it.
pub opening :
    Opens ends course
      (8 ∷ [])
      (7 ∷ [])
      asking
      other
      (packet_of rhello_sent.0)
      (packet_of iikeying_sent.0)
unfolding next_sessionid new_keying init_dh
opening =
    create_session-Opens ends (λ addr. true) course (8 ∷ []) (7 ∷ []) (replicate 64 0) asking other
      (packet_of rhello_sent.0) (packet_of iikeying_sent.0) (packet_of rikeying_sent.0)
      shift_cipher-IsBlockCipher refl refl refl refl (omega arith) (omega arith) refl refl
      rhello_sent.1 iikeying_sent.1 rikeying_sent.1

-- In each wait a packet comes for the session 9, and no answer.
abbrev unanswered : Course
unanswered = record course { hello_waits = λ i. packet_of (0 ∷ 0 ∷ 0 ∷ 9 ∷ []) ∷ [] }

unanswered-IsRouted : (i : ℕ) → All IsRouted (unanswered.hello_waits i)
unfolding scramble read_u32
unanswered-IsRouted i = (refl, tt)

create_session-unanswered_example :
    (c : Created) × (create_session ends unanswered (8 ∷ []) (7 ∷ []) asking ≡ some c)
    × (c.session ≡ none)
    × (c.is_open ≡ false)
    × (c.handshake.answers ≡ asking.answers)
    × (c.handshake.sent ≡ replicate 5 (ihello (8 ∷ []) (7 ∷ []) (5 ∷ [])) ++ asking.sent)
    × (find_request (5 ∷ []) c.handshake.requests ≡ some (7 ∷ []))
create_session-unanswered_example =
    create_session-unanswered ends unanswered (8 ∷ []) (7 ∷ []) asking unanswered-IsRouted
