-- ===== src/Tests/Handshakes.antt =====
-- Runs of src/rtmfp/handshake.go, with AES replaced by the identity and big numbers by small ones.
use go_rtmfp.Prelude.{
  ℕ, zero, suc, ◌+◌, ◌*◌, ◌^◌, ◌<◌, ◌≤◌, ◌≡◌, refl, ap, true, Bool, Option, none, some, List, [],
  ◌∷◌, ◌++◌, length, replicate, arith,
}
use go_rtmfp.Chunk.{
  ChunkCall, Runtime, recv_iikeying as iikeying_call, recv_rikeying as rikeying_call,
}
use go_rtmfp.Chunk.Decode.{decode_rhello_chunk, decode_iikeying_chunk, decode_rikeying_chunk}
use go_rtmfp.Packet.{Cipher, decode_packet}
use go_rtmfp.Session.Keys.{
  Crypto, SentChunk, Keying, mode_startup, init_dh, padded, recv_iikeying, recv_rikeying,
}
use go_rtmfp.Session.Trips.{cert_of}
use go_rtmfp.Session.Agreement.{Agree, keying_agrees}
use go_rtmfp.Chunk.Encode.{send_iikeying_body, send_rikeying_body}
use go_rtmfp.Session.Opening.{NetworkPacket}
use go_rtmfp.Handshake.{Handshake, Outside, gen_certificate, handle_all, dispatch}
use go_rtmfp.Handshake.Calls.{owed}
use go_rtmfp.Handshake.Table.{Extends, dispatch-owed, handle_all-Extends}

abbrev sum_of : List ℕ → ℕ
sum_of [] = 0
sum_of (b ∷ r) = b + sum_of r

pub sum_of-zeros : (k n : ℕ) → sum_of (replicate k 0 ++ n ∷ []) ≡ n
sum_of-zeros zero n = omega arith
sum_of-zeros (suc k) n = omega (arith, sum_of-zeros k n)

-- The number is its own public number, and the product the common one.
abbrev pub products : Crypto
products = record {
  public = λ x. x;
  power = λ y x. y * x;
  to_bytes = λ n. n ∷ [];
  from_bytes = sum_of;
  hmac = λ a b. a ++ b;
  powers_commute = λ x y. omega arith;
  public-length = λ x. omega arith;
  from_bytes-zeros = sum_of-zeros;
}

abbrev pub outside : Outside
outside = record {
  runtime = record { max_alloc = 1048576; addr_string = λ ip port. ip };
  cipher = record { encrypt = λ key text. text; decrypt = λ key text. text };
  crypto = products;
  stream_handler = some (λ addr. true);
}

-- An `rhello` with the tag 5 and the cookie 3 4.
abbrev rhello_packet : NetworkPacket
rhello_packet = record {
  addr = 1 ∷ [];
  bytes =
      234 ∷ 135 ∷ 2 ∷ 117 ∷ 234 ∷ 128 ∷ 3 ∷ 112 ∷ 0 ∷ 7 ∷ 1 ∷ 5 ∷ 2 ∷ 3 ∷ 4 ∷ 1 ∷ 10 ∷ 255 ∷ 255
      ∷ 255 ∷ [];
  beyond = [];
  cert_beyond = [];
  private = 6;
}

abbrev pub asking : Handshake
asking = record {
  cookie = 1 ∷ 2 ∷ [];
  certificate = gen_certificate (replicate 64 0);
  requests = (5 ∷ [], 8 ∷ []) ∷ [];
  answers = [];
  sessions = [];
  last_sessionid = 0;
  sent = [];
}

abbrev answered_once : Handshake
answered_once = record asking {
  requests = [];
  answers = (5 ∷ [], record { src_addr = 1 ∷ []; cookie = 3 ∷ 4 ∷ []; dh_public = none }) ∷ [];
}

dispatch_rhello : dispatch outside (rhello_packet ∷ rhello_packet ∷ []) asking ≡ some answered_once
unfolding dispatch go_rtmfp.Packet.scramble go_rtmfp.Buffer.read_u32 decode_packet
    go_rtmfp.Buffer.read_u16 go_rtmfp.Buffer.read_u8 go_rtmfp.Chunk.Dispatch.decode_chunk
    decode_rhello_chunk go_rtmfp.Vlu.decode_vlu go_rtmfp.Chunk.Options.read_vlu_option
    go_rtmfp.Prelude.sub64
dispatch_rhello = refl

-- The same `rhello` comes twice.
dispatch-owed_example : owed (5 ∷ []) answered_once ≤ owed (5 ∷ []) asking
dispatch-owed_example =
    dispatch-owed outside (rhello_packet ∷ rhello_packet ∷ []) (5 ∷ []) asking answered_once
      dispatch_rhello

abbrev cert_with_key : List ℕ
cert_with_key = 0x03 ∷ 0x1D ∷ 0x02 ∷ 0x07 ∷ []

-- An `iikeying` with a wrong cookie and one with the right cookie.
abbrev iikeyings : List ChunkCall
iikeyings =
    iikeying_call 9 (1 ∷ []) cert_with_key [] ∷ iikeying_call 9 (1 ∷ 2 ∷ []) cert_with_key [] ∷ []

abbrev Ran : Option Handshake → Type 0
Ran o = (h : Handshake) × (o ≡ some h)

iikeyings_run : Ran (handle_all outside rhello_packet iikeyings asking)
unfolding handle_all go_rtmfp.Session.Keys.recv_iikeying go_rtmfp.Chunk.Options.read_option
    go_rtmfp.Buffer.read_u8 go_rtmfp.Vlu.decode_vlu go_rtmfp.Buffer.slice go_rtmfp.Prelude.sub64
iikeyings_run = (_, refl)

handle_all-Extends_example : Extends 1 asking iikeyings_run.0
handle_all-Extends_example =
    handle_all-Extends outside rhello_packet iikeyings asking iikeyings_run.0 refl (omega arith)
      iikeyings_run.1

abbrev side : ℕ → Keying
side id = record {
  sessionid = id;
  other_sessionid = 0;
  dh_private = 0;
  dh_public = 0;
  other_dh_public = none;
  nonce = [];
  mode = mode_startup;
  keys = none;
  other_addr = [];
  active_opening = true;
  opened = 0;
  sent = [];
}

-- The initiator 3 and the responder 4 draw the private numbers 5 and 6.
keying_agrees_example :
    let i = init_dh products 5 (side 3) in
    let r = init_dh products 6 (side 4) in
    let cert = cert_of (padded products i.dh_public) in
    (i' r' : Keying) × (decode_iikeying_chunk []
        (send_iikeying_body i.sessionid (1 ∷ []) (i.dh_public ∷ []) i.nonce)
      ≡ some (iikeying_call i.sessionid (1 ∷ []) cert i.nonce))
    × (recv_iikeying products [] (9 ∷ []) i.sessionid cert i.nonce r ≡ some r')
    × (r'.sent
        ≡ record {
          dst_addr = 9 ∷ [];
          chunk_type = 0x78;
          body = send_rikeying_body r.sessionid r.nonce;
        }
          ∷ r.sent)
    × (decode_rikeying_chunk [] (send_rikeying_body r.sessionid r.nonce)
        ≡ some (rikeying_call r.sessionid r.nonce))
    × (recv_rikeying products [] (8 ∷ []) r.sessionid r.nonce i ≡ some i')
    × Agree i' r'
keying_agrees_example =
    keying_agrees products 5 6 (side 3) (side 4) [] [] [] [] (8 ∷ []) (9 ∷ []) (1 ∷ [])
      (omega arith) (omega arith) refl refl (omega arith)
