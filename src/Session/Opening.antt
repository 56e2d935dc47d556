-- ===== src/Session/Opening.antt =====
-- `active_open` of src/rtmfp/session.go: the loop that sends `iikeying`s, and the packets that its session takes
-- meanwhile, as far as they concern the keys.
use go_rtmfp.Prelude.{
  ℕ, zero, suc, ◌+◌, Bool, true, false, Option, none, some, List, [], ◌∷◌, ltb, ◌>>=◌,
  if◌then◌else◌,
}
use go_rtmfp.Chunk.{
  ChunkCall, Runtime, recv_rhello_cookie_change, recv_iikeying as iikeying_call,
  recv_rikeying as rikeying_call,
}
use go_rtmfp.Packet.{Cipher, decode_packet}
use go_rtmfp.Session.Keys.{
  Crypto, Keying, mode_startup, is_handshaked, init_dh, send_iikeying, recv_cookie_change,
  recv_iikeying, recv_rikeying,
}

-- A packet at the channel of the socket or of a session, and what else its handling depends on: the bytes within the
-- capacity of the buffer, and of a certificate or a nonce in it, past the length; and a random private number.
pub record NetworkPacket : Type 0 where
  pub addr : List ℕ
  pub bytes : List ℕ
  pub beyond : List ℕ
  pub cert_beyond : List ℕ
  pub private : ℕ

-- The session that `new_session` makes under a number, in the mode that `init` sets.
unfoldable pub blank_session : ℕ → Keying
blank_session id = record {
  sessionid = id;
  other_sessionid = 0;
  dh_private = 0;
  dh_public = 0;
  other_dh_public = none;
  nonce = [];
  mode = mode_startup;
  keys = none;
  other_addr = [];
  active_opening = false;
  opened = 0;
  sent = [];
}

-- The session after `init` with its random private number.
unfoldable pub new_keying : Crypto → ℕ → ℕ → Keying
unfolding init_dh blank_session
new_keying crypto id private = init_dh crypto private (blank_session id)

-- `dkey`, nil before the handshake.
unfoldable pub decrypt_key : Keying → Option (List ℕ)
decrypt_key s = elim s.keys [ none ↦ none | some keys ↦ some keys.0 ]

module _ (C : Crypto) where
  -- The handlers of `session` for the keying chunks. Those of the hello chunks are empty, the others concern the flows.
  unfoldable pub keying_call : NetworkPacket → ChunkCall → Keying → Option Keying
  unfolding recv_cookie_change recv_iikeying recv_rikeying
  keying_call p (recv_rhello_cookie_change old_cookie new_cookie) s =
      some (recv_cookie_change C p.addr new_cookie s)
  keying_call p (iikeying_call init_sid cookie_echo init_cert init_nonce) s =
      recv_iikeying C p.cert_beyond p.addr init_sid init_cert init_nonce s
  keying_call p (rikeying_call resp_sid resp_nonce) s =
      recv_rikeying C p.cert_beyond p.addr resp_sid resp_nonce s
  keying_call p _ s = some s

  unfoldable pub keying_calls : NetworkPacket → List ChunkCall → Keying → Option Keying
  unfolding keying_call
  keying_calls p [] s = some s
  keying_calls p (c ∷ cs) s = keying_call p c s >>= keying_calls p cs

  module _ (env : Runtime) (cipher : Cipher) where
    -- `recv_packet`
    unfoldable pub keying_packet : NetworkPacket → Keying → Option Keying
    unfolding decrypt_key keying_calls
    keying_packet p s =
        let decoded = decode_packet env cipher p.beyond p.bytes (decrypt_key s) in
        (keying_calls p decoded.calls s >>= λ s'. if decoded.panicked then none else some s')

    -- `dispatch`
    unfoldable pub keying_packets : List NetworkPacket → Keying → Option Keying
    unfolding keying_packet
    keying_packets [] s = some s
    keying_packets (p ∷ ps) s = keying_packet p s >>= keying_packets ps

    -- The loop of `active_open` from its round `i` on, with `n` rounds left. `waits i` are the packets that the session
    -- takes in that round, before the loop goes on: it ends with what is sent to `active_open_chan`, or with the timer. The
    -- result has the number of rounds.
    unfoldable pub active_loop :
        (ℕ → List NetworkPacket) → List ℕ → List ℕ → ℕ → ℕ → Keying → Option (Keying × ℕ)
    unfolding keying_packets send_iikeying
    active_loop waits dst_addr cookie zero i s = some (s, i)
    active_loop waits dst_addr cookie (suc n) i s =
        keying_packets (waits i) (send_iikeying C dst_addr cookie s) >>= λ s'.
        elim (ltb 0 s'.opened) [
          | true ↦ some (s', i + 1)
          | false ↦ active_loop waits dst_addr cookie n (i + 1) s'
        ]

    abbrev pub iikeying_retry_count : ℕ
    iikeying_retry_count = 5

    -- `active_open` of a session under its number: the session, the rounds, and whether there is no error.
    unfoldable pub active_open :
        (ℕ → List NetworkPacket)
        → ℕ
        → ℕ
        → List ℕ
        → List ℕ
        → Option (List ℕ)
        → Option (Keying × ℕ × Bool)
    unfolding new_keying active_loop is_handshaked
    active_open waits id private dst_addr cookie other_dh_public =
        active_loop waits dst_addr cookie iikeying_retry_count 0 (record (new_keying C id private) {
          other_dh_public = other_dh_public;
          active_opening = true;
        })
        >>= λ r. some (record r.0 { active_opening = false }, r.1, is_handshaked r.0)
