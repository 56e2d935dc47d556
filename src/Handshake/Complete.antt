-- ===== src/Handshake/Complete.antt =====
-- The whole opening of a session between two ends of src/rtmfp, over the packets that carry it.
use go_rtmfp.Prelude.{
  ℕ, ◌^◌, ◌<◌, ◌≡◌, refl, ◌∙◌, Bool, true, false, none, some, List, [], ◌∷◌, length, arith, IsU64,
}
use go_rtmfp.Chunk.{recv_rhello, recv_iikeying as iikeying_call, recv_rikeying as rikeying_call}
use go_rtmfp.Chunk.Dispatch.{decode_chunk}
use go_rtmfp.Chunk.Decode.{decode_iikeying_chunk, decode_rikeying_chunk}
use go_rtmfp.Chunk.Encode.{send_iikeying_body, send_rikeying_body}
use go_rtmfp.Packet.{default_crypto_key, key_of}
use go_rtmfp.Packet.Sealed.{IsBlockCipher}
use go_rtmfp.Session.Keys.{
  Crypto, Keying, init_dh, padded, send_iikeying, recv_iikeying, recv_rikeying, is_handshaked,
}
use go_rtmfp.Session.Trips.{cert_of}
use go_rtmfp.Session.Agreement.{Agree, keying_agrees}
use go_rtmfp.Session.Opening.{NetworkPacket, blank_session, new_keying, active_loop, active_open}
use go_rtmfp.Session.Carried.{Carries, Reads, Carries-Reads}
use go_rtmfp.Handshake.{
  Answer, Handshake, Outside, gen_certificate, rhello_body, next_sessionid, new_session,
  on_iikeying, passive_session, handle, recv_packet,
}
use go_rtmfp.Handshake.Hello.{rhello_trip, own_certificate}
use go_rtmfp.Handshake.Opening.{
  put_request, Course, Created, create_session, open_answered, ask_loop, set_keying,
}
use go_rtmfp.Handshake.Answered.{
  same_key_self, recv_packet-Reads, after_answer, ask_loop-answered, active_loop-answered,
  recv_rikeying-opened,
}

-- The call that a packet with a hello or a keying chunk makes at the other end.
rhello-Reads :
    (env : Outside) (tag cookie cert : List ℕ) (q : NetworkPacket)
    → IsBlockCipher env.cipher
    → IsU64 (length tag)
    → IsU64 (length cookie)
    → Carries env.cipher 0 (some default_crypto_key) 0x70 (rhello_body tag cookie cert) q
    → Reads env.runtime env.cipher 0 (some default_crypto_key) q (recv_rhello tag cookie cert)
rhello-Reads env tag cookie cert q block ht hc k =
    Carries-Reads env.runtime env.cipher 0 (some default_crypto_key) (some default_crypto_key) 0x70
      (rhello_body tag cookie cert) q (recv_rhello tag cookie cert) block (unfold key_of in refl)
      refl (omega arith) k
      (λ beyond. unfold decode_chunk in rw (rhello_trip beyond tag cookie cert ht hc) refl)

iikeying-Reads :
    (env : Outside) (sid : ℕ) (cookie dh nonce cert : List ℕ) (p : NetworkPacket)
    → IsBlockCipher env.cipher
    → Carries env.cipher 0 none 0x38 (send_iikeying_body sid cookie dh nonce) p
    → ((beyond : List ℕ)
        → decode_iikeying_chunk beyond (send_iikeying_body sid cookie dh nonce)
          ≡ some (iikeying_call sid cookie cert nonce))
    → Reads env.runtime env.cipher 0
        (some default_crypto_key)
        p
        (iikeying_call sid cookie cert nonce)
iikeying-Reads env sid cookie dh nonce cert p block k trip =
    Carries-Reads env.runtime env.cipher 0 none (some default_crypto_key) 0x38
      (send_iikeying_body sid cookie dh nonce) p (iikeying_call sid cookie cert nonce) block
      (unfold key_of in refl) (unfold key_of in refl) (omega arith) k
      (λ beyond. unfold decode_chunk in rw (trip beyond) refl)

rikeying-Reads :
    (env : Outside) (id sid : ℕ) (nonce : List ℕ) (r : NetworkPacket)
    → IsBlockCipher env.cipher
    → id < 2 ^ 32
    → Carries env.cipher id none 0x78 (send_rikeying_body sid nonce) r
    → ((beyond : List ℕ)
        → decode_rikeying_chunk beyond (send_rikeying_body sid nonce)
          ≡ some (rikeying_call sid nonce))
    → Reads env.runtime env.cipher id none r (rikeying_call sid nonce)
rikeying-Reads env id sid nonce r block h k trip =
    Carries-Reads env.runtime env.cipher id none none 0x78 (send_rikeying_body sid nonce) r
      (rikeying_call sid nonce) block (unfold key_of in refl) refl h k
      (λ beyond. unfold decode_chunk in rw (trip beyond) refl)

-- An `iikeying` with the right cookie, at an end that accepts its sender.
on_iikeying-accepted :
    (env : Outside) (accepts : List ℕ → Bool) (p : NetworkPacket) (sid : ℕ) (cert nonce : List ℕ)
    (g : Handshake) (k : Keying)
    → env.stream_handler ≡ some accepts
    → accepts p.addr ≡ true
    → recv_iikeying env.crypto p.cert_beyond p.addr sid cert nonce
        (new_keying env.crypto (next_sessionid g.last_sessionid) p.private)
      ≡ some k
    → on_iikeying env p sid g.cookie cert nonce g ≡ some (new_session k g)
unfolding on_iikeying passive_session
on_iikeying-accepted env accepts p sid cert nonce g k a y e =
    rw (same_key_self g.cookie, a, y, e) refl

-- What `active_open` returns, where its loop ends with the answer.
active_open-answered :
    (env : Outside) (waits : ℕ → List NetworkPacket) (id private : ℕ) (dst cookie : List ℕ)
    (s : Keying) (d e : List ℕ)
    → active_loop env.crypto env.runtime env.cipher waits dst cookie 5 0
        (record (new_keying env.crypto id private) {
          other_dh_public = none;
          active_opening = true;
        })
      ≡ some (s, 1)
    → s.keys ≡ some (d, e)
    → active_open env.crypto env.runtime env.cipher waits id private dst cookie none
      ≡ some (record s { active_opening = false }, 1, true)
unfolding active_open
active_open-answered env waits id private dst cookie s d e l k =
    let yes : is_handshaked s ≡ true = unfold is_handshaked in rw k refl in rw (l, yes) refl

-- The handshake with a session that entered its table and has opened.
abbrev with_session : ℕ → Keying → Handshake → Handshake
with_session id s h =
    let entered = new_session (blank_session id) h in
    record entered { sessions = set_keying id s entered.sessions }

-- `create_session`, where both loops end with the answer.
create_session-answered :
    (env : Outside) (course : Course) (addr target : List ℕ) (a : Answer) (n : ℕ) (h h' : Handshake)
    (s : Keying)
    → ask_loop env
        (length h.answers)
        course.hello_waits
        addr
        target
        course.tag
        5
        0
        (record h { requests = put_request course.tag target h.requests })
      ≡ some (some a, n, h')
    → active_open env.crypto env.runtime env.cipher course.keying_waits
        (next_sessionid h'.last_sessionid)
        course.private
        a.src_addr
        a.cookie
        a.dh_public
      ≡ some (s, 1, true)
    → create_session env course addr target h
      ≡ some (record {
        handshake = with_session (next_sessionid h'.last_sessionid) s h';
        session = some s;
        is_open = true;
      })
unfolding create_session open_answered
create_session-answered env course addr target a n h h' s e k = rw (e, k) refl

-- What the callback gets of the `rhello` that a handshake sends.
abbrev answer_of : NetworkPacket → Handshake → Answer
answer_of q g = record { src_addr = q.addr; cookie = g.cookie; dh_public = none }

-- The session of `active_open` when its first `iikeying` has gone out.
asking : Crypto → ℕ → ℕ → List ℕ → List ℕ → Keying
asking C id private dst cookie = record (blank_session id) {
  active_opening = true;
  sent =
      record {
        dst_addr = dst;
        chunk_type = 0x38;
        body =
            send_iikeying_body id cookie (C.to_bytes (new_keying C id private).dh_public)
              (new_keying C id private).nonce;
      }
      ∷ [];
}

asking-init_dh :
    (C : Crypto) (id private : ℕ) (dst cookie : List ℕ)
    → send_iikeying C dst cookie
        (record (new_keying C id private) { other_dh_public = none; active_opening = true })
      ≡ init_dh C private (asking C id private dst cookie)
unfolding asking send_iikeying new_keying init_dh blank_session
asking-init_dh C id private dst cookie = refl

-- The two ends of the keying, from the session of one number to that of another.
keyed :
    (C : Crypto) (x y id sid : ℕ) (b0 b1 b2 b3 dst src cookie to : List ℕ)
    → id < 2 ^ 32
    → sid < 2 ^ 32
    → IsU64 (length cookie)
    → let i = new_keying C id x in
      let t = new_keying C sid y in
      let cert = cert_of (padded C i.dh_public) in
      (s k : Keying) × (decode_iikeying_chunk b0
          (send_iikeying_body id cookie (C.to_bytes i.dh_public) i.nonce)
        ≡ some (iikeying_call id cookie cert i.nonce))
      × (recv_iikeying C b1 src id cert i.nonce t ≡ some k)
      × (k.sent
          ≡ record { dst_addr = src; chunk_type = 0x78; body = send_rikeying_body sid t.nonce }
            ∷ [])
      × (decode_rikeying_chunk b2 (send_rikeying_body sid t.nonce)
          ≡ some (rikeying_call sid t.nonce))
      × (recv_rikeying C b3 dst sid t.nonce (init_dh C x (asking C id x to cookie)) ≡ some s)
      × Agree s k
unfolding asking new_keying init_dh blank_session
keyed C x y id sid b0 b1 b2 b3 dst src cookie to h h' hc =
    keying_agrees C x y (asking C id x to cookie) (blank_session sid) b0 b1 b2 b3 dst src cookie h
      h' refl refl hc

-- How the opening of a session with an end that is reached comes out: what `create_session` returns at the one end, what
-- the packet `p` does at the other, and what each has sent.
pub record Opens (env : Outside) (course : Course) (addr target : List ℕ) (h g : Handshake)
    (q p : NetworkPacket) : Type 0 where
  pub created : Created
  pub session : Keying
  pub responder : Keying
  pub runs : create_session env course addr target h ≡ some created
  pub returns : created.session ≡ some session
  pub is_open : created.is_open ≡ true
  pub accepts : recv_packet env p g ≡ some (new_session responder g)
  pub asks :
      session.sent
      ≡ record {
        dst_addr = q.addr;
        chunk_type = 0x38;
        body =
            send_iikeying_body
              (next_sessionid h.last_sessionid)
              g.cookie
              (env.crypto.to_bytes
                (new_keying env.crypto (next_sessionid h.last_sessionid) course.private).dh_public)
              (new_keying env.crypto (next_sessionid h.last_sessionid) course.private).nonce;
      }
        ∷ []
  pub replies :
      responder.sent
      ≡ record {
        dst_addr = p.addr;
        chunk_type = 0x78;
        body =
            send_rikeying_body
              (next_sessionid g.last_sessionid)
              (new_keying env.crypto (next_sessionid g.last_sessionid) p.private).nonce;
      }
        ∷ []
  pub agree : Agree session responder

-- Two ends, of which the first asks for a session. Where the `rhello` of the second comes in the first wait of the first
-- loop, and its `rikeying` in the first wait of the second, both in packets that `pack` made, and the first's `iikeying`
-- comes to the second in such a packet: `create_session` returns an open session without an error after one `iikeying`,
-- which it sends to the address that the `rhello` came from with the cookie of the second; the second adds one session,
-- which has answered the address that the `iikeying` came from with one `rikeying`; neither end panics; each session has
-- the other's number, and encrypts with the key that the other decrypts with. The packets may have any marks and stamps,
-- and any bytes may lie behind them in their buffers. This is for a block cipher, a second end whose application accepts
-- the sender and that made its certificate itself, and a tag and a cookie whose lengths are 64-bit numbers; what the
-- tables hold before and what would come in later waits plays no part.
pub create_session-Opens :
    (env : Outside) (accepts : List ℕ → Bool) (course : Course) (addr target id : List ℕ)
    (h g : Handshake) (q p r : NetworkPacket)
    → IsBlockCipher env.cipher
    → env.stream_handler ≡ some accepts
    → accepts p.addr ≡ true
    → length id ≡ 64
    → g.certificate ≡ gen_certificate id
    → IsU64 (length course.tag)
    → IsU64 (length g.cookie)
    → course.hello_waits 0 ≡ q ∷ []
    → course.keying_waits 0 ≡ r ∷ []
    → let i = new_keying env.crypto (next_sessionid h.last_sessionid) course.private in
      let t = new_keying env.crypto (next_sessionid g.last_sessionid) p.private in
      Carries env.cipher 0
        (some default_crypto_key)
        0x70
        (rhello_body course.tag g.cookie g.certificate)
        q
      → Carries env.cipher 0 none 0x38
          (send_iikeying_body
            (next_sessionid h.last_sessionid)
            g.cookie
            (env.crypto.to_bytes i.dh_public)
            i.nonce)
          p
      → Carries env.cipher
          (next_sessionid h.last_sessionid)
          none
          0x78
          (send_rikeying_body (next_sessionid g.last_sessionid) t.nonce)
          r
      → Opens env course addr target h g q p
unfolding after_answer
create_session-Opens env accepts course addr target id h g q p r block handler accepted hid own ht
      hc hello keying rhello iikeying rikeying =
    let C = env.crypto in
    let sid = next_sessionid h.last_sessionid in
    let tid = next_sessionid g.last_sessionid in
    let small : sid < 2 ^ 32 = unfold next_sessionid in omega arith in
    let small' : tid < 2 ^ 32 = unfold next_sessionid in omega arith in
    let i = new_keying C sid course.private in
    let t = new_keying C tid p.private in
    let cert = cert_of (padded C i.dh_public) in
    let trips = λ (b : List ℕ).
      keyed C course.private p.private sid tid b p.cert_beyond b r.cert_beyond r.addr p.addr
        g.cookie q.addr small small' hc in
    let (s, k, dec, recv_i, sent, dec', recv_r, agree) = trips [] in
    let asked =
      ask_loop-answered env course.hello_waits q addr target course.tag g.cookie g.certificate none
        4 h hello (rhello-Reads env course.tag g.cookie g.certificate q block ht hc rhello)
        (rw own (own_certificate id hid)) in
    let start : active_loop C env.runtime env.cipher course.keying_waits q.addr g.cookie 5 0
          (record i { other_dh_public = none; active_opening = true })
        ≡ some (s, 1) =
      active_loop-answered C env.runtime env.cipher course.keying_waits r q.addr g.cookie t.nonce
        sid tid 4 (record i { other_dh_public = none; active_opening = true }) s keying
        (unfold new_keying init_dh blank_session in refl) refl
        (unfold new_keying init_dh blank_session in refl)
        (rikeying-Reads env sid tid t.nonce r block small rikeying (λ b. (trips b).5))
        (rw (asking-init_dh C sid course.private q.addr g.cookie) recv_r) in
    let (d, e, own_keys, far_keys) = agree.keys in
    let opened =
      active_open-answered env course.keying_waits sid course.private q.addr g.cookie s d e start
        own_keys in
    let after = after_answer addr target course.tag (answer_of q g) h in
    let result = record s { active_opening = false } in
    record {
      created = record {
        handshake = with_session (next_sessionid after.last_sessionid) result after;
        session = some result;
        is_open = true;
      };
      session = result;
      responder = k;
      runs =
          create_session-answered env course addr target (answer_of q g) 1 h after result asked
            (unfold after_answer in opened);
      returns = refl;
      is_open = refl;
      accepts =
          recv_packet-Reads env p (iikeying_call sid g.cookie cert i.nonce) g (new_session k g)
            (iikeying-Reads env sid g.cookie (C.to_bytes i.dh_public) i.nonce cert p block iikeying
              (λ b. (trips b).2))
            (unfold handle in
              on_iikeying-accepted env accepts p sid cert i.nonce g k handler accepted recv_i);
      asks =
          (recv_rikeying-opened C r.cert_beyond r.addr tid t.nonce
            (init_dh C course.private (asking C sid course.private q.addr g.cookie)) s
            (unfold init_dh asking blank_session in refl)
            (unfold init_dh asking blank_session in refl) recv_r).1
          ∙ (unfold init_dh asking in refl);
      replies = sent;
      agree = record {
        keys = (d, e, own_keys, far_keys);
        initiator_id = agree.initiator_id;
        responder_id = agree.responder_id;
      };
    }
