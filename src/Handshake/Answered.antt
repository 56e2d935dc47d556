-- ===== src/Handshake/Answered.antt =====
-- One round of the loops that open a session in src/rtmfp/handshake.go and src/rtmfp/session.go, where the answer comes
-- in its wait.
use go_rtmfp.Prelude.{
  ℕ, suc, ◌+◌, ◌-◌, ◌≡◌, refl, sym, ap, ◌∙◌, bind_some, some_inj, true, false, Option, none, some,
  List, [], ◌∷◌, ltb, length, take, arith, Bool-cases, inl, inr,
}
use go_rtmfp.Amf.Value.{same_key}
use go_rtmfp.Chunk.{ChunkCall, Runtime, recv_rhello, recv_rikeying as rikeying_call}
use go_rtmfp.Packet.{Cipher, default_crypto_key}
use go_rtmfp.Session.Keys.{
  Crypto, Keying, is_handshaked, send_iikeying, recv_rikeying, accept_rikeying,
}
use go_rtmfp.Session.Opening.{
  NetworkPacket, decrypt_key, keying_call, keying_calls, keying_packet, keying_packets, active_loop,
}
use go_rtmfp.Chunk.Options.{read_option}
use go_rtmfp.Session.Carried.{Reads}
use go_rtmfp.Handshake.{
  Answer, Handshake, Outside, find_request, drop_request, send_ihello, handle, handle_all,
  recv_packet, dispatch, cert_public,
}
use go_rtmfp.Handshake.Hello.{on_rhello-waiting}
use go_rtmfp.Handshake.Opening.{put_request, answer_to, calls_since, ask_loop}

pub same_key_self : (a : List ℕ) → same_key a a ≡ true
same_key_self [] = refl
same_key_self (a ∷ r) = ground (arith, same_key_self r)

pub put_request-found :
    (tag target : List ℕ) (qs : List (List ℕ × List ℕ))
    → find_request tag (put_request tag target qs) ≡ some target
unfolding find_request put_request
put_request-found tag target [] = rw (same_key_self tag) refl
put_request-found tag target (q ∷ qs) = elim (Bool-cases (same_key q.0 tag)) [
  | inl e ↦ rw (e, same_key_self tag) refl
  | inr e ↦ rw (e, e) (put_request-found tag target qs)
]

-- The handshake takes a packet that it reads one chunk in.
pub recv_packet-Reads :
    (env : Outside) (p : NetworkPacket) (call : ChunkCall) (h h' : Handshake)
    → Reads env.runtime env.cipher 0 (some default_crypto_key) p call
    → handle env p call h ≡ some h'
    → recv_packet env p h ≡ some h'
unfolding recv_packet handle_all
recv_packet-Reads env p call h h' (route, calls, whole) e = rw (route, calls, e, whole) refl

-- The handshake after the first round of `create_session`.
unfoldable pub after_answer : List ℕ → List ℕ → List ℕ → Answer → Handshake → Handshake
unfolding send_ihello put_request
after_answer addr target tag a h =
    let asking =
      send_ihello addr target tag (record h { requests = put_request tag target h.requests }) in
    record asking {
      requests = drop_request tag asking.requests;
      answers = (tag, a) ∷ asking.answers;
    }

answer_to-new :
    (tag : List ℕ) (a : Answer) (old : List (List ℕ × Answer)) (n : ℕ)
    → n ≡ length old
    → answer_to tag (take (length ((tag, a) ∷ old) - n) ((tag, a) ∷ old)) ≡ some a
unfolding answer_to
answer_to-new tag a old n e =
    let one : suc (length old) - n ≡ 1 = omega arith in rw (one, same_key_self tag) refl

ask_loop-round :
    (env : Outside) (before : ℕ) (waits : ℕ → List NetworkPacket) (addr target tag : List ℕ)
    (n i : ℕ) (h h' : Handshake) (a : Answer)
    → dispatch env (waits i) (send_ihello addr target tag h) ≡ some h'
    → answer_to tag (calls_since before h') ≡ some a
    → ask_loop env before waits addr target tag (suc n) i h ≡ some (some a, i + 1, h')
unfolding ask_loop
ask_loop-round env before waits addr target tag n i h h' a e k = rw e (
    ap
      (λ (o : Option Answer). elim o as (λ _. Option (Option Answer × ℕ × Handshake)) [
        | some b ↦ some (some b, i + 1, h')
        | none ↦ ask_loop env before waits addr target tag n (i + 1) h'
      ])
      k)

dispatch-one :
    (env : Outside) (ps : List NetworkPacket) (p : NetworkPacket) (h h' : Handshake)
    → ps ≡ p ∷ []
    → recv_packet env p h ≡ some h'
    → dispatch env ps h ≡ some h'
unfolding dispatch
dispatch-one env ps p h h' w e = rw (w, e) refl

-- An `rhello` to the request in the first wait ends the loop of `create_session`.
pub ask_loop-answered :
    (env : Outside) (waits : ℕ → List NetworkPacket) (q : NetworkPacket)
    (addr target tag cookie cert : List ℕ) (d : Option (List ℕ)) (n : ℕ) (h : Handshake)
    → waits 0 ≡ q ∷ []
    → Reads env.runtime env.cipher 0 (some default_crypto_key) q (recv_rhello tag cookie cert)
    → cert_public cert ≡ some d
    → let a : Answer = record { src_addr = q.addr; cookie = cookie; dh_public = d } in
      ask_loop env
        (length h.answers)
        waits
        addr
        target
        tag
        (suc n)
        0
        (record h { requests = put_request tag target h.requests })
      ≡ some (some a, 1, after_answer addr target tag a h)
unfolding after_answer
ask_loop-answered env waits q addr target tag cookie cert d n h w reads public =
    let asking =
      send_ihello addr target tag (record h { requests = put_request tag target h.requests }) in
    let a : Answer = record { src_addr = q.addr; cookie = cookie; dh_public = d } in
    let taken : recv_packet env q asking ≡ some (after_answer addr target tag a h) =
      recv_packet-Reads env q (recv_rhello tag cookie cert) asking
        (after_answer addr target tag a h) reads
        (unfold handle send_ihello after_answer in
          on_rhello-waiting q.addr tag cookie cert target asking d
            (unfold send_ihello in put_request-found tag target h.requests) public) in
    ask_loop-round env (length h.answers) waits addr target tag n 0
      (record h { requests = put_request tag target h.requests }) (after_answer addr target tag a h)
      a (dispatch-one env (waits 0) q asking _ w taken)
      (unfold calls_since send_ihello in answer_to-new tag a h.answers (length h.answers) refl)

module _ (C : Crypto) where
  -- The first `rikeying` of a session that opens goes to the channel; the session sends nothing.
  pub recv_rikeying-opened :
      (beyond src : List ℕ) (sid : ℕ) (nonce : List ℕ) (s s' : Keying)
      → s.keys ≡ none
      → s.active_opening ≡ true
      → recv_rikeying C beyond src sid nonce s ≡ some s'
      → (s'.opened ≡ s.opened + 1) × (s'.sent ≡ s.sent)
  unfolding recv_rikeying accept_rikeying is_handshaked
  recv_rikeying-opened beyond src sid nonce s s' k o e =
      let (found, q, m) =
        bind_some (read_option beyond nonce 0x0D)
          (λ found. some (accept_rikeying C src sid nonce found s)) (rw (k, recv_rikeying) at e) in
      (
        sym (ap (λ (x : Keying). x.opened) (some_inj m)) ∙ rw o refl,
        sym (ap (λ (x : Keying). x.sent) (some_inj m)),
      )

  active_loop-round :
      (env : Runtime) (cipher : Cipher) (waits : ℕ → List NetworkPacket) (dst cookie : List ℕ)
      (n i : ℕ) (s s' : Keying)
      → keying_packets C env cipher (waits i) (send_iikeying C dst cookie s) ≡ some s'
      → s'.opened ≡ 1
      → active_loop C env cipher waits dst cookie (suc n) i s ≡ some (s', i + 1)
  unfolding active_loop
  active_loop-round env cipher waits dst cookie n i s s' e o = rw e (
      ap
        (λ (m : ℕ). elim (ltb 0 m) as (λ _. Option (Keying × ℕ)) [
          | true ↦ some (s', i + 1)
          | false ↦ active_loop C env cipher waits dst cookie n (i + 1) s'
        ])
        o)

  keying_packet-Reads :
      (env : Runtime) (cipher : Cipher) (id : ℕ) (o : Option (List ℕ)) (call : ChunkCall)
      (r : NetworkPacket) (s s' : Keying)
      → decrypt_key s ≡ o
      → Reads env cipher id o r call
      → keying_call C r call s ≡ some s'
      → keying_packet C env cipher r s ≡ some s'
  unfolding keying_packet keying_calls
  keying_packet-Reads env cipher id o call r s s' d (route, calls, whole) e =
      rw (d, calls, e, whole) refl

  keying_packets-one :
      (env : Runtime) (cipher : Cipher) (ps : List NetworkPacket) (r : NetworkPacket)
      (s s' : Keying)
      → ps ≡ r ∷ []
      → keying_packet C env cipher r s ≡ some s'
      → keying_packets C env cipher ps s ≡ some s'
  unfolding keying_packets
  keying_packets-one env cipher ps r s s' w e = rw (w, e) refl

  -- A `rikeying` in the first wait ends the loop of `active_open`.
  pub active_loop-answered :
      (env : Runtime) (cipher : Cipher) (waits : ℕ → List NetworkPacket) (r : NetworkPacket)
      (dst cookie nonce : List ℕ) (id sid n : ℕ) (s s' : Keying)
      → waits 0 ≡ r ∷ []
      → s.keys ≡ none
      → s.active_opening ≡ true
      → s.opened ≡ 0
      → Reads env cipher id none r (rikeying_call sid nonce)
      → recv_rikeying C r.cert_beyond r.addr sid nonce (send_iikeying C dst cookie s) ≡ some s'
      → active_loop C env cipher waits dst cookie (suc n) 0 s ≡ some (s', 1)
  unfolding send_iikeying
  active_loop-answered env cipher waits r dst cookie nonce id sid n s s' w k o none_yet reads e =
      let asking = send_iikeying C dst cookie s in
      let no_key : decrypt_key asking ≡ none = unfold decrypt_key in rw k refl in
      let started : asking.opened ≡ 0 = none_yet in
      active_loop-round env cipher waits dst cookie n 0 s s'
        (keying_packets-one env cipher (waits 0) r asking s' w (
          keying_packet-Reads env cipher id none (rikeying_call sid nonce) r asking s' no_key reads
            (unfold keying_call in e)))
        (omega
          (arith, recv_rikeying-opened r.cert_beyond r.addr sid nonce asking s' k o e, started))
