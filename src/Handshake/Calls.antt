-- ===== src/Handshake/Calls.antt =====
-- What the chunks do to the handshake of src/rtmfp/handshake.go.
use go_rtmfp.Prelude.{
  ℕ, ◌+◌, ◌≤◌, ◌≡◌, refl, sym, ap, ◌∙◌, Bool, true, false, Option, none, some, List, [], ◌∷◌, ◌==◌,
  if◌then◌else◌, arith, Bool-cases, ◌⊎◌, inl, inr, bind_some, some_inj,
}
use mathlib.Core.Path.{subst}
use go_rtmfp.Amf.Value.{same_key}
use go_rtmfp.Chunk.{
  ChunkCall, recv_ihello, recv_fihello, recv_rhello, recv_redirect, recv_iikeying,
  recv_rhello_cookie_change, recv_rikeying, recv_ping, recv_ping_reply, recv_userdata,
  recv_range_ack, recv_buffer_probe, recv_flow_exception_report, recv_session_close_request,
  recv_session_close_ack,
}
use go_rtmfp.Session.Keys.{Crypto, Keying}
use go_rtmfp.Session.Keys
use go_rtmfp.Session.Opening.{NetworkPacket, new_keying}
use go_rtmfp.Handshake.{
  Answer, Handshake, Outside, find_request, drop_request, send_ihello, send_rhello, cert_public,
  on_rhello, send_ihellos, on_redirect, on_iikeying, passive_session, new_session, next_sessionid,
  handle,
}

-- The calls of the callback of a tag.
abbrev pub answered : List ℕ → List (List ℕ × Answer) → ℕ
answered tag [] = 0
answered tag (a ∷ r) = (if same_key a.0 tag then 1 else 0) + answered tag r

abbrev found : Option (List ℕ) → ℕ
found none = 0
found (some target) = 1

found-bound : (o : Option (List ℕ)) → found o ≤ 1
found-bound none = omega arith
found-bound (some target) = omega arith

-- Whether a request waits under the tag.
abbrev pub waiting : List ℕ → List (List ℕ × List ℕ) → ℕ
waiting tag qs = found (find_request tag qs)

-- Answers so far, and one that may come.
abbrev pub owed : List ℕ → Handshake → ℕ
owed tag h = answered tag h.answers + waiting tag h.requests

-- What a chunk that opens no session leaves: the cookie, the sessions and their numbers, and no more answers owed.
abbrev pub Kept : Handshake → Handshake → Type 0
Kept h h' =
    (h'.cookie ≡ h.cookie)
    × (h'.sessions ≡ h.sessions)
    × (h'.last_sessionid ≡ h.last_sessionid)
    × ((tag : List ℕ) → owed tag h' ≤ owed tag h)

pub Kept-same : (h h' : Handshake) → h ≡ h' → Kept h h'
Kept-same h h' e = subst (λ g. Kept h g) e (refl, refl, refl, (λ tag. omega arith))

send_ihellos-Kept :
    (addrs : List (List ℕ)) (target t : List ℕ) (h : Handshake)
    → Kept h (send_ihellos addrs target t h)
unfolding send_ihellos send_ihello
send_ihellos-Kept [] target t h = Kept-same h h refl
send_ihellos-Kept (a ∷ addrs) target t h =
    send_ihellos-Kept addrs target t (send_ihello a target t h)

same_key-same : (a b : List ℕ) → same_key a b ≡ true → a ≡ b
same_key-same [] [] e = refl
same_key-same [] (b ∷ r) e = absurd (cc)
same_key-same (a ∷ q) [] e = absurd (cc)
same_key-same (a ∷ q) (b ∷ r) e = elim (Bool-cases (a == b)) [
  | inl h ↦ ap (λ l. a ∷ l) (same_key-same q r (cc)) ∙ ap (λ n. n ∷ r) (ground arith)
  | inr h ↦ absurd (cc (e, h))
]

pub drop_request-gone :
    (t : List ℕ) (qs : List (List ℕ × List ℕ)) → find_request t (drop_request t qs) ≡ none
unfolding find_request drop_request
drop_request-gone t [] = refl
drop_request-gone t (q ∷ qs) = ground (arith, drop_request-gone t qs)

drop_request-waiting :
    (t tag : List ℕ) (qs : List (List ℕ × List ℕ))
    → waiting tag (drop_request t qs) ≤ waiting tag qs
unfolding find_request drop_request
drop_request-waiting t tag [] = omega arith
drop_request-waiting t tag (q ∷ qs) = elim (Bool-cases (same_key q.0 tag)) [
  | inl e ↦ rw e (found-bound (find_request tag (drop_request t (q ∷ qs))))
  | inr e ↦ elim (Bool-cases (same_key q.0 t)) [
    | inl e' ↦ rw (e, e') (drop_request-waiting t tag qs)
    | inr e' ↦ rw (e, e', e) (drop_request-waiting t tag qs)
  ]
]

answer-owed :
    (t tag : List ℕ) (h : Handshake) (a : Answer) (target : List ℕ)
    → find_request t h.requests ≡ some target
    → owed tag (record h { requests = drop_request t h.requests; answers = (t, a) ∷ h.answers })
      ≤ owed tag h
answer-owed t tag h a target q = elim (Bool-cases (same_key t tag)) [
  | inl e ↦
      let s = same_key-same t tag e in
      rw
        (
          e,
          subst (λ x. find_request x (drop_request t h.requests) ≡ none) s
              (drop_request-gone t h.requests),
          subst (λ x. find_request x h.requests ≡ some target) s q,
        )
        (omega arith)
  | inr e ↦ rw e (omega (arith, drop_request-waiting t tag h.requests))
]

on_rhello-Kept :
    (src t cookie cert : List ℕ) (h h' : Handshake) (o : Option (List ℕ))
    → find_request t h.requests ≡ o
    → on_rhello src t cookie cert h ≡ some h'
    → Kept h h'
unfolding on_rhello
on_rhello-Kept src t cookie cert h h' none q e = Kept-same h h' (some_inj (rw (q, on_rhello) at e))
on_rhello-Kept src t cookie cert h h' (some target) q e =
    let answer : Option (List ℕ) → Answer =
      λ d. record { src_addr = src; cookie = cookie; dh_public = d } in
    let (d, p, k) =
      bind_some (cert_public cert)
        (λ d.
          some (record h {
            requests = drop_request t h.requests;
            answers = (t, answer d) ∷ h.answers;
          }))
        (rw (q, on_rhello) at e) in
    subst (λ g. Kept h g) (some_inj k)
      (refl, refl, refl, (λ tag. answer-owed t tag h (answer d) target q))

on_redirect-Kept :
    (t : List ℕ) (addrs : List (List ℕ)) (h : Handshake) (o : Option (List ℕ))
    → find_request t h.requests ≡ o
    → Kept h (on_redirect t addrs h)
unfolding on_redirect
on_redirect-Kept t addrs h none q = rw (q, on_redirect) (Kept-same h h refl)
on_redirect-Kept t addrs h (some target) q =
    rw (q, on_redirect) (send_ihellos-Kept addrs target t h)

recv_iikeying-sessionid :
    (C : Crypto) (beyond src : List ℕ) (sid : ℕ) (cert nonce : List ℕ) (s k : Keying)
    → Keys.recv_iikeying C beyond src sid cert nonce s ≡ some k
    → k.sessionid ≡ s.sessionid
unfolding Keys.recv_iikeying Keys.accept_iikeying Keys.generate_aes_keys Keys.send_rikeying
recv_iikeying-sessionid C beyond src sid cert nonce s k e =
    let (o, q, m) =
      bind_some (Keys.cert_key beyond cert) (λ o. some (Keys.accept_iikeying C src sid o nonce s))
        e in
    sym (ap (λ (x : Keying). x.sessionid) (some_inj m))

passive_session-sessionid :
    (o : Option (List ℕ → Bool)) (env : Outside) (p : NetworkPacket) (sid : ℕ) (cert nonce : List ℕ)
    (s k : Keying)
    → passive_session o env p sid cert nonce s ≡ some k
    → k.sessionid ≡ s.sessionid
unfolding passive_session
passive_session-sessionid none env p sid cert nonce s k e = absurd (cc)
passive_session-sessionid (some accepts) env p sid cert nonce s k e =
    elim (Bool-cases (accepts p.addr)) [
      | inl a ↦
          recv_iikeying-sessionid env.crypto p.cert_beyond p.addr sid cert nonce s k
            (rw (a, passive_session) at e)
      | inr a ↦
          let m : s ≡ k = some_inj (rw (a, passive_session) at e) in
          sym (ap (λ (x : Keying). x.sessionid) m)
    ]

-- `on_iikeying` leaves all as it was or adds a session.
iikeying_parts :
    (env : Outside) (p : NetworkPacket) (sid : ℕ) (cookie cert nonce : List ℕ) (h h' : Handshake)
    → on_iikeying env p sid cookie cert nonce h ≡ some h'
    → (h ≡ h')
      ⊎ ((k : Keying) × (same_key h.cookie cookie ≡ true)
          × (k.sessionid ≡ next_sessionid h.last_sessionid)
          × (new_session k h ≡ h'))
unfolding on_iikeying new_keying Keys.init_dh
iikeying_parts env p sid cookie cert nonce h h' e =
    let opened = new_keying env.crypto (next_sessionid h.last_sessionid) p.private in
    elim (Bool-cases (same_key h.cookie cookie)) [
      | inr c ↦ inl (some_inj (rw (c, on_iikeying) at e))
      | inl c ↦
          let (k, q, m) =
            bind_some (passive_session env.stream_handler env p sid cert nonce opened)
              (λ k. some (new_session k h)) (rw (c, on_iikeying) at e) in
          inr (
            k,
            c,
            passive_session-sessionid env.stream_handler env p sid cert nonce opened k q,
            some_inj m,
          )
    ]

-- Whether a chunk is an `iikeying` with the cookie.
abbrev pub brings_cookie : List ℕ → ChunkCall → Bool
brings_cookie cookie (recv_iikeying sid cookie_echo cert nonce) = same_key cookie cookie_echo
brings_cookie cookie _ = false

abbrev pub Opens : Handshake → ChunkCall → Handshake → Type 0
Opens h c h' =
    (k : Keying) × (brings_cookie h.cookie c ≡ true)
    × (k.sessionid ≡ next_sessionid h.last_sessionid)
    × (new_session k h ≡ h')

-- A chunk leaves the sessions, or it is an `iikeying` with the right cookie and adds one.
pub handle_parts :
    (env : Outside) (p : NetworkPacket) (c : ChunkCall) (h h' : Handshake)
    → handle env p c h ≡ some h'
    → Kept h h' ⊎ Opens h c h'
unfolding handle send_rhello
handle_parts env p (recv_ihello edp_type edp_data t) h h' e =
    inl (subst (λ g. Kept h g) (some_inj e) (Kept-same h h refl))
handle_parts env p (recv_fihello edp_type edp_data reply t) h h' e =
    inl (subst (λ g. Kept h g) (some_inj e) (Kept-same h h refl))
handle_parts env p (recv_rhello t cookie cert) h h' e =
    inl (on_rhello-Kept p.addr t cookie cert h h' (find_request t h.requests) refl e)
handle_parts env p (recv_redirect t addrs) h h' e = inl (
    subst (λ g. Kept h g) (some_inj e)
      (on_redirect-Kept t addrs h (find_request t h.requests) refl))
handle_parts env p (recv_iikeying sid cookie cert nonce) h h' e =
    elim (iikeying_parts env p sid cookie cert nonce h h' e) [
      | inl same ↦ inl (Kept-same h h' same)
      | inr opens ↦ inr opens
    ]
handle_parts env p (recv_rhello_cookie_change old_cookie new_cookie) h h' e = absurd (cc)
handle_parts env p (recv_rikeying sid nonce) h h' e = absurd (cc)
handle_parts env p (recv_ping msg) h h' e = absurd (cc)
handle_parts env p (recv_ping_reply msg) h h' e = absurd (cc)
handle_parts env p (recv_userdata n flowid seq fsn body options abandon final) h h' e = absurd (cc)
handle_parts env p (recv_range_ack flowid buf_avail cum_ack ranges) h h' e = absurd (cc)
handle_parts env p (recv_buffer_probe flowid) h h' e = absurd (cc)
handle_parts env p (recv_flow_exception_report flowid exception) h h' e = absurd (cc)
handle_parts env p recv_session_close_request h h' e = absurd (cc)
handle_parts env p recv_session_close_ack h h' e = absurd (cc)
