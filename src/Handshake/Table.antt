-- ===== src/Handshake/Table.antt =====
-- The requests and the sessions of src/rtmfp/handshake.go over the packets that come.
use go_rtmfp.Prelude.{
  ℕ, ◌+◌, ◌^◌, ◌<◌, ◌≤◌, ◌≡◌, refl, sym, ap, ◌∙◌, inl, inr, true, false, none, some, List, [], ◌∷◌,
  ◌++◌, ◌==◌, if◌then◌else◌, ltb, length, append-nil, append_assoc, length-append, arith, bind_some,
  some_inj, Bool-cases,
}
use mathlib.Core.Path.{subst}
use go_rtmfp.Buffer.{read_u32}
use go_rtmfp.Chunk.{ChunkCall}
use go_rtmfp.Packet.{decode_packet, default_crypto_key, scramble}
use go_rtmfp.Session.Keys.{Keying}
use go_rtmfp.Session.Opening.{NetworkPacket}
use go_rtmfp.Handshake.{
  Entry, Handshake, Outside, handle, handle_all, recv_packet, dispatch, deliver, new_session,
  put_session, next_sessionid,
}
use go_rtmfp.Handshake.Calls.{Kept, owed, brings_cookie, handle_parts, Kept-same}

-- The chunks that the handshake reads in a packet.
abbrev pub calls_of : Outside → NetworkPacket → List ChunkCall
calls_of env p =
    (decode_packet env.runtime env.cipher p.beyond p.bytes (some default_crypto_key)).calls

-- The number of the session that a packet is for, 0 for the handshake.
abbrev pub target_of : NetworkPacket → ℕ
target_of p = let first = read_u32 p.bytes in scramble first.0 first.1

recv_packet-startup :
    (env : Outside) (p : NetworkPacket) (h h' : Handshake)
    → ltb 0 (target_of p) ≡ false
    → recv_packet env p h ≡ some h'
    → handle_all env p (calls_of env p) h ≡ some h'
unfolding recv_packet
recv_packet-startup env p h h' z e =
    let decoded = decode_packet env.runtime env.cipher p.beyond p.bytes (some default_crypto_key) in
    let (g, q, k) =
      bind_some (handle_all env p decoded.calls h) (λ g. if decoded.panicked then none else some g)
        (rw (z, recv_packet) at e) in
    elim (Bool-cases decoded.panicked) [ inl b ↦ absurd (cc (k, b)) | inr b ↦ q ∙ (rw b at k) ]

recv_packet-session :
    (env : Outside) (p : NetworkPacket) (h h' : Handshake)
    → ltb 0 (target_of p) ≡ true
    → recv_packet env p h ≡ some h'
    → record h { sessions = deliver (target_of p) p h.sessions } ≡ h'
unfolding recv_packet
recv_packet-session env p h h' z e = some_inj (rw (z, recv_packet) at e)

new_session-owed :
    (k : Keying) (h : Handshake) (tag : List ℕ) → owed tag (new_session k h) ≡ owed tag h
unfolding new_session
new_session-owed k h tag = refl

handle_all-owed :
    (env : Outside) (p : NetworkPacket) (cs : List ChunkCall) (tag : List ℕ) (h h' : Handshake)
    → handle_all env p cs h ≡ some h'
    → owed tag h' ≤ owed tag h
unfolding handle_all
handle_all-owed env p [] tag h h' e =
    subst (λ g. owed tag g ≤ owed tag h) (some_inj e) (omega arith)
handle_all-owed env p (c ∷ cs) tag h h' e =
    let (g, q, k) = bind_some (handle env p c h) (handle_all env p cs) e in
    let later = handle_all-owed env p cs tag g h' k in
    elim (handle_parts env p c h g q) [
      | inl (c1, s1, l1, kept) ↦ omega (arith, later, kept tag)
      | inr (k1, b1, n1, new) ↦
          let same : owed tag g ≡ owed tag h =
            sym (ap (λ (x : Handshake). owed tag x) new) ∙ new_session-owed k1 h tag in
          omega (arith, later, same)
    ]

recv_packet-owed :
    (env : Outside) (p : NetworkPacket) (tag : List ℕ) (h h' : Handshake)
    → recv_packet env p h ≡ some h'
    → owed tag h' ≤ owed tag h
recv_packet-owed env p tag h h' e = elim (Bool-cases (ltb 0 (target_of p))) [
  | inl z ↦ subst (λ g. owed tag g ≤ owed tag h) (recv_packet-session env p h h' z e) (omega arith)
  | inr z ↦ handle_all-owed env p (calls_of env p) tag h h' (recv_packet-startup env p h h' z e)
]

-- Whatever packets come, in whatever order, forged or repeated: as long as no request is registered, the callback of a
-- tag is called at most once more, and only where a request waits under the tag. The calls so far and the waiting
-- request, counted 1, never grow together.
pub dispatch-owed :
    (env : Outside) (ps : List NetworkPacket) (tag : List ℕ) (h h' : Handshake)
    → dispatch env ps h ≡ some h'
    → owed tag h' ≤ owed tag h
unfolding dispatch
dispatch-owed env [] tag h h' e = subst (λ g. owed tag g ≤ owed tag h) (some_inj e) (omega arith)
dispatch-owed env (p ∷ ps) tag h h' e =
    let (g, q, k) = bind_some (recv_packet env p h) (dispatch env ps) e in
    omega (arith, recv_packet-owed env p tag h g q, dispatch-owed env ps tag g h' k)

-- The sessions have the numbers after the first, one by one, up to the last.
abbrev pub Numbered : ℕ → List Entry → ℕ → Type 0
Numbered n [] last = n ≡ last
Numbered n (s ∷ ss) last =
    (s.sessionid ≡ n + 1) × (s.keying.sessionid ≡ n + 1) × Numbered (n + 1) ss last

abbrev pub IsNumbered : Handshake → Type 0
IsNumbered h = Numbered 0 h.sessions h.last_sessionid

Numbered-bound : (n : ℕ) (ss : List Entry) (last : ℕ) → Numbered n ss last → n ≤ last
Numbered-bound n [] last e = omega arith
Numbered-bound n (s ∷ ss) last (e, f, k) = omega (arith, Numbered-bound (n + 1) ss last k)

put_session-Numbered :
    (n : ℕ) (ss : List Entry) (last : ℕ) (e : Entry)
    → Numbered n ss last
    → e.sessionid ≡ last + 1
    → e.keying.sessionid ≡ last + 1
    → (put_session e ss ≡ ss ++ e ∷ []) × Numbered n (put_session e ss) (last + 1)
unfolding put_session
put_session-Numbered n [] last e h i j = (refl, (omega arith, omega arith, omega arith))
put_session-Numbered n (s ∷ ss) last e (a, b, h) i j =
    let bound = Numbered-bound (n + 1) ss last h in
    let other : (s.sessionid == e.sessionid) ≡ false = ground arith in
    let (same, more) = put_session-Numbered (n + 1) ss last e h i j in
    rw other (ap (λ l. s ∷ l) same, (a, b, more))

-- How many of the chunks are an `iikeying` with the cookie.
abbrev pub openings : List ℕ → List ChunkCall → ℕ
openings cookie [] = 0
openings cookie (c ∷ cs) = (if brings_cookie cookie c then 1 else 0) + openings cookie cs

-- The second has the sessions of the first and behind them at most `n` new ones, under the numbers that follow.
abbrev pub Extends : ℕ → Handshake → Handshake → Type 0
Extends n h h' =
    (new : List Entry) × (length new ≤ n)
    × (h'.sessions ≡ h.sessions ++ new)
    × (h'.last_sessionid ≡ h.last_sessionid + length new)
    × IsNumbered h'
    × (h'.cookie ≡ h.cookie)

Kept-Extends : (n : ℕ) (h h' : Handshake) → IsNumbered h → Kept h h' → Extends n h h'
Kept-Extends n h h' i (c, s, l, kept) =
    ([], omega arith, s ∙ sym (append-nil h.sessions), omega arith, rw (s, l) i, c)

new_session-Extends :
    (k : Keying) (h : Handshake)
    → IsNumbered h
    → h.last_sessionid + 1 < 2 ^ 32
    → k.sessionid ≡ next_sessionid h.last_sessionid
    → Extends 1 h (new_session k h)
unfolding new_session next_sessionid
new_session-Extends k h n b e =
    let e' : k.sessionid ≡ h.last_sessionid + 1 = omega arith in
    let entry : Entry = record { sessionid = k.sessionid; keying = k; queue = [] } in
    let (same, more) = put_session-Numbered 0 h.sessions h.last_sessionid entry n e' e' in
    (
      entry ∷ [],
      omega arith,
      same,
      e',
      subst (λ l. Numbered 0 (put_session entry h.sessions) l) (sym e') more,
      refl,
    )

handle-Extends :
    (env : Outside) (p : NetworkPacket) (c : ChunkCall) (h h' : Handshake)
    → IsNumbered h
    → h.last_sessionid + 1 < 2 ^ 32
    → handle env p c h ≡ some h'
    → Extends (if brings_cookie h.cookie c then 1 else 0) h h'
handle-Extends env p c h h' n b e = elim (handle_parts env p c h h' e) [
  | inl kept ↦ Kept-Extends _ h h' n kept
  | inr (k, b1, n1, new) ↦ rw b1 (subst (λ g. Extends 1 h g) new (new_session-Extends k h n b n1))
]

-- On the chunks of a packet the handshake loses and renumbers no session. It appends new ones, no more than the chunks
-- have `iikeying`s that echo its cookie, under the numbers that follow the last: sessions numbered from 1 stay so. This
-- is as long as the numbers stay below 2^32 by one for each chunk.
pub handle_all-Extends :
    (env : Outside) (p : NetworkPacket) (cs : List ChunkCall) (h h' : Handshake)
    → IsNumbered h
    → h.last_sessionid + length cs < 2 ^ 32
    → handle_all env p cs h ≡ some h'
    → Extends (openings h.cookie cs) h h'
unfolding handle_all
handle_all-Extends env p [] h h' n b e = Kept-Extends 0 h h' n (Kept-same h h' (some_inj e))
handle_all-Extends env p (c ∷ cs) h h' n b e =
    let (g, q, k) = bind_some (handle env p c h) (handle_all env p cs) e in
    let (new, few, ss, last, num, ck) = handle-Extends env p c h g n (omega arith) q in
    let one : (if brings_cookie h.cookie c then 1 else 0) ≤ 1 = ground arith in
    let (new', few', ss', last', num', ck') =
      handle_all-Extends env p cs g h' num (omega arith) k in
    (
      new ++ new',
      rw (length-append) (omega (arith, few, rw ck at few')),
      rw ss at ss' ∙ append_assoc h.sessions new new',
      rw (length-append) (omega arith),
      num',
      ck' ∙ ck,
    )
