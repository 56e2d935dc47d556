-- ===== src/Handshake/Unanswered.antt =====
-- `create_session` of src/rtmfp/handshake.go where no answer comes.
use go_rtmfp.Prelude.{
  ℕ, zero, suc, ◌+◌, ◌-◌, ◌≡◌, refl, ap, ◌∙◌, true, false, Option, none, some, List, [], ◌∷◌, ◌++◌,
  ltb, length, replicate, All, arith, ◌>>=◌,
}
use go_rtmfp.Packet.{scramble}
use go_rtmfp.Buffer.{read_u32}
use go_rtmfp.Session.Opening.{NetworkPacket}
use go_rtmfp.Handshake.{
  Answer, Handshake, Outside, SentChunk, find_request, ihello_body, send_ihello, recv_packet,
  dispatch, deliver,
}
use go_rtmfp.Handshake.Opening.{
  Course, Created, put_request, answer_to, calls_since, ask_loop, open_answered, create_session,
}
use go_rtmfp.Handshake.Answered.{put_request-found}

-- A packet for a session, and not for the handshake.
abbrev pub IsRouted : NetworkPacket → Type 0
IsRouted p = ltb 0 (scramble (read_u32 p.bytes).0 (read_u32 p.bytes).1) ≡ true

abbrev pub ihello : List ℕ → List ℕ → List ℕ → SentChunk
ihello addr target tag = record {
  dst_addr = addr;
  chunk_type = 0x30;
  body = ihello_body target tag;
}

-- A state that differs in what the sessions got, and in the chunks sent meanwhile.
Quiet : List SentChunk → Handshake → Handshake → Type 0
Quiet out h h' = (h'.requests ≡ h.requests) × (h'.answers ≡ h.answers) × (h'.sent ≡ out ++ h.sent)

dispatch-Quiet :
    (env : Outside) (ps : List NetworkPacket) (h : Handshake)
    → All IsRouted ps
    → (h' : Handshake) × (dispatch env ps h ≡ some h') × Quiet [] h h'
unfolding dispatch recv_packet Quiet
dispatch-Quiet env [] h k = (h, refl, (refl, refl, refl))
dispatch-Quiet env (p ∷ ps) h (k, ks) =
    let id = scramble (read_u32 p.bytes).0 (read_u32 p.bytes).1 in
    let passed : Handshake = record h { sessions = deliver id p h.sessions } in
    let taken : recv_packet env p h ≡ some passed = rw k refl in
    let (h', e, q) = dispatch-Quiet env ps passed ks in
    (h', ap (λ x. x >>= dispatch env ps) taken ∙ e, q)

no_calls :
    (h : Handshake) (tag : List ℕ) (n : ℕ)
    → length h.answers ≡ n
    → answer_to tag (calls_since n h) ≡ none
unfolding answer_to calls_since
no_calls h tag n e = let nothing : length h.answers - n ≡ 0 = omega arith in rw nothing refl

replicate-behind :
    {A : Type 0} → (n : ℕ) (x : A) (r : List A) → replicate n x ++ x ∷ r ≡ x ∷ (replicate n x ++ r)
replicate-behind zero x r = refl
replicate-behind (suc n) x r = ap (◌∷◌ x) (replicate-behind n x r)

module _ (env : Outside) (waits : ℕ → List NetworkPacket) (addr target tag : List ℕ) where
  next_round :
      (before n i : ℕ) (h h' : Handshake)
      → dispatch env (waits i) (send_ihello addr target tag h) ≡ some h'
      → answer_to tag (calls_since before h') ≡ none
      → ask_loop env before waits addr target tag (suc n) i h
        ≡ ask_loop env before waits addr target tag n (i + 1) h'
  unfolding ask_loop
  next_round before n i h h' e k = rw e (
      ap
        (λ (o : Option Answer). elim o as (λ _. Option (Option Answer × ℕ × Handshake)) [
          | some b ↦ some (some b, i + 1, h')
          | none ↦ ask_loop env before waits addr target tag n (i + 1) h'
        ])
        k)

  ask_loop-Quiet :
      (before n i : ℕ) (h : Handshake)
      → ((k : ℕ) → All IsRouted (waits k))
      → length h.answers ≡ before
      → (h' : Handshake) × (ask_loop env before waits addr target tag n i h
          ≡ some (none, i + n, h'))
        × Quiet (replicate n (ihello addr target tag)) h h'
  unfolding Quiet send_ihello
  ask_loop-Quiet before zero i h w e =
      (h, (unfold ask_loop in ap (λ k. some (none, k, h)) (omega arith)), (refl, refl, refl))
  ask_loop-Quiet before (suc n) i h w e =
      let (h1, d, (r, a, s)) = dispatch-Quiet env (waits i) (send_ihello addr target tag h) (w i) in
      let same = ap length a ∙ e in
      let (h2, l, (r2, a2, s2)) = ask_loop-Quiet before n (i + 1) h1 w same in
      (
        h2,
        next_round before n i h h1 d (no_calls h1 tag before same)
            ∙ l
            ∙ ap (λ k. some (none, k, h2)) (omega arith),
        (
          r2 ∙ r,
          a2 ∙ a,
          s2
              ∙ ap (λ t. replicate n (ihello addr target tag) ++ t) s
              ∙ replicate-behind n (ihello addr target tag) h.sent,
        ),
      )

-- `create_session` where no answer comes: the packets that come in its waits are all for sessions. It returns an error,
-- without a panic and with no session; no callback was called; five `ihello`s went to the address, and nothing else went
-- out; the request is still in the table under its tag.
pub create_session-unanswered :
    (env : Outside) (course : Course) (addr target : List ℕ) (h : Handshake)
    → ((i : ℕ) → All IsRouted (course.hello_waits i))
    → (c : Created) × (create_session env course addr target h ≡ some c)
      × (c.session ≡ none)
      × (c.is_open ≡ false)
      × (c.handshake.answers ≡ h.answers)
      × (c.handshake.sent ≡ replicate 5 (ihello addr target course.tag) ++ h.sent)
      × (find_request course.tag c.handshake.requests ≡ some target)
unfolding create_session open_answered Quiet
create_session-unanswered env course addr target h w =
    let asking : Handshake = record h { requests = put_request course.tag target h.requests } in
    let (h', e, (r, a, s)) =
      ask_loop-Quiet env course.hello_waits addr target course.tag (length h.answers) 5 0 asking w
        refl in
    (
      record { handshake = h'; session = none; is_open = false },
      ap (λ x. x >>= λ (q : Option Answer × ℕ × Handshake). open_answered env course q.0 q.2) e,
      refl,
      refl,
      a,
      s,
      ap (find_request course.tag) r ∙ put_request-found course.tag target h.requests,
    )
