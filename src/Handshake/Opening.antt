-- ===== src/Handshake/Opening.antt =====
-- `create_session` of src/rtmfp/handshake.go: the loop that sends `ihello`s, and the session that is opened with the
-- answer.
use go_rtmfp.Prelude.{
  ℕ, zero, suc, ◌+◌, ◌-◌, Bool, Option, none, some, List, [], ◌∷◌, ◌>>=◌, if◌then◌else◌, length,
  take, false, ◌==◌,
}
use go_rtmfp.Amf.Value.{same_key}
use go_rtmfp.Session.Keys.{Keying}
use go_rtmfp.Session.Opening.{NetworkPacket, blank_session, active_open}
use go_rtmfp.Handshake.{
  Answer, Entry, Handshake, Outside, dispatch, send_ihello, next_sessionid, new_session,
}

-- The request under its tag; one that was there is lost.
unfoldable pub put_request : List ℕ → List ℕ → List (List ℕ × List ℕ) → List (List ℕ × List ℕ)
put_request tag target [] = (tag, target) ∷ []
put_request tag target (q ∷ qs) =
    if same_key q.0 tag then (tag, target) ∷ qs else q ∷ put_request tag target qs

-- The last call of the callback of a tag among calls, latest first.
unfoldable pub answer_to : List ℕ → List (List ℕ × Answer) → Option Answer
answer_to tag [] = none
answer_to tag (a ∷ r) = if same_key a.0 tag then some a.1 else answer_to tag r

-- The calls of callbacks since there were `before` of them.
unfoldable pub calls_since : ℕ → Handshake → List (List ℕ × Answer)
calls_since before h = take (length h.answers - before) h.answers

-- The loop of `create_session` from its round `i` on, with `n` rounds left. `waits i` are the packets that `dispatch` takes
-- in that round, before the loop goes on: it ends with the callback of the request, or with the timer. The result has the
-- answer and the number of rounds. `before` counts the calls of callbacks before the request.
unfoldable pub ask_loop :
    Outside
    → ℕ
    → (ℕ → List NetworkPacket)
    → List ℕ
    → List ℕ
    → List ℕ
    → ℕ
    → ℕ
    → Handshake
    → Option (Option Answer × ℕ × Handshake)
unfolding answer_to calls_since
ask_loop env before waits addr target tag zero i h = some (none, i, h)
ask_loop env before waits addr target tag (suc n) i h =
    dispatch env (waits i) (send_ihello addr target tag h) >>= λ h'.
    elim (answer_to tag (calls_since before h')) [
      | some a ↦ some (some a, i + 1, h')
      | none ↦ ask_loop env before waits addr target tag n (i + 1) h'
    ]

abbrev pub ihello_retry : ℕ
ihello_retry = 5

-- What the program decides outside, during a call: the random tag and private number, the packets at the socket in the
-- rounds of the first loop, and those that reach the session in the rounds of `active_open`.
pub record Course : Type 0 where
  pub tag : List ℕ
  pub private : ℕ
  pub hello_waits : ℕ → List NetworkPacket
  pub keying_waits : ℕ → List NetworkPacket

-- The session under a number, in place in its table.
unfoldable pub set_keying : ℕ → Keying → List Entry → List Entry
set_keying id k [] = []
set_keying id k (s ∷ ss) =
    if s.sessionid == id then record s { keying = k } ∷ ss else s ∷ set_keying id k ss

-- The session with `active_open`'s result, none where no answer came: then there is an error. The session is in the table
-- from its start. `active_open` runs as one step: packets that the handshake takes meanwhile, for other sessions and
-- requests, are not part of it.
pub record Created : Type 0 where
  pub handshake : Handshake
  pub session : Option Keying
  pub is_open : Bool

unfoldable pub open_answered : Outside → Course → Option Answer → Handshake → Option Created
unfolding next_sessionid new_session blank_session active_open set_keying
open_answered env course none h = some (record { handshake = h; session = none; is_open = false })
open_answered env course (some a) h =
    let id = next_sessionid h.last_sessionid in
    let entered = new_session (blank_session id) h in
    active_open env.crypto env.runtime env.cipher course.keying_waits id course.private a.src_addr
      a.cookie a.dh_public
    >>= λ opened. some (record {
      handshake = record entered { sessions = set_keying id opened.0 entered.sessions };
      session = some opened.0;
      is_open = opened.2;
    })

unfoldable pub create_session : Outside → Course → List ℕ → List ℕ → Handshake → Option Created
unfolding put_request ask_loop open_answered
create_session env course addr target h =
    ask_loop env (length h.answers) course.hello_waits addr target course.tag ihello_retry 0
      (record h { requests = put_request course.tag target h.requests })
    >>= λ r. open_answered env course r.0 r.2
