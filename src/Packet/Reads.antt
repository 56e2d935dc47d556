-- ===== src/Packet/Reads.antt =====
-- The reads of `decode_packet` (src/rtmfp/packet.go), on what the writers of packets wrote.
use go_rtmfp.Prelude.{
  ℕ, zero, suc, ◌%◌, ◌≤◌, ◌<◌, ◌≡◌, refl, ap, ◌∙◌, Bool, true, false, List, [], ◌∷◌, ◌++◌, arith,
  length, length-append, bit_and, ltb, leb, ◌==◌, if◌then◌else◌, take, drop, replicate,
  take-append_length, drop-append_length,
}
use go_rtmfp.Buffer.{read_u8, read_u16, write_u16}
use go_rtmfp.Chunk.{PacketContext, Runtime}
use go_rtmfp.Chunk.Dispatch.{decode_chunk}
use go_rtmfp.Packet.{calc_check_sum, flags_of, stamp_bytes, chunks_loop, after_chunk, optional_u16}

pub read-write_u16 : (v : ℕ) (r : List ℕ) → v < 65536 → read_u16 (write_u16 v ++ r) ≡ (v, r)
unfolding read_u16 write_u16
read-write_u16 v r h = ap (λ (n : ℕ). (n, r)) (omega arith)

pub ltb-true : (a b : ℕ) → a < b → ltb a b ≡ true
ltb-true a b h = ground arith

pub ltb-false : (a b : ℕ) → b ≤ a → ltb a b ≡ false
ltb-false a b h = ground arith

leb-false : (a b : ℕ) → b < a → leb a b ≡ false
leb-false a b h = ground arith

pub ==-same : (n : ℕ) → (n == n) ≡ true
==-same n = ground arith

pub check_sum_word : (l : List ℕ) → calc_check_sum l < 65536
unfolding calc_check_sum
check_sum_word l = omega arith

pub read_stamp :
    (v : ℕ) (r : List ℕ) → v < 65536 → optional_u16 (ltb 0 v) (stamp_bytes v ++ r) ≡ (v, r)
unfolding optional_u16 stamp_bytes
read_stamp zero r h = refl
read_stamp (suc v) r h = rw (ltb-true 0 (suc v) (omega arith)) (read-write_u16 (suc v) r h)

-- The five parts of the flags, as the decoder takes them.
unfoldable pub flags_parts : ℕ → Bool × Bool × Bool × Bool × ℕ
flags_parts flags = (
  ltb 0 (bit_and flags 128),
  ltb 0 (bit_and flags 64),
  ltb 0 (bit_and flags 8),
  ltb 0 (bit_and flags 4),
  bit_and flags 3,
)

unfoldable pub FlagsTrip : Bool → Bool → Bool → Bool → ℕ → Type 0
unfolding flags_parts
FlagsTrip c r s e m =
    (flags_parts (flags_of c r s e m) ≡ (c, r, s, e, m)) × (ltb (flags_of c r s e m) 256 ≡ true)

flags_below : (P : ℕ → Type 0) → P 0 → P 1 → P 2 → P 3 → (n : ℕ) → n < 4 → P n
flags_below P p0 p1 p2 p3 zero h = p0
flags_below P p0 p1 p2 p3 (suc zero) h = p1
flags_below P p0 p1 p2 p3 (suc (suc zero)) h = p2
flags_below P p0 p1 p2 p3 (suc (suc (suc zero))) h = p3
flags_below P p0 p1 p2 p3 (suc (suc (suc (suc n)))) h = absurd (omega arith)

pub flags_trip : (c r s e : Bool) (m : ℕ) → m < 4 → FlagsTrip c r s e m
unfolding FlagsTrip flags_parts flags_of
flags_trip true true true true m h =
    flags_below (FlagsTrip true true true true) (refl, refl) (refl, refl) (refl, refl) (refl, refl)
      m h
flags_trip true true true false m h =
    flags_below (FlagsTrip true true true false) (refl, refl) (refl, refl) (refl, refl) (refl, refl)
      m h
flags_trip true true false true m h =
    flags_below (FlagsTrip true true false true) (refl, refl) (refl, refl) (refl, refl) (refl, refl)
      m h
flags_trip true true false false m h =
    flags_below (FlagsTrip true true false false) (refl, refl) (refl, refl) (refl, refl)
      (refl, refl) m h
flags_trip true false true true m h =
    flags_below (FlagsTrip true false true true) (refl, refl) (refl, refl) (refl, refl) (refl, refl)
      m h
flags_trip true false true false m h =
    flags_below (FlagsTrip true false true false) (refl, refl) (refl, refl) (refl, refl)
      (refl, refl) m h
flags_trip true false false true m h =
    flags_below (FlagsTrip true false false true) (refl, refl) (refl, refl) (refl, refl)
      (refl, refl) m h
flags_trip true false false false m h =
    flags_below (FlagsTrip true false false false) (refl, refl) (refl, refl) (refl, refl)
      (refl, refl) m h
flags_trip false true true true m h =
    flags_below (FlagsTrip false true true true) (refl, refl) (refl, refl) (refl, refl) (refl, refl)
      m h
flags_trip false true true false m h =
    flags_below (FlagsTrip false true true false) (refl, refl) (refl, refl) (refl, refl)
      (refl, refl) m h
flags_trip false true false true m h =
    flags_below (FlagsTrip false true false true) (refl, refl) (refl, refl) (refl, refl)
      (refl, refl) m h
flags_trip false true false false m h =
    flags_below (FlagsTrip false true false false) (refl, refl) (refl, refl) (refl, refl)
      (refl, refl) m h
flags_trip false false true true m h =
    flags_below (FlagsTrip false false true true) (refl, refl) (refl, refl) (refl, refl)
      (refl, refl) m h
flags_trip false false true false m h =
    flags_below (FlagsTrip false false true false) (refl, refl) (refl, refl) (refl, refl)
      (refl, refl) m h
flags_trip false false false true m h =
    flags_below (FlagsTrip false false false true) (refl, refl) (refl, refl) (refl, refl)
      (refl, refl) m h
flags_trip false false false false m h =
    flags_below (FlagsTrip false false false false) (refl, refl) (refl, refl) (refl, refl)
      (refl, refl) m h

pub length-replicate : (n b : ℕ) → length (replicate n b) ≡ n
length-replicate zero b = refl
length-replicate (suc n) b = ap suc (length-replicate n b)

-- A round of the chunk loop on bytes that begin with a type and a length.
pub chunk_round :
    (env : Runtime) (beyond : List ℕ) (fuel chunk_type n : ℕ) (cxt : PacketContext) (b0 b1 b2 : ℕ)
    (rest : List ℕ)
    → b0 ≡ chunk_type
    → read_u16 (b1 ∷ b2 ∷ rest) ≡ (n, rest)
    → chunks_loop env beyond (suc fuel) cxt (b0 ∷ b1 ∷ b2 ∷ rest) ≡ (
        if ltb (length rest) n
        then ([], false)
        else after_chunk
            (decode_chunk env (drop n rest ++ beyond) chunk_type (take n rest) cxt)
            (λ cxt'. chunks_loop env beyond fuel cxt' (drop n rest)))
unfolding chunks_loop read_u8
chunk_round env beyond fuel chunk_type n cxt b0 b1 b2 rest e f =
    rw (f, leb-false (suc (suc (suc (length rest)))) 2 (omega arith), e) refl

pub short_round :
    (env : Runtime) (beyond : List ℕ) (fuel : ℕ) (cxt : PacketContext) (l : List ℕ)
    → length l ≤ 2
    → chunks_loop env beyond fuel cxt l ≡ ([], false)
unfolding chunks_loop
short_round env beyond zero cxt l h = refl
short_round env beyond (suc fuel) cxt l h =
    let short : leb (length l) 2 ≡ true = ground arith in rw short refl

-- Padding is never taken for a chunk: its length would be 65535.
padding_done :
    (env : Runtime) (beyond : List ℕ) (fuel n : ℕ) (cxt : PacketContext)
    → n < 16
    → chunks_loop env beyond fuel cxt (replicate n 0xff) ≡ ([], false)
padding_done env beyond zero n cxt h = unfold chunks_loop in refl
padding_done env beyond (suc fuel) zero cxt h =
    short_round env beyond (suc fuel) cxt _ (omega arith)
padding_done env beyond (suc fuel) (suc zero) cxt h =
    short_round env beyond (suc fuel) cxt _ (omega arith)
padding_done env beyond (suc fuel) (suc (suc zero)) cxt h =
    short_round env beyond (suc fuel) cxt _ (omega arith)
padding_done env beyond (suc fuel) (suc (suc (suc n))) cxt h =
    let long : ltb (length {A = ℕ} (replicate n 0xff)) 65535 ≡ true =
      rw (length-replicate n 0xff) (ltb-true n 65535 (omega arith)) in
    chunk_round env beyond fuel 0xff 65535 cxt 0xff 0xff 0xff (replicate n 0xff) refl
      (unfold read_u16 in refl)
    ∙ rw long refl

-- One chunk and the padding.
pub one_chunk :
    (env : Runtime) (beyond : List ℕ) (fuel n chunk_type : ℕ) (body : List ℕ) (cxt : PacketContext)
    → n < 16
    → length body < 65536
    → chunks_loop env beyond
        (suc fuel)
        cxt
        (chunk_type ∷ (write_u16 (length body % 65536) ++ (body ++ replicate n 0xff)))
      ≡ after_chunk
          (decode_chunk env (replicate n 0xff ++ beyond) chunk_type body cxt)
          (λ _. ([], false))
unfolding write_u16
one_chunk env beyond fuel n chunk_type body cxt h k =
    let word : length body % 65536 ≡ length body = omega arith in
    let size : ltb (length (body ++ replicate n 0xff)) (length body) ≡ false =
      ltb-false _ _ (rw (length-append) (omega arith)) in
    chunk_round env beyond fuel chunk_type (length body) cxt chunk_type _ _ _ refl
      (rw word (read-write_u16 (length body) _ k))
    ∙ rw
        (
          size,
          take-append_length body (replicate n 0xff),
          drop-append_length body (replicate n 0xff),
        )
        (ap (λ c. after_chunk (decode_chunk env (replicate n 0xff ++ beyond) chunk_type body cxt) c)
          (λ i cxt'. padding_done env beyond fuel n cxt' h i))
