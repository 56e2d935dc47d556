-- ===== src/Chunk/Data.antt =====
-- Round trip of the user data chunk: `send_userdata` of src/rtmfp/session.go and
-- `decode_userdata_chunk` of src/rtmfp/chunk.go.
use go_rtmfp.Prelude.{
  ℕ, zero, suc, ◌/◌, ◌-◌, ◌<◌, ◌≡◌, refl, ap, ◌∙◌, Bool, true, false, List, [], ◌∷◌, ◌++◌, Option,
  none, some, arith, length, length-append, IsU64, append_assoc, append-nil, bit_and, ltb,
  take-append_length, drop-append_length,
}
use go_rtmfp.Vlu.{encode_vlu, decode_vlu}
use go_rtmfp.Vlu.RoundTrip.{decode_vlu-encode_vlu}
use go_rtmfp.Buffer.{read_u8, next}
use go_rtmfp.Chunk.{recv_userdata, PacketContext, Runtime}
use go_rtmfp.Chunk.Options.{read_data, options_loop, read_options}
use go_rtmfp.Chunk.Decode.{userdata_call, finish_userdata, decode_userdata_chunk}
use go_rtmfp.Chunk.Encode.{is_present, userdata_flags, option_bytes, send_userdata_body}
use go_rtmfp.Chunk.Acks.{vlu_positive}

-- The list of options that the fields make, each with its length before it, and its end mark.
abbrev pub options_of : List (List ℕ) → List ℕ
options_of [] = encode_vlu 0
options_of (d ∷ ds) = encode_vlu (length d) ++ (d ++ options_of ds)

-- A field has a length that is not 0, the mark of the end, and that can be allocated.
abbrev pub IsFields : Runtime → List (List ℕ) → Type 0
IsFields env [] = Unit {0}
IsFields env (d ∷ ds) =
    (0 < length d) × (length d < env.max_alloc) × IsU64 (length d) × IsFields env ds

-- The four parts of the flags, as the decoder takes them.
flags_parts : ℕ → ℕ × Bool × Bool × Bool
flags_parts flags = (
  bit_and (flags / 16) 0x03,
  ltb 0 (bit_and flags 0x80),
  ltb 0 (bit_and flags 0x02),
  ltb 0 (bit_and flags 0x01),
)

FlagsTrip : ℕ → Option (List ℕ) → Bool → Bool → Type 0
unfolding flags_parts
FlagsTrip n o a f = flags_parts (userdata_flags n o a f) ≡ (n, is_present o, a, f)

below_four : (P : ℕ → Type 0) → P 0 → P 1 → P 2 → P 3 → (n : ℕ) → n < 4 → P n
below_four P p0 p1 p2 p3 zero h = p0
below_four P p0 p1 p2 p3 (suc zero) h = p1
below_four P p0 p1 p2 p3 (suc (suc zero)) h = p2
below_four P p0 p1 p2 p3 (suc (suc (suc zero))) h = p3
below_four P p0 p1 p2 p3 (suc (suc (suc (suc n)))) h = absurd (omega arith)

flags_trip : (n : ℕ) (o : Option (List ℕ)) (a f : Bool) → n < 4 → FlagsTrip n o a f
unfolding FlagsTrip flags_parts userdata_flags is_present
flags_trip n none true true h = below_four (λ n. FlagsTrip n none true true) refl refl refl refl n h
flags_trip n none true false h =
    below_four (λ n. FlagsTrip n none true false) refl refl refl refl n h
flags_trip n none false true h =
    below_four (λ n. FlagsTrip n none false true) refl refl refl refl n h
flags_trip n none false false h =
    below_four (λ n. FlagsTrip n none false false) refl refl refl refl n h
flags_trip n (some o) true true h =
    below_four (λ n. FlagsTrip n (some o) true true) refl refl refl refl n h
flags_trip n (some o) true false h =
    below_four (λ n. FlagsTrip n (some o) true false) refl refl refl refl n h
flags_trip n (some o) false true h =
    below_four (λ n. FlagsTrip n (some o) false true) refl refl refl refl n h
flags_trip n (some o) false false h =
    below_four (λ n. FlagsTrip n (some o) false false) refl refl refl refl n h

-- One round of `read_options`, where the length is neither the end mark nor too large.
options_round :
    (env : Runtime) (fuel n : ℕ) (out l l1 : List ℕ)
    → decode_vlu l ≡ (n, l1)
    → 0 < n
    → n < env.max_alloc
    → options_loop env (suc fuel) out l
      ≡ options_loop env fuel (out ++ encode_vlu n ++ read_data n l1) (next n l1)
unfolding options_loop
options_round env fuel n out l l1 e h k = rw e (ground arith)

read_data-append : (d t : List ℕ) → read_data (length d) (d ++ t) ≡ d
unfolding read_data
read_data-append d t =
    let none_left : length d - length (d ++ t) ≡ 0 = rw (length-append) (omega arith) in
    rw (take-append_length d t, none_left) (append-nil d)

next-append : (d t : List ℕ) → next (length d) (d ++ t) ≡ t
unfolding next
next-append d t = drop-append_length d t

options_trip :
    (env : Runtime) (fuel : ℕ) (out : List ℕ) (ds : List (List ℕ)) (r : List ℕ)
    → IsFields env ds
    → length ds < fuel
    → options_loop env fuel out (options_of ds ++ r) ≡ some (out ++ options_of ds, r)
options_trip env zero out ds r g h = absurd (omega arith)
options_trip env (suc fuel) out [] r g h =
    unfold options_loop in rw (decode_vlu-encode_vlu 0 r (omega arith)) refl
options_trip env (suc fuel) out (d ∷ ds) r (nonempty, small, word, rest) h =
    rw
      (
        append_assoc (encode_vlu (length d)) (d ++ options_of ds) r,
        append_assoc d (options_of ds) r,
      )
      (options_round env fuel (length d) out _ _ (decode_vlu-encode_vlu (length d) _ word) nonempty
          small
        ∙ rw (read_data-append d (options_of ds ++ r), next-append d (options_of ds ++ r))
            (options_trip env fuel _ ds r rest (omega arith)
              ∙ ap (λ l. some (l, r))
                  (append_assoc (out ++ encode_vlu (length d)) d (options_of ds)
                    ∙ append_assoc out (encode_vlu (length d)) (d ++ options_of ds))))

fields_count : (ds : List (List ℕ)) → length ds < length (options_of ds)
fields_count [] = vlu_positive 0
fields_count (d ∷ ds) =
    rw (length-append, length-append) (omega (arith, vlu_positive (length d), fields_count ds))

read_options-options_of :
    (env : Runtime) (ds : List (List ℕ)) (r : List ℕ)
    → IsFields env ds
    → read_options env (options_of ds ++ r) ≡ some (options_of ds, r)
unfolding read_options
read_options-options_of env ds r g =
    options_trip env (suc (length (options_of ds ++ r))) [] ds r g
      (rw (length-append) (omega (arith, fields_count ds)))

-- What is left of the options in the list of bytes.
abbrev pub AreOptions : Runtime → Option (List ℕ) → Type 0
AreOptions env none = Unit {0}
AreOptions env (some o) = (ds : List (List ℕ)) × IsFields env ds × (o ≡ options_of ds)

finish_trip :
    (env : Runtime) (n : ℕ) (o : Option (List ℕ)) (a f : Bool) (body : List ℕ) (cxt : PacketContext)
    → n < 4
    → AreOptions env o
    → finish_userdata env (userdata_flags n o a f) cxt (option_bytes o ++ body)
      ≡ some (recv_userdata n cxt.last_flowid cxt.last_seqnum cxt.last_fsn_offset body o a f, cxt)
unfolding finish_userdata userdata_call option_bytes FlagsTrip flags_parts is_present
finish_trip env n none a f body cxt h g =
    let parts = flags_trip n none a f h in
    rw
      (
        ap (λ (x : ℕ × Bool × Bool × Bool). x.0) parts,
        ap (λ (x : ℕ × Bool × Bool × Bool). x.1) parts,
        ap (λ (x : ℕ × Bool × Bool × Bool). x.2) parts,
        ap (λ (x : ℕ × Bool × Bool × Bool). x.3) parts,
      )
      refl
finish_trip env n (some o) a f body cxt h (ds, fields, e) =
    let parts = flags_trip n (some o) a f h in
    let read : read_options env (o ++ body) ≡ some (o, body) =
      rw e (read_options-options_of env ds body fields) in
    rw
      (
        ap (λ (x : ℕ × Bool × Bool × Bool). x.0) parts,
        ap (λ (x : ℕ × Bool × Bool × Bool). x.1) parts,
        ap (λ (x : ℕ × Bool × Bool × Bool). x.2) parts,
        ap (λ (x : ℕ × Bool × Bool × Bool). x.3) parts,
        read,
      )
      refl

-- What `send_userdata` writes, `decode_userdata_chunk` reads back, in every field: the fragment control, the
-- flow, the sequence number, the offset, the data, the options, present or not, and both marks. The decoder
-- does not panic and it leaves the three numbers in the context of the packet. This is for a fragment
-- control of two bits, 64-bit numbers, and options that are a list of fields that can be allocated.
pub decode_userdata_chunk-send_userdata_body :
    (env : Runtime) (n flowid seq fsn : ℕ) (body : List ℕ) (o : Option (List ℕ)) (a f : Bool)
    (cxt : PacketContext)
    → n < 4
    → IsU64 flowid
    → IsU64 seq
    → IsU64 fsn
    → AreOptions env o
    → decode_userdata_chunk env (send_userdata_body n flowid seq fsn body o a f) cxt
      ≡ some (
        recv_userdata n flowid seq fsn body o a f,
        record { last_flowid = flowid; last_seqnum = seq; last_fsn_offset = fsn },
      )
unfolding decode_userdata_chunk send_userdata_body read_u8
decode_userdata_chunk-send_userdata_body env n flowid seq fsn body o a f cxt h hf hs hn g =
    rw
      (
        decode_vlu-encode_vlu flowid _ hf,
        decode_vlu-encode_vlu seq _ hs,
        decode_vlu-encode_vlu fsn _ hn,
      )
      (finish_trip env n o a f body _ h g)
