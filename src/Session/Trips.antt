-- ===== src/Session/Trips.antt =====
-- The keying chunks of src/rtmfp/session.go are read back.
use go_rtmfp.Prelude.{
  ℕ, zero, suc, ◌-◌, ◌^◌, ◌<◌, ◌≤◌, ◌≡◌, refl, sym, ap, ◌∙◌, true, false, some, List, [], ◌∷◌, ◌++◌,
  ltb, ◌==◌, length, replicate, append_assoc, append-nil, length-append, drop-append_length, arith,
  IsU64, sub64,
}
use go_rtmfp.Vlu.{encode_vlu, encode_vlu_prefix_bytes, decode_vlu}
use go_rtmfp.Vlu.RoundTrip.{decode_vlu-encode_vlu}
use go_rtmfp.Buffer.{read_u8, write_u32, slice, next, next_int, take_field}
use go_rtmfp.Chunk.{recv_iikeying as iikeying_call, recv_rikeying as rikeying_call}
use go_rtmfp.Chunk.Fields.{slice_fits, take_field_fits, prefixed_trip}
use go_rtmfp.Chunk.Options.{option_loop, read_option}
use go_rtmfp.Chunk.Decode.{take_prefixed, decode_iikeying_chunk, decode_rikeying_chunk}
use go_rtmfp.Chunk.Encode.{send_iikeying_body, send_rikeying_body}
use go_rtmfp.Amf.ValueTrip.{read-write_u32}
use go_rtmfp.Packet.Reads.{==-same}
use go_rtmfp.Session.Keys.{tail_slice, cert_key}

pub rikeying_trip :
    (beyond : List ℕ) (sid : ℕ) (nonce : List ℕ)
    → sid < 2 ^ 32
    → IsU64 (length nonce)
    → decode_rikeying_chunk beyond (send_rikeying_body sid nonce) ≡ some (rikeying_call sid nonce)
unfolding decode_rikeying_chunk send_rikeying_body
rikeying_trip beyond sid nonce h k =
    rw
      (
        append_assoc (write_u32 sid) (encode_vlu_prefix_bytes nonce) (0x58 ∷ []),
        read-write_u32 sid _ h,
        prefixed_trip beyond nonce (0x58 ∷ []) k,
      )
      refl

pub length-zeros : (n : ℕ) → length {A = ℕ} (replicate n 0) ≡ n
length-zeros zero = refl
length-zeros (suc n) = ap suc (length-zeros n)

-- The certificate that `send_iikeying` writes.
abbrev pub cert_of : List ℕ → List ℕ
cert_of dh = 0x81 ∷ 0x02 ∷ 0x1D ∷ 0x02 ∷ dh

pub iikeying_trip :
    (beyond : List ℕ) (sid : ℕ) (cookie dh nonce : List ℕ)
    → sid < 2 ^ 32
    → IsU64 (length cookie)
    → length dh ≤ 128
    → IsU64 (length nonce)
    → decode_iikeying_chunk beyond (send_iikeying_body sid cookie dh nonce)
      ≡ some (iikeying_call sid cookie (cert_of (replicate (128 - length dh) 0 ++ dh)) nonce)
unfolding decode_iikeying_chunk send_iikeying_body
iikeying_trip beyond sid cookie dh nonce h k l m =
    let key = replicate (128 - length dh) 0 ++ dh in
    let rest = encode_vlu_prefix_bytes nonce ++ 0x58 ∷ [] in
    let size : 132 ≡ length (cert_of key) =
      omega
        (arith, length-append (replicate (128 - length dh) 0) dh, length-zeros (128 - length dh)) in
    let cert : take_prefixed beyond (encode_vlu 132 ++ (cert_of key ++ rest))
        ≡ some (cert_of key, rest) =
      unfold take_prefixed in
      rw (decode_vlu-encode_vlu 132 (cert_of key ++ rest) (omega arith)) (
        ap (λ (n : ℕ). take_field beyond n (cert_of key ++ rest)) size
        ∙ take_field_fits beyond (cert_of key) rest) in
    rw
      (
        read-write_u32 sid _ h,
        prefixed_trip beyond cookie _ k,
        cert,
        prefixed_trip beyond nonce (0x58 ∷ []) m,
      )
      refl

-- A round of `read_option` that finds its type, and one that passes an option by.
option_hit :
    (beyond : List ℕ) (t fuel b n : ℕ) (r v : List ℕ)
    → decode_vlu (b ∷ r) ≡ (n, t ∷ v)
    → sub64 n 1 ≡ length v
    → option_loop beyond t (suc fuel) (b ∷ r) ≡ some (some v)
unfolding option_loop read_u8
option_hit beyond t fuel b n r v e k =
    let whole : slice beyond v (length v) ≡ some v =
      ap (λ (l : List ℕ). slice beyond l (length v)) (sym (append-nil v))
      ∙ slice_fits beyond v [] in
    rw (e, ==-same, k, whole) refl

option_miss :
    (beyond : List ℕ) (t t' fuel b n : ℕ) (r v rest : List ℕ)
    → decode_vlu (b ∷ r) ≡ (n, t' ∷ (v ++ rest))
    → (t == t') ≡ false
    → sub64 n 1 ≡ length v
    → length v < 2 ^ 63
    → option_loop beyond t (suc fuel) (b ∷ r) ≡ option_loop beyond t fuel rest
unfolding option_loop read_u8 next_int next
option_miss beyond t t' fuel b n r v rest e d k small =
    let fits : ltb (length v) (2 ^ 63) ≡ true = ground arith in
    rw (e, d, k, fits, drop-append_length v rest) refl

-- The key in the certificate, of 128 bytes.
pub cert_trip : (beyond key : List ℕ) → length key ≡ 128 → cert_key beyond (cert_of key) ≡ some key
unfolding cert_key read_option tail_slice
cert_trip beyond key h =
    let hit : option_loop beyond 0x1D (suc (suc (suc (suc (length key))))) (cert_of key)
        ≡ some (some (0x02 ∷ key)) =
      option_hit beyond 0x1D (suc (suc (suc (length key)))) 0x81 130 (0x02 ∷ 0x1D ∷ 0x02 ∷ key)
        (0x02 ∷ key) (unfold decode_vlu in refl) (unfold sub64 in omega arith) in
    rw hit refl

pub nonce_trip :
    (beyond key : List ℕ)
    → length key ≡ 128
    → read_option beyond
        (0x03 ∷ 0x1A ∷ 0x00 ∷ 0x00 ∷ 0x02 ∷ 0x1E ∷ 0x00 ∷ 0x81 ∷ 0x02 ∷ 0x0D ∷ 0x02 ∷ key)
        0x0D
      ≡ some (some (0x02 ∷ key))
unfolding read_option
nonce_trip beyond key h =
    option_miss beyond 0x0D 0x1A
      (suc (suc (suc (suc (suc (suc (suc (suc (suc (suc (length key))))))))))) 0x03 3
      (0x1A ∷ 0x00 ∷ 0x00 ∷ 0x02 ∷ 0x1E ∷ 0x00 ∷ 0x81 ∷ 0x02 ∷ 0x0D ∷ 0x02 ∷ key) (0x00 ∷ 0x00 ∷ [])
      (0x02 ∷ 0x1E ∷ 0x00 ∷ 0x81 ∷ 0x02 ∷ 0x0D ∷ 0x02 ∷ key) (unfold decode_vlu in refl) refl
      (unfold sub64 in refl) (omega arith)
    ∙ option_miss beyond 0x0D 0x1E
        (suc (suc (suc (suc (suc (suc (suc (suc (suc (length key)))))))))) 0x02 2
        (0x1E ∷ 0x00 ∷ 0x81 ∷ 0x02 ∷ 0x0D ∷ 0x02 ∷ key) (0x00 ∷ [])
        (0x81 ∷ 0x02 ∷ 0x0D ∷ 0x02 ∷ key) (unfold decode_vlu in refl) refl (unfold sub64 in refl)
        (omega arith)
    ∙ option_hit beyond 0x0D (suc (suc (suc (suc (suc (suc (suc (suc (length key))))))))) 0x81 130
        (0x02 ∷ 0x0D ∷ 0x02 ∷ key) (0x02 ∷ key) (unfold decode_vlu in refl)
        (unfold sub64 in omega arith)
