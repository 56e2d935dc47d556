-- ===== src/Handshake/Hello.antt =====
-- The exchange that `create_session` of src/rtmfp/handshake.go starts, from the `ihello` to the callback.
use go_rtmfp.Prelude.{
  ℕ, suc, ◌^◌, ◌<◌, ◌≡◌, refl, ap, ◌∙◌, true, false, Option, none, some, List, [], ◌∷◌, ◌++◌, ◌==◌,
  ltb, length, length-append, drop-append_length, arith, IsU64, sub64,
}
use go_rtmfp.Vlu.{encode_vlu_prefix_bytes, decode_vlu}
use go_rtmfp.Buffer.{read_u8, next, next_int}
use go_rtmfp.Chunk.{recv_rhello}
use go_rtmfp.Chunk.Options.{vlu_option_loop, read_vlu_option}
use go_rtmfp.Chunk.Decode.{decode_rhello_chunk}
use go_rtmfp.Chunk.Fields.{prefixed_trip}
use go_rtmfp.Handshake.{
  Handshake, gen_certificate, find_request, drop_request, rhello_body, cert_public, on_rhello,
}

pub rhello_trip :
    (beyond tag cookie certificate : List ℕ)
    → IsU64 (length tag)
    → IsU64 (length cookie)
    → decode_rhello_chunk beyond (rhello_body tag cookie certificate)
      ≡ some (recv_rhello tag cookie certificate)
unfolding decode_rhello_chunk rhello_body
rhello_trip beyond tag cookie certificate h k =
    rw
      (
        prefixed_trip beyond tag (encode_vlu_prefix_bytes cookie ++ certificate) h,
        prefixed_trip beyond cookie certificate k,
      )
      refl

-- A round of `read_vlu_option` that passes an option by.
pub vlu_miss :
    (t t' d fuel b n : ℕ) (r v rest : List ℕ)
    → decode_vlu (b ∷ r) ≡ (n, t' ∷ (v ++ rest))
    → (t == t') ≡ false
    → sub64 n 1 ≡ length v
    → length v < 2 ^ 63
    → vlu_option_loop t d (suc fuel) (b ∷ r) ≡ vlu_option_loop t d fuel rest
unfolding vlu_option_loop read_u8 next_int next
vlu_miss t t' d fuel b n r v rest e f k small =
    let fits : ltb (length v) (2 ^ 63) ≡ true = ground arith in
    rw (e, f, k, fits, drop-append_length v rest) refl

-- The options behind the pseudo id.
abbrev marks : List ℕ
marks = 0x02 ∷ 0x15 ∷ 0x02 ∷ 0x02 ∷ 0x15 ∷ 0x05 ∷ 0x02 ∷ 0x15 ∷ 0x0E ∷ []

marks-none : (fuel : ℕ) → vlu_option_loop 0x1D 0 (suc (suc (suc (suc fuel)))) marks ≡ some 0
unfolding vlu_option_loop decode_vlu sub64 next_int next read_u8
marks-none fuel = refl

-- A certificate of the handshake's own has no option 0x1D.
own_options : (id : List ℕ) → length id ≡ 64 → read_vlu_option (gen_certificate id) 0x1D 0 ≡ some 0
unfolding read_vlu_option gen_certificate
own_options id h =
    let fuel = length (id ++ marks) in
    let size : fuel ≡ suc (suc 71) = omega (arith, length-append id marks) in
    vlu_miss 0x1D 0x0A 0 (suc (suc (suc fuel))) 0x01 1 (0x0A ∷ 0x41 ∷ 0x0E ∷ (id ++ marks)) []
      (0x41 ∷ 0x0E ∷ (id ++ marks)) (unfold decode_vlu in refl) refl (unfold sub64 in refl)
      (omega arith)
    ∙ vlu_miss 0x1D 0x0E 0 (suc (suc fuel)) 0x41 65 (0x0E ∷ (id ++ marks)) id marks
        (unfold decode_vlu in refl) refl (unfold sub64 in omega arith) (omega arith)
    ∙ ap (λ n. vlu_option_loop 0x1D 0 (suc (suc n)) marks) size
    ∙ marks-none 71

pub own_certificate : (id : List ℕ) → length id ≡ 64 → cert_public (gen_certificate id) ≡ some none
unfolding cert_public
own_certificate id h = rw (own_options id h) refl

pub on_rhello-waiting :
    (src tag cookie cert target : List ℕ) (h : Handshake) (d : Option (List ℕ))
    → find_request tag h.requests ≡ some target
    → cert_public cert ≡ some d
    → on_rhello src tag cookie cert h
      ≡ some (record h {
        requests = drop_request tag h.requests;
        answers = (tag, record { src_addr = src; cookie = cookie; dh_public = d }) ∷ h.answers;
      })
unfolding on_rhello
on_rhello-waiting src tag cookie cert target h d q e = rw (q, e, on_rhello) refl
