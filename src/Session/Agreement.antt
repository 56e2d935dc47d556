-- ===== src/Session/Agreement.antt =====
-- Both ends of the key exchange of src/rtmfp/session.go get the same keys.
use go_rtmfp.Prelude.{
  ℕ, ◌-◌, ◌^◌, ◌<◌, ◌≡◌, refl, sym, ap, ◌∙◌, false, Option, none, some, List, [], ◌∷◌, length, take,
  replicate, length-append, arith, IsU64,
}
use go_rtmfp.Chunk.{recv_iikeying as iikeying_call, recv_rikeying as rikeying_call}
use go_rtmfp.Chunk.Decode.{decode_iikeying_chunk, decode_rikeying_chunk}
use go_rtmfp.Chunk.Encode.{send_iikeying_body, send_rikeying_body}
use go_rtmfp.Session.Keys.{
  Crypto, Keying, padded, init_dh, end_dh, gen_crypto_keys, generate_aes_keys, send_rikeying,
  recv_iikeying, learn_key, bytes_of, accept_iikeying, accept_rikeying, recv_rikeying,
  is_handshaked,
}
use go_rtmfp.Session.Trips.{
  rikeying_trip, iikeying_trip, cert_trip, nonce_trip, length-zeros, cert_of,
}

-- Keys that fit, and the ids of both ends.
pub record Agree (i r : Keying) : Type 0 where
  pub keys : (d e : List ℕ) × (i.keys ≡ some (d, e)) × (r.keys ≡ some (e, d))
  pub initiator_id : i.other_sessionid ≡ r.sessionid
  pub responder_id : r.other_sessionid ≡ i.sessionid

module _ (C : Crypto) where
  padded-length : (x : ℕ) → length (padded C (C.public x)) ≡ 128
  unfolding padded
  padded-length x =
      let bytes = C.to_bytes (C.public x) in
      omega (
        arith,
        C.public-length x,
        length-append (replicate (128 - length bytes) 0) bytes,
        length-zeros (128 - length bytes),
      )

  known_number : (n : ℕ) → C.from_bytes (padded C n) ≡ n
  unfolding padded
  known_number n = C.from_bytes-zeros (128 - length (C.to_bytes n)) n

  learn_new : (b : ℕ) (key : List ℕ) → 0 < length key → learn_key none (some (b ∷ key)) ≡ some key
  unfolding learn_key
  learn_new b [] h = absurd (omega arith)
  learn_new b (c ∷ r) h = refl

  -- The responder after `iikeying`.
  responder :
      (x y : ℕ) (s t : Keying) (beyond src : List ℕ)
      → (r' : Keying) × (recv_iikeying C beyond src s.sessionid
            (cert_of (padded C (C.public x)))
            (init_dh C x s).nonce
            (init_dh C y t)
          ≡ some r')
        × (r'.keys
            ≡ some (
                gen_crypto_keys C
                  (C.power (C.public x) y)
                  (init_dh C y t).nonce
                  (init_dh C x s).nonce))
        × (r'.other_sessionid ≡ s.sessionid)
        × (r'.sessionid ≡ t.sessionid)
        × (r'.sent
            ≡ record {
              dst_addr = src;
              chunk_type = 0x78;
              body = send_rikeying_body t.sessionid (init_dh C y t).nonce;
            }
              ∷ t.sent)
  unfolding recv_iikeying accept_iikeying generate_aes_keys end_dh send_rikeying init_dh
  responder x y s t beyond src = (
    accept_iikeying C src s.sessionid (padded C (C.public x)) (init_dh C x s).nonce (init_dh C y t),
    rw (cert_trip beyond (padded C (C.public x)) (padded-length x)) refl,
    ap
        (λ (n : ℕ).
          some (gen_crypto_keys C (C.power n y) (init_dh C y t).nonce (init_dh C x s).nonce))
        (known_number (C.public x)),
    refl,
    refl,
    refl,
  )

  -- The initiator after `rikeying`.
  initiator :
      (x y : ℕ) (s t : Keying) (beyond dst : List ℕ)
      → s.keys ≡ none
      → s.other_dh_public ≡ none
      → (i' : Keying) × (recv_rikeying C beyond dst t.sessionid
            (init_dh C y t).nonce
            (init_dh C x s)
          ≡ some i')
        × (i'.keys
            ≡ some (
                gen_crypto_keys C
                  (C.power (C.public y) x)
                  (init_dh C x s).nonce
                  (init_dh C y t).nonce))
        × (i'.other_sessionid ≡ t.sessionid)
        × (i'.sessionid ≡ s.sessionid)
  unfolding recv_rikeying accept_rikeying generate_aes_keys end_dh init_dh bytes_of
  initiator x y s t beyond dst no_keys no_other =
      let key = padded C (C.public y) in
      let fresh : is_handshaked (init_dh C x s) ≡ false = unfold is_handshaked in rw no_keys refl in
      let learnt : learn_key s.other_dh_public (some (0x02 ∷ key)) ≡ some key =
        ap (λ (o : Option (List ℕ)). learn_key o (some (0x02 ∷ key))) no_other
        ∙ learn_new 0x02 key (omega (arith, padded-length y)) in
      (
        accept_rikeying C dst t.sessionid (init_dh C y t).nonce (some (0x02 ∷ key)) (init_dh C x s),
        rw (fresh, nonce_trip beyond key (padded-length y)) refl,
        rw learnt (
            ap
              (λ (n : ℕ).
                some (gen_crypto_keys C (C.power n x) (init_dh C x s).nonce (init_dh C y t).nonce))
              (known_number (C.public y))),
        refl,
        refl,
      )

  nonce-length : (x : ℕ) (s : Keying) → length (init_dh C x s).nonce ≡ 139
  unfolding init_dh
  nonce-length x s = omega (arith, padded-length x)

  -- The key exchange. Of two sessions with ids of 32 bits that drew any private numbers, the initiator `i` has no keys
  -- and knows no number of the other end. The bytes of its `iikeying` are decoded as a call on which the
  -- responder `r` does not panic, and sends a `rikeying`; the bytes of that are decoded as a call on which
  -- the initiator does not panic. Then each end has the other's id, and each end encrypts with the key
  -- that the other decrypts with. What lies behind the buffers, within their capacity, plays no part.
  pub keying_agrees :
      (x y : ℕ) (s t : Keying) (b0 b1 b2 b3 dst src cookie : List ℕ)
      → s.sessionid < 2 ^ 32
      → t.sessionid < 2 ^ 32
      → s.keys ≡ none
      → s.other_dh_public ≡ none
      → IsU64 (length cookie)
      → let i = init_dh C x s in
        let r = init_dh C y t in
        let cert = cert_of (padded C i.dh_public) in
        (i' r' : Keying) × (decode_iikeying_chunk b0
            (send_iikeying_body i.sessionid cookie (C.to_bytes i.dh_public) i.nonce)
          ≡ some (iikeying_call i.sessionid cookie cert i.nonce))
        × (recv_iikeying C b1 src i.sessionid cert i.nonce r ≡ some r')
        × (r'.sent
            ≡ record {
              dst_addr = src;
              chunk_type = 0x78;
              body = send_rikeying_body r.sessionid r.nonce;
            }
              ∷ r.sent)
        × (decode_rikeying_chunk b2 (send_rikeying_body r.sessionid r.nonce)
            ≡ some (rikeying_call r.sessionid r.nonce))
        × (recv_rikeying C b3 dst r.sessionid r.nonce i ≡ some i')
        × Agree i' r'
  unfolding init_dh gen_crypto_keys
  keying_agrees x y s t b0 b1 b2 b3 dst src cookie hs ht no_keys no_other h =
      let (r', re, rk, rid, rown, rsent) = responder x y s t b1 src in
      let (i', ie, ik, iid, iown) = initiator x y s t b3 dst no_keys no_other in
      let ni = nonce-length x s in
      let nr = nonce-length y t in
      (
        i',
        r',
        unfold init_dh padded in
            iikeying_trip b0 s.sessionid cookie (C.to_bytes (C.public x)) (init_dh C x s).nonce hs h
              (C.public-length x) (omega (arith, ni)),
        re,
        rsent,
        rikeying_trip b2 t.sessionid (init_dh C y t).nonce ht (omega (arith, nr)),
        ie,
        record {
          keys = (
            take 16 (
                C.hmac (C.to_bytes (C.power (C.public y) x))
                  (C.hmac (init_dh C x s).nonce (init_dh C y t).nonce)),
            take 16 (
                C.hmac (C.to_bytes (C.power (C.public y) x))
                  (C.hmac (init_dh C y t).nonce (init_dh C x s).nonce)),
            ik,
            rk
                ∙ ap
                    (λ (n : ℕ).
                      some (gen_crypto_keys C n (init_dh C y t).nonce (init_dh C x s).nonce))
                    (C.powers_commute x y),
          );
          initiator_id = iid ∙ sym rown;
          responder_id = rid ∙ sym iown;
        },
      )
