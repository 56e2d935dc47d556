-- ===== src/Packet/Sealed.antt =====
-- Round trip of an encrypted packet of src/rtmfp/packet.go, with the number of its session.
use go_rtmfp.Prelude.{
  ℕ, zero, suc, ◌+◌, ◌%◌, ◌-◌, ◌^◌, ◌<◌, ◌≡◌, refl, ◌∙◌, false, List, [], ◌∷◌, ◌++◌, Option, some,
  ltb, ltb→lt, length, length-append, length-drop, drop, replicate, All, IsByte, arith,
}
use go_rtmfp.Prelude.Xor.{bit_xor-bound, masks_cancel}
use go_rtmfp.Buffer.{read_u32, write_u16, write_u32}
use go_rtmfp.Amf.ValueTrip.{read-write_u32}
use go_rtmfp.Chunk.{Runtime}
use go_rtmfp.Chunk.Dispatch.{decode_chunk}
use go_rtmfp.Packet.{
  Cipher, Packet, stamp_bytes, init, add_chunk, padding_len, plain_text, key_of, scramble, pack,
  after_chunk, decode_plain, decode_packet,
}
use go_rtmfp.Packet.Reads.{FlagsTrip, flags_trip, length-replicate}
use go_rtmfp.Packet.Framing.{info_of, fresh, raw_of, buf_tail, decode_plain-plain_text}

-- What AES in CBC mode does with a key of 16 bytes and whole blocks of bytes: decryption undoes encryption, and the
-- encrypted text has bytes, as many as the text.
pub record IsBlockCipher (c : Cipher) : Type 0 where
  pub inverse :
      (key text : List ℕ)
      → length key ≡ 16
      → length text % 16 ≡ 0
      → All IsByte text
      → c.decrypt key (c.encrypt key text) ≡ text
  pub encrypt-length :
      (key text : List ℕ)
      → length key ≡ 16
      → length text % 16 ≡ 0
      → length (c.encrypt key text) ≡ length text
  pub encrypt-bytes :
      (key text : List ℕ)
      → length key ≡ 16
      → length text % 16 ≡ 0
      → All IsByte text
      → All IsByte (c.encrypt key text)

pub bytes-append : (xs ys : List ℕ) → All IsByte xs → All IsByte ys → All IsByte (xs ++ ys)
bytes-append [] ys h k = k
bytes-append (x ∷ xs) ys h k = (h.0, bytes-append xs ys h.1 k)

pub write_u16-bytes : (v : ℕ) → All IsByte (write_u16 v)
unfolding write_u16
write_u16-bytes v = (omega arith, (omega arith, tt))

stamp-bytes : (v : ℕ) → All IsByte (stamp_bytes v)
unfolding stamp_bytes
stamp-bytes zero = tt
stamp-bytes (suc v) = ground (arith, write_u16-bytes (suc v))

pad-bytes : (n : ℕ) → All IsByte (replicate n 0xff)
pad-bytes zero = tt
pad-bytes (suc n) = (omega arith, pad-bytes n)

plain_text-bytes :
    (p : Packet) (chunk_type : ℕ) (body : List ℕ)
    → p.mode < 4
    → chunk_type < 256
    → All IsByte body
    → All IsByte (plain_text (add_chunk (init p) chunk_type body))
unfolding plain_text raw_of FlagsTrip
plain_text-bytes p chunk_type body hm ht hb =
    let n = padding_len (length (add_chunk (init p) chunk_type body).buf - 4) in
    let flags =
      flags_trip p.time_critical p.time_critical_reverse (ltb 0 p.time_stamp)
        (ltb 0 p.time_stamp_echo) p.mode hm in
    let chunk : All IsByte
        (chunk_type ∷ (write_u16 (length body % 65536) ++ (body ++ replicate n 0xff))) =
      (ht, bytes-append _ _ (write_u16-bytes _) (bytes-append _ _ hb (pad-bytes n))) in
    let raw : All IsByte (raw_of p chunk_type body n) = (
      ltb→lt _ _ flags.1,
      bytes-append _ _ (stamp-bytes p.time_stamp)
          (bytes-append _ _ (stamp-bytes p.time_stamp_echo) chunk),
    ) in
    bytes-append _ _ (write_u16-bytes _) (rw (buf_tail p chunk_type body n) raw)

buf_long :
    (p : Packet) (chunk_type : ℕ) (body : List ℕ)
    → 6 < length (add_chunk (init p) chunk_type body).buf
unfolding add_chunk init write_u32 write_u16
buf_long p chunk_type body = omega arith

-- The text is whole blocks.
plain_text-blocks :
    (p : Packet) (chunk_type : ℕ) (body : List ℕ)
    → length (plain_text (add_chunk (init p) chunk_type body)) % 16 ≡ 0
unfolding plain_text padding_len write_u16
plain_text-blocks p chunk_type body =
    let buf = (add_chunk (init p) chunk_type body).buf in
    let pad = padding_len (length buf - 4) in
    omega (
      arith,
      buf_long p chunk_type body,
      length-append (drop 6 buf) (replicate pad 0xff),
      length-drop 6 buf,
      length-replicate pad 0xff,
    )

read_u32-bound : (l : List ℕ) → All IsByte l → (read_u32 l).0 < 2 ^ 32
unfolding read_u32
read_u32-bound [] h = omega arith
read_u32-bound (a ∷ []) h = omega arith
read_u32-bound (a ∷ b ∷ []) h = omega arith
read_u32-bound (a ∷ b ∷ c ∷ []) h = omega arith
read_u32-bound (a ∷ b ∷ c ∷ d ∷ r) h = omega (arith, h.0, h.1.0, h.1.1.0, h.1.1.1.0)

read_u32-rest : (l : List ℕ) → All IsByte l → All IsByte (read_u32 l).1
unfolding read_u32
read_u32-rest [] h = tt
read_u32-rest (a ∷ []) h = tt
read_u32-rest (a ∷ b ∷ []) h = tt
read_u32-rest (a ∷ b ∷ c ∷ []) h = tt
read_u32-rest (a ∷ b ∷ c ∷ d ∷ r) h = h.1.1.1.1

-- The number of the session is unscrambled with the same two words.
scramble-bound :
    (id : ℕ) (text : List ℕ) → id < 2 ^ 32 → All IsByte text → scramble id text < 2 ^ 32
unfolding scramble
scramble-bound id text h k =
    bit_xor-bound 32 _ _ (bit_xor-bound 32 _ _ h (read_u32-bound text k))
      (read_u32-bound (read_u32 text).1 (read_u32-rest text k))

scramble-scramble : (id : ℕ) (text : List ℕ) → scramble (scramble id text) text ≡ id
unfolding scramble
scramble-scramble id text = masks_cancel id (read_u32 text).0 (read_u32 (read_u32 text).1).0

-- The bytes of a packet from the text that they carry.
sealed : ℕ → List ℕ → List ℕ
sealed id text = write_u32 (scramble id text) ++ text

pack-sealed :
    (c : Cipher) (p : Packet) (id : ℕ) (o : Option (List ℕ))
    → length (key_of o id) ≡ 16
    → length (plain_text p) % 16 ≡ 0
    → pack c p id o ≡ some (sealed id (c.encrypt (key_of o id) (plain_text p)))
unfolding pack sealed
pack-sealed c p id o h k = rw (h, k) refl

sealed-scramble :
    (id : ℕ) (text : List ℕ)
    → id < 2 ^ 32
    → All IsByte text
    → scramble (read_u32 (sealed id text)).0 (read_u32 (sealed id text)).1 ≡ id
unfolding sealed
sealed-scramble id text hid hb =
    rw (read-write_u32 (scramble id text) text (scramble-bound id text hid hb))
      (scramble-scramble id text)

decode_packet-parts :
    (env : Runtime) (c : Cipher) (beyond buf : List ℕ) (id w : ℕ) (text : List ℕ)
    (o : Option (List ℕ))
    → read_u32 buf ≡ (w, text)
    → scramble w text ≡ id
    → length (key_of o id) ≡ 16
    → length buf ≡ length text + 4
    → length text % 16 ≡ 0
    → drop 4 buf ≡ text
    → decode_packet env c beyond buf o ≡ decode_plain env beyond id (c.decrypt (key_of o id) text)
unfolding decode_packet decode_plain
decode_packet-parts env c beyond buf id w text o r s h l k d =
    let long : ltb (length buf) 4 ≡ false = ground arith in
    let blocks : (length buf - 4) % 16 ≡ 0 = omega (arith, l, k) in
    rw (decode_packet, r, s, h, long, blocks, d) refl

decode_packet-sealed :
    (env : Runtime) (c : Cipher) (beyond : List ℕ) (id : ℕ) (text : List ℕ) (o : Option (List ℕ))
    → length (key_of o id) ≡ 16
    → length text % 16 ≡ 0
    → id < 2 ^ 32
    → All IsByte text
    → decode_packet env c beyond (sealed id text) o
      ≡ decode_plain env beyond id (c.decrypt (key_of o id) text)
unfolding sealed write_u32
decode_packet-sealed env c beyond id text o h k hid hb =
    decode_packet-parts env c beyond (sealed id text) id (scramble id text) text o
      (read-write_u32 (scramble id text) text (scramble-bound id text hid hb))
      (scramble-scramble id text) h (omega arith) k refl

-- A packet of one chunk that `init`, `add_chunk` and `pack` make for a session is read back by `decode_packet`, which
-- does not panic before the chunk: it finds the number of the session under the first words of the encrypted text, as
-- the receiver's own routing does, takes the key by it, and tells `recv_packet_info` that number, the marks, the mode and
-- the stamps of the packet (0 for a stamp that is absent); the only further call is that of the chunk's decoder on exactly
-- the chunk's data. This is for a block cipher, ends that take the same key of 16 bytes, which is the default one where a
-- session has none or the number is 0, a 32-bit number, a mode of two bits, 16-bit stamps, and a chunk of fewer than 65536
-- bytes.
pub decode_packet-pack :
    (env : Runtime) (c : Cipher) (beyond : List ℕ) (id : ℕ) (o o' : Option (List ℕ)) (p : Packet)
    (chunk_type : ℕ) (body : List ℕ)
    → IsBlockCipher c
    → length (key_of o id) ≡ 16
    → key_of o' id ≡ key_of o id
    → id < 2 ^ 32
    → p.mode < 4
    → p.time_stamp < 65536
    → p.time_stamp_echo < 65536
    → chunk_type < 256
    → length body < 65536
    → All IsByte body
    → (bytes : List ℕ) × (n : ℕ) × (pack c (add_chunk (init p) chunk_type body) id o ≡ some bytes)
      × (n < 16)
      × (scramble (read_u32 bytes).0 (read_u32 bytes).1 ≡ id)
      × (decode_packet env c beyond bytes o' ≡ record {
        info = some (info_of id p);
        calls =
            (after_chunk
              (decode_chunk env (replicate n 0xff ++ beyond) chunk_type body fresh)
              (λ _. ([], false))).0;
        panicked =
            (after_chunk
              (decode_chunk env (replicate n 0xff ++ beyond) chunk_type body fresh)
              (λ _. ([], false))).1;
      })
decode_packet-pack env c beyond id o o' p chunk_type body block hk same hid hm hs he ht hb bytes =
    let text = plain_text (add_chunk (init p) chunk_type body) in
    let key = key_of o id in
    let blocks = plain_text-blocks p chunk_type body in
    let plain = plain_text-bytes p chunk_type body hm ht bytes in
    let crypted = block.encrypt-bytes key text hk blocks plain in
    let (n, h, decoded) = decode_plain-plain_text env beyond id p chunk_type body hm hs he hb in
    (
      sealed id (c.encrypt key text),
      n,
      pack-sealed c (add_chunk (init p) chunk_type body) id o hk blocks,
      h,
      sealed-scramble id (c.encrypt key text) hid crypted,
      decode_packet-sealed env c beyond id (c.encrypt key text) o' (rw same hk)
            (rw (block.encrypt-length key text hk blocks) blocks) hid crypted
          ∙ rw (same, block.inverse key text hk blocks plain) decoded,
    )
