-- ===== src/Packet/Framing.antt =====
-- Round trip of a packet with one chunk, which is how `send_chunk` of src/rtmfp/session.go uses
-- src/rtmfp/packet.go.
use go_rtmfp.Prelude.{
  ℕ, ◌/◌, ◌%◌, ◌-◌, ◌<◌, ◌≡◌, refl, ap, ◌∙◌, Bool, false, List, [], ◌∷◌, ◌++◌, some, arith, length,
  append_assoc, bit_and, ltb, drop, replicate,
}
use go_rtmfp.Buffer.{read_u8, read_u16, write_u16, write_u32}
use go_rtmfp.Chunk.{PacketContext, Runtime}
use go_rtmfp.Chunk.Dispatch.{decode_chunk}
use go_rtmfp.Packet.{
  Packet, calc_check_sum, flags_of, stamp_bytes, init, add_chunk, padding_len, plain_text,
  chunks_loop, after_chunk, optional_u16, decode_plain, PacketInfo,
}
use go_rtmfp.Packet.Reads.{
  read-write_u16, ==-same, check_sum_word, read_stamp, flags_parts, FlagsTrip, flags_trip,
  one_chunk,
}

-- What `recv_packet_info` is told of a packet.
abbrev pub info_of : ℕ → Packet → PacketInfo
info_of sid p = record {
  sid = sid;
  critical = p.time_critical;
  reverse = p.time_critical_reverse;
  info_mode = p.mode;
  stamp = p.time_stamp;
  stamp_echo = p.time_stamp_echo;
}

abbrev pub fresh : PacketContext
fresh = record { last_flowid = 0; last_seqnum = 0; last_fsn_offset = 0 }

-- The bytes after the check sum, of a packet with one chunk.
unfoldable pub raw_of : Packet → ℕ → List ℕ → ℕ → List ℕ
raw_of p chunk_type body n =
    flags_of p.time_critical p.time_critical_reverse (ltb 0 p.time_stamp) (ltb 0 p.time_stamp_echo)
      p.mode
    ∷ (stamp_bytes p.time_stamp
        ++ (stamp_bytes p.time_stamp_echo
            ++ (chunk_type ∷ (write_u16 (length body % 65536) ++ (body ++ replicate n 0xff)))))

-- What the decoder returns, from its reads one by one.
plain_reads :
    (env : Runtime) (beyond : List ℕ) (sid flags s e : ℕ) (packet r1 r2 r3 r4 : List ℕ)
    → read_u16 packet ≡ (calc_check_sum r1, r1)
    → read_u8 r1 ≡ (flags, r2)
    → optional_u16 (ltb 0 (bit_and flags 8)) r2 ≡ (s, r3)
    → optional_u16 (ltb 0 (bit_and flags 4)) r3 ≡ (e, r4)
    → decode_plain env beyond sid packet ≡ record {
      info = some (record {
        sid = sid;
        critical = ltb 0 (bit_and flags 128);
        reverse = ltb 0 (bit_and flags 64);
        info_mode = bit_and flags 3;
        stamp = s;
        stamp_echo = e;
      });
      calls = (chunks_loop env beyond (length r4) fresh r4).0;
      panicked = (chunks_loop env beyond (length r4) fresh r4).1;
    }
unfolding decode_plain
plain_reads env beyond sid flags s e packet r1 r2 r3 r4 e0 e1 e2 e3 =
    rw (e0, e1, e2, e3, ==-same) refl

decode_raw :
    (env : Runtime) (beyond : List ℕ) (sid : ℕ) (p : Packet) (chunk_type : ℕ) (body : List ℕ)
    (n : ℕ)
    → n < 16
    → p.mode < 4
    → p.time_stamp < 65536
    → p.time_stamp_echo < 65536
    → length body < 65536
    → decode_plain env beyond sid
        (write_u16 (calc_check_sum (raw_of p chunk_type body n)) ++ raw_of p chunk_type body n)
      ≡ record {
        info = some (info_of sid p);
        calls =
            (after_chunk
              (decode_chunk env (replicate n 0xff ++ beyond) chunk_type body fresh)
              (λ _. ([], false))).0;
        panicked =
            (after_chunk
              (decode_chunk env (replicate n 0xff ++ beyond) chunk_type body fresh)
              (λ _. ([], false))).1;
      }
unfolding flags_parts FlagsTrip
decode_raw env beyond sid p chunk_type body n h hm hs he hb =
    let parts : flags_parts (
          flags_of p.time_critical p.time_critical_reverse (ltb 0 p.time_stamp)
            (ltb 0 p.time_stamp_echo) p.mode)
        ≡ (
          p.time_critical,
          p.time_critical_reverse,
          ltb 0 p.time_stamp,
          ltb 0 p.time_stamp_echo,
          p.mode,
        ) =
      (flags_trip p.time_critical p.time_critical_reverse (ltb 0 p.time_stamp)
        (ltb 0 p.time_stamp_echo) p.mode hm).0 in
    let flags =
      flags_of p.time_critical p.time_critical_reverse (ltb 0 p.time_stamp)
        (ltb 0 p.time_stamp_echo) p.mode in
    let chunk = chunk_type ∷ (write_u16 (length body % 65536) ++ (body ++ replicate n 0xff)) in
    let f128 : ltb 0 (bit_and flags 128) ≡ p.time_critical =
      ap (λ (x : Bool × Bool × Bool × Bool × ℕ). x.0) parts in
    let f64 : ltb 0 (bit_and flags 64) ≡ p.time_critical_reverse =
      ap (λ (x : Bool × Bool × Bool × Bool × ℕ). x.1) parts in
    let f8 : ltb 0 (bit_and flags 8) ≡ ltb 0 p.time_stamp =
      ap (λ (x : Bool × Bool × Bool × Bool × ℕ). x.2) parts in
    let f4 : ltb 0 (bit_and flags 4) ≡ ltb 0 p.time_stamp_echo =
      ap (λ (x : Bool × Bool × Bool × Bool × ℕ). x.3) parts in
    let f3 : bit_and flags 3 ≡ p.mode = ap (λ (x : Bool × Bool × Bool × Bool × ℕ). x.4) parts in
    plain_reads env beyond sid flags p.time_stamp p.time_stamp_echo _ (raw_of p chunk_type body n)
      (stamp_bytes p.time_stamp ++ (stamp_bytes p.time_stamp_echo ++ chunk))
      (stamp_bytes p.time_stamp_echo ++ chunk) chunk
      (read-write_u16 _ _ (check_sum_word (raw_of p chunk_type body n)))
      (unfold read_u8 raw_of in refl) (rw f8 (read_stamp p.time_stamp _ hs))
      (rw f4 (read_stamp p.time_stamp_echo _ he))
    ∙ rw (f128, f64, f3, one_chunk env beyond _ n chunk_type body fresh h hb) refl

padding_short : (n : ℕ) → 0 < n → padding_len n < 16
unfolding padding_len
padding_short n h = omega arith

-- The buffer of a packet with one chunk, past the check sum.
pub buf_tail :
    (p : Packet) (chunk_type : ℕ) (body : List ℕ) (n : ℕ)
    → drop 6 (add_chunk (init p) chunk_type body).buf ++ replicate n 0xff
      ≡ raw_of p chunk_type body n
unfolding add_chunk init raw_of write_u32 write_u16
buf_tail p chunk_type body n =
    let flags =
      flags_of p.time_critical p.time_critical_reverse (ltb 0 p.time_stamp)
        (ltb 0 p.time_stamp_echo) p.mode in
    let stamps = stamp_bytes p.time_stamp ++ stamp_bytes p.time_stamp_echo in
    let size = length body % 65536 in
    let chunk = chunk_type ∷ size / 256 % 256 ∷ size % 256 ∷ body in
    ap (◌∷◌ flags) (
      append_assoc stamps chunk (replicate n 0xff)
      ∙ append_assoc (stamp_bytes p.time_stamp) (stamp_bytes p.time_stamp_echo)
          (chunk ++ replicate n 0xff))

buf_long :
    (p : Packet) (chunk_type : ℕ) (body : List ℕ)
    → 0 < length (add_chunk (init p) chunk_type body).buf - 4
unfolding add_chunk init write_u32 write_u16
buf_long p chunk_type body = omega arith

-- A packet of one chunk that `init`, `add_chunk` and `pack` make is read back by `decode_packet` past the
-- decryption: the check sum fits, `recv_packet_info` sees the marks, the mode and the stamps of the packet (0
-- for a stamp that is absent), and the only further call is that of the chunk's decoder on exactly the chunk's
-- data; the padding, of fewer than 16 bytes, makes none. This is for a mode of two bits, 16-bit stamps and a
-- chunk of fewer than 65536 bytes.
pub decode_plain-plain_text :
    (env : Runtime) (beyond : List ℕ) (sid : ℕ) (p : Packet) (chunk_type : ℕ) (body : List ℕ)
    → p.mode < 4
    → p.time_stamp < 65536
    → p.time_stamp_echo < 65536
    → length body < 65536
    → (n : ℕ) × (n < 16)
      × (decode_plain env beyond sid (plain_text (add_chunk (init p) chunk_type body)) ≡ record {
        info = some (info_of sid p);
        calls =
            (after_chunk
              (decode_chunk env (replicate n 0xff ++ beyond) chunk_type body fresh)
              (λ _. ([], false))).0;
        panicked =
            (after_chunk
              (decode_chunk env (replicate n 0xff ++ beyond) chunk_type body fresh)
              (λ _. ([], false))).1;
      })
unfolding plain_text
decode_plain-plain_text env beyond sid p chunk_type body hm hs he hb =
    let n = padding_len (length (add_chunk (init p) chunk_type body).buf - 4) in
    let h : n < 16 = padding_short _ (buf_long p chunk_type body) in
    (
      n,
      h,
      rw (buf_tail p chunk_type body n)
          (decode_raw env beyond sid p chunk_type body n h hm hs he hb),
    )
