-- ===== src/Tests/Codecs.antt =====
-- Runs of the encodings of src/rtmfp: base.go, amf.go, chunk.go, packet.go.
use go_rtmfp.Prelude.{
  inr, ℕ, suc, ◌+◌, ◌%◌, ap, ◌∙◌, none, All, IsByte, length, map, ◌≡◌, ◌≢◌, ◌<◌, refl, true, false,
  List, [], ◌∷◌, ◌++◌, some, arith, replicate,
}
use go_rtmfp.Amf.Number.{write_amf3_u29, read_amf3_u29}
use go_rtmfp.Amf.NumberTrip.{read-write_u29, read-write_gap}
use go_rtmfp.Chunk.{Runtime}
use go_rtmfp.Chunk.Dispatch.{decode_chunk}
use go_rtmfp.Packet.Frames.{framed, frame_calls, chunks_loop-framed}
use go_rtmfp.Packet.{
  chunks_loop, Packet, init, add_chunk, after_chunk, Cipher, pack, scramble, decode_packet,
}
use go_rtmfp.Packet.Framing.{info_of, fresh}
use go_rtmfp.Packet.Sealed.{IsBlockCipher, decode_packet-pack}
use go_rtmfp.Buffer.{read_u16, read_u32}
use go_rtmfp.Vlu.{encode_vlu, decode_vlu}
use go_rtmfp.Vlu.RoundTrip.{decode_vlu-encode_vlu}

encode_300 : encode_vlu 300 ≡ 0x82 ∷ 0x2c ∷ []
unfolding encode_vlu
encode_300 = refl

-- A number that the buffer cuts off is read as if a zero byte followed.
decode_cut : decode_vlu (0x82 ∷ []) ≡ (256, [])
unfolding decode_vlu
decode_cut = refl

decode_vlu-encode_vlu_example : decode_vlu (encode_vlu 300 ++ 7 ∷ []) ≡ (300, 7 ∷ [])
decode_vlu-encode_vlu_example = decode_vlu-encode_vlu 300 (7 ∷ []) (omega arith)

read-write_u29_example :
    (w : List ℕ) × (write_amf3_u29 5000000 ≡ some w)
    × (read_amf3_u29 (w ++ 9 ∷ []) ≡ (5000000, 9 ∷ []))
read-write_u29_example = read-write_u29 5000000 (9 ∷ []) (inr (omega arith, omega arith))

read-write_gap_example :
    (w : List ℕ) × (write_amf3_u29 3000000 ≡ some w) × ((read_amf3_u29 (w ++ 9 ∷ [])).0 ≢ 3000000)
read-write_gap_example =
    read-write_gap 3000000 (9 ∷ []) (omega arith, tt) (omega arith) (omega arith)

abbrev pub runtime : Runtime
runtime = record { max_alloc = 1048576; addr_string = λ ip port. ip }

abbrev ping_packet : Packet
ping_packet = record {
  time_critical = false;
  time_critical_reverse = true;
  time_stamp = 700;
  time_stamp_echo = 0;
  mode = 3;
  buf = [];
}

-- Each byte is shifted by one.
shift-bytes : (text : List ℕ) → All IsByte (map (λ b. (b + 1) % 256) text)
shift-bytes [] = tt
shift-bytes (b ∷ text) = (omega arith, shift-bytes text)

shift_back :
    (text : List ℕ)
    → All IsByte text
    → map (λ b. (b + 255) % 256) (map (λ b. (b + 1) % 256) text) ≡ text
shift_back [] h = refl
shift_back (b ∷ text) h =
    ap (λ r. (((b + 1) % 256 + 255) % 256) ∷ r) (shift_back text h.1)
    ∙ ap (λ (a : ℕ). a ∷ text) (omega arith)

shift-length : (text : List ℕ) → length (map (λ b. (b + 1) % 256) text) ≡ length text
shift-length [] = refl
shift-length (b ∷ text) = ap suc (shift-length text)

abbrev pub shift_cipher : Cipher
shift_cipher = record {
  encrypt = λ key text. map (λ b. (b + 1) % 256) text;
  decrypt = λ key text. map (λ b. (b + 255) % 256) text;
}

pub shift_cipher-IsBlockCipher : IsBlockCipher shift_cipher
shift_cipher-IsBlockCipher = record {
  inverse = λ key text k n h. shift_back text h;
  encrypt-length = λ key text k n. shift-length text;
  encrypt-bytes = λ key text k n h. shift-bytes text;
}

decode_packet-pack_example :
    (bytes : List ℕ) × (n : ℕ) × (pack shift_cipher
        (add_chunk (init ping_packet) 0x01 (7 ∷ 8 ∷ []))
        70000
        none
      ≡ some bytes)
    × (n < 16)
    × (scramble (read_u32 bytes).0 (read_u32 bytes).1 ≡ 70000)
    × (decode_packet runtime shift_cipher [] bytes none ≡ record {
      info = some (info_of 70000 ping_packet);
      calls =
          (after_chunk
            (decode_chunk runtime (replicate n 0xff ++ []) 0x01 (7 ∷ 8 ∷ []) fresh)
            (λ _. ([], false))).0;
      panicked =
          (after_chunk
            (decode_chunk runtime (replicate n 0xff ++ []) 0x01 (7 ∷ 8 ∷ []) fresh)
            (λ _. ([], false))).1;
    })
unfolding go_rtmfp.Packet.key_of
decode_packet-pack_example =
    decode_packet-pack runtime shift_cipher [] 70000 none none ping_packet 0x01 (7 ∷ 8 ∷ [])
      shift_cipher-IsBlockCipher refl refl (omega arith) (omega arith) (omega arith) (omega arith)
      (omega arith) (omega arith) (omega arith, (omega arith, tt))

-- Two pings, and a byte behind them.
chunks_loop-framed_example :
    chunks_loop runtime []
      (length (framed ((0x01, 7 ∷ []) ∷ (0x01, []) ∷ []) (0xff ∷ [])))
      fresh
      (framed ((0x01, 7 ∷ []) ∷ (0x01, []) ∷ []) (0xff ∷ []))
    ≡ frame_calls runtime [] fresh ((0x01, 7 ∷ []) ∷ (0x01, []) ∷ []) (0xff ∷ [])
chunks_loop-framed_example =
    chunks_loop-framed runtime [] fresh ((0x01, 7 ∷ []) ∷ (0x01, []) ∷ []) (0xff ∷ [])
      (omega arith, (omega arith, tt)) (unfold read_u16 in omega arith)
