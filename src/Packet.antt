-- ===== src/Packet.antt =====
-- The packets of src/rtmfp/packet.go. AES in CBC mode with a zero vector is a parameter.
pub mod Reads
pub mod Framing
pub mod Frames
pub mod Sealed
use go_rtmfp.Prelude.{
  ℕ, zero, suc, ◌+◌, ◌*◌, ◌/◌, ◌%◌, ◌-◌, ◌^◌, Bool, true, false, not, ◌||◌, ◌&&◌, List, [], ◌∷◌,
  ◌++◌, Option, none, some, ltb, leb, ◌==◌, if◌then◌else◌, ◌>>=◌, length, take, drop, replicate,
  bit_and, bit_or, bit_xor,
}
use go_rtmfp.Buffer.{read_u8, read_u16, read_u32, write_u16, write_u32}
use go_rtmfp.Chunk.{ChunkCall, PacketContext, Runtime}
use go_rtmfp.Chunk.Dispatch.{decode_chunk}

-- `CryptBlocks` in both directions, of a key and of whole blocks.
pub record Cipher : Type 0 where
  pub encrypt : List ℕ → List ℕ → List ℕ
  pub decrypt : List ℕ → List ℕ → List ℕ

-- "Adobe Systems 02"
abbrev pub default_crypto_key : List ℕ
default_crypto_key =
    0x41 ∷ 0x64 ∷ 0x6f ∷ 0x62 ∷ 0x65 ∷ 0x20 ∷ 0x53 ∷ 0x79 ∷ 0x73 ∷ 0x74 ∷ 0x65 ∷ 0x6d ∷ 0x73 ∷ 0x20
    ∷ 0x30 ∷ 0x32 ∷ []

-- The sum of 16-bit words, on a `uint32`; a last odd byte is a word of its own.
unfoldable pub check_sum_loop : ℕ → List ℕ → ℕ
check_sum_loop sum [] = sum
check_sum_loop sum (v ∷ []) = (sum + v) % 2 ^ 32
check_sum_loop sum (a ∷ b ∷ r) = check_sum_loop ((sum + (a * 256 + b)) % 2 ^ 32) r

unfoldable pub calc_check_sum : List ℕ → ℕ
unfolding check_sum_loop
calc_check_sum buf =
    let sum = check_sum_loop 0 buf in
    let folded = (sum / 65536 + sum % 65536) % 2 ^ 32 in
    65535 - (folded + folded / 65536) % 2 ^ 32 % 65536

pub record Packet : Type 0 where
  pub time_critical : Bool
  pub time_critical_reverse : Bool
  pub time_stamp : ℕ
  pub time_stamp_echo : ℕ
  pub mode : ℕ
  pub buf : List ℕ

-- The flags that `init` writes.
unfoldable pub flags_of : Bool → Bool → Bool → Bool → ℕ → ℕ
flags_of critical reverse stamp echo mode =
    let flags = if critical then 128 else 0 in
    let flags = if reverse then bit_or flags 64 else flags in
    let flags = if stamp then bit_or flags 8 else flags in
    let flags = if echo then bit_or flags 4 else flags in bit_or flags mode

-- A time stamp, which is written where it is not 0.
unfoldable pub stamp_bytes : ℕ → List ℕ
stamp_bytes v = if ltb 0 v then write_u16 v else []

unfoldable pub init : Packet → Packet
unfolding flags_of stamp_bytes
init p = record p {
  buf =
      write_u32 0
      ++ (write_u16 0
          ++ (flags_of p.time_critical p.time_critical_reverse (ltb 0 p.time_stamp)
                (ltb 0 p.time_stamp_echo) p.mode
              ∷ (stamp_bytes p.time_stamp ++ stamp_bytes p.time_stamp_echo)));
}

unfoldable pub add_chunk : Packet → ℕ → List ℕ → Packet
add_chunk p chunk_type body = record p {
  buf = p.buf ++ (chunk_type ∷ (write_u16 (length body % 65536) ++ body));
}

unfoldable pub padding_len : ℕ → ℕ
padding_len encrypted_len = ((encrypted_len - 1) / 16 + 1) * 16 - encrypted_len

-- The text that `pack` encrypts: the check sum over what follows it, the buffer and the padding.
unfoldable pub plain_text : Packet → List ℕ
unfolding padding_len calc_check_sum
plain_text p =
    let raw = drop 6 p.buf ++ replicate (padding_len (length p.buf - 4)) 0xff in
    write_u16 (calc_check_sum raw) ++ raw

-- The key of a packet: the default one for a session that has none, or for session 0.
unfoldable pub key_of : Option (List ℕ) → ℕ → List ℕ
key_of none session_id = default_crypto_key
key_of (some key) session_id = if session_id == 0 then default_crypto_key else key

-- The session's id, or its scrambled form, with the first two words of the encrypted text.
unfoldable pub scramble : ℕ → List ℕ → ℕ
scramble session_id text =
    let first = read_u32 text in bit_xor (bit_xor session_id first.0) (read_u32 first.1).0

-- `pack`. The empty list is its nil, for a key that `aes.NewCipher` refuses; `none` is a panic.
unfoldable pub pack : Cipher → Packet → ℕ → Option (List ℕ) → Option (List ℕ)
unfolding plain_text key_of scramble
pack cipher p session_id crypt_key =
    let key = key_of crypt_key session_id in
    let text = cipher.encrypt key (plain_text p) in
    if not (length key == 16 || length key == 24 || length key == 32)
    then some []
    else if not (length (plain_text p) % 16 == 0)
    then none
    else some (write_u32 (scramble session_id text) ++ text)

-- The arguments of `recv_packet_info`.
pub record PacketInfo : Type 0 where
  pub sid : ℕ
  pub critical : Bool
  pub reverse : Bool
  pub info_mode : ℕ
  pub stamp : ℕ
  pub stamp_echo : ℕ

-- What a packet's decoding calls on its handlers, in order, and whether it ends in a panic.
pub record Decoded : Type 0 where
  pub info : Option PacketInfo
  pub calls : List ChunkCall
  pub panicked : Bool

-- A panic ends the loop; else the other chunks follow.
unfoldable pub after_chunk :
    Option (ChunkCall × PacketContext)
    → (PacketContext → List ChunkCall × Bool)
    → List ChunkCall × Bool
after_chunk none continue = ([], true)
after_chunk (some (call, cxt)) continue = let later = continue cxt in (call ∷ later.0, later.1)

-- The chunk loop, on fuel: a round takes at least three bytes. The chunk's slice has the rest of the packet within its capacity.
unfoldable pub chunks_loop : Runtime → List ℕ → ℕ → PacketContext → List ℕ → List ChunkCall × Bool
unfolding after_chunk
chunks_loop env beyond zero cxt r = ([], false)
chunks_loop env beyond (suc fuel) cxt r =
    let chunk_type = read_u8 r in
    let chunk_length = read_u16 chunk_type.1 in
    let rest = chunk_length.1 in
    if leb (length r) 2
    then ([], false)
    else if ltb (length rest) chunk_length.0
    then ([], false)
    else after_chunk
        (decode_chunk env (drop chunk_length.0 rest ++ beyond) chunk_type.0
          (take chunk_length.0 rest) cxt)
        (λ cxt'. chunks_loop env beyond fuel cxt' (drop chunk_length.0 rest))

abbrev pub dropped : Decoded
dropped = record { info = none; calls = []; panicked = false }

abbrev pub broken : Decoded
broken = record { info = none; calls = []; panicked = true }

-- A 16-bit field that a flag announces.
unfoldable pub optional_u16 : Bool → List ℕ → ℕ × List ℕ
optional_u16 present r = if present then read_u16 r else (0, r)

-- `decode_packet` from the decrypted text on.
unfoldable pub decode_plain : Runtime → List ℕ → ℕ → List ℕ → Decoded
unfolding calc_check_sum optional_u16 chunks_loop
decode_plain env beyond sid packet =
    let check_sum = read_u16 packet in
    let flags = read_u8 check_sum.1 in
    let stamp = optional_u16 (ltb 0 (bit_and flags.0 8)) flags.1 in
    let echo = optional_u16 (ltb 0 (bit_and flags.0 4)) stamp.1 in
    let chunks =
      chunks_loop env beyond (length echo.1)
        (record { last_flowid = 0; last_seqnum = 0; last_fsn_offset = 0 }) echo.1 in
    if check_sum.0 == calc_check_sum check_sum.1
    then record {
      info = some (record {
        sid = sid;
        critical = ltb 0 (bit_and flags.0 128);
        reverse = ltb 0 (bit_and flags.0 64);
        info_mode = bit_and flags.0 3;
        stamp = stamp.0;
        stamp_echo = echo.0;
      });
      calls = chunks.0;
      panicked = chunks.1;
    }
    else dropped

-- `decode_packet`
unfoldable pub decode_packet : Runtime → Cipher → List ℕ → List ℕ → Option (List ℕ) → Decoded
unfolding key_of scramble decode_plain
decode_packet env cipher beyond buf crypt_key =
    let first = read_u32 buf in
    let sid = scramble first.0 first.1 in
    let key = key_of crypt_key sid in
    if not (length key == 16)
    then broken
    else if ltb (length buf) 4
    then broken
    else if not ((length buf - 4) % 16 == 0)
    then broken
    else decode_plain env beyond sid (cipher.decrypt key (drop 4 buf))
