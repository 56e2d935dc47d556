-- ===== src/Chunk/Encode.antt =====
-- The bodies of the chunks that src/rtmfp/session.go sends, as `chunk_buf` holds them when it is passed to
-- `send_chunk`.
use go_rtmfp.Prelude.{
  ℕ, ◌*◌, ◌/◌, ◌%◌, ◌-◌, Bool, true, false, List, [], ◌∷◌, ◌++◌, Option, none, some, if◌then◌else◌,
  bit_or, length, replicate, add64, sub64,
}
use go_rtmfp.Vlu.{encode_vlu, encode_vlu_prefix_bytes}
use go_rtmfp.Range.{Range, range_end}
use go_rtmfp.Buffer.{write_u32}

-- `options != nil`
unfoldable pub is_present : Option (List ℕ) → Bool
is_present none = false
is_present (some _) = true

-- `send_userdata`: `fragmentControl << 4` is on a `uint8`.
unfoldable pub userdata_flags : ℕ → Option (List ℕ) → Bool → Bool → ℕ
unfolding is_present
userdata_flags fragment_control options abandon final =
    let base = fragment_control * 16 % 256 in
    let optioned = if is_present options then bit_or base 0x80 else base in
    let abandoned = if abandon then bit_or optioned 0x02 else optioned in
    if final then bit_or abandoned 0x01 else abandoned

unfoldable pub option_bytes : Option (List ℕ) → List ℕ
option_bytes none = []
option_bytes (some options) = options

unfoldable pub send_userdata_body : ℕ → ℕ → ℕ → ℕ → List ℕ → Option (List ℕ) → Bool → Bool → List ℕ
unfolding userdata_flags option_bytes
send_userdata_body fragment_control flowid sequence_number fsn_offset body options abandon final =
    userdata_flags fragment_control options abandon final
    ∷ (encode_vlu flowid
        ++ (encode_vlu sequence_number
            ++ (encode_vlu fsn_offset ++ (option_bytes options ++ body))))

-- The loop of `send_range_ack`.
unfoldable pub ack_ranges : ℕ → List Range → List ℕ
unfolding range_end
ack_ranges ack_cursor [] = []
ack_ranges ack_cursor (r ∷ rs) =
    encode_vlu (sub64 (sub64 r.pos ack_cursor) 1)
    ++ (encode_vlu (sub64 r.len 1) ++ ack_ranges (range_end r) rs)

unfoldable pub send_range_ack_body : ℕ → ℕ → ℕ → List Range → List ℕ
unfolding ack_ranges
send_range_ack_body flowid buf_avail cum_ack recv_ranges =
    encode_vlu flowid
    ++ (encode_vlu (buf_avail / 1024)
        ++ (encode_vlu cum_ack ++ ack_ranges (add64 cum_ack 1) recv_ranges))

unfoldable pub send_buffer_probe_body : ℕ → List ℕ
send_buffer_probe_body flowid = encode_vlu flowid

unfoldable pub send_flow_exception_report_body : ℕ → ℕ → List ℕ
send_flow_exception_report_body flowid exception = encode_vlu flowid ++ encode_vlu exception

-- `send_rikeying`, of the session's id and nonce.
unfoldable pub send_rikeying_body : ℕ → List ℕ → List ℕ
send_rikeying_body sessionid nonce =
    write_u32 sessionid ++ encode_vlu_prefix_bytes nonce ++ 0x58 ∷ []

-- `send_iikeying`: the public key, of at most 128 bytes, is padded at its front to 128.
unfoldable pub send_iikeying_body : ℕ → List ℕ → List ℕ → List ℕ → List ℕ
send_iikeying_body sessionid cookie_echo dh_public nonce =
    let pad = replicate (128 - length dh_public) 0 in
    let cert = 0x81 ∷ 0x02 ∷ 0x1D ∷ 0x02 ∷ (pad ++ dh_public) in
    write_u32 sessionid
    ++ (encode_vlu_prefix_bytes cookie_echo
        ++ (encode_vlu 132 ++ (cert ++ (encode_vlu_prefix_bytes nonce ++ 0x58 ∷ []))))
