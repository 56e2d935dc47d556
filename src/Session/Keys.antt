-- ===== src/Session/Keys.antt =====
-- The key exchange of src/rtmfp/session.go: `init_dh`, `end_dh`, `generate_aes_keys` and the four handlers of
-- the keying chunks. Big numbers and hashes are parameters.
use go_rtmfp.Prelude.{
  ℕ, ◌+◌, ◌-◌, ◌≤◌, ◌≡◌, Bool, true, false, Option, none, some, List, [], ◌∷◌, ◌++◌, ◌>>=◌,
  if◌then◌else◌, length, take, replicate,
}
use go_rtmfp.Chunk.Options.{read_option}
use go_rtmfp.Chunk.Encode.{send_iikeying_body, send_rikeying_body}

-- `math/big` modulo the 1024-bit prime: `public x` is 2 ^ x and `power y x` is y ^ x; `Bytes`, and `SetString` of
-- the hexadecimal digits, which is the number that the bytes stand for; and HMAC-SHA256, of a key and a text.
pub record Crypto : Type 0 where
  pub public : ℕ → ℕ
  pub power : ℕ → ℕ → ℕ
  pub to_bytes : ℕ → List ℕ
  pub from_bytes : List ℕ → ℕ
  pub hmac : List ℕ → List ℕ → List ℕ
  pub powers_commute : (x y : ℕ) → power (public x) y ≡ power (public y) x
  pub public-length : (x : ℕ) → length (to_bytes (public x)) ≤ 128
  pub from_bytes-zeros : (k n : ℕ) → from_bytes (replicate k 0 ++ to_bytes n) ≡ n

-- A chunk on its way: the address, the type and the body that `send_chunk` is given.
pub record SentChunk : Type 0 where
  pub dst_addr : List ℕ
  pub chunk_type : ℕ
  pub body : List ℕ

-- The fields of `session` that the key exchange uses. `keys` is `dkey` and `ekey`, and `none` for nil; `opened`
-- counts what goes to `active_open_chan`; `sent` is what went out, latest first.
pub record Keying : Type 0 where
  pub sessionid : ℕ
  pub other_sessionid : ℕ
  pub dh_private : ℕ
  pub dh_public : ℕ
  pub other_dh_public : Option (List ℕ)
  pub nonce : List ℕ
  pub mode : ℕ
  pub keys : Option (List ℕ × List ℕ)
  pub other_addr : List ℕ
  pub active_opening : Bool
  pub opened : ℕ
  pub sent : List SentChunk

abbrev pub mode_initiator : ℕ
mode_initiator = 1

abbrev pub mode_responder : ℕ
mode_responder = 2

abbrev pub mode_startup : ℕ
mode_startup = 3

unfoldable pub is_handshaked : Keying → Bool
is_handshaked s = elim s.keys [ none ↦ false | some _ ↦ true ]

unfoldable pub send_rikeying : List ℕ → Keying → Keying
send_rikeying dst_addr s = record s {
  sent =
      record {
        dst_addr = dst_addr;
        chunk_type = 0x78;
        body = send_rikeying_body s.sessionid s.nonce;
      }
      ∷ s.sent;
}

-- `b[1:]`
unfoldable pub tail_slice : List ℕ → Option (List ℕ)
tail_slice [] = none
tail_slice (b ∷ r) = some r

-- `nil[1:]` panics too. `beyond` is the capacity of the certificate past its length.
unfoldable pub cert_key : List ℕ → List ℕ → Option (List ℕ)
unfolding tail_slice
cert_key beyond init_cert = read_option beyond init_cert 0x1D >>= λ found. elim found [
  | none ↦ none
  | some o ↦ tail_slice o
]

-- The public number of the nonce, where there is one and none is known.
unfoldable pub learn_key : Option (List ℕ) → Option (List ℕ) → Option (List ℕ)
learn_key (some known) found = some known
learn_key none none = none
learn_key none (some []) = none
learn_key none (some (b ∷ [])) = none
learn_key none (some (b ∷ c ∷ r)) = some (c ∷ r)

-- A nil slice stands for no bytes.
unfoldable pub bytes_of : Option (List ℕ) → List ℕ
bytes_of none = []
bytes_of (some v) = v

module _ (C : Crypto) where
  -- The public number with zeros in front, in 128 bytes.
  unfoldable pub padded : ℕ → List ℕ
  padded n = replicate (128 - length (C.to_bytes n)) 0 ++ C.to_bytes n

  -- `init_dh`, of the random private number.
  unfoldable pub init_dh : ℕ → Keying → Keying
  unfolding padded
  init_dh private s = record s {
    dh_private = private;
    dh_public = C.public private;
    nonce =
        0x03
        ∷ 0x1A
        ∷ 0x00
        ∷ 0x00
        ∷ 0x02
        ∷ 0x1E
        ∷ 0x00
        ∷ 0x81
        ∷ 0x02
        ∷ 0x0D
        ∷ 0x02
        ∷ padded (C.public private);
  }

  unfoldable pub end_dh : List ℕ → Keying → ℕ
  end_dh other_dh_pub s = C.power (C.from_bytes other_dh_pub) s.dh_private

  -- `GenCryptoKeys` of src/rtmfp/base.go: the key to decrypt with and the key to encrypt with.
  unfoldable pub gen_crypto_keys : ℕ → List ℕ → List ℕ → List ℕ × List ℕ
  gen_crypto_keys secret my_nonce other_nonce = (
    take 16 (C.hmac (C.to_bytes secret) (C.hmac my_nonce other_nonce)),
    take 16 (C.hmac (C.to_bytes secret) (C.hmac other_nonce my_nonce)),
  )

  unfoldable pub generate_aes_keys : List ℕ → List ℕ → List ℕ → Keying → Keying
  unfolding end_dh gen_crypto_keys
  generate_aes_keys other_dh_pub my_nonce other_nonce s = record s {
    keys = some (gen_crypto_keys (end_dh other_dh_pub s) my_nonce other_nonce);
  }

  unfoldable pub send_iikeying : List ℕ → List ℕ → Keying → Keying
  send_iikeying dst_addr cookie_echo s = record s {
    sent =
        record {
          dst_addr = dst_addr;
          chunk_type = 0x38;
          body = send_iikeying_body s.sessionid cookie_echo (C.to_bytes s.dh_public) s.nonce;
        }
        ∷ s.sent;
  }

  -- `recv_rhello_cookie_change`
  unfoldable pub recv_cookie_change : List ℕ → List ℕ → Keying → Keying
  unfolding send_iikeying
  recv_cookie_change src_addr new_cookie s = send_iikeying src_addr new_cookie s

  unfoldable pub accept_iikeying : List ℕ → ℕ → List ℕ → List ℕ → Keying → Keying
  unfolding generate_aes_keys send_rikeying
  accept_iikeying src_addr init_sid other_dh_pub init_nonce s =
      send_rikeying src_addr (record (generate_aes_keys other_dh_pub s.nonce init_nonce s) {
        mode = mode_responder;
        other_sessionid = init_sid;
        other_addr = src_addr;
      })

  unfoldable pub recv_iikeying : List ℕ → List ℕ → ℕ → List ℕ → List ℕ → Keying → Option Keying
  unfolding cert_key accept_iikeying
  recv_iikeying beyond src_addr init_sid init_cert init_nonce s =
      cert_key beyond init_cert >>= λ other_dh_pub.
      some (accept_iikeying src_addr init_sid other_dh_pub init_nonce s)

  unfoldable pub accept_rikeying : List ℕ → ℕ → List ℕ → Option (List ℕ) → Keying → Keying
  unfolding learn_key bytes_of generate_aes_keys
  accept_rikeying src_addr resp_sid resp_nonce option_0d s =
      let other = learn_key s.other_dh_public option_0d in
      record (generate_aes_keys (bytes_of other) s.nonce resp_nonce
        (record s { other_dh_public = other })) {
          mode = mode_initiator;
          other_sessionid = resp_sid;
          other_addr = src_addr;
          opened = if s.active_opening then s.opened + 1 else s.opened;
        }

  -- A repeated `rikeying` is dropped.
  unfoldable pub recv_rikeying : List ℕ → List ℕ → ℕ → List ℕ → Keying → Option Keying
  unfolding is_handshaked accept_rikeying
  recv_rikeying beyond src_addr resp_sid resp_nonce s =
      if is_handshaked s
      then some s
      else (read_option beyond resp_nonce 0x0D >>= λ found.
          some (accept_rikeying src_addr resp_sid resp_nonce found s))
