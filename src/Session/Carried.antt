-- ===== src/Session/Carried.antt =====
-- A packet with one chunk on its way between two ends of src/rtmfp, and what the far end reads in it.
use go_rtmfp.Prelude.{
  ℕ, ◌^◌, ◌<◌, ◌≡◌, refl, sym, ap, ◌∙◌, false, Option, some, List, [], ◌∷◌, ◌++◌, length, replicate,
  All, IsByte, some_inj,
}
use mathlib.Core.Path.{subst}
use go_rtmfp.Buffer.{read_u32}
use go_rtmfp.Chunk.{ChunkCall, Runtime}
use go_rtmfp.Chunk.Dispatch.{decode_chunk}
use go_rtmfp.Packet.{
  Cipher, Packet, Decoded, init, add_chunk, key_of, scramble, pack, decode_packet, after_chunk,
}
use go_rtmfp.Packet.Framing.{fresh, info_of}
use go_rtmfp.Packet.Sealed.{IsBlockCipher, decode_packet-pack}
use go_rtmfp.Session.Opening.{NetworkPacket}

-- The packet has the bytes that `init`, `add_chunk` and `pack` make of the chunk, under some marks and stamps, for the
-- session of the number with its key.
pub record Carries (c : Cipher) (id : ℕ) (o : Option (List ℕ)) (chunk_type : ℕ) (body : List ℕ)
    (q : NetworkPacket) : Type 0 where
  pub packet : Packet
  pub mode : packet.mode < 4
  pub stamp : packet.time_stamp < 65536
  pub stamp_echo : packet.time_stamp_echo < 65536
  pub packed : pack c (add_chunk (init packet) chunk_type body) id o ≡ some q.bytes
  pub type_byte : chunk_type < 256
  pub size : length body < 65536
  pub bytes : All IsByte body

-- The far end routes the packet to the session of the number, and reads one call in it.
abbrev pub Reads : Runtime → Cipher → ℕ → Option (List ℕ) → NetworkPacket → ChunkCall → Type 0
Reads env c id o q call =
    (scramble (read_u32 q.bytes).0 (read_u32 q.bytes).1 ≡ id)
    × ((decode_packet env c q.beyond q.bytes o).calls ≡ call ∷ [])
    × ((decode_packet env c q.beyond q.bytes o).panicked ≡ false)

pub Carries-Reads :
    (env : Runtime) (c : Cipher) (id : ℕ) (o o' : Option (List ℕ)) (chunk_type : ℕ) (body : List ℕ)
    (q : NetworkPacket) (call : ChunkCall)
    → IsBlockCipher c
    → length (key_of o id) ≡ 16
    → key_of o' id ≡ key_of o id
    → id < 2 ^ 32
    → Carries c id o chunk_type body q
    → ((beyond : List ℕ) → decode_chunk env beyond chunk_type body fresh ≡ some (call, fresh))
    → Reads env c id o' q call
unfolding after_chunk
Carries-Reads env c id o o' chunk_type body q call block hk same hid k decodes =
    let (bytes, n, packed, hn, route, decoded) =
      decode_packet-pack env c q.beyond id o o' k.packet chunk_type body block hk same hid k.mode
        k.stamp k.stamp_echo k.type_byte k.size k.bytes in
    let e : bytes ≡ q.bytes = some_inj (sym packed ∙ k.packed) in
    let read : decode_packet env c q.beyond bytes o'
        ≡ record { info = some (info_of id k.packet); calls = call ∷ []; panicked = false } =
      decoded ∙ rw (decodes (replicate n 0xff ++ q.beyond), after_chunk) refl in
    subst
      (λ b.
        (scramble (read_u32 b).0 (read_u32 b).1 ≡ id)
        × ((decode_packet env c q.beyond b o').calls ≡ call ∷ [])
        × ((decode_packet env c q.beyond b o').panicked ≡ false))
      e (route, ap (λ (d : Decoded). d.calls) read, ap (λ (d : Decoded). d.panicked) read)

-- Such a packet has bytes: `pack` neither panics nor returns nil.
pub pack_total :
    (env : Runtime) (c : Cipher) (id : ℕ) (o : Option (List ℕ)) (p : Packet) (chunk_type : ℕ)
    (body : List ℕ)
    → IsBlockCipher c
    → length (key_of o id) ≡ 16
    → id < 2 ^ 32
    → p.mode < 4
    → p.time_stamp < 65536
    → p.time_stamp_echo < 65536
    → chunk_type < 256
    → length body < 65536
    → All IsByte body
    → (bytes : List ℕ) × (pack c (add_chunk (init p) chunk_type body) id o ≡ some bytes)
pack_total env c id o p chunk_type body block hk hid hm hs he ht hl hb =
    let sent =
      decode_packet-pack env c [] id o o p chunk_type body block hk refl hid hm hs he ht hl hb in
    (sent.0, sent.2)
