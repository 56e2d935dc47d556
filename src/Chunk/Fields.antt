-- ===== src/Chunk/Fields.antt =====
-- Fields that stand in the buffer, as src/rtmfp/chunk.go takes them.
use go_rtmfp.Prelude.{
  ℕ, ◌+◌, ◌≡◌, refl, ap, true, some, List, ◌++◌, leb, length, append_assoc, length-append,
  take-append_length, drop-append_length, arith, IsU64,
}
use go_rtmfp.Vlu.{encode_vlu_prefix_bytes}
use go_rtmfp.Vlu.RoundTrip.{decode_vlu-encode_vlu}
use go_rtmfp.Buffer.{slice, next, take_field}
use go_rtmfp.Chunk.Decode.{take_prefixed}

-- A field that stands in the buffer.
pub slice_fits : (beyond v r : List ℕ) → slice beyond (v ++ r) (length v) ≡ some v
unfolding slice
slice_fits beyond v r =
    let fits : leb (length v) (length (v ++ r) + length beyond) ≡ true =
      ground (arith, length-append v r) in
    rw (fits, append_assoc) (ap some (take-append_length v (r ++ beyond)))

pub take_field_fits : (beyond v r : List ℕ) → take_field beyond (length v) (v ++ r) ≡ some (v, r)
unfolding take_field next
take_field_fits beyond v r = rw (slice_fits beyond v r, drop-append_length v r, take_field) refl

pub prefixed_trip :
    (beyond v r : List ℕ)
    → IsU64 (length v)
    → take_prefixed beyond (encode_vlu_prefix_bytes v ++ r) ≡ some (v, r)
unfolding take_prefixed encode_vlu_prefix_bytes
prefixed_trip beyond v r h =
    rw (append_assoc, decode_vlu-encode_vlu (length v) (v ++ r) h) (take_field_fits beyond v r)
