-- ===== src/Amf/ValueTrip.antt =====
-- Reading back the values that `write_amf0` of src/rtmfp/amf.go writes.
use go_rtmfp.Prelude.{
  some_inj, ℕ, ◌+◌, ◌*◌, ◌/◌, ◌%◌, ◌^◌, ◌<◌, ◌≤◌, ◌≡◌, refl, sym, ap, ◌∙◌, ◌⊎◌, inl, inr, false,
  some, List, [], ◌∷◌, ◌++◌, length, append_assoc, ltb, arith, ◌>>=◌, add64, mul64,
}
use go_rtmfp.Buffer.{read_u16, read_u32, write_u16, write_u32}
use go_rtmfp.Amf.Number.{
  read_bytes, write_amf3_u29, read_amf3_u29, read_amf3_bytearray, write_amf3_bytearray,
}
use go_rtmfp.Amf.NumberTrip.{read-write_small, read-write_large}
use go_rtmfp.Amf.Value.{read_amf0_number, write_amf0_number, read_amf0_string, write_amf0_string}

pub read-write_u32 : (v : ℕ) (r : List ℕ) → v < 2 ^ 32 → read_u32 (write_u32 v ++ r) ≡ (v, r)
unfolding read_u32 write_u32
read-write_u32 v r h = ap (λ (n : ℕ). (n, r)) (omega arith)

pub number_trip :
    (bits : ℕ) (r : List ℕ)
    → bits < 2 ^ 64
    → read_amf0_number (write_amf0_number bits ++ r) ≡ (bits, r)
unfolding read_amf0_number write_amf0_number
number_trip bits r h =
    let high = read-write_u32 (bits / 2 ^ 32) (write_u32 (bits % 2 ^ 32) ++ r) (omega arith) in
    let low = read-write_u32 (bits % 2 ^ 32) r (omega arith) in
    let long : ltb (length ((write_u32 (bits / 2 ^ 32) ++ write_u32 (bits % 2 ^ 32)) ++ r)) 8
        ≡ false =
      unfold write_u32 in ground arith in
    rw (long, append_assoc, high, low) (ap (λ (n : ℕ). (n, r)) (omega arith))

bytes_trip : (v r : List ℕ) → read_bytes (length v) (v ++ r) ≡ (v, r)
unfolding read_bytes
bytes_trip [] r = refl
bytes_trip (b ∷ v) r = rw (bytes_trip v r) refl

pub string_trip :
    (v r : List ℕ) → length v < 65536 → read_amf0_string (write_amf0_string v ++ r) ≡ (v, r)
unfolding read_amf0_string write_amf0_string read_u16 write_u16
string_trip v r h =
    let n : length v % 65536 / 256 % 256 * 256 + length v % 65536 % 256 ≡ length v = omega arith in
    rw n (bytes_trip v r)

-- The lengths of byte arrays whose 29-bit form is read back.
abbrev pub IsReadable : ℕ → Type 0
IsReadable n = (n < 0x100000) ⊎ ((0x200000 ≤ n) × (n < 0x10000000))

readable-bound : (n : ℕ) → IsReadable n → n < 0x10000000
readable-bound n (inl h) = omega arith
readable-bound n (inr (h, k)) = k

size_fits : (v : List ℕ) → IsReadable (length v) → add64 (mul64 (length v) 2) 1 ≡ length v * 2 + 1
unfolding add64 mul64
size_fits v h = omega (arith, readable-bound (length v) h)

length_total : (n : ℕ) → IsReadable n → (w : List ℕ) × (write_amf3_u29 (n * 2 + 1) ≡ some w)
length_total n (inl h) = let (w, e, k) = read-write_small (n * 2 + 1) [] (omega arith) in (w, e)
length_total n (inr (h, l)) =
    let (w, e, k) = read-write_large (n * 2 + 1) [] (omega arith) (omega arith) in (w, e)

length_trip :
    (n : ℕ) (w r : List ℕ)
    → IsReadable n
    → write_amf3_u29 (n * 2 + 1) ≡ some w
    → read_amf3_u29 (w ++ r) ≡ (n * 2 + 1, r)
length_trip n w r (inl h) e =
    let (w', e', k) = read-write_small (n * 2 + 1) r (omega arith) in
    ap (λ (l : List ℕ). read_amf3_u29 (l ++ r)) (some_inj (sym e ∙ e')) ∙ k
length_trip n w r (inr (h, l)) e =
    let (w', e', k) = read-write_large (n * 2 + 1) r (omega arith) (omega arith) in
    ap (λ (l : List ℕ). read_amf3_u29 (l ++ r)) (some_inj (sym e ∙ e')) ∙ k

pub bytearray_total :
    (v : List ℕ) → IsReadable (length v) → (w : List ℕ) × (write_amf3_bytearray v ≡ some w)
unfolding write_amf3_bytearray
bytearray_total v h =
    let (w, e) = length_total (length v) h in
    (w ++ v, ap (λ (n : ℕ). write_amf3_u29 n >>= λ l. some (l ++ v)) (size_fits v h) ∙ rw e refl)

pub bytearray_trip :
    (v w r : List ℕ)
    → IsReadable (length v)
    → write_amf3_bytearray v ≡ some w
    → read_amf3_bytearray (w ++ r) ≡ (v, r)
bytearray_trip v w r h e =
    let (l, k) = length_total (length v) h in
    let split : w ≡ l ++ v = some_inj (
      sym e
      ∙ unfold write_amf3_bytearray in
        (ap (λ (n : ℕ). write_amf3_u29 n >>= λ l'. some (l' ++ v)) (size_fits v h) ∙ rw k refl)) in
    let half : (length v * 2 + 1) / 2 ≡ length v = omega arith in
    let back = length_trip (length v) l (v ++ r) h k in
    rw (split, append_assoc) (unfold read_amf3_bytearray in rw (back, half) (bytes_trip v r))
