-- ===== src/Amf/ObjectTrip.antt =====
-- Reading back nested values of src/rtmfp/amf.go.
use go_rtmfp.Prelude.{
  some_inj, ℕ, zero, suc, ◌+◌, ◌/◌, ◌%◌, ◌^◌, ◌<◌, ◌≤◌, ◌≡◌, ◌≢◌, refl, sym, ap, ◌∙◌, Bool, true,
  false, ◌||◌, some, List, [], ◌∷◌, ◌++◌, length, length-append, append_assoc, ◌==◌, arith, ◌>>=◌,
}
use go_rtmfp.Buffer.{read_u8, read_u16, write_u16, next}
use go_rtmfp.Amf.Number.{read_bytes}
use go_rtmfp.Amf.Value.{
  Value, number, boolean, text, object, null, bytearray, Fields, done, field, read_amf0_bool,
  write_amf0_bool, read_amf0_string, write_amf0_string, read_amf3, write_amf3_value, write_amf0,
  write_amf0_object, same_key, put, read_value, read_fields, read_amf0,
}
use go_rtmfp.Amf.ValueTrip.{number_trip, string_trip, IsReadable, bytearray_total, bytearray_trip}

abbrev pub has_key : List ℕ → Fields → Bool
has_key key done = false
has_key key (field k v fs) = same_key k key || has_key key fs

abbrev pub snoc : List ℕ → Value → Fields → Fields
snoc key v done = field key v done
snoc key v (field k w fs) = field k w (snoc key v fs)

-- No key of the fields stands in `obj` or twice.
abbrev pub IsApart : Fields → Fields → Type 0
IsApart obj done = Unit {0}
IsApart obj (field k v fs) = (has_key k obj ≡ false) × IsApart (snoc k v obj) fs

-- A key that the reader does not take for an end: it is not empty, and the high byte of its length is not
-- the mark 9.
abbrev pub IsKey : List ℕ → Type 0
IsKey k = (0 < length k) × (length k < 65536) × (length k / 256 ≢ 9)

-- Values whose parts fit their encodings.
unfoldable mutual
  pub IsPlain : Value → Type 0
  IsPlain (number bits) = bits < 2 ^ 64
  IsPlain (boolean v) = Unit {0}
  IsPlain (text v) = length v < 65536
  IsPlain (object fs) = ArePlain fs × IsApart done fs
  IsPlain null = Unit {0}
  IsPlain (bytearray v) = IsReadable (length v)

  pub ArePlain : Fields → Type 0
  ArePlain done = Unit {0}
  ArePlain (field k v fs) = IsKey k × IsPlain v × ArePlain fs

abbrev join : Fields → Fields → Fields
join obj done = obj
join obj (field k v fs) = join (snoc k v obj) fs

put-snoc :
    (key : List ℕ) (v : Value) (obj : Fields)
    → has_key key obj ≡ false
    → put key v obj ≡ snoc key v obj
unfolding put
put-snoc key v done h = refl
put-snoc key v (field k w fs) h = ground (arith, put-snoc key v fs)

abbrev after : Fields → Fields → Fields
after done fs = fs
after (field k v obj) fs = field k v (after obj fs)

after-snoc :
    (k : List ℕ) (v : Value) (obj fs : Fields) → after (snoc k v obj) fs ≡ after obj (field k v fs)
after-snoc k v done fs = refl
after-snoc k v (field k' w obj) fs = ap (field k' w) (after-snoc k v obj fs)

after-done : (obj : Fields) → after obj done ≡ obj
after-done done = refl
after-done (field k v obj) = ap (field k v) (after-done obj)

join-after : (obj fs : Fields) → join obj fs ≡ after obj fs
join-after obj done = sym (after-done obj)
join-after obj (field k v fs) = join-after (snoc k v obj) fs ∙ after-snoc k v obj fs

-- Everything plain is written.
mutual
  unfolding IsPlain write_amf0 write_amf3_value

  write_total : (v : Value) → IsPlain v → (w : List ℕ) × (write_amf0 v ≡ some w)
  write_total (number bits) h = (_, refl)
  write_total (boolean b) h = (_, refl)
  write_total (text s) h = (_, refl)
  write_total (object fs) (h, a) = let (w, e) = fields_total fs h in (0x3 ∷ w, rw e refl)
  write_total null h = (_, refl)
  write_total (bytearray b) h = let (w, e) = bytearray_total b h in (0x11 ∷ 0x0c ∷ w, rw e refl)

  fields_total : (fs : Fields) → ArePlain fs → (w : List ℕ) × (write_amf0_object fs ≡ some w)
  fields_total done h = (_, refl)
  fields_total (field k v fs) (hk, hv, h) =
      let (w, e) = write_total v hv in
      let (ws, es) = fields_total fs h in (write_amf0_string k ++ (w ++ ws), rw (e, es) refl)

object_bytes :
    (fs : Fields) (w : List ℕ)
    → ArePlain fs
    → write_amf0 (object fs) ≡ some w
    → (ws : List ℕ) × (write_amf0_object fs ≡ some ws) × (w ≡ 0x3 ∷ ws)
object_bytes fs w h e =
    let (ws, k) = fields_total fs h in (ws, k, some_inj (sym e ∙ unfold write_amf0 in rw k refl))

field_bytes :
    (k : List ℕ) (v : Value) (fs : Fields) (w : List ℕ)
    → IsPlain v
    → ArePlain fs
    → write_amf0_object (field k v fs) ≡ some w
    → (wv : List ℕ) × (ws : List ℕ) × (write_amf0 v ≡ some wv)
      × (write_amf0_object fs ≡ some ws)
      × (w ≡ write_amf0_string k ++ (wv ++ ws))
field_bytes k v fs w hv h e =
    let (wv, a) = write_total v hv in
    let (ws, b) = fields_total fs h in
    (wv, ws, a, b, some_inj (sym e ∙ unfold write_amf0 in rw (a, b) refl))

-- One round of the object loop.
field_round :
    (fuel : ℕ) (obj : Fields) (k l : List ℕ)
    → IsKey k
    → read_fields (suc fuel) obj (write_amf0_string k ++ l)
      ≡ (read_value fuel l >>= λ v. read_fields fuel (put k v.0 obj) v.1)
field_round fuel obj k l (pos, small, mark) =
    let high = length k % 65536 / 256 % 256 in
    let low = length k % 65536 % 256 in
    let key : read_amf0_string (high ∷ low ∷ (k ++ l)) ≡ (k, l) =
      unfold write_amf0_string write_u16 in string_trip k l small in
    let open_obj : (high == 0x09) ≡ false = ground arith in
    let named : (length k == 0) ≡ false = ground arith in
    unfold write_amf0_string write_u16 read_value in rw (key, open_obj, named) refl

fields_positive :
    (fs : Fields) (w : List ℕ) → ArePlain fs → write_amf0_object fs ≡ some w → 2 ≤ length w
unfolding ArePlain
fields_positive done w h e =
    let k : w ≡ 0 ∷ 0 ∷ 0x09 ∷ [] =
      some_inj (sym e ∙ unfold write_amf0 write_amf0_string write_u16 in refl) in
    rw k (omega arith)
fields_positive (field k v fs) w (hk, hv, h) e =
    let (wv, ws, a, b, split) = field_bytes k v fs w hv h e in
    rw split (unfold write_amf0_string write_u16 in omega arith)

abbrev is_object : Value → Bool
is_object (object fs) = true
is_object _ = false

-- A value that is not an object, on any fuel.
flat_trip :
    (v : Value) (fuel : ℕ) (w r : List ℕ)
    → is_object v ≡ false
    → IsPlain v
    → write_amf0 v ≡ some w
    → read_value (suc fuel) (w ++ r) ≡ some (v, r)
unfolding read_value write_amf0 IsPlain read_u8 read_amf3 write_amf3_value read_amf0_bool
    write_amf0_bool
flat_trip (number bits) fuel w r o h e = rw (sym (some_inj e)) (rw (number_trip bits r h) refl)
flat_trip (boolean true) fuel w r o h e = rw (sym (some_inj e)) refl
flat_trip (boolean false) fuel w r o h e = rw (sym (some_inj e)) refl
flat_trip (text s) fuel w r o h e = rw (sym (some_inj e)) (rw (string_trip s r h) refl)
flat_trip (object fs) fuel w r o h e = cc
flat_trip null fuel w r o h e = rw (sym (some_inj e)) refl
flat_trip (bytearray b) fuel w r o h e =
    let (l, k) = bytearray_total b h in
    let split : w ≡ 0x11 ∷ 0x0c ∷ l = some_inj (sym e ∙ rw k refl) in
    rw split (rw (bytearray_trip b l r h k) refl)

object_step :
    (fs : Fields) (fuel : ℕ) (w ws r : List ℕ)
    → w ≡ 0x3 ∷ ws
    → read_fields fuel done (ws ++ r) ≡ some (join done fs, r)
    → read_value (suc fuel) (w ++ r) ≡ some (object fs, r)
object_step fs fuel w ws r split back =
    rw split
      (unfold read_value read_u8 in (rw back (ap (λ o. some (object o, r)) (join-after done fs))))

done_step :
    (obj : Fields) (fuel : ℕ) (w r : List ℕ)
    → write_amf0_object done ≡ some w
    → read_fields (suc fuel) obj (w ++ r) ≡ some (obj, r)
unfolding write_amf0 write_amf0_string write_u16 read_value read_amf0_string read_u16 read_bytes
    next
done_step obj fuel w r e = rw (sym (some_inj e)) refl

field_size :
    (k wv ws : List ℕ)
    → length (write_amf0_string k ++ (wv ++ ws)) ≡ 2 + length k + (length wv + length ws)
unfolding write_amf0_string write_u16
field_size k wv ws = omega (arith, length-append k (wv ++ ws), length-append wv ws)

field_step :
    (k : List ℕ) (v : Value) (fs obj : Fields) (fuel : ℕ) (w wv ws r : List ℕ)
    → IsKey k
    → has_key k obj ≡ false
    → w ≡ write_amf0_string k ++ (wv ++ ws)
    → read_value fuel (wv ++ (ws ++ r)) ≡ some (v, ws ++ r)
    → read_fields fuel (snoc k v obj) (ws ++ r) ≡ some (join (snoc k v obj) fs, r)
    → read_fields (suc fuel) obj (w ++ r) ≡ some (join obj (field k v fs), r)
field_step k v fs obj fuel w wv ws r hk new split one more =
    rw (split, append_assoc (write_amf0_string k) (wv ++ ws) r, append_assoc wv ws r)
      (field_round fuel obj k (wv ++ (ws ++ r)) hk ∙ rw (one, put-snoc k v obj new) more)

mutual
  unfolding IsPlain

  value_trip :
      (v : Value) (fuel : ℕ) (w r : List ℕ)
      → IsPlain v
      → write_amf0 v ≡ some w
      → length w ≤ suc fuel
      → read_value (suc fuel) (w ++ r) ≡ some (v, r)
  value_trip (number bits) fuel w r h e l = flat_trip (number bits) fuel w r refl h e
  value_trip (boolean b) fuel w r h e l = flat_trip (boolean b) fuel w r refl h e
  value_trip (text s) fuel w r h e l = flat_trip (text s) fuel w r refl h e
  value_trip null fuel w r h e l = flat_trip null fuel w r refl h e
  value_trip (bytearray b) fuel w r h e l = flat_trip (bytearray b) fuel w r refl h e
  value_trip (object fs) fuel w r (h, a) e l =
      let (ws, k, split) = object_bytes fs w h e in
      let back = fields_trip fs done fuel ws r h a k (omega (arith, ap length split)) in
      object_step fs fuel w ws r split back

  fields_trip :
      (fs obj : Fields) (fuel : ℕ) (w r : List ℕ)
      → ArePlain fs
      → IsApart obj fs
      → write_amf0_object fs ≡ some w
      → length w ≤ fuel
      → read_fields fuel obj (w ++ r) ≡ some (join obj fs, r)
  fields_trip fs obj zero w r h a e l = absurd (omega (arith, fields_positive fs w h e))
  fields_trip done obj (suc fuel) w r h a e l = done_step obj fuel w r e
  fields_trip (field k v fs) obj (suc zero) w r (hk, hv, h) (new, a) e l =
      absurd (omega (arith, fields_positive (field k v fs) w (hk, hv, h) e))
  fields_trip (field k v fs) obj (suc (suc fuel)) w r (hk, hv, h) (new, a) e l =
      let (wv, ws, p, q, split) = field_bytes k v fs w hv h e in
      let long = ap length split in
      let size = field_size k wv ws in
      field_step k v fs obj (suc fuel) w wv ws r hk new split
        (value_trip v fuel wv (ws ++ r) hv p (omega arith))
        (fields_trip fs (snoc k v obj) (suc fuel) ws r h a q (omega arith))

-- A value is read back as it was written, at any depth, and what follows it is left. The numbers are of 64 bits,
-- the texts shorter than 65536 bytes, the byte arrays of lengths whose 29-bit form is read back, and the keys
-- of an object differ, are not empty, and have no length from 2304 to 2559. The fuel of the reader, one more than the
-- bytes, is enough.
pub read_amf0-write_amf0 :
    (v : Value) (r : List ℕ)
    → IsPlain v
    → (w : List ℕ) × (write_amf0 v ≡ some w) × (read_amf0 (w ++ r) ≡ some (v, r))
unfolding read_amf0
read_amf0-write_amf0 v r h =
    let (w, e) = write_total v h in
    (w, e, value_trip v (length (w ++ r)) w r h e (omega (arith, length-append w r)))
