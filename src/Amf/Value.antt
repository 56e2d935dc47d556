-- ===== src/Amf/Value.antt =====
-- The values of src/rtmfp/amf.go and their AMF0 form. A `float64` is its 64 bits as a number, since it is only
-- moved; a Go string is its bytes; a map is the list of its entries in the order that `range` takes them.
use go_rtmfp.Prelude.{
  ℕ, zero, suc, ◌+◌, ◌*◌, ◌/◌, ◌%◌, ◌^◌, Bool, true, false, Option, none, some, List, [], ◌∷◌, ◌++◌,
  length, ltb, ◌==◌, ◌&&◌, if◌then◌else◌, ◌>>=◌,
}
use go_rtmfp.Buffer.{read_u8, read_u16, read_u32, write_u16, write_u32, next}
use go_rtmfp.Amf.Number.{read_bytes, read_amf3_bytearray, write_amf3_bytearray}

mutual
  pub data Value : Type 0 where
    number : (bits : ℕ) → Value
    boolean : Bool → Value
    text : List ℕ → Value
    object : Fields → Value
    null : Value
    bytearray : List ℕ → Value

  pub data Fields : Type 0 where
    done : Fields
    field : (key : List ℕ) → Value → Fields → Fields

-- `binary.Read` and `binary.Write` of a `float64`. With fewer than 8 bytes left the variable stays 0.
unfoldable pub read_amf0_number : List ℕ → ℕ × List ℕ
read_amf0_number r =
    if ltb (length r) 8
    then (0, [])
    else (let high = read_u32 r in let low = read_u32 high.1 in (high.0 * 2 ^ 32 + low.0, low.1))

unfoldable pub write_amf0_number : ℕ → List ℕ
write_amf0_number bits = write_u32 (bits / 2 ^ 32) ++ write_u32 (bits % 2 ^ 32)

unfoldable pub read_amf0_bool : List ℕ → Bool × List ℕ
read_amf0_bool r = let v = read_u8 r in (ltb 0 v.0, v.1)

unfoldable pub write_amf0_bool : Bool → List ℕ
write_amf0_bool v = (if v then 1 else 0) ∷ []

-- `r.Read(str_data)`: what the buffer does not have stays 0.
unfoldable pub read_amf0_string : List ℕ → List ℕ × List ℕ
read_amf0_string r = let n = read_u16 r in read_bytes n.0 n.1

unfoldable pub write_amf0_string : List ℕ → List ℕ
write_amf0_string v = write_u16 (length v % 65536) ++ v

-- The same with the type in front, which is a panic where it is another.
unfoldable pub read_amf0_type_number : List ℕ → Option (ℕ × List ℕ)
unfolding read_amf0_number
read_amf0_type_number r =
    let t = read_u8 r in if t.0 == 0x0 then some (read_amf0_number t.1) else none

unfoldable pub write_amf0_type_number : ℕ → List ℕ
unfolding write_amf0_number
write_amf0_type_number bits = 0x0 ∷ write_amf0_number bits

unfoldable pub read_amf0_type_string : List ℕ → Option (List ℕ × List ℕ)
unfolding read_amf0_string
read_amf0_type_string r =
    let t = read_u8 r in if t.0 == 0x2 then some (read_amf0_string t.1) else none

unfoldable pub write_amf0_type_string : List ℕ → List ℕ
unfolding write_amf0_string
write_amf0_type_string v = 0x2 ∷ write_amf0_string v

unfoldable pub write_amf0_type_null : List ℕ
write_amf0_type_null = 0x5 ∷ []

-- `read_amf3` knows byte arrays alone.
unfoldable pub read_amf3 : List ℕ → Option (Value × List ℕ)
read_amf3 r =
    let t = read_u8 r in
    let v = read_amf3_bytearray t.1 in if t.0 == 0x0c then some (bytearray v.0, v.1) else none

unfoldable pub write_amf3_value : List ℕ → Option (List ℕ)
write_amf3_value v = write_amf3_bytearray v >>= λ w. some (0x0c ∷ w)

-- `write_amf0` and the loop of `write_amf0_object`; `none` is the panic of a byte array of 2 ^ 28 bytes.
unfoldable mutual
  unfolding write_amf0_number write_amf0_bool write_amf0_string write_amf3_value

  pub write_amf0 : Value → Option (List ℕ)
  write_amf0 (number bits) = some (0x0 ∷ write_amf0_number bits)
  write_amf0 (boolean v) = some (0x1 ∷ write_amf0_bool v)
  write_amf0 (text v) = some (0x2 ∷ write_amf0_string v)
  write_amf0 (object fs) = write_amf0_object fs >>= λ w. some (0x3 ∷ w)
  write_amf0 null = some (0x5 ∷ [])
  write_amf0 (bytearray v) = write_amf3_value v >>= λ w. some (0x11 ∷ w)

  pub write_amf0_object : Fields → Option (List ℕ)
  write_amf0_object done = some (write_amf0_string [] ++ 0x09 ∷ [])
  write_amf0_object (field key v fs) =
      write_amf0 v >>= λ w. write_amf0_object fs >>= λ ws. some (write_amf0_string key ++ (w ++ ws))

abbrev pub same_key : List ℕ → List ℕ → Bool
same_key [] [] = true
same_key [] (b ∷ r) = false
same_key (a ∷ q) [] = false
same_key (a ∷ q) (b ∷ r) = a == b && same_key q r

-- `obj[key] = v`: in place of the entry of that key, or a new one.
unfoldable pub put : List ℕ → Value → Fields → Fields
put key v done = field key v done
put key v (field k w fs) = if same_key k key then field k v fs else field k w (put key v fs)

-- `read_amf0` and the loop of `read_amf0_object` on fuel: a value takes a byte, unless the buffer is at its end,
-- where it is the number 0, and a round of the loop takes two for the key. `none` is a panic.
unfoldable mutual
  unfolding read_amf0_number read_amf0_bool read_amf0_string read_amf3 put

  pub read_value : ℕ → List ℕ → Option (Value × List ℕ)
  read_value zero r = none
  read_value (suc fuel) r =
      let t = read_u8 r in
      let obj = read_fields fuel done t.1 in
      if t.0 == 0x0
      then some (let v = read_amf0_number t.1 in (number v.0, v.1))
      else if t.0 == 0x1
      then some (let v = read_amf0_bool t.1 in (boolean v.0, v.1))
      else if t.0 == 0x2
      then some (let v = read_amf0_string t.1 in (text v.0, v.1))
      else if t.0 == 0x3
      then (obj >>= λ o. some (object o.0, o.1))
      else if t.0 == 0x5
      then some (null, t.1)
      else if t.0 == 0x6
      then some (null, t.1)
      else if t.0 == 0x11
      then read_amf3 t.1
      else none

  pub read_fields : ℕ → Fields → List ℕ → Option (Fields × List ℕ)
  read_fields zero obj r = none
  read_fields (suc fuel) obj [] = none
  read_fields (suc fuel) obj (b ∷ r) =
      let key = read_amf0_string (b ∷ r) in
      let rest = read_value fuel key.1 >>= λ v. read_fields fuel (put key.0 v.0 obj) v.1 in
      if b == 0x09
      then some (obj, r)
      else if length key.0 == 0
      then some (obj, next 1 key.1)
      else rest

unfoldable pub read_amf0 : List ℕ → Option (Value × List ℕ)
unfolding read_value
read_amf0 r = read_value (suc (length r)) r
