-- ===== src/Chunk/Options.antt =====
-- Options, endpoint discriminators and addresses of src/rtmfp/base.go.
use go_rtmfp.Prelude.{
  ℕ, zero, suc, ◌-◌, List, [], ◌∷◌, ◌++◌, Option, none, some, leb, ◌==◌, if◌then◌else◌, ◌>>=◌,
  length, take, replicate, bit_and, sub64,
}
use go_rtmfp.Vlu.{encode_vlu, decode_vlu}
use go_rtmfp.Buffer.{read_u8, read_u16, slice, next, next_int, take_field}
use go_rtmfp.Chunk.{Runtime}

-- `data := make([]byte, len); r.Read(data)`: what the buffer does not have stays 0.
unfoldable pub read_data : ℕ → List ℕ → List ℕ
read_data n r = take n r ++ replicate (n - length r) 0

-- `read_options`, on fuel: a round with bytes left takes at least one of them.
unfoldable pub options_loop : Runtime → ℕ → List ℕ → List ℕ → Option (List ℕ × List ℕ)
unfolding read_data
options_loop env zero out r = none
options_loop env (suc fuel) out r =
    let n = decode_vlu r in
    let out' = out ++ encode_vlu n.0 in
    let rest = options_loop env fuel (out' ++ read_data n.0 n.1) (next n.0 n.1) in
    if n.0 == 0 then some (out', n.1) else if leb env.max_alloc n.0 then none else rest

unfoldable pub read_options : Runtime → List ℕ → Option (List ℕ × List ℕ)
unfolding options_loop
read_options env r = options_loop env (suc (length r)) [] r

-- `read_option`: the first option of a type, `some none` where there is none.
unfoldable pub option_loop : List ℕ → ℕ → ℕ → List ℕ → Option (Option (List ℕ))
unfolding next_int
option_loop beyond opt_type zero r = some none
option_loop beyond opt_type (suc fuel) [] = some none
option_loop beyond opt_type (suc fuel) (b ∷ r) =
    let n = decode_vlu (b ∷ r) in
    let this = read_u8 n.1 in
    let rest = next_int (sub64 n.0 1) this.1 >>= option_loop beyond opt_type fuel in
    if opt_type == this.0
    then slice beyond this.1 (sub64 n.0 1) >>= (λ found. some (some found))
    else rest

unfoldable pub read_option : List ℕ → List ℕ → ℕ → Option (Option (List ℕ))
unfolding option_loop
read_option beyond buf opt_type = option_loop beyond opt_type (length buf) buf

-- `read_vlu_option`
unfoldable pub vlu_option_loop : ℕ → ℕ → ℕ → List ℕ → Option ℕ
unfolding next_int
vlu_option_loop opt_type default_value zero r = some default_value
vlu_option_loop opt_type default_value (suc fuel) [] = some default_value
vlu_option_loop opt_type default_value (suc fuel) (b ∷ r) =
    let n = decode_vlu (b ∷ r) in
    let this = read_u8 n.1 in
    let rest = next_int (sub64 n.0 1) this.1 >>= vlu_option_loop opt_type default_value fuel in
    if opt_type == this.0 then some (decode_vlu this.1).0 else rest

unfoldable pub read_vlu_option : List ℕ → ℕ → ℕ → Option ℕ
unfolding vlu_option_loop
read_vlu_option buf opt_type default_value = vlu_option_loop opt_type default_value (length buf) buf

-- The type, the data and what is left. The length of the whole is read and not used.
unfoldable pub decode_endpoint_discriminator : List ℕ → List ℕ → Option (ℕ × List ℕ × List ℕ)
unfolding take_field
decode_endpoint_discriminator beyond r =
    let edp_length = decode_vlu (decode_vlu r).1 in
    let edp_type = read_u8 edp_length.1 in
    take_field beyond (sub64 edp_length.0 1) edp_type.1
    >>= (λ field. some (edp_type.0, field.0, field.1))

-- The string of an address, of 4 or 16 bytes by the top bit of its flag.
unfoldable pub decode_address : Runtime → List ℕ → List ℕ → Option (List ℕ × List ℕ)
unfolding take_field
decode_address env beyond r =
    let flag = read_u8 r in
    take_field beyond (if bit_and flag.0 0x80 == 0 then 4 else 16) flag.1
    >>= (λ field. let port = read_u16 field.1 in some (env.addr_string field.0 port.0, port.1))

unfoldable pub addresses_loop : Runtime → List ℕ → ℕ → List ℕ → Option (List (List ℕ))
unfolding decode_address
addresses_loop env beyond zero r = some []
addresses_loop env beyond (suc fuel) [] = some []
addresses_loop env beyond (suc fuel) (b ∷ r) =
    decode_address env beyond (b ∷ r)
    >>= (λ a. addresses_loop env beyond fuel a.1 >>= (λ rest. some (a.0 ∷ rest)))
