-- ===== src/Base64.antt =====
-- mcl_core/src/base64.c. A buffer is the list of the bytes written to it, a pointer that moves
-- through a buffer is the rest of the list, and the answer of `MCL_MALLOC` is the argument
-- `allocated`. Sizes are below `MCL_SIZE_MAX`, since they count bytes in memory.
pub mod Tables
pub mod Groups
pub mod Codec
pub mod Quantum
pub mod Padding
pub mod RoundTrip
pub mod Alphabet
mod Tests
use mathlib.Core.Bool.{not}
use mindconnect_lib.Base.{
  ℕ, zero, suc, ◌+◌, ◌-◌, ◌*◌, ◌/◌, ◌%◌, bit_and, bit_or, Bool, ◌&&◌, true, false, List, [], ◌∷◌,
  ◌++◌, ltb, ◌==◌, if◌then◌else◌, none, some, length, get_or, drop,
}
use mindconnect_lib.Base.Bits.{shl, shr, u8, u32}
use mindconnect_lib.Base.Code.{
  Result, ok, err, ◌>>=◌, ◌>>◌, assert, bad_content_encoding, out_of_memory,
}
use mindconnect_lib.StringUtil.{CString, mcl_string_util_strlen}
use Tables.{
  base64_encode_table, base64_url_encode_table, base64_decode_table, base64_url_decode_table,
}

abbrev pub padding_char : ℕ
padding_char = b'='

abbrev pub quantum_size : ℕ
quantum_size = 4

abbrev pub input_group_size : ℕ
input_group_size = 3

abbrev pub max_padding_char_count : ℕ
max_padding_char_count = 2

-- The inner loops of `_encode_with_table`: `index` runs down, so each character goes in front.
pub write_quantum : List ℕ → ℕ → ℕ → List ℕ → List ℕ
write_quantum table zero input out = out
write_quantum table (suc index) input out =
    write_quantum table index (shr input 6) (get_or table (bit_and input 0x3f) 0 ∷ out)

pub write_last : List ℕ → ℕ → ℕ → ℕ → List ℕ → List ℕ
write_last table remainder zero input out = out
write_last table remainder (suc index) input out =
    write_last table remainder index (shr input 6)
      ((if ltb remainder index then padding_char else get_or table (bit_and input 0x3f) 0) ∷ out)

-- The group of three bytes at the position, as one number.
pub group_input : List ℕ → ℕ
group_input bytes =
    bit_or (bit_or (u32 (shl (get_or bytes 0 0) 16)) (u32 (shl (get_or bytes 1 0) 8)))
      (get_or bytes 2 0)

pub last_input : ℕ → List ℕ → ℕ
last_input remainder bytes =
    let input = u32 (shl (get_or bytes 0 0) 16) in
    if ltb 1 remainder then bit_or input (u32 (shl (get_or bytes 1 0) 8)) else input

pub encode_remainder : List ℕ → ℕ → List ℕ → List ℕ
encode_remainder table remainder bytes =
    if remainder == 0
    then []
    else write_last table remainder quantum_size (last_input remainder bytes) []

-- The loop over `iteration`, with the rounds left, and what follows it.
pub encode_loop : List ℕ → ℕ → ℕ → List ℕ → List ℕ
encode_loop table zero remainder bytes = encode_remainder table remainder bytes
encode_loop table (suc iterations) remainder bytes =
    write_quantum table quantum_size (group_input bytes) []
    ++ encode_loop table iterations remainder (drop 3 bytes)

-- What `_encode_with_table` asks `MCL_MALLOC` for, the terminator included.
pub encode_buffer_size : ℕ → ℕ
encode_buffer_size data_size =
    let base = data_size / input_group_size * quantum_size + 1 in
    if data_size % input_group_size == 0 then base else base + quantum_size

pub encode_with_table : Bool → List ℕ → List ℕ → Result (List ℕ)
encode_with_table allocated table bytes = do
  assert allocated out_of_memory
  ok (encode_loop table (length bytes / input_group_size) (length bytes % input_group_size) bytes)

pub base64_encode : Bool → List ℕ → Result (List ℕ)
base64_encode allocated bytes = encode_with_table allocated base64_encode_table bytes

pub base64_url_encode : Bool → List ℕ → Result (List ℕ)
base64_url_encode allocated bytes = encode_with_table allocated base64_url_encode_table bytes

-- One character of a quantum: the bits so far and the count of padding characters.
pub compose_step : List ℕ → ℕ → ℕ → ℕ → Result (ℕ × ℕ)
compose_step table current_char bits padding_count =
    if current_char == padding_char
    then (if ltb max_padding_char_count (padding_count + 1)
        then err bad_content_encoding
        else ok (u32 (shl bits 6), padding_count + 1))
    else (let table_index = get_or table current_char 0xff in
        if table_index == 0xff
        then err bad_content_encoding
        else ok (u32 (u32 (shl bits 6) + table_index), padding_count))

pub compose : List ℕ → ℕ → List ℕ → ℕ → ℕ → Result (ℕ × ℕ)
compose table zero source bits padding_count = ok (bits, padding_count)
compose table (suc left) source bits padding_count = do
  (bits', padding_count') ← compose_step table (get_or source 0 0) bits padding_count
  compose table left (drop 1 source) bits' padding_count'

-- The bytes of a composed quantum: `index` runs down, and padding leaves out the last ones.
pub write_bytes : ℕ → ℕ → ℕ → List ℕ → List ℕ
write_bytes padding_count zero bits out = out
write_bytes padding_count (suc index) bits out =
    write_bytes padding_count index (shr bits 8)
      (if ltb (padding_count + index) input_group_size then bit_and (u8 bits) 0xff ∷ out else out)

pub decode_quantum : List ℕ → List ℕ → Result (List ℕ)
decode_quantum table source = do
  (bits, padding_count) ← compose table quantum_size source 0 0
  ok (write_bytes padding_count input_group_size bits [])

-- The next quantum is written three bytes further on, which is behind the bytes written so far:
-- only the last quantum of a text that passed the checks has padding.
pub decode_quantums : List ℕ → ℕ → List ℕ → Result (List ℕ)
decode_quantums table zero source = ok []
decode_quantums table (suc quantums) source = do
  bytes ← decode_quantum table source
  rest ← decode_quantums table quantums (drop quantum_size source)
  ok (bytes ++ rest)

-- The padding characters from `index` down; the one at index 0 is not looked at.
pub count_padding : List ℕ → ℕ → ℕ → Result ℕ
count_padding source zero padding_count = ok padding_count
count_padding source (suc index) padding_count =
    let rest =
      if ltb max_padding_char_count (padding_count + 1)
      then err bad_content_encoding
      else count_padding source index (padding_count + 1) in
    if get_or source (suc index) 0 == padding_char then rest else ok padding_count

-- Is there a padding character among the first ones?
pub has_padding : ℕ → List ℕ → Bool
has_padding zero source = false
has_padding (suc left) source =
    if get_or source 0 0 == padding_char then true else has_padding left (drop 1 source)

pub record Decoded : Type 0 where
  pub bytes : List ℕ
  pub size : ℕ

pub decode_text : Bool → List ℕ → List ℕ → Result Decoded
decode_text allocated table text = do
  padding_count ← count_padding text (length text - 1) 0
  assert (not (has_padding (length text - (1 + padding_count)) text)) bad_content_encoding
  let size = length text / quantum_size * input_group_size - padding_count
  assert allocated out_of_memory
  bytes ← decode_quantums table (length text / quantum_size) text
  ok (record { bytes = bytes; size = size })

pub decode_with_table : Bool → List ℕ → CString → Result Decoded
decode_with_table allocated table encoded = do
  let encoded_length = mcl_string_util_strlen encoded
  assert (ltb 0 encoded_length && (encoded_length % quantum_size == 0)) bad_content_encoding
  elim encoded [ none ↦ err bad_content_encoding | some text ↦ decode_text allocated table text ]

pub base64_decode : Bool → CString → Result Decoded
base64_decode allocated encoded = decode_with_table allocated base64_decode_table encoded

pub base64_url_decode : Bool → CString → Result Decoded
base64_url_decode allocated encoded = decode_with_table allocated base64_url_decode_table encoded
