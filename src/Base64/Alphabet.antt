-- ===== src/Base64/Alphabet.antt =====
-- The characters of the texts that mcl_core/src/base64.c writes.
use native.Mathlib.Omega.{arith}
use mindconnect_lib.Base.{
  ℕ, zero, suc, ◌/◌, ◌%◌, ◌==◌, ◌≡◌, refl, Bool, true, false, if◌then◌else◌, ltb, List, [], ◌∷◌,
  length, drop, get_or, All, All-append, bit_and,
}
use mindconnect_lib.Base.Bits.{shr}
use mindconnect_lib.Base.Code.{ok}
use mindconnect_lib.Base64.{
  padding_char, quantum_size, input_group_size, write_quantum, write_last, group_input, last_input,
  encode_remainder, encode_loop, base64_url_encode, encode_with_table,
}
use mindconnect_lib.Base64.Tables.{base64_url_encode_table}

abbrev pub HasNoDot : List ℕ → Type 0
HasNoDot = All (λ c. (c == b'.') ≡ false)

get_or-HasNoDot : (table : List ℕ) (i : ℕ) → HasNoDot table → (get_or table i 0 == b'.') ≡ false
get_or-HasNoDot [] i h = refl
get_or-HasNoDot (x ∷ table) zero h = h.0
get_or-HasNoDot (x ∷ table) (suc i) h = get_or-HasNoDot table i h.1

module _ (table : List ℕ) (plain : HasNoDot table) where
  write_quantum-HasNoDot :
      (index input : ℕ) (out : List ℕ)
      → HasNoDot out
      → HasNoDot (write_quantum table index input out)
  unfolding write_quantum
  write_quantum-HasNoDot zero input out h = h
  write_quantum-HasNoDot (suc index) input out h =
      write_quantum-HasNoDot index (shr input 6) _
        (get_or-HasNoDot table (bit_and input 0x3f) plain, h)

  last_char-HasNoDot :
      (b : Bool) (i : ℕ) → ((if b then padding_char else get_or table i 0) == b'.') ≡ false
  last_char-HasNoDot true i = refl
  last_char-HasNoDot false i = get_or-HasNoDot table i plain

  write_last-HasNoDot :
      (remainder index input : ℕ) (out : List ℕ)
      → HasNoDot out
      → HasNoDot (write_last table remainder index input out)
  unfolding write_last
  write_last-HasNoDot remainder zero input out h = h
  write_last-HasNoDot remainder (suc index) input out h =
      write_last-HasNoDot remainder index (shr input 6) _
        (last_char-HasNoDot (ltb remainder index) (bit_and input 0x3f), h)

  remainder-HasNoDot :
      (none_left : Bool) (text : List ℕ) → HasNoDot text → HasNoDot (if none_left then [] else text)
  remainder-HasNoDot true text h = tt
  remainder-HasNoDot false text h = h

  encode_loop-HasNoDot :
      (iterations remainder : ℕ) (bytes : List ℕ)
      → HasNoDot (encode_loop table iterations remainder bytes)
  unfolding encode_loop encode_remainder
  encode_loop-HasNoDot zero remainder bytes =
      remainder-HasNoDot (remainder == 0) _
        (write_last-HasNoDot remainder quantum_size (last_input remainder bytes) [] tt)
  encode_loop-HasNoDot (suc iterations) remainder bytes =
      All-append (λ c. (c == b'.') ≡ false) _ _
        (write_quantum-HasNoDot quantum_size (group_input bytes) [] tt)
        (encode_loop-HasNoDot iterations remainder (drop 3 bytes))

-- The text that `base64_url_encode` writes where there is memory for it.
abbrev pub base64_url_text : List ℕ → List ℕ
base64_url_text bytes =
    encode_loop base64_url_encode_table (length bytes / input_group_size)
      (length bytes % input_group_size) bytes

pub base64_url_encode-base64_url_text :
    (bytes : List ℕ) → base64_url_encode true bytes ≡ ok (base64_url_text bytes)
unfolding base64_url_encode encode_with_table
base64_url_encode-base64_url_text bytes = refl

-- A test by evaluation.
abbrev has_dot : List ℕ → Bool
has_dot [] = false
has_dot (c ∷ text) = if c == b'.' then true else has_dot text

has_dot_sound : (text : List ℕ) → has_dot text ≡ false → HasNoDot text
has_dot_sound [] h = tt
has_dot_sound (c ∷ text) h = ground (arith, has_dot_sound text)

table-HasNoDot : HasNoDot base64_url_encode_table
table-HasNoDot = has_dot_sound base64_url_encode_table refl

pub base64_url_text-HasNoDot : (bytes : List ℕ) → HasNoDot (base64_url_text bytes)
base64_url_text-HasNoDot bytes =
    encode_loop-HasNoDot base64_url_encode_table table-HasNoDot (length bytes / input_group_size)
      (length bytes % input_group_size) bytes
