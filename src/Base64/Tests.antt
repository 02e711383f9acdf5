-- ===== src/Base64/Tests.antt =====
-- Runs of base64.c, and its theorems at concrete inputs.
use mindconnect_lib.Base.{◌≡◌, refl, List, [], ◌∷◌, ℕ, some, arith, true}
use mindconnect_lib.Base.Code.{ok, err, ◌>>=◌, bad_content_encoding}
use mindconnect_lib.StringUtil.{mcl_string_util_strlen, string_util_strlen}
use mindconnect_lib.Base64.{
  write_quantum, write_last, group_input, last_input, encode_remainder, encode_loop,
  encode_with_table, base64_encode, base64_url_encode, compose_step, compose, write_bytes,
  decode_quantum, decode_quantums, count_padding, has_padding, decode_text, decode_with_table,
  base64_decode, base64_url_decode,
}
use mindconnect_lib.Base64.Tables.{base64_encode_table}
use mindconnect_lib.Base64.Groups.{encode_groups, encode_loop-encode_groups}
use mindconnect_lib.Base64.RoundTrip.{
  base64_decode-base64_encode, base64_url_decode-base64_url_encode,
}

abbrev five_bytes : List ℕ
five_bytes = 104 ∷ 0 ∷ 255 ∷ 108 ∷ 254 ∷ []

-- "hell" is written "aGVsbA==".
encode_hell :
    base64_encode true (104 ∷ 101 ∷ 108 ∷ 108 ∷ [])
    ≡ ok (97 ∷ 71 ∷ 86 ∷ 115 ∷ 98 ∷ 65 ∷ 61 ∷ 61 ∷ [])
unfolding base64_encode encode_with_table encode_loop write_quantum group_input encode_remainder
    write_last last_input
encode_hell = refl

-- An empty text is refused, and so is "A=AA".
decode_refused :
    (base64_decode true (some []) ≡ err bad_content_encoding)
    × (base64_decode true (some (65 ∷ 61 ∷ 65 ∷ 65 ∷ [])) ≡ err bad_content_encoding)
unfolding base64_decode decode_with_table mcl_string_util_strlen string_util_strlen decode_text
    count_padding has_padding decode_quantums decode_quantum compose compose_step write_bytes
decode_refused = (refl, refl)

base64_decode-base64_encode_example :
    (base64_encode true five_bytes >>= λ text. base64_decode true (some text))
    ≡ ok (record { bytes = five_bytes; size = 5 })
base64_decode-base64_encode_example =
    base64_decode-base64_encode five_bytes (omega arith) (omega arith)

base64_url_decode-base64_url_encode_example :
    (base64_url_encode true five_bytes >>= λ text. base64_url_decode true (some text))
    ≡ ok (record { bytes = five_bytes; size = 5 })
base64_url_decode-base64_url_encode_example =
    base64_url_decode-base64_url_encode five_bytes (omega arith) (omega arith)

encode_loop-encode_groups_example :
    encode_loop base64_encode_table 1 2 five_bytes ≡ encode_groups base64_encode_table five_bytes
encode_loop-encode_groups_example =
    encode_loop-encode_groups base64_encode_table five_bytes (omega arith)
