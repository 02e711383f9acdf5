-- ===== src/Base64/Codec.antt =====
-- What base64.c needs of a pair of tables, and that both of its pairs have it.
use mindconnect_lib.Base.{
  ℕ, zero, suc, ◌<◌, ◌≡◌, refl, Bool, true, false, if◌then◌else◌, List, arith, ◌==◌, get_or,
}
use mathlib.Core.Bool.{not}
use mindconnect_lib.Base64.{padding_char}
use mindconnect_lib.Base64.Groups.{char_of}
use mindconnect_lib.Base64.Tables.{
  base64_encode_table, base64_url_encode_table, base64_decode_table, base64_url_decode_table,
}

-- The decoding table finds each sextet again, and no sextet is written as the padding character.
pub record IsCodec (enc dec : List ℕ) : Type 0 where
  pub inverse : (i : ℕ) → i < 64 → get_or dec (char_of enc i) 0xff ≡ i
  pub not_padding : (i : ℕ) → i < 64 → (char_of enc i == padding_char) ≡ false

-- A test of all sextets by evaluation, from the greatest down.
holds_to : (ℕ → Bool) → ℕ → Bool
holds_to test zero = true
holds_to test (suc top) = if test top then holds_to test top else false

holds_to_sound :
    (test : ℕ → Bool) (top : ℕ) → holds_to test top ≡ true → (i : ℕ) → i < top → test i ≡ true
unfolding holds_to
holds_to_sound test zero passed i below = elim below [ ]
holds_to_sound test (suc top) passed i below =
    ground (arith, holds_to_sound test top (ground arith) i)

abbrev inverse_test : List ℕ → List ℕ → ℕ → Bool
inverse_test enc dec i = get_or dec (char_of enc i) 0xff == i

abbrev padding_test : List ℕ → ℕ → Bool
padding_test enc i = not (char_of enc i == padding_char)

codec :
    (enc dec : List ℕ)
    → holds_to (inverse_test enc dec) 64 ≡ true
    → holds_to (padding_test enc) 64 ≡ true
    → IsCodec enc dec
codec enc dec h k = record {
  inverse = λ i lt. ground (arith, holds_to_sound (inverse_test enc dec) 64 h i lt);
  not_padding = λ i lt. ground (arith, holds_to_sound (padding_test enc) 64 k i lt);
}

pub base64-IsCodec : IsCodec base64_encode_table base64_decode_table
unfolding holds_to
base64-IsCodec = codec base64_encode_table base64_decode_table refl refl

pub base64_url-IsCodec : IsCodec base64_url_encode_table base64_url_decode_table
unfolding holds_to
base64_url-IsCodec = codec base64_url_encode_table base64_url_decode_table refl refl
