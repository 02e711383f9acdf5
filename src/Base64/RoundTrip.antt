-- ===== src/Base64/RoundTrip.antt =====
-- Decoding gives back what was encoded.
use mindconnect_lib.Base.{
  ℕ, suc, ◌+◌, ◌-◌, ◌*◌, ◌/◌, ◌%◌, ◌<◌, ◌≡◌, refl, true, ◌&&◌, List, [], ◌∷◌, arith, ◌==◌, some,
  length, ltb,
}
use mindconnect_lib.Base.Code.{ok, ◌>>=◌}
use mindconnect_lib.Base64.{
  encode_with_table, base64_encode, base64_url_encode, decode_quantums, decode_text,
  decode_with_table, base64_decode, base64_url_decode,
}
use mindconnect_lib.Base64.Tables.{
  base64_encode_table, base64_url_encode_table, base64_decode_table, base64_url_decode_table,
}
use mindconnect_lib.StringUtil.{mcl_string_util_strlen, string_util_strlen}
use mindconnect_lib.Base64.Groups.{IsBytes, char_of, encode_groups, encode_loop-encode_groups}
use mindconnect_lib.Base64.Codec.{IsCodec, base64-IsCodec, base64_url-IsCodec}
use mindconnect_lib.Base64.Quantum.{
  decode_quantum-full, decode_quantum-one_pad, decode_quantum-two_pads,
}
use mindconnect_lib.Base64.Padding.{IsPlain, IsPadded, IsPadded-cons, scans_lem}

abbrev pub padding_of : ℕ → ℕ
padding_of size = (size + 2) / 3 * 3 - size

pub length-encode_groups :
    (t bytes : List ℕ) → length (encode_groups t bytes) ≡ (length bytes + 2) / 3 * 4
unfolding encode_groups
length-encode_groups t [] = refl
length-encode_groups t (a ∷ []) = refl
length-encode_groups t (a ∷ b ∷ []) = refl
length-encode_groups t (a ∷ b ∷ c ∷ bytes) = omega (arith, length-encode_groups t bytes)

module _ (enc dec : List ℕ) (is : IsCodec enc dec) where
  plain : (i : ℕ) → i < 64 → IsPlain (char_of enc i)
  plain i h = is.not_padding i h

  -- An encoded text has its padding at the end only, and as much as its size asks for.
  pub encode_groups-IsPadded :
      (b : ℕ) (bytes : List ℕ)
      → IsBytes (b ∷ bytes)
      → IsPadded (encode_groups enc (b ∷ bytes)) (padding_of (length (b ∷ bytes)))
  unfolding encode_groups
  encode_groups-IsPadded a [] h = record {
    body = char_of enc (a / 4) ∷ [];
    final = char_of enc (a % 4 * 16);
    shape = refl;
    body_plain = (plain _ (omega arith), tt);
    final_plain = plain _ (omega arith);
  }
  encode_groups-IsPadded a (b ∷ []) h = record {
    body = char_of enc (a / 4) ∷ char_of enc (a % 4 * 16 + b / 16) ∷ [];
    final = char_of enc (b % 16 * 4);
    shape = refl;
    body_plain = (plain _ (omega arith), (plain _ (omega arith), tt));
    final_plain = plain _ (omega arith);
  }
  encode_groups-IsPadded a (b ∷ c ∷ []) h = record {
    body =
        char_of enc (a / 4)
        ∷ char_of enc (a % 4 * 16 + b / 16)
        ∷ char_of enc (b % 16 * 4 + c / 64)
        ∷ [];
    final = char_of enc (c % 64);
    shape = refl;
    body_plain = (plain _ (omega arith), (plain _ (omega arith), (plain _ (omega arith), tt)));
    final_plain = plain _ (omega arith);
  }
  encode_groups-IsPadded a (b ∷ c ∷ d ∷ bytes) h =
      let same : padding_of (suc (suc (suc (suc (length bytes)))))
          ≡ padding_of (suc (length bytes)) =
        omega arith in
      rw same (
        IsPadded-cons _ (plain _ (omega arith)) (
          IsPadded-cons _ (plain _ (omega arith)) (
            IsPadded-cons _ (plain _ (omega arith))
              (IsPadded-cons _ (plain _ (omega arith)) (encode_groups-IsPadded d bytes h.1.1.1)))))

  decode_quantums-encode_groups :
      (bytes : List ℕ)
      → IsBytes bytes
      → decode_quantums dec ((length bytes + 2) / 3) (encode_groups enc bytes) ≡ ok bytes
  unfolding encode_groups decode_quantums
  decode_quantums-encode_groups [] h = refl
  decode_quantums-encode_groups (a ∷ []) h =
      rw (decode_quantum-two_pads enc dec is (a / 4) (a % 4 * 16) (omega arith) (omega arith) [])
        (ground arith)
  decode_quantums-encode_groups (a ∷ b ∷ []) h =
      rw
        (decode_quantum-one_pad enc dec is (a / 4) (a % 4 * 16 + b / 16) (omega arith) (omega arith)
          (b % 16 * 4) [] (omega arith))
        (ground arith)
  decode_quantums-encode_groups (a ∷ b ∷ c ∷ bytes) h =
      let n : (suc (suc (suc (length bytes))) + 2) / 3 ≡ suc ((length bytes + 2) / 3) =
        omega arith in
      rw
        (
          n,
          decode_quantum-full enc dec is (a / 4) (a % 4 * 16 + b / 16) (omega arith) (omega arith)
              (b % 16 * 4 + c / 64) (c % 64) (encode_groups enc bytes) (omega arith) (omega arith),
          decode_quantums-encode_groups bytes h.1.1.1,
        )
        (ground arith)

  decode_text-encode_groups :
      (b : ℕ) (bytes : List ℕ)
      → IsBytes (b ∷ bytes)
      → decode_text true dec (encode_groups enc (b ∷ bytes))
        ≡ ok (record { bytes = b ∷ bytes; size = length (b ∷ bytes) })
  unfolding decode_text
  decode_text-encode_groups b bytes h =
      let text = encode_groups enc (b ∷ bytes) in
      let scans = scans_lem (encode_groups-IsPadded b bytes h) (omega arith) in
      let quantums : length text / 4 ≡ (length (b ∷ bytes) + 2) / 3 =
        omega (arith, length-encode_groups enc (b ∷ bytes)) in
      let size : (length (b ∷ bytes) + 2) / 3 * 3 - padding_of (length (b ∷ bytes))
          ≡ length (b ∷ bytes) =
        omega arith in
      rw (scans.0, scans.1, quantums, decode_quantums-encode_groups (b ∷ bytes) h, size)

  decode_with_table-encode_groups :
      (b : ℕ) (bytes : List ℕ)
      → IsBytes (b ∷ bytes)
      → decode_with_table true dec (some (encode_groups enc (b ∷ bytes)))
        ≡ ok (record { bytes = b ∷ bytes; size = length (b ∷ bytes) })
  unfolding decode_with_table mcl_string_util_strlen string_util_strlen
  decode_with_table-encode_groups b bytes h =
      let size = length (encode_groups enc (b ∷ bytes)) in
      let fits : (ltb 0 size && (size % 4 == 0)) ≡ true =
        ground (arith, length-encode_groups enc (b ∷ bytes)) in
      rw fits (decode_text-encode_groups b bytes h)

  decode_with_table-encode_with_table :
      (bytes : List ℕ)
      → 0 < length bytes
      → IsBytes bytes
      → (encode_with_table true enc bytes >>= λ text. decode_with_table true dec (some text))
        ≡ ok (record { bytes = bytes; size = length bytes })
  unfolding encode_with_table
  decode_with_table-encode_with_table [] pos h = absurd (omega arith)
  decode_with_table-encode_with_table (b ∷ bytes) pos h =
      rw (encode_loop-encode_groups enc (b ∷ bytes) h) (decode_with_table-encode_groups b bytes h)

-- `base64_decode` gives back, with their number, the bytes that `base64_encode` was given, if they
-- are at least one.
pub base64_decode-base64_encode :
    (bytes : List ℕ)
    → 0 < length bytes
    → IsBytes bytes
    → (base64_encode true bytes >>= λ text. base64_decode true (some text))
      ≡ ok (record { bytes = bytes; size = length bytes })
unfolding base64_encode base64_decode
base64_decode-base64_encode =
    decode_with_table-encode_with_table base64_encode_table base64_decode_table base64-IsCodec

-- `base64_url_decode` gives back, with their number, the bytes that `base64_url_encode` was given,
-- if they are at least one.
pub base64_url_decode-base64_url_encode :
    (bytes : List ℕ)
    → 0 < length bytes
    → IsBytes bytes
    → (base64_url_encode true bytes >>= λ text. base64_url_decode true (some text))
      ≡ ok (record { bytes = bytes; size = length bytes })
unfolding base64_url_encode base64_url_decode
base64_url_decode-base64_url_encode =
    decode_with_table-encode_with_table base64_url_encode_table base64_url_decode_table
      base64_url-IsCodec
