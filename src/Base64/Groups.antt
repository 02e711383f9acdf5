-- ===== src/Base64/Groups.antt =====
-- The encoder of base64.c against RFC 4648: three bytes are four sextets, and a rest of one or two
-- bytes is padded.
use mindconnect_lib.Base.{
  ℕ, suc, ◌+◌, ◌*◌, ◌/◌, ◌%◌, ◌<◌, bit_and, ◌≡◌, refl, ap, ◌∙◌, List, [], ◌∷◌, ◌++◌, arith, length,
  get_or, drop, All,
}
use mindconnect_lib.Base.Bits.{bit_or-shl, bit_and_mask}
use mindconnect_lib.Base64.{
  padding_char, write_quantum, write_last, group_input, last_input, encode_remainder, encode_loop,
}

abbrev pub IsBytes : List ℕ → Type 0
IsBytes = All (λ b. b < 256)

abbrev pub char_of : List ℕ → ℕ → ℕ
char_of table sextet = get_or table sextet 0

unfoldable pub encode_groups : List ℕ → List ℕ → List ℕ
encode_groups t [] = []
encode_groups t (a ∷ []) =
    char_of t (a / 4) ∷ char_of t (a % 4 * 16) ∷ padding_char ∷ padding_char ∷ []
encode_groups t (a ∷ b ∷ []) =
    char_of t (a / 4) ∷ char_of t (a % 4 * 16 + b / 16) ∷ char_of t (b % 16 * 4) ∷ padding_char ∷ []
encode_groups t (a ∷ b ∷ c ∷ bytes) =
    char_of t (a / 4)
    ∷ char_of t (a % 4 * 16 + b / 16)
    ∷ char_of t (b % 16 * 4 + c / 64)
    ∷ char_of t (c % 64)
    ∷ encode_groups t bytes

group_input_lem :
    (a b c : ℕ) (rest : List ℕ)
    → a < 256
    → b < 256
    → c < 256
    → group_input (a ∷ b ∷ c ∷ rest) ≡ a * 65536 + b * 256 + c
unfolding group_input
group_input_lem a b c rest ha hb hc =
    ground
      (arith, bit_or-shl 16 a (b * 256) (omega arith), bit_or-shl 8 (a * 256 + b) c (omega arith))

last_input_one : (a : ℕ) → a < 256 → last_input 1 (a ∷ []) ≡ a * 65536
unfolding last_input
last_input_one a ha = omega arith

last_input_two : (a b : ℕ) → a < 256 → b < 256 → last_input 2 (a ∷ b ∷ []) ≡ a * 65536 + b * 256
unfolding last_input
last_input_two a b ha hb = ground (arith, bit_or-shl 16 a (b * 256) (omega arith))

module _ (t : List ℕ) where
  sextet_char : (n p : ℕ) → n % 64 ≡ p → get_or t (bit_and n 63) 0 ≡ char_of t p
  sextet_char n p e = ap (char_of t) (bit_and_mask 6 n ∙ e)

  quantum_chars :
      (n p q r s : ℕ)
      → n ≡ p * 262144 + q * 4096 + r * 64 + s
      → p < 64
      → q < 64
      → r < 64
      → s < 64
      → write_quantum t 4 n [] ≡ char_of t p ∷ char_of t q ∷ char_of t r ∷ char_of t s ∷ []
  unfolding write_quantum
  quantum_chars n p q r s e hp hq hr hs = rw (
    sextet_char (n / 64 / 64 / 64) p (omega arith),
    sextet_char (n / 64 / 64) q (omega arith),
    sextet_char (n / 64) r (omega arith),
    sextet_char n s (omega arith),
  )

  last_one :
      (n p q : ℕ)
      → n ≡ p * 262144 + q * 4096
      → p < 64
      → q < 64
      → write_last t 1 4 n [] ≡ char_of t p ∷ char_of t q ∷ padding_char ∷ padding_char ∷ []
  unfolding write_last
  last_one n p q e hp hq =
      rw (sextet_char (n / 64 / 64 / 64) p (omega arith), sextet_char (n / 64 / 64) q (omega arith))

  last_two :
      (n p q r : ℕ)
      → n ≡ p * 262144 + q * 4096 + r * 64
      → p < 64
      → q < 64
      → r < 64
      → write_last t 2 4 n [] ≡ char_of t p ∷ char_of t q ∷ char_of t r ∷ padding_char ∷ []
  unfolding write_last
  last_two n p q r e hp hq hr = rw (
    sextet_char (n / 64 / 64 / 64) p (omega arith),
    sextet_char (n / 64 / 64) q (omega arith),
    sextet_char (n / 64) r (omega arith),
  )

  encode_loop-suc :
      (n remainder : ℕ) (bytes : List ℕ)
      → encode_loop t (suc n) remainder bytes
        ≡ write_quantum t 4 (group_input bytes) [] ++ encode_loop t n remainder (drop 3 bytes)
  unfolding encode_loop
  encode_loop-suc n remainder bytes = refl

  encode_loop-one :
      (a : ℕ) → encode_loop t 0 1 (a ∷ []) ≡ write_last t 1 4 (last_input 1 (a ∷ [])) []
  unfolding encode_loop encode_remainder
  encode_loop-one a = refl

  encode_loop-two :
      (a b : ℕ) → encode_loop t 0 2 (a ∷ b ∷ []) ≡ write_last t 2 4 (last_input 2 (a ∷ b ∷ [])) []
  unfolding encode_loop encode_remainder
  encode_loop-two a b = refl

  encode_loop-nil : encode_loop t 0 0 [] ≡ []
  unfolding encode_loop encode_remainder
  encode_loop-nil = refl

  -- The two loops of the encoder and its case for the rest write the RFC's groups.
  pub encode_loop-encode_groups :
      (bytes : List ℕ)
      → IsBytes bytes
      → encode_loop t (length bytes / 3) (length bytes % 3) bytes ≡ encode_groups t bytes
  unfolding encode_groups
  encode_loop-encode_groups [] h = encode_loop-nil
  encode_loop-encode_groups (a ∷ []) h =
      encode_loop-one a
      ∙ last_one _ (a / 4) (a % 4 * 16) (omega (arith, last_input_one a)) (omega arith)
          (omega arith)
  encode_loop-encode_groups (a ∷ b ∷ []) h =
      encode_loop-two a b
      ∙ last_two _ (a / 4) (a % 4 * 16 + b / 16) (b % 16 * 4) (omega (arith, last_input_two a b))
          (omega arith) (omega arith) (omega arith)
  encode_loop-encode_groups (a ∷ b ∷ c ∷ bytes) h =
      let n = length bytes in
      let quotient : suc (suc (suc n)) / 3 ≡ suc (n / 3) = omega arith in
      let rest : suc (suc (suc n)) % 3 ≡ n % 3 = omega arith in
      let chars =
        quantum_chars (group_input (a ∷ b ∷ c ∷ bytes)) (a / 4) (a % 4 * 16 + b / 16)
          (b % 16 * 4 + c / 64) (c % 64) (omega (arith, group_input_lem a b c bytes)) (omega arith)
          (omega arith) (omega arith) (omega arith) in
      rw (quotient, rest, encode_loop-suc, chars, encode_loop-encode_groups bytes h.1.1.1)
