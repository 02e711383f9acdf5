-- ===== src/Base64/Quantum.antt =====
-- One quantum: what `_decode_quantum` makes of four characters.
use mindconnect_lib.Base.{
  ℕ, suc, ◌+◌, ◌*◌, ◌/◌, ◌%◌, ◌<◌, ◌≡◌, refl, ◌∙◌, List, [], ◌∷◌, arith, bit_and, get_or, drop,
}
use mindconnect_lib.Base.Bits.{bit_and_mask, u8}
use mindconnect_lib.Base.Code.{ok}
use mindconnect_lib.Base64.{padding_char, compose_step, compose, write_bytes, decode_quantum}
use mindconnect_lib.Base64.Groups.{char_of}
use mindconnect_lib.Base64.Codec.{IsCodec}

low_byte : (n b : ℕ) → n % 256 ≡ b → bit_and (u8 n) 0xff ≡ b
low_byte n b e = bit_and_mask 8 (u8 n) ∙ omega arith

module _ (enc dec : List ℕ) (is : IsCodec enc dec) where
  compose_step-char :
      (p bits padding : ℕ)
      → p < 64
      → bits < 262144
      → compose_step dec (char_of enc p) bits padding ≡ ok (bits * 64 + p, padding)
  unfolding compose_step
  compose_step-char p bits padding hp hb = ground (arith, is.not_padding p hp, is.inverse p hp)

  compose_step-first : (p : ℕ) → p < 64 → compose_step dec (char_of enc p) 0 0 ≡ ok (p, 0)
  unfolding compose_step
  compose_step-first p hp = ground (arith, is.not_padding p hp, is.inverse p hp)

  compose_step-padding :
      (bits padding : ℕ)
      → padding < 2
      → bits < 262144
      → compose_step dec padding_char bits padding ≡ ok (bits * 64, padding + 1)
  unfolding compose_step
  compose_step-padding bits padding hp hb = ground arith

  compose-suc :
      (n : ℕ) (source : List ℕ) (bits padding bits' padding' : ℕ)
      → compose_step dec (get_or source 0 0) bits padding ≡ ok (bits', padding')
      → compose dec (suc n) source bits padding ≡ compose dec n (drop 1 source) bits' padding'
  unfolding compose
  compose-suc n source bits padding bits' padding' h = rw h

  compose-zero :
      (source : List ℕ) (bits padding : ℕ) → compose dec 0 source bits padding ≡ ok (bits, padding)
  unfolding compose
  compose-zero source bits padding = refl

  module _ (p q : ℕ) (hp : p < 64) (hq : q < 64) where
    compose-two :
        (rest : List ℕ)
        → compose dec 4 (char_of enc p ∷ char_of enc q ∷ rest) 0 0
          ≡ compose dec 2 rest (p * 64 + q) 0
    compose-two rest =
        compose-suc 3 _ 0 0 p 0 (compose_step-first p hp)
        ∙ compose-suc 2 _ p 0 (p * 64 + q) 0 (compose_step-char q p 0 hq (omega arith))

    compose-full :
        (r s : ℕ) (rest : List ℕ)
        → r < 64
        → s < 64
        → compose dec 4 (char_of enc p ∷ char_of enc q ∷ char_of enc r ∷ char_of enc s ∷ rest) 0 0
          ≡ ok (((p * 64 + q) * 64 + r) * 64 + s, 0)
    compose-full r s rest hr hs =
        compose-two _
        ∙ compose-suc 1 _ _ 0 ((p * 64 + q) * 64 + r) 0 (compose_step-char r _ 0 hr (omega arith))
        ∙ compose-suc 0 _ _ 0 _ 0 (compose_step-char s _ 0 hs (omega arith))
        ∙ compose-zero _ _ _

    compose-one_pad :
        (r : ℕ) (rest : List ℕ)
        → r < 64
        → compose dec 4 (char_of enc p ∷ char_of enc q ∷ char_of enc r ∷ padding_char ∷ rest) 0 0
          ≡ ok (((p * 64 + q) * 64 + r) * 64, 1)
    compose-one_pad r rest hr =
        compose-two _
        ∙ compose-suc 1 _ _ 0 ((p * 64 + q) * 64 + r) 0 (compose_step-char r _ 0 hr (omega arith))
        ∙ compose-suc 0 _ _ 0 _ 1 (compose_step-padding _ 0 (omega arith) (omega arith))
        ∙ compose-zero _ _ _

    compose-two_pads :
        (rest : List ℕ)
        → compose dec 4 (char_of enc p ∷ char_of enc q ∷ padding_char ∷ padding_char ∷ rest) 0 0
          ≡ ok ((p * 64 + q) * 64 * 64, 2)
    compose-two_pads rest =
        compose-two _
        ∙ compose-suc 1 _ _ 0 ((p * 64 + q) * 64) 1
            (compose_step-padding _ 0 (omega arith) (omega arith))
        ∙ compose-suc 0 _ _ 1 _ 2 (compose_step-padding _ 1 (omega arith) (omega arith))
        ∙ compose-zero _ _ _

    pub decode_quantum-full :
        (r s : ℕ) (rest : List ℕ)
        → r < 64
        → s < 64
        → decode_quantum dec (char_of enc p ∷ char_of enc q ∷ char_of enc r ∷ char_of enc s ∷ rest)
          ≡ ok ((p * 4 + q / 16) ∷ (q % 16 * 16 + r / 4) ∷ (r % 4 * 64 + s) ∷ [])
    unfolding decode_quantum write_bytes
    decode_quantum-full r s rest hr hs = rw (
      compose-full r s rest hr hs,
      low_byte (((p * 64 + q) * 64 + r) * 64 + s) (r % 4 * 64 + s) (omega arith),
      low_byte ((((p * 64 + q) * 64 + r) * 64 + s) / 256) (q % 16 * 16 + r / 4) (omega arith),
      low_byte ((((p * 64 + q) * 64 + r) * 64 + s) / 256 / 256) (p * 4 + q / 16) (omega arith),
    )

    pub decode_quantum-one_pad :
        (r : ℕ) (rest : List ℕ)
        → r < 64
        → decode_quantum dec (char_of enc p ∷ char_of enc q ∷ char_of enc r ∷ padding_char ∷ rest)
          ≡ ok ((p * 4 + q / 16) ∷ (q % 16 * 16 + r / 4) ∷ [])
    unfolding decode_quantum write_bytes
    decode_quantum-one_pad r rest hr = rw (
      compose-one_pad r rest hr,
      low_byte (((p * 64 + q) * 64 + r) * 64 / 256) (q % 16 * 16 + r / 4) (omega arith),
      low_byte (((p * 64 + q) * 64 + r) * 64 / 256 / 256) (p * 4 + q / 16) (omega arith),
    )

    pub decode_quantum-two_pads :
        (rest : List ℕ)
        → decode_quantum dec (char_of enc p ∷ char_of enc q ∷ padding_char ∷ padding_char ∷ rest)
          ≡ ok ((p * 4 + q / 16) ∷ [])
    unfolding decode_quantum write_bytes
    decode_quantum-two_pads rest = rw (
      compose-two_pads rest,
      low_byte ((p * 64 + q) * 64 * 64 / 256 / 256) (p * 4 + q / 16) (omega arith),
    )
