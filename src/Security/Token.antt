-- ===== src/Security/Token.antt =====
-- The token of mcl_core/src/jwt.c as its receiver reads it: three parts between dots, in Base64.
use mathlib.Core.List.{append_assoc}
use mindconnect_lib.Base.{
  ℕ, ◌<◌, ◌==◌, ◌≡◌, refl, sym, ap, ◌∙◌, true, if◌then◌else◌, some, List, [], ◌∷◌, ◌++◌, length,
}
use mindconnect_lib.Base.Code.{Result, ok, ◌>>=◌}
use mindconnect_lib.Base.Action.{Action, Memory}
use mindconnect_lib.Base64.{Decoded, base64_url_decode}
use mindconnect_lib.Base64.Groups.{IsBytes}
use mindconnect_lib.Base64.RoundTrip.{base64_url_decode-base64_url_encode}
use mindconnect_lib.Base.Yields.{Yields, Yields-bind, Yields-then, Yields-malloc}
use mindconnect_lib.Security.Handler.{security_handler_base64_url_encode}
use mindconnect_lib.Security.Jwt.{
  Jwt, Platform, or_fail, encode_url, join_with_dot, sign_by_profile, calculate_signature,
  get_header_and_payload_encoded_base64_url, generate_token,
}
use mindconnect_lib.Base64.Alphabet.{
  HasNoDot, base64_url_text, base64_url_encode-base64_url_text, base64_url_text-HasNoDot,
}

-- The parts between the dots.
abbrev pub before_rest : ℕ → List (List ℕ) → List (List ℕ)
before_rest c [] = (c ∷ []) ∷ []
before_rest c (part ∷ parts) = (c ∷ part) ∷ parts

abbrev pub parts : List ℕ → List (List ℕ)
parts [] = [] ∷ []
parts (c ∷ text) = let rest = parts text in if c == b'.' then [] ∷ rest else before_rest c rest

parts_dot : (text rest : List ℕ) → HasNoDot text → parts (text ++ (b'.' ∷ rest)) ≡ text ∷ parts rest
parts_dot [] rest h = refl
parts_dot (c ∷ text) rest h = rw (h.0, parts_dot text rest h.1) refl

parts_self : (text : List ℕ) → HasNoDot text → parts text ≡ text ∷ []
parts_self [] h = refl
parts_self (c ∷ text) h = rw (h.0, parts_self text h.1) refl

-- What a receiver finds in the parts of a token that there are three of.
abbrev pub decoded_part : List ℕ → Result (List ℕ)
decoded_part part = base64_url_decode true (some part) >>= λ decoded. ok (Decoded.bytes decoded)

abbrev pub joined : List ℕ → List ℕ → List ℕ
joined a b = a ++ (b'.' ∷ b)

parts-joined :
    (a b c : List ℕ)
    → HasNoDot a
    → HasNoDot b
    → HasNoDot c
    → parts (joined (joined a b) c) ≡ a ∷ b ∷ c ∷ []
parts-joined a b c ha hb hc =
    rw
      (
        append_assoc a (b'.' ∷ b) (b'.' ∷ c),
        parts_dot a (b ++ (b'.' ∷ c)) ha,
        parts_dot b c hb,
        parts_self c hc,
      )
      refl

decoded_part-base64_url_text :
    (bytes : List ℕ)
    → 0 < length bytes
    → IsBytes bytes
    → decoded_part (base64_url_text bytes) ≡ ok bytes
decoded_part-base64_url_text bytes h k =
    let e : base64_url_decode true (some (base64_url_text bytes))
        ≡ ok (record { bytes = bytes; size = length bytes }) =
      ap (λ r. r >>= λ text. base64_url_decode true (some text))
        (sym (base64_url_encode-base64_url_text bytes))
      ∙ base64_url_decode-base64_url_encode bytes h k in
    rw e refl

-- A token of a header and a payload: its parts decode to them and to the signature of the first two
-- parts with the dot between them.
abbrev pub IsToken : (List ℕ → List ℕ) → List ℕ → List ℕ → List ℕ → Type 0
IsToken signature header payload token =
    (h : List ℕ) × (p : List ℕ) × (s : List ℕ) × (parts token ≡ h ∷ p ∷ s ∷ [])
    × (decoded_part h ≡ ok header)
    × (decoded_part p ≡ ok payload)
    × (decoded_part s ≡ ok (signature (joined h p)))

Yields-or_fail :
    {World Value : Type 0} (action : Action World Value) (value : Value)
    → Yields action value
    → Yields (or_fail action) value
Yields-or_fail action value h w = rw (h w) refl

module _ {World Double Int : Type 0} (platform : Platform World Double Int)
    (enough : (w : World) → (Memory.allocate (Platform.memory platform) w).0 ≡ true) where
  encode_lem : (data' : List ℕ) → Yields (encode_url platform data') (base64_url_text data')
  unfolding encode_url security_handler_base64_url_encode
  encode_lem data' w = rw (enough w, base64_url_encode-base64_url_text data') refl

  join_with_dot_lem : (a b : List ℕ) → Yields (join_with_dot platform a b) (joined a b)
  unfolding join_with_dot
  join_with_dot_lem a b =
      Yields-then _ _ tt (joined a b) (Yields-malloc (Platform.memory platform) enough) (λ w. refl)

  module _ (jwt : Jwt) (signature : List ℕ → List ℕ)
      (signs : (data' : List ℕ) (w : World)
        → (sign_by_profile platform (Jwt.security_profile jwt) (Jwt.security_handler jwt) data' w).0
          ≡ ok (signature data')) where
    calculate_signature_lem :
        (data' : List ℕ)
        → Yields (calculate_signature platform jwt data') (base64_url_text (signature data'))
    unfolding calculate_signature
    calculate_signature_lem data' =
        Yields-bind _ _ (signature data') _ (Yields-or_fail _ _ (signs data'))
          (Yields-or_fail _ _ (encode_lem (signature data')))

    generate_token_lem :
        (header payload : List ℕ)
        → let text : List ℕ = joined (base64_url_text header) (base64_url_text payload) in
          Yields
            (generate_token platform jwt header payload)
            (joined text (base64_url_text (signature text)))
    unfolding generate_token get_header_and_payload_encoded_base64_url
    generate_token_lem header payload =
        let text : List ℕ = joined (base64_url_text header) (base64_url_text payload) in
        Yields-bind _ _ (base64_url_text header, base64_url_text payload) _
          (Yields-bind _ _ (base64_url_text header) _ (Yields-or_fail _ _ (encode_lem header)) (
            Yields-bind _ _ (base64_url_text payload) _ (Yields-or_fail _ _ (encode_lem payload))
              (λ w. refl)))
          (Yields-bind _ _ text _ (Yields-or_fail _ _ (join_with_dot_lem _ _)) (
            Yields-bind _ _ (base64_url_text (signature text)) _
              (Yields-or_fail _ _ (calculate_signature_lem text))
              (Yields-or_fail _ _ (join_with_dot_lem text _))))

    -- Where there is memory and signing answers, `_generate_token` returns a token of three parts, which decode
    -- to the header, to the payload and to the signature of the first two with their dot. The header, the
    -- payload and every signature are of one byte at least, and of bytes.
    pub generate_token-IsToken :
        (header payload : List ℕ) (w : World)
        → (0 < length header) × IsBytes header
        → (0 < length payload) × IsBytes payload
        → ((data' : List ℕ) → (0 < length (signature data')) × IsBytes (signature data'))
        → (token : List ℕ) × ((generate_token platform jwt header payload w).0 ≡ ok token)
          × IsToken signature header payload token
    generate_token-IsToken header payload w h p s =
        let a : List ℕ = base64_url_text header in
        let b : List ℕ = base64_url_text payload in
        let c : List ℕ = base64_url_text (signature (joined a b)) in
        (
          joined (joined a b) c,
          generate_token_lem header payload w,
          (
            a,
            b,
            c,
            parts-joined a b c (base64_url_text-HasNoDot header) (base64_url_text-HasNoDot payload)
                (base64_url_text-HasNoDot (signature (joined a b))),
            decoded_part-base64_url_text header h.0 h.1,
            decoded_part-base64_url_text payload p.0 p.1,
            decoded_part-base64_url_text (signature (joined a b)) (s (joined a b)).0
                (s (joined a b)).1,
          ),
        )
