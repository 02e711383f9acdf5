-- ===== src/Security/Random.antt =====
-- mcl_core/src/random.c: random numbers and GUIDs, and the correlation id of
-- mcl_core/src/core_processor.c. The union of a GUID is read as on a little-endian machine.
use Prim.Native.Nat.{bit_and, bit_or}
use mindconnect_lib.Base.{
  ℕ, zero, suc, ◌+◌, ◌*◌, ◌/◌, ◌%◌, ltb, if◌then◌else◌, Option, none, some, List, [], ◌∷◌, ◌++◌,
  get_or, ◌-◌,
}
use mindconnect_lib.Base.Code
use mindconnect_lib.Base.Code.{Result, ok, err, triggered_with_null}
use mindconnect_lib.Base.Action.{Action, Memory, malloc, from_result, ◌>>=◌, ◌>>◌}
use mindconnect_lib.StringUtil.{print_formatted_string}
use mindconnect_lib.Security.Crypto.{Crypto}

-- The conversion "%0<width>x" of a number below `16 ^ width`.
abbrev pub hex_digit : ℕ → ℕ
hex_digit n = if ltb n 10 then n + b'0' else n + (b'a' - 10)

abbrev pub hex : ℕ → ℕ → List ℕ
hex zero n = []
hex (suc width) n = hex width (n / 16) ++ (hex_digit (n % 16) ∷ [])

-- The members of `guid_fields` that lie over the bytes from `index` on, the lowest byte first.
abbrev pub uint16_at : List ℕ → ℕ → ℕ
uint16_at rnd index = get_or rnd index 0 + 256 * get_or rnd (index + 1) 0

abbrev pub uint32_at : List ℕ → ℕ → ℕ
uint32_at rnd index = uint16_at rnd index + 65536 * uint16_at rnd (index + 2)

unfoldable pub time_hi_and_version : List ℕ → ℕ
time_hi_and_version rnd = bit_or (bit_and (uint16_at rnd 6) 0x0FFF) 0x4000

unfoldable pub clk_seq_hi_res : List ℕ → ℕ
clk_seq_hi_res rnd = bit_or (bit_and (get_or rnd 8 0) 0x3F) 0x80

abbrev pub byte_at : List ℕ → ℕ → List ℕ
byte_at rnd index = hex 2 (get_or rnd index 0)

-- What the format makes of the fields.
unfoldable pub guid_text : List ℕ → List ℕ
guid_text rnd =
    hex 8 (uint32_at rnd 0)
    ++ (b'-'
        ∷ (hex 4 (uint16_at rnd 4)
            ++ (b'-'
                ∷ (hex 4 (time_hi_and_version rnd)
                    ++ (b'-'
                        ∷ (hex 2 (clk_seq_hi_res rnd)
                            ++ (byte_at rnd 9
                                ++ (b'-'
                                    ∷ (byte_at rnd 10
                                        ++ (byte_at rnd 11
                                            ++ (byte_at rnd 12
                                                ++ (byte_at rnd 13
                                                    ++ (byte_at rnd 14
                                                        ++ byte_at rnd 15)))))))))))))

-- `string_util_snprintf` as the code and the text.
unfoldable pub printed_text : Result (Unit {0}) × List ℕ → Result (List ℕ)
printed_text (ok _, text) = ok text
printed_text (err code, text) = err code

abbrev guid_length : ℕ
guid_length = 36

abbrev correlation_id_byte_length : ℕ
correlation_id_byte_length = 16

-- The loop of `_generate_correlation_id_string`, each byte printed behind the one before.
unfoldable pub correlation_loop : List ℕ → Result (List ℕ)
correlation_loop [] = ok []
correlation_loop (byte ∷ random_bytes) =
    let rest = correlation_loop random_bytes in
    Code.◌>>=◌ (printed_text (print_formatted_string 3 (hex 2 byte)))
      (λ digits. Code.◌>>=◌ rest (λ text. ok (digits ++ text)))

module _ {World : Type 0} (crypto : Crypto World) (memory : Memory World) where
  unfoldable pub random_generate_guid : Action World (List ℕ)
  random_generate_guid = do
    malloc memory
    rnd ← Crypto.security_generate_random_bytes crypto 16
    from_result (printed_text (print_formatted_string (guid_length + 1) (guid_text rnd)))

  unfoldable pub generate_correlation_id_string : Action World (List ℕ)
  generate_correlation_id_string = do
    random_bytes ← Crypto.security_generate_random_bytes crypto correlation_id_byte_length
    malloc memory
    from_result (correlation_loop random_bytes)

  -- The four bytes of the number.
  random_generate_number : Action World (List ℕ)
  random_generate_number = Crypto.security_generate_random_bytes crypto 4

  -- Of a buffer that may be `MCL_NULL` only that is looked at.
  mcl_random_generate_bytes : Option (List ℕ) → ℕ → Action World (List ℕ)
  mcl_random_generate_bytes none size w = (err triggered_with_null, w)
  mcl_random_generate_bytes (some buffer) size w =
      Crypto.security_generate_random_bytes crypto size w
