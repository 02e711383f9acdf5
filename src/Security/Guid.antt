-- ===== src/Security/Guid.antt =====
-- The form of the GUIDs of mcl_core/src/random.c: version 4 and the variant of RFC 4122.
use mindconnect_lib.Base.{
  ℕ, ◌+◌, ◌-◌, ◌*◌, ◌/◌, ◌%◌, ◌^◌, ◌<◌, ◌≡◌, ◌⊎◌, refl, ap, true, List, length, get_or, arith,
  bit_and, bit_or,
}
use native.Mathlib.Nat.{one-le-pow}
use mindconnect_lib.Base.Bits.{bit_or_comm, bit_or-shl, bit_and_mask}
use mindconnect_lib.Base.Code.{ok}
use mindconnect_lib.Base.Action.{Memory}
use mindconnect_lib.StringUtil.Copy.{print_formatted_string-whole}
use mindconnect_lib.Security.Crypto.{Crypto}
use mindconnect_lib.Security.Random.{
  hex_digit, uint16_at, time_hi_and_version, clk_seq_hi_res, guid_text, printed_text,
  random_generate_guid,
}

-- Low bits under a mask of `k` ones with a field `q` above them.
masked_field : (k q a : ℕ) → bit_or (bit_and a (2 ^ k - 1)) (q * 2 ^ k) ≡ q * 2 ^ k + a % 2 ^ k
masked_field k q a =
    rw (bit_and_mask k a, bit_or_comm (a % 2 ^ k) (q * 2 ^ k))
      (bit_or-shl k q (a % 2 ^ k) (omega (arith, one-le-pow k 2)))

pub length-guid_text : (rnd : List ℕ) → length (guid_text rnd) ≡ 36
unfolding guid_text
length-guid_text rnd = refl

-- The digits that are the same in every GUID, and the one of the variant.
pub record IsVersion4 (text : List ℕ) : Type 0 where
  pub size : length text ≡ 36
  pub first_dash : get_or text 8 0 ≡ b'-'
  pub second_dash : get_or text 13 0 ≡ b'-'
  pub third_dash : get_or text 18 0 ≡ b'-'
  pub fourth_dash : get_or text 23 0 ≡ b'-'
  pub version : get_or text 14 0 ≡ b'4'
  pub variant :
      (get_or text 19 0 ≡ b'8')
      ⊎ (get_or text 19 0 ≡ b'9')
      ⊎ (get_or text 19 0 ≡ b'a')
      ⊎ (get_or text 19 0 ≡ b'b')

version_digit : (rnd : List ℕ) → hex_digit (time_hi_and_version rnd / 16 / 16 / 16 % 16) ≡ b'4'
unfolding time_hi_and_version
version_digit rnd =
    let e : bit_or (bit_and (uint16_at rnd 6) 0x0FFF) 0x4000 ≡ 16384 + uint16_at rnd 6 % 4096 =
      masked_field 12 4 (uint16_at rnd 6) in
    let d : bit_or (bit_and (uint16_at rnd 6) 0x0FFF) 0x4000 / 16 / 16 / 16 % 16 ≡ 4 =
      omega (arith, e) in
    ap hex_digit d

variant_digit :
    (n : ℕ)
    → n < 4
    → (hex_digit (8 + n) ≡ b'8')
      ⊎ (hex_digit (8 + n) ≡ b'9')
      ⊎ (hex_digit (8 + n) ≡ b'a')
      ⊎ (hex_digit (8 + n) ≡ b'b')
variant_digit n h = ground arith

variant_value : (rnd : List ℕ) → clk_seq_hi_res rnd / 16 % 16 ≡ 8 + get_or rnd 8 0 / 16 % 4
unfolding clk_seq_hi_res
variant_value rnd =
    let e : bit_or (bit_and (get_or rnd 8 0) 0x3F) 0x80 ≡ 128 + get_or rnd 8 0 % 64 =
      masked_field 6 2 (get_or rnd 8 0) in
    omega (arith, e)

guid_text-IsVersion4 : (rnd : List ℕ) → IsVersion4 (guid_text rnd)
unfolding guid_text
guid_text-IsVersion4 rnd = record {
  size = refl;
  first_dash = refl;
  second_dash = refl;
  third_dash = refl;
  fourth_dash = refl;
  version = version_digit rnd;
  variant = rw (variant_value rnd) (variant_digit (get_or rnd 8 0 / 16 % 4) (omega arith));
}

module _ {World : Type 0} (crypto : Crypto World) (memory : Memory World) where
  -- With 16 random bytes of any values and memory for the text, `random_generate_guid` returns a GUID of
  -- version 4: 36 characters in five groups, `4` at the head of the third, and one of `8`, `9`, `a` and `b`
  -- at the head of the fourth.
  pub random_generate_guid-IsVersion4 :
      (rnd : List ℕ) (w : World)
      → (Memory.allocate memory w).0 ≡ true
      → (Crypto.security_generate_random_bytes crypto 16 (Memory.allocate memory w).1).0 ≡ ok rnd
      → ((random_generate_guid crypto memory w).0 ≡ ok (guid_text rnd)) × IsVersion4 (guid_text rnd)
  unfolding random_generate_guid printed_text
  random_generate_guid-IsVersion4 rnd w allocated answered = (
    rw
        (
          allocated,
          answered,
          print_formatted_string-whole 37 (guid_text rnd) (rw (length-guid_text rnd) (omega arith))
              (rw (length-guid_text rnd) (omega arith)),
        )
        refl,
    guid_text-IsVersion4 rnd,
  )
