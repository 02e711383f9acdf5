-- ===== src/TimeUtil.antt =====
-- mcl_core/src/time_util.c: the check of a timestamp. `strtol` of the C library is written out for
-- base 10, and `end_pointer` is the number of characters that it has passed.
pub mod Digits
pub mod Range
mod Tests
use mindconnect_lib.Base.{
  ℕ, zero, suc, ◌+◌, ◌-◌, ◌*◌, ◌%◌, ◌^◌, ◌==◌, Bool, true, false, not, ◌&&◌, ◌||◌, ltb, leb,
  if◌then◌else◌, List, [], ◌∷◌, length, get_or, drop,
}
use mindconnect_lib.StringUtil.{string_util_strlen}

-- A signed number: its sign and its absolute value.
pub record Signed : Type 0 where
  pub negative : Bool
  pub magnitude : ℕ

abbrev pub is_digit : ℕ → Bool
is_digit c = leb b'0' c && leb c b'9'

-- Space, tab, line feed, vertical tab, form feed and carriage return.
abbrev pub is_space : ℕ → Bool
is_space c = (c == b' ') || (leb 9 c && leb c 13)

unfoldable pub spaces : List ℕ → ℕ
spaces [] = 0
spaces (c ∷ text) = let rest = spaces text in if is_space c then suc rest else 0

-- The value and the number of the digits at the head of a text.
unfoldable pub read_digits : List ℕ → ℕ → ℕ → ℕ × ℕ
read_digits [] value count = (value, count)
read_digits (c ∷ text) value count =
    let rest = read_digits text (value * 10 + (c - b'0')) (count + 1) in
    if is_digit c then rest else (value, count)

-- `LONG_MAX` and `LONG_MIN` of 64 bits.
abbrev clamp : Bool → ℕ → ℕ
clamp negative magnitude =
    let limit = if negative then 2 ^ 63 else 2 ^ 63 - 1 in
    if leb magnitude limit then magnitude else limit

-- A number without digits is 0, and then nothing is passed.
abbrev pub converted : ℕ → Bool → ℕ × ℕ → Signed × ℕ
converted before negative (value, zero) = (record { negative = false; magnitude = 0 }, 0)
converted before negative (value, suc count) =
    (record { negative = negative; magnitude = clamp negative value }, before + suc count)

unfoldable pub string_util_strtol : List ℕ → Signed × ℕ
string_util_strtol source =
    let skipped = spaces source in
    let text = drop skipped source in
    let c = get_or text 0 0 in
    let sign_length = if (c == b'-') || (c == b'+') then 1 else 0 in
    converted (skipped + sign_length) (c == b'-') (read_digits (drop sign_length text) 0 0)

-- The conversion to `mcl_int32_t`.
abbrev pub int32 : Signed → Signed
int32 n =
    let low = Signed.magnitude n % 2 ^ 32 in
    let bits = if Signed.negative n then (2 ^ 32 - low) % 2 ^ 32 else low in
    if ltb bits (2 ^ 31)
    then record { negative = false; magnitude = bits }
    else record { negative = true; magnitude = 2 ^ 32 - bits }

-- Is the value of a field allowed? Date values, up to index 2, can not be zero.
abbrev pub field_ok : ℕ → ℕ → Signed → Bool
field_ok index maximum value =
    (Signed.negative value || leb (Signed.magnitude value) maximum)
    && (if leb index 2
        then not (Signed.negative value) && ltb 0 (Signed.magnitude value)
        else not (Signed.negative value))

unfoldable pub format_loop : List (ℕ × ℕ) → List ℕ → Bool
format_loop [] timestamp = true
format_loop ((character, index) ∷ checks) timestamp =
    (character == get_or timestamp index 0) && format_loop checks timestamp

-- The loop over the fields, with what is left of `maximum_values`.
unfoldable pub values_loop : List ℕ → ℕ → ℕ → List ℕ → Bool
values_loop [] index position timestamp = true
values_loop (maximum ∷ maxima) index position timestamp =
    let read = string_util_strtol (drop position timestamp) in
    field_ok index maximum (int32 read.0)
    && values_loop maxima (index + 1) (position + read.1 + 1) timestamp

abbrev pub separators : List (ℕ × ℕ)
separators =
    (b'-', 4) ∷ (b'-', 7) ∷ (b'T', 10) ∷ (b':', 13) ∷ (b':', 16) ∷ (b'.', 19) ∷ (b'Z', 23) ∷ []

abbrev pub maximum_values : List ℕ
maximum_values = 2999 ∷ 12 ∷ 31 ∷ 23 ∷ 59 ∷ 59 ∷ 999 ∷ []

unfoldable pub mcl_time_util_validate_timestamp : List ℕ → Bool
mcl_time_util_validate_timestamp timestamp =
    (24 == string_util_strlen timestamp)
    && (format_loop separators timestamp && values_loop maximum_values 0 0 timestamp)
