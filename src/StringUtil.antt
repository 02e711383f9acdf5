-- ===== src/StringUtil.antt =====
-- mcl_core/src/string_util.c. A `char *` is the list of the characters before its terminator, and
-- `none` where it may be `MCL_NULL`. What the allocator answers is the argument `allocated`.
pub mod Find
pub mod Prefix
pub mod Copy
mod Tests
use mindconnect_lib.Base.{
  ℕ, zero, suc, ◌+◌, ◌-◌, ◌≡◌, Bool, true, false, not, ◌&&◌, ◌||◌, Option, none, some, List, [],
  ◌∷◌, ◌++◌, ltb, leb, ◌==◌, if◌then◌else◌, length, get_or, take,
}
use mindconnect_lib.Base.Code.{Result, ok, err, fail, triggered_with_null, out_of_memory}

abbrev pub CString : Type 0
CString = Option (List ℕ)

unfoldable pub string_util_strlen : List ℕ → ℕ
string_util_strlen buffer = length buffer

unfoldable pub mcl_string_util_strlen : CString → ℕ
mcl_string_util_strlen none = 0
mcl_string_util_strlen (some buffer) = string_util_strlen buffer

-- `string_util_strnlen` on memory: the list goes on behind the terminator, and may have none.
pub strnlen_loop : List ℕ → ℕ → ℕ → ℕ
strnlen_loop buffer zero count = count
strnlen_loop buffer (suc left) count =
    if get_or buffer count 0 == 0 then count else strnlen_loop buffer left (count + 1)

pub string_util_strnlen : List ℕ → ℕ → ℕ
string_util_strnlen buffer maximum_length = strnlen_loop buffer maximum_length 0

pub mcl_string_util_strnlen : Option (List ℕ) → ℕ → ℕ
mcl_string_util_strnlen none maximum_length = 0
mcl_string_util_strnlen (some buffer) maximum_length = string_util_strnlen buffer maximum_length

-- `strncmp`: are the first `count` characters equal, the terminator among them?
unfoldable pub same_prefix : ℕ → List ℕ → List ℕ → Bool
same_prefix zero xs ys = true
same_prefix (suc count) [] [] = true
same_prefix (suc count) [] (y ∷ ys) = false
same_prefix (suc count) (x ∷ xs) [] = false
same_prefix (suc count) (x ∷ xs) (y ∷ ys) = (x == y) && same_prefix count xs ys

unfoldable pub string_util_strncmp : List ℕ → List ℕ → ℕ → Result (Unit {0})
string_util_strncmp string_1 string_2 count =
    if same_prefix count string_1 string_2 then ok tt else err fail

pub mcl_string_util_strncmp : CString → CString → ℕ → Result (Unit {0})
mcl_string_util_strncmp none string_2 count = err triggered_with_null
mcl_string_util_strncmp (some string_1) none count = err triggered_with_null
mcl_string_util_strncmp (some string_1) (some string_2) count =
    string_util_strncmp string_1 string_2 count

-- `_print_formatted_string`: `text` is what the format and its arguments make. `vsnprintf` returns
-- its length and writes what fits before a terminator. The result is the code and the text in the
-- buffer.
unfoldable pub print_formatted_string : ℕ → List ℕ → Result (Unit {0}) × List ℕ
print_formatted_string size text =
    let count = length text in
    (if ltb 0 count && leb count size then ok tt else err fail, take (size - 1) text)

unfoldable pub string_util_strdup : Bool → List ℕ → CString
string_util_strdup allocated string = if allocated then some string else none

unfoldable pub mcl_string_util_strdup : Bool → CString → CString
mcl_string_util_strdup allocated none = none
mcl_string_util_strdup allocated (some string) = string_util_strdup allocated string

-- `state = (matches) ? (state + 1) : 0`.
unfoldable pub advance : (ℕ → ℕ → Bool) → List ℕ → ℕ → ℕ → ℕ
advance matches target c state = if matches c (get_or target state 0) then state + 1 else 0

-- The loop of both searches, at `index` with the rest of the source. `none` is `MCL_FALSE`, which
-- leaves `*start_index` alone.
unfoldable pub find_loop : (ℕ → ℕ → Bool) → List ℕ → List ℕ → ℕ → ℕ → Option ℕ
find_loop matches target [] index state = none
find_loop matches target (c ∷ source) index state =
    let state' = advance matches target c state in
    let rest = find_loop matches target source (index + 1) state' in
    if state' == length target then some (index - (length target - 1)) else rest

unfoldable pub find_by : (ℕ → ℕ → Bool) → List ℕ → List ℕ → Option ℕ
find_by matches source target =
    if not (0 == length target) && leb (length target) (length source)
    then find_loop matches target source 0 0
    else none

unfoldable pub string_util_find : List ℕ → List ℕ → Option ℕ
string_util_find source target = find_by (λ c t. c == t) source target

abbrev pub lowercase : ℕ → ℕ
lowercase n = if leb b'A' n && leb n b'Z' then n + (b'a' - b'A') else n

abbrev pub matches_case_insensitive : ℕ → ℕ → Bool
matches_case_insensitive c t = (c == t) || (lowercase c == lowercase t)

unfoldable pub string_util_find_case_insensitive : List ℕ → List ℕ → Option ℕ
string_util_find_case_insensitive source target = find_by matches_case_insensitive source target

pub mcl_string_util_find : CString → CString → Option ℕ
mcl_string_util_find none target = none
mcl_string_util_find (some source) none = none
mcl_string_util_find (some source) (some target) = string_util_find source target

pub mcl_string_util_find_case_insensitive : CString → CString → Option ℕ
mcl_string_util_find_case_insensitive none target = none
mcl_string_util_find_case_insensitive (some source) none = none
mcl_string_util_find_case_insensitive (some source) (some target) =
    string_util_find_case_insensitive source target

-- The old target is freed first, so it is gone also when there is no memory for the new one.
unfoldable pub string_util_reset : Bool → List ℕ → CString → Result (Unit {0}) × CString
string_util_reset allocated value target =
    let target' = string_util_strdup allocated value in
    (if allocated then ok tt else err out_of_memory, target')

pub mcl_string_util_reset : Bool → CString → CString → Result (Unit {0}) × CString
mcl_string_util_reset allocated none target = (err triggered_with_null, target)
mcl_string_util_reset allocated (some value) target = string_util_reset allocated value target

unfoldable pub string_util_concatenate : Bool → List ℕ → List ℕ → Result (List ℕ)
string_util_concatenate allocated string_1 string_2 =
    if allocated then ok (string_1 ++ string_2) else err out_of_memory

pub mcl_string_util_concatenate : Bool → CString → CString → Result (List ℕ)
mcl_string_util_concatenate allocated none string_2 = err triggered_with_null
mcl_string_util_concatenate allocated (some string_1) none = err triggered_with_null
mcl_string_util_concatenate allocated (some string_1) (some string_2) =
    string_util_concatenate allocated string_1 string_2
