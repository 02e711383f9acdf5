-- ===== src/StringUtil/Tests.antt =====
-- Runs of string_util.c, and its theorems at concrete inputs.
use mindconnect_lib.Base.{◌≡◌, refl, List, [], ◌∷◌, ◌++◌, ℕ, none, some, length, false, true}
use mindconnect_lib.Base.Code.{ok, err, out_of_memory, triggered_with_null}
use mindconnect_lib.StringUtil.{
  advance, find_loop, find_by, string_util_find, string_util_find_case_insensitive,
  mcl_string_util_reset, string_util_reset, string_util_strdup, mcl_string_util_concatenate,
  string_util_concatenate, mcl_string_util_find_case_insensitive,
}
use mindconnect_lib.StringUtil.Find.{string_util_find_sound, string_util_find_missed}

-- "Host: a:b" with the keys "host" and "t: ".
abbrev host_line : List ℕ
host_line = 72 ∷ 111 ∷ 115 ∷ 116 ∷ 58 ∷ 32 ∷ 97 ∷ 58 ∷ 98 ∷ []

abbrev host_key : List ℕ
host_key = 104 ∷ 111 ∷ 115 ∷ 116 ∷ []

abbrev middle : List ℕ
middle = 116 ∷ 58 ∷ 32 ∷ []

find_middle : string_util_find host_line middle ≡ some 3
unfolding string_util_find find_by find_loop advance
find_middle = refl

find_host : string_util_find_case_insensitive host_line host_key ≡ some 0
unfolding string_util_find_case_insensitive find_by find_loop advance
find_host = refl

find_null : mcl_string_util_find_case_insensitive (some host_line) none ≡ none
unfolding mcl_string_util_find_case_insensitive
find_null = refl

-- A failed reset leaves no string behind.
reset_runs :
    (mcl_string_util_reset true (some host_key) none ≡ (ok tt, some host_key))
    × (mcl_string_util_reset false (some host_key) (some middle) ≡ (err out_of_memory, none))
    × (mcl_string_util_reset true none (some middle) ≡ (err triggered_with_null, some middle))
unfolding mcl_string_util_reset string_util_reset string_util_strdup
reset_runs = (refl, refl, refl)

concatenate_runs :
    (mcl_string_util_concatenate true (some middle) (some middle) ≡ ok (middle ++ middle))
    × (mcl_string_util_concatenate false (some middle) (some middle) ≡ err out_of_memory)
unfolding mcl_string_util_concatenate string_util_concatenate
concatenate_runs = (refl, refl)

string_util_find_sound_example :
    (before : List ℕ) × (after : List ℕ) × (host_line ≡ before ++ (middle ++ after))
    × (length before ≡ 3)
string_util_find_sound_example = string_util_find_sound host_line middle 3 find_middle

-- "ab" is missed in "aab".
string_util_find_missed_example : string_util_find (97 ∷ 97 ∷ 98 ∷ []) (97 ∷ 98 ∷ []) ≡ none
string_util_find_missed_example = string_util_find_missed 97 98 [] refl
