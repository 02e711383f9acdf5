-- ===== src/StringUtil/Copy.antt =====
-- What the comparison, the bounded length and the formatted print of string_util.c compute.
use mindconnect_lib.Base.{
  get_or-at_end, ltb, leb, ◌&&◌, ℕ, zero, suc, ◌+◌, ◌-◌, ◌≤◌, ◌<◌, ◌≡◌, ◌≢◌, ◌↔◌, refl, sym, ap,
  ◌∙◌, true, false, List, [], ◌∷◌, ◌++◌, some, ◌==◌, ==_iff, length, take, All, length-append,
  arith,
}
use Prim.Native.Nat.{min}
use mathlib.Core.List.{append_assoc}
use mindconnect_lib.Base.Code.{ok}
use mindconnect_lib.StringUtil.{
  strnlen_loop, string_util_strnlen, mcl_string_util_strnlen, same_prefix, string_util_strncmp,
  mcl_string_util_strncmp, print_formatted_string,
}

same_prefix-take :
    (count : ℕ) (xs ys : List ℕ) → same_prefix count xs ys ≡ true → take count xs ≡ take count ys
unfolding same_prefix
same_prefix-take zero xs ys h = refl
same_prefix-take (suc count) [] [] h = refl
same_prefix-take (suc count) [] (y ∷ ys) h = cc
same_prefix-take (suc count) (x ∷ xs) [] h = cc
same_prefix-take (suc count) (x ∷ xs) (y ∷ ys) h =
    let e : x ≡ y = ground arith in
    let t : same_prefix count xs ys ≡ true = ground arith in
    rw (e, same_prefix-take count xs ys t) refl

take-same_prefix :
    (count : ℕ) (xs ys : List ℕ) → take count xs ≡ take count ys → same_prefix count xs ys ≡ true
unfolding same_prefix
take-same_prefix zero xs ys h = refl
take-same_prefix (suc count) [] [] h = refl
take-same_prefix (suc count) [] (y ∷ ys) h = cc
take-same_prefix (suc count) (x ∷ xs) [] h = cc
take-same_prefix (suc count) (x ∷ xs) (y ∷ ys) h =
    let e : x ≡ y = cc in
    let t : take count xs ≡ take count ys = cc in
    let d : (x == y) ≡ true = (==_iff x y).1 e in rw (d, take-same_prefix count xs ys t) refl

-- `mcl_string_util_strncmp` returns `MCL_OK` on two strings exactly if their first `count`
-- characters are the same.
pub mcl_string_util_strncmp_iff :
    (string_1 string_2 : List ℕ) (count : ℕ)
    → (mcl_string_util_strncmp (some string_1) (some string_2) count ≡ ok tt)
      ↔ (take count string_1 ≡ take count string_2)
unfolding mcl_string_util_strncmp string_util_strncmp
mcl_string_util_strncmp_iff string_1 string_2 count = (
  λ h. same_prefix-take count string_1 string_2 (ground arith),
  λ h. rw (take-same_prefix count string_1 string_2 h) refl,
)

strnlen_loop-append :
    (before text rest : List ℕ) (left : ℕ)
    → All (λ c. c ≢ 0) text
    → strnlen_loop (before ++ (text ++ (0 ∷ rest))) left (length before)
      ≡ length before + min left (length text)
unfolding strnlen_loop
strnlen_loop-append before text rest zero h = omega arith
strnlen_loop-append before [] rest (suc left) h = rw (get_or-at_end before rest 0 0) (omega arith)
strnlen_loop-append before (c ∷ text) rest (suc left) h =
    let e : (c == 0) ≡ false = ground arith in
    let ih : strnlen_loop ((before ++ (c ∷ [])) ++ (text ++ (0 ∷ rest))) left
          (length (before ++ (c ∷ [])))
        ≡ length (before ++ (c ∷ [])) + min left (length text) =
      strnlen_loop-append (before ++ (c ∷ [])) text rest left h.1 in
    let n : length (before ++ (c ∷ [])) ≡ length before + 1 =
      omega (arith, length-append before (c ∷ [])) in
    let s : (before ++ (c ∷ [])) ++ (text ++ (0 ∷ rest)) ≡ before ++ (c ∷ (text ++ (0 ∷ rest))) =
      append_assoc before (c ∷ []) (text ++ (0 ∷ rest)) in
    rw (get_or-at_end before (text ++ (0 ∷ rest)) c 0, e)
      (ap (λ r. strnlen_loop r left (length before + 1)) (sym s)
        ∙ (ap (λ r. strnlen_loop ((before ++ (c ∷ [])) ++ (text ++ (0 ∷ rest))) left r) (sym n)
            ∙ omega (arith, ih, n)))

-- On memory that holds a text, its terminator and more, `mcl_string_util_strnlen` returns the
-- length of the text or the maximum, whichever is smaller.
pub mcl_string_util_strnlen-min :
    (text rest : List ℕ) (maximum_length : ℕ)
    → All (λ c. c ≢ 0) text
    → mcl_string_util_strnlen (some (text ++ (0 ∷ rest))) maximum_length
      ≡ min maximum_length (length text)
unfolding mcl_string_util_strnlen string_util_strnlen
mcl_string_util_strnlen-min text rest maximum_length h =
    strnlen_loop-append [] text rest maximum_length h ∙ omega arith

pub take_all : (n : ℕ) (xs : List ℕ) → length xs ≤ n → take n xs ≡ xs
take_all zero [] h = refl
take_all zero (x ∷ xs) h = absurd (omega arith)
take_all (suc n) [] h = refl
take_all (suc n) (x ∷ xs) h = ap (λ r. x ∷ r) (take_all n xs (omega arith))

-- What is shorter than the buffer is printed whole.
pub print_formatted_string-whole :
    (size : ℕ) (text : List ℕ)
    → 0 < length text
    → length text < size
    → print_formatted_string size text ≡ (ok tt, text)
unfolding print_formatted_string
print_formatted_string-whole size text filled fits =
    let a : (ltb 0 (length text) && leb (length text) size) ≡ true = ground arith in
    rw (a, take_all (size - 1) text (omega arith)) refl
