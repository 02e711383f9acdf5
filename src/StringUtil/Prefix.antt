-- ===== src/StringUtil/Prefix.antt =====
-- What the searches of string_util.c find at the start of a source, and behind a text without the
-- character that is searched.
use mindconnect_lib.Base.{
  ℕ, suc, ◌+◌, ◌-◌, ◌≡◌, refl, ap, ◌∙◌, Bool, Bool-cases, true, false, Option, none, some, List, [],
  ◌∷◌, ◌++◌, leb, ◌==◌, ==_iff, if◌then◌else◌, inl, inr, length, get_or, length-append, arith, All,
  get_or-at_end,
}
use mathlib.Core.List.{append_assoc}
use mathlib.Core.Path.{subst}
use mindconnect_lib.StringUtil.{
  advance, find_loop, find_by, string_util_find, matches_case_insensitive,
  string_util_find_case_insensitive,
}
use mindconnect_lib.StringUtil.Find.{find_loop-full, find_loop-hit}

-- The position of the first `c`, counted from `index`.
abbrev pub first_index : ℕ → List ℕ → ℕ → Option ℕ
first_index c [] index = none
first_index c (x ∷ xs) index = if x == c then some index else first_index c xs (index + 1)

find_loop-first_index :
    (c : ℕ) (source : List ℕ) (index : ℕ)
    → find_loop (λ a b. a == b) (c ∷ []) source index 0 ≡ first_index c source index
unfolding find_loop advance
find_loop-first_index c [] index = refl
find_loop-first_index c (x ∷ source) index = elim (Bool-cases (x == c)) [
  | inl e ↦ let z : index - 0 ≡ index = omega arith in rw (e, z) refl
  | inr e ↦ rw e (find_loop-first_index c source (index + 1))
]

-- A search for one character finds its first occurrence, and reports nothing where there is none.
pub string_util_find_char :
    (c : ℕ) (source : List ℕ) → string_util_find source (c ∷ []) ≡ first_index c source 0
unfolding string_util_find find_by
string_util_find_char c [] = refl
string_util_find_char c (x ∷ source) =
    let enough : leb 1 (suc (length source)) ≡ true = ground arith in
    rw enough (find_loop-first_index c (x ∷ source) 0)

-- A search that has matched `seen` goes on to match the rest of the target.
find_loop-rest :
    (matches : ℕ → ℕ → Bool) (seen left rest : List ℕ) (c : ℕ)
    → ((x : ℕ) → matches x x ≡ true)
    → find_loop matches (seen ++ (c ∷ left)) (c ∷ (left ++ rest)) (length seen) (length seen)
      ≡ some 0
find_loop-rest matches seen [] rest c reflexive =
    let target : List ℕ = seen ++ (c ∷ []) in
    let n : length target ≡ length seen + 1 = omega (arith, length-append seen (c ∷ [])) in
    let hit : matches c (get_or target (length seen) 0) ≡ true =
      rw (get_or-at_end seen [] c 0) (reflexive c) in
    find_loop-full matches target c rest (length seen) (length seen) hit (ground (arith, n))
    ∙ ap some (omega (arith, n))
find_loop-rest matches seen (d ∷ left) rest c reflexive =
    let target : List ℕ = seen ++ (c ∷ (d ∷ left)) in
    let n : length target ≡ length seen + (2 + length left) =
      omega (arith, length-append seen (c ∷ (d ∷ left))) in
    let k : length (seen ++ (c ∷ [])) ≡ length seen + 1 =
      omega (arith, length-append seen (c ∷ [])) in
    let hit : matches c (get_or target (length seen) 0) ≡ true =
      rw (get_or-at_end seen (d ∷ left) c 0) (reflexive c) in
    let shape : (seen ++ (c ∷ [])) ++ (d ∷ left) ≡ target = append_assoc seen (c ∷ []) (d ∷ left) in
    find_loop-hit matches target c (d ∷ (left ++ rest)) (length seen) (length seen) hit
      (ground (arith, n))
    ∙ subst
        (λ t. find_loop matches t (d ∷ (left ++ rest)) (length seen + 1) (length seen + 1) ≡ some 0)
        shape
        (subst
          (λ i.
            find_loop matches ((seen ++ (c ∷ [])) ++ (d ∷ left)) (d ∷ (left ++ rest)) i i ≡ some 0)
          k (find_loop-rest matches (seen ++ (c ∷ [])) left rest d reflexive))

matches_self : (x : ℕ) → matches_case_insensitive x x ≡ true
matches_self x = let e : (x == x) ≡ true = (==_iff x x).1 refl in rw e refl

-- A target is found where the source starts with it.
pub string_util_find_case_insensitive_prefix :
    (c : ℕ) (target rest : List ℕ)
    → string_util_find_case_insensitive ((c ∷ target) ++ rest) (c ∷ target) ≡ some 0
unfolding string_util_find_case_insensitive find_by
string_util_find_case_insensitive_prefix c target rest =
    let some_target : (0 == suc (length target)) ≡ false = ground arith in
    let enough : leb (suc (length target)) (suc (length (target ++ rest))) ≡ true =
      ground (arith, length-append target rest) in
    rw (some_target, enough) (find_loop-rest matches_case_insensitive [] target rest c matches_self)

first_index-append :
    (c : ℕ) (xs ys : List ℕ) (n : ℕ)
    → All (λ x. (x == c) ≡ false) xs
    → first_index c (xs ++ (c ∷ ys)) n ≡ some (n + length xs)
first_index-append c [] ys n h =
    let e : (c == c) ≡ true = (==_iff c c).1 refl in rw e (ap some (omega arith))
first_index-append c (x ∷ xs) ys n h =
    rw (h.0) (first_index-append c xs ys (n + 1) h.1 ∙ ap some (omega arith))

pub string_util_find-first :
    (c : ℕ) (xs ys : List ℕ)
    → All (λ x. (x == c) ≡ false) xs
    → string_util_find (xs ++ (c ∷ ys)) (c ∷ []) ≡ some (length xs)
string_util_find-first c xs ys h =
    string_util_find_char c (xs ++ (c ∷ ys))
    ∙ (first_index-append c xs ys 0 h ∙ ap some (omega arith))
