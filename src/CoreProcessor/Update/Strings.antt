-- ===== src/CoreProcessor/Update/Strings.antt =====
-- What the comparison of two strings in mcl_core/src/core_processor.c finds out.
use mindconnect_lib.Base.{
  ℕ, zero, suc, ◌≡◌, ◌≢◌, ◌⊎◌, inl, inr, refl, ap, sym, ◌∙◌, ==_iff, true, List, [], ◌∷◌, length,
  arith,
}
use mindconnect_lib.Base.Code.{ok, err, fail}
use mindconnect_lib.StringUtil.{string_util_strlen, string_util_strncmp, same_prefix}
use mindconnect_lib.CoreProcessor.Update.{compare_strings}

same_prefix_self : (xs : List ℕ) (n : ℕ) → same_prefix n xs xs ≡ true
unfolding same_prefix
same_prefix_self xs zero = refl
same_prefix_self [] (suc n) = refl
same_prefix_self (x ∷ xs) (suc n) = ground (arith, same_prefix_self xs n)

same_prefix_same :
    (xs ys : List ℕ) → length xs ≡ length ys → same_prefix (length ys) xs ys ≡ true → xs ≡ ys
unfolding same_prefix
same_prefix_same [] [] n h = refl
same_prefix_same [] (y ∷ ys) n h = absurd (omega arith)
same_prefix_same (x ∷ xs) [] n h = absurd (omega arith)
same_prefix_same (x ∷ xs) (y ∷ ys) n h = ground (arith, same_prefix_same xs ys (omega arith))

compare_strings_self : (xs : List ℕ) → compare_strings xs xs ≡ ok tt
unfolding compare_strings string_util_strlen string_util_strncmp
compare_strings_self xs =
    rw ((==_iff (length xs) (length xs)).1 refl, same_prefix_self xs (length xs)) refl

compare_strings_same : (xs ys : List ℕ) → compare_strings xs ys ≡ ok tt → xs ≡ ys
unfolding compare_strings string_util_strlen string_util_strncmp
compare_strings_same xs ys h = ground (arith, same_prefix_same xs ys)

compare_strings_codes :
    (xs ys : List ℕ) → (compare_strings xs ys ≡ ok tt) ⊎ (compare_strings xs ys ≡ err fail)
unfolding compare_strings string_util_strlen string_util_strncmp
compare_strings_codes xs ys = ground arith

pub compare_strings-cases :
    (xs ys : List ℕ)
    → ((xs ≡ ys) × (compare_strings xs ys ≡ ok tt))
      ⊎ ((xs ≢ ys) × (compare_strings xs ys ≡ err fail))
compare_strings-cases xs ys = elim (compare_strings_codes xs ys) [
  | inl e ↦ inl (compare_strings_same xs ys e, e)
  | inr e ↦ inr (
    λ same.
        let self : compare_strings xs ys ≡ ok tt =
          ap (λ t. compare_strings xs t) (sym same) ∙ compare_strings_self xs in
        cc,
    e,
  )
]
