-- ===== src/TimeUtil/Range.antt =====
-- Timestamps of the format "%Y-%m-%dT%H:%M:%S.000Z", under the check of mcl_core/src/time_util.c.
use mindconnect_lib.Base.{
  ℕ, suc, ◌+◌, ◌^◌, ◌<◌, ◌≤◌, ◌≡◌, ◌↔◌, refl, ap, ◌∙◌, Bool, true, false, ◌&&◌, List, [], ◌∷◌, ◌++◌,
  drop, leb, arith,
}
use mindconnect_lib.StringUtil.{string_util_strlen}
use mindconnect_lib.TimeUtil.{
  Signed, is_digit, string_util_strtol, field_ok, format_loop, values_loop, maximum_values,
  mcl_time_util_validate_timestamp,
}
use mindconnect_lib.TimeUtil.Digits.{decimal, string_util_strtol-decimal, int32_small}

pub record Fields : Type 0 where
  pub year : ℕ
  pub month : ℕ
  pub day : ℕ
  pub hour : ℕ
  pub minute : ℕ
  pub second : ℕ
  pub millisecond : ℕ

-- Fields that have as many digits as the format has room for.
abbrev pub Fits : Fields → Type 0
Fits f =
    (Fields.year f < 10000)
    × (Fields.month f < 100)
    × (Fields.day f < 100)
    × (Fields.hour f < 100)
    × (Fields.minute f < 100)
    × (Fields.second f < 100)
    × (Fields.millisecond f < 1000)

abbrev pub timestamp_of : Fields → List ℕ
timestamp_of f =
    decimal 4 (Fields.year f)
    ++ (b'-'
        ∷ (decimal 2 (Fields.month f)
            ++ (b'-'
                ∷ (decimal 2 (Fields.day f)
                    ++ (b'T'
                        ∷ (decimal 2 (Fields.hour f)
                            ++ (b':'
                                ∷ (decimal 2 (Fields.minute f)
                                    ++ (b':'
                                        ∷ (decimal 2 (Fields.second f)
                                            ++ (b'.'
                                                ∷ (decimal 3 (Fields.millisecond f)
                                                    ++ (b'Z' ∷ [])))))))))))))

abbrev pub IsInRange : Fields → Type 0
IsInRange f =
    ((0 < Fields.year f) × (Fields.year f ≤ 2999))
    × (((0 < Fields.month f) × (Fields.month f ≤ 12))
        × (((0 < Fields.day f) × (Fields.day f ≤ 31))
            × ((Fields.hour f ≤ 23)
                × ((Fields.minute f ≤ 59)
                    × ((Fields.second f ≤ 59) × (Fields.millisecond f ≤ 999))))))

-- One round of the loop, where the text goes on with the digits of a field and its separator.
values_loop-decimal :
    (maximum index position width n c : ℕ) (maxima timestamp rest : List ℕ)
    → n < 10 ^ suc width
    → n < 2 ^ 31
    → is_digit c ≡ false
    → drop position timestamp ≡ decimal (suc width) n ++ (c ∷ rest)
    → values_loop (maximum ∷ maxima) index position timestamp
      ≡ field_ok index maximum (record { negative = false; magnitude = n })
        && values_loop maxima (index + 1) (position + suc width + 1) timestamp
unfolding values_loop
values_loop-decimal maximum index position width n c maxima timestamp rest fits small k text =
    let read : string_util_strtol (drop position timestamp)
        ≡ (record { negative = false; magnitude = n }, suc width) =
      ap string_util_strtol text ∙ string_util_strtol-decimal width n c rest fits small k in
    rw (read, int32_small n small) refl

abbrev positive : ℕ → Signed
positive n = record { negative = false; magnitude = n }

module _ (f : Fields) (fits : Fits f) where
  -- The tests of the seven fields, in their order.
  values_loop-timestamp_of :
      values_loop maximum_values 0 0 (timestamp_of f)
      ≡ field_ok 0 2999 (positive (Fields.year f))
        && (field_ok 1 12 (positive (Fields.month f))
            && (field_ok 2 31 (positive (Fields.day f))
                && (field_ok 3 23 (positive (Fields.hour f))
                    && (field_ok 4 59 (positive (Fields.minute f))
                        && (field_ok 5 59 (positive (Fields.second f))
                            && (field_ok 6 999 (positive (Fields.millisecond f)) && true))))))
  unfolding values_loop
  values_loop-timestamp_of =
      let text : List ℕ = timestamp_of f in
      let (y, mo, d, h, mi, s, ms) = fits in
      rw
        (
          values_loop-decimal 2999 0 0 3 (Fields.year f) b'-' (12 ∷ 31 ∷ 23 ∷ 59 ∷ 59 ∷ 999 ∷ [])
              text _ y (omega arith) refl refl,
          values_loop-decimal 12 1 5 1 (Fields.month f) b'-' (31 ∷ 23 ∷ 59 ∷ 59 ∷ 999 ∷ []) text _
              mo (omega arith) refl refl,
          values_loop-decimal 31 2 8 1 (Fields.day f) b'T' (23 ∷ 59 ∷ 59 ∷ 999 ∷ []) text _ d
              (omega arith) refl refl,
          values_loop-decimal 23 3 11 1 (Fields.hour f) b':' (59 ∷ 59 ∷ 999 ∷ []) text _ h
              (omega arith) refl refl,
          values_loop-decimal 59 4 14 1 (Fields.minute f) b':' (59 ∷ 999 ∷ []) text _ mi
              (omega arith) refl refl,
          values_loop-decimal 59 5 17 1 (Fields.second f) b'.' (999 ∷ []) text _ s (omega arith)
              refl refl,
          values_loop-decimal 999 6 20 2 (Fields.millisecond f) b'Z' [] text _ ms (omega arith) refl
              refl,
        )
        refl

date_iff :
    (index maximum n : ℕ)
    → leb index 2 ≡ true
    → (field_ok index maximum (positive n) ≡ true) ↔ ((0 < n) × (n ≤ maximum))
date_iff index maximum n h = ground arith

time_iff :
    (index maximum n : ℕ)
    → leb index 2 ≡ false
    → (field_ok index maximum (positive n) ≡ true) ↔ (n ≤ maximum)
time_iff index maximum n h = ground arith

and_iff :
    (a b : Bool) (A B : Type 0) → (a ≡ true) ↔ A → (b ≡ true) ↔ B → ((a && b) ≡ true) ↔ (A × B)
and_iff true b A B h k = (λ e. (h.0 refl, k.0 e), λ p. k.1 p.1)
and_iff false b A B h k = (λ e. absurd (cc), λ p. h.1 p.0)

and_true_iff : (a : Bool) (A : Type 0) → (a ≡ true) ↔ A → ((a && true) ≡ true) ↔ A
and_true_iff true A h = h
and_true_iff false A h = h

-- A timestamp in which every field is written with its digits is accepted exactly where the fields are
-- in their ranges: the year from 1 to 2999, the month from 1 to 12, the day from 1 to 31, and the time of
-- day. The length of the month is not looked at.
pub mcl_time_util_validate_timestamp_iff :
    (f : Fields) → Fits f → (mcl_time_util_validate_timestamp (timestamp_of f) ≡ true) ↔ IsInRange f
unfolding mcl_time_util_validate_timestamp string_util_strlen format_loop
mcl_time_util_validate_timestamp_iff f fits = rw (values_loop-timestamp_of f fits) (
    and_iff _ _ _ _ (date_iff 0 2999 (Fields.year f) refl) (
      and_iff _ _ _ _ (date_iff 1 12 (Fields.month f) refl) (
        and_iff _ _ _ _ (date_iff 2 31 (Fields.day f) refl) (
          and_iff _ _ _ _ (time_iff 3 23 (Fields.hour f) refl) (
            and_iff _ _ _ _ (time_iff 4 59 (Fields.minute f) refl) (
              and_iff _ _ _ _ (time_iff 5 59 (Fields.second f) refl)
                (and_true_iff _ _ (time_iff 6 999 (Fields.millisecond f) refl))))))))
