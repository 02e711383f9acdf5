-- ===== src/TimeUtil/Digits.antt =====
-- What `strtol`, as mcl_core/src/time_util.c calls it, reads of a number in decimal digits.
use native.Mathlib.Nat.{pow-suc}
use mindconnect_lib.Base.{
  ℕ, zero, suc, ◌+◌, ◌-◌, ◌*◌, ◌/◌, ◌%◌, ◌^◌, ◌<◌, ◌≡◌, refl, ap, ◌∙◌, ◌==◌, true, false, List, [],
  ◌∷◌, ◌++◌, map, length, length-append, All, All-append, ltb, leb, lt→ltb, le→leb, arith,
}
use mindconnect_lib.TimeUtil.{is_digit, is_space, spaces, read_digits, string_util_strtol, int32}

abbrev pub number_from : ℕ → List ℕ → ℕ
number_from value [] = value
number_from value (d ∷ ds) = number_from (value * 10 + d) ds

abbrev pub characters : List ℕ → List ℕ
characters = map (λ d. b'0' + d)

abbrev pub AreDigits : List ℕ → Type 0
AreDigits = All (λ d. d < 10)

read_digits-characters :
    (ds : List ℕ) (c : ℕ) (rest : List ℕ) (value count : ℕ)
    → AreDigits ds
    → is_digit c ≡ false
    → read_digits (characters ds ++ (c ∷ rest)) value count
      ≡ (number_from value ds, count + length ds)
unfolding read_digits
read_digits-characters [] c rest value count h k =
    let e : count + 0 ≡ count = omega arith in rw (k, e) refl
read_digits-characters (d ∷ ds) c rest value count h k =
    let t : is_digit (b'0' + d) ≡ true = ground arith in
    let v : b'0' + d - b'0' ≡ d = omega arith in
    let n : count + suc (length ds) ≡ count + 1 + length ds = omega arith in
    rw (t, v, n) (read_digits-characters ds c rest (value * 10 + d) (count + 1) h.1 k)

string_util_strtol-characters :
    (d : ℕ) (ds : List ℕ) (c : ℕ) (rest : List ℕ)
    → AreDigits (d ∷ ds)
    → number_from 0 (d ∷ ds) < 2 ^ 31
    → is_digit c ≡ false
    → string_util_strtol (characters (d ∷ ds) ++ (c ∷ rest))
      ≡ (record { negative = false; magnitude = number_from 0 (d ∷ ds) }, suc (length ds))
unfolding string_util_strtol spaces
string_util_strtol-characters d ds c rest h small k =
    let s : is_space (b'0' + d) ≡ false = ground arith in
    let m : (b'0' + d == b'-') ≡ false = ground arith in
    let p : (b'0' + d == b'+') ≡ false = ground arith in
    let n : 0 + suc (length ds) ≡ suc (length ds) = omega arith in
    let l : leb (number_from 0 (d ∷ ds)) (2 ^ 63 - 1) ≡ true =
      le→leb (number_from 0 (d ∷ ds)) (2 ^ 63 - 1) (omega (arith, small)) in
    rw (s, m, p, read_digits-characters (d ∷ ds) c rest 0 0 h k, n, l, n) refl

pub int32_small :
    (n : ℕ)
    → n < 2 ^ 31
    → int32 (record { negative = false; magnitude = n })
      ≡ record { negative = false; magnitude = n }
int32_small n h =
    let e : n % 2 ^ 32 ≡ n = omega arith in
    let l : ltb n (2 ^ 31) ≡ true = lt→ltb n (2 ^ 31) h in rw (e, l) refl

-- The decimal digits of a number, as many as the field of a timestamp has.
abbrev pub digits_of : ℕ → ℕ → List ℕ
digits_of zero n = []
digits_of (suc width) n = digits_of width (n / 10) ++ (n % 10 ∷ [])

abbrev pub decimal : ℕ → ℕ → List ℕ
decimal width n = characters (digits_of width n)

digits_of-AreDigits : (width n : ℕ) → AreDigits (digits_of width n)
digits_of-AreDigits zero n = tt
digits_of-AreDigits (suc width) n =
    All-append (λ d. d < 10) (digits_of width (n / 10)) (n % 10 ∷ [])
      (digits_of-AreDigits width (n / 10)) (omega arith, tt)

number_from-append :
    (value : ℕ) (ds : List ℕ) (d : ℕ)
    → number_from value (ds ++ (d ∷ [])) ≡ number_from value ds * 10 + d
number_from-append value [] d = refl
number_from-append value (e ∷ ds) d = number_from-append (value * 10 + e) ds d

number_from-digits_of : (width n : ℕ) → n < 10 ^ width → number_from 0 (digits_of width n) ≡ n
number_from-digits_of zero n h = omega arith
number_from-digits_of (suc width) n h = omega (
  arith,
  number_from-append 0 (digits_of width (n / 10)) (n % 10),
  number_from-digits_of width (n / 10) (omega (arith, pow-suc 10 width)),
)

length-digits_of : (width n : ℕ) → length (digits_of width n) ≡ width
length-digits_of zero n = refl
length-digits_of (suc width) n =
    omega (
      arith,
      length-append (digits_of width (n / 10)) (n % 10 ∷ []),
      length-digits_of width (n / 10),
    )

string_util_strtol-digits :
    (ds : List ℕ) (c : ℕ) (rest : List ℕ)
    → 0 < length ds
    → AreDigits ds
    → number_from 0 ds < 2 ^ 31
    → is_digit c ≡ false
    → string_util_strtol (characters ds ++ (c ∷ rest))
      ≡ (record { negative = false; magnitude = number_from 0 ds }, length ds)
string_util_strtol-digits [] c rest h = absurd (omega arith)
string_util_strtol-digits (d ∷ ds) c rest h = string_util_strtol-characters d ds c rest

pub string_util_strtol-decimal :
    (width n c : ℕ) (rest : List ℕ)
    → n < 10 ^ suc width
    → n < 2 ^ 31
    → is_digit c ≡ false
    → string_util_strtol (decimal (suc width) n ++ (c ∷ rest))
      ≡ (record { negative = false; magnitude = n }, suc width)
string_util_strtol-decimal width n c rest fits small k =
    let value : number_from 0 (digits_of (suc width) n) ≡ n =
      number_from-digits_of (suc width) n fits in
    let size : length (digits_of (suc width) n) ≡ suc width = length-digits_of (suc width) n in
    string_util_strtol-digits (digits_of (suc width) n) c rest (omega (arith, size))
      (digits_of-AreDigits (suc width) n) (omega (arith, value, small)) k
    ∙ (ap (λ v. (record { negative = false; magnitude = v }, length (digits_of (suc width) n)))
          value
        ∙ ap (λ l. (record { negative = false; magnitude = n }, l)) size)
