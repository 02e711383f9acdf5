-- ===== src/Base64/Padding.antt =====
-- The two scans for padding characters that `_decode_with_table` makes before it decodes.
use mindconnect_lib.Base.{
  ℕ, zero, suc, ◌+◌, ◌-◌, ◌≤◌, ◌<◌, ◌≡◌, refl, ap, ◌∙◌, true, false, List, [], ◌∷◌, ◌++◌, arith,
  ◌==◌, length, get_or, All, length-append, get_or-append,
}
use mindconnect_lib.Base.Code.{ok}
use mindconnect_lib.Base64.{padding_char, count_padding, has_padding}

abbrev pub IsPlain : ℕ → Type 0
IsPlain c = (c == padding_char) ≡ false

abbrev pub pads : ℕ → List ℕ
pads zero = []
pads (suc n) = padding_char ∷ pads n

length-pads : (n : ℕ) → length (pads n) ≡ n
length-pads zero = refl
length-pads (suc n) = ap suc (length-pads n)

get_or-pads : (n j : ℕ) → j < n → (get_or (pads n) j 0 == padding_char) ≡ true
get_or-pads zero j h = elim h [ ]
get_or-pads (suc n) zero h = refl
get_or-pads (suc n) (suc j) h = get_or-pads n j (omega arith)

-- A text whose padding characters are its last `count` ones, behind at least one other.
pub record IsPadded (text : List ℕ) (count : ℕ) : Type 0 where
  pub body : List ℕ
  pub final : ℕ
  pub shape : text ≡ body ++ (final ∷ pads count)
  pub body_plain : All IsPlain body
  pub final_plain : IsPlain final

pub IsPadded-cons :
    (c : ℕ) {text : List ℕ} {count : ℕ}
    → IsPlain c
    → IsPadded text count
    → IsPadded (c ∷ text) count
IsPadded-cons c plain is = record {
  body = c ∷ is.body;
  final = is.final;
  shape = ap (λ r. c ∷ r) is.shape;
  body_plain = (plain, is.body_plain);
  final_plain = is.final_plain;
}

count_padding_stop :
    (text : List ℕ) (i p : ℕ) → IsPlain (get_or text i 0) → count_padding text i p ≡ ok p
unfolding count_padding
count_padding_stop text zero p h = refl
count_padding_stop text (suc i) p h = rw h

count_padding_step :
    (text : List ℕ) (i p : ℕ)
    → (get_or text (suc i) 0 == padding_char) ≡ true
    → p < 2
    → count_padding text (suc i) p ≡ count_padding text i (p + 1)
unfolding count_padding
count_padding_step text i p h lt = ground arith

module _ (body : List ℕ) (final count : ℕ) where
  abbrev padded : List ℕ
  padded = body ++ (final ∷ pads count)

  count_padding_scan :
      (j p : ℕ)
      → j ≤ count
      → p + j ≤ 2
      → IsPlain final
      → count_padding padded (length body + j) p ≡ ok (p + j)
  count_padding_scan zero p le small plain =
      count_padding_stop padded (length body + 0) p
        (rw (get_or-append body (final ∷ pads count) 0 0) plain)
      ∙ ap ok (omega arith)
  count_padding_scan (suc j) p le small plain =
      let e : length body + suc j ≡ suc (length body + j) = omega arith in
      let hit : (get_or padded (suc (length body + j)) 0 == padding_char) ≡ true =
        rw (← e, get_or-append body (final ∷ pads count) (suc j) 0)
          (get_or-pads count j (omega arith)) in
      rw (e, count_padding_step padded (length body + j) p hit (omega arith))
        (count_padding_scan j (p + 1) (omega arith) (omega arith) plain ∙ ap ok (omega arith))

has_padding-body :
    (xs rest : List ℕ) → All IsPlain xs → has_padding (length xs) (xs ++ rest) ≡ false
unfolding has_padding
has_padding-body [] rest h = refl
has_padding-body (x ∷ xs) rest h = rw h.0 (has_padding-body xs rest h.1)

-- Both scans see what `IsPadded` says: the count is found, and nothing before it is padding.
pub scans_lem :
    {text : List ℕ} {count : ℕ}
    → IsPadded text count
    → count ≤ 2
    → (count_padding text (length text - 1) 0 ≡ ok count)
      × (has_padding (length text - (1 + count)) text ≡ false)
scans_lem {text} {count} is le =
    let whole : length text ≡ length is.body + suc count =
      rw is.shape
        (length-append is.body _ ∙ ap (λ k. length is.body + suc k) (length-pads count)) in
    let top : length text - 1 ≡ length is.body + count = omega arith in
    let front : length text - (1 + count) ≡ length is.body = omega arith in
    (
      rw (top, is.shape)
          (count_padding_scan is.body is.final count count 0 (omega arith) (omega arith)
              is.final_plain
            ∙ ap ok (omega arith)),
      rw (front, is.shape) (has_padding-body is.body _ is.body_plain),
    )
