-- ===== src/Multipart/Step.antt =====
-- What the copies of multipart.c write behind a text that the buffer already holds.
use mindconnect_lib.Base.{
  ℕ, zero, suc, ◌<◌, ◌≤◌, ◌+◌, ◌-◌, ◌≡◌, refl, sym, ap, ◌∙◌, true, false, List, [], ◌∷◌, ◌++◌,
  length, length-append, take, take-append, drop, arith, leb,
}
use mathlib.Core.List.{append_assoc, append-nil}
use mathlib.Core.Path.{subst}
use mindconnect_lib.Base.Code.{ok, err, fail}
use mindconnect_lib.Multipart.States.{boundary_sign, boundary_length}
use mindconnect_lib.Multipart.Copy.{Progress, memcpy, add_boundary, add_text}
use mindconnect_lib.Multipart.Message.{open_line, close_line, line_end}

-- The buffer holds `text` up to the position, and `tail` is the room behind it.
pub record At (text tail : List ℕ) (p : Progress) : Type 0 where
  pub code : p.code ≡ ok tt
  pub buffer : p.buffer ≡ text ++ tail
  pub position : p.position ≡ length text
  pub room : p.remaining_size ≡ length tail

module _ {ℓ} {A : Type ℓ} where
  drop-append : (xs ys : List A) (n : ℕ) → drop (length xs + n) (xs ++ ys) ≡ drop n ys
  drop-append [] ys n = let e : 0 + n ≡ n = omega arith in rw e refl
  drop-append (x ∷ xs) ys n =
      let e : suc (length xs) + n ≡ suc (length xs + n) = omega arith in rw e (drop-append xs ys n)

  drop-drop : (m n : ℕ) (xs : List A) → drop n (drop m xs) ≡ drop (m + n) xs
  drop-drop zero n xs = let e : 0 + n ≡ n = omega arith in rw e refl
  drop-drop (suc m) zero [] = let e : suc m + 0 ≡ suc m = omega arith in rw e refl
  drop-drop (suc m) (suc n) [] = let e : suc m + suc n ≡ suc (m + suc n) = omega arith in rw e refl
  drop-drop (suc m) n (x ∷ xs) =
      let e : suc m + n ≡ suc (m + n) = omega arith in rw e (drop-drop m n xs)

  pub length-drop : (n : ℕ) (xs : List A) → length (drop n xs) ≡ length xs - n
  length-drop zero xs = omega arith
  length-drop (suc n) [] = omega arith
  length-drop (suc n) (x ∷ xs) = omega (arith, length-drop n xs)

  pub take_self : (xs : List A) (n : ℕ) → length xs ≡ n → take n xs ≡ xs
  take_self xs n h = rw (sym h) (ap (take (length xs)) (sym (append-nil xs)) ∙ take-append xs [])

memcpy_at :
    (text tail source : List ℕ)
    → memcpy (text ++ tail) (length text) source ≡ text ++ (source ++ drop (length source) tail)
unfolding memcpy
memcpy_at text tail source = rw (take-append text tail, drop-append text tail (length source)) refl

-- Two copies one behind the other are one.
memcpy-memcpy :
    (text tail first second : List ℕ)
    → memcpy (text ++ (first ++ drop (length first) tail)) (length text + length first) second
      ≡ text ++ ((first ++ second) ++ drop (length (first ++ second)) tail)
memcpy-memcpy text tail first second =
    let shape : text ++ (first ++ drop (length first) tail)
        ≡ (text ++ first) ++ drop (length first) tail =
      sym (append_assoc text first (drop (length first) tail)) in
    rw
      (
        shape,
        sym (length-append text first),
        memcpy_at (text ++ first) (drop (length first) tail) second,
        drop-drop (length first) (length second) tail,
        length-append first second,
      )
      (append_assoc text first (second ++ drop (length first + length second) tail)
        ∙ ap (λ r. text ++ r)
            (sym (append_assoc first second (drop (length first + length second) tail))))

-- The buffer with a source written behind the text.
abbrev pub filled : List ℕ → List ℕ → List ℕ → List ℕ
filled text tail source = text ++ (source ++ drop (length source) tail)

pub add_line :
    (text tail boundary : List ℕ) (position : ℕ)
    → position ≡ length text + length boundary_sign
    → length boundary ≡ 20
    → memcpy (memcpy (text ++ tail) (length text) boundary_sign) position (take 20 boundary)
      ≡ filled text tail (boundary_sign ++ boundary)
add_line text tail boundary position at h =
    rw (take_self boundary 20 h, at, memcpy_at text tail boundary_sign)
      (memcpy-memcpy text tail boundary_sign boundary)

pub append_at :
    (text tail first second : List ℕ) (position : ℕ)
    → position ≡ length text + length first
    → memcpy (filled text tail first) position second ≡ filled text tail (first ++ second)
append_at text tail first second position at = rw at (memcpy-memcpy text tail first second)

pub add_boundary_open :
    (text tail boundary : List ℕ)
    → length boundary ≡ 20
    → add_boundary (text ++ tail) (length text) boundary false
      ≡ text ++ (open_line boundary ++ drop (length (open_line boundary)) tail)
unfolding add_boundary
add_boundary_open text tail boundary h =
    ap (λ b. memcpy b (length text + length boundary_sign + boundary_length) line_end)
      (add_line text tail boundary (length text + length boundary_sign) refl h)
    ∙ append_at text tail (boundary_sign ++ boundary) line_end
        (length text + length boundary_sign + boundary_length) (omega arith)

pub add_boundary_close :
    (text tail boundary : List ℕ)
    → length boundary ≡ 20
    → add_boundary (text ++ tail) (length text) boundary true
      ≡ text ++ (close_line boundary ++ drop (length (close_line boundary)) tail)
unfolding add_boundary
add_boundary_close text tail boundary h =
    let signed : List ℕ = boundary_sign ++ boundary in
    let inner : ℕ = length text + length boundary_sign + boundary_length in
    let shape : (signed ++ boundary_sign) ++ line_end ≡ close_line boundary =
      append_assoc signed boundary_sign line_end
      ∙ append_assoc boundary_sign boundary (boundary_sign ++ line_end) in
    ap (λ b. memcpy (memcpy b inner boundary_sign) (inner + length boundary_sign) line_end)
      (add_line text tail boundary (length text + length boundary_sign) refl h)
    ∙ (ap (λ b. memcpy b (inner + length boundary_sign) line_end)
          (append_at text tail signed boundary_sign inner (omega arith))
        ∙ (append_at text tail (signed ++ boundary_sign) line_end (inner + length boundary_sign)
              (omega (arith, length-append boundary boundary_sign))
            ∙ ap (λ r. filled text tail r) shape))

-- A round whose copy leaves the buffer, the position and the room as told has added its text.
pub At-moved :
    (text tail source : List ℕ) (p q : Progress)
    → At text tail p
    → q.code ≡ p.code
    → q.buffer ≡ text ++ (source ++ drop (length source) tail)
    → q.position ≡ p.position + length source
    → q.remaining_size ≡ p.remaining_size - length source
    → At (text ++ source) (drop (length source) tail) q
At-moved text tail source p q at code buffer position room = record {
  code = code ∙ at.code;
  buffer = buffer ∙ sym (append_assoc text source (drop (length source) tail));
  position = omega (arith, position, at.position, length-append text source);
  room = omega (arith, room, at.room, length-drop (length source) tail);
}

pub memcpy-At :
    (text tail source : List ℕ) (p : Progress)
    → At text tail p
    → memcpy p.buffer p.position source ≡ text ++ (source ++ drop (length source) tail)
memcpy-At text tail source p at = rw (at.buffer, at.position) (memcpy_at text tail source)

pub add_text-At :
    (text tail source : List ℕ) (p : Progress)
    → At text tail p
    → length source ≤ length tail
    → At (text ++ source) (drop (length source) tail) (add_text source p)
unfolding add_text
add_text-At text tail source p at fits =
    let enough : leb (length source) p.remaining_size ≡ true = ground (arith, at.room) in
    rw enough (At-moved text tail source p _ at refl (memcpy-At text tail source p at) refl refl)

pub add_text-fail :
    (source : List ℕ) (p : Progress)
    → p.remaining_size < length source
    → add_text source p ≡ record p { code = err fail }
unfolding add_text
add_text-fail source p short =
    let e : leb (length source) p.remaining_size ≡ false = ground arith in rw e refl

pub At-joined :
    (text tail first second : List ℕ) (p : Progress)
    → At ((text ++ first) ++ second) (drop (length second) (drop (length first) tail)) p
    → At (text ++ (first ++ second)) (drop (length (first ++ second)) tail) p
At-joined text tail first second p at =
    let shape : drop (length second) (drop (length first) tail)
        ≡ drop (length (first ++ second)) tail =
      drop-drop (length first) (length second) tail
      ∙ ap (λ n. drop n tail) (sym (length-append first second)) in
    subst (λ r. At (text ++ (first ++ second)) r p) shape
      (subst (λ r. At r (drop (length second) (drop (length first) tail)) p)
        (append_assoc text first second) at)

pub At-nothing : (text tail : List ℕ) (p : Progress) → At text tail p → At (text ++ []) tail p
At-nothing text tail p at = subst (λ r. At r tail p) (sym (append-nil text)) at
