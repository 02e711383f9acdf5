-- ===== src/StringUtil/Find.antt =====
-- What the two searches of string_util.c find, and what they miss.
use mindconnect_lib.Base.{
  ℕ, suc, ◌+◌, ◌-◌, ◌≤◌, ◌<◌, ◌≡◌, refl, sym, ap, ◌∙◌, Bool, Bool-cases, true, false, none, some,
  List, [], ◌∷◌, ◌++◌, leb, ◌==◌, ==_iff, inl, inr, length, get_or, take, length-append, arith,
}
use mathlib.Core.List.{append_assoc}
use mathlib.Core.Path.{subst}
use mindconnect_lib.StringUtil.{
  advance, find_loop, find_by, string_util_find, matches_case_insensitive,
  string_util_find_case_insensitive,
}

-- The two texts have the same length and match character by character.
abbrev pub Matches : (ℕ → ℕ → Bool) → List ℕ → List ℕ → Type 0
Matches matches [] [] = Unit
Matches matches [] (t ∷ target) = ⊥
Matches matches (c ∷ text) [] = ⊥
Matches matches (c ∷ text) (t ∷ target) = (matches c t ≡ true) × Matches matches text target

-- The target stands in the source at `start`.
pub record OccursAt (matches : ℕ → ℕ → Bool) (source target : List ℕ) (start : ℕ) : Type 0 where
  pub before : List ℕ
  pub text : List ℕ
  pub after : List ℕ
  pub shape : source ≡ before ++ (text ++ after)
  pub starts : length before ≡ start
  pub matched : Matches matches text target

module _ (matches : ℕ → ℕ → Bool) where
  Matches-snoc :
      (text target : List ℕ) (c : ℕ)
      → Matches matches text (take (length text) target)
      → length text < length target
      → matches c (get_or target (length text) 0) ≡ true
      → Matches matches (text ++ (c ∷ [])) (take (suc (length text)) target)
  Matches-snoc [] [] c m room hit = absurd (omega arith)
  Matches-snoc [] (t ∷ target) c m room hit = (hit, tt)
  Matches-snoc (x ∷ text) [] c m room hit = absurd (omega arith)
  Matches-snoc (x ∷ text) (t ∷ target) c m room hit =
      (m.0, Matches-snoc text target c m.1 (omega arith) hit)

  take-length : (xs : List ℕ) → take (length xs) xs ≡ xs
  take-length [] = refl
  take-length (x ∷ xs) = ap (λ r. x ∷ r) (take-length xs)

  module _ (target : List ℕ) where
    pub find_loop-full :
        (c : ℕ) (source : List ℕ) (index state : ℕ)
        → matches c (get_or target state 0) ≡ true
        → (state + 1 == length target) ≡ true
        → find_loop matches target (c ∷ source) index state ≡ some (index - (length target - 1))
    unfolding find_loop advance
    find_loop-full c source index state hit full = rw (hit, full) refl

    pub find_loop-hit :
        (c : ℕ) (source : List ℕ) (index state : ℕ)
        → matches c (get_or target state 0) ≡ true
        → (state + 1 == length target) ≡ false
        → find_loop matches target (c ∷ source) index state
          ≡ find_loop matches target source (index + 1) (state + 1)
    unfolding find_loop advance
    find_loop-hit c source index state hit more = rw (hit, more) refl

    find_loop-miss :
        (c : ℕ) (source : List ℕ) (index state : ℕ)
        → matches c (get_or target state 0) ≡ false
        → 0 < length target
        → find_loop matches target (c ∷ source) index state
          ≡ find_loop matches target source (index + 1) 0
    unfolding find_loop advance
    find_loop-miss c source index state miss some_target =
        let e : (0 == length target) ≡ false = ground arith in rw (miss, e) refl

    some_start :
        (index state start : ℕ)
        → some (index - (length target - 1)) ≡ some start
        → (state + 1 == length target) ≡ true
        → index - state ≡ start
    some_start index state start h full =
        let e : index - (length target - 1) ≡ start = cc in
        let f : state + 1 ≡ length target = (==_iff (state + 1) (length target)).0 full in
        omega arith

    whole :
        (text : List ℕ)
        → suc (length text) ≡ length target
        → take (suc (length text)) target ≡ target
    whole text e = rw e (take-length target)

    length-snoc : (text : List ℕ) (c : ℕ) → length (text ++ (c ∷ [])) ≡ suc (length text)
    length-snoc text c = omega (arith, length-append text (c ∷ []))

    -- `text` is the part of what was read, behind `before`, that matches the target so far.
    find_loop-OccursAt :
        (source before text : List ℕ) (index start : ℕ)
        → Matches matches text (take (length text) target)
        → length text < length target
        → length before + length text ≡ index
        → find_loop matches target source index (length text) ≡ some start
        → OccursAt matches (before ++ (text ++ source)) target start
    unfolding find_loop
    find_loop-OccursAt [] before text index start m room at h = cc
    find_loop-OccursAt (c ∷ source) before text index start m room at h =
        elim (Bool-cases (matches c (get_or target (length text) 0))) [
          | inl hit ↦
              let m' : Matches matches (text ++ (c ∷ [])) (take (suc (length text)) target) =
                Matches-snoc text target c m room hit in
              elim (Bool-cases (length text + 1 == length target)) [
                | inl full ↦
                    let f : length text + 1 ≡ length target =
                      (==_iff (length text + 1) (length target)).0 full in
                    record {
                      before = before;
                      text = text ++ (c ∷ []);
                      after = source;
                      shape = ap (λ r. before ++ r) (sym (append_assoc text (c ∷ []) source));
                      starts = omega (
                        arith,
                        some_start index (length text) start
                            (sym (find_loop-full c source index (length text) hit full) ∙ h) full,
                      );
                      matched =
                          subst (λ r. Matches matches (text ++ (c ∷ [])) r)
                            (whole text (omega arith)) m';
                    }
                | inr more ↦
                    subst (λ r. OccursAt matches (before ++ r) target start)
                      (append_assoc text (c ∷ []) source)
                      (find_loop-OccursAt source before (text ++ (c ∷ [])) (index + 1) start
                        (subst (λ r. Matches matches (text ++ (c ∷ [])) (take r target))
                          (sym (length-snoc text c)) m')
                        (ground (arith, length-snoc text c)) (omega (arith, length-snoc text c))
                        (ap (λ r. find_loop matches target source (index + 1) r)
                            (omega (arith, length-snoc text c))
                          ∙ (sym (find_loop-hit c source index (length text) hit more) ∙ h)))
              ]
          | inr miss ↦
              subst (λ r. OccursAt matches r target start)
                (append_assoc before (text ++ (c ∷ [])) source
                  ∙ ap (λ r. before ++ r) (append_assoc text (c ∷ []) source))
                (find_loop-OccursAt source (before ++ (text ++ (c ∷ []))) [] (index + 1) start tt
                  (omega arith)
                  (omega (arith, length-append before (text ++ (c ∷ [])), length-snoc text c))
                  (sym (find_loop-miss c source index (length text) miss (omega arith)) ∙ h))
        ]

find_by-OccursAt :
    (matches : ℕ → ℕ → Bool) (source target : List ℕ) (start : ℕ)
    → find_by matches source target ≡ some start
    → OccursAt matches source target start
unfolding find_by
find_by-OccursAt matches source [] start h = cc
find_by-OccursAt matches source (t ∷ target) start h =
    find_loop-OccursAt matches (t ∷ target) source [] [] 0 start tt (omega arith) refl
      (ground arith)

Matches-exact : (text target : List ℕ) → Matches (λ c t. c == t) text target → text ≡ target
Matches-exact [] [] m = refl
Matches-exact (c ∷ text) (t ∷ target) m =
    let e : c ≡ t = (==_iff c t).0 m.0 in
    let ih : text ≡ target = Matches-exact text target m.1 in rw (e, ih) refl
Matches-exact [] (t ∷ target) m = absurd m
Matches-exact (c ∷ text) [] m = absurd m

-- Where `string_util_find` reports an index, the target stands in the source at that index.
pub string_util_find_sound :
    (source target : List ℕ) (start : ℕ)
    → string_util_find source target ≡ some start
    → (before : List ℕ) × (after : List ℕ) × (source ≡ before ++ (target ++ after))
      × (length before ≡ start)
unfolding string_util_find
string_util_find_sound source target start h =
    let o : OccursAt (λ c t. c == t) source target start =
      find_by-OccursAt (λ c t. c == t) source target start h in
    (
      o.before,
      o.after,
      o.shape ∙ ap (λ r. o.before ++ (r ++ o.after)) (Matches-exact o.text target o.matched),
      o.starts,
    )

-- Where `string_util_find_case_insensitive` reports an index, a text of the target's length that
-- differs from the target in the case of its letters only stands in the source at that index.
pub string_util_find_case_insensitive_sound :
    (source target : List ℕ) (start : ℕ)
    → string_util_find_case_insensitive source target ≡ some start
    → OccursAt matches_case_insensitive source target start
unfolding string_util_find_case_insensitive
string_util_find_case_insensitive_sound source target start h =
    find_by-OccursAt matches_case_insensitive source target start h

find_loop-short :
    (matches : ℕ → ℕ → Bool) (target source : List ℕ) (index state : ℕ)
    → state + length source < length target
    → find_loop matches target source index state ≡ none
unfolding find_loop advance
find_loop-short matches target [] index state h = refl
find_loop-short matches target (c ∷ source) index state h =
    let state' = advance matches target c state in
    let le : state' ≤ state + 1 = ground arith in
    let ih : find_loop matches target source (index + 1) state' ≡ none =
      find_loop-short matches target source (index + 1) state' (omega arith) in
    let e : (state' == length target) ≡ false = ground arith in rw (e, ih) refl

-- A target that starts with two different characters is missed right after a copy of the first
-- one: the mismatch sets the state back to 0 and the character is not compared with the target's
-- first one.
pub string_util_find_missed :
    (a c : ℕ) (rest : List ℕ)
    → (a == c) ≡ false
    → string_util_find (a ∷ a ∷ c ∷ rest) (a ∷ c ∷ rest) ≡ none
unfolding string_util_find find_by
string_util_find_missed a c rest different =
    let target : List ℕ = a ∷ c ∷ rest in
    let eq : (ℕ → ℕ → Bool) = λ x y. x == y in
    let enough : leb (length target) (suc (length target)) ≡ true = ground arith in
    let some_target : (0 == length target) ≡ false = ground arith in
    let flip : (c == a) ≡ false = ground arith in
    rw (some_target, enough)
      (find_loop-hit eq target a target 0 0 (ground arith) (ground arith)
        ∙ (find_loop-miss eq target a (c ∷ rest) 1 1 different (omega arith)
            ∙ (find_loop-miss eq target c rest 2 0 flip (omega arith)
                ∙ find_loop-short eq target rest 3 0 (omega arith))))
