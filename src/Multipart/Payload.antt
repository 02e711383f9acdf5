-- ===== src/Multipart/Payload.antt =====
-- The payload callback of multipart.c (`_add_item_payload`): how often it is called, and what it
-- leaves in the buffer.
use mindconnect_lib.Base.{
  ℕ, zero, suc, ◌<◌, ◌≤◌, ◌+◌, ◌-◌, ◌≡◌, refl, sym, ap, ◌∙◌, Bool-cases, not, ◌&&◌, ◌==◌, some,
  List, [], ◌++◌, length, length-append, drop, arith, if◌then◌else◌, inl, inr,
}
use mathlib.Core.Path.{subst}
use mathlib.Core.Option
use mindconnect_lib.Base.Code.{ok, err, fail}
use mindconnect_lib.Multipart.Copy.{Item, PayloadCallback, Progress, memcpy, callback_code}
use mindconnect_lib.Multipart.Tuple.{payload_loop, add_item_payload}
use mindconnect_lib.Multipart.Step.{At, At-moved, memcpy-At, At-joined}

module _ {Context : Type 0} (callback : PayloadCallback Context) where
  -- The bytes that the calls write until one of them writes nothing or fills the room, and the
  -- number that the last call returns.
  abbrev pub served : ℕ → Context → ℕ → List ℕ × ℕ
  served zero user_context room = ([], 0)
  served (suc fuel) user_context room =
      let answer = callback user_context room in
      let count = length answer.0 in
      let rest = served fuel answer.1 (room - count) in
      if not (0 == count) && not (0 == (room - count))
      then (answer.0 ++ rest.0, rest.1)
      else (answer.0, count)

  record Serves (text tail : List ℕ) (fuel : ℕ) (user_context : Context) (p : Progress)
      : Type 0 where
    pub after : Progress
    pub loop :
        payload_loop fuel callback user_context p
        ≡ some ((served fuel user_context p.remaining_size).1, after)
    pub held :
        At
          (text ++ (served fuel user_context p.remaining_size).0)
          (drop (length (served fuel user_context p.remaining_size).0) tail)
          after

  payload_loop-Serves :
      (fuel : ℕ) (user_context : Context) (text tail : List ℕ) (p : Progress)
      → ((c : Context) (room : ℕ) → length (callback c room).0 ≤ room)
      → p.remaining_size < fuel
      → At text tail p
      → Serves text tail fuel user_context p
  unfolding payload_loop
  payload_loop-Serves zero user_context text tail p bounded enough at = absurd (omega arith)
  payload_loop-Serves (suc fuel) user_context text tail p bounded enough at =
      let answer : List ℕ × Context = callback user_context p.remaining_size in
      let count : ℕ = length answer.0 in
      let p' : Progress = record p {
        buffer = memcpy p.buffer p.position answer.0;
        position = p.position + count;
        remaining_size = p.remaining_size - count;
      } in
      let at' : At (text ++ answer.0) (drop count tail) p' =
        At-moved text tail answer.0 p p' at refl (memcpy-At text tail answer.0 p at) refl refl in
      elim (Bool-cases (not (0 == count) && not (0 == (p.remaining_size - count)))) [
        | inl more ↦
            let ih : Serves (text ++ answer.0) (drop count tail) fuel answer.1 p' =
              payload_loop-Serves fuel answer.1 (text ++ answer.0) (drop count tail) p' bounded
                (ground arith) at' in
            record {
              after = ih.after;
              loop = rw more ih.loop;
              held = rw more (
                  At-joined text tail answer.0 (served fuel answer.1 (p.remaining_size - count)).0
                    ih.after ih.held);
            }
        | inr last ↦ record { after = p'; loop = rw last refl; held = rw last at' }
      ]

  callback_code-cases :
      (value : ℕ) (p : Progress)
      → p.code ≡ ok tt
      → (callback_code (value, p)).code
        ≡ (if (0 == p.remaining_size) && not (0 == value) then err fail else ok tt)
  unfolding callback_code
  callback_code-cases value p h = elim (Bool-cases ((0 == p.remaining_size) && not (0 == value))) [
    | inl e ↦ rw e refl
    | inr e ↦ rw e h
  ]

  callback_code-still :
      (value : ℕ) (p : Progress)
      → ((callback_code (value, p)).buffer ≡ p.buffer)
        × ((callback_code (value, p)).position ≡ p.position)
        × ((callback_code (value, p)).remaining_size ≡ p.remaining_size)
  unfolding callback_code
  callback_code-still value p = elim (Bool-cases ((0 == p.remaining_size) && not (0 == value))) [
    | inl e ↦ rw e (refl, refl, refl)
    | inr e ↦ rw e (refl, refl, refl)
  ]

  -- With a callback that never writes more than the room it is given, `_add_item_payload` ends: behind
  -- the text that the buffer holds stand the bytes that the calls wrote, one behind the other, the
  -- position has moved over them, and the code is `MCL_FAIL` exactly if they fill the room and the
  -- last call wrote something.
  pub add_item_payload-served :
      (item : Item) (user_context : Context) (text tail : List ℕ) (p : Progress)
      → ((c : Context) (room : ℕ) → length (callback c room).0 ≤ room)
      → At text tail p
      → (q : Progress) × (add_item_payload item (some callback) user_context p ≡ some q)
        × (q.buffer
            ≡ (text ++ (served (suc (length tail)) user_context (length tail)).0)
              ++ drop (length (served (suc (length tail)) user_context (length tail)).0) tail)
        × (q.position
            ≡ length text + length (served (suc (length tail)) user_context (length tail)).0)
        × (q.code ≡ (
            if (0 == q.remaining_size)
              && not (0 == (served (suc (length tail)) user_context (length tail)).1)
            then err fail
            else ok tt))
  unfolding add_item_payload
  add_item_payload-served item user_context text tail p bounded at =
      let s : Serves text tail (suc p.remaining_size) user_context p =
        payload_loop-Serves (suc p.remaining_size) user_context text tail p bounded (omega arith)
          at in
      let bytes : List ℕ = (served (suc p.remaining_size) user_context p.remaining_size).0 in
      let last : ℕ = (served (suc p.remaining_size) user_context p.remaining_size).1 in
      let still = callback_code-still last s.after in
      let e : p.remaining_size ≡ length tail = at.room in
      subst
        (λ r.
          (q : Progress) × (add_item_payload item (some callback) user_context p ≡ some q)
          × (q.buffer
              ≡ (text ++ (served (suc r) user_context r).0)
                ++ drop (length (served (suc r) user_context r).0) tail)
          × (q.position ≡ length text + length (served (suc r) user_context r).0)
          × (q.code ≡ (
              if (0 == q.remaining_size) && not (0 == (served (suc r) user_context r).1)
              then err fail
              else ok tt)))
        e
        (
          callback_code (last, s.after),
          ap (Option.map callback_code) s.loop,
          still.0 ∙ s.held.buffer,
          still.1 ∙ (s.held.position ∙ length-append text bytes),
          callback_code-cases last s.after s.held.code
              ∙ ap (λ n. if (0 == n) && not (0 == last) then err fail else ok tt) (sym still.2),
        )
