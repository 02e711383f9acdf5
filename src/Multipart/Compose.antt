-- ===== src/Multipart/Compose.antt =====
-- `multipart_add_tuple_with_callback` without a callback writes the tuple as RFC 2046 lays it out, or
-- fails where there is no room for it.
use mindconnect_lib.Base.{
  ℕ, zero, suc, ◌<◌, ◌≤◌, ◌+◌, ◌-◌, ◌≡◌, refl, ap, ◌∙◌, Bool-cases, ◌||◌, Option, none, some, List,
  [], ◌++◌, length, length-append, drop, arith, ltb, ◌==◌, inl, inr, ◌⊎◌,
}
use mathlib.Core.Option
use mindconnect_lib.Base.Code.{ok, err, fail}
use mindconnect_lib.StringUtil.{CString}
use mindconnect_lib.Multipart.States.{State, open_main_boundary, end, next}
use mindconnect_lib.Multipart.Copy.{Progress, is_end}
use mindconnect_lib.Multipart.Tuple.{tuple_loop, Written, leave, multipart_add_tuple_with_callback}
use mindconnect_lib.Multipart.Message.{piece, message, pieces_all, all-Left, pieces, Left}
use mindconnect_lib.Multipart.Step.{At, At-joined, At-nothing, length-drop}
use mindconnect_lib.Multipart.Round.{tuple, Goes, Stops, goes, stops}

module _ (boundary sub_boundary meta : List ℕ) (type : CString) (payload : List ℕ) (size : ℕ)
    (boundary_fits : length boundary ≡ 20) (sub_boundary_fits : length sub_boundary ≡ 20) where
  -- What is written from a state on.
  abbrev rest_from : ℕ → State → List ℕ
  rest_from = pieces boundary sub_boundary meta type payload

  record Ends (text tail source : List ℕ) (fuel : ℕ) (p : Progress) (state : State) : Type 0 where
    pub after : Progress
    pub loop :
        tuple_loop fuel
          (tuple boundary sub_boundary meta type payload size boundary_fits sub_boundary_fits)
          state
          p
        ≡ some after
    pub held : At (text ++ source) (drop (length source) tail) after

  record Fails (fuel : ℕ) (p : Progress) (state : State) : Type 0 where
    pub after : Progress
    pub loop :
        tuple_loop fuel
          (tuple boundary sub_boundary meta type payload size boundary_fits sub_boundary_fits)
          state
          p
        ≡ some after
    pub code : after.code ≡ err fail

  tuple_loop-end :
      (state : State) (p : Progress)
      → state ≡ end
      → tuple_loop 1
          (tuple boundary sub_boundary meta type payload size boundary_fits sub_boundary_fits)
          state
          p
        ≡ some p
  unfolding tuple_loop is_end
  tuple_loop-end state p e = rw e refl

  tuple_loop-Ends :
      (n : ℕ) (state : State) (text tail : List ℕ) (p : Progress)
      → Left boundary sub_boundary meta type payload n state
      → At text tail p
      → length (rest_from n state) ≤ length tail
      → Ends text tail (rest_from n state) (suc n) p state
  unfolding Left
  tuple_loop-Ends zero state text tail p left at fits = record {
    after = p;
    loop = tuple_loop-end state p left;
    held = At-nothing text tail p at;
  }
  tuple_loop-Ends (suc n) state text tail p left at fits =
      let source : List ℕ = piece boundary sub_boundary meta type payload state in
      let sum : length (rest_from (suc n) state)
          ≡ length source + length (rest_from n (next state)) =
        length-append source (rest_from n (next state)) in
      let g : Goes boundary sub_boundary meta type payload size boundary_fits sub_boundary_fits text
          tail p state =
        goes boundary sub_boundary meta type payload size boundary_fits sub_boundary_fits text tail
          p at state left.0 (omega (arith, left.1)) (omega (arith, sum)) in
      let ih : Ends (text ++ source) (drop (length source) tail) (rest_from n (next state)) (suc n)
          g.after (next state) =
        tuple_loop-Ends n (next state) (text ++ source) (drop (length source) tail) g.after left.2
          g.held (omega (arith, sum, length-drop (length source) tail)) in
      record {
        after = ih.after;
        loop = g.loop (suc n) ∙ ih.loop;
        held = At-joined text tail source (rest_from n (next state)) ih.after ih.held;
      }

  tuple_loop-Fails :
      (n : ℕ) (state : State) (text tail : List ℕ) (p : Progress)
      → Left boundary sub_boundary meta type payload n state
      → At text tail p
      → length tail < length (rest_from n state)
      → Fails (suc n) p state
  unfolding Left
  tuple_loop-Fails zero state text tail p left at short = absurd (omega arith)
  tuple_loop-Fails (suc n) state text tail p left at short =
      let source : List ℕ = piece boundary sub_boundary meta type payload state in
      let sum : length (rest_from (suc n) state)
          ≡ length source + length (rest_from n (next state)) =
        length-append source (rest_from n (next state)) in
      let stopped : (length tail ≡ 0) ⊎ (length tail < length source)
          → Fails (suc (suc n)) p state =
        λ h.
          let s : Stops boundary sub_boundary meta type payload size boundary_fits sub_boundary_fits
              p state =
            stops boundary sub_boundary meta type payload size boundary_fits sub_boundary_fits text
              tail p at state left.0 h in
          record { after = s.after; loop = s.loop (suc n); code = s.code } in
      elim (Bool-cases (ltb (length tail) (length source) || (0 == length tail))) [
        | inl h ↦ stopped (ground arith)
        | inr h ↦
            let g : Goes boundary sub_boundary meta type payload size boundary_fits
                sub_boundary_fits text tail p state =
              goes boundary sub_boundary meta type payload size boundary_fits sub_boundary_fits text
                tail p at state left.0 (ground arith) (ground arith) in
            let ih : Fails (suc n) g.after (next state) =
              tuple_loop-Fails n (next state) (text ++ source) (drop (length source) tail) g.after
                left.2 g.held (ground (arith, sum, length-drop (length source) tail)) in
            record { after = ih.after; loop = g.loop (suc n) ∙ ih.loop; code = ih.code }
      ]

leave_ok :
    (size : ℕ) (text tail : List ℕ) (p : Progress)
    → At text tail p
    → leave size p ≡ record { code = ok tt; buffer = text ++ tail; buffer_size = length tail }
unfolding leave
leave_ok size text tail p at = rw (at.code, at.buffer, at.room) refl

leave_fail :
    (size : ℕ) (p : Progress)
    → p.code ≡ err fail
    → leave size p ≡ record { code = err fail; buffer = p.buffer; buffer_size = size }
unfolding leave
leave_fail size p h = rw h refl

module _ (boundary sub_boundary meta : List ℕ) (type : CString) (payload buffer : List ℕ) (size : ℕ)
    (boundary_fits : length boundary ≡ 20) (sub_boundary_fits : length sub_boundary ≡ 20) where
  abbrev added : Option Written
  added =
      multipart_add_tuple_with_callback {Context = Unit {0}} buffer (length buffer)
        (record { meta = ok meta; payload = ok payload; size = size }) boundary type none tt
        (ok sub_boundary)

  abbrev start : Progress
  start = record { code = ok tt; buffer = buffer; position = 0; remaining_size = length buffer }

  start-At : At [] buffer start
  start-At = record { code = refl; buffer = refl; position = refl; room = refl }

  added_ok :
      (text : List ℕ)
      → pieces boundary sub_boundary meta type payload 19 open_main_boundary ≡ text
      → length text ≤ length buffer
      → added
        ≡ some (record {
          code = ok tt;
          buffer = text ++ drop (length text) buffer;
          buffer_size = length buffer - length text;
        })
  unfolding multipart_add_tuple_with_callback
  added_ok text shape fits =
      let rest : List ℕ = pieces boundary sub_boundary meta type payload 19 open_main_boundary in
      let e : Ends boundary sub_boundary meta type payload size boundary_fits sub_boundary_fits []
          buffer rest 20 start open_main_boundary =
        tuple_loop-Ends boundary sub_boundary meta type payload size boundary_fits sub_boundary_fits
          19 open_main_boundary [] buffer start (all-Left boundary sub_boundary meta type payload)
          start-At (omega (arith, ap (λ (r : List ℕ). length r) shape)) in
      ap (Option.map (leave (length buffer))) e.loop
      ∙ ap some (
          leave_ok (length buffer) rest (drop (length rest) buffer) e.after e.held
          ∙ rw (shape, length-drop (length text) buffer) refl)

  -- Where the buffer has room for the tuple, `multipart_add_tuple_with_callback` returns `MCL_OK`,
  -- writes exactly the message of RFC 2046 at the start of the buffer, leaves the buffer behind it
  -- as it was, and takes its length off `*buffer_size`. The boundaries have 20 characters, and json.c
  -- prints the meta and the payload.
  pub multipart_add_tuple_with_callback-message :
      length (message boundary sub_boundary meta type payload) ≤ length buffer
      → added
        ≡ some (record {
          code = ok tt;
          buffer =
              message boundary sub_boundary meta type payload
              ++ drop (length (message boundary sub_boundary meta type payload)) buffer;
          buffer_size = length buffer - length (message boundary sub_boundary meta type payload);
        })
  multipart_add_tuple_with_callback-message fits =
      added_ok (message boundary sub_boundary meta type payload)
        (pieces_all boundary sub_boundary meta type payload) fits

  -- Where the buffer has no room for the tuple, `multipart_add_tuple_with_callback` returns
  -- `MCL_FAIL` and leaves `*buffer_size` as it was. The boundaries have 20 characters, and json.c prints
  -- the meta and the payload.
  pub multipart_add_tuple_with_callback-fail :
      length buffer < length (message boundary sub_boundary meta type payload)
      → (buffer' : List ℕ) × (added
          ≡ some (record { code = err fail; buffer = buffer'; buffer_size = length buffer }))
  unfolding multipart_add_tuple_with_callback
  multipart_add_tuple_with_callback-fail short =
      let f : Fails boundary sub_boundary meta type payload size boundary_fits sub_boundary_fits 20
          start open_main_boundary =
        tuple_loop-Fails boundary sub_boundary meta type payload size boundary_fits
          sub_boundary_fits 19 open_main_boundary [] buffer start
          (all-Left boundary sub_boundary meta type payload) start-At
          (omega (
            arith,
            ap (λ (r : List ℕ). length r) (pieces_all boundary sub_boundary meta type payload),
          )) in
      (
        f.after.buffer,
        ap (Option.map (leave (length buffer))) f.loop
            ∙ ap some (leave_fail (length buffer) f.after f.code),
      )
