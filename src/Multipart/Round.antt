-- ===== src/Multipart/Round.antt =====
-- One round of the loop of `multipart_add_tuple_with_callback`, for an item that json.c prints and
-- without a callback: it adds the part of its state, or fails where the part does not fit.
use mindconnect_lib.Base.{
  ℕ, suc, ◌<◌, ◌≤◌, ◌≡◌, refl, sym, ap, ◌∙◌, true, false, Bool-cases, ◌||◌, none, some, List, ◌++◌,
  length, drop, arith, ltb, ◌==◌, inl, inr, ◌⊎◌,
}
use mindconnect_lib.Base.Code.{ok, err, fail}
use mindconnect_lib.StringUtil.{CString}
use mindconnect_lib.Multipart.States.{
  State, open_main_boundary, content_type_key_for_multipart_related,
  content_type_value_multipart_related, state_boundary_key, boundary_value_sub_boundary,
  double_endline_first, open_sub_boundary_first, content_type_key_for_meta_json,
  content_type_value_meta_json, double_endline_second, item_meta_json, endline_first,
  open_sub_boundary_second, content_type_key_for_payload, content_type_value_payload,
  double_endline_third, item_payload, endline_second, close_sub_boundary, end, next,
  space_needed_for_state,
}
use mindconnect_lib.Multipart.Copy.{
  Progress, memcpy, add_boundary, add_text, add_result, add_item_meta_json,
  add_item_payload_content_type, copy, open_boundary, close_boundary, or_empty, advance, is_end,
}
use mindconnect_lib.Multipart.Tuple.{Tuple, run_state, add_item_payload, tuple_loop}
use mindconnect_lib.Multipart.Message.{piece, open_line, close_line}
use mindconnect_lib.Multipart.Step.{
  At, memcpy-At, add_text-At, add_text-fail, add_boundary_open, add_boundary_close, take_self,
}
use mindconnect_lib.Multipart.Lines.{
  open_line-length, close_line-length, content_type-add_text, advance-moved, advance-still,
}

module _ (boundary sub_boundary meta : List ℕ) (type : CString) (payload : List ℕ) (size : ℕ)
    (boundary_fits : length boundary ≡ 20) (sub_boundary_fits : length sub_boundary ≡ 20) where
  abbrev pub tuple : Tuple (Unit {0})
  tuple = record {
    item = record { meta = ok meta; payload = ok payload; size = size };
    boundary = boundary;
    sub_boundary = some sub_boundary;
    payload_content_type = type;
    callback = none;
    user_context = tt;
  }

  abbrev pub part : State → List ℕ
  part = piece boundary sub_boundary meta type payload

  -- A state either copies a text of the length that the table holds for it,
  record Fixed (text tail : List ℕ) (p : Progress) (state : State) : Type 0 where
    pub buffer : List ℕ
    pub space : space_needed_for_state state ≡ length (part state)
    pub run : run_state tuple state p ≡ some (record p { buffer = buffer })
    pub written : buffer ≡ text ++ (part state ++ drop (length (part state)) tail)

  -- or a text of any length, for which it checks the room itself.
  record Free (p : Progress) (state : State) : Type 0 where
    pub space : space_needed_for_state state ≡ 0
    pub run : run_state tuple state p ≡ some (add_text (part state) p)

  module _ (text tail : List ℕ) (p : Progress) (at : At text tail p) where
    Fixed-copy :
        (state : State)
        → space_needed_for_state state ≡ length (part state)
        → run_state tuple state p
          ≡ some (record p { buffer = memcpy p.buffer p.position (part state) })
        → Fixed text tail p state
    Fixed-copy state space run = record {
      buffer = memcpy p.buffer p.position (part state);
      space = space;
      run = run;
      written = memcpy-At text tail (part state) p at;
    }

    opened :
        (b : List ℕ)
        → length b ≡ 20
        → add_boundary p.buffer p.position b false
          ≡ text ++ (open_line b ++ drop (length (open_line b)) tail)
    opened b h = rw (at.buffer, at.position) (add_boundary_open text tail b h)

    closed :
        (b : List ℕ)
        → length b ≡ 20
        → add_boundary p.buffer p.position b true
          ≡ text ++ (close_line b ++ drop (length (close_line b)) tail)
    closed b h = rw (at.buffer, at.position) (add_boundary_close text tail b h)

    kinds : (state : State) → is_end state ≡ false → Fixed text tail p state ⊎ Free p state
    unfolding piece run_state space_needed_for_state copy open_boundary close_boundary or_empty
        add_item_meta_json add_item_payload_content_type add_item_payload add_result is_end
    kinds open_main_boundary h = inl (record {
      buffer = _;
      space = open_line-length boundary boundary_fits;
      run = refl;
      written = opened boundary boundary_fits;
    })
    kinds content_type_key_for_multipart_related h = inl (Fixed-copy _ refl refl)
    kinds content_type_value_multipart_related h = inl (Fixed-copy _ refl refl)
    kinds state_boundary_key h = inl (Fixed-copy _ refl refl)
    kinds boundary_value_sub_boundary h = inl (
        Fixed-copy _ (sym sub_boundary_fits)
          (ap (λ r. copy r p) (take_self sub_boundary 20 sub_boundary_fits)))
    kinds double_endline_first h = inl (Fixed-copy _ refl refl)
    kinds open_sub_boundary_first h = inl (record {
      buffer = _;
      space = open_line-length sub_boundary sub_boundary_fits;
      run = refl;
      written = opened sub_boundary sub_boundary_fits;
    })
    kinds content_type_key_for_meta_json h = inl (Fixed-copy _ refl refl)
    kinds content_type_value_meta_json h = inl (Fixed-copy _ refl refl)
    kinds double_endline_second h = inl (Fixed-copy _ refl refl)
    kinds item_meta_json h = inr (record { space = refl; run = refl })
    kinds endline_first h = inl (Fixed-copy _ refl refl)
    kinds open_sub_boundary_second h = inl (record {
      buffer = _;
      space = open_line-length sub_boundary sub_boundary_fits;
      run = refl;
      written = opened sub_boundary sub_boundary_fits;
    })
    kinds content_type_key_for_payload h = inl (Fixed-copy _ refl refl)
    kinds content_type_value_payload h =
        inr (record { space = refl; run = ap some (content_type-add_text type p) })
    kinds double_endline_third h = inl (Fixed-copy _ refl refl)
    kinds item_payload h = inr (record { space = refl; run = refl })
    kinds endline_second h = inl (Fixed-copy _ refl refl)
    kinds close_sub_boundary h = inl (record {
      buffer = _;
      space = close_line-length sub_boundary sub_boundary_fits;
      run = refl;
      written = closed sub_boundary sub_boundary_fits;
    })
    kinds end h = absurd (cc)

  -- One round of the loop that leads to the next state,
  pub record Goes (text tail : List ℕ) (p : Progress) (state : State) : Type 0 where
    pub after : Progress
    pub held : At (text ++ part state) (drop (length (part state)) tail) after
    pub loop :
        (fuel : ℕ) → tuple_loop (suc fuel) tuple state p ≡ tuple_loop fuel tuple (next state) after

  -- and one that ends it with a failure.
  pub record Stops (p : Progress) (state : State) : Type 0 where
    pub after : Progress
    pub code : after.code ≡ err fail
    pub loop : (fuel : ℕ) → tuple_loop (suc fuel) tuple state p ≡ some after

  tuple_loop-go :
      (state : State) (p q : Progress) (fuel : ℕ)
      → is_end state ≡ false
      → 0 < p.remaining_size
      → space_needed_for_state state ≤ p.remaining_size
      → run_state tuple state p ≡ some q
      → q.code ≡ ok tt
      → tuple_loop (suc fuel) tuple state p ≡ tuple_loop fuel tuple (next state) (advance state q)
  unfolding tuple_loop
  tuple_loop-go state p q fuel more filled room run code =
      let a : (0 == p.remaining_size) ≡ false = ground arith in
      let b : ltb p.remaining_size (space_needed_for_state state) ≡ false = ground arith in
      rw (more, a, b, run, code) refl

  tuple_loop-broken :
      (state : State) (p : Progress) (fuel : ℕ)
      → is_end state ≡ false
      → 0 < p.remaining_size
      → space_needed_for_state state ≤ p.remaining_size
      → run_state tuple state p ≡ some (record p { code = err fail })
      → tuple_loop (suc fuel) tuple state p ≡ some (record p { code = err fail })
  unfolding tuple_loop
  tuple_loop-broken state p fuel more filled room run =
      let a : (0 == p.remaining_size) ≡ false = ground arith in
      let b : ltb p.remaining_size (space_needed_for_state state) ≡ false = ground arith in
      rw (more, a, b, run) refl

  tuple_loop-short :
      (state : State) (p : Progress) (fuel : ℕ)
      → is_end state ≡ false
      → ((0 == p.remaining_size) || ltb p.remaining_size (space_needed_for_state state)) ≡ true
      → tuple_loop (suc fuel) tuple state p ≡ some (record p { code = err fail })
  unfolding tuple_loop
  tuple_loop-short state p fuel more short = rw (more, short) refl

  module _ (text tail : List ℕ) (p : Progress) (at : At text tail p) where
    pub goes :
        (state : State)
        → is_end state ≡ false
        → 0 < length tail
        → length (part state) ≤ length tail
        → Goes text tail p state
    goes state more filled fits = elim (kinds text tail p at state more) [
      | inl k ↦ record {
        after = advance state (record p { buffer = k.buffer });
        held = advance-moved text tail (part state) k.buffer p state at k.space k.written;
        loop = λ fuel.
            tuple_loop-go state p (record p { buffer = k.buffer }) fuel more
              (omega (arith, at.room)) (omega (arith, at.room, k.space)) k.run at.code;
      }
      | inr k ↦
          let q : At (text ++ part state) (drop (length (part state)) tail)
              (add_text (part state) p) =
            add_text-At text tail (part state) p at fits in
          record {
            after = advance state (add_text (part state) p);
            held =
                advance-still (text ++ part state) (drop (length (part state)) tail)
                  (add_text (part state) p) state q k.space;
            loop = λ fuel.
                tuple_loop-go state p (add_text (part state) p) fuel more (omega (arith, at.room))
                  (omega (arith, at.room, k.space)) k.run q.code;
          }
    ]

    pub stops :
        (state : State)
        → is_end state ≡ false
        → (length tail ≡ 0) ⊎ (length tail < length (part state))
        → Stops p state
    stops state more short =
        let failed : Progress = record p { code = err fail } in
        elim (Bool-cases
          ((0 == p.remaining_size) || ltb p.remaining_size (space_needed_for_state state))) [
            | inl guard ↦ record {
              after = failed;
              code = refl;
              loop = λ fuel. tuple_loop-short state p fuel more guard;
            }
            | inr passed ↦ elim (kinds text tail p at state more) [
              | inl k ↦ absurd (ground (arith, at.room, k.space))
              | inr k ↦
                  let filled : 0 < p.remaining_size = ground arith in
                  let less : p.remaining_size < length (part state) = ground (arith, at.room) in
                  record {
                    after = failed;
                    code = refl;
                    loop = λ fuel.
                        tuple_loop-broken state p fuel more filled (omega (arith, k.space))
                          (k.run ∙ ap some (add_text-fail (part state) p less));
                  }
            ]
          ]
