-- ===== src/Connectivity/CustomData/Copied.antt =====
-- How the payload of custom data gets into a message in mcl_connectivity/src/connectivity_processor.c.
use mindconnect_lib.Base.{
  ℕ, zero, suc, ◌<◌, ◌≤◌, ◌+◌, ◌-◌, ◌≡◌, refl, sym, ap, ◌∙◌, true, false, Bool-cases, not, ◌&&◌,
  ◌==◌, some, List, [], ◌∷◌, ◌++◌, length, length-take, take, drop, arith, ltb, if◌then◌else◌, inl,
  inr,
}
use mindconnect_lib.Base.Code.{Result, ok, err, fail}
use mindconnect_lib.Exchange.Store.{size_sub}
use mindconnect_lib.LinkedList.{size_max}
use mindconnect_lib.Multipart.Copy.{PayloadCallback, Progress}
use mindconnect_lib.Multipart.Tuple.{add_item_payload}
use mindconnect_lib.Multipart.Step.{At}
use mindconnect_lib.Multipart.Payload.{served, add_item_payload-served}
use mindconnect_lib.Connectivity.CustomData.{
  CustomData, write_size_of, custom_data_payload_callback,
}

module _ (custom_data : CustomData) (small : CustomData.size custom_data ≤ size_max)
    (whole : length (CustomData.buffer custom_data) ≡ CustomData.size custom_data) where
  abbrev callback : PayloadCallback ℕ
  callback = custom_data_payload_callback custom_data

  -- A callback never writes more than the room that it is given.
  callback-bounded : (offset room : ℕ) → length (callback offset room).0 ≤ room
  unfolding custom_data_payload_callback write_size_of
  callback-bounded offset room = ground (
    arith,
    length-take (write_size_of custom_data offset room)
        (drop offset (CustomData.buffer custom_data)),
  )

  take_all : (xs : List ℕ) → take (length xs) xs ≡ xs
  take_all [] = refl
  take_all (x ∷ xs) = ap (λ ys. x ∷ ys) (take_all xs)

  append_nil : (xs : List ℕ) → xs ++ [] ≡ xs
  append_nil [] = refl
  append_nil (x ∷ xs) = ap (λ ys. x ∷ ys) (append_nil xs)

  first_call :
      (room : ℕ)
      → CustomData.size custom_data < room
      → callback 0 room ≡ (CustomData.buffer custom_data, CustomData.size custom_data)
  unfolding custom_data_payload_callback write_size_of
  first_call room fits =
      let remaining : size_sub (CustomData.size custom_data) 0 ≡ CustomData.size custom_data =
        omega arith in
      let less : ltb (CustomData.size custom_data) room ≡ true = ground arith in
      rw (remaining, less, sym whole, take_all (CustomData.buffer custom_data))
        (ap (λ n. (CustomData.buffer custom_data, n)) (omega arith))

  nothing_left : (room : ℕ) → write_size_of custom_data (CustomData.size custom_data) room ≡ 0
  unfolding write_size_of
  nothing_left room =
      let remaining : size_sub (CustomData.size custom_data) (CustomData.size custom_data) ≡ 0 =
        omega arith in
      rw remaining (ground arith)

  last_call :
      (room : ℕ) → callback (CustomData.size custom_data) room ≡ ([], CustomData.size custom_data)
  unfolding custom_data_payload_callback
  last_call room = rw (nothing_left room) (ap (λ n. ([], n)) (omega arith))

  served_last :
      (fuel room : ℕ) → served callback (suc fuel) (CustomData.size custom_data) room ≡ ([], 0)
  served_last fuel room = rw (last_call room) refl

  -- Where there is more room than the payload takes, one call writes all of it and the next one nothing.
  served_whole :
      (room : ℕ)
      → CustomData.size custom_data < room
      → served callback (suc room) 0 room ≡ (CustomData.buffer custom_data, 0)
  served_whole zero fits = absurd (omega arith)
  served_whole (suc room) fits = elim (Bool-cases (0 == length (CustomData.buffer custom_data))) [
    | inl empty ↦
        rw (first_call (suc room) fits, empty)
          (ap (λ n. (CustomData.buffer custom_data, n)) (ground arith))
    | inr filled ↦
        let more : (0 == (suc room - length (CustomData.buffer custom_data))) ≡ false =
          ground arith in
        rw (first_call (suc room) fits, filled, more, last_call)
          (ap (λ l. (l, 0)) (append_nil (CustomData.buffer custom_data)))
  ]

  no_fail :
      (n : ℕ) (failed code : Result (Unit {0}))
      → (if (0 == n) && not (0 == 0) then failed else code) ≡ code
  no_fail n failed code = elim (Bool-cases (0 == n)) [ inl e ↦ rw e refl | inr e ↦ rw e refl ]

  -- For custom data whose size is that of its buffer, and where there is more room than the payload
  -- takes, `_add_item_payload` with the callback ends, writes exactly the payload behind the text that
  -- the buffer holds, moves the position over it and leaves the code as it was.
  pub custom_data_payload_callback_lem :
      (text tail : List ℕ) (p : Progress)
      → CustomData.size custom_data < length tail
      → At text tail p
      → (q : Progress) × (add_item_payload
            (CustomData.item custom_data)
            (some (custom_data_payload_callback custom_data))
            0
            p
          ≡ some q)
        × (q.buffer
            ≡ (text ++ CustomData.buffer custom_data) ++ drop (CustomData.size custom_data) tail)
        × (q.position ≡ length text + CustomData.size custom_data)
        × (q.code ≡ ok tt)
  custom_data_payload_callback_lem text tail p fits at =
      let q =
        add_item_payload-served callback (CustomData.item custom_data) 0 text tail p
          callback-bounded at in
      let e = served_whole (length tail) fits in
      (
        q.0,
        q.1,
        q.2
            ∙ (ap (λ s. (text ++ s.0) ++ drop (length s.0) tail) e
                ∙ ap (λ n. (text ++ CustomData.buffer custom_data) ++ drop n tail) whole),
        q.3 ∙ (ap (λ s. length text + length s.0) e ∙ ap (λ n. length text + n) whole),
        q.4
            ∙ (ap (λ s. if (0 == q.0.remaining_size) && not (0 == s.1) then err fail else ok tt) e
                ∙ no_fail q.0.remaining_size (err fail) (ok tt)),
      )
