-- ===== src/Connectivity/Body/Printed.antt =====
-- The body of a single item that json.c prints, in mcl_connectivity/src/connectivity_processor.c.
use mindconnect_lib.Base.{
  ℕ, ◌<◌, ◌≤◌, ◌+◌, ◌-◌, ◌≡◌, refl, true, false, List, ◌++◌, length, leb, ltb, arith, inl, inr,
  Bool-cases,
}
use mindconnect_lib.Base.Code.{ok, err, fail, item_exceeds_max_http_request_size}
use mindconnect_lib.StringUtil.Copy.{take_all}
use mindconnect_lib.Multipart.States.{boundary_sign}
use mindconnect_lib.Multipart.Tuple.{multipart_get_overhead_size}
use mindconnect_lib.Exchange.Loop.{Client}
use mindconnect_lib.Exchange.TextItems.{
  TextItem, text_composer, text_message, get_item_size, get_item_size-message,
  add_item_to_buffer_whole, add_item_to_buffer_short,
}
use mindconnect_lib.Connectivity.Body.{closed, body_size_of, prepare_body}

-- `multipart_close` where the room suffices for its line, and where it does not.
closed_whole :
    (size : ℕ) (boundary bytes : List ℕ)
    → length boundary ≡ 20
    → length bytes + 24 ≤ size
    → closed size boundary bytes ≡ ok (bytes ++ (boundary_sign ++ (boundary ++ boundary_sign)))
unfolding closed multipart_get_overhead_size
closed_whole size boundary bytes h fits =
    let room : leb 24 (size - length bytes) ≡ true = ground arith in
    rw (room, take_all 20 boundary (omega (arith, h))) refl

closed_short :
    (size : ℕ) (boundary bytes : List ℕ)
    → size < length bytes + 24
    → closed size boundary bytes ≡ err fail
unfolding closed multipart_get_overhead_size
closed_short size boundary bytes short =
    let room : leb 24 (size - length bytes) ≡ false = ground arith in rw room refl

-- The closing line of a body.
abbrev pub closing : List ℕ → List ℕ
closing boundary = boundary_sign ++ (boundary ++ boundary_sign)

module _ {World : Type 0} (client : Client World) (maximum : ℕ) (boundary : List ℕ)
    (boundary_fits : length boundary ≡ 20) (i : TextItem) (w : World)
    (allocated : (Client.allocate client w).0 ≡ true) where
  body_whole :
      body_size_of text_composer client maximum i ≤ maximum
      → length (TextItem.meta i) + length (TextItem.payload i) ≤ TextItem.size i
      → prepare_body text_composer client maximum i boundary w
        ≡ (ok (text_message boundary i ++ closing boundary), (Client.allocate client w).1)
  unfolding prepare_body body_size_of multipart_get_overhead_size
  body_whole fits enough =
      let size : ℕ = get_item_size i + 24 in
      let small : ltb maximum size ≡ false = ground arith in
      let room : length (text_message boundary i) ≤ get_item_size i =
        omega (arith, get_item_size-message boundary boundary_fits i) in
      rw
        (
          small,
          allocated,
          add_item_to_buffer_whole boundary boundary_fits i size (omega arith),
          closed_whole size boundary (text_message boundary i) boundary_fits (omega arith),
        )
        refl

  body_short :
      body_size_of text_composer client maximum i ≤ maximum
      → TextItem.size i < length (TextItem.meta i) + length (TextItem.payload i)
      → prepare_body text_composer client maximum i boundary w
        ≡ (err fail, (Client.allocate client w).1)
  unfolding prepare_body body_size_of multipart_get_overhead_size
  body_short fits short =
      let size : ℕ = get_item_size i + 24 in
      let small : ltb maximum size ≡ false = ground arith in
      let room : get_item_size i < length (text_message boundary i) =
        omega (arith, get_item_size-message boundary boundary_fits i) in
      elim (Bool-cases (leb (length (text_message boundary i)) size)) [
        | inl written ↦
            rw
              (
                small,
                allocated,
                add_item_to_buffer_whole boundary boundary_fits i size (ground arith),
                closed_short size boundary (text_message boundary i) (omega arith),
              )
              refl
        | inr missing ↦
            rw
              (
                small,
                allocated,
                add_item_to_buffer_short boundary boundary_fits i size (ground arith),
              )
              refl
      ]

  body_refused :
      maximum < body_size_of text_composer client maximum i
      → prepare_body text_composer client maximum i boundary w
        ≡ (err item_exceeds_max_http_request_size, w)
  unfolding prepare_body
  body_refused large =
      let big : ltb maximum (body_size_of text_composer client maximum i) ≡ true = ground arith in
      rw big refl

  -- For an item that json.c prints, a boundary of 20 characters and memory: where the reckoned size
  -- of the body is at most the maximum of a request, `_prepare_body` returns the message of the item
  -- and the closing line, byte for byte, if json.c reckoned at least as many characters as it prints, and
  -- `MCL_FAIL` if it reckoned fewer, be it by one. Where the reckoned size is larger, the item is
  -- refused before memory is asked for.
  pub prepare_body_lem :
      (body_size_of text_composer client maximum i ≤ maximum
        → length (TextItem.meta i) + length (TextItem.payload i) ≤ TextItem.size i
        → prepare_body text_composer client maximum i boundary w
          ≡ (ok (text_message boundary i ++ closing boundary), (Client.allocate client w).1))
      × (body_size_of text_composer client maximum i ≤ maximum
          → TextItem.size i < length (TextItem.meta i) + length (TextItem.payload i)
          → prepare_body text_composer client maximum i boundary w
            ≡ (err fail, (Client.allocate client w).1))
      × (maximum < body_size_of text_composer client maximum i
          → prepare_body text_composer client maximum i boundary w
            ≡ (err item_exceeds_max_http_request_size, w))
  prepare_body_lem = (body_whole, body_short, body_refused)
