-- ===== src/Exchange/Body.antt =====
-- The body that `_prepare_body_for_store` in connectivity_processor.c makes of the chosen items.
use mindconnect_lib.Base.{
  ℕ, ◌<◌, ◌≤◌, ◌-◌, ◌≡◌, refl, sym, ap, true, false, Bool-cases, List, [], ◌∷◌, ◌++◌, map, All, leb,
  ◌==◌, if◌then◌else◌, length, length-append, length-take, take, arith, inl, inr,
}
use mathlib.Core.Path.{subst}
use mindconnect_lib.Base.Code.{ok}
use mindconnect_lib.Multipart.States.{boundary_sign}
use mindconnect_lib.Multipart.Tuple.{multipart_get_overhead_size}
use mindconnect_lib.Exchange.Store.{
  processed, StoreItem, Composer, Filled, is_selected, set_status, room_after, add_answer, fill,
  select_loop, check_store_size, measure, size_sub, select_store_items_to_exchange,
  prepare_body_for_store,
}
use mindconnect_lib.Exchange.Select.{
  selected_size, Unselected, select_loop-takes, select_loop-skips,
  select_store_items_to_exchange-bounds,
}
use mindconnect_lib.LinkedList.{size_max}

-- With a boundary of 20 characters and in a room of the reckoned size or more, each item is written,
-- and its bytes are as many as reckoned.
pub record Exact {Item : Type 0} (composer : Composer Item) : Type 0 where
  pub written :
      (boundary : List ℕ) (item : Item) (room : ℕ)
      → length boundary ≡ 20
      → Composer.get_item_size composer item ≤ room
      → (bytes : List ℕ) × (Composer.add_item_to_buffer composer boundary item room ≡ ok bytes)
        × (length bytes ≡ Composer.get_item_size composer item)

module _ {Item : Type 0} (composer : Composer Item) (exact : Exact composer) where
  -- The size in the store is the one that `_check_store_size` reckoned.
  abbrev pub Measured : List (StoreItem Item) → Type 0
  Measured items =
      All (λ i. StoreItem.item_size i ≡ Composer.get_item_size composer (StoreItem.item i)) items

  -- What a request leaves of the items: the selected ones are processed.
  unfoldable pub process : List (StoreItem Item) → List (StoreItem Item)
  process [] = []
  process (i ∷ items) =
      (if is_selected (StoreItem.status i) then set_status processed i else i) ∷ process items

  record Fills (boundary : List ℕ) (items : List (StoreItem Item)) (room : ℕ) : Type 0 where
    pub marked : Filled.items (fill composer boundary items room) ≡ process items
    pub body : length (Filled.body (fill composer boundary items room)) ≡ selected_size items
    pub left :
        Filled.remaining_size (fill composer boundary items room) ≡ room - selected_size items

  fill-Fills :
      (boundary : List ℕ) (items : List (StoreItem Item)) (room : ℕ)
      → length boundary ≡ 20
      → Measured items
      → selected_size items ≤ room
      → Fills boundary items room
  unfolding fill process selected_size room_after add_answer
  fill-Fills boundary [] room h measured fits = record {
    marked = refl;
    body = refl;
    left = omega arith;
  }
  fill-Fills boundary (i ∷ items) room h measured fits =
      elim (Bool-cases (is_selected (StoreItem.status i))) [
        | inl s ↦
            let w =
              Exact.written exact boundary (StoreItem.item i) room h (ground (arith, measured.0)) in
            let ih : Fills boundary items (room - length w.0) =
              fill-Fills boundary items (room - length w.0) h measured.1
                (ground (arith, measured.0, w.2)) in
            record {
              marked = rw (s, w.1) (ap (λ l. set_status processed i ∷ l) ih.marked);
              body =
                  rw (s, w.1)
                    (omega (
                      arith,
                      length-append w.0
                          (Filled.body (fill composer boundary items (room - length w.0))),
                      ih.body,
                      w.2,
                      measured.0,
                    ));
              left = rw (s, w.1) (omega (arith, ih.left, w.2, measured.0));
            }
        | inr s ↦
            let ih : Fills boundary items room =
              fill-Fills boundary items room h measured.1 (ground arith) in
            record {
              marked = rw s (ap (λ l. i ∷ l) ih.marked);
              body = rw s (omega (arith, ih.body));
              left = rw s (omega (arith, ih.left));
            }
      ]

  map-Measured :
      (maximum : ℕ) (items : List (StoreItem Item))
      → Measured (map (measure composer maximum) items)
  unfolding measure
  map-Measured maximum [] = tt
  map-Measured maximum (i ∷ items) = (refl, map-Measured maximum items)

  check_store_size-Measured :
      (maximum : ℕ) (items : List (StoreItem Item))
      → Measured (check_store_size composer maximum items).1
  unfolding check_store_size
  check_store_size-Measured maximum [] = tt
  check_store_size-Measured maximum (i ∷ items) = map-Measured maximum (i ∷ items)

  select_loop-Measured :
      (items : List (StoreItem Item)) (room : ℕ)
      → Measured items
      → Measured (select_loop items room).0
  unfolding select_loop set_status
  select_loop-Measured [] room h = tt
  select_loop-Measured (i ∷ items) room h = elim (Bool-cases (leb (StoreItem.item_size i) room)) [
    | inl fits ↦
        subst (λ r. Measured r.0) (sym (select_loop-takes i items room fits))
          (h.0, select_loop-Measured items (room - StoreItem.item_size i) h.1)
    | inr large ↦
        subst (λ r. Measured r.0) (sym (select_loop-skips i items room large))
          (h.0, select_loop-Measured items room h.1)
  ]

  chosen-Measured :
      (maximum : ℕ) (items : List (StoreItem Item))
      → Measured
          (select_store_items_to_exchange (check_store_size composer maximum items).1 maximum).0
  unfolding select_store_items_to_exchange
  chosen-Measured maximum items =
      select_loop-Measured (check_store_size composer maximum items).1
        (size_sub maximum multipart_get_overhead_size) (check_store_size-Measured maximum items)

  -- With a composer that writes each item in as many bytes as it reckons, and where the check returned
  -- `MCL_OK` and something is chosen, `_prepare_body_for_store` returns `MCL_OK` with a body of exactly
  -- the size of the buffer, and every chosen item is processed.
  pub prepare_body_for_store_exact :
      (maximum : ℕ) (items : List (StoreItem Item)) (boundary : List ℕ)
      → Unselected items
      → maximum ≤ size_max
      → length boundary ≡ 20
      → (check_store_size composer maximum items).0 ≡ ok tt
      → 0
        < selected_size
            (select_store_items_to_exchange (check_store_size composer maximum items).1 maximum).0
      → (body : List ℕ) × (prepare_body_for_store composer true
            (check_store_size composer maximum items).1
            maximum
            boundary
          ≡ (
            ok body,
            process
                (select_store_items_to_exchange
                  (check_store_size composer maximum items).1
                  maximum).0,
          ))
        × (length body
            ≡ (select_store_items_to_exchange
                (check_store_size composer maximum items).1
                maximum).1)
  unfolding prepare_body_for_store multipart_get_overhead_size
  prepare_body_for_store_exact maximum items boundary none_selected small h checked something =
      let chosen : List (StoreItem Item) × ℕ =
        select_store_items_to_exchange (check_store_size composer maximum items).1 maximum in
      let bounds =
        select_store_items_to_exchange-bounds composer maximum items none_selected small checked in
      let f : Fills boundary chosen.0 chosen.1 =
        fill-Fills boundary chosen.0 chosen.1 h (chosen-Measured maximum items)
          (omega (arith, bounds.0)) in
      let filled : Filled Item = fill composer boundary chosen.0 chosen.1 in
      let moved : (chosen.1 == Filled.remaining_size filled) ≡ false =
        ground (arith, bounds.0, f.left) in
      let room : leb multipart_get_overhead_size (Filled.remaining_size filled) ≡ true =
        ground (arith, bounds.0, f.left) in
      (
        Filled.body filled ++ (boundary_sign ++ (take 20 boundary ++ boundary_sign)),
        rw (moved, room, f.marked) refl,
        omega (
          arith,
          bounds.0,
          f.body,
          length-append (Filled.body filled) (boundary_sign ++ (take 20 boundary ++ boundary_sign)),
          length-append (take 20 boundary) boundary_sign,
          length-take 20 boundary,
          h,
        ),
      )
