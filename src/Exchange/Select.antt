-- ===== src/Exchange/Select.antt =====
-- What `_select_store_items_to_exchange` in connectivity_processor.c chooses after
-- `_check_store_size`.
use mindconnect_lib.Base.{
  ℕ, ◌<◌, ◌≤◌, ◌+◌, ◌-◌, ◌≡◌, refl, sym, ap, ◌∙◌, true, false, Bool-cases, List, [], ◌∷◌, map, All,
  leb, if◌then◌else◌, arith, inl, inr, ◌⊎◌,
}
use mathlib.Core.Path.{subst}
use mindconnect_lib.Base.Code.{ok}
use mindconnect_lib.LinkedList.{size_max}
use mindconnect_lib.Multipart.Tuple.{multipart_get_overhead_size}
use mindconnect_lib.Exchange.Store.{
  selected, StoreItem, Composer, is_selected, set_status, is_too_large, measure, all_too_large,
  check_store_size, select_loop, select_store_items_to_exchange, size_sub,
}

module _ {Item : Type 0} where
  -- The sizes of the items that are marked for the request.
  unfoldable pub selected_size : List (StoreItem Item) → ℕ
  selected_size [] = 0
  selected_size (i ∷ items) =
      (if is_selected (StoreItem.status i) then StoreItem.item_size i else 0) + selected_size items

  abbrev pub Unselected : List (StoreItem Item) → Type 0
  Unselected items = All (λ i. is_selected (StoreItem.status i) ≡ false) items

  pub select_loop-sum :
      (items : List (StoreItem Item)) (room : ℕ)
      → Unselected items
      → selected_size (select_loop items room).0 + (select_loop items room).1 ≡ room
  unfolding select_loop selected_size is_selected set_status
  select_loop-sum [] room h = omega arith
  select_loop-sum (i ∷ items) room h = elim (Bool-cases (leb (StoreItem.item_size i) room)) [
    | inl fits ↦ rw fits (ground (arith, select_loop-sum items (room - StoreItem.item_size i) h.1))
    | inr large ↦ rw large (ground (arith, h.0, select_loop-sum items room h.1))
  ]

  select_loop-room : (items : List (StoreItem Item)) (room : ℕ) → (select_loop items room).1 ≤ room
  unfolding select_loop
  select_loop-room [] room = omega arith
  select_loop-room (i ∷ items) room = elim (Bool-cases (leb (StoreItem.item_size i) room)) [
    | inl fits ↦ rw fits (omega (arith, select_loop-room items (room - StoreItem.item_size i)))
    | inr large ↦ rw large (select_loop-room items room)
  ]

  pub select_loop-takes :
      (i : StoreItem Item) (items : List (StoreItem Item)) (room : ℕ)
      → leb (StoreItem.item_size i) room ≡ true
      → select_loop (i ∷ items) room ≡ (
        set_status selected i ∷ (select_loop items (room - StoreItem.item_size i)).0,
        (select_loop items (room - StoreItem.item_size i)).1,
      )
  unfolding select_loop
  select_loop-takes i items room fits = rw fits refl

  pub select_loop-skips :
      (i : StoreItem Item) (items : List (StoreItem Item)) (room : ℕ)
      → leb (StoreItem.item_size i) room ≡ false
      → select_loop (i ∷ items) room ≡ (i ∷ (select_loop items room).0, (select_loop items room).1)
  unfolding select_loop
  select_loop-skips i items room large = rw large refl

  -- Each item is chosen or has no place in the room that is left.
  abbrev pub Greedy : List (StoreItem Item) × ℕ → Type 0
  Greedy chosen =
      All (λ i. (is_selected (StoreItem.status i) ≡ true) ⊎ (chosen.1 < StoreItem.item_size i))
        chosen.0

  pub select_loop-Greedy :
      (items : List (StoreItem Item)) (room : ℕ) → Greedy (select_loop items room)
  unfolding select_loop is_selected set_status
  select_loop-Greedy [] room = tt
  select_loop-Greedy (i ∷ items) room = elim (Bool-cases (leb (StoreItem.item_size i) room)) [
    | inl fits ↦
        subst Greedy (sym (select_loop-takes i items room fits))
          (inl refl, select_loop-Greedy items (room - StoreItem.item_size i))
    | inr large ↦
        subst Greedy (sym (select_loop-skips i items room large))
          (inr (ground (arith, select_loop-room items room)), select_loop-Greedy items room)
  ]

  all_too_large-overhead :
      (composer : Composer Item) (maximum : ℕ) (items : List (StoreItem Item))
      → all_too_large composer maximum items ≡ false
      → multipart_get_overhead_size ≤ maximum
  unfolding all_too_large is_too_large
  all_too_large-overhead composer maximum [] h = absurd (cc)
  all_too_large-overhead composer maximum (i ∷ items) h =
      elim (Bool-cases (is_too_large composer maximum i)) [
        | inl large ↦ all_too_large-overhead composer maximum items (ground arith)
        | inr fits ↦ ground arith
      ]

  measure-Unselected :
      (composer : Composer Item) (maximum : ℕ) (items : List (StoreItem Item))
      → Unselected items
      → Unselected (map (measure composer maximum) items)
  unfolding measure is_selected
  measure-Unselected composer maximum [] h = tt
  measure-Unselected composer maximum (i ∷ items) h = (
    elim (Bool-cases (is_too_large composer maximum i)) [
      | inl large ↦ rw large refl
      | inr fits ↦ rw fits h.0
    ],
    measure-Unselected composer maximum items h.1,
  )

  check_store_size-ok :
      (composer : Composer Item) (maximum : ℕ) (items : List (StoreItem Item))
      → Unselected items
      → (check_store_size composer maximum items).0 ≡ ok tt
      → Unselected (check_store_size composer maximum items).1
        × (multipart_get_overhead_size ≤ maximum)
  unfolding check_store_size
  check_store_size-ok composer maximum [] none_selected h = absurd (cc)
  check_store_size-ok composer maximum (i ∷ items) none_selected h = (
    measure-Unselected composer maximum (i ∷ items) none_selected,
    all_too_large-overhead composer maximum (i ∷ items) (ground arith),
  )

  -- After a check that returned `MCL_OK`, the buffer size that `_select_store_items_to_exchange`
  -- asks for is the overhead and the sizes of the items that it marks, and at most the maximum of a
  -- request; an item that it does not mark has no place in what is left of the maximum.
  pub select_store_items_to_exchange-bounds :
      (composer : Composer Item) (maximum : ℕ) (items : List (StoreItem Item))
      → Unselected items
      → maximum ≤ size_max
      → (check_store_size composer maximum items).0 ≡ ok tt
      → ((select_store_items_to_exchange (check_store_size composer maximum items).1 maximum).1
          ≡ multipart_get_overhead_size
            + selected_size
                (select_store_items_to_exchange
                  (check_store_size composer maximum items).1
                  maximum).0)
        × ((select_store_items_to_exchange (check_store_size composer maximum items).1 maximum).1
            ≤ maximum)
        × Greedy (
          (select_store_items_to_exchange (check_store_size composer maximum items).1 maximum).0,
          maximum
              - (select_store_items_to_exchange
                  (check_store_size composer maximum items).1
                  maximum).1,
        )
  unfolding select_store_items_to_exchange
  select_store_items_to_exchange-bounds composer maximum items none_selected small h =
      let c = check_store_size-ok composer maximum items none_selected h in
      let checked : List (StoreItem Item) = (check_store_size composer maximum items).1 in
      let room : ℕ = size_sub maximum multipart_get_overhead_size in
      let r : room ≡ maximum - multipart_get_overhead_size = omega (arith, c.1) in
      let sum = select_loop-sum checked room c.0 in
      let n : size_sub maximum (select_loop checked room).1
          ≡ maximum - (select_loop checked room).1 =
        omega (arith, sum, r) in
      let left : maximum - (maximum - (select_loop checked room).1) ≡ (select_loop checked room).1 =
        omega (arith, sum, r) in
      (
        n ∙ omega (arith, sum, r, c.1),
        omega (arith, n),
        subst (λ k. Greedy ((select_loop checked room).0, k)) (sym (ap (λ k. maximum - k) n ∙ left))
            (select_loop-Greedy checked room),
      )
