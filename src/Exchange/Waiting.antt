-- ===== src/Exchange/Waiting.antt =====
-- Items of a store in connectivity_processor.c that can be sent, each in a request of its own: a request
-- always takes one, and what it leaves can be sent again.
use mindconnect_lib.Base.{
  ℕ, ◌<◌, ◌≤◌, ◌+◌, ◌-◌, ◌≡◌, refl, sym, ap, ◌∙◌, Bool, true, false, Bool-cases, List, [], ◌∷◌, map,
  All, leb, length, arith, inl, inr,
}
use mathlib.Core.Path.{subst}
use mindconnect_lib.Base.Code.{ok}
use mindconnect_lib.LinkedList.{size_max}
use mindconnect_lib.Multipart.Tuple.{multipart_get_overhead_size}
use mindconnect_lib.Exchange.Store.{
  ready, StoreItem, Composer, is_selected, set_status, is_too_large, measure, all_too_large,
  check_store_size, select_loop, size_sub, select_store_items_to_exchange, prepare_body_for_store,
  after_upload, remove_uploaded_store_items, is_empty,
}
use mindconnect_lib.Exchange.Select.{selected_size, Unselected, select_loop-takes}
use mindconnect_lib.Exchange.Body.{Exact, process, prepare_body_for_store_exact}

module _ {Item : Type 0} (composer : Composer Item) (maximum : ℕ) where
  -- An item that waits for its upload and can be sent in a request of its own.
  abbrev pub Waiting : StoreItem Item → Type 0
  Waiting i =
      (StoreItem.status i ≡ ready)
      × (is_too_large composer maximum i ≡ false)
      × (0 < Composer.get_item_size composer (StoreItem.item i))

  abbrev pub Sendable : StoreItem Item → Type 0
  Sendable i =
      (StoreItem.status i ≡ ready)
      × (is_too_large composer maximum i ≡ false)
      × (0 < Composer.get_item_size composer (StoreItem.item i))
      × (StoreItem.item_size i ≡ Composer.get_item_size composer (StoreItem.item i))

  measure-Sendable : (i : StoreItem Item) → Waiting i → Sendable (measure composer maximum i)
  unfolding measure is_too_large
  measure-Sendable i h = (rw h.1 h.0, h.1, h.2, refl)

  pub measured_items-Sendable :
      (items : List (StoreItem Item))
      → All Waiting items
      → All Sendable (map (measure composer maximum) items)
  measured_items-Sendable [] h = tt
  measured_items-Sendable (i ∷ items) h =
      (measure-Sendable i h.0, measured_items-Sendable items h.1)

  -- To measure such an item again changes nothing.
  measure_again : (i : StoreItem Item) → Sendable i → measure composer maximum i ≡ i
  unfolding measure
  measure_again i h = rw (h.1, sym h.3) refl

  items_measured_again :
      (items : List (StoreItem Item))
      → All Sendable items
      → map (measure composer maximum) items ≡ items
  items_measured_again [] h = refl
  items_measured_again (i ∷ items) h =
      ap (λ j. j ∷ map (measure composer maximum) items) (measure_again i h.0)
      ∙ ap (λ l. i ∷ l) (items_measured_again items h.1)

  check_store_size_again :
      (i : StoreItem Item) (items : List (StoreItem Item))
      → All Sendable (i ∷ items)
      → check_store_size composer maximum (i ∷ items) ≡ (ok tt, i ∷ items)
  unfolding check_store_size all_too_large
  check_store_size_again i items h =
      rw h.0.1 (ap (λ l. (ok tt, l)) (items_measured_again (i ∷ items) h))

  Sendable-Unselected : (items : List (StoreItem Item)) → All Sendable items → Unselected items
  unfolding is_selected
  Sendable-Unselected [] h = tt
  Sendable-Unselected (i ∷ items) h = (rw h.0.0 refl, Sendable-Unselected items h.1)

  module _ (exact : Exact composer) where
    -- What a successful request leaves: the items that had no place in it.
    abbrev pub kept : List (StoreItem Item) → ℕ → List (StoreItem Item) × Bool
    kept items room =
        remove_uploaded_store_items (process composer exact (select_loop items room).0)

    pub kept-Sendable :
        (items : List (StoreItem Item)) (room : ℕ)
        → All Sendable items
        → All Sendable (kept items room).0 × ((kept items room).1 ≡ is_empty (kept items room).0)
    unfolding process remove_uploaded_store_items after_upload select_loop is_selected set_status
        is_too_large
    kept-Sendable [] room h = (tt, refl)
    kept-Sendable (i ∷ items) room h = elim (Bool-cases (leb (StoreItem.item_size i) room)) [
      | inl fits ↦ rw fits (kept-Sendable items (room - StoreItem.item_size i) h.1)
      | inr large ↦
          rw (large, h.0.0) (((refl, h.0.1, h.0.2, h.0.3), (kept-Sendable items room h.1).0), refl)
    ]

    fits_alone :
        (i : StoreItem Item)
        → Sendable i
        → multipart_get_overhead_size + StoreItem.item_size i ≤ maximum
    unfolding is_too_large
    fits_alone i h = ground (arith, h.1, h.3)

    -- The first item always has a place.
    something_chosen :
        (i : StoreItem Item) (items : List (StoreItem Item))
        → maximum ≤ size_max
        → All Sendable (i ∷ items)
        → 0 < selected_size (select_store_items_to_exchange (i ∷ items) maximum).0
    unfolding select_store_items_to_exchange selected_size is_selected set_status
    something_chosen i items small h =
        let room : ℕ = size_sub maximum multipart_get_overhead_size in
        let fits : leb (StoreItem.item_size i) room ≡ true = ground (arith, fits_alone i h.0) in
        rw (select_loop-takes i items room fits) (omega (arith, h.0.2, h.0.3))

    -- The body of a request over such items is made.
    pub prepared :
        (i : StoreItem Item) (items : List (StoreItem Item)) (boundary : List ℕ)
        → maximum ≤ size_max
        → length boundary ≡ 20
        → All Sendable (i ∷ items)
        → (body : List ℕ) × (prepare_body_for_store composer true (i ∷ items) maximum boundary ≡ (
          ok body,
          process composer exact (select_store_items_to_exchange (i ∷ items) maximum).0,
        ))
    prepared i items boundary small h sendable =
        let again : check_store_size composer maximum (i ∷ items) ≡ (ok tt, i ∷ items) =
          check_store_size_again i items sendable in
        let same : (check_store_size composer maximum (i ∷ items)).1 ≡ i ∷ items =
          ap (λ p. p.1) again in
        let p =
          prepare_body_for_store_exact composer exact maximum (i ∷ items) boundary
            (Sendable-Unselected (i ∷ items) sendable) small h (ap (λ p. p.0) again)
            (rw same (something_chosen i items small sendable)) in
        (
          p.0,
          subst
              (λ l.
                prepare_body_for_store composer true l maximum boundary
                ≡ (ok p.0, process composer exact (select_store_items_to_exchange l maximum).0))
              same p.1,
        )
