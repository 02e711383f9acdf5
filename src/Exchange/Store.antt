-- ===== src/Exchange/Store.antt =====
-- connectivity_processor.c and store.h: the items of a store in their order, and the walks over them
-- that prepare a request and look at it afterwards. The walks read the list through `mcl_list_reset`
-- and `mcl_list_next`; a removal of the node that was read does not disturb them.
use mindconnect_lib.Base.{
  ℕ, ◌+◌, ◌-◌, ◌%◌, Bool, true, false, not, ◌&&◌, List, [], ◌∷◌, ◌++◌, map, ltb, leb, ◌==◌,
  if◌then◌else◌, length, take,
}
use mindconnect_lib.Base.Code.{
  Result, ok, err, fail, out_of_memory, store_is_empty, item_exceeds_max_http_request_size,
}
use mindconnect_lib.LinkedList.{size_max}
use mindconnect_lib.Multipart.States.{boundary_sign, boundary_length}
use mindconnect_lib.Multipart.Tuple.{multipart_get_overhead_size}

pub data Status : Type 0 where
  ready selected processed ignored : Status

pub record StoreItem (Item : Type 0) : Type 0 where
  pub item : Item
  pub status : Status
  pub id : ℕ
  pub item_size : ℕ

-- Differences of `mcl_size_t` wrap around.
abbrev pub size_sub : ℕ → ℕ → ℕ
size_sub a b = (a + (size_max + 1) - b) % (size_max + 1)

-- What the walks use of multipart.c for the items at hand: `_get_item_size`, and the bytes that
-- `_add_item_to_buffer` writes for a boundary into a given room.
pub record Composer (Item : Type 0) : Type 0 where
  pub get_item_size : Item → ℕ
  pub add_item_to_buffer : List ℕ → Item → ℕ → Result (List ℕ)

-- What the loop of `_prepare_body_for_store` leaves: the items, the bytes that it wrote, and the room.
pub record Filled (Item : Type 0) : Type 0 where
  pub items : List (StoreItem Item)
  pub body : List ℕ
  pub remaining_size : ℕ

unfoldable pub is_selected : Status → Bool
is_selected selected = true
is_selected _ = false

unfoldable pub room_after : ℕ → Result (List ℕ) → ℕ
room_after remaining_size (ok bytes) = remaining_size - length bytes
room_after remaining_size (err code) = remaining_size

module _ {Item : Type 0} where
  unfoldable pub set_status : Status → StoreItem Item → StoreItem Item
  set_status status i = record i { status = status }

  module _ (composer : Composer Item) (max_http_payload_size : ℕ) where
    -- The round of `_check_store_size`: the item measured, and whether it can ever be sent.
    unfoldable pub is_too_large : StoreItem Item → Bool
    is_too_large i =
        ltb max_http_payload_size
          (multipart_get_overhead_size + Composer.get_item_size composer (StoreItem.item i))

    unfoldable pub measure : StoreItem Item → StoreItem Item
    measure i = record i {
      item_size = Composer.get_item_size composer (StoreItem.item i);
      status = if is_too_large i then ignored else StoreItem.status i;
    }

    unfoldable pub all_too_large : List (StoreItem Item) → Bool
    all_too_large [] = true
    all_too_large (i ∷ items) = is_too_large i && all_too_large items

    unfoldable pub check_store_size :
        List (StoreItem Item) → Result (Unit {0}) × List (StoreItem Item)
    check_store_size [] = (err store_is_empty, [])
    check_store_size (i ∷ items) = (
      if all_too_large (i ∷ items) then err item_exceeds_max_http_request_size else ok tt,
      map measure (i ∷ items),
    )

  -- `_select_store_items_to_exchange`: the marked items and the room that is left.
  unfoldable pub select_loop : List (StoreItem Item) → ℕ → List (StoreItem Item) × ℕ
  select_loop [] remaining_size = ([], remaining_size)
  select_loop (i ∷ items) remaining_size =
      let fits = leb (StoreItem.item_size i) remaining_size in
      let rest =
        select_loop items
          (if fits then remaining_size - StoreItem.item_size i else remaining_size) in
      ((if fits then set_status selected i else i) ∷ rest.0, rest.1)

  unfoldable pub select_store_items_to_exchange :
      List (StoreItem Item) → ℕ → List (StoreItem Item) × ℕ
  select_store_items_to_exchange items max_http_payload_size =
      let chosen = select_loop items (size_sub max_http_payload_size multipart_get_overhead_size) in
      (chosen.0, size_sub max_http_payload_size chosen.1)

  -- The round for a selected item, with what `_add_item_to_buffer` answers.
  unfoldable pub add_answer : StoreItem Item → Result (List ℕ) → Filled Item → Filled Item
  add_answer i (ok bytes) rest = record {
    items = set_status processed i ∷ Filled.items rest;
    body = bytes ++ Filled.body rest;
    remaining_size = Filled.remaining_size rest;
  }
  add_answer i (err code) rest = record {
    items = i ∷ Filled.items rest;
    body = Filled.body rest;
    remaining_size = Filled.remaining_size rest;
  }

  unfoldable pub fill : Composer Item → List ℕ → List (StoreItem Item) → ℕ → Filled Item
  fill composer boundary [] remaining_size = record {
    items = [];
    body = [];
    remaining_size = remaining_size;
  }
  fill composer boundary (i ∷ items) remaining_size =
      let answer =
        Composer.add_item_to_buffer composer boundary (StoreItem.item i) remaining_size in
      let taken = is_selected (StoreItem.status i) in
      let rest =
        fill composer boundary items
          (if taken then room_after remaining_size answer else remaining_size) in
      if taken then add_answer i answer rest else record {
        items = i ∷ Filled.items rest;
        body = Filled.body rest;
        remaining_size = Filled.remaining_size rest;
      }

  -- `allocated` is the answer of the allocator. The code of an item that was not added is only
  -- logged.
  unfoldable pub prepare_body_for_store :
      Composer Item
      → Bool
      → List (StoreItem Item)
      → ℕ
      → List ℕ
      → Result (List ℕ) × List (StoreItem Item)
  prepare_body_for_store composer allocated items max_http_payload_size boundary =
      let chosen = select_store_items_to_exchange items max_http_payload_size in
      let buffer_size = chosen.1 in
      let filled = fill composer boundary chosen.0 buffer_size in
      let closing = boundary_sign ++ (take boundary_length boundary ++ boundary_sign) in
      if not allocated
      then (err out_of_memory, chosen.0)
      else if not (buffer_size == Filled.remaining_size filled)
          && leb multipart_get_overhead_size (Filled.remaining_size filled)
      then (ok (Filled.body filled ++ closing), Filled.items filled)
      else (err fail, Filled.items filled)

  unfoldable pub revert_store_item_status : List (StoreItem Item) → List (StoreItem Item)
  revert_store_item_status items = map (set_status ready) items

  -- The `switch` of `_remove_uploaded_store_items`: what stays of an item, and whether the store may
  -- still be fully processed.
  unfoldable pub after_upload : StoreItem Item → Status → List (StoreItem Item) × Bool
  after_upload i processed = ([], true)
  after_upload i selected = (set_status ready i ∷ [], false)
  after_upload i ready = (i ∷ [], false)
  after_upload i ignored = (i ∷ [], true)

  unfoldable pub remove_uploaded_store_items : List (StoreItem Item) → List (StoreItem Item) × Bool
  remove_uploaded_store_items [] = ([], true)
  remove_uploaded_store_items (i ∷ items) =
      let kept = after_upload i (StoreItem.status i) in
      let rest = remove_uploaded_store_items items in (kept.0 ++ rest.0, kept.1 && rest.1)

  abbrev pub is_empty : List (StoreItem Item) → Bool
  is_empty [] = true
  is_empty (i ∷ items) = false

  -- The new code, the items, and `*store_fully_processed`.
  unfoldable pub scan_store_after_exchange :
      List (StoreItem Item)
      → Bool
      → Result (Unit {0})
      → Result (Unit {0}) × List (StoreItem Item) × Bool
  scan_store_after_exchange items store_fully_processed (err code) =
      (err code, revert_store_item_status items, store_fully_processed)
  scan_store_after_exchange items store_fully_processed (ok _) =
      let kept = remove_uploaded_store_items items in
      if kept.1 && not (is_empty kept.0)
      then (err item_exceeds_max_http_request_size, revert_store_item_status kept.0, kept.1)
      else (ok tt, kept.0, kept.1)
