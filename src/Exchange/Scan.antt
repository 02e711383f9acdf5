-- ===== src/Exchange/Scan.antt =====
-- What a successful request leaves in the store, in connectivity_processor.c: it shrinks, and it is
-- empty or ready for another exchange when the loop ends.
use mindconnect_lib.Base.{
  ℕ, ◌≤◌, ◌+◌, ◌≡◌, refl, Bool, true, false, Bool-cases, ◌||◌, List, [], ◌∷◌, if◌then◌else◌, length,
  length-append, arith, inl, inr, ◌⊎◌,
}
use mindconnect_lib.Base.Code.{Result, ok, err}
use mindconnect_lib.Exchange.Store.{
  Status, ready, selected, processed, ignored, StoreItem, Composer, Filled, is_selected, room_after,
  set_status, add_answer, fill, prepare_body_for_store, after_upload, remove_uploaded_store_items,
  select_store_items_to_exchange,
}

unfoldable pub is_processed : Status → Bool
is_processed processed = true
is_processed _ = false

module _ {Item : Type 0} where
  unfoldable pub any_processed : List (StoreItem Item) → Bool
  any_processed [] = false
  any_processed (i ∷ items) = is_processed (StoreItem.status i) || any_processed items

  after_upload-length :
      (i : StoreItem Item) (status : Status)
      → length (after_upload i status).0 + (if is_processed status then 1 else 0) ≡ 1
  unfolding after_upload is_processed
  after_upload-length i ready = refl
  after_upload-length i selected = refl
  after_upload-length i processed = refl
  after_upload-length i ignored = refl

  -- Every uploaded item is gone.
  pub remove_uploaded_store_items-length :
      (items : List (StoreItem Item))
      → length (remove_uploaded_store_items items).0 + (if any_processed items then 1 else 0)
        ≤ length items
  unfolding remove_uploaded_store_items any_processed
  remove_uploaded_store_items-length [] = omega arith
  remove_uploaded_store_items-length (i ∷ items) = ground (
    arith,
    after_upload-length i (StoreItem.status i),
    remove_uploaded_store_items-length items,
    length-append (after_upload i (StoreItem.status i)).0 (remove_uploaded_store_items items).0,
  )

  add_answer-room :
      (i : StoreItem Item) (answer : Result (List ℕ)) (rest : Filled Item)
      → Filled.remaining_size (add_answer i answer rest) ≡ Filled.remaining_size rest
  unfolding add_answer
  add_answer-room i (ok bytes) rest = refl
  add_answer-room i (err code) rest = refl

  any_processed-behind :
      (i : StoreItem Item) (items : List (StoreItem Item))
      → any_processed items ≡ true
      → any_processed (i ∷ items) ≡ true
  unfolding any_processed
  any_processed-behind i items h = ground arith

  add_answer-moved :
      (i : StoreItem Item) (answer : Result (List ℕ)) (rest : Filled Item) (room : ℕ)
      → (any_processed (Filled.items rest) ≡ true)
        ⊎ (Filled.remaining_size rest ≡ room_after room answer)
      → (any_processed (Filled.items (add_answer i answer rest)) ≡ true)
        ⊎ (Filled.remaining_size (add_answer i answer rest) ≡ room)
  unfolding add_answer room_after any_processed set_status is_processed
  add_answer-moved i (ok bytes) rest room h = inl refl
  add_answer-moved i (err code) rest room (inl h) =
      inl (any_processed-behind i (Filled.items rest) h)
  add_answer-moved i (err code) rest room (inr h) = inr h

  -- The loop either processed an item or left the room as it was.
  fill-moved :
      (composer : Composer Item) (boundary : List ℕ) (items : List (StoreItem Item)) (room : ℕ)
      → (any_processed (Filled.items (fill composer boundary items room)) ≡ true)
        ⊎ (Filled.remaining_size (fill composer boundary items room) ≡ room)
  unfolding fill
  fill-moved composer boundary [] room = inr refl
  fill-moved composer boundary (i ∷ items) room =
      let answer : Result (List ℕ) =
        Composer.add_item_to_buffer composer boundary (StoreItem.item i) room in
      elim (Bool-cases (is_selected (StoreItem.status i))) [
        | inl s ↦ rw s (
            add_answer-moved i answer (fill composer boundary items (room_after room answer)) room
              (fill-moved composer boundary items (room_after room answer)))
        | inr s ↦ rw s (
            skipped i (fill composer boundary items room) room
              (fill-moved composer boundary items room))
      ]
    where
      skipped :
          (i : StoreItem Item) (rest : Filled Item) (room : ℕ)
          → (any_processed (Filled.items rest) ≡ true) ⊎ (Filled.remaining_size rest ≡ room)
          → (any_processed (i ∷ Filled.items rest) ≡ true) ⊎ (Filled.remaining_size rest ≡ room)
      skipped i rest room (inl h) = inl (any_processed-behind i (Filled.items rest) h)
      skipped i rest room (inr h) = inr h

  -- A body that was prepared has an item in it.
  pub prepare_body_for_store-any_processed :
      (composer : Composer Item) (allocated : Bool) (items : List (StoreItem Item)) (maximum : ℕ)
      (boundary body : List ℕ)
      → (prepare_body_for_store composer allocated items maximum boundary).0 ≡ ok body
      → any_processed (prepare_body_for_store composer allocated items maximum boundary).1 ≡ true
  unfolding prepare_body_for_store
  prepare_body_for_store-any_processed composer false items maximum boundary body h = absurd (cc)
  prepare_body_for_store-any_processed composer true items maximum boundary body h =
      let chosen : List (StoreItem Item) × ℕ = select_store_items_to_exchange items maximum in
      let filled : Filled Item = fill composer boundary chosen.0 chosen.1 in
      elim (fill-moved composer boundary chosen.0 chosen.1) [
        | inl e ↦ ground (arith)
        | inr e ↦ absurd (ground (arith))
      ]
