-- ===== src/Exchange/Ends.antt =====
-- The loop of `connectivity_processor_exchange` for a store comes to an end, and what it leaves then.
use mindconnect_lib.Base.{
  ℕ, zero, suc, ◌<◌, ◌-◌, ◌≡◌, refl, ap, ◌∙◌, Bool, true, false, Bool-cases, not, ◌&&◌, List, [],
  ◌∷◌, map, All, leb, if◌then◌else◌, length, arith, inl, inr, some,
}
use mindconnect_lib.Base.Code.{Result, ok, err, is_ok}
use mindconnect_lib.Exchange.Store.{
  ready, StoreItem, Composer, Filled, is_selected, room_after, set_status, add_answer, fill,
  prepare_body_for_store, revert_store_item_status, remove_uploaded_store_items,
  scan_store_after_exchange, is_empty, select_store_items_to_exchange, select_loop,
  check_store_size, measure, size_sub,
}
use mindconnect_lib.Multipart.Tuple.{multipart_get_overhead_size}
use mindconnect_lib.Exchange.Loop.{
  Client, Exchanged, send_body, prepare_and_send, request, exchange_loop, exchange_store,
}
use mindconnect_lib.Exchange.Scan.{
  any_processed, remove_uploaded_store_items-length, prepare_body_for_store-any_processed,
}

-- What an exchange leaves: nothing after `MCL_OK`, and a store that is ready again after a failure.
abbrev pub Outcome : {Item : Type 0} → Result (Unit {0}) → List (StoreItem Item) → Type 0
Outcome (ok _) items = items ≡ []
Outcome (err code) items = All (λ i. StoreItem.status i ≡ ready) items

module _ {Item : Type 0} where
  map-length :
      (f : StoreItem Item → StoreItem Item) (items : List (StoreItem Item))
      → length (map f items) ≡ length items
  map-length f [] = refl
  map-length f (i ∷ items) = ap suc (map-length f items)

  select_loop-length :
      (items : List (StoreItem Item)) (room : ℕ) → length (select_loop items room).0 ≡ length items
  unfolding select_loop
  select_loop-length [] room = refl
  select_loop-length (i ∷ items) room = ap suc (
      select_loop-length items
        (if leb (StoreItem.item_size i) room then room - StoreItem.item_size i else room))

  add_answer-length :
      (i : StoreItem Item) (answer : Result (List ℕ)) (rest : Filled Item)
      → length (Filled.items (add_answer i answer rest)) ≡ suc (length (Filled.items rest))
  unfolding add_answer
  add_answer-length i (ok bytes) rest = refl
  add_answer-length i (err code) rest = refl

  fill-length :
      (composer : Composer Item) (boundary : List ℕ) (items : List (StoreItem Item)) (room : ℕ)
      → length (Filled.items (fill composer boundary items room)) ≡ length items
  unfolding fill
  fill-length composer boundary [] room = refl
  fill-length composer boundary (i ∷ items) room =
      let answer : Result (List ℕ) =
        Composer.add_item_to_buffer composer boundary (StoreItem.item i) room in
      elim (Bool-cases (is_selected (StoreItem.status i))) [
        | inl s ↦ rw s (
            add_answer-length i answer (fill composer boundary items (room_after room answer))
            ∙ ap suc (fill-length composer boundary items (room_after room answer)))
        | inr s ↦ rw s (ap suc (fill-length composer boundary items room))
      ]

  chosen-length :
      (items : List (StoreItem Item)) (maximum : ℕ)
      → length (select_store_items_to_exchange items maximum).0 ≡ length items
  unfolding select_store_items_to_exchange
  chosen-length items maximum =
      select_loop-length items (size_sub maximum multipart_get_overhead_size)

  prepare-length :
      (composer : Composer Item) (allocated : Bool) (items : List (StoreItem Item)) (maximum : ℕ)
      (boundary : List ℕ)
      → length (prepare_body_for_store composer allocated items maximum boundary).1 ≡ length items
  unfolding prepare_body_for_store
  prepare-length composer allocated items maximum boundary =
      let chosen : List (StoreItem Item) × ℕ = select_store_items_to_exchange items maximum in
      ground (arith, chosen-length items maximum, fill-length composer boundary chosen.0 chosen.1)

  revert-All :
      (items : List (StoreItem Item))
      → All (λ i. StoreItem.status i ≡ ready) (revert_store_item_status items)
  unfolding revert_store_item_status set_status
  revert-All [] = tt
  revert-All (i ∷ items) = (refl, revert-All items)

  is_empty-nil : (items : List (StoreItem Item)) → is_empty items ≡ true → items ≡ []
  is_empty-nil [] h = refl
  is_empty-nil (i ∷ items) h = absurd (cc)

  -- The round that ends the loop leaves the outcome.
  scan-Outcome :
      (items : List (StoreItem Item)) (fully : Bool) (code : Result (Unit {0}))
      → (not (scan_store_after_exchange items fully code).2
          && is_ok (scan_store_after_exchange items fully code).0)
        ≡ false
      → Outcome
          (scan_store_after_exchange items fully code).0
          (scan_store_after_exchange items fully code).1
  unfolding scan_store_after_exchange
  scan-Outcome items fully (err code) h = revert-All items
  scan-Outcome items fully (ok _) h =
      let kept : List (StoreItem Item) × Bool = remove_uploaded_store_items items in
      elim (Bool-cases (kept.1 && not (is_empty kept.0))) [
        | inl left ↦ rw left (revert-All kept.0)
        | inr none_left ↦ rw none_left (is_empty-nil kept.0 (ground arith))
      ]

  -- A round that leads to the next one has made the store smaller.
  scan-shorter :
      (items : List (StoreItem Item)) (fully : Bool) (code : Result (Unit {0}))
      → (code ≡ ok tt → any_processed items ≡ true)
      → (not (scan_store_after_exchange items fully code).2
          && is_ok (scan_store_after_exchange items fully code).0)
        ≡ true
      → length (scan_store_after_exchange items fully code).1 < length items
  unfolding scan_store_after_exchange
  scan-shorter items fully (err code) moved h = absurd (ground arith)
  scan-shorter items fully (ok _) moved h =
      let kept : List (StoreItem Item) × Bool = remove_uploaded_store_items items in
      let some_done : any_processed items ≡ true = moved refl in
      elim (Bool-cases (kept.1 && not (is_empty kept.0))) [
        | inl left ↦ absurd (ground arith)
        | inr none_left ↦ rw none_left (ground (arith, remove_uploaded_store_items-length items))
      ]

module _ {Item World : Type 0} (composer : Composer Item) (client : Client World)
    (maximum : ℕ) where
  send_body-request :
      (boundary : List ℕ) (p : Result (List ℕ) × List (StoreItem Item)) (w : World)
      → ((body : List ℕ) → p.0 ≡ ok body → any_processed p.1 ≡ true)
      → ((send_body composer client maximum boundary p w).1 ≡ p.1)
        × ((send_body composer client maximum boundary p w).0 ≡ ok tt → any_processed p.1 ≡ true)
  unfolding send_body
  send_body-request boundary (ok body, items) w h = (refl, λ e. h body refl)
  send_body-request boundary (err code, items) w h = (refl, λ e. absurd (cc))

  prepare_and_send-any_processed :
      (items : List (StoreItem Item)) (b : Result (List ℕ) × World)
      → (length (prepare_and_send composer client maximum items b).1 ≡ length items)
        × ((prepare_and_send composer client maximum items b).0 ≡ ok tt
            → any_processed (prepare_and_send composer client maximum items b).1 ≡ true)
  unfolding prepare_and_send
  prepare_and_send-any_processed items (err code, w) = (refl, λ e. absurd (cc))
  prepare_and_send-any_processed items (ok boundary, w) =
      let memory : Bool × World = Client.allocate client w in
      let p : Result (List ℕ) × List (StoreItem Item) =
        prepare_body_for_store composer memory.0 items maximum boundary in
      let s = send_body-request boundary p memory.1 (λ body.
        prepare_body_for_store-any_processed composer memory.0 items maximum boundary body) in
      (
        ap (λ (l : List (StoreItem Item)). length l) s.0
            ∙ prepare-length composer memory.0 items maximum boundary,
        λ e. ap (λ l. any_processed l) s.0 ∙ s.1 e,
      )

  request-any_processed :
      (code : Result (Unit {0})) (items : List (StoreItem Item)) (w : World)
      → (length (request composer client maximum code items w).1 ≡ length items)
        × ((request composer client maximum code items w).0 ≡ ok tt
            → any_processed (request composer client maximum code items w).1 ≡ true)
  unfolding request
  request-any_processed (err code) items w = (refl, λ e. absurd (cc))
  request-any_processed (ok _) items w =
      prepare_and_send-any_processed items (Client.generate_boundary client w)

  exchange_loop-Outcome :
      (fuel : ℕ) (code : Result (Unit {0})) (items : List (StoreItem Item)) (fully : Bool)
      (w : World)
      → length items < fuel
      → (r : Exchanged composer client maximum) × (exchange_loop composer client maximum fuel code
            items fully w
          ≡ some r)
        × Outcome r.0 r.1
  unfolding exchange_loop
  exchange_loop-Outcome zero code items fully w enough = absurd (omega arith)
  exchange_loop-Outcome (suc fuel) code items fully w enough =
      let sent : Exchanged composer client maximum = request composer client maximum code items w in
      let scanned : Result (Unit {0}) × List (StoreItem Item) × Bool =
        scan_store_after_exchange sent.1 fully sent.0 in
      let moved = request-any_processed code items w in
      elim (Bool-cases (not scanned.2 && is_ok scanned.0)) [
        | inl again ↦
            let shorter : length scanned.1 < length sent.1 =
              scan-shorter sent.1 fully sent.0 moved.1 again in
            let ih =
              exchange_loop-Outcome fuel scanned.0 scanned.1 scanned.2 sent.2
                (omega (arith, moved.0)) in
            (ih.0, rw again ih.1, ih.2)
        | inr over ↦
            ((scanned.0, scanned.1, sent.2), rw over refl, scan-Outcome sent.1 fully sent.0 over)
      ]

  check-length :
      (items : List (StoreItem Item))
      → length (check_store_size composer maximum items).1 ≡ length items
  unfolding check_store_size
  check-length [] = refl
  check-length (i ∷ items) = map-length (measure composer maximum) (i ∷ items)

  -- The exchange of a store ends after at most one request more than it has items, whatever the client
  -- answers. After `MCL_OK` the store is empty, so that every item was uploaded; after any other code
  -- each item that is left is ready for another exchange.
  pub exchange_store-Outcome :
      (items : List (StoreItem Item)) (w : World)
      → (r : Exchanged composer client maximum) × (exchange_store composer client maximum
            (suc (length items))
            items
            w
          ≡ some r)
        × Outcome r.0 r.1
  unfolding exchange_store
  exchange_store-Outcome items w =
      let checked : Result (Unit {0}) × List (StoreItem Item) =
        check_store_size composer maximum items in
      exchange_loop-Outcome (suc (length items)) checked.0 checked.1 false w
        (omega (arith, check-length items))
