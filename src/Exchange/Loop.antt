-- ===== src/Exchange/Loop.antt =====
-- `connectivity_processor_exchange` in connectivity_processor.c, for a store: one request after the
-- other until everything is uploaded.
use mindconnect_lib.Base.{
  ℕ, zero, suc, Bool, false, not, ◌&&◌, List, Option, none, some, if◌then◌else◌,
}
use mindconnect_lib.Base.Code.{Result, ok, err, is_ok}
use mindconnect_lib.Exchange.Store.{
  StoreItem, Composer, check_store_size, prepare_body_for_store, scan_store_after_exchange,
}

-- What a request needs from outside the store, on a state `World`: the boundary, the allocator's
-- answer for the body, and the request itself, from its initialization to the evaluation of the response.
pub record Client (World : Type 0) : Type 0 where
  pub generate_boundary : World → Result (List ℕ) × World
  pub allocate : World → Bool × World
  pub transmit : List ℕ → List ℕ → World → Result (Unit {0}) × World

module _ {Item World : Type 0} (composer : Composer Item) (client : Client World)
    (max_http_payload_size : ℕ) where
  abbrev pub Exchanged : Type 0
  Exchanged = Result (Unit {0}) × List (StoreItem Item) × World

  -- The chain of `if (MCL_OK == code)` in the body of the loop.
  unfoldable pub send_body : List ℕ → Result (List ℕ) × List (StoreItem Item) → World → Exchanged
  send_body boundary (ok body, items) w =
      let sent = Client.transmit client boundary body w in (sent.0, items, sent.1)
  send_body boundary (err code, items) w = (err code, items, w)

  unfoldable pub prepare_and_send : List (StoreItem Item) → Result (List ℕ) × World → Exchanged
  prepare_and_send items (err code, w) = (err code, items, w)
  prepare_and_send items (ok boundary, w) =
      let memory = Client.allocate client w in
      send_body boundary
        (prepare_body_for_store composer memory.0 items max_http_payload_size boundary) memory.1

  unfoldable pub request : Result (Unit {0}) → List (StoreItem Item) → World → Exchanged
  request (err code) items w = (err code, items, w)
  request (ok _) items w = prepare_and_send items (Client.generate_boundary client w)

  -- The do-while loop, on fuel.
  unfoldable pub exchange_loop :
      ℕ → Result (Unit {0}) → List (StoreItem Item) → Bool → World → Option Exchanged
  exchange_loop zero code items store_fully_processed w = none
  exchange_loop (suc fuel) code items store_fully_processed w =
      let sent = request code items w in
      let scanned = scan_store_after_exchange sent.1 store_fully_processed sent.0 in
      let rest = exchange_loop fuel scanned.0 scanned.1 scanned.2 sent.2 in
      if not scanned.2 && is_ok scanned.0 then rest else some (scanned.0, scanned.1, sent.2)

  unfoldable pub exchange_store : ℕ → List (StoreItem Item) → World → Option Exchanged
  exchange_store fuel items w =
      let checked = check_store_size composer max_http_payload_size items in
      exchange_loop fuel checked.0 checked.1 false w
