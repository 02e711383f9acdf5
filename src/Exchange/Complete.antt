-- ===== src/Exchange/Complete.antt =====
-- The exchange of a store in connectivity_processor.c when nothing fails: each request takes items,
-- and the loop goes on until there are none.
use mindconnect_lib.Base.{
  ℕ, zero, suc, ◌≤◌, ◌≡◌, refl, sym, ap, ◌∙◌, Bool, true, false, Bool-cases, not, ◌&&◌, List, [],
  ◌∷◌, map, All, length, arith, inl, inr, Option, some,
}
use mindconnect_lib.Base.Code.{Result, ok, err}
use mindconnect_lib.LinkedList.{size_max}
use mindconnect_lib.Multipart.Tuple.{multipart_get_overhead_size}
use mindconnect_lib.Exchange.Store.{
  StoreItem, Composer, measure, all_too_large, check_store_size, select_loop, size_sub,
  select_store_items_to_exchange, remove_uploaded_store_items, is_empty, scan_store_after_exchange,
}
use mindconnect_lib.Exchange.Loop.{
  Client, Exchanged, send_body, prepare_and_send, request, exchange_loop, exchange_store,
}
use mindconnect_lib.Exchange.Body.{Exact, process}
use mindconnect_lib.Exchange.Ends.{Outcome, exchange_store-Outcome}
use mindconnect_lib.Exchange.Waiting.{
  Waiting, Sendable, measured_items-Sendable, kept, kept-Sendable, prepared,
}

-- A client whose boundaries have the length that multipart.c reckons with, and that is never refused.
pub record Willing {World : Type 0} (client : Client World) : Type 0 where
  pub bounded :
      (w : World) → (b : List ℕ) × ((Client.generate_boundary client w).0 ≡ ok b) × (length b ≡ 20)
  pub allocated : (w : World) → (Client.allocate client w).0 ≡ true
  pub accepted :
      (boundary body : List ℕ) (w : World) → (Client.transmit client boundary body w).0 ≡ ok tt

module _ {Item : Type 0} (composer : Composer Item) (maximum : ℕ) (exact : Exact composer) where
  module _ {World : Type 0} (client : Client World) (willing : Willing client) where
    prepare_and_send-ok :
        (i : StoreItem Item) (items : List (StoreItem Item)) (b : Result (List ℕ) × World)
        (boundary : List ℕ)
        → b.0 ≡ ok boundary
        → length boundary ≡ 20
        → maximum ≤ size_max
        → All (Sendable composer maximum) (i ∷ items)
        → (w : World) × (prepare_and_send composer client maximum (i ∷ items) b ≡ (
          ok tt,
          process composer exact (select_store_items_to_exchange (i ∷ items) maximum).0,
          w,
        ))
    unfolding prepare_and_send send_body
    prepare_and_send-ok i items (ok boundary, w) b e h small sendable =
        let fits : length boundary ≡ 20 = ground (arith) in
        let memory : Bool × World = Client.allocate client w in
        let p = prepared composer maximum exact i items boundary small fits sendable in
        let sent = Client.transmit client boundary p.0 memory.1 in
        (
          sent.1,
          rw (Willing.allocated willing w, p.1, Willing.accepted willing boundary p.0 memory.1)
              refl,
        )
    prepare_and_send-ok i items (err code, w) b e h small sendable = absurd (cc)

    request-ok :
        (i : StoreItem Item) (items : List (StoreItem Item)) (w : World)
        → maximum ≤ size_max
        → All (Sendable composer maximum) (i ∷ items)
        → (w1 : World) × (request composer client maximum (ok tt) (i ∷ items) w ≡ (
          ok tt,
          process composer exact (select_store_items_to_exchange (i ∷ items) maximum).0,
          w1,
        ))
    unfolding request
    request-ok i items w small sendable =
        let b = Willing.bounded willing w in
        prepare_and_send-ok i items (Client.generate_boundary client w) b.0 b.1 b.2 small sendable

    scan-ok :
        (items : List (StoreItem Item)) (fully : Bool)
        → (remove_uploaded_store_items items).1 ≡ is_empty (remove_uploaded_store_items items).0
        → scan_store_after_exchange items fully (ok tt)
          ≡ (ok tt, (remove_uploaded_store_items items).0, (remove_uploaded_store_items items).1)
    unfolding scan_store_after_exchange
    scan-ok items fully h =
        let over : ((remove_uploaded_store_items items).1
              && not (is_empty (remove_uploaded_store_items items).0))
            ≡ false =
          ground (arith) in
        rw over refl

    -- A round that succeeds is the last one when the store was fully processed.
    exchange_loop-last :
        (fuel : ℕ) (items sent : List (StoreItem Item)) (fully : Bool) (w w1 : World)
        → request composer client maximum (ok tt) items w ≡ (ok tt, sent, w1)
        → (remove_uploaded_store_items sent).1 ≡ is_empty (remove_uploaded_store_items sent).0
        → (remove_uploaded_store_items sent).1 ≡ true
        → exchange_loop composer client maximum (suc fuel) (ok tt) items fully w
          ≡ some (ok tt, (remove_uploaded_store_items sent).0, w1)
    unfolding exchange_loop
    exchange_loop-last fuel items sent fully w w1 requested h over =
        rw (requested, scan-ok sent fully h, over) refl

    exchange_loop-next :
        (fuel : ℕ) (items sent : List (StoreItem Item)) (fully : Bool) (w w1 : World)
        → request composer client maximum (ok tt) items w ≡ (ok tt, sent, w1)
        → (remove_uploaded_store_items sent).1 ≡ is_empty (remove_uploaded_store_items sent).0
        → (remove_uploaded_store_items sent).1 ≡ false
        → exchange_loop composer client maximum (suc fuel) (ok tt) items fully w
          ≡ exchange_loop composer client maximum fuel
              (ok tt)
              (remove_uploaded_store_items sent).0
              false
              w1
    unfolding exchange_loop
    exchange_loop-next fuel items sent fully w w1 requested h again =
        rw (requested, scan-ok sent fully h, again) refl

    exhausted :
        (items : List (StoreItem Item)) (fully : Bool) (w : World)
        (r : Exchanged composer client maximum)
        → exchange_loop composer client maximum 0 (ok tt) items fully w ≡ some r
        → ⊥
    unfolding exchange_loop
    exhausted items fully w r e = absurd (cc)

    code_of :
        (items : List (StoreItem Item)) (w : World) (r : Exchanged composer client maximum)
        → some (ok tt, items, w) ≡ some r
        → r.0 ≡ ok tt
    code_of items w r e = cc

    -- No round ends with another code.
    exchange_loop-ok :
        (fuel : ℕ) (items : List (StoreItem Item)) (fully : Bool) (w : World)
        (r : Exchanged composer client maximum)
        → maximum ≤ size_max
        → All (Sendable composer maximum) items
        → is_empty items ≡ false
        → exchange_loop composer client maximum fuel (ok tt) items fully w ≡ some r
        → r.0 ≡ ok tt
    unfolding select_store_items_to_exchange
    exchange_loop-ok zero items fully w r small sendable some_left h =
        absurd (exhausted items fully w r h)
    exchange_loop-ok (suc fuel) [] fully w r small sendable some_left h = absurd (cc)
    exchange_loop-ok (suc fuel) (i ∷ items) fully w r small sendable some_left h =
        let sent = request-ok i items w small sendable in
        let room : ℕ = size_sub maximum multipart_get_overhead_size in
        let k = kept-Sendable composer maximum exact (i ∷ items) room sendable in
        let left : List (StoreItem Item) × Bool = kept composer maximum exact (i ∷ items) room in
        elim (Bool-cases left.1) [
          | inl over ↦
              let last =
                exchange_loop-last fuel (i ∷ items)
                  (process composer exact (select_loop (i ∷ items) room).0) fully w sent.0 sent.1
                  k.1 over in
              code_of left.0 sent.0 r (sym last ∙ h)
          | inr again ↦
              let next =
                exchange_loop-next fuel (i ∷ items)
                  (process composer exact (select_loop (i ∷ items) room).0) fully w sent.0 sent.1
                  k.1 again in
              exchange_loop-ok fuel left.0 false sent.0 r small k.0 (sym k.1 ∙ again) (sym next ∙ h)
        ]

    checked-ok :
        (i : StoreItem Item) (items : List (StoreItem Item))
        → All (Waiting composer maximum) (i ∷ items)
        → check_store_size composer maximum (i ∷ items)
          ≡ (ok tt, map (measure composer maximum) (i ∷ items))
    unfolding check_store_size all_too_large
    checked-ok i items h = rw h.0.1 refl

    exchange_store-checked :
        (i : StoreItem Item) (items : List (StoreItem Item)) (w : World)
        → All (Waiting composer maximum) (i ∷ items)
        → exchange_store composer client maximum (suc (length (i ∷ items))) (i ∷ items) w
          ≡ exchange_loop composer client maximum
              (suc (length (i ∷ items)))
              (ok tt)
              (map (measure composer maximum) (i ∷ items))
              false
              w
    unfolding exchange_store
    exchange_store-checked i items w waiting = rw (checked-ok i items waiting) refl

    emptied :
        (r : Exchanged composer client maximum) (ended : Option (Exchanged composer client maximum))
        → r.0 ≡ ok tt
        → Outcome r.0 r.1
        → ended ≡ some r
        → (w1 : World) × (ended ≡ some (ok tt, [], w1))
    emptied (ok _, items, w1) ended h left e = (w1, e ∙ ap (λ l. some (ok tt, l, w1)) left)
    emptied (err code, items, w1) ended h left e = absurd (cc)

    -- Where each item of a store that is not empty waits for its upload, fits into a request by
    -- itself and takes room, the composer writes an item in as many bytes as it reckons, and the client
    -- accepts every request, the exchange uploads the whole store: it returns `MCL_OK` and leaves
    -- no item, after at most one request more than there are items.
    pub exchange_store_complete :
        (i : StoreItem Item) (items : List (StoreItem Item)) (w : World)
        → maximum ≤ size_max
        → All (Waiting composer maximum) (i ∷ items)
        → (w1 : World) × (exchange_store composer client maximum
              (suc (length (i ∷ items)))
              (i ∷ items)
              w
            ≡ some (ok tt, [], w1))
    exchange_store_complete i items w small waiting =
        let ended = exchange_store-Outcome composer client maximum (i ∷ items) w in
        let started = exchange_store-checked i items w waiting in
        emptied ended.0
          (exchange_store composer client maximum (suc (length (i ∷ items))) (i ∷ items) w)
          (exchange_loop-ok (suc (length (i ∷ items))) (map (measure composer maximum) (i ∷ items))
            false w ended.0 small (measured_items-Sendable composer maximum (i ∷ items) waiting)
            refl (sym started ∙ ended.1))
          ended.2 ended.1
