-- ===== src/Connectivity/Body.antt =====
-- `_prepare_body` of mcl_connectivity/src/connectivity_processor.c for a single item, and
-- `connectivity_processor_exchange` for an item or a store.
pub mod Printed
use mindconnect_lib.Base.{
  ℕ, ◌+◌, ◌-◌, Bool, true, false, List, [], ◌++◌, Option, none, some, length, take, leb, ltb, not,
  if◌then◌else◌,
}
use mindconnect_lib.Base.Code
use mindconnect_lib.Base.Code.{
  Result, ok, err, fail, out_of_memory, invalid_parameter, item_exceeds_max_http_request_size,
}
use mindconnect_lib.Base.Action.{Action, assert, from_result, ◌>>=◌, ◌>>◌}
use mindconnect_lib.Multipart.States.{boundary_sign, boundary_length}
use mindconnect_lib.Multipart.Tuple.{multipart_get_overhead_size}
use mindconnect_lib.Exchange.Store.{StoreItem, Composer}
use mindconnect_lib.Exchange.Loop.{Client, exchange_store}

-- `multipart_close` behind the bytes of the item.
unfoldable pub closed : ℕ → List ℕ → List ℕ → Result (List ℕ)
closed body_size boundary bytes =
    if leb multipart_get_overhead_size (body_size - length bytes)
    then ok (bytes ++ (boundary_sign ++ (take boundary_length boundary ++ boundary_sign)))
    else err fail

-- What is exchanged: an item with the code of its validation, a store, or an item of a type that
-- cannot be exchanged.
pub data Exchangeable (Item : Type 0) : Type 0 where
  single : Result (Unit {0}) → Item → Exchangeable Item
  store : List (StoreItem Item) → Exchangeable Item
  other_type : Exchangeable Item

module _ {Item World : Type 0} (composer : Composer Item) (client : Client World)
    (max_http_payload_size : ℕ) where
  unfoldable pub body_size_of : Item → ℕ
  body_size_of item = Composer.get_item_size composer item + multipart_get_overhead_size

  abbrev allocate : Action World (Unit {0})
  allocate w = let answer = Client.allocate client w in assert answer.0 out_of_memory answer.1

  unfoldable pub prepare_body : Item → List ℕ → Action World (List ℕ)
  prepare_body item boundary = do
    assert (not (ltb max_http_payload_size (body_size_of item))) item_exceeds_max_http_request_size
    allocate
    bytes ← from_result (Composer.add_item_to_buffer composer boundary item (body_size_of item))
    from_result (closed (body_size_of item) boundary bytes)

  -- The body of the loop, which runs once for an item that is not a store.
  unfoldable pub exchange_item : Result (Unit {0}) → Item → Action World (Unit {0})
  exchange_item validated item = do
    from_result validated
    boundary ← Client.generate_boundary client
    body ← prepare_body item boundary
    Client.transmit client boundary body

  abbrev without_store :
      Result (Unit {0}) × World → Option (Result (Unit {0}) × List (StoreItem Item) × World)
  without_store answer = some (answer.0, [], answer.1)

  -- The code, what is left in the store, and the state; on fuel for the requests of a store.
  unfoldable pub connectivity_processor_exchange :
      ℕ
      → Bool
      → Exchangeable Item
      → World
      → Option (Result (Unit {0}) × List (StoreItem Item) × World)
  connectivity_processor_exchange fuel false item w = without_store (err invalid_parameter, w)
  connectivity_processor_exchange fuel true (single validated item) w =
      without_store (exchange_item validated item w)
  connectivity_processor_exchange fuel true (store items) w =
      exchange_store composer client max_http_payload_size fuel items w
  connectivity_processor_exchange fuel true other_type w = without_store (err fail, w)
