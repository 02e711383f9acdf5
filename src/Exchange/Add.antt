-- ===== src/Exchange/Add.antt =====
-- mcl_connectivity/src/store.c: a store and `mcl_store_add`. What the validation of an item, the
-- allocator and `mcl_list_add` answer are arguments.
use mindconnect_lib.Base.{
  ℕ, ◌+◌, ◌%◌, ◌≤◌, ◌<◌, Bool, true, false, Option, none, some, List, [], ◌∷◌, ◌++◌, arith,
}
use mindconnect_lib.Base.Code.{
  Result, ok, err, invalid_parameter, out_of_memory, triggered_with_null,
}
use mindconnect_lib.LinkedList.{size_max}
use mindconnect_lib.Exchange.Store.{StoreItem, ready}

pub record Store (Item : Type 0) : Type 0 where
  pub item_list : List (StoreItem Item)
  pub last_item_id : ℕ

-- The answers for one item: of the validation for its type, `none` for a type that a store does not
-- take, whether the preamble is right, of the allocator and of `mcl_list_add`.
pub record Answers : Type 0 where
  pub has_preamble : Bool
  pub validated : Option (Result (Unit {0}))
  pub allocated : Bool
  pub list_code : Result (Unit {0})

module _ {Item : Type 0} where
  -- `item_size` is not set.
  unfoldable pub store_item_added :
      Store Item → Item → ℕ → Bool → Result (Unit {0}) → Result (Unit {0}) × Store Item
  store_item_added s item item_size false list_code = (err out_of_memory, s)
  store_item_added s item item_size true (err code) = (err code, s)
  store_item_added s item item_size true (ok _) =
      let id = (Store.last_item_id s + 1) % (size_max + 1) in
      (
        ok tt,
        record {
          item_list =
              Store.item_list s
              ++ (record { item = item; status = ready; id = id; item_size = item_size } ∷ []);
          last_item_id = id;
        },
      )

  unfoldable pub store_add_data :
      Store Item
      → Item
      → ℕ
      → Option (Result (Unit {0}))
      → Bool
      → Result (Unit {0})
      → Result (Unit {0}) × Store Item
  store_add_data s item item_size none allocated list_code = (err invalid_parameter, s)
  store_add_data s item item_size (some (err code)) allocated list_code = (err invalid_parameter, s)
  store_add_data s item item_size (some (ok _)) allocated list_code =
      store_item_added s item item_size allocated list_code

  unfoldable pub preamble_checked :
      Bool → Result (Unit {0}) × Store Item → Store Item → Result (Unit {0}) × Store Item
  preamble_checked true added s = added
  preamble_checked false added s = (err invalid_parameter, s)

  -- `item_size` is what the memory of the new item holds in that field.
  unfoldable pub mcl_store_add :
      Answers → ℕ → Option (Store Item) → Option Item → Result (Unit {0}) × Option (Store Item)
  mcl_store_add a item_size none item = (err triggered_with_null, none)
  mcl_store_add a item_size (some s) none = (err triggered_with_null, some s)
  mcl_store_add a item_size (some s) (some item) =
      let done =
        preamble_checked (Answers.has_preamble a)
          (store_add_data s item item_size (Answers.validated a) (Answers.allocated a)
            (Answers.list_code a))
          s in
      (done.0, some done.1)

  -- The ids rise along the list, from above `low` to `last` at most.
  abbrev pub Rising : ℕ → List (StoreItem Item) → ℕ → Type 0
  Rising low [] last = low ≤ last
  Rising low (i ∷ items) last = (low < StoreItem.id i) × Rising (StoreItem.id i) items last

  abbrev pub IsRising : Option (Store Item) → Type 0
  IsRising none = Unit
  IsRising (some s) = Rising 0 (Store.item_list s) (Store.last_item_id s)

  Rising-snoc :
      (low last : ℕ) (items : List (StoreItem Item)) (i : StoreItem Item)
      → Rising low items last
      → last < StoreItem.id i
      → Rising low (items ++ (i ∷ [])) (StoreItem.id i)
  Rising-snoc low last [] i h above = (omega arith, omega arith)
  Rising-snoc low last (j ∷ items) i h above =
      (h.0, Rising-snoc (StoreItem.id j) last items i h.1 above)

  store_item_added-Rising :
      (s : Store Item) (item : Item) (item_size : ℕ) (allocated : Bool)
      (list_code : Result (Unit {0}))
      → Store.last_item_id s < size_max
      → IsRising (some s)
      → IsRising (some (store_item_added s item item_size allocated list_code).1)
  unfolding store_item_added
  store_item_added-Rising s item item_size false list_code room h = h
  store_item_added-Rising s item item_size true (err code) room h = h
  store_item_added-Rising s item item_size true (ok _) room h =
      Rising-snoc 0 (Store.last_item_id s) (Store.item_list s)
        (record {
          item = item;
          status = ready;
          id = (Store.last_item_id s + 1) % (size_max + 1);
          item_size = item_size;
        })
        h (omega (arith, room))

  store_add_data-Rising :
      (s : Store Item) (item : Item) (item_size : ℕ) (validated : Option (Result (Unit {0})))
      (allocated : Bool) (list_code : Result (Unit {0}))
      → Store.last_item_id s < size_max
      → IsRising (some s)
      → IsRising (some (store_add_data s item item_size validated allocated list_code).1)
  unfolding store_add_data
  store_add_data-Rising s item item_size none allocated list_code room h = h
  store_add_data-Rising s item item_size (some (err code)) allocated list_code room h = h
  store_add_data-Rising s item item_size (some (ok _)) allocated list_code room h =
      store_item_added-Rising s item item_size allocated list_code room h

  preamble_checked-Rising :
      (good : Bool) (added : Result (Unit {0}) × Store Item) (s : Store Item)
      → IsRising (some added.1)
      → IsRising (some s)
      → IsRising (some (preamble_checked good added s).1)
  unfolding preamble_checked
  preamble_checked-Rising true added s a h = a
  preamble_checked-Rising false added s a h = h

  -- While the ids of a store have not reached the largest number, `mcl_store_add` keeps them rising along
  -- the list, so that no two items have the same id, whatever the answers are and on failures too.
  pub mcl_store_add-IsRising :
      (a : Answers) (item_size : ℕ) (s : Store Item) (item : Option Item)
      → Store.last_item_id s < size_max
      → IsRising (some s)
      → IsRising (mcl_store_add a item_size (some s) item).1
  unfolding mcl_store_add
  mcl_store_add-IsRising a item_size s none room h = h
  mcl_store_add-IsRising a item_size s (some item) room h =
      preamble_checked-Rising (Answers.has_preamble a)
        (store_add_data s item item_size (Answers.validated a) (Answers.allocated a)
          (Answers.list_code a))
        s
        (store_add_data-Rising s item item_size (Answers.validated a) (Answers.allocated a)
          (Answers.list_code a) room h)
        h
