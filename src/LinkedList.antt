-- ===== src/LinkedList.antt =====
-- mcl_core/src/list.c: a doubly linked list with a cursor. The nodes are in a memory; the struct
-- `mcl_list_t` is a value that the operations hand back changed, `none` being a null pointer. Where a
-- struct is freed, it is at an address of a memory of its own (`Lists`). What a callback does to the
-- item that it is handed is outside of both memories.
-- Each loop over the nodes has fuel, one round more than the list has nodes.
pub mod Memory
pub mod Chain
pub mod Invariant
pub mod Add
pub mod Relink
pub mod Remove
pub mod Walk
mod Tests
use Memory.{
  Ptr, null, node, Cmd, done, fault, out_of_fuel, pure, ◌>>=◌, ◌>>◌, load, set_next, set_prev, free,
  store,
}
use mindconnect_lib.Base.{
  ℕ, zero, suc, ◌+◌, ◌-◌, ◌^◌, Bool, true, false, not, ◌&&◌, Option, none, some, List, [], ◌∷◌, ltb,
  ◌==◌, if◌then◌else◌,
}
use mindconnect_lib.Base.Code.{
  Result, ok, err, fail, triggered_with_null, out_of_memory, limit_exceeded, list_is_empty,
}

-- `mcl_list_t`.
pub record Header : Type 0 where
  pub head : Ptr
  pub last : Ptr
  pub current : Ptr
  pub count : ℕ

abbrev pub size_max : ℕ
size_max = 2 ^ 64 - 1

pub mcl_list_initialize : Bool → Result Header
mcl_list_initialize allocated =
    if allocated
    then ok (record { head = null; last = null; current = null; count = 0 })
    else err out_of_memory

-- `fresh` is what `MCL_NEW` returns.
pub add : Ptr → Header → Ptr → Cmd (Result (Unit {0}) × Header)
add fresh l item =
    if not (ltb l.count size_max)
    then pure (err limit_exceeded, l)
    else (if fresh == null then pure (err out_of_memory, l) else (do
      store fresh (node item l.last null)
      if l.count == 0
          then pure
              (ok tt, record { head = fresh; last = fresh; current = fresh; count = l.count + 1 })
          else (do
            set_next l.last fresh
            pure (ok tt, record l { last = fresh; count = l.count + 1 }))))

pub mcl_list_add : Ptr → Option Header → Ptr → Cmd (Result (Unit {0}) × Option Header)
mcl_list_add fresh none item = pure (err triggered_with_null, none)
mcl_list_add fresh (some l) item =
    if item == null
    then pure (err triggered_with_null, some l)
    else (do (code, l') ← add fresh l item; pure (code, some l'))

-- The node that `*node` gets; it is `MCL_NULL` exactly on `MCL_FAIL`.
pub next : Header → Cmd (Result Ptr × Header)
next l =
    if l.current == null
    then pure (err fail, record l { current = l.head })
    else (do n ← load l.current; pure (ok l.current, record l { current = n.next }))

pub mcl_list_next : Option Header → Cmd (Result Ptr × Option Header)
mcl_list_next none = pure (err triggered_with_null, none)
mcl_list_next (some l) = do (code, l') ← next l; pure (code, some l')

-- "node connection handling" of `mcl_list_remove`.
pub relink : Ptr → Cmd (Unit {0})
relink p = do
  n ← load p
  if n.prev == null
      then (if n.next == null then pure tt else set_prev n.next null)
      else (if n.next == null
          then set_next n.prev null
          else (do set_next n.prev n.next; set_prev n.next n.prev))

-- "list handling" of `mcl_list_remove`.
pub relist : Header → Ptr → Ptr → Ptr → Header
relist l p prev next = record {
  head = if l.head == p then next else l.head;
  last = if l.last == p then prev else l.last;
  current = if l.current == p then next else l.current;
  count = l.count - 1;
}

pub remove : Header → Ptr → Cmd (Result (Unit {0}) × Header)
remove l p =
    if ltb 0 l.count
    then (do relink p; n ← load p; free p; pure (ok tt, relist l p n.prev n.next))
    else pure (err list_is_empty, l)

pub mcl_list_remove : Option Header → Ptr → Cmd (Result (Unit {0}) × Option Header)
mcl_list_remove none p = pure (err triggered_with_null, none)
mcl_list_remove (some l) p =
    if p == null
    then pure (err triggered_with_null, some l)
    else (do (code, l') ← remove l p; pure (code, some l'))

-- The loop of `mcl_list_exist`; `compare item` is whether the callback answers `MCL_OK`.
pub find_item : (Ptr → Bool) → ℕ → Ptr → Cmd (Option Ptr)
find_item compare zero p = λ _. out_of_fuel
find_item compare (suc fuel) p = if p == null then pure none else (do
  n ← load p
  if compare n.item then pure (some n.item) else find_item compare fuel n.next)

abbrev pub found_result : Option Ptr → Result Ptr
found_result none = err fail
found_result (some item) = ok item

pub exist : Header → (Ptr → Bool) → Cmd (Result Ptr)
exist l compare = do found ← find_item compare (l.count + 1) l.head; pure (found_result found)

-- The callback and the place for the result are there; `compare reference item` is whether the
-- callback answers `MCL_OK`.
pub mcl_list_exist : Option Header → Ptr → (Ptr → Ptr → Bool) → Cmd (Result Ptr)
mcl_list_exist none item_to_find compare = pure (err triggered_with_null)
mcl_list_exist (some l) item_to_find compare =
    if item_to_find == null
    then pure (err triggered_with_null)
    else exist l (λ reference. compare reference item_to_find)

pub reset : Header → Header
reset l = record l { current = l.head }

pub mcl_list_reset : Option Header → Option Header
mcl_list_reset none = none
mcl_list_reset (some l) = some (reset l)

-- The loop of `mcl_list_destroy_with_content`. The result is what was handed to the callback, in
-- order; nothing is, if there is no callback.
pub destroy_loop : Bool → ℕ → Ptr → Cmd (List Ptr)
destroy_loop callback zero p = λ _. out_of_fuel
destroy_loop callback (suc fuel) p = if p == null then pure [] else (do
  n ← load p
  free p
  given ← destroy_loop callback fuel n.next
  pure (if callback && not (n.item == null) then n.item ∷ given else given))

-- The structs at their addresses.
abbrev pub Lists : Type 0
Lists = Ptr → Option Header

-- `*list`, a fault where there is no struct at the address, or none any more.
pub load_list : Lists → Ptr → Cmd Header
load_list lists p h = elim (lists p) [ none ↦ fault | some l ↦ done l h ]

-- `MCL_FREE(*list)`; a double free is a fault.
pub free_list : Lists → Ptr → Cmd Lists
free_list lists p = do _ ← load_list lists p; pure (λ a. if a == p then none else lists a)

-- What is handed to the callback, the structs, and `*list`; it is `none` where `list` is `MCL_NULL`.
abbrev pub Destroyed : Type 0
Destroyed = List Ptr × Lists × Option Ptr

pub mcl_list_destroy_with_content : Bool → Lists → Option Ptr → Cmd Destroyed
mcl_list_destroy_with_content callback lists none = pure ([], lists, none)
mcl_list_destroy_with_content callback lists (some p) =
    if p == null then pure ([], lists, some p) else (do
      l ← load_list lists p
      given ← destroy_loop callback (l.count + 1) l.head
      lists' ← free_list lists p
      pure (given, lists', some null))

pub mcl_list_destroy : Lists → Option Ptr → Cmd Destroyed
mcl_list_destroy lists list = mcl_list_destroy_with_content false lists list

-- What `mcl_list_remove_with_content` hands to its callback.
pub handed : Result (Unit {0}) → Ptr → Result (List Ptr)
handed (ok _) item = if item == null then ok [] else ok (item ∷ [])
handed (err e) item = err e

-- The item is read before the node goes. The callback is there.
pub mcl_list_remove_with_content : Option Header → Ptr → Cmd (Result (List Ptr) × Option Header)
mcl_list_remove_with_content none p = pure (err triggered_with_null, none)
mcl_list_remove_with_content (some l) p =
    if p == null
    then pure (err triggered_with_null, some l)
    else (do n ← load p; (code, l') ← remove l p; pure (handed code n.item, some l'))
