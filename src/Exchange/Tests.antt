-- ===== src/Exchange/Tests.antt =====
-- Runs of store.c and of the store exchange of connectivity_processor.c, and its theorems at concrete inputs.
use mindconnect_lib.Base.{
  ℕ, ◌≤◌, ◌+◌, ◌-◌, ◌≡◌, refl, true, false, List, [], ◌∷◌, some, length, arith,
}
use mindconnect_lib.Base.Text.{literal}
use mindconnect_lib.Base.Code.{ok, err, store_is_empty}
use mindconnect_lib.StringUtil.{mcl_string_util_strlen, string_util_strlen}
use mindconnect_lib.Multipart.Tuple.{multipart_get_tuple_size, multipart_get_overhead_size}
use mindconnect_lib.Exchange.Store.{
  ready, StoreItem, Composer, is_selected, set_status, is_too_large, measure, all_too_large,
  check_store_size, select_loop, select_store_items_to_exchange, prepare_body_for_store,
}
use mindconnect_lib.Exchange.Loop.{Client, Exchanged, exchange_store}
use mindconnect_lib.Exchange.Add.{
  Store, Answers, store_item_added, store_add_data, preamble_checked, mcl_store_add, IsRising,
  mcl_store_add-IsRising,
}
use mindconnect_lib.Exchange.Select.{selected_size, Greedy, select_store_items_to_exchange-bounds}
use mindconnect_lib.Exchange.Body.{process, prepare_body_for_store_exact}
use mindconnect_lib.Exchange.Ends.{Outcome, exchange_store-Outcome}
use mindconnect_lib.Exchange.TextItems.{
  TextItem, ReckonedItem, printed, get_item_size, reckoned_composer, reckoned_composer-Exact,
  add_item_to_buffer, add_item_to_buffer_exact, text_message,
}

abbrev main_boundary : List ℕ
main_boundary = literal "12345678901234567890"

abbrev text_item : TextItem
text_item = record {
  meta = literal "{}";
  payload = literal "[1]";
  size = 5;
  sub_boundary = literal "abcdefghijklmnopqrst";
  sub_boundary_fits = refl;
}

abbrev item : ReckonedItem
item = record { text = text_item; right = refl }

abbrev stored : ℕ → StoreItem ReckonedItem
stored id = record { item = item; status = ready; id = id; item_size = 0 }

abbrev two_items : List (StoreItem ReckonedItem)
two_items = stored 1 ∷ stored 2 ∷ []

abbrev composer : Composer ReckonedItem
composer = reckoned_composer

-- A client that counts its requests.
abbrev client : Client ℕ
client = record {
  generate_boundary = λ w. (ok main_boundary, w);
  allocate = λ w. (true, w);
  transmit = λ boundary body w. (ok tt, w + 1);
}

-- Each item has 268 bytes in a message, so a request of at most 400 takes one of them.
checked : (check_store_size composer 400 two_items).0 ≡ ok tt
unfolding check_store_size all_too_large is_too_large get_item_size printed multipart_get_tuple_size
    multipart_get_overhead_size mcl_string_util_strlen string_util_strlen
checked = refl

chosen_size :
    selected_size (select_store_items_to_exchange (check_store_size composer 400 two_items).1 400).0
    ≡ 268
unfolding check_store_size measure is_too_large get_item_size printed multipart_get_tuple_size
    multipart_get_overhead_size mcl_string_util_strlen string_util_strlen
    select_store_items_to_exchange select_loop selected_size is_selected set_status
chosen_size = refl

empty_store : (check_store_size composer 400 []).0 ≡ err store_is_empty
unfolding check_store_size
empty_store = refl

unselected : is_selected ready ≡ false
unfolding is_selected
unselected = refl

item_size_fits : get_item_size text_item ≤ 300
unfolding get_item_size printed multipart_get_tuple_size mcl_string_util_strlen string_util_strlen
item_size_fits = omega arith

add_item_to_buffer_exact_example :
    (add_item_to_buffer main_boundary text_item 300 ≡ ok (text_message main_boundary text_item))
    × (length (text_message main_boundary text_item) ≡ get_item_size text_item)
add_item_to_buffer_exact_example =
    add_item_to_buffer_exact main_boundary refl text_item 300 refl item_size_fits

select_store_items_to_exchange-bounds_example :
    ((select_store_items_to_exchange (check_store_size composer 400 two_items).1 400).1
      ≡ multipart_get_overhead_size
        + selected_size
            (select_store_items_to_exchange (check_store_size composer 400 two_items).1 400).0)
    × ((select_store_items_to_exchange (check_store_size composer 400 two_items).1 400).1 ≤ 400)
    × Greedy (
      (select_store_items_to_exchange (check_store_size composer 400 two_items).1 400).0,
      400 - (select_store_items_to_exchange (check_store_size composer 400 two_items).1 400).1,
    )
select_store_items_to_exchange-bounds_example =
    select_store_items_to_exchange-bounds composer 400 two_items (unselected, (unselected, tt))
      (omega arith) checked

prepare_body_for_store_exact_example :
    (body : List ℕ) × (prepare_body_for_store composer true
        (check_store_size composer 400 two_items).1
        400
        main_boundary
      ≡ (
        ok body,
        process composer reckoned_composer-Exact
            (select_store_items_to_exchange (check_store_size composer 400 two_items).1 400).0,
      ))
    × (length body
        ≡ (select_store_items_to_exchange (check_store_size composer 400 two_items).1 400).1)
prepare_body_for_store_exact_example =
    prepare_body_for_store_exact composer reckoned_composer-Exact 400 two_items main_boundary
      (unselected, (unselected, tt)) (omega arith) refl checked (omega (arith, chosen_size))

exchange_store-Outcome_example :
    (r : Exchanged composer client 400) × (exchange_store composer client 400 3 two_items 0
      ≡ some r)
    × Outcome r.0 r.1
exchange_store-Outcome_example = exchange_store-Outcome composer client 400 two_items 0

abbrev small_store : Store ReckonedItem
small_store = record { item_list = two_items; last_item_id = 2 }

abbrev good_answers : Answers
good_answers = record {
  has_preamble = true;
  validated = some (ok tt);
  allocated = true;
  list_code = ok tt;
}

added_third :
    mcl_store_add good_answers 0 (some small_store) (some item)
    ≡ (ok tt, some (record { item_list = stored 1 ∷ stored 2 ∷ stored 3 ∷ []; last_item_id = 3 }))
unfolding mcl_store_add preamble_checked store_add_data store_item_added
added_third = refl

mcl_store_add-IsRising_example :
    IsRising (mcl_store_add good_answers 0 (some small_store) (some item)).1
mcl_store_add-IsRising_example =
    mcl_store_add-IsRising good_answers 0 small_store (some item) (omega arith)
      (omega arith, (omega arith, omega arith))
