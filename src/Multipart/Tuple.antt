-- ===== src/Multipart/Tuple.antt =====
-- multipart.c: the loop over the states, and the functions that its callers use.
use mindconnect_lib.Base.{
  ℕ, zero, suc, ◌+◌, ◌-◌, ◌%◌, Bool, true, false, not, ◌&&◌, ◌||◌, Option, none, some, List, map,
  ltb, leb, ◌==◌, if◌then◌else◌, length, get_or, take,
}
use mindconnect_lib.Base.Code.{Result, ok, err, fail, out_of_memory, is_ok}
use mathlib.Core.Option
use mindconnect_lib.StringUtil.{CString, mcl_string_util_strlen}
use mindconnect_lib.Multipart.States.{
  boundary_sign, content_type, boundary_key, endline, boundary_characters,
  content_type_multipart_related, content_type_meta_json, boundary_length, endline_length,
  multipart_base_size, multipart_close_length, State, open_main_boundary,
  content_type_key_for_multipart_related, content_type_value_multipart_related, state_boundary_key,
  boundary_value_sub_boundary, double_endline_first, open_sub_boundary_first,
  content_type_key_for_meta_json, content_type_value_meta_json, double_endline_second,
  item_meta_json, endline_first, open_sub_boundary_second, content_type_key_for_payload,
  content_type_value_payload, double_endline_third, item_payload, endline_second,
  close_sub_boundary, end, next, space_needed_for_state,
}
use mindconnect_lib.Multipart.Copy.{
  Item, PayloadCallback, Progress, memcpy, add_result, add_item_meta_json,
  add_item_payload_content_type, callback_code, copy, open_boundary, close_boundary, or_empty,
  is_end, go_on,
}

-- Its arguments, and the local `sub_boundary`, `none` where it was not generated.
pub record Tuple (Context : Type 0) : Type 0 where
  pub item : Item
  pub boundary : List ℕ
  pub sub_boundary : CString
  pub payload_content_type : CString
  pub callback : Option (PayloadCallback Context)
  pub user_context : Context

module _ {Context : Type 0} where
  -- The do-while loop of `_add_item_payload`, on fuel: the callback's last value, and the locals.
  -- A callback that returns more than the room it was given has overrun the buffer.
  unfoldable pub payload_loop :
      ℕ → PayloadCallback Context → Context → Progress → Option (ℕ × Progress)
  payload_loop zero callback user_context p = none
  payload_loop (suc fuel) callback user_context p =
      let answer = callback user_context p.remaining_size in
      let callback_value = length answer.0 in
      let p' = record p {
        buffer = memcpy p.buffer p.position answer.0;
        position = p.position + callback_value;
        remaining_size = p.remaining_size - callback_value;
      } in
      let rest = payload_loop fuel callback answer.1 p' in
      if not (0 == callback_value) && not (0 == p'.remaining_size)
      then rest
      else some (callback_value, p')

  unfoldable pub add_item_payload :
      Item → Option (PayloadCallback Context) → Context → Progress → Option Progress
  add_item_payload item none user_context p = some (add_result item.payload p)
  add_item_payload item (some callback) user_context p =
      Option.map callback_code (payload_loop (suc p.remaining_size) callback user_context p)

  -- The `switch` of the loop.
  unfoldable pub run_state : Tuple Context → State → Progress → Option Progress
  run_state t open_main_boundary p = open_boundary t.boundary p
  run_state t content_type_key_for_multipart_related p = copy content_type p
  run_state t content_type_value_multipart_related p = copy content_type_multipart_related p
  run_state t state_boundary_key p = copy boundary_key p
  run_state t boundary_value_sub_boundary p =
      copy (take boundary_length (or_empty t.sub_boundary)) p
  run_state t double_endline_first p = copy endline p
  run_state t open_sub_boundary_first p = open_boundary (or_empty t.sub_boundary) p
  run_state t content_type_key_for_meta_json p = copy content_type p
  run_state t content_type_value_meta_json p = copy content_type_meta_json p
  run_state t double_endline_second p = copy endline p
  run_state t item_meta_json p = some (add_item_meta_json t.item p)
  run_state t endline_first p = copy (take endline_length endline) p
  run_state t open_sub_boundary_second p = open_boundary (or_empty t.sub_boundary) p
  run_state t content_type_key_for_payload p = copy content_type p
  run_state t content_type_value_payload p =
      some (add_item_payload_content_type t.payload_content_type p)
  run_state t double_endline_third p = copy endline p
  run_state t item_payload p = add_item_payload t.item t.callback t.user_context p
  run_state t endline_second p = copy (take endline_length endline) p
  run_state t close_sub_boundary p = close_boundary (or_empty t.sub_boundary) p
  run_state t end p = some p

  unfoldable pub tuple_loop : ℕ → Tuple Context → State → Progress → Option Progress
  tuple_loop zero t state p = none
  tuple_loop (suc fuel) t state p =
      let rest = tuple_loop fuel t (next state) in
      if is_end state
      then some p
      else if (0 == p.remaining_size) || ltb p.remaining_size (space_needed_for_state state)
      then some (record p { code = err fail })
      else go_on rest state (run_state t state p)

-- What a call hands back: its code, the buffer and `*buffer_size`.
pub record Written : Type 0 where
  pub code : Result (Unit {0})
  pub buffer : List ℕ
  pub buffer_size : ℕ

unfoldable pub leave : ℕ → Progress → Written
leave buffer_size p = record {
  code = p.code;
  buffer = p.buffer;
  buffer_size = if is_ok p.code then p.remaining_size else buffer_size;
}

abbrev pub generated : {A : Type 0} → Result A → Result (Unit {0})
generated (ok value) = ok tt
generated (err code) = err code

abbrev pub to_string : Result (List ℕ) → CString
to_string (ok text) = some text
to_string (err code) = none

-- `sub_boundary` is what `multipart_generate_boundary` gives. `none` is a callback that never ends.
unfoldable pub multipart_add_tuple_with_callback :
    {Context : Type 0}
    → List ℕ
    → ℕ
    → Item
    → List ℕ
    → CString
    → Option (PayloadCallback Context)
    → Context
    → Result (List ℕ)
    → Option Written
multipart_add_tuple_with_callback buffer buffer_size item boundary payload_content_type callback
      user_context sub_boundary =
    Option.map (leave buffer_size) (
      tuple_loop 20
        (record {
          item = item;
          boundary = boundary;
          sub_boundary = to_string sub_boundary;
          payload_content_type = payload_content_type;
          callback = callback;
          user_context = user_context;
        })
        open_main_boundary
        (record {
          code = generated sub_boundary;
          buffer = buffer;
          position = 0;
          remaining_size = buffer_size;
        }))

unfoldable pub multipart_add_tuple : List ℕ → ℕ → Item → List ℕ → Result (List ℕ) → Option Written
multipart_add_tuple buffer buffer_size item boundary sub_boundary =
    multipart_add_tuple_with_callback {Context = Unit {0}} buffer buffer_size item boundary none
      none tt sub_boundary

unfoldable pub multipart_get_tuple_size : Item → CString → ℕ
multipart_get_tuple_size item payload_content_type =
    multipart_base_size + item.size + mcl_string_util_strlen payload_content_type

unfoldable pub multipart_close : List ℕ → ℕ → List ℕ → Written
multipart_close buffer buffer_size boundary =
    let buffer_1 = memcpy buffer 0 boundary_sign in
    let buffer_2 = memcpy buffer_1 (length boundary_sign) (take boundary_length boundary) in
    let buffer_3 = memcpy buffer_2 (length boundary_sign + boundary_length) boundary_sign in
    if leb multipart_close_length buffer_size
    then record {
      code = ok tt;
      buffer = buffer_3;
      buffer_size = buffer_size - multipart_close_length;
    }
    else record { code = err fail; buffer = buffer; buffer_size = buffer_size }

unfoldable pub multipart_get_overhead_size : ℕ
multipart_get_overhead_size = multipart_close_length

abbrev pub boundary_character : ℕ → ℕ
boundary_character byte = get_or boundary_characters (byte % length boundary_characters) 0

-- `bytes` is what `mcl_random_generate_bytes` answers for the `boundary_length` bytes.
unfoldable pub multipart_generate_boundary : Bool → Result (List ℕ) → Result (List ℕ)
multipart_generate_boundary false bytes = err out_of_memory
multipart_generate_boundary true (err code) = err code
multipart_generate_boundary true (ok bytes) = ok (map boundary_character bytes)
