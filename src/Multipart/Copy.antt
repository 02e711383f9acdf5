-- ===== src/Multipart/Copy.antt =====
-- multipart.c: the copies that its loop makes into the buffer, `_add_boundary` and the `_add_item_*`
-- functions.
use mindconnect_lib.Base.{
  ℕ, ◌+◌, ◌-◌, Bool, true, false, not, ◌&&◌, Option, none, some, List, [], ◌++◌, leb, ◌==◌,
  if◌then◌else◌, length, take, drop,
}
use mindconnect_lib.Base.Code.{Result, ok, err, fail, is_ok}
use mindconnect_lib.StringUtil.{CString}
use mindconnect_lib.Multipart.States.{
  boundary_sign, endline, content_type_application_json, boundary_length, endline_length, State,
  end, space_needed_for_state,
}

-- What json.c makes of an item: `json_from_item_meta`, `json_from_item_payload` and
-- `json_get_item_size`.
pub record Item : Type 0 where
  pub meta : Result (List ℕ)
  pub payload : Result (List ℕ)
  pub size : ℕ

-- `callback(position, 1, remaining_size, user_context)`: the bytes it writes, as many as it
-- returns, and what it leaves of its context.
abbrev pub PayloadCallback : Type 0 → Type 0
PayloadCallback Context = Context → ℕ → List ℕ × Context

-- The locals of `multipart_add_tuple_with_callback` that its loop changes.
pub record Progress : Type 0 where
  pub code : Result (Unit {0})
  pub buffer : List ℕ
  pub position : ℕ
  pub remaining_size : ℕ

-- `mcl_string_util_memcpy(buffer + position, source, length source)`
unfoldable pub memcpy : List ℕ → ℕ → List ℕ → List ℕ
memcpy buffer position source =
    take position buffer ++ (source ++ drop (position + length source) buffer)

unfoldable pub add_boundary : List ℕ → ℕ → List ℕ → Bool → List ℕ
add_boundary buffer position boundary add_and_close =
    let buffer_1 = memcpy buffer position boundary_sign in
    let position_1 = position + length boundary_sign in
    let buffer_2 = memcpy buffer_1 position_1 (take boundary_length boundary) in
    let position_2 = position_1 + boundary_length in
    let buffer_3 = if add_and_close then memcpy buffer_2 position_2 boundary_sign else buffer_2 in
    let position_3 = if add_and_close then position_2 + length boundary_sign else position_2 in
    memcpy buffer_3 position_3 (take endline_length endline)

-- The copy of a text of any length: where there is room, both the position and the room move.
unfoldable pub add_text : List ℕ → Progress → Progress
add_text source p =
    if leb (length source) p.remaining_size
    then record p {
      buffer = memcpy p.buffer p.position source;
      position = p.position + length source;
      remaining_size = p.remaining_size - length source;
    }
    else record p { code = err fail }

unfoldable pub add_result : Result (List ℕ) → Progress → Progress
add_result (ok source) p = add_text source p
add_result (err code) p = record p { code = err code }

unfoldable pub add_item_meta_json : Item → Progress → Progress
add_item_meta_json item p = add_result item.meta p

unfoldable pub add_item_payload_content_type : CString → Progress → Progress
add_item_payload_content_type none p = add_text content_type_application_json p
add_item_payload_content_type (some payload_content_type) p = add_text payload_content_type p

unfoldable pub callback_code : ℕ × Progress → Progress
callback_code (callback_value, p) =
    if (0 == p.remaining_size) && not (0 == callback_value) then record p { code = err fail } else p

unfoldable pub copy : List ℕ → Progress → Option Progress
copy source p = some (record p { buffer = memcpy p.buffer p.position source })

unfoldable pub open_boundary : List ℕ → Progress → Option Progress
open_boundary boundary p =
    some (record p { buffer = add_boundary p.buffer p.position boundary false })

unfoldable pub close_boundary : List ℕ → Progress → Option Progress
close_boundary boundary p =
    some (record p { buffer = add_boundary p.buffer p.position boundary true })

-- No state but the first is run without a sub boundary.
unfoldable pub or_empty : CString → List ℕ
or_empty none = []
or_empty (some text) = text

unfoldable pub advance : State → Progress → Progress
advance state p = record p {
  remaining_size = p.remaining_size - space_needed_for_state state;
  position = p.position + space_needed_for_state state;
}

unfoldable pub is_end : State → Bool
is_end end = true
is_end _ = false

-- `break` with the code of the switch, or the next round.
abbrev pub go_on : (Progress → Option Progress) → State → Option Progress → Option Progress
go_on rest state none = none
go_on rest state (some p) = if is_ok p.code then rest (advance state p) else some p
