-- ===== src/Multipart/States.antt =====
-- multipart.c: its texts, the states of its loop, and the space that each state needs.
use mindconnect_lib.Base.{ℕ, ◌+◌, ◌*◌, List, [], ◌∷◌, length}
use mindconnect_lib.Base.Text.{literal}

abbrev pub boundary_sign : List ℕ
boundary_sign = literal "--"

abbrev pub content_type : List ℕ
content_type = literal "Content-Type: "

abbrev pub boundary_key : List ℕ
boundary_key = literal ";boundary="

abbrev pub endline : List ℕ
endline = 13 ∷ 10 ∷ 13 ∷ 10 ∷ []

abbrev pub boundary_characters : List ℕ
boundary_characters = literal "1234567890abcdefghijklmnopqrstuvwxyzABCDEFGHIJKLMNOPQRSTUVWXYZ"

abbrev pub content_type_multipart_related : List ℕ
content_type_multipart_related = literal "multipart/related"

abbrev pub content_type_meta_json : List ℕ
content_type_meta_json = literal "application/vnd.siemens.mindsphere.meta+json"

abbrev pub content_type_application_json : List ℕ
content_type_application_json = literal "application/json"

abbrev pub boundary_length : ℕ
boundary_length = 20

abbrev pub endline_length : ℕ
endline_length = 2

-- `MULTIPART_BASE_SIZE` and `MULTIPART_CLOSE_LENGTH`.
abbrev pub multipart_base_size : ℕ
multipart_base_size =
    5 * length boundary_sign
    + 5 * boundary_length
    + 3 * length content_type
    + length content_type_multipart_related
    + length boundary_key
    + length content_type_meta_json
    + 12 * endline_length

abbrev pub multipart_close_length : ℕ
multipart_close_length = boundary_length + 2 * length boundary_sign

pub data State : Type 0 where
  open_main_boundary content_type_key_for_multipart_related : State
  content_type_value_multipart_related state_boundary_key : State
  boundary_value_sub_boundary double_endline_first open_sub_boundary_first : State
  content_type_key_for_meta_json content_type_value_meta_json double_endline_second : State
  item_meta_json endline_first open_sub_boundary_second content_type_key_for_payload : State
  content_type_value_payload double_endline_third item_payload endline_second : State
  close_sub_boundary end : State

-- `++multipart_state`
unfoldable pub next : State → State
next open_main_boundary = content_type_key_for_multipart_related
next content_type_key_for_multipart_related = content_type_value_multipart_related
next content_type_value_multipart_related = state_boundary_key
next state_boundary_key = boundary_value_sub_boundary
next boundary_value_sub_boundary = double_endline_first
next double_endline_first = open_sub_boundary_first
next open_sub_boundary_first = content_type_key_for_meta_json
next content_type_key_for_meta_json = content_type_value_meta_json
next content_type_value_meta_json = double_endline_second
next double_endline_second = item_meta_json
next item_meta_json = endline_first
next endline_first = open_sub_boundary_second
next open_sub_boundary_second = content_type_key_for_payload
next content_type_key_for_payload = content_type_value_payload
next content_type_value_payload = double_endline_third
next double_endline_third = item_payload
next item_payload = endline_second
next endline_second = close_sub_boundary
next close_sub_boundary = end
next end = end

unfoldable pub space_needed_for_state : State → ℕ
space_needed_for_state open_main_boundary = length boundary_sign + boundary_length + endline_length
space_needed_for_state content_type_key_for_multipart_related = length content_type
space_needed_for_state content_type_value_multipart_related = length content_type_multipart_related
space_needed_for_state state_boundary_key = length boundary_key
space_needed_for_state boundary_value_sub_boundary = boundary_length
space_needed_for_state double_endline_first = length endline
space_needed_for_state open_sub_boundary_first =
    length boundary_sign + boundary_length + endline_length
space_needed_for_state content_type_key_for_meta_json = length content_type
space_needed_for_state content_type_value_meta_json = length content_type_meta_json
space_needed_for_state double_endline_second = length endline
space_needed_for_state item_meta_json = 0
space_needed_for_state endline_first = endline_length
space_needed_for_state open_sub_boundary_second =
    length boundary_sign + boundary_length + endline_length
space_needed_for_state content_type_key_for_payload = length content_type
space_needed_for_state content_type_value_payload = 0
space_needed_for_state double_endline_third = length endline
space_needed_for_state item_payload = 0
space_needed_for_state endline_second = endline_length
space_needed_for_state close_sub_boundary =
    2 * length boundary_sign + boundary_length + endline_length
space_needed_for_state end = 0
