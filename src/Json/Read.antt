-- ===== src/Json/Read.antt =====
-- The functions of mcl_core/src/json_util.c that read a document.
use mindconnect_lib.Base.{ℕ, Bool, true, false, none, some, List}
use mindconnect_lib.Base.Code.{
  Result, ok, err, out_of_memory, invalid_parameter, json_non_existing_child, json_type_mismatch,
}
use mindconnect_lib.Base.Action.{Action, Memory, not_null_or}
use mindconnect_lib.StringUtil.{CString}
use mindconnect_lib.Json.Library.{
  JsonNode, NodeType, false_node, true_node, null_node, number_node, string_node, array_node, CJson,
}

-- The copy of `valuestring`.
unfoldable pub copied_string : {World : Type 0} → List ℕ → Bool × World → Result CString × World
copied_string text (false, w) = (err out_of_memory, w)
copied_string text (true, w) = (ok (some text), w)

module _ {World Double Int : Type 0} (cjson : CJson World Double Int) where
  unfoldable pub json_util_get_object_item : JsonNode → List ℕ → World → Result JsonNode
  json_util_get_object_item json_parent child_name w =
      not_null_or json_non_existing_child (CJson.get_object_item cjson json_parent child_name w)

  unfoldable pub json_util_has_child : JsonNode → World → Bool
  json_util_has_child root w = elim (CJson.child cjson root w) [ none ↦ false | some _ ↦ true ]

  unfoldable pub array_item : NodeType → JsonNode → ℕ → World → Result JsonNode
  array_item array_node array index w =
      not_null_or invalid_parameter (CJson.get_array_item cjson array index w)
  array_item _ array index w = err json_type_mismatch

  unfoldable pub json_util_get_array_item : JsonNode → ℕ → World → Result JsonNode
  json_util_get_array_item array index w = array_item (CJson.type_of cjson array w) array index w

  unfoldable pub json_util_get_array_size : JsonNode → World → Result ℕ
  json_util_get_array_size array w = elim (CJson.type_of cjson array w) [
    | array_node ↦ ok (CJson.get_array_size cjson array w)
    | _ ↦ err json_type_mismatch
  ]

  unfoldable pub json_util_get_number_value : JsonNode → World → Result Int
  json_util_get_number_value json w = elim (CJson.type_of cjson json w) [
    | number_node ↦ ok (CJson.valueint cjson json w)
    | _ ↦ err json_type_mismatch
  ]

  unfoldable pub json_util_get_double_value : JsonNode → World → Result Double
  json_util_get_double_value json w = elim (CJson.type_of cjson json w) [
    | number_node ↦ ok (CJson.valuedouble cjson json w)
    | _ ↦ err json_type_mismatch
  ]

  unfoldable pub json_util_get_bool_value : JsonNode → World → Result Bool
  json_util_get_bool_value json w = elim (CJson.type_of cjson json w) [
    | true_node ↦ ok true
    | false_node ↦ ok false
    | _ ↦ err json_type_mismatch
  ]

  -- A JSON null is `MCL_NULL` with `MCL_OK`.
  unfoldable pub string_value : Memory World → NodeType → JsonNode → Action World CString
  string_value memory string_node json w =
      copied_string (CJson.valuestring cjson json w) (Memory.allocate memory w)
  string_value memory null_node json w = (ok none, w)
  string_value memory _ json w = (err json_type_mismatch, w)

  unfoldable pub json_util_get_string : Memory World → JsonNode → Action World CString
  json_util_get_string memory json w = string_value memory (CJson.type_of cjson json w) json w
