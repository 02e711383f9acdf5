-- ===== src/Json/Build.antt =====
-- The functions of mcl_core/src/json_util.c that build a document. A name is `none` for an item of an
-- array.
use mindconnect_lib.Base.{ℕ, Bool, Option, none, some, List}
use mindconnect_lib.Base.Code.{
  Result, ok, err, out_of_memory, invalid_parameter, json_name_duplication, json_non_existing_child,
}
use mindconnect_lib.Base.Action.{Action, pure, modify, ◌>>=◌, ◌>>◌}
use mindconnect_lib.StringUtil.{CString}
use mindconnect_lib.Json.Library.{
  JsonNode, NodeType, array_node, object_node, JsonType, json_array, json_object, CJson,
  json_util_initialize,
}
use mindconnect_lib.Json.Read.{json_util_get_object_item}

module _ {World Double Int : Type 0} (cjson : CJson World Double Int) where
  -- An item is added only where `json_util_get_object_item` finds none of its name.
  unfoldable pub when_new :
      {Value : Type 0} → Result JsonNode → Action World Value → Action World Value
  when_new (ok child) add w = (err json_name_duplication, w)
  when_new (err json_non_existing_child) add w = add w
  when_new (err _) add w = (err json_name_duplication, w)

  unfoldable pub started_item : JsonType → JsonNode → List ℕ → Action World JsonNode
  started_item json_type root name = do
    item ← json_util_initialize cjson json_type
    modify (CJson.add_item_to_object cjson root name item)
    pure item

  unfoldable pub json_util_start_array : JsonNode → List ℕ → Action World JsonNode
  json_util_start_array root array_name w =
      when_new (json_util_get_object_item cjson root array_name w)
        (started_item json_array root array_name) w

  unfoldable pub json_util_start_object : JsonNode → List ℕ → Action World JsonNode
  json_util_start_object root object_name w =
      when_new (json_util_get_object_item cjson root object_name w)
        (started_item json_object root object_name) w

  -- An item that cJSON has created goes to the end of the array.
  unfoldable pub created_item : JsonNode → Option JsonNode × World → Result (Unit {0}) × World
  created_item root (none, w) = (err out_of_memory, w)
  created_item root (some item, w) = (ok tt, CJson.add_item_to_array cjson root (some item) w)

  -- The node that cJSON returns is not looked at.
  unfoldable pub ignore_item : Option JsonNode × World → Result (Unit {0}) × World
  ignore_item (item, w) = (ok tt, w)

  -- The cases on the type of `root` and on the name, which the four functions below share.
  unfoldable pub add_by_type :
      NodeType
      → JsonNode
      → CString
      → Action World (Unit {0})
      → (List ℕ → Action World (Unit {0}))
      → Action World (Unit {0})
  add_by_type array_node root none to_array to_object w = to_array w
  add_by_type object_node root (some name) to_array to_object w =
      when_new (json_util_get_object_item cjson root name w) (to_object name) w
  add_by_type _ root _ to_array to_object w = (err invalid_parameter, w)

  unfoldable pub json_util_add_string : JsonNode → CString → CString → Action World (Unit {0})
  json_util_add_string root object_name object_value w =
      add_by_type (CJson.type_of cjson root w) root object_name
        (λ w. created_item root (CJson.create_string cjson object_value w))
        (λ name w. ignore_item (CJson.add_string_to_object cjson root name object_value w)) w

  unfoldable pub add_number : JsonNode → CString → Double → Action World (Unit {0})
  add_number root object_name number w =
      add_by_type (CJson.type_of cjson root w) root object_name
        (λ w. created_item root (CJson.create_number cjson number w))
        (λ name w. ignore_item (CJson.add_number_to_object cjson root name number w)) w

  unfoldable pub json_util_add_double : JsonNode → CString → Double → Action World (Unit {0})
  json_util_add_double root object_name number = add_number root object_name number

  -- `to_double` is the conversion of the C language.
  unfoldable pub json_util_add_uint :
      (ℕ → Double) → JsonNode → CString → ℕ → Action World (Unit {0})
  json_util_add_uint to_double root object_name number =
      add_number root object_name (to_double number)

  unfoldable pub json_util_add_bool : JsonNode → CString → Bool → Action World (Unit {0})
  json_util_add_bool root object_name bool_value w =
      add_by_type (CJson.type_of cjson root w) root object_name
        (λ w. created_item root (CJson.create_bool cjson bool_value w))
        (λ name w. ignore_item (CJson.add_bool_to_object cjson root name bool_value w)) w

  -- The array gets the node without a look at it.
  unfoldable pub null_item : JsonNode → Option JsonNode × World → Result (Unit {0}) × World
  null_item root (item, w) = (ok tt, CJson.add_item_to_array cjson root item w)

  unfoldable pub json_util_add_null : JsonNode → CString → Action World (Unit {0})
  json_util_add_null root object_name w =
      add_by_type (CJson.type_of cjson root w) root object_name
        (λ w. null_item root (CJson.create_null cjson w))
        (λ name w. ignore_item (CJson.add_null_to_object cjson root name w)) w

  unfoldable pub json_util_add_object : JsonNode → List ℕ → JsonNode → Action World (Unit {0})
  json_util_add_object root object_name object w =
      when_new (json_util_get_object_item cjson root object_name w)
        (modify (CJson.add_item_to_object cjson root object_name object)) w

  unfoldable pub json_util_add_item_to_array : JsonNode → JsonNode → World → World
  json_util_add_item_to_array root object w = CJson.add_item_to_array cjson root (some object) w
