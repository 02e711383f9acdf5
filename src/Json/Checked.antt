-- ===== src/Json/Checked.antt =====
-- The functions of mcl_core/mcl_json_util.h in mcl_core/src/json_util.c: null checks around those of
-- Json/Library, Json/Read and Json/Build. An argument is `none` where it is `MCL_NULL`; the pointers
-- that results go through are not.
use mindconnect_lib.Base.{ℕ, Bool, Option, none, some, List}
use mindconnect_lib.Base.Code.{Result, ok, err, triggered_with_null, ◌>>=◌}
use mindconnect_lib.Base.Action.{Action, Memory, modify}
use mindconnect_lib.StringUtil.{CString}
use mindconnect_lib.Json.Library.{
  JsonNode, JsonType, CJson, json_util_initialize, json_util_to_string, json_util_parse,
  json_util_duplicate, json_util_destroy,
}
use mindconnect_lib.Json.Read.{
  json_util_get_object_item, json_util_has_child, json_util_get_array_item,
  json_util_get_array_size, json_util_get_number_value, json_util_get_double_value,
  json_util_get_bool_value, json_util_get_string,
}
use mindconnect_lib.Json.Build.{
  json_util_start_array, json_util_start_object, json_util_add_string, json_util_add_double,
  json_util_add_uint, json_util_add_bool, json_util_add_null, json_util_add_object,
  json_util_add_item_to_array,
}

-- `MCL_ASSERT_NOT_NULL`.
abbrev pub not_null : {Value : Type 0} → Option Value → Result Value
not_null none = err triggered_with_null
not_null (some value) = ok value

abbrev pub checked :
    {Value Next World : Type 0} → Option Value → (Value → Action World Next) → Action World Next
checked none rest w = (err triggered_with_null, w)
checked (some value) rest w = rest value w

module _ {World Double Int : Type 0} (cjson : CJson World Double Int) where
  pub mcl_json_util_initialize : JsonType → Action World JsonNode
  mcl_json_util_initialize mcl_json_type = json_util_initialize cjson mcl_json_type

  pub mcl_json_util_start_array : Option JsonNode → CString → Action World JsonNode
  mcl_json_util_start_array root array_name =
      checked root (λ root. checked array_name (json_util_start_array cjson root))

  pub mcl_json_util_get_array_item : Option JsonNode → ℕ → World → Result JsonNode
  mcl_json_util_get_array_item array index w =
      not_null array >>= λ array. json_util_get_array_item cjson array index w

  pub mcl_json_util_get_array_size : Option JsonNode → World → Result ℕ
  mcl_json_util_get_array_size array w =
      not_null array >>= λ array. json_util_get_array_size cjson array w

  pub mcl_json_util_start_object : Option JsonNode → CString → Action World JsonNode
  mcl_json_util_start_object root object_name =
      checked root (λ root. checked object_name (json_util_start_object cjson root))

  pub mcl_json_util_add_string : Option JsonNode → CString → CString → Action World (Unit {0})
  mcl_json_util_add_string root object_name object_value = checked root (λ root.
      checked object_value
        (λ object_value. json_util_add_string cjson root object_name (some object_value)))

  pub mcl_json_util_add_uint :
      (ℕ → Double) → Option JsonNode → CString → ℕ → Action World (Unit {0})
  mcl_json_util_add_uint to_double root object_name number =
      checked root (λ root. json_util_add_uint cjson to_double root object_name number)

  pub mcl_json_util_add_double : Option JsonNode → CString → Double → Action World (Unit {0})
  mcl_json_util_add_double root object_name number =
      checked root (λ root. json_util_add_double cjson root object_name number)

  pub mcl_json_util_add_bool : Option JsonNode → CString → Bool → Action World (Unit {0})
  mcl_json_util_add_bool root object_name bool_value =
      checked root (λ root. json_util_add_bool cjson root object_name bool_value)

  pub mcl_json_util_add_null : Option JsonNode → CString → Action World (Unit {0})
  mcl_json_util_add_null root object_name =
      checked root (λ root. json_util_add_null cjson root object_name)

  pub mcl_json_util_add_object :
      Option JsonNode → CString → Option JsonNode → Action World (Unit {0})
  mcl_json_util_add_object root object_name object = checked root (λ root.
      checked object_name
        (λ object_name. checked object (json_util_add_object cjson root object_name)))

  pub mcl_json_util_add_item_to_array : Option JsonNode → Option JsonNode → Action World (Unit {0})
  mcl_json_util_add_item_to_array root object =
      checked root
        (λ root. checked object (λ object. modify (json_util_add_item_to_array cjson root object)))

  pub mcl_json_util_get_object_item : Option JsonNode → CString → World → Result JsonNode
  mcl_json_util_get_object_item json_parent child_name w = not_null json_parent >>= λ json_parent.
      not_null child_name >>= λ child_name. json_util_get_object_item cjson json_parent child_name w

  pub mcl_json_util_has_child : Option JsonNode → World → Result Bool
  mcl_json_util_has_child root w = not_null root >>= λ root. ok (json_util_has_child cjson root w)

  pub mcl_json_util_get_number_value : Option JsonNode → World → Result Int
  mcl_json_util_get_number_value json w =
      not_null json >>= λ json. json_util_get_number_value cjson json w

  pub mcl_json_util_get_double_value : Option JsonNode → World → Result Double
  mcl_json_util_get_double_value json w =
      not_null json >>= λ json. json_util_get_double_value cjson json w

  pub mcl_json_util_get_bool_value : Option JsonNode → World → Result Bool
  mcl_json_util_get_bool_value json w =
      not_null json >>= λ json. json_util_get_bool_value cjson json w

  pub mcl_json_util_get_string : Memory World → Option JsonNode → Action World CString
  mcl_json_util_get_string memory json = checked json (json_util_get_string cjson memory)

  pub mcl_json_util_to_string : Option JsonNode → Action World (List ℕ)
  mcl_json_util_to_string root = checked root (json_util_to_string cjson)

  pub mcl_json_util_parse : CString → ℕ → Action World JsonNode
  mcl_json_util_parse json_string buffer_size =
      checked json_string (λ json_string. json_util_parse cjson json_string buffer_size)

  pub mcl_json_util_duplicate : Option JsonNode → Action World JsonNode
  mcl_json_util_duplicate source_json = checked source_json (json_util_duplicate cjson)

  pub mcl_json_util_destroy : Option JsonNode → World → World
  mcl_json_util_destroy root w = json_util_destroy cjson root w
