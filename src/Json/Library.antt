-- ===== src/Json/Library.antt =====
-- What mcl_core/src/json_util.c uses of the cJSON library, and json_util_initialize,
-- json_util_to_string, json_util_parse, json_util_duplicate and json_util_destroy.
use mindconnect_lib.Base.{ℕ, ◌==◌, Bool, true, Option, none, some, List, if◌then◌else◌}
use mindconnect_lib.Base.Code.{Result, err, ok, fail, out_of_memory}
use mindconnect_lib.Base.Action.{Action}
use mindconnect_lib.StringUtil.{CString}

-- An address that is not `MCL_NULL`.
abbrev pub JsonNode : Type 0
JsonNode = ℕ

-- The `type` of a node: `cJSON_False` to `cJSON_Object`, and `cJSON_Raw`.
pub data NodeType : Type 0 where
  false_node true_node null_node number_node string_node array_node object_node raw_node : NodeType

-- `E_MCL_JSON_TYPE`, and what is behind it.
pub data JsonType : Type 0 where
  json_array json_object json_end : JsonType

-- `none` is `MCL_NULL`, which cJSON returns where it has no memory, finds nothing or cannot parse.
pub record CJson (World Double Int : Type 0) : Type 0 where
  pub type_of : JsonNode → World → NodeType
  pub valuestring : JsonNode → World → List ℕ
  pub valueint : JsonNode → World → Int
  pub valuedouble : JsonNode → World → Double
  pub child : JsonNode → World → Option JsonNode
  pub create_array : World → Option JsonNode × World
  pub create_object : World → Option JsonNode × World
  pub create_string : CString → World → Option JsonNode × World
  pub create_number : Double → World → Option JsonNode × World
  pub create_bool : Bool → World → Option JsonNode × World
  pub create_null : World → Option JsonNode × World
  pub add_item_to_array : JsonNode → Option JsonNode → World → World
  pub add_item_to_object : JsonNode → List ℕ → JsonNode → World → World
  pub add_string_to_object : JsonNode → List ℕ → CString → World → Option JsonNode × World
  pub add_number_to_object : JsonNode → List ℕ → Double → World → Option JsonNode × World
  pub add_bool_to_object : JsonNode → List ℕ → Bool → World → Option JsonNode × World
  pub add_null_to_object : JsonNode → List ℕ → World → Option JsonNode × World
  pub get_object_item : JsonNode → List ℕ → World → Option JsonNode
  pub get_array_item : JsonNode → ℕ → World → Option JsonNode
  pub get_array_size : JsonNode → World → ℕ
  pub parse : List ℕ → World → Option JsonNode × World
  pub parse_with_length : List ℕ → ℕ → World → Option JsonNode × World
  pub print_unformatted : JsonNode → World → CString × World
  pub duplicate : JsonNode → Bool → World → Option JsonNode × World
  pub delete : JsonNode → World → World

-- The pointer that a call of cJSON returns, and the code where it is `MCL_NULL`.
unfoldable pub pointer_or :
    {Value World : Type 0} → Option Value × World → Result Value → Result Value × World
pointer_or (none, w) code = (code, w)
pointer_or (some value, w) code = (ok value, w)

module _ {World Double Int : Type 0} (cjson : CJson World Double Int) where
  unfoldable pub json_util_initialize : JsonType → Action World JsonNode
  json_util_initialize json_array w = pointer_or (CJson.create_array cjson w) (err out_of_memory)
  json_util_initialize json_object w = pointer_or (CJson.create_object cjson w) (err out_of_memory)
  json_util_initialize json_end w = (err out_of_memory, w)

  unfoldable pub json_util_to_string : JsonNode → Action World (List ℕ)
  json_util_to_string root w = pointer_or (CJson.print_unformatted cjson root w) (err fail)

  unfoldable pub json_util_parse : List ℕ → ℕ → Action World JsonNode
  json_util_parse json_string size w =
      pointer_or
        (if size == 0
          then CJson.parse cjson json_string w
          else CJson.parse_with_length cjson json_string size w)
        (err fail)

  unfoldable pub json_util_duplicate : JsonNode → Action World JsonNode
  json_util_duplicate source_json w =
      pointer_or (CJson.duplicate cjson source_json true w) (err out_of_memory)

  unfoldable pub json_util_destroy : Option JsonNode → World → World
  json_util_destroy none w = w
  json_util_destroy (some root) w = CJson.delete cjson root w
