-- ===== src/Connectivity/Processor.antt =====
-- The state and the surroundings of mcl_connectivity/src/connectivity_processor.c, and the mapping of
-- mcl_connectivity/src/mapping.c.
use mindconnect_lib.Base.{ℕ, Bool, true, Option, none, some, List, if◌then◌else◌}
use mindconnect_lib.Base.Code.{
  Result, ok, err, invalid_parameter, out_of_memory, triggered_with_null,
}
use mindconnect_lib.Base.Action.{Action}
use mindconnect_lib.StringUtil.{CString, string_util_reset}
use mindconnect_lib.Http.Request.{Address, HttpRequest}
use mindconnect_lib.Http.Response.{HttpResponse}
use mindconnect_lib.Security.Jwt.{Platform}

pub record ConnectivityProcessor : Type 0 where
  pub agent_id : CString
  pub hostname : CString
  pub access_token : CString
  pub exchange_url : CString
  pub mapping_url : CString
  pub max_http_payload_size : ℕ

-- The libraries, the HTTP client, which is handed a request and the bytes at the address of its body,
-- and where the body of a request lies.
pub record Surroundings (World Double Int : Type 0) : Type 0 where
  pub platform : Platform World Double Int
  pub mcl_http_client_send : HttpRequest → List ℕ → Action World HttpResponse
  pub body_address : World → Address

pub record Mapping : Type 0 where
  pub data_point_id : CString
  pub entity_id : CString
  pub property_set_name : CString
  pub property_name : CString
  pub keep_mapping : Bool

abbrev all_set : CString → CString → CString → Result (Unit {0})
all_set (some data_point_id) (some property_name) (some property_set_name) = ok tt
all_set _ _ _ = err invalid_parameter

unfoldable pub mapping_validate : Mapping → Result (Unit {0})
mapping_validate mapping =
    all_set (Mapping.data_point_id mapping) (Mapping.property_name mapping)
      (Mapping.property_set_name mapping)

abbrev pub new_mapping : Mapping
new_mapping = record {
  data_point_id = none;
  entity_id = none;
  property_set_name = none;
  property_name = none;
  keep_mapping = true;
}

unfoldable pub mcl_mapping_initialize : Bool → Result Mapping
mcl_mapping_initialize allocated = if allocated then ok new_mapping else err out_of_memory

-- The value of a parameter, with its type; `end_of_parameters` is any other parameter.
pub data MappingParameter : Type 0 where
  data_point_id_parameter entity_id_parameter : List ℕ → MappingParameter
  property_set_name_parameter property_name_parameter : List ℕ → MappingParameter
  keep_mapping_parameter : Bool → MappingParameter
  end_of_parameters : MappingParameter

-- `allocated` is what the allocator answers for the copy of a string.
unfoldable pub set_member : Bool → Mapping → MappingParameter → Result (Unit {0}) × Mapping
set_member allocated m (data_point_id_parameter value) =
    let done = string_util_reset allocated value (Mapping.data_point_id m) in
    (done.0, record m { data_point_id = done.1 })
set_member allocated m (entity_id_parameter value) =
    let done = string_util_reset allocated value (Mapping.entity_id m) in
    (done.0, record m { entity_id = done.1 })
set_member allocated m (property_set_name_parameter value) =
    let done = string_util_reset allocated value (Mapping.property_set_name m) in
    (done.0, record m { property_set_name = done.1 })
set_member allocated m (property_name_parameter value) =
    let done = string_util_reset allocated value (Mapping.property_name m) in
    (done.0, record m { property_name = done.1 })
set_member allocated m (keep_mapping_parameter value) = (ok tt, record m { keep_mapping = value })
set_member allocated m end_of_parameters = (err invalid_parameter, m)

unfoldable pub mcl_mapping_set_parameter :
    Bool → Option Mapping → Option MappingParameter → Result (Unit {0}) × Option Mapping
mcl_mapping_set_parameter allocated none value = (err triggered_with_null, none)
mcl_mapping_set_parameter allocated (some m) none = (err triggered_with_null, some m)
mcl_mapping_set_parameter allocated (some m) (some value) =
    let done = set_member allocated m value in (done.0, some done.1)
