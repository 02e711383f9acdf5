-- ===== src/Connectivity/Mapping.antt =====
-- The mappings and the data source configuration of mcl_connectivity/src/connectivity_processor.c.
use mindconnect_lib.Base.{ℕ, ◌==◌, Option, none, some, List, [], ◌++◌, if◌then◌else◌}
use mindconnect_lib.Base.Text.{literal}
use mindconnect_lib.Base.Code.{Result, ok, err, unexpected_result_code}
use mindconnect_lib.Base.Action.{Action, malloc, finally, from_result, gets, ◌>>=◌, ◌>>◌}
use mindconnect_lib.StringUtil.{CString, string_util_strlen}
use mindconnect_lib.Http.Request.{
  HttpRequest, http_get, parameter_method, parameter_body, parameter_body_size,
}
use mindconnect_lib.Http.Response.{HttpResponse, mcl_http_response_get_status}
use mindconnect_lib.Json.Library.{JsonNode, json_object}
use mindconnect_lib.Json.Checked.{
  mcl_json_util_initialize, mcl_json_util_add_string, mcl_json_util_add_bool,
  mcl_json_util_to_string, mcl_json_util_destroy,
}
use mindconnect_lib.Multipart.States.{content_type_application_json}
use mindconnect_lib.Security.Handler.{text_of}
use mindconnect_lib.Security.Jwt.{Platform}
use mindconnect_lib.CoreProcessor.Request.{
  initialize_request, set_parameter, set_url, add_request_header, http_post,
}
use mindconnect_lib.Connectivity.Processor.{
  ConnectivityProcessor, Surroundings, Mapping, mapping_validate,
}
use mindconnect_lib.Connectivity.Request.{
  memory_of, add_authorization_header, generate_correlation_id_string,
}

-- A mapping without an entity is one of the agent.
unfoldable pub entity_or_agent : CString → CString → CString
entity_or_agent none agent_id = agent_id
entity_or_agent (some entity_id) agent_id = some entity_id

-- An answer with 200 in place of 201 is not expected.
unfoldable pub not_created : Result (Unit {0}) → Result (Unit {0})
not_created (ok _) = err unexpected_result_code
not_created (err code) = err code

unfoldable pub evaluate_mapping_response : HttpResponse → Result (Unit {0})
evaluate_mapping_response response =
    if HttpResponse.status_code response == 201
    then ok tt
    else not_created (mcl_http_response_get_status (some response))

unfoldable pub data_source_configuration_url : ConnectivityProcessor → List ℕ
data_source_configuration_url processor =
    text_of (ConnectivityProcessor.hostname processor)
    ++ (literal "/api/agentmanagement/v3/agents/"
        ++ (text_of (ConnectivityProcessor.agent_id processor)
            ++ literal "/dataSourceConfiguration"))

module _ {World Double Int : Type 0} (surroundings : Surroundings World Double Int) where
  abbrev platform_of : Platform World Double Int
  platform_of = Surroundings.platform surroundings

  abbrev add_member : JsonNode → List ℕ → CString → Action World (Unit {0})
  add_member root name value =
      mcl_json_util_add_string (Platform.cjson platform_of) (some root) (some name) value

  unfoldable pub add_mapping : Mapping → CString → JsonNode → Action World (Unit {0})
  add_mapping mapping agent_id root = do
    add_member root (literal "agentId") agent_id
    add_member root (literal "dataPointId") (Mapping.data_point_id mapping)
    add_member root (literal "entityId") (entity_or_agent (Mapping.entity_id mapping) agent_id)
    add_member root (literal "propertySetName") (Mapping.property_set_name mapping)
    add_member root (literal "propertyName") (Mapping.property_name mapping)
    mcl_json_util_add_bool (Platform.cjson platform_of) (some root) (some (literal "keepMapping"))
        (Mapping.keep_mapping mapping)

  unfoldable pub prepare_mapping_json : Mapping → CString → Action World (List ℕ)
  prepare_mapping_json mapping agent_id = do
    root ← mcl_json_util_initialize (Platform.cjson platform_of) json_object
    finally
        (add_mapping mapping agent_id root
          >> mcl_json_util_to_string (Platform.cjson platform_of) (some root))
        (mcl_json_util_destroy (Platform.cjson platform_of) (some root))

  unfoldable pub mapping_request :
      ConnectivityProcessor → List ℕ → List ℕ → Action World HttpRequest
  mapping_request processor uninitialized json_string = do
    r ← initialize_request (memory_of surroundings)
    address ← gets (Surroundings.body_address surroundings)
    r ← set_parameter (memory_of surroundings) r (parameter_body address)
    r ←
        set_parameter (memory_of surroundings) r
          (parameter_body_size (string_util_strlen json_string))
    r ← set_parameter (memory_of surroundings) r (parameter_method http_post)
    r ← set_url (memory_of surroundings) r (ConnectivityProcessor.mapping_url processor)
    correlation_id ← generate_correlation_id_string surroundings uninitialized
    r ← add_request_header (memory_of surroundings) r (literal "Correlation-ID") correlation_id
    r ←
        add_request_header (memory_of surroundings) r (literal "Content-Type")
          content_type_application_json
    r ←
        add_request_header (memory_of surroundings) r (literal "Accept")
          content_type_application_json
    add_authorization_header (memory_of surroundings) r
        (ConnectivityProcessor.access_token processor)

  unfoldable pub connectivity_processor_create_mapping :
      ConnectivityProcessor → List ℕ → Mapping → Action World (Unit {0})
  connectivity_processor_create_mapping processor uninitialized mapping = do
    from_result (mapping_validate mapping)
    json_string ← prepare_mapping_json mapping (ConnectivityProcessor.agent_id processor)
    http_request ← mapping_request processor uninitialized json_string
    http_response ← Surroundings.mcl_http_client_send surroundings http_request json_string
    from_result (evaluate_mapping_response http_response)

  unfoldable pub data_source_configuration_request :
      ConnectivityProcessor → Action World HttpRequest
  data_source_configuration_request processor = do
    malloc (memory_of surroundings)
    r ← initialize_request (memory_of surroundings)
    r ← set_url (memory_of surroundings) r (some (data_source_configuration_url processor))
    r ← set_parameter (memory_of surroundings) r (parameter_method http_get)
    r ←
        add_authorization_header (memory_of surroundings) r
          (ConnectivityProcessor.access_token processor)
    add_request_header (memory_of surroundings) r (literal "Accept") content_type_application_json

  module _ {DataSourceConfiguration : Type 0}
      (json_parse_item : List ℕ → ℕ → Action World DataSourceConfiguration) where
    -- What a status that `mcl_http_response_get_status` accepts would leave is no configuration.
    unfoldable pub refused : Result (Unit {0}) → Action World (Option DataSourceConfiguration)
    refused (ok _) w = (ok none, w)
    refused (err code) w = (err code, w)

    unfoldable pub parse_configuration :
        HttpResponse → Action World (Option DataSourceConfiguration)
    parse_configuration response w =
        if HttpResponse.status_code response == 200
        then (json_parse_item (HttpResponse.payload response) (HttpResponse.payload_size response)
              >>= λ configuration w. (ok (some configuration), w))
            w
        else refused (mcl_http_response_get_status (some response)) w

    unfoldable pub connectivity_processor_get_data_source_configuration :
        ConnectivityProcessor → Action World (Option DataSourceConfiguration)
    connectivity_processor_get_data_source_configuration processor = do
      http_request ← data_source_configuration_request processor
      http_response ← Surroundings.mcl_http_client_send surroundings http_request []
      parse_configuration http_response
