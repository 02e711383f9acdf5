-- ===== src/CoreProcessor/Tests.antt =====
-- Runs of mcl_core/src/core_processor.c, and its theorems at concrete inputs.
use mindconnect_lib.Base.{ℕ, ◌≡◌, ◌⊎◌, refl, true, none, some, [], ◌∷◌}
use mindconnect_lib.Base.Text.{literal}
use mindconnect_lib.Base.Code.{
  Result, ok, err, could_not_connect, credentials_not_loaded, unexpected_result_code,
}
use mindconnect_lib.StringUtil.{
  string_util_strlen, print_formatted_string, string_util_reset, string_util_strdup, CString,
}
use mindconnect_lib.Http.Request.{
  new_request, mcl_http_request_initialize, add_line, add_header, mcl_http_request_add_header,
  set_value, mcl_http_request_set_parameter,
}
use mindconnect_lib.Http.Response.{HttpResponse, status_result, mcl_http_response_get_status}
use mindconnect_lib.Json.Library.{
  pointer_or, json_util_initialize, json_util_to_string, json_util_parse, json_util_destroy,
}
use mindconnect_lib.Json.Read.{
  copied_string, json_util_get_object_item, string_value, json_util_get_string,
}
use mindconnect_lib.Json.Build.{
  when_new, started_item, json_util_start_array, json_util_start_object, ignore_item, add_by_type,
  json_util_add_string, json_util_add_item_to_array,
}
use mindconnect_lib.Security.Random.{
  time_hi_and_version, clk_seq_hi_res, guid_text, printed_text, correlation_loop,
  random_generate_guid, generate_correlation_id_string,
}
use mindconnect_lib.CoreProcessor.Payload.{
  add_key_to_keys_array, add_jwks, compose_rsa_onboarding_json, compose_rotation_json,
  security_handler_generate_rsa_key, compose_rsa_key_rotation_json, onboarding_payload,
  rotation_payload,
}
use mindconnect_lib.CoreProcessor.Request.{
  initialize_request, set_parameter, set_url, add_line_to, add_request_header, auth_header,
  correlation_id, registration_request,
}
use mindconnect_lib.CoreProcessor.Response.{
  registration_status, read_shared_secret, read_rsa_3072, read_credentials, parse_credentials,
  replace_credentials, process_credentials, save_by_profile, save_credentials,
  process_registration_response,
}
use mindconnect_lib.CoreProcessor.Register.{
  registration_target, registration_payload, send_registration, core_processor_register,
}
use mindconnect_lib.Security.Handler.{SecurityHandler, new_handler}
use mindconnect_lib.Security.Jwt.{SecurityProfile, shared_secret, rsa_3072}
use mindconnect_lib.Security.Samples.{World, platform}
use mindconnect_lib.CoreProcessor.Environment.{Configuration, Loaded, Environment, CoreProcessor}
use mindconnect_lib.CoreProcessor.Register.End.{
  RegistrationEnd, core_processor_register-RegistrationEnd,
}
use mindconnect_lib.CoreProcessor.Update.{load_by_profile, core_processor_update_credentials}
use mindconnect_lib.CoreProcessor.Update.Outcome.{
  UpdateEnd, core_processor_update_credentials-UpdateEnd,
}
use mindconnect_lib.CoreProcessor.AccessToken.{core_processor_get_access_token}
use mindconnect_lib.CoreProcessor.AccessToken.End.{
  SameRegistration, access_token_of, core_processor_get_access_token-SameRegistration,
}

abbrev answer : ℕ → HttpResponse
answer status_code = record {
  header = literal "Server-Time: 12:00" ∷ [];
  payload = literal "{}";
  payload_size = 2;
  status_code = status_code;
}

abbrev loaded : Loaded
loaded = record {
  client_id = some (literal "agent");
  client_secret = some (literal "new secret");
  public_key = none;
  private_key = none;
  registration_access_token = some (literal "token");
  registration_uri = none;
}

-- The HTTP client answers with `response`, or cannot connect.
abbrev environment : Result HttpResponse → Environment World (Unit {0}) (Unit {0})
environment response = record {
  platform = platform;
  security_initialize = λ w. (ok tt, w);
  mcl_http_client_initialize = λ w. (ok tt, w);
  mcl_http_client_destroy = λ w. w;
  mcl_http_client_send = λ request body w. (response, w);
  body_address = λ w. 1000;
  load_shared_secret = λ w. (ok tt, loaded, w);
  load_rsa = λ w. (err credentials_not_loaded, loaded, w);
  save_shared_secret = λ client_id client_secret token uri w. (ok tt, w);
  save_rsa = λ client_id public_key private_key token uri w. (ok tt, w);
}

abbrev configuration : SecurityProfile → Configuration
configuration profile = record {
  security_profile = profile;
  mindsphere_hostname = literal "https://host";
  initial_access_token = some (literal "initial");
  register_endpoint = some (literal "https://host/register");
  token_endpoint = some (literal "https://host/token");
  tenant = some (literal "tenant");
  has_load = true;
  has_save = true;
}

abbrev fresh : SecurityProfile → CoreProcessor World
fresh profile = record {
  configuration = configuration profile;
  security_handler = new_handler;
  world = tt;
}

abbrev onboarded : SecurityProfile → CoreProcessor World
onboarded profile = record {
  configuration = configuration profile;
  security_handler = record new_handler {
    client_id = some (literal "agent");
    client_secret = some (literal "old secret");
    public_key = some (literal "old public");
    private_key = some (literal "old private");
    registration_access_token = some (literal "token");
    registration_uri = some (literal "https://host/register/agent");
  };
  world = tt;
}

core_processor_register-RegistrationEnd_example :
    RegistrationEnd
      (environment (ok (answer 201)))
      (fresh shared_secret)
      (core_processor_register (environment (ok (answer 201))) (fresh shared_secret))
core_processor_register-RegistrationEnd_example =
    core_processor_register-RegistrationEnd (environment (ok (answer 201))) (fresh shared_secret)

callback_answers :
    load_by_profile (environment (err could_not_connect)) shared_secret tt ≡ (ok tt, loaded, tt)
unfolding load_by_profile
callback_answers = refl

core_processor_update_credentials-UpdateEnd_example :
    UpdateEnd (onboarded shared_secret) (onboarded shared_secret) loaded (
      core_processor_update_credentials
        (environment (err could_not_connect))
        (onboarded shared_secret))
core_processor_update_credentials-UpdateEnd_example =
    core_processor_update_credentials-UpdateEnd (environment (err could_not_connect))
      (onboarded shared_secret) loaded tt refl callback_answers

core_processor_get_access_token-SameRegistration_example :
    (((core_processor_get_access_token (environment (ok (answer 200))) (onboarded rsa_3072)).0
        ≡ ok tt)
      ⊎ (access_token_of
            (core_processor_get_access_token (environment (ok (answer 200))) (onboarded rsa_3072)).1
          ≡ none))
    × SameRegistration
        (onboarded rsa_3072)
        (core_processor_get_access_token (environment (ok (answer 200))) (onboarded rsa_3072)).1
core_processor_get_access_token-SameRegistration_example =
    core_processor_get_access_token-SameRegistration (environment (ok (answer 200)))
      (onboarded rsa_3072)

abbrev private_key_after : Result (Unit {0}) × CoreProcessor World → Result (Unit {0}) × CString
private_key_after (code, c) = (code, SecurityHandler.private_key (CoreProcessor.security_handler c))

abbrev client_id_after : Result (Unit {0}) × CoreProcessor World → Result (Unit {0}) × CString
client_id_after (code, c) = (code, SecurityHandler.client_id (CoreProcessor.security_handler c))

-- A rotation that does not reach the server has already replaced the private key.
lost_key :
    private_key_after
      (core_processor_register (environment (err could_not_connect)) (onboarded rsa_3072))
    ≡ (err could_not_connect, some (literal "new private"))
unfolding string_util_strlen print_formatted_string string_util_reset string_util_strdup new_request
    mcl_http_request_initialize add_line add_header mcl_http_request_add_header set_value
    mcl_http_request_set_parameter status_result mcl_http_response_get_status pointer_or
    json_util_initialize json_util_to_string json_util_parse json_util_destroy copied_string
    json_util_get_object_item string_value json_util_get_string when_new started_item
    json_util_start_array json_util_start_object ignore_item add_by_type json_util_add_string
    json_util_add_item_to_array time_hi_and_version clk_seq_hi_res guid_text printed_text
    correlation_loop random_generate_guid generate_correlation_id_string add_key_to_keys_array
    add_jwks compose_rsa_onboarding_json compose_rotation_json security_handler_generate_rsa_key
    compose_rsa_key_rotation_json onboarding_payload rotation_payload initialize_request
    set_parameter set_url add_line_to add_request_header auth_header correlation_id
    registration_request registration_status read_shared_secret read_rsa_3072 read_credentials
    parse_credentials replace_credentials process_credentials save_by_profile save_credentials
    process_registration_response registration_target registration_payload send_registration
    core_processor_register new_handler
lost_key = refl

-- Onboarding takes the strings of the answer, and 200 is no answer to it.
onboarding_ends :
    (client_id_after (core_processor_register (environment (ok (answer 201))) (fresh shared_secret))
      ≡ (ok tt, some (109 ∷ [])))
    × (client_id_after
          (core_processor_register (environment (ok (answer 200))) (fresh shared_secret))
        ≡ (err unexpected_result_code, none))
unfolding string_util_strlen print_formatted_string string_util_reset string_util_strdup new_request
    mcl_http_request_initialize add_line add_header mcl_http_request_add_header set_value
    mcl_http_request_set_parameter status_result mcl_http_response_get_status pointer_or
    json_util_initialize json_util_to_string json_util_parse json_util_destroy copied_string
    json_util_get_object_item string_value json_util_get_string when_new started_item
    json_util_start_array json_util_start_object ignore_item add_by_type json_util_add_string
    json_util_add_item_to_array time_hi_and_version clk_seq_hi_res guid_text printed_text
    correlation_loop random_generate_guid generate_correlation_id_string add_key_to_keys_array
    add_jwks compose_rsa_onboarding_json compose_rotation_json security_handler_generate_rsa_key
    compose_rsa_key_rotation_json onboarding_payload rotation_payload initialize_request
    set_parameter set_url add_line_to add_request_header auth_header correlation_id
    registration_request registration_status read_shared_secret read_rsa_3072 read_credentials
    parse_credentials replace_credentials process_credentials save_by_profile save_credentials
    process_registration_response registration_target registration_payload send_registration
    core_processor_register new_handler
onboarding_ends = (refl, refl)
