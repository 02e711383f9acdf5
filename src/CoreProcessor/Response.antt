-- ===== src/CoreProcessor/Response.antt =====
-- What mcl_core/src/core_processor.c makes of the answer to a registration.
use mindconnect_lib.Base.{ℕ, Bool, true, false, none, some, List, if◌then◌else◌}
use mindconnect_lib.Base.Text.{literal}
use mindconnect_lib.Base.Code.{Result, ok, err, created, unexpected_result_code}
use mindconnect_lib.Base.Action.{Action, pure, modify, finally, from_result, gets, ◌>>=◌, ◌>>◌}
use mindconnect_lib.StringUtil.{CString}
use mindconnect_lib.Http.Response.{HttpResponse, mcl_http_response_get_status}
use mindconnect_lib.Json.Library.{JsonNode, json_util_parse, json_util_destroy}
use mindconnect_lib.Json.Read.{json_util_get_object_item, json_util_get_string}
use mindconnect_lib.Security.Handler.{SecurityHandler}
use mindconnect_lib.Security.Jwt.{SecurityProfile, shared_secret, rsa_3072, Platform}
use mindconnect_lib.CoreProcessor.Environment.{
  Environment, CoreProcessor, profile_of, callbacks_are_used, on_world, change_handler,
}

-- The strings of an answer. That to a registration with RSA has no secret.
pub record Credentials : Type 0 where
  pub client_id : CString
  pub client_secret : CString
  pub registration_access_token : CString
  pub registration_uri : CString

abbrev pub is_onboard_request : SecurityHandler → Bool
is_onboard_request h = elim (SecurityHandler.registration_access_token h) [
  | none ↦ true
  | some token ↦ false
]

-- For onboarding, 201 should have been received instead of 200.
unfoldable pub registration_status : Bool → Result (Unit {0}) → Result (Unit {0})
registration_status true (ok _) = err unexpected_result_code
registration_status true (err created) = ok tt
registration_status true (err code) = err code
registration_status false server_response = server_response

module _ {World Double Int : Type 0} (platform : Platform World Double Int) where
  abbrev json_item : JsonNode → List ℕ → Action World JsonNode
  json_item root name w = (json_util_get_object_item (Platform.cjson platform) root name w, w)

  abbrev json_string : JsonNode → Action World CString
  json_string = json_util_get_string (Platform.cjson platform) (Platform.memory platform)

  unfoldable pub read_shared_secret : JsonNode → Action World Credentials
  read_shared_secret json_root = do
    client_id ← json_item json_root (literal "client_id")
    client_secret ← json_item json_root (literal "client_secret")
    registration_access_token ← json_item json_root (literal "registration_access_token")
    registration_client_uri ← json_item json_root (literal "registration_client_uri")
    temp_client_id ← json_string client_id
    temp_client_secret ← json_string client_secret
    temp_registration_access_token ← json_string registration_access_token
    temp_registration_uri ← json_string registration_client_uri
    pure (record {
      client_id = temp_client_id;
      client_secret = temp_client_secret;
      registration_access_token = temp_registration_access_token;
      registration_uri = temp_registration_uri;
    })

  unfoldable pub read_rsa_3072 : JsonNode → Action World Credentials
  read_rsa_3072 json_root = do
    client_id ← json_item json_root (literal "client_id")
    registration_access_token ← json_item json_root (literal "registration_access_token")
    registration_client_uri ← json_item json_root (literal "registration_client_uri")
    temp_client_id ← json_string client_id
    temp_registration_access_token ← json_string registration_access_token
    temp_registration_uri ← json_string registration_client_uri
    pure (record {
      client_id = temp_client_id;
      client_secret = none;
      registration_access_token = temp_registration_access_token;
      registration_uri = temp_registration_uri;
    })

  unfoldable pub read_credentials : SecurityProfile → JsonNode → Action World Credentials
  read_credentials shared_secret = read_shared_secret
  read_credentials rsa_3072 = read_rsa_3072

  unfoldable pub parse_credentials : SecurityProfile → HttpResponse → Action World Credentials
  parse_credentials profile http_response = do
    json_root ←
        json_util_parse (Platform.cjson platform) (HttpResponse.payload http_response)
          (HttpResponse.payload_size http_response)
    finally (read_credentials profile json_root)
        (json_util_destroy (Platform.cjson platform) (some json_root))

-- The members that are replaced, all of them or none.
unfoldable pub replace_credentials :
    SecurityProfile → Credentials → SecurityHandler → SecurityHandler
replace_credentials shared_secret new h = record h {
  client_id = Credentials.client_id new;
  client_secret = Credentials.client_secret new;
  registration_access_token = Credentials.registration_access_token new;
  registration_uri = Credentials.registration_uri new;
}
replace_credentials rsa_3072 new h = record h {
  client_id = Credentials.client_id new;
  registration_access_token = Credentials.registration_access_token new;
  registration_uri = Credentials.registration_uri new;
}

module _ {World Double Int : Type 0} (environment : Environment World Double Int) where
  unfoldable pub process_credentials : HttpResponse → Action (CoreProcessor World) (Unit {0})
  process_credentials http_response = do
    profile ← gets profile_of
    new ← on_world (parse_credentials (Environment.platform environment) profile http_response)
    modify (change_handler (replace_credentials profile new))

  unfoldable pub save_by_profile : SecurityProfile → SecurityHandler → Action World (Unit {0})
  save_by_profile shared_secret h =
      Environment.save_shared_secret environment (SecurityHandler.client_id h)
        (SecurityHandler.client_secret h) (SecurityHandler.registration_access_token h)
        (SecurityHandler.registration_uri h)
  save_by_profile rsa_3072 h =
      Environment.save_rsa environment (SecurityHandler.client_id h) (SecurityHandler.public_key h)
        (SecurityHandler.private_key h) (SecurityHandler.registration_access_token h)
        (SecurityHandler.registration_uri h)

  unfoldable pub save_credentials : Action (CoreProcessor World) (Unit {0})
  save_credentials c =
      if callbacks_are_used c
      then on_world (save_by_profile (profile_of c) (CoreProcessor.security_handler c)) c
      else (ok tt, c)

  unfoldable pub process_registration_response :
      HttpResponse → Action (CoreProcessor World) (Unit {0})
  process_registration_response http_response = do
    h ← gets CoreProcessor.security_handler
    from_result (
        registration_status (is_onboard_request h)
          (mcl_http_response_get_status (some http_response)))
    process_credentials http_response
    save_credentials
