-- ===== src/CoreProcessor/AccessToken.antt =====
-- `core_processor_get_access_token` of mcl_core/src/core_processor.c.
pub mod End
use mindconnect_lib.Base.{ℕ, Bool, true, none, some, List}
use mindconnect_lib.Base.Text.{literal}
use mindconnect_lib.Base.Code.{Result, ok, err}
use mindconnect_lib.Base.Action.{
  Action, pure, modify, continue, finally, from_result, gets, ◌>>=◌, ◌>>◌,
}
use mindconnect_lib.StringUtil.{CString, string_util_concatenate}
use mindconnect_lib.Http.Response.{
  HttpResponse, mcl_http_response_get_header, mcl_http_response_get_status,
}
use mindconnect_lib.Json.Library.{JsonNode, json_util_parse, json_util_destroy}
use mindconnect_lib.Json.Read.{json_util_get_object_item, json_util_get_string}
use mindconnect_lib.Security.Handler.{SecurityHandler, with_memory}
use mindconnect_lib.Security.Jwt.{Platform, jwt_initialize, jwt_get_token, jwt_destroy}
use mindconnect_lib.CoreProcessor.Environment.{
  Configuration, Environment, CoreProcessor, profile_of, on_world, change_handler,
}
use mindconnect_lib.CoreProcessor.Request.{access_token_request}

abbrev pub payload_head : List ℕ
payload_head =
    literal
      "grant_type=client_credentials&client_assertion_type=urn:ietf:params:oauth:client-assertion-type:jwt-bearer&client_assertion="

abbrev pub set_last_token_time : List ℕ → SecurityHandler → SecurityHandler
set_last_token_time time h = record h { last_token_time = some time }

abbrev pub set_access_token : CString → SecurityHandler → SecurityHandler
set_access_token token h = record h { access_token = token }

module _ {World Double Int : Type 0} (environment : Environment World Double Int) where
  abbrev platform_of : Platform World Double Int
  platform_of = Environment.platform environment

  unfoldable pub compose_payload : Configuration → SecurityHandler → Action World (List ℕ)
  compose_payload configuration h = do
    jwt ←
        jwt_initialize platform_of h (Configuration.security_profile configuration)
          (Configuration.tenant configuration)
    jwt_string ← finally (jwt_get_token platform_of jwt) (jwt_destroy platform_of jwt)
    with_memory (Platform.memory platform_of)
        (λ allocated. string_util_concatenate allocated payload_head jwt_string)

  unfoldable pub compose_access_token_request_payload : Action (CoreProcessor World) (List ℕ)
  compose_access_token_request_payload c =
      on_world (compose_payload (CoreProcessor.configuration c) (CoreProcessor.security_handler c))
        c

  unfoldable pub send_access_token_request : Action (CoreProcessor World) HttpResponse
  send_access_token_request = do
    request_payload ← compose_access_token_request_payload
    configuration ← gets CoreProcessor.configuration
    request ← on_world (
        access_token_request environment request_payload
          (Configuration.token_endpoint configuration))
    on_world (Environment.mcl_http_client_send environment request request_payload)

  -- Memory is asked for only where the header is there.
  unfoldable pub server_time : HttpResponse → Action World (List ℕ)
  server_time response w =
      elim (mcl_http_response_get_header true (some response) (some (literal "Server-Time"))) [
        | ok time ↦
            with_memory (Platform.memory platform_of)
              (λ allocated.
                mcl_http_response_get_header allocated (some response)
                  (some (literal "Server-Time")))
              w
        | err code ↦ (err code, w)
      ]

  -- The header is optional, so that its code is not looked at further.
  abbrev noted_time : Result (List ℕ) → CoreProcessor World → CoreProcessor World
  noted_time (ok time) c = change_handler (set_last_token_time time) c
  noted_time (err code) c = c

  unfoldable pub note_server_time : HttpResponse → CoreProcessor World → CoreProcessor World
  note_server_time response c =
      let answer = on_world (server_time response) c in noted_time answer.0 answer.1

  unfoldable pub parse_answer : HttpResponse → Action World JsonNode
  parse_answer response =
      json_util_parse (Platform.cjson platform_of) (HttpResponse.payload response)
        (HttpResponse.payload_size response)

  -- Everything up to the document of the answer.
  unfoldable pub answered_document : Action (CoreProcessor World) JsonNode
  answered_document = do
    response ← send_access_token_request
    modify (note_server_time response)
    from_result (mcl_http_response_get_status (some response))
    on_world (parse_answer response)

  unfoldable pub read_access_token : JsonNode → Action World CString
  read_access_token response_payload_json =
      finally
        (do
          access_token ← (λ w. (
            json_util_get_object_item (Platform.cjson platform_of) response_payload_json
                (literal "access_token") w,
            w,
          ))
          json_util_get_string (Platform.cjson platform_of) (Platform.memory platform_of)
              access_token)
        (json_util_destroy (Platform.cjson platform_of) (some response_payload_json))

  unfoldable pub take_access_token : JsonNode → Action (CoreProcessor World) (Unit {0})
  take_access_token response_payload_json = do
    token ← on_world (read_access_token response_payload_json)
    modify (change_handler (set_access_token token))

  -- The old token is freed on every path.
  unfoldable pub core_processor_get_access_token : Action (CoreProcessor World) (Unit {0})
  core_processor_get_access_token c =
      let answer = answered_document c in
      continue answer.0 (change_handler (set_access_token none) answer.1) take_access_token
