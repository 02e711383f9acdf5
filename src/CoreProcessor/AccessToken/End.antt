-- ===== src/CoreProcessor/AccessToken/End.antt =====
-- What an access token request of mcl_core/src/core_processor.c leaves behind, on every path.
use mindconnect_lib.Base.{◌≡◌, ◌⊎◌, inl, inr, refl, ◌∙◌, none, some, ℕ, List}
use mindconnect_lib.Base.Code.{Result, ok, err}
use mindconnect_lib.Base.Action.{Action, continue, modify}
use mindconnect_lib.StringUtil.{CString}
use mindconnect_lib.Json.Library.{JsonNode}
use mindconnect_lib.Http.Response.{HttpResponse, mcl_http_response_get_status}
use mindconnect_lib.Security.Handler.{SecurityHandler}
use mindconnect_lib.CoreProcessor.Environment.{
  Configuration, Environment, CoreProcessor, on_world, change_handler,
}
use mindconnect_lib.CoreProcessor.Request.{access_token_request}
use mindconnect_lib.CoreProcessor.Keeps.{
  Keeps, Keeps-bind, Keeps-gets, Keeps-from_result, Keeps-on_world,
}
use mindconnect_lib.CoreProcessor.AccessToken.{
  send_access_token_request, compose_access_token_request_payload, note_server_time, noted_time,
  answered_document, take_access_token, core_processor_get_access_token, server_time,
  set_access_token, read_access_token, parse_answer,
}

-- What an access token has no part in.
pub record Registration : Type 0 where
  pub configuration : Configuration
  pub public_key : CString
  pub private_key : CString
  pub registration_access_token : CString
  pub registration_uri : CString
  pub client_secret : CString
  pub client_id : CString

abbrev pub registration_of : {World : Type 0} → CoreProcessor World → Registration
registration_of c =
    let h : SecurityHandler = CoreProcessor.security_handler c in
    record {
      configuration = CoreProcessor.configuration c;
      public_key = SecurityHandler.public_key h;
      private_key = SecurityHandler.private_key h;
      registration_access_token = SecurityHandler.registration_access_token h;
      registration_uri = SecurityHandler.registration_uri h;
      client_secret = SecurityHandler.client_secret h;
      client_id = SecurityHandler.client_id h;
    }

abbrev pub SameRegistration : {World : Type 0} → CoreProcessor World → CoreProcessor World → Type 0
SameRegistration before after = registration_of after ≡ registration_of before

abbrev pub access_token_of : {World : Type 0} → CoreProcessor World → CString
access_token_of c = SecurityHandler.access_token (CoreProcessor.security_handler c)

module _ {World Double Int : Type 0} (environment : Environment World Double Int) where
  Keeps-outside :
      {Value : Type 0} (action : Action World Value) → Keeps registration_of (on_world action)
  Keeps-outside = Keeps-on_world registration_of (λ c w. refl)

  noted_time-SameRegistration :
      (result : Result (List ℕ)) (c : CoreProcessor World)
      → SameRegistration c (noted_time environment result c)
  noted_time-SameRegistration (ok time) c = refl
  noted_time-SameRegistration (err code) c = refl

  note_server_time-SameRegistration :
      (response : HttpResponse)
      → Keeps registration_of (modify (note_server_time environment response))
  unfolding note_server_time
  note_server_time-SameRegistration response = record {
    related = λ c.
        noted_time-SameRegistration (server_time environment response (CoreProcessor.world c)).0 _;
  }

  compose_payload-SameRegistration :
      Keeps registration_of (compose_access_token_request_payload environment)
  unfolding compose_access_token_request_payload
  compose_payload-SameRegistration = record { related = λ c. refl }

  send_access_token_request-SameRegistration :
      Keeps registration_of (send_access_token_request environment)
  unfolding send_access_token_request
  send_access_token_request-SameRegistration =
      Keeps-bind registration_of _ _ compose_payload-SameRegistration (λ payload.
        Keeps-bind registration_of _ _ (Keeps-gets registration_of CoreProcessor.configuration)
          (λ configuration.
            Keeps-bind registration_of _ _
              (Keeps-outside (
                access_token_request environment payload
                  (Configuration.token_endpoint configuration)))
              (λ request.
                Keeps-outside (Environment.mcl_http_client_send environment request payload))))

  answered_document-SameRegistration : Keeps registration_of (answered_document environment)
  unfolding answered_document
  answered_document-SameRegistration =
      Keeps-bind registration_of _ _ send_access_token_request-SameRegistration (λ response.
        Keeps-bind registration_of _ _ (note_server_time-SameRegistration response) (λ _.
          Keeps-bind registration_of _ _
            (Keeps-from_result registration_of (mcl_http_response_get_status (some response)))
            (λ _. Keeps-outside (parse_answer environment response))))

  take_access_token-SameRegistration :
      (root : JsonNode) → Keeps registration_of (take_access_token environment root)
  unfolding take_access_token
  take_access_token-SameRegistration root =
      Keeps-bind registration_of _ _ (Keeps-outside (read_access_token environment root))
        (λ token. record { related = λ c. refl })

  -- A reading that fails leaves the token that is `MCL_NULL`.
  taken-none :
      (result : Result CString) (c : CoreProcessor World)
      → access_token_of c ≡ none
      → let end : Result (Unit {0}) × CoreProcessor World =
          continue result c (λ token. modify (change_handler (set_access_token token))) in
        (end.0 ≡ ok tt) ⊎ (access_token_of end.1 ≡ none)
  taken-none (ok token) c h = inl refl
  taken-none (err code) c h = inr h

  taken_end :
      (result : Result JsonNode) (c : CoreProcessor World)
      → access_token_of c ≡ none
      → let end : Result (Unit {0}) × CoreProcessor World =
          continue result c (take_access_token environment) in
        ((end.0 ≡ ok tt) ⊎ (access_token_of end.1 ≡ none)) × SameRegistration c end.1
  unfolding take_access_token
  taken_end (ok root) c h = (
    taken-none (read_access_token environment root (CoreProcessor.world c)).0 _ h,
    (take_access_token-SameRegistration root).related c,
  )
  taken_end (err code) c h = (inr h, refl)

  -- An access token request leaves the configuration, the keys and the registration of the agent as they
  -- are, whatever the network and the libraries answer, and where it fails the agent has no access token any
  -- more, also none from before.
  pub core_processor_get_access_token-SameRegistration :
      (c : CoreProcessor World)
      → let end : Result (Unit {0}) × CoreProcessor World =
          core_processor_get_access_token environment c in
        ((end.0 ≡ ok tt) ⊎ (access_token_of end.1 ≡ none)) × SameRegistration c end.1
  unfolding core_processor_get_access_token
  core_processor_get_access_token-SameRegistration c =
      let answer : Result JsonNode × CoreProcessor World = answered_document environment c in
      let end = taken_end answer.0 (change_handler (set_access_token none) answer.1) refl in
      (end.0, end.1 ∙ answered_document-SameRegistration.related c)
