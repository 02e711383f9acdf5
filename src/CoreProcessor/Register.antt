-- ===== src/CoreProcessor/Register.antt =====
-- `core_processor_register` of mcl_core/src/core_processor.c.
pub mod Identity
pub mod End
use mindconnect_lib.Base.{ℕ, Bool, true, false, List}
use mindconnect_lib.Base.Action.{Action, gets, ◌>>=◌}
use mindconnect_lib.StringUtil.{CString}
use mindconnect_lib.Security.Handler.{SecurityHandler, text_of}
use mindconnect_lib.CoreProcessor.Environment.{
  Configuration, Environment, CoreProcessor, profile_of, on_world,
}
use mindconnect_lib.CoreProcessor.Request.{http_post, http_put, registration_request}
use mindconnect_lib.CoreProcessor.Payload.{onboarding_payload, rotation_payload}
use mindconnect_lib.CoreProcessor.Response.{is_onboard_request, process_registration_response}

-- The token, the method and the address of the request.
pub record Target : Type 0 where
  pub token_for_auth : List ℕ
  pub http_method : ℕ
  pub registration_uri : CString

unfoldable pub registration_target : Bool → Configuration → SecurityHandler → Target
registration_target true configuration h = record {
  token_for_auth = text_of (Configuration.initial_access_token configuration);
  http_method = http_post;
  registration_uri = Configuration.register_endpoint configuration;
}
registration_target false configuration h = record {
  token_for_auth = text_of (SecurityHandler.registration_access_token h);
  http_method = http_put;
  registration_uri = SecurityHandler.registration_uri h;
}

module _ {World Double Int : Type 0} (environment : Environment World Double Int) where
  unfoldable pub registration_payload : Bool → Action (CoreProcessor World) (List ℕ)
  registration_payload true c =
      onboarding_payload (Environment.platform environment) (profile_of c)
        (CoreProcessor.security_handler c) c
  registration_payload false c =
      rotation_payload (Environment.platform environment) (profile_of c)
        (CoreProcessor.security_handler c) c

  unfoldable pub send_registration : List ℕ → Target → Action (CoreProcessor World) (Unit {0})
  send_registration payload to = do
    http_request ← on_world (
        registration_request environment payload (Target.token_for_auth to) (Target.http_method to)
          (Target.registration_uri to))
    http_response ← on_world (Environment.mcl_http_client_send environment http_request payload)
    process_registration_response environment http_response

  unfoldable pub core_processor_register : Action (CoreProcessor World) (Unit {0})
  core_processor_register = do
    onboarding ← gets (λ c. is_onboard_request (CoreProcessor.security_handler c))
    payload ← registration_payload onboarding
    to ← gets (λ c.
        registration_target onboarding (CoreProcessor.configuration c)
          (CoreProcessor.security_handler c))
    send_registration payload to
