-- ===== src/CoreProcessor/Register/End.antt =====
-- The two ends of a registration by mcl_core/src/core_processor.c: what the agent knows of itself is
-- as it was, or is what the answer of the server says.
use mindconnect_lib.Base.{
  ℕ, ◌≡◌, refl, sym, ap, ◌∙◌, Bool, true, false, if◌then◌else◌, none, some, List, arith,
}
use mindconnect_lib.Base.Code.{Error, Result, ok, err}
use mindconnect_lib.Base.Action.{Action, continue, modify}
use mindconnect_lib.Http.Request.{HttpRequest}
use mindconnect_lib.Http.Response.{HttpResponse, status_result, mcl_http_response_get_status}
use mindconnect_lib.Security.Jwt.{SecurityProfile}
use mindconnect_lib.CoreProcessor.Environment.{
  Configuration, Environment, CoreProcessor, profile_of, change_handler,
}
use mindconnect_lib.CoreProcessor.Response.{
  Credentials, is_onboard_request, registration_status, parse_credentials, replace_credentials,
  process_credentials, save_credentials, process_registration_response,
}
use mindconnect_lib.CoreProcessor.Request.{registration_request}
use mindconnect_lib.CoreProcessor.Register.Identity.{
  Identity, identity_of, registered, registration_payload-identity_of, save_credentials-identity_of,
  replace_credentials-registered,
}
use mindconnect_lib.CoreProcessor.Register.{
  Target, registration_payload, send_registration, core_processor_register,
}

-- 201 for an agent that is not onboarded yet, and 200 for one that is.
abbrev pub accepted_status : Bool → ℕ
accepted_status onboarding = if onboarding then 201 else 200

pub registration_status-accepted_status :
    (onboarding : Bool) (response : HttpResponse)
    → registration_status onboarding (mcl_http_response_get_status (some response)) ≡ ok tt
    → HttpResponse.status_code response ≡ accepted_status onboarding
unfolding registration_status mcl_http_response_get_status status_result
registration_status-accepted_status onboarding response h = ground arith

module _ {World Double Int : Type 0} (environment : Environment World Double Int) where
  -- The ends of a registration from `before`. In the second one the result is that of the callback to
  -- save.
  pub data RegistrationEnd (before : CoreProcessor World)
      (end : Result (Unit {0}) × CoreProcessor World) : Type 0 where
    refused :
        (code : Error)
        → end.0 ≡ err code
        → identity_of end.1 ≡ identity_of before
        → RegistrationEnd before end
    replaced :
        (request : HttpRequest) (body : List ℕ) (response : HttpResponse) (new : Credentials)
        (w v : World)
        → (registration_payload environment
            (is_onboard_request (CoreProcessor.security_handler before))
            before).0
          ≡ ok body
        → (Environment.mcl_http_client_send environment request body w).0 ≡ ok response
        → HttpResponse.status_code response
          ≡ accepted_status (is_onboard_request (CoreProcessor.security_handler before))
        → (parse_credentials (Environment.platform environment) (profile_of before) response v).0
          ≡ ok new
        → identity_of end.1 ≡ registered (profile_of before) new (identity_of before)
        → RegistrationEnd before end

  module _ (before : CoreProcessor World) where
    -- A step that fails ends the registration, with the identity as it was.
    step-RegistrationEnd :
        {Value : Type 0} (result : Result Value) (c : CoreProcessor World)
        (rest : Value → Action (CoreProcessor World) (Unit {0}))
        → identity_of c ≡ identity_of before
        → ((value : Value) → result ≡ ok value → RegistrationEnd before (rest value c))
        → RegistrationEnd before (continue result c rest)
    step-RegistrationEnd (ok value) c rest same next = next value refl
    step-RegistrationEnd (err code) c rest same next = refused code refl same

    module _ (request : HttpRequest) (body : List ℕ) (response : HttpResponse) (w : World)
        (composed : (registration_payload environment
            (is_onboard_request (CoreProcessor.security_handler before))
            before).0
          ≡ ok body)
        (sent : (Environment.mcl_http_client_send environment request body w).0 ≡ ok response) where
      -- From the strings of the answer on.
      parsed-RegistrationEnd :
          (profile : SecurityProfile) (result : Result Credentials) (c : CoreProcessor World)
          (v : World)
          → profile ≡ profile_of before
          → HttpResponse.status_code response
            ≡ accepted_status (is_onboard_request (CoreProcessor.security_handler before))
          → (parse_credentials (Environment.platform environment) profile response v).0 ≡ result
          → identity_of c ≡ identity_of before
          → let answer : Result (Unit {0}) × CoreProcessor World =
              continue result c
                (λ new. modify (change_handler (replace_credentials profile new))) in
            RegistrationEnd before (continue answer.0 answer.1 (λ _. save_credentials environment))
      parsed-RegistrationEnd profile (ok new) c v same_profile accepted parsed same =
          replaced request body response new w v composed sent accepted
            (ap (λ p. (parse_credentials (Environment.platform environment) p response v).0)
                (sym same_profile)
              ∙ parsed)
            (save_credentials-identity_of environment _
              ∙ (replace_credentials-registered environment profile new c
                  ∙ (ap (λ p. registered p new (identity_of c)) same_profile
                      ∙ ap (registered (profile_of before) new) same)))
      parsed-RegistrationEnd profile (err code) c v same_profile accepted parsed same =
          refused code refl same

      process-RegistrationEnd :
          (c : CoreProcessor World)
          → identity_of c ≡ identity_of before
          → RegistrationEnd before (process_registration_response environment response c)
      unfolding process_registration_response process_credentials
      process-RegistrationEnd c same =
          let onboarding : is_onboard_request (CoreProcessor.security_handler c)
              ≡ is_onboard_request (CoreProcessor.security_handler before) =
            ap
              (λ (i : Identity). elim (Identity.registration_access_token i) [
                | none ↦ true
                | some token ↦ false
              ])
              same in
          let profile : profile_of c ≡ profile_of before =
            ap (λ (i : Identity). Configuration.security_profile (Identity.configuration i)) same in
          step-RegistrationEnd _ c _ same (λ _ status.
            parsed-RegistrationEnd (profile_of c)
              (parse_credentials (Environment.platform environment) (profile_of c) response
                (CoreProcessor.world c)).0
              (record c {
                world =
                    (parse_credentials (Environment.platform environment) (profile_of c) response
                      (CoreProcessor.world c)).1;
              })
              (CoreProcessor.world c) profile
              (registration_status-accepted_status
                  (is_onboard_request (CoreProcessor.security_handler c)) response status
                ∙ ap accepted_status onboarding)
              refl same)

    sent-RegistrationEnd :
        (payload : List ℕ) (to : Target) (c : CoreProcessor World)
        → (registration_payload environment
            (is_onboard_request (CoreProcessor.security_handler before))
            before).0
          ≡ ok payload
        → identity_of c ≡ identity_of before
        → RegistrationEnd before (send_registration environment payload to c)
    unfolding send_registration
    sent-RegistrationEnd payload to c composed same =
        let ask : Action World HttpRequest =
          registration_request environment payload (Target.token_for_auth to)
            (Target.http_method to) (Target.registration_uri to) in
        let w : World = (ask (CoreProcessor.world c)).1 in
        step-RegistrationEnd (ask (CoreProcessor.world c)).0 (record c { world = w }) _ same
          (λ request _.
            let answer : Result HttpResponse × World =
              Environment.mcl_http_client_send environment request payload w in
            step-RegistrationEnd answer.0 (record c { world = answer.1 })
              (process_registration_response environment) same
              (λ response sent.
                process-RegistrationEnd request payload response w composed sent
                  (record c { world = answer.1 }) same))

    -- A registration that fails leaves the identity of the agent as it was, keys apart, if it has not come
    -- to the callback that saves the new one. Else the body of the request is the payload that was
    -- composed, the HTTP client answered it with the status 201 for onboarding or 200 for a rotation, the
    -- client id, the secret of a profile that has one, the registration token and its URI are those of the
    -- document of the answer, and configuration, access token and its time are as they were.
    pub core_processor_register-RegistrationEnd :
        RegistrationEnd before (core_processor_register environment before)
    unfolding core_processor_register
    core_processor_register-RegistrationEnd =
        let onboarding : Bool = is_onboard_request (CoreProcessor.security_handler before) in
        let composed : Result (List ℕ) × CoreProcessor World =
          registration_payload environment onboarding before in
        let same : identity_of composed.1 ≡ identity_of before =
          registration_payload-identity_of environment onboarding before in
        step-RegistrationEnd composed.0 composed.1 _ same
          (λ payload e. sent-RegistrationEnd payload _ composed.1 e same)
