-- ===== src/CoreProcessor/Register/Identity.antt =====
-- What a registration by mcl_core/src/core_processor.c may change of an agent, and the steps that
-- leave it alone.
use mindconnect_lib.Base.{◌≡◌, refl, Bool, true, false, Bool-cases, inl, inr}
use mindconnect_lib.Base.Action.{modify}
use mindconnect_lib.StringUtil.{CString}
use mindconnect_lib.Security.Handler.{SecurityHandler}
use mindconnect_lib.Security.Jwt.{SecurityProfile, shared_secret, rsa_3072, Platform}
use mindconnect_lib.CoreProcessor.Environment.{
  Configuration, Environment, CoreProcessor, profile_of, callbacks_are_used, change_handler,
}
use mindconnect_lib.CoreProcessor.Response.{Credentials, replace_credentials, save_credentials}
use mindconnect_lib.CoreProcessor.Payload.{
  free_keys, compose_rsa_key_rotation_json, onboarding_payload, rotation_payload,
  security_handler_generate_rsa_key, compose_rotation_json,
}
use mindconnect_lib.Security.Crypto.{Crypto}
use mindconnect_lib.CoreProcessor.Keeps.{Keeps, Keeps-bind, Keeps-gets, Keeps-on_world}
use mindconnect_lib.CoreProcessor.Register.{registration_payload}

-- What the agent knows of itself, apart from its keys, and its configuration.
pub record Identity : Type 0 where
  pub configuration : Configuration
  pub client_id : CString
  pub client_secret : CString
  pub registration_access_token : CString
  pub registration_uri : CString
  pub access_token : CString
  pub last_token_time : CString

abbrev pub identity_of : {World : Type 0} → CoreProcessor World → Identity
identity_of c =
    let h : SecurityHandler = CoreProcessor.security_handler c in
    record {
      configuration = CoreProcessor.configuration c;
      client_id = SecurityHandler.client_id h;
      client_secret = SecurityHandler.client_secret h;
      registration_access_token = SecurityHandler.registration_access_token h;
      registration_uri = SecurityHandler.registration_uri h;
      access_token = SecurityHandler.access_token h;
      last_token_time = SecurityHandler.last_token_time h;
    }

-- The strings of an answer in place of the old ones; with RSA there is no secret in it.
abbrev pub registered : SecurityProfile → Credentials → Identity → Identity
registered shared_secret new i = record i {
  client_id = Credentials.client_id new;
  client_secret = Credentials.client_secret new;
  registration_access_token = Credentials.registration_access_token new;
  registration_uri = Credentials.registration_uri new;
}
registered rsa_3072 new i = record i {
  client_id = Credentials.client_id new;
  registration_access_token = Credentials.registration_access_token new;
  registration_uri = Credentials.registration_uri new;
}

module _ {World Double Int : Type 0} (environment : Environment World Double Int) where
  keys-identity_of :
      Keeps identity_of (security_handler_generate_rsa_key (Environment.platform environment))
  unfolding security_handler_generate_rsa_key
  keys-identity_of =
      Keeps-bind identity_of _ _
        (Keeps-on_world identity_of (λ d w. refl)
          (Crypto.security_generate_rsa_key (Platform.crypto (Environment.platform environment))))
        (λ keys. record { related = λ d. refl })

  free_keys-identity_of :
      Keeps {World = World} identity_of
        (modify (change_handler (free_keys (Environment.platform environment))))
  free_keys-identity_of = record { related = λ d. refl }

  rotation_json-identity_of :
      Keeps identity_of (compose_rsa_key_rotation_json (Environment.platform environment))
  unfolding compose_rsa_key_rotation_json
  rotation_json-identity_of = Keeps-bind identity_of _ _ free_keys-identity_of (λ _.
      Keeps-bind identity_of _ _ keys-identity_of (λ _.
        Keeps-bind identity_of _ _ (Keeps-gets identity_of CoreProcessor.security_handler) (λ h.
          Keeps-on_world identity_of (λ d w. refl)
            (compose_rotation_json (Environment.platform environment) h))))

  onboarding_payload-identity_of :
      (profile : SecurityProfile) (c : CoreProcessor World)
      → identity_of
          (onboarding_payload
            (Environment.platform environment)
            profile
            (CoreProcessor.security_handler c)
            c).1
        ≡ identity_of c
  unfolding onboarding_payload
  onboarding_payload-identity_of shared_secret c = refl
  onboarding_payload-identity_of rsa_3072 c = refl

  rotation_payload-identity_of :
      (profile : SecurityProfile) (c : CoreProcessor World)
      → identity_of
          (rotation_payload
            (Environment.platform environment)
            profile
            (CoreProcessor.security_handler c)
            c).1
        ≡ identity_of c
  unfolding rotation_payload
  rotation_payload-identity_of shared_secret c = refl
  rotation_payload-identity_of rsa_3072 c = rotation_json-identity_of.related c

  pub registration_payload-identity_of :
      (onboarding : Bool) (c : CoreProcessor World)
      → identity_of (registration_payload environment onboarding c).1 ≡ identity_of c
  unfolding registration_payload
  registration_payload-identity_of true c = onboarding_payload-identity_of (profile_of c) c
  registration_payload-identity_of false c = rotation_payload-identity_of (profile_of c) c

  pub save_credentials-identity_of :
      (c : CoreProcessor World) → identity_of (save_credentials environment c).1 ≡ identity_of c
  unfolding save_credentials
  save_credentials-identity_of c = elim (Bool-cases (callbacks_are_used c)) [
    | inl e ↦ rw e refl
    | inr e ↦ rw e refl
  ]

  pub replace_credentials-registered :
      (profile : SecurityProfile) (new : Credentials) (c : CoreProcessor World)
      → identity_of (change_handler (replace_credentials profile new) c)
        ≡ registered profile new (identity_of c)
  unfolding replace_credentials
  replace_credentials-registered shared_secret new c = refl
  replace_credentials-registered rsa_3072 new c = refl
