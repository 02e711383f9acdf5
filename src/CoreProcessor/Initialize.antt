-- ===== src/CoreProcessor/Initialize.antt =====
-- `core_processor_initialize` of mcl_core/src/core_processor.c, and the processor that core.c has.
use mindconnect_lib.Base.{ℕ, none, some, List, if◌then◌else◌}
use mindconnect_lib.Base.Text.{literal}
use mindconnect_lib.Base.Code.{Result, ok, err, no_access_token_provided, credentials_not_loaded}
use mindconnect_lib.Base.Action.{Action, malloc, pure, modify, gets, raise, ◌>>=◌, ◌>>◌}
use mindconnect_lib.StringUtil.{CString, string_util_concatenate}
use mindconnect_lib.Core.{Processor}
use mindconnect_lib.Security.Handler.{SecurityHandler, security_handler_initialize, with_memory}
use mindconnect_lib.Security.Jwt.{SecurityProfile, shared_secret, rsa_3072, Platform}
use mindconnect_lib.CoreProcessor.Environment.{
  Configuration, Loaded, Environment, CoreProcessor, profile_of, callbacks_are_used, on_world,
  change_handler,
}
use mindconnect_lib.CoreProcessor.Payload.{security_handler_generate_rsa_key}
use mindconnect_lib.CoreProcessor.Register.{core_processor_register}
use mindconnect_lib.CoreProcessor.Update.{load_by_profile, core_processor_update_credentials}
use mindconnect_lib.CoreProcessor.AccessToken.{core_processor_get_access_token}

-- The members that the callback of the profile has a pointer to.
unfoldable pub store_loaded : SecurityProfile → Loaded → SecurityHandler → SecurityHandler
store_loaded shared_secret loaded h = record h {
  client_id = Loaded.client_id loaded;
  client_secret = Loaded.client_secret loaded;
  registration_access_token = Loaded.registration_access_token loaded;
  registration_uri = Loaded.registration_uri loaded;
}
store_loaded rsa_3072 loaded h = record h {
  client_id = Loaded.client_id loaded;
  public_key = Loaded.public_key loaded;
  private_key = Loaded.private_key loaded;
  registration_access_token = Loaded.registration_access_token loaded;
  registration_uri = Loaded.registration_uri loaded;
}

abbrev pub register_path : List ℕ
register_path = literal "/api/agentmanagement/v3/register"

abbrev pub token_path : List ℕ
token_path = literal "/api/agentmanagement/v3/oauth/token"

module _ {World Double Int : Type 0} (environment : Environment World Double Int) where
  abbrev platform_of : Platform World Double Int
  platform_of = Environment.platform environment

  -- The callback writes to the handler, also where it fails.
  unfoldable pub custom_load_register_info : Action (CoreProcessor World) (Unit {0})
  custom_load_register_info c =
      let answer = load_by_profile environment (profile_of c) (CoreProcessor.world c) in
      (
        answer.0,
        record (change_handler (store_loaded (profile_of c) answer.1) c) { world = answer.2 },
      )

  unfoldable pub initial_keys : SecurityProfile → Action (CoreProcessor World) (Unit {0})
  initial_keys shared_secret = pure tt
  initial_keys rsa_3072 = security_handler_generate_rsa_key platform_of

  unfoldable pub initial_credentials :
      CString → SecurityProfile → Action (CoreProcessor World) (Unit {0})
  initial_credentials none profile = raise no_access_token_provided
  initial_credentials (some token) profile = initial_keys profile

  unfoldable pub load_initial_credentials : Action (CoreProcessor World) (Unit {0})
  load_initial_credentials c =
      initial_credentials (Configuration.initial_access_token (CoreProcessor.configuration c))
        (profile_of c) c

  unfoldable pub or_initial :
      Result (Unit {0}) × CoreProcessor World → Result (Unit {0}) × CoreProcessor World
  or_initial (ok _, c) = (ok tt, c)
  or_initial (err credentials_not_loaded, c) = load_initial_credentials c
  or_initial (err code, c) = (err code, c)

  unfoldable pub load_any_credentials : Action (CoreProcessor World) (Unit {0})
  load_any_credentials c =
      if callbacks_are_used c
      then or_initial (custom_load_register_info c)
      else load_initial_credentials c

  abbrev concatenate : List ℕ → List ℕ → Action (CoreProcessor World) (List ℕ)
  concatenate string_1 string_2 = on_world (
      with_memory (Platform.memory platform_of)
        (λ allocated. string_util_concatenate allocated string_1 string_2))

  unfoldable pub populate_endpoints : Action (CoreProcessor World) (Unit {0})
  populate_endpoints = do
    configuration ← gets CoreProcessor.configuration
    register_endpoint ← concatenate (Configuration.mindsphere_hostname configuration) register_path
    modify (λ c. record c {
      configuration = record configuration { register_endpoint = some register_endpoint };
    })
    configuration ← gets CoreProcessor.configuration
    token_endpoint ← concatenate (Configuration.mindsphere_hostname configuration) token_path
    modify (λ c. record c {
      configuration = record configuration { token_endpoint = some token_endpoint };
    })

  -- The core processor is gone again where a step fails, and its HTTP client with it.
  unfoldable pub started_processor :
      Result (Unit {0}) × CoreProcessor World → Result (CoreProcessor World) × World
  started_processor (ok _, c) = (ok c, CoreProcessor.world c)
  started_processor (err code, c) =
      (err code, Environment.mcl_http_client_destroy environment (CoreProcessor.world c))

  abbrev new_processor : Configuration → SecurityHandler → World → CoreProcessor World
  new_processor configuration h w = record {
    configuration = configuration;
    security_handler = h;
    world = w;
  }

  abbrev with_handler :
      Configuration → Result SecurityHandler × World → Result (CoreProcessor World) × World
  with_handler configuration (err code, w) =
      (err code, Environment.mcl_http_client_destroy environment w)
  with_handler configuration (ok h, w) =
      started_processor
        ((load_any_credentials >> populate_endpoints) (new_processor configuration h w))

  unfoldable pub core_processor_initialize : Configuration → Action World (CoreProcessor World)
  core_processor_initialize configuration = do
    Environment.security_initialize environment
    malloc (Platform.memory platform_of)
    Environment.mcl_http_client_initialize environment
    (λ w.
        with_handler configuration (
          security_handler_initialize (Platform.crypto platform_of) (Platform.memory platform_of)
            w))

  -- The interface of core.c, filled with the functions of this module.
  unfoldable pub processor : Processor (CoreProcessor World)
  processor = record {
    register = core_processor_register environment;
    update_credentials = core_processor_update_credentials environment;
    get_access_token = core_processor_get_access_token environment;
    registration_access_token =
        λ c. SecurityHandler.registration_access_token (CoreProcessor.security_handler c);
    access_token = λ c. SecurityHandler.access_token (CoreProcessor.security_handler c);
    last_token_time = λ c. SecurityHandler.last_token_time (CoreProcessor.security_handler c);
  }
