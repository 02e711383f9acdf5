-- ===== src/CoreProcessor/Update.antt =====
-- `core_processor_update_credentials` of mcl_core/src/core_processor.c: credentials that the program
-- has replaced behind the agent's back.
pub mod Strings
pub mod Outcome
use mindconnect_lib.Base.{ℕ, ◌==◌, Bool, true, false, none, List, length, if◌then◌else◌}
use mindconnect_lib.Base.Code
use mindconnect_lib.Base.Code.{Result, ok, err, fail, credentials_up_to_date}
use mindconnect_lib.Base.Action.{Action, assert, modify, from_result, gets, ◌>>=◌, ◌>>◌}
use mindconnect_lib.StringUtil.{string_util_strlen, string_util_strncmp}
use mindconnect_lib.Security.Handler.{SecurityHandler, text_of}
use mindconnect_lib.Security.Jwt.{SecurityProfile, shared_secret, rsa_3072}
use mindconnect_lib.CoreProcessor.Environment.{
  Configuration, Loaded, Environment, CoreProcessor, profile_of, callbacks_are_used, after_world,
  change_handler,
}

-- The length first, then the characters.
unfoldable pub compare_strings : List ℕ → List ℕ → Result (Unit {0})
compare_strings loaded current =
    let length' = string_util_strlen current in
    if string_util_strlen loaded == length'
    then string_util_strncmp loaded current length'
    else err fail

unfoldable pub check_client_secret : SecurityHandler → Loaded → Result (Unit {0})
check_client_secret h loaded =
    Code.◌>>◌
      (compare_strings (text_of (Loaded.client_secret loaded))
        (text_of (SecurityHandler.client_secret h)))
      (compare_strings (text_of (Loaded.registration_access_token loaded))
        (text_of (SecurityHandler.registration_access_token h)))

unfoldable pub check_rsa_private_key : SecurityHandler → Loaded → Result (Unit {0})
check_rsa_private_key h loaded =
    compare_strings (text_of (Loaded.private_key loaded)) (text_of (SecurityHandler.private_key h))

unfoldable pub check_secrets : SecurityProfile → SecurityHandler → Loaded → Result (Unit {0})
check_secrets shared_secret = check_client_secret
check_secrets rsa_3072 = check_rsa_private_key

unfoldable pub check_client_id : SecurityHandler → Loaded → Result (Unit {0})
check_client_id h loaded =
    compare_strings (text_of (Loaded.client_id loaded)) (text_of (SecurityHandler.client_id h))

-- Secrets that do not differ are no update.
unfoldable pub up_to_date_if : Result (Unit {0}) → Result (Unit {0})
up_to_date_if (ok _) = err credentials_up_to_date
up_to_date_if (err code) = ok tt

-- The members that the callback of the profile has no pointer to are still `MCL_NULL`.
unfoldable pub received : SecurityProfile → Loaded → Loaded
received shared_secret loaded = record loaded { public_key = none; private_key = none }
received rsa_3072 loaded = record loaded { client_secret = none }

unfoldable pub replace_secrets : Loaded → SecurityHandler → SecurityHandler
replace_secrets loaded h = record h {
  registration_access_token = Loaded.registration_access_token loaded;
  client_secret = Loaded.client_secret loaded;
  public_key = Loaded.public_key loaded;
  private_key = Loaded.private_key loaded;
}

abbrev pub loaded_or :
    {World : Type 0} → SecurityProfile → Result (Unit {0}) × Loaded × World → Result Loaded × World
loaded_or profile (ok _, loaded, w) = (ok (received profile loaded), w)
loaded_or profile (err code, loaded, w) = (err code, w)

module _ {World Double Int : Type 0} (environment : Environment World Double Int) where
  unfoldable pub load_by_profile : SecurityProfile → World → Result (Unit {0}) × Loaded × World
  load_by_profile shared_secret = Environment.load_shared_secret environment
  load_by_profile rsa_3072 = Environment.load_rsa environment

  unfoldable pub load_credentials : Action (CoreProcessor World) Loaded
  load_credentials c =
      after_world c
        (loaded_or (profile_of c) (load_by_profile (profile_of c) (CoreProcessor.world c)))

  unfoldable pub core_processor_update_credentials : Action (CoreProcessor World) (Unit {0})
  core_processor_update_credentials = do
    used ← gets callbacks_are_used
    assert used fail
    loaded ← load_credentials
    profile ← gets profile_of
    h ← gets CoreProcessor.security_handler
    from_result (check_client_id h loaded)
    from_result (up_to_date_if (check_secrets profile h loaded))
    modify (change_handler (replace_secrets loaded))
