-- ===== src/CoreProcessor/Environment.antt =====
-- The state and the surroundings of mcl_core/src/core_processor.c.
use mindconnect_lib.Base.{ℕ, Bool, ◌&&◌, List}
use mindconnect_lib.Base.Code.{Result}
use mindconnect_lib.Base.Action.{Action}
use mindconnect_lib.StringUtil.{CString}
use mindconnect_lib.Http.Request.{Address, HttpRequest}
use mindconnect_lib.Http.Response.{HttpResponse}
use mindconnect_lib.Security.Handler.{SecurityHandler}
use mindconnect_lib.Security.Jwt.{SecurityProfile, Platform}

-- The members of `core_configuration_t` that the module reads. The callbacks to load and to save are
-- unions, so that one test tells whether there is one, for either profile.
pub record Configuration : Type 0 where
  pub security_profile : SecurityProfile
  pub mindsphere_hostname : List ℕ
  pub initial_access_token : CString
  pub register_endpoint : CString
  pub token_endpoint : CString
  pub tenant : CString
  pub has_load : Bool
  pub has_save : Bool

-- What a callback to load credentials hands back. That of a shared secret has no keys, and that of
-- RSA no secret: those members are not read then.
pub record Loaded : Type 0 where
  pub client_id : CString
  pub client_secret : CString
  pub public_key : CString
  pub private_key : CString
  pub registration_access_token : CString
  pub registration_uri : CString

pub record Environment (World Double Int : Type 0) : Type 0 where
  pub platform : Platform World Double Int
  pub security_initialize : Action World (Unit {0})
  pub mcl_http_client_initialize : Action World (Unit {0})
  pub mcl_http_client_destroy : World → World
  -- The request, and the bytes at the address of its body.
  pub mcl_http_client_send : HttpRequest → List ℕ → Action World HttpResponse
  -- Where the body of a request lies.
  pub body_address : World → Address
  pub load_shared_secret : World → Result (Unit {0}) × Loaded × World
  pub load_rsa : World → Result (Unit {0}) × Loaded × World
  pub save_shared_secret : CString → CString → CString → CString → Action World (Unit {0})
  pub save_rsa : CString → CString → CString → CString → CString → Action World (Unit {0})

pub record CoreProcessor (World : Type 0) : Type 0 where
  pub configuration : Configuration
  pub security_handler : SecurityHandler
  pub world : World

module _ {World : Type 0} where
  abbrev pub profile_of : CoreProcessor World → SecurityProfile
  profile_of c = Configuration.security_profile (CoreProcessor.configuration c)

  abbrev pub callbacks_are_used : CoreProcessor World → Bool
  callbacks_are_used c =
      Configuration.has_load (CoreProcessor.configuration c)
      && Configuration.has_save (CoreProcessor.configuration c)

  -- Something that happens outside and leaves the agent's own state alone.
  abbrev pub after_world :
      {Value : Type 0}
      → CoreProcessor World
      → Result Value × World
      → Result Value × CoreProcessor World
  after_world c (result, w) = (result, record c { world = w })

  abbrev pub on_world : {Value : Type 0} → Action World Value → Action (CoreProcessor World) Value
  on_world action c = after_world c (action (CoreProcessor.world c))

  abbrev pub change_handler :
      (SecurityHandler → SecurityHandler) → CoreProcessor World → CoreProcessor World
  change_handler change c = record c {
    security_handler = change (CoreProcessor.security_handler c);
  }
