-- ===== src/CoreProcessor/Payload.antt =====
-- The bodies that mcl_core/src/core_processor.c composes for a registration: for onboarding and for
-- the rotation of a key, with a shared secret and with RSA.
pub mod Whole
use mindconnect_lib.Base.{ℕ, ◌+◌, none, some, List, ◌++◌}
use mindconnect_lib.Base.Bits.{u32}
use mindconnect_lib.Base.Text.{literal}
use mindconnect_lib.Base.Action.{
  Action, malloc, pure, modify, finally, from_result, gets, ◌>>=◌, ◌>>◌,
}
use mindconnect_lib.StringUtil.{CString, string_util_strlen, print_formatted_string}
use mindconnect_lib.Json.Library.{
  JsonNode, json_object, json_util_initialize, json_util_to_string, json_util_destroy,
}
use mindconnect_lib.Json.Build.{
  json_util_start_object, json_util_start_array, json_util_add_string, json_util_add_item_to_array,
}
use mindconnect_lib.Security.Crypto.{Crypto}
use mindconnect_lib.Security.Handler.{SecurityHandler, text_of}
use mindconnect_lib.Security.Jwt.{SecurityProfile, shared_secret, rsa_3072, Platform}
use mindconnect_lib.Security.Random.{printed_text, random_generate_guid}
use mindconnect_lib.CoreProcessor.Environment.{CoreProcessor, on_world, change_handler}

-- What `_client_id_format`, of 16 characters beside its "%s", makes of a client id.
abbrev pub client_id_text : List ℕ → List ℕ
client_id_text client_id = literal "{\"client_id\":\"" ++ (client_id ++ literal "\"}")

module _ {World Double Int : Type 0} (platform : Platform World Double Int) where
  unfoldable pub add_key_to_keys_array : JsonNode → Action World JsonNode
  add_key_to_keys_array root = do
    json_object' ← json_util_initialize (Platform.cjson platform) json_object
    modify (json_util_add_item_to_array (Platform.cjson platform) root json_object')
    pure json_object'

  abbrev add_member : JsonNode → List ℕ → CString → Action World (Unit {0})
  add_member root name value = json_util_add_string (Platform.cjson platform) root (some name) value

  unfoldable pub add_jwks : JsonNode → SecurityHandler → Action World (Unit {0})
  add_jwks root security_handler = do
    (modulus, public_exponent) ←
        Crypto.security_rsa_get_modulus_and_exponent (Platform.crypto platform)
          (SecurityHandler.public_key security_handler)
    jwks ← json_util_start_object (Platform.cjson platform) root (literal "jwks")
    keys ← json_util_start_array (Platform.cjson platform) jwks (literal "keys")
    key ← add_key_to_keys_array keys
    add_member key (literal "e") (some public_exponent)
    add_member key (literal "n") (some modulus)
    add_member key (literal "kty") (some (literal "RSA"))
    kid ← random_generate_guid (Platform.crypto platform) (Platform.memory platform)
    add_member key (literal "kid") (some kid)

  unfoldable pub compose_rsa_onboarding_json : SecurityHandler → Action World (List ℕ)
  compose_rsa_onboarding_json security_handler = do
    root ← json_util_initialize (Platform.cjson platform) json_object
    finally (add_jwks root security_handler >> json_util_to_string (Platform.cjson platform) root)
        (json_util_destroy (Platform.cjson platform) (some root))

  -- The part of `_compose_rsa_key_rotation_json` behind the new keys.
  unfoldable pub compose_rotation_json : SecurityHandler → Action World (List ℕ)
  compose_rotation_json security_handler = do
    root ← json_util_initialize (Platform.cjson platform) json_object
    finally
        (add_member root (literal "client_id") (SecurityHandler.client_id security_handler)
          >> (add_jwks root security_handler >> json_util_to_string (Platform.cjson platform) root))
        (json_util_destroy (Platform.cjson platform) (some root))

  abbrev pub free_keys : SecurityHandler → SecurityHandler
  free_keys h = record h { public_key = none; private_key = none }

  abbrev set_keys : List ℕ × List ℕ → SecurityHandler → SecurityHandler
  set_keys (public_key, private_key) h = record h {
    public_key = some public_key;
    private_key = some private_key;
  }

  unfoldable pub security_handler_generate_rsa_key : Action (CoreProcessor World) (Unit {0})
  security_handler_generate_rsa_key = do
    keys ← on_world (Crypto.security_generate_rsa_key (Platform.crypto platform))
    modify (change_handler (set_keys keys))

  -- The old keys are freed before there are new ones.
  unfoldable pub compose_rsa_key_rotation_json : Action (CoreProcessor World) (List ℕ)
  compose_rsa_key_rotation_json = do
    modify (change_handler free_keys)
    security_handler_generate_rsa_key
    security_handler ← gets CoreProcessor.security_handler
    on_world (compose_rotation_json security_handler)

  unfoldable pub onboarding_payload :
      SecurityProfile → SecurityHandler → Action (CoreProcessor World) (List ℕ)
  onboarding_payload shared_secret security_handler = on_world (do
    malloc (Platform.memory platform)
    from_result (printed_text (print_formatted_string 3 (literal "{}"))))
  onboarding_payload rsa_3072 security_handler =
      on_world (compose_rsa_onboarding_json security_handler)

  unfoldable pub rotation_payload :
      SecurityProfile → SecurityHandler → Action (CoreProcessor World) (List ℕ)
  rotation_payload shared_secret security_handler = on_world (do
    let client_id = text_of (SecurityHandler.client_id security_handler)
    malloc (Platform.memory platform)
    from_result (
        printed_text (
          print_formatted_string (u32 (16 + string_util_strlen client_id + 1))
            (client_id_text client_id))))
  rotation_payload rsa_3072 security_handler = compose_rsa_key_rotation_json
