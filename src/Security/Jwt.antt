-- ===== src/Security/Jwt.antt =====
-- mcl_core/src/jwt.c: the token with which an agent asks for an access token.
use mindconnect_lib.Base.{ℕ, ◌+◌, Option, none, some, List, ◌∷◌, ◌++◌}
use mindconnect_lib.Base.Text.{literal}
use mindconnect_lib.Base.Code.{Result, ok, err, fail}
use mindconnect_lib.Base.Action.{Action, Memory, malloc, pure, on_failure, ◌>>=◌, ◌>>◌}
use mindconnect_lib.StringUtil.{CString}
use mindconnect_lib.Json.Library.{
  JsonNode, json_object, CJson, json_util_initialize, json_util_destroy,
}
use mindconnect_lib.Json.Build.{json_util_start_array, json_util_add_string, json_util_add_double}
use mindconnect_lib.Json.Checked.{mcl_json_util_to_string}
use mindconnect_lib.Security.Crypto.{Crypto}
use mindconnect_lib.Security.Handler.{
  SecurityHandler, security_handler_generate_jti, security_handler_hmac_sha256,
  security_handler_base64_url_encode, security_handler_rsa_sign,
}

-- `E_MCL_SECURITY_PROFILE`.
pub data SecurityProfile : Type 0 where
  shared_secret rsa_3072 : SecurityProfile

-- `JWT_EXPIRATION_TIME` of definitions.h, in seconds.
abbrev pub jwt_expiration_time : ℕ
jwt_expiration_time = 86400

-- Everything outside that the module uses. `now` is `time_util_get_time`, and `to_double` the
-- conversion of the C language.
pub record Platform (World Double Int : Type 0) : Type 0 where
  pub cjson : CJson World Double Int
  pub memory : Memory World
  pub crypto : Crypto World
  pub now : World → ℕ × World
  pub to_double : ℕ → Double

pub record Jwt : Type 0 where
  pub header : Option JsonNode
  pub payload : Option JsonNode
  pub security_handler : SecurityHandler
  pub security_profile : SecurityProfile
  pub issued_at : ℕ

abbrev pub algorithm : SecurityProfile → List ℕ
algorithm shared_secret = literal "HS256"
algorithm rsa_3072 = literal "RS256"

-- Each failing call ends a function of the module with `MCL_FAIL`, whatever its code was.
abbrev pub as_fail : {World Value : Type 0} → Result Value × World → Result Value × World
as_fail (ok value, w) = (ok value, w)
as_fail (err code, w) = (err fail, w)

abbrev pub or_fail : {World Value : Type 0} → Action World Value → Action World Value
or_fail action w = as_fail (action w)

module _ {World Double Int : Type 0} (platform : Platform World Double Int) where
  abbrev add_member : JsonNode → List ℕ → CString → Action World (Unit {0})
  add_member root name value = json_util_add_string (Platform.cjson platform) root (some name) value

  abbrev add_time : JsonNode → List ℕ → ℕ → Action World (Unit {0})
  add_time root name time =
      json_util_add_double (Platform.cjson platform) root (some name)
        (Platform.to_double platform time)

  unfoldable pub create_self_issued_jwt_header : SecurityProfile → Action World JsonNode
  create_self_issued_jwt_header security_profile = do
    header ← json_util_initialize (Platform.cjson platform) json_object
    on_failure
        (add_member header (literal "typ") (some (literal "JWT"))
          >> add_member header (literal "alg") (some (algorithm security_profile)))
        (json_util_destroy (Platform.cjson platform) (some header))
    pure header

  unfoldable pub add_schema_to_jwt : JsonNode → Action World (Unit {0})
  add_schema_to_jwt payload = do
    schemas_array ← json_util_start_array (Platform.cjson platform) payload (literal "schemas")
    json_util_add_string (Platform.cjson platform) schemas_array none
        (some (literal "urn:siemens:mindsphere:v1"))

  unfoldable pub fill_payload :
      SecurityHandler → CString → List ℕ → ℕ → JsonNode → Action World (Unit {0})
  fill_payload security_handler tenant jti current_time payload = do
    add_member payload (literal "iss") (SecurityHandler.client_id security_handler)
    add_member payload (literal "sub") (SecurityHandler.client_id security_handler)
    add_member payload (literal "aud") (some (literal "southgate"))
    add_time payload (literal "iat") current_time
    add_time payload (literal "nbf") current_time
    add_time payload (literal "exp") (current_time + jwt_expiration_time)
    add_schema_to_jwt payload
    add_member payload (literal "ten") tenant
    add_member payload (literal "jti") (some jti)

  abbrev current : Action World ℕ
  current w = let answer = Platform.now platform w in (ok answer.0, answer.1)

  -- The payload and the time at which it is issued.
  unfoldable pub create_self_issued_jwt_payload :
      SecurityHandler → CString → Action World (JsonNode × ℕ)
  create_self_issued_jwt_payload security_handler tenant = do
    jti ← security_handler_generate_jti (Platform.crypto platform) (Platform.memory platform)
    payload ← json_util_initialize (Platform.cjson platform) json_object
    current_time ← current
    on_failure (fill_payload security_handler tenant jti current_time payload)
        (json_util_destroy (Platform.cjson platform) (some payload))
    pure (payload, current_time)

  unfoldable pub jwt_destroy : Jwt → World → World
  jwt_destroy jwt w =
      json_util_destroy (Platform.cjson platform) (Jwt.payload jwt)
        (json_util_destroy (Platform.cjson platform) (Jwt.header jwt) w)

  unfoldable pub jwt_initialize : SecurityHandler → SecurityProfile → CString → Action World Jwt
  jwt_initialize security_handler security_profile tenant = do
    malloc (Platform.memory platform)
    header ← create_self_issued_jwt_header security_profile
    (payload, issued_at) ←
        on_failure (create_self_issued_jwt_payload security_handler tenant)
          (json_util_destroy (Platform.cjson platform) (some header))
    pure (record {
      header = some header;
      payload = some payload;
      security_handler = security_handler;
      security_profile = security_profile;
      issued_at = issued_at;
    })

  unfoldable pub join_with_dot : List ℕ → List ℕ → Action World (List ℕ)
  join_with_dot string_a string_b = do
    malloc (Platform.memory platform)
    pure (string_a ++ (b'.' ∷ string_b))

  unfoldable pub encode_url : List ℕ → Action World (List ℕ)
  encode_url =
      security_handler_base64_url_encode (Platform.crypto platform) (Platform.memory platform)

  unfoldable pub get_header_and_payload_encoded_base64_url :
      List ℕ → List ℕ → Action World (List ℕ × List ℕ)
  get_header_and_payload_encoded_base64_url header payload = do
    header_encoded ← or_fail (encode_url header)
    payload_encoded ← or_fail (encode_url payload)
    pure (header_encoded, payload_encoded)

  unfoldable pub sign_by_profile :
      SecurityProfile → SecurityHandler → List ℕ → Action World (List ℕ)
  sign_by_profile shared_secret security_handler header_and_payload =
      security_handler_hmac_sha256 (Platform.crypto platform) (Platform.memory platform)
        security_handler header_and_payload
  sign_by_profile rsa_3072 security_handler header_and_payload =
      security_handler_rsa_sign (Platform.crypto platform) (Platform.memory platform)
        (SecurityHandler.private_key security_handler) header_and_payload

  unfoldable pub calculate_signature : Jwt → List ℕ → Action World (List ℕ)
  calculate_signature jwt header_and_payload = do
    hash ←
        or_fail
          (sign_by_profile (Jwt.security_profile jwt) (Jwt.security_handler jwt) header_and_payload)
    or_fail (encode_url hash)

  unfoldable pub generate_token : Jwt → List ℕ → List ℕ → Action World (List ℕ)
  generate_token jwt header payload = do
    (header_encoded, payload_encoded) ← get_header_and_payload_encoded_base64_url header payload
    header_and_payload ← or_fail (join_with_dot header_encoded payload_encoded)
    signature ← or_fail (calculate_signature jwt header_and_payload)
    or_fail (join_with_dot header_and_payload signature)

  -- `MCL_NULL`, here `MCL_FAIL`, where there is no token.
  unfoldable pub jwt_get_token : Jwt → Action World (List ℕ)
  jwt_get_token jwt = or_fail (do
    header_json ← mcl_json_util_to_string (Platform.cjson platform) (Jwt.header jwt)
    payload_json ← mcl_json_util_to_string (Platform.cjson platform) (Jwt.payload jwt)
    generate_token jwt header_json payload_json)
