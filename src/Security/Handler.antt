-- ===== src/Security/Handler.antt =====
-- mcl_core/src/security_handler.c and .h: what an agent knows of itself, and the functions on it that
-- jwt.c and core_processor.c call.
use mindconnect_lib.Base.{ℕ, Bool, none, some, List, []}
use mindconnect_lib.Base.Code.{Result}
use mindconnect_lib.Base.Action.{Action, Memory, malloc, pure, ◌>>◌}
use mindconnect_lib.StringUtil.{CString}
use mindconnect_lib.Base64.{base64_encode, base64_url_encode, base64_decode, Decoded}
use mindconnect_lib.Security.Crypto.{Crypto}
use mindconnect_lib.Security.Hmac.{hmac_sha256}
use mindconnect_lib.Security.Random.{random_generate_guid}

-- `rsa_t` is flattened; its two lengths are neither written nor read anywhere.
pub record SecurityHandler : Type 0 where
  pub public_key : CString
  pub private_key : CString
  pub registration_access_token : CString
  pub registration_uri : CString
  pub client_secret : CString
  pub access_token : CString
  pub last_token_time : CString
  pub client_id : CString

unfoldable pub new_handler : SecurityHandler
new_handler = record {
  public_key = none;
  private_key = none;
  registration_access_token = none;
  registration_uri = none;
  client_secret = none;
  access_token = none;
  last_token_time = none;
  client_id = none;
}

-- A string that the code reads without a null check. It is the empty one for `MCL_NULL`, which the
-- code must not be given there.
abbrev pub text_of : CString → List ℕ
text_of none = []
text_of (some text) = text

-- A function that only needs to know whether there is memory for its result.
abbrev pub with_memory :
    {World Value : Type 0} → Memory World → (Bool → Result Value) → Action World Value
with_memory memory operation w =
    let answer = Memory.allocate memory w in (operation answer.0, answer.1)

module _ {World : Type 0} (crypto : Crypto World) (memory : Memory World) where
  unfoldable pub security_handler_initialize : Action World SecurityHandler
  security_handler_initialize = do malloc memory; pure new_handler

  unfoldable pub security_handler_generate_jti : Action World (List ℕ)
  security_handler_generate_jti = random_generate_guid crypto memory

  security_handler_hash_sha256 : List ℕ → Action World (List ℕ)
  security_handler_hash_sha256 data' = Crypto.security_hash_sha256 crypto data'

  unfoldable pub security_handler_hmac_sha256 : SecurityHandler → List ℕ → Action World (List ℕ)
  security_handler_hmac_sha256 security_handler data' =
      hmac_sha256 crypto memory data' (text_of (SecurityHandler.client_secret security_handler))

  security_handler_base64_encode : List ℕ → Action World (List ℕ)
  security_handler_base64_encode data' =
      with_memory memory (λ allocated. base64_encode allocated data')

  security_handler_base64_decode : CString → Action World Decoded
  security_handler_base64_decode encoded_data =
      with_memory memory (λ allocated. base64_decode allocated encoded_data)

  unfoldable pub security_handler_base64_url_encode : List ℕ → Action World (List ℕ)
  security_handler_base64_url_encode data' =
      with_memory memory (λ allocated. base64_url_encode allocated data')

  unfoldable pub security_handler_rsa_sign : CString → List ℕ → Action World (List ℕ)
  security_handler_rsa_sign rsa_key data' = Crypto.security_rsa_sign crypto rsa_key data'
