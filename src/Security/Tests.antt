-- ===== src/Security/Tests.antt =====
-- Runs of mcl_core/src/hmac.c, random.c and jwt.c, and their theorems at concrete inputs.
use mindconnect_lib.Base.{◌≡◌, refl, some, [], ◌∷◌, arith, List, ℕ}
use mindconnect_lib.Base.Text.{literal}
use mindconnect_lib.Base.Code.{ok, err, invalid_parameter}
use mindconnect_lib.Security.Hmac.{hmac_sha256}
use mindconnect_lib.Security.Reference.{reference_hmac, hmac_sha256-reference_hmac}
use mindconnect_lib.Security.Random.{
  time_hi_and_version, clk_seq_hi_res, guid_text, random_generate_guid,
}
use mindconnect_lib.Security.Guid.{IsVersion4, random_generate_guid-IsVersion4}
use mindconnect_lib.Security.Handler.{new_handler, security_handler_rsa_sign}
use mindconnect_lib.Security.Jwt.{Jwt, rsa_3072, sign_by_profile, generate_token}
use mindconnect_lib.Security.Token.{IsToken, generate_token-IsToken}
use mindconnect_lib.Security.Samples.{World, memory, crypto, platform, sample_hash, sample_bytes}

no_key : (hmac_sha256 crypto memory (1 ∷ []) [] tt).0 ≡ err invalid_parameter
unfolding hmac_sha256
no_key = refl

hmac_sha256-reference_hmac_example :
    (hmac_sha256 crypto memory (literal "text") (literal "key") tt).0
    ≡ ok (reference_hmac sample_hash (literal "text") (literal "key"))
hmac_sha256-reference_hmac_example =
    hmac_sha256-reference_hmac crypto memory sample_hash (λ data' w. refl) (λ data'. refl)
      (λ w. refl) (literal "text") (literal "key") tt (omega arith)

guid : guid_text sample_bytes ≡ literal "03020100-0504-4706-8809-0a0b0c0d0e0f"
unfolding guid_text time_hi_and_version clk_seq_hi_res
guid = refl

random_generate_guid-IsVersion4_example :
    ((random_generate_guid crypto memory tt).0 ≡ ok (guid_text sample_bytes))
    × IsVersion4 (guid_text sample_bytes)
random_generate_guid-IsVersion4_example =
    random_generate_guid-IsVersion4 crypto memory sample_bytes tt refl refl

abbrev jwt : Jwt
jwt = record {
  header = some 1;
  payload = some 2;
  security_handler = new_handler;
  security_profile = rsa_3072;
  issued_at = 1500000000;
}

abbrev signature : List ℕ → List ℕ
signature data' = 7 ∷ []

signs :
    (data' : List ℕ) (w : World)
    → (sign_by_profile platform rsa_3072 new_handler data' w).0 ≡ ok (signature data')
unfolding sign_by_profile security_handler_rsa_sign
signs data' w = refl

generate_token-IsToken_example :
    (token : List ℕ) × ((generate_token platform jwt (literal "{}") (literal "[]") tt).0 ≡ ok token)
    × IsToken signature (literal "{}") (literal "[]") token
generate_token-IsToken_example =
    generate_token-IsToken platform (λ w. refl) jwt signature signs (literal "{}") (literal "[]") tt
      (omega arith, (omega arith, (omega arith, tt)))
      (omega arith, (omega arith, (omega arith, tt))) (λ data'. (omega arith, (omega arith, tt)))
