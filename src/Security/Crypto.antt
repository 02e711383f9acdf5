-- ===== src/Security/Crypto.antt =====
-- The functions that mcl_core/src/security/security.h declares, as what they answer on the state
-- `World`: SHA-256, random bytes and RSA.
use mindconnect_lib.Base.{ℕ, List}
use mindconnect_lib.Base.Action.{Action}
use mindconnect_lib.StringUtil.{CString}

pub record Crypto (World : Type 0) : Type 0 where
  pub security_hash_sha256 : List ℕ → Action World (List ℕ)
  pub security_generate_random_bytes : ℕ → Action World (List ℕ)
  pub security_generate_rsa_key : Action World (List ℕ × List ℕ)
  pub security_rsa_sign : CString → List ℕ → Action World (List ℕ)
  pub security_rsa_get_modulus_and_exponent : CString → Action World (List ℕ × List ℕ)
