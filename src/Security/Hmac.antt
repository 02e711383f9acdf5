-- ===== src/Security/Hmac.antt =====
-- mcl_core/src/hmac.c: HMAC on SHA-256.
use Prim.Native.Nat.{bit_xor}
use mindconnect_lib.Base.{
  ℕ, zero, suc, ◌-◌, ◌==◌, List, [], ◌∷◌, ◌++◌, map, length, ltb, if◌then◌else◌,
}
use mindconnect_lib.Base.Code.{invalid_parameter, sha256_calculation_fail}
use mindconnect_lib.Base.Action.{Action, Memory, ◌>>=◌, ◌>>◌, pure, assert, malloc}
use mindconnect_lib.Security.Crypto.{Crypto}

abbrev pub hmac_maximum_key_size : ℕ
hmac_maximum_key_size = 64

abbrev pub hmac_sha256_size : ℕ
hmac_sha256_size = 32

abbrev pub hmac_ipad : ℕ
hmac_ipad = 0x36

abbrev pub hmac_opad : ℕ
hmac_opad = 0x5C

-- The loop over the rest of a buffer.
unfoldable pub fill_pad : ℕ → ℕ → List ℕ
fill_pad zero pad = []
fill_pad (suc left) pad = pad ∷ fill_pad left pad

-- The first `HMAC_MAXIMUM_KEY_SIZE` bytes of a buffer: the key's by `^`, then the pad alone.
unfoldable pub key_block : ℕ → List ℕ → List ℕ
key_block pad key_local =
    map (λ k. bit_xor k pad) key_local ++ fill_pad (hmac_maximum_key_size - length key_local) pad

module _ {World : Type 0} (crypto : Crypto World) (memory : Memory World) where
  -- A hash, and the check of its size.
  unfoldable pub checked_hash : List ℕ → Action World (List ℕ)
  checked_hash data' = do
    output ← Crypto.security_hash_sha256 crypto data'
    assert (hmac_sha256_size == length output) sha256_calculation_fail
    pure output

  -- A key that is too long is replaced by its hash.
  unfoldable pub local_key : List ℕ → Action World (List ℕ)
  local_key key = if ltb hmac_maximum_key_size (length key) then checked_hash key else pure key

  unfoldable pub hmac_sha256 : List ℕ → List ℕ → Action World (List ℕ)
  hmac_sha256 data' key = do
    assert (ltb 0 (length key)) invalid_parameter
    key_local ← local_key key
    malloc memory
    malloc memory
    sha_output ← checked_hash (key_block hmac_ipad key_local ++ data')
    checked_hash (key_block hmac_opad key_local ++ sha_output)
