-- ===== src/Security/Reference.antt =====
-- HMAC as RFC 2104 defines it, and mcl_core/src/hmac.c against it.
use Prim.Native.Nat.{bit_xor}
use mindconnect_lib.Base.{
  ℕ, zero, suc, ◌-◌, ◌<◌, ◌≡◌, refl, ap, true, Bool-cases, inl, inr, List, [], ◌∷◌, ◌++◌, map,
  length, ltb, lt→ltb, if◌then◌else◌,
}
use mindconnect_lib.Base.Code.{ok}
use mindconnect_lib.Base.Action.{Memory}
use mindconnect_lib.Security.Crypto.{Crypto}
use mindconnect_lib.Security.Hmac.{fill_pad, key_block, checked_hash, local_key, hmac_sha256}

-- RFC 2104, section 2, with H = SHA-256 and B = 64: K is H of a key longer than B, filled with
-- zeros up to B bytes, and HMAC is H(K XOR opad, H(K XOR ipad, text)).
abbrev pub zero_filled : List ℕ → List ℕ
zero_filled key = key ++ fill_pad (64 - length key) 0

abbrev pub hashed_key : (List ℕ → List ℕ) → List ℕ → List ℕ
hashed_key hash key = if ltb 64 (length key) then hash key else key

abbrev pub exclusive_or : ℕ → List ℕ → List ℕ
exclusive_or pad = map (λ k. bit_xor k pad)

abbrev pub reference_hmac : (List ℕ → List ℕ) → List ℕ → List ℕ → List ℕ
reference_hmac hash text key =
    let block : List ℕ = zero_filled (hashed_key hash key) in
    hash (exclusive_or 0x5C block ++ hash (exclusive_or 0x36 block ++ text))

exclusive_or-fill_pad :
    (pad left : ℕ) → bit_xor 0 pad ≡ pad → exclusive_or pad (fill_pad left 0) ≡ fill_pad left pad
unfolding fill_pad
exclusive_or-fill_pad pad zero h = refl
exclusive_or-fill_pad pad (suc left) h = rw (h, exclusive_or-fill_pad pad left h) refl

exclusive_or-append :
    (pad : ℕ) (xs ys : List ℕ)
    → exclusive_or pad (xs ++ ys) ≡ exclusive_or pad xs ++ exclusive_or pad ys
exclusive_or-append pad [] ys = refl
exclusive_or-append pad (x ∷ xs) ys = ap (λ t. bit_xor x pad ∷ t) (exclusive_or-append pad xs ys)

key_block-exclusive_or :
    (pad : ℕ) (key : List ℕ)
    → bit_xor 0 pad ≡ pad
    → key_block pad key ≡ exclusive_or pad (zero_filled key)
unfolding key_block
key_block-exclusive_or pad key h =
    rw
      (
        exclusive_or-append pad key (fill_pad (64 - length key) 0),
        exclusive_or-fill_pad pad (64 - length key) h,
      )
      refl

module _ {World : Type 0} (crypto : Crypto World) (memory : Memory World) (hash : List ℕ → List ℕ)
    (answers : (data' : List ℕ) (w : World)
      → (Crypto.security_hash_sha256 crypto data' w).0 ≡ ok (hash data'))
    (size : (data' : List ℕ) → length (hash data') ≡ 32)
    (enough : (w : World) → (Memory.allocate memory w).0 ≡ true) where
  checked_hash_lem :
      (data' : List ℕ) (w : World) → (checked_hash crypto memory data' w).0 ≡ ok (hash data')
  unfolding checked_hash
  checked_hash_lem data' w = rw (answers data' w, size data') refl

  local_key_lem :
      (key : List ℕ) (w : World) → (local_key crypto memory key w).0 ≡ ok (hashed_key hash key)
  unfolding local_key
  local_key_lem key w = elim (Bool-cases (ltb 64 (length key))) [
    | inl e ↦ rw e (checked_hash_lem key w)
    | inr e ↦ rw e refl
  ]

  -- Where SHA-256 answers with a hash of 32 bytes and there is memory, `hmac_sha256` of a key that is not
  -- empty is HMAC as RFC 2104 defines it.
  pub hmac_sha256-reference_hmac :
      (data' key : List ℕ) (w : World)
      → 0 < length key
      → (hmac_sha256 crypto memory data' key w).0 ≡ ok (reference_hmac hash data' key)
  unfolding hmac_sha256
  hmac_sha256-reference_hmac data' key w h =
      rw
        (
          lt→ltb 0 (length key) h,
          local_key_lem key w,
          enough,
          enough,
          checked_hash_lem,
          key_block-exclusive_or 0x36 (hashed_key hash key) refl,
          key_block-exclusive_or 0x5C (hashed_key hash key) refl,
        )
        (checked_hash_lem _ _)
