-- ===== src/CoreProcessor/Update/Outcome.antt =====
-- The three ends of an update of the credentials by mcl_core/src/core_processor.c.
use mindconnect_lib.Base.{◌≡◌, ◌⊎◌, inl, inr, refl, true}
use mindconnect_lib.Base.Code.{Result, ok, err, fail, credentials_up_to_date}
use mindconnect_lib.Security.Handler.{SecurityHandler, text_of}
use mindconnect_lib.Security.Jwt.{SecurityProfile, shared_secret, rsa_3072}
use mindconnect_lib.CoreProcessor.Environment.{
  Loaded, Environment, CoreProcessor, profile_of, callbacks_are_used, change_handler,
}
use mindconnect_lib.CoreProcessor.Update.{
  check_client_secret, check_rsa_private_key, check_secrets, check_client_id, up_to_date_if,
  received, replace_secrets, load_by_profile, load_credentials, core_processor_update_credentials,
}
use mindconnect_lib.CoreProcessor.Update.Strings.{compare_strings-cases}

abbrev pub SameClient : SecurityHandler → Loaded → Type 0
SameClient h loaded = text_of (Loaded.client_id loaded) ≡ text_of (SecurityHandler.client_id h)

-- With a shared secret the secret and the registration access token, with RSA the private key.
abbrev pub SameSecrets : SecurityProfile → SecurityHandler → Loaded → Type 0
SameSecrets shared_secret h loaded =
    (text_of (Loaded.client_secret loaded) ≡ text_of (SecurityHandler.client_secret h))
    × (text_of (Loaded.registration_access_token loaded)
        ≡ text_of (SecurityHandler.registration_access_token h))
SameSecrets rsa_3072 h loaded =
    text_of (Loaded.private_key loaded) ≡ text_of (SecurityHandler.private_key h)

-- The ends of an update from `before`, after which the callback has left the world `after`.
pub data UpdateEnd {World : Type 0} (before after : CoreProcessor World) (loaded : Loaded)
    (end : Result (Unit {0}) × CoreProcessor World) : Type 0 where
  other_client :
      ¬ SameClient (CoreProcessor.security_handler before) loaded
      → end ≡ (err fail, after)
      → UpdateEnd before after loaded end
  up_to_date :
      SameClient (CoreProcessor.security_handler before) loaded
      → SameSecrets (profile_of before) (CoreProcessor.security_handler before) loaded
      → end ≡ (err credentials_up_to_date, after)
      → UpdateEnd before after loaded end
  updated :
      SameClient (CoreProcessor.security_handler before) loaded
      → ¬ SameSecrets (profile_of before) (CoreProcessor.security_handler before) loaded
      → end ≡ (ok tt, change_handler (replace_secrets (received (profile_of before) loaded)) after)
      → UpdateEnd before after loaded end

check_client_secret-cases :
    (h : SecurityHandler) (loaded : Loaded)
    → (SameSecrets shared_secret h loaded × (check_client_secret h loaded ≡ ok tt))
      ⊎ ((¬ SameSecrets shared_secret h loaded) × (check_client_secret h loaded ≡ err fail))
unfolding check_client_secret
check_client_secret-cases h loaded =
    elim (compare_strings-cases (text_of (Loaded.client_secret loaded))
      (text_of (SecurityHandler.client_secret h))) [
        | inr d ↦ inr (λ same. d.0 same.0, rw d.1 refl)
        | inl e ↦
            elim (compare_strings-cases (text_of (Loaded.registration_access_token loaded))
              (text_of (SecurityHandler.registration_access_token h))) [
                | inr d ↦ inr (λ same. d.0 same.1, rw e.1 d.1)
                | inl f ↦ inl ((e.0, f.0), rw e.1 f.1)
              ]
      ]

check_secrets-cases :
    (profile : SecurityProfile) (h : SecurityHandler) (loaded : Loaded)
    → (SameSecrets profile h loaded × (check_secrets profile h (received profile loaded) ≡ ok tt))
      ⊎ ((¬ SameSecrets profile h loaded)
          × (check_secrets profile h (received profile loaded) ≡ err fail))
unfolding check_secrets check_rsa_private_key received
check_secrets-cases shared_secret h loaded =
    check_client_secret-cases h (received shared_secret loaded)
check_secrets-cases rsa_3072 h loaded =
    compare_strings-cases (text_of (Loaded.private_key loaded))
      (text_of (SecurityHandler.private_key h))

check_client_id-cases :
    (profile : SecurityProfile) (h : SecurityHandler) (loaded : Loaded)
    → (SameClient h loaded × (check_client_id h (received profile loaded) ≡ ok tt))
      ⊎ ((¬ SameClient h loaded) × (check_client_id h (received profile loaded) ≡ err fail))
unfolding check_client_id received
check_client_id-cases shared_secret h loaded =
    compare_strings-cases (text_of (Loaded.client_id loaded))
      (text_of (SecurityHandler.client_id h))
check_client_id-cases rsa_3072 h loaded =
    compare_strings-cases (text_of (Loaded.client_id loaded))
      (text_of (SecurityHandler.client_id h))

module _ {World Double Int : Type 0} (environment : Environment World Double Int) where
  -- Where both callbacks are there and the one to load answers, an update fails with `MCL_FAIL` if the
  -- client id is another, and with `MCL_CREDENTIALS_UP_TO_DATE` if it is the same and the secrets are, and
  -- then the agent knows what it knew; otherwise it succeeds, and the registration access token, the
  -- secret and the keys are those that were loaded, and all else is as it was.
  pub core_processor_update_credentials-UpdateEnd :
      (c : CoreProcessor World) (loaded : Loaded) (w : World)
      → callbacks_are_used c ≡ true
      → load_by_profile environment (profile_of c) (CoreProcessor.world c) ≡ (ok tt, loaded, w)
      → UpdateEnd c
          (record c { world = w })
          loaded
          (core_processor_update_credentials environment c)
  unfolding core_processor_update_credentials load_credentials up_to_date_if
  core_processor_update_credentials-UpdateEnd c loaded w used answer =
      let h : SecurityHandler = CoreProcessor.security_handler c in
      elim (check_client_id-cases (profile_of c) h loaded) [
        | inr d ↦ other_client d.0 (rw (used, answer, d.1) refl)
        | inl e ↦ elim (check_secrets-cases (profile_of c) h loaded) [
          | inl f ↦ up_to_date e.0 f.0 (rw (used, answer, e.1, f.1) refl)
          | inr d ↦ updated e.0 d.0 (rw (used, answer, e.1, d.1) refl)
        ]
      ]
