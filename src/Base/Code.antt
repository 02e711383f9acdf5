-- ===== src/Base/Code.antt =====
-- The return codes of `mcl_core_common.h` (`E_MCL_CORE_RETURN_CODE`), the two of
-- `mcl_connectivity_common.h` that the modelled code returns, and results that carry them.
-- `MCL_OK` is `ok`, with the values that the C function hands back through its pointers.
use mathlib.Core.Bool.{Bool, true, false}
use mindconnect_lib.Base.Tests.{if◌then◌else◌}

pub data Error : Type 0 where
  fail triggered_with_null out_of_memory invalid_parameter invalid_log_level : Error
  no_server_time no_access_token_exists no_access_token_provided no_file_support : Error
  operation_not_supported : Error
  could_not_resolve_proxy could_not_resolve_host could_not_connect ssl_handshake_fail : Error
  network_send_fail network_receive_fail server_certificate_not_verified : Error
  improper_certificate request_timeout server_fail created partial_content bad_request : Error
  unauthorized forbidden not_found conflict precondition_fail : Error
  request_payload_too_large too_many_requests unexpected_result_code : Error
  not_onboarded already_onboarded exchange_streaming_is_active credentials_up_to_date : Error
  cannot_enter_critical_section : Error
  bad_content_encoding json_non_existing_child json_name_duplication json_type_mismatch : Error
  sha256_calculation_fail credentials_not_saved credentials_not_loaded : Error
  list_is_empty limit_exceeded : Error
  item_exceeds_max_http_request_size store_is_empty : Error

pub data Result {ℓ} (Value : Type ℓ) : Type ℓ where
  ok : Value → Result Value
  err : Error → Result Value

abbrev pub is_ok {ℓ} : {Value : Type ℓ} → Result Value → Bool
is_ok (ok value) = true
is_ok (err code) = false

-- `MCL_ASSERT_CODE_MESSAGE(condition, code, …)`.
abbrev pub assert : Bool → Error → Result (Unit {0})
assert condition code = if condition then ok tt else err code

-- A failing step ends the function with its code.
infixl 5 ◌>>=◌ ◌>>◌
abbrev pub ◌>>=◌ {ℓ κ} :
    {Value : Type ℓ} {Next : Type κ} → Result Value → (Value → Result Next) → Result Next
ok value >>= rest = rest value
err code >>= rest = err code

abbrev pub ◌>>◌ {κ} : {Next : Type κ} → Result (Unit {0}) → Result Next → Result Next
ok _ >> rest = rest
err code >> rest = err code
