-- ===== src/Connectivity/Configuration.antt =====
-- mcl_connectivity/src/connectivity_configuration.c. Of the core only its host name is read here.
pub mod Invariant
mod Tests
use mindconnect_lib.Base.{ℕ, Bool, ◌&&◌, List, Option, none, some, leb, if◌then◌else◌}
use mindconnect_lib.Base.Text.{literal}
use mindconnect_lib.Base.Code.{
  Result, ok, err, out_of_memory, invalid_parameter, triggered_with_null,
}
use mindconnect_lib.StringUtil.{CString, string_util_concatenate}

pub record ConnectivityConfiguration (Core : Type 0) : Type 0 where
  pub core : Option Core
  pub exchange_url : CString
  pub mapping_url : CString
  pub max_http_payload_size : ℕ

abbrev pub exchange_uri : List ℕ
exchange_uri = literal "/api/mindconnect/v3/exchange"

abbrev pub mapping_uri : List ℕ
mapping_uri = literal "/api/mindconnect/v3/dataPointMappings"

abbrev pub min_http_payload_size : ℕ
min_http_payload_size = 400

abbrev pub default_max_http_payload_size : ℕ
default_max_http_payload_size = 16384

abbrev pub largest_http_payload_size : ℕ
largest_http_payload_size = 10485760

-- The value of a parameter, with its type; `end_parameter` is any other parameter.
pub data Setting (Core : Type 0) : Type 0 where
  core_parameter : Core → Setting Core
  max_http_payload_size_parameter : ℕ → Setting Core
  end_parameter : Setting Core

abbrev pub Configured : Type 0 → Type 0
Configured Core = Result (Unit {0}) × ConnectivityConfiguration Core

module _ {Core : Type 0} where
  abbrev pub new_configuration : ConnectivityConfiguration Core
  new_configuration = record {
    core = none;
    exchange_url = none;
    mapping_url = none;
    max_http_payload_size = default_max_http_payload_size;
  }

  unfoldable pub mcl_connectivity_configuration_initialize :
      Bool → Result (ConnectivityConfiguration Core)
  mcl_connectivity_configuration_initialize allocated =
      if allocated then ok new_configuration else err out_of_memory

  unfoldable pub freed : ConnectivityConfiguration Core → ConnectivityConfiguration Core
  freed c = record c { exchange_url = none; mapping_url = none }

  -- What the two concatenations leave: where the second fails, the first URL is freed.
  unfoldable pub set_urls :
      ConnectivityConfiguration Core → Core → Result (List ℕ) → Result (List ℕ) → Configured Core
  set_urls c core (err code) mapping = (err code, freed c)
  set_urls c core (ok exchange) (err code) = (err code, freed c)
  set_urls c core (ok exchange) (ok mapping) = (
    ok tt,
    record c { core = some core; exchange_url = some exchange; mapping_url = some mapping },
  )

  -- `exchange_allocated` and `mapping_allocated` are what the allocator answers.
  unfoldable pub set_core :
      Bool → Bool → ConnectivityConfiguration Core → Core → CString → Configured Core
  set_core exchange_allocated mapping_allocated c core none = (err invalid_parameter, freed c)
  set_core exchange_allocated mapping_allocated c core (some hostname) =
      set_urls c core (string_util_concatenate exchange_allocated hostname exchange_uri)
        (string_util_concatenate mapping_allocated hostname mapping_uri)

  module _ (mcl_core_get_host_name : Core → CString) where
    unfoldable pub set_setting :
        Bool → Bool → ConnectivityConfiguration Core → Setting Core → Configured Core
    set_setting exchange_allocated mapping_allocated c (core_parameter core) =
        set_core exchange_allocated mapping_allocated c core (mcl_core_get_host_name core)
    set_setting exchange_allocated mapping_allocated c (max_http_payload_size_parameter size) =
        if leb min_http_payload_size size && leb size largest_http_payload_size
        then (ok tt, record c { max_http_payload_size = size })
        else (err invalid_parameter, c)
    set_setting exchange_allocated mapping_allocated c end_parameter = (err invalid_parameter, c)

    unfoldable pub set_not_null :
        Bool → Bool → ConnectivityConfiguration Core → Option (Setting Core) → Configured Core
    set_not_null exchange_allocated mapping_allocated c none = (err triggered_with_null, c)
    set_not_null exchange_allocated mapping_allocated c (some value) =
        set_setting exchange_allocated mapping_allocated c value

    unfoldable pub mcl_connectivity_configuration_set_parameter :
        Bool
        → Bool
        → Option (ConnectivityConfiguration Core)
        → Option (Setting Core)
        → Result (Unit {0}) × Option (ConnectivityConfiguration Core)
    mcl_connectivity_configuration_set_parameter exchange_allocated mapping_allocated none value =
        (err triggered_with_null, none)
    mcl_connectivity_configuration_set_parameter exchange_allocated mapping_allocated (some c)
          value =
        let done = set_not_null exchange_allocated mapping_allocated c value in
        (done.0, some done.1)

  unfoldable pub core_checked : Option Core → Result (Unit {0})
  core_checked none = err invalid_parameter
  core_checked (some core) = ok tt

  unfoldable pub connectivity_configuration_validate :
      ConnectivityConfiguration Core → Result (Unit {0})
  connectivity_configuration_validate c = core_checked (ConnectivityConfiguration.core c)
