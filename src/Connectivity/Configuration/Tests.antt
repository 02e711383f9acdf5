-- ===== src/Connectivity/Configuration/Tests.antt =====
-- Runs of mcl_connectivity/src/connectivity_configuration.c, and its theorem at a concrete input.
use mindconnect_lib.Base.{ℕ, ◌≡◌, refl, inl, true, false, none, some, arith}
use mindconnect_lib.Base.Text.{literal}
use mindconnect_lib.Base.Code.{ok, err, out_of_memory}
use mindconnect_lib.StringUtil.{CString, string_util_concatenate}
use mindconnect_lib.Connectivity.Configuration.{
  ConnectivityConfiguration, new_configuration, core_parameter, freed, set_urls, set_core,
  set_setting, set_not_null, mcl_connectivity_configuration_set_parameter,
  connectivity_configuration_validate, core_checked,
}
use mindconnect_lib.Connectivity.Configuration.Invariant.{
  AllConfigured, mcl_connectivity_configuration_set_parameter-IsConfiguration,
}

abbrev host_name : ℕ → CString
host_name core = some (literal "https://host")

abbrev configured : ConnectivityConfiguration ℕ
configured = record {
  core = some 1;
  exchange_url = some (literal "https://host/api/mindconnect/v3/exchange");
  mapping_url = some (literal "https://host/api/mindconnect/v3/dataPointMappings");
  max_http_payload_size = 16384;
}

core_is_set :
    mcl_connectivity_configuration_set_parameter host_name true true
      (some new_configuration)
      (some (core_parameter 1))
    ≡ (ok tt, some configured)
unfolding mcl_connectivity_configuration_set_parameter set_not_null set_setting set_core set_urls
    string_util_concatenate
core_is_set = refl

-- Without memory for the second URL both are gone, and the core that was set before stays.
core_stays :
    mcl_connectivity_configuration_set_parameter host_name true false
      (some configured)
      (some (core_parameter 2))
    ≡ (err out_of_memory, some (record configured { exchange_url = none; mapping_url = none }))
unfolding mcl_connectivity_configuration_set_parameter set_not_null set_setting set_core set_urls
    freed string_util_concatenate
core_stays = refl

core_stays_valid :
    connectivity_configuration_validate
      (record configured { exchange_url = none; mapping_url = none })
    ≡ ok tt
unfolding connectivity_configuration_validate core_checked
core_stays_valid = refl

mcl_connectivity_configuration_set_parameter-IsConfiguration_example :
    AllConfigured host_name
      (mcl_connectivity_configuration_set_parameter host_name true false
        (some new_configuration)
        (some (core_parameter 1))).1
mcl_connectivity_configuration_set_parameter-IsConfiguration_example =
    mcl_connectivity_configuration_set_parameter-IsConfiguration host_name true false
      (some new_configuration) (some (core_parameter 1))
      (omega arith, omega arith, inl (refl, refl))
