-- ===== src/Connectivity/Configuration/Invariant.antt =====
-- The configuration of mcl_connectivity/src/connectivity_configuration.c, whatever is set and in
-- whatever order.
use mindconnect_lib.Base.{
  ℕ, ◌≤◌, ◌≡◌, refl, Bool, true, false, Bool-cases, ◌&&◌, ◌++◌, List, Option, none, some, leb,
  arith, ◌⊎◌, inl, inr,
}
use mindconnect_lib.StringUtil.{CString, string_util_concatenate}
use mindconnect_lib.Connectivity.Configuration.{
  ConnectivityConfiguration, exchange_uri, mapping_uri, min_http_payload_size,
  largest_http_payload_size, Setting, core_parameter, max_http_payload_size_parameter,
  end_parameter, freed, set_urls, set_core, set_setting, set_not_null,
  mcl_connectivity_configuration_set_parameter,
}

module _ {Core : Type 0} (mcl_core_get_host_name : Core → CString) where
  -- The URLs are those of the core's host.
  abbrev pub OfHost : ConnectivityConfiguration Core → Type 0
  OfHost c =
      (core : Core) × (hostname : List ℕ) × (ConnectivityConfiguration.core c ≡ some core)
      × (mcl_core_get_host_name core ≡ some hostname)
      × (ConnectivityConfiguration.exchange_url c ≡ some (hostname ++ exchange_uri))
      × (ConnectivityConfiguration.mapping_url c ≡ some (hostname ++ mapping_uri))

  abbrev pub NoUrl : ConnectivityConfiguration Core → Type 0
  NoUrl c =
      (ConnectivityConfiguration.exchange_url c ≡ none)
      × (ConnectivityConfiguration.mapping_url c ≡ none)

  -- The maximum of a request is in its bounds, and there are both URLs, those of the core's host, or
  -- none.
  abbrev pub IsConfiguration : ConnectivityConfiguration Core → Type 0
  IsConfiguration c =
      (min_http_payload_size ≤ ConnectivityConfiguration.max_http_payload_size c)
      × (ConnectivityConfiguration.max_http_payload_size c ≤ largest_http_payload_size)
      × (NoUrl c ⊎ OfHost c)

  freed-IsConfiguration :
      (c : ConnectivityConfiguration Core) → IsConfiguration c → IsConfiguration (freed c)
  unfolding freed
  freed-IsConfiguration c h = (h.0, h.1, inl (refl, refl))

  set_core-IsConfiguration :
      (exchange_allocated mapping_allocated : Bool) (c : ConnectivityConfiguration Core)
      (core : Core) (hostname : CString)
      → mcl_core_get_host_name core ≡ hostname
      → IsConfiguration c
      → IsConfiguration (set_core exchange_allocated mapping_allocated c core hostname).1
  unfolding set_core set_urls string_util_concatenate
  set_core-IsConfiguration exchange_allocated mapping_allocated c core none e h =
      freed-IsConfiguration c h
  set_core-IsConfiguration false mapping_allocated c core (some hostname) e h =
      freed-IsConfiguration c h
  set_core-IsConfiguration true false c core (some hostname) e h = freed-IsConfiguration c h
  set_core-IsConfiguration true true c core (some hostname) e h =
      (h.0, h.1, inr (core, hostname, refl, e, refl, refl))

  set_size-IsConfiguration :
      (exchange_allocated mapping_allocated : Bool) (c : ConnectivityConfiguration Core) (size : ℕ)
      → IsConfiguration c
      → IsConfiguration
          (set_setting mcl_core_get_host_name exchange_allocated mapping_allocated c
            (max_http_payload_size_parameter size)).1
  unfolding set_setting
  set_size-IsConfiguration exchange_allocated mapping_allocated c size h =
      elim (Bool-cases (leb min_http_payload_size size && leb size largest_http_payload_size)) [
        | inl fits ↦
            let low : min_http_payload_size ≤ size = ground arith in
            let high : size ≤ largest_http_payload_size = ground arith in rw fits (low, high, h.2)
        | inr beyond ↦ rw beyond h
      ]

  set_setting-IsConfiguration :
      (exchange_allocated mapping_allocated : Bool) (c : ConnectivityConfiguration Core)
      (value : Setting Core)
      → IsConfiguration c
      → IsConfiguration
          (set_setting mcl_core_get_host_name exchange_allocated mapping_allocated c value).1
  unfolding set_setting
  set_setting-IsConfiguration exchange_allocated mapping_allocated c (core_parameter core) h =
      set_core-IsConfiguration exchange_allocated mapping_allocated c core
        (mcl_core_get_host_name core) refl h
  set_setting-IsConfiguration exchange_allocated mapping_allocated c
        (max_http_payload_size_parameter size) h =
      set_size-IsConfiguration exchange_allocated mapping_allocated c size h
  set_setting-IsConfiguration exchange_allocated mapping_allocated c end_parameter h = h

  abbrev pub AllConfigured : Option (ConnectivityConfiguration Core) → Type 0
  AllConfigured none = Unit {0}
  AllConfigured (some c) = IsConfiguration c

  -- Setting a parameter, failures included, leaves a configuration whose maximum of a request is in
  -- its bounds, and that has the two URLs of its core's host or none of them, if it was one before.
  pub mcl_connectivity_configuration_set_parameter-IsConfiguration :
      (exchange_allocated mapping_allocated : Bool)
      (configuration : Option (ConnectivityConfiguration Core)) (value : Option (Setting Core))
      → AllConfigured configuration
      → AllConfigured
          (mcl_connectivity_configuration_set_parameter mcl_core_get_host_name exchange_allocated
            mapping_allocated configuration value).1
  unfolding mcl_connectivity_configuration_set_parameter set_not_null
  mcl_connectivity_configuration_set_parameter-IsConfiguration exchange_allocated mapping_allocated
        none value h =
      tt
  mcl_connectivity_configuration_set_parameter-IsConfiguration exchange_allocated mapping_allocated
        (some c) none h =
      h
  mcl_connectivity_configuration_set_parameter-IsConfiguration exchange_allocated mapping_allocated
        (some c) (some value) h =
      set_setting-IsConfiguration exchange_allocated mapping_allocated c value h
