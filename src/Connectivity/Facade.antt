-- ===== src/Connectivity/Facade.antt =====
-- mcl_connectivity/src/connectivity.c: each call takes the core's last access token first. The calls
-- of the core are arguments.
use mindconnect_lib.Base.{ℕ, Bool, true, false, Option, none, some, List}
use mindconnect_lib.Base.Code.{Result, ok, err, out_of_memory, triggered_with_null}
use mindconnect_lib.Base.Action.{Action}
use mindconnect_lib.StringUtil.{CString}
use mindconnect_lib.Connectivity.Processor.{ConnectivityProcessor}
use mindconnect_lib.Connectivity.Configuration.{
  ConnectivityConfiguration, connectivity_configuration_validate,
}

-- The handle, with the state `World` outside.
pub record Connectivity (Core World : Type 0) : Type 0 where
  pub configuration : ConnectivityConfiguration Core
  pub processor : ConnectivityProcessor
  pub world : World

-- What this module calls of core.c: the getters, and `mcl_core_get_last_access_token`, whose core may be
-- `MCL_NULL`.
pub record CoreCalls (Core World : Type 0) : Type 0 where
  pub mcl_core_get_client_id : Core → CString
  pub mcl_core_get_host_name : Core → CString
  pub mcl_core_get_last_access_token : Option Core → Action World (List ℕ)

module _ {Core World : Type 0} (core_calls : CoreCalls Core World) where
  abbrev getter : (Core → CString) → Option Core → CString
  getter get none = none
  getter get (some core) = get core

  abbrev new_processor : ConnectivityConfiguration Core → ConnectivityProcessor
  new_processor c = record {
    agent_id =
        getter (CoreCalls.mcl_core_get_client_id core_calls) (ConnectivityConfiguration.core c);
    hostname =
        getter (CoreCalls.mcl_core_get_host_name core_calls) (ConnectivityConfiguration.core c);
    access_token = none;
    exchange_url = ConnectivityConfiguration.exchange_url c;
    mapping_url = ConnectivityConfiguration.mapping_url c;
    max_http_payload_size = ConnectivityConfiguration.max_http_payload_size c;
  }

  abbrev allocated_handle :
      Result (Unit {0})
      → Bool
      → ConnectivityConfiguration Core
      → World
      → Result (Connectivity Core World)
  allocated_handle (err code) allocated c w = err code
  allocated_handle (ok _) false c w = err out_of_memory
  allocated_handle (ok _) true c w =
      ok (record { configuration = c; processor = new_processor c; world = w })

  unfoldable pub mcl_connectivity_initialize :
      Bool → Option (ConnectivityConfiguration Core) → World → Result (Connectivity Core World)
  mcl_connectivity_initialize allocated none w = err triggered_with_null
  mcl_connectivity_initialize allocated (some c) w =
      allocated_handle (connectivity_configuration_validate c) allocated c w

  -- The old token is freed, whatever the core answers.
  unfoldable pub renew_token :
      Connectivity Core World
      → Result (List ℕ) × World
      → Result (Unit {0}) × Connectivity Core World
  renew_token c (ok token, w) = (
    ok tt,
    record c {
      processor = record (Connectivity.processor c) { access_token = some token };
      world = w;
    },
  )
  renew_token c (err code, w) = (
    err code,
    record c { processor = record (Connectivity.processor c) { access_token = none }; world = w },
  )

  unfoldable pub on_processor :
      {Value : Type 0}
      → (ConnectivityProcessor → Action World Value)
      → Result (Unit {0}) × Connectivity Core World
      → Result Value × Connectivity Core World
  on_processor operation (err code, c) = (err code, c)
  on_processor operation (ok _, c) =
      let answer = operation (Connectivity.processor c) (Connectivity.world c) in
      (answer.0, record c { world = answer.1 })

  unfoldable pub with_last_token :
      {Value : Type 0}
      → (ConnectivityProcessor → Action World Value)
      → Connectivity Core World
      → Result Value × Connectivity Core World
  with_last_token operation c = on_processor operation (
      renew_token c (
        CoreCalls.mcl_core_get_last_access_token core_calls
          (ConnectivityConfiguration.core (Connectivity.configuration c)) (Connectivity.world c)))

  -- `mcl_connectivity_exchange`, `mcl_connectivity_create_mapping` and
  -- `mcl_connectivity_get_data_source_configuration` differ in the operation of the processor; its
  -- argument is `none` for `MCL_NULL`.
  unfoldable pub mcl_connectivity_call :
      {Argument Value : Type 0}
      → (Argument → ConnectivityProcessor → Action World Value)
      → Option (Connectivity Core World)
      → Option Argument
      → Result Value × Option (Connectivity Core World)
  mcl_connectivity_call operation none argument = (err triggered_with_null, none)
  mcl_connectivity_call operation (some c) none = (err triggered_with_null, some c)
  mcl_connectivity_call operation (some c) (some argument) =
      let done = with_last_token (operation argument) c in (done.0, some done.1)
