-- ===== src/Connectivity/Tests.antt =====
-- Runs of mcl_connectivity/src/connectivity_processor.c, and its theorems at concrete inputs.
use mindconnect_lib.Base.{
  ℕ, zero, suc, ◌<◌, ◌≤◌, ◌+◌, ◌≡◌, refl, ap, true, false, List, [], ◌∷◌, ◌++◌, none, some, length,
  arith,
}
use mindconnect_lib.Base.Text.{literal}
use mindconnect_lib.Base.Code.{
  ok, err, fail, unexpected_result_code, invalid_parameter, out_of_memory,
  item_exceeds_max_http_request_size,
}
use mindconnect_lib.StringUtil.{
  mcl_string_util_strlen, string_util_strlen, string_util_reset, string_util_strdup,
}
use mindconnect_lib.Http.Response.{HttpResponse, status_result, mcl_http_response_get_status}
use mindconnect_lib.Multipart.Copy.{Progress}
use mindconnect_lib.Multipart.Tuple.{
  add_item_payload, multipart_get_tuple_size, multipart_get_overhead_size,
}
use mindconnect_lib.Security.Samples.{World, crypto, platform, sample_bytes}
use mindconnect_lib.Exchange.Store.{ready, StoreItem, is_too_large}
use mindconnect_lib.Exchange.Loop.{Client}
use mindconnect_lib.Exchange.Waiting.{Waiting}
use mindconnect_lib.Exchange.TextItems.{
  TextItem, ReckonedItem, text_composer, text_message, printed, get_item_size, reckoned_composer,
  reckoned_composer-Exact,
}
use mindconnect_lib.CoreProcessor.Request.Composed.{hex_text}
use mindconnect_lib.Connectivity.Processor.{
  ConnectivityProcessor, Surroundings, new_mapping, property_name_parameter, set_member,
  mcl_mapping_set_parameter, mapping_validate,
}
use mindconnect_lib.Connectivity.Correlation.{correlation_id_string, correlation_id_string-hex_text}
use mindconnect_lib.Connectivity.Request.{exchange_client}
use mindconnect_lib.Connectivity.Request.Accepted.{
  Favourable, connectivity_processor_exchange_complete,
}
use mindconnect_lib.Connectivity.Body.{
  store, body_size_of, prepare_body, connectivity_processor_exchange,
}
use mindconnect_lib.Connectivity.Body.Printed.{closing, prepare_body_lem}
use mindconnect_lib.Connectivity.CustomData.{CustomData, custom_data_payload_callback}
use mindconnect_lib.Connectivity.CustomData.Copied.{custom_data_payload_callback_lem}
use mindconnect_lib.Connectivity.Mapping.{not_created, evaluate_mapping_response}

abbrev zeros : ℕ → List ℕ
zeros zero = []
zeros (suc n) = 0 ∷ zeros n

zeros-length : (n : ℕ) → length (zeros n) ≡ n
zeros-length zero = refl
zeros-length (suc n) = ap suc (zeros-length n)

abbrev answer : ℕ → HttpResponse
answer status_code = record {
  header = [];
  payload = [];
  payload_size = 0;
  status_code = status_code;
}

abbrev surroundings : Surroundings World (Unit {0}) (Unit {0})
surroundings = record {
  platform = record platform {
    crypto = record crypto { security_generate_random_bytes = λ size w. (ok (zeros size), w) };
  };
  mcl_http_client_send = λ request body w. (ok (answer 200), w);
  body_address = λ w. 1000;
}

surroundings-Favourable : Favourable surroundings
surroundings-Favourable = record {
  enough = λ w. refl;
  listed = λ w. refl;
  random = λ size w. (zeros size, refl, zeros-length size);
  answered = λ request body w. (answer 200, refl, refl);
}

abbrev processor : ConnectivityProcessor
processor = record {
  agent_id = some (literal "agent");
  hostname = some (literal "https://host");
  access_token = some (literal "token");
  exchange_url = some (literal "https://host/exchange");
  mapping_url = none;
  max_http_payload_size = 400;
}

abbrev text_item : TextItem
text_item = record {
  meta = literal "{}";
  payload = literal "[1]";
  size = 5;
  sub_boundary = literal "abcdefghijklmnopqrst";
  sub_boundary_fits = refl;
}

abbrev item : ReckonedItem
item = record { text = text_item; right = refl }

abbrev stored : ℕ → StoreItem ReckonedItem
stored id = record { item = item; status = ready; id = id; item_size = 0 }

stored-Waiting : (id : ℕ) → Waiting reckoned_composer 400 (stored id)
unfolding is_too_large get_item_size printed multipart_get_tuple_size multipart_get_overhead_size
    mcl_string_util_strlen string_util_strlen
stored-Waiting id = (refl, refl, omega arith)

connectivity_processor_exchange_complete_example :
    (w1 : World) × (connectivity_processor_exchange reckoned_composer
        (exchange_client surroundings processor (zeros 33))
        400
        3
        true
        (store (stored 1 ∷ stored 2 ∷ []))
        tt
      ≡ some (ok tt, [], w1))
connectivity_processor_exchange_complete_example =
    connectivity_processor_exchange_complete surroundings surroundings-Favourable processor
      (zeros 33) (literal "token") (literal "https://host/exchange") refl refl refl
      reckoned_composer 400 (stored 1) (stored 2 ∷ []) tt reckoned_composer-Exact (omega arith)
      (stored-Waiting 1, (stored-Waiting 2, tt))

correlation_id_string-hex_text_example :
    correlation_id_string (zeros 33) (ok sample_bytes) ≡ ok (hex_text sample_bytes ++ (0 ∷ []))
correlation_id_string-hex_text_example =
    correlation_id_string-hex_text (zeros 33) sample_bytes refl refl

abbrev client : Client ℕ
client = record {
  generate_boundary = λ w. (ok (literal "12345678901234567890"), w);
  allocate = λ w. (true, w + 1);
  transmit = λ boundary body w. (ok tt, w + 1);
}

prepare_body_lem_example :
    (body_size_of text_composer client 400 text_item ≤ 400
      → length (literal "{}") + length (literal "[1]") ≤ 5
      → prepare_body text_composer client 400 text_item (literal "12345678901234567890") 0 ≡ (
        ok (
            text_message (literal "12345678901234567890") text_item
            ++ closing (literal "12345678901234567890")),
        1,
      ))
    × (body_size_of text_composer client 400 text_item ≤ 400
        → 5 < length (literal "{}") + length (literal "[1]")
        → prepare_body text_composer client 400 text_item (literal "12345678901234567890") 0
          ≡ (err fail, 1))
    × (400 < body_size_of text_composer client 400 text_item
        → prepare_body text_composer client 400 text_item (literal "12345678901234567890") 0
          ≡ (err item_exceeds_max_http_request_size, 0))
prepare_body_lem_example =
    prepare_body_lem client 400 (literal "12345678901234567890") refl text_item 0 refl

success_is_unexpected : evaluate_mapping_response (answer 200) ≡ err unexpected_result_code
unfolding evaluate_mapping_response not_created mcl_http_response_get_status status_result
success_is_unexpected = refl

abbrev custom_data : CustomData
custom_data = record {
  item = record { meta = ok (literal "{}"); payload = ok []; size = 7 };
  content_type = literal "text/plain";
  buffer = literal "hello";
  size = 5;
}

abbrev started : Progress
started = record {
  code = ok tt;
  buffer = literal "ab" ++ zeros 8;
  position = 2;
  remaining_size = 8;
}

custom_data_payload_callback_lem_example :
    (q : Progress) × (add_item_payload
        (CustomData.item custom_data)
        (some (custom_data_payload_callback custom_data))
        0
        started
      ≡ some q)
    × (q.buffer ≡ literal "abhello" ++ zeros 3)
    × (q.position ≡ 7)
    × (q.code ≡ ok tt)
custom_data_payload_callback_lem_example =
    custom_data_payload_callback_lem custom_data (omega arith) refl (literal "ab") (zeros 8) started
      (omega arith) (record { code = refl; buffer = refl; position = refl; room = refl })

-- A mapping without memory for its name is not complete.
name_is_missing :
    mcl_mapping_set_parameter false
      (some new_mapping)
      (some (property_name_parameter (literal "Voltage")))
    ≡ (err out_of_memory, some new_mapping)
unfolding mcl_mapping_set_parameter set_member string_util_reset string_util_strdup
name_is_missing = refl

incomplete : mapping_validate new_mapping ≡ err invalid_parameter
unfolding mapping_validate
incomplete = refl
