-- ===== src/Connectivity/Request.antt =====
-- The requests of mcl_connectivity/src/connectivity_processor.c for an exchange, and what becomes of
-- their responses.
pub mod Composed
pub mod Accepted
use mindconnect_lib.Base.{
  ℕ, ◌+◌, ◌*◌, ◌==◌, true, false, Bool, none, some, List, ◌++◌, length, take, if◌then◌else◌,
}
use mindconnect_lib.Base.Text.{literal}
use mindconnect_lib.Base.Code.{Result, ok, err, triggered_with_null}
use mindconnect_lib.Base.Action.{
  Action, Memory, malloc, from_result, gets, pure, raise, ◌>>=◌, ◌>>◌,
}
use mindconnect_lib.StringUtil.{
  CString, string_util_strlen, print_formatted_string, string_util_concatenate,
}
use mindconnect_lib.Http.Request.{
  HttpRequest, parameter_method, parameter_body, parameter_body_size,
}
use mindconnect_lib.Http.Response.{HttpResponse, mcl_http_response_get_status}
use mindconnect_lib.Multipart.States.{boundary_length, content_type_application_json}
use mindconnect_lib.Multipart.Tuple.{multipart_generate_boundary}
use mindconnect_lib.Security.Crypto.{Crypto}
use mindconnect_lib.Security.Handler.{with_memory}
use mindconnect_lib.Security.Jwt.{Platform}
use mindconnect_lib.Security.Random.{printed_text}
use mindconnect_lib.CoreProcessor.Request.{
  initialize_request, set_parameter, set_url, add_request_header, bearer_text, http_post,
}
use mindconnect_lib.Connectivity.Processor.{ConnectivityProcessor, Surroundings}
use mindconnect_lib.Connectivity.Correlation.{correlation_id_byte_length, correlation_id_string}
use mindconnect_lib.Exchange.Loop.{Client}

abbrev pub content_type_multipart_mixed : List ℕ
content_type_multipart_mixed = literal "multipart/mixed"

abbrev pub constant_part_length : ℕ
constant_part_length = 24

abbrev pub multipart_mixed_text : List ℕ → List ℕ
multipart_mixed_text boundary =
    content_type_multipart_mixed ++ (literal ";boundary=" ++ (boundary ++ literal ";charset=utf-8"))

-- The characters of a correlation id before its terminator.
unfoldable pub correlation_text : Result (List ℕ) → Result (List ℕ)
correlation_text (ok id) = ok (take (2 * correlation_id_byte_length) id)
correlation_text (err code) = err code

unfoldable pub evaluate_response_for_exchange : HttpResponse → Result (Unit {0})
evaluate_response_for_exchange response =
    if HttpResponse.status_code response == 200
    then ok tt
    else mcl_http_response_get_status (some response)

module _ {World : Type 0} (memory : Memory World) where
  unfoldable pub add_multipart_mixed_content_type_header :
      HttpRequest → List ℕ → Action World HttpRequest
  add_multipart_mixed_content_type_header r boundary = do
    malloc memory
    header_value ← from_result (
        printed_text (
          print_formatted_string
            (string_util_strlen content_type_multipart_mixed
              + string_util_strlen boundary
              + constant_part_length
              + 1)
            (multipart_mixed_text boundary)))
    add_request_header memory r (literal "Content-Type") header_value

  -- `mcl_string_util_concatenate` looks at its arguments before it asks for memory.
  unfoldable pub add_authorization_header : HttpRequest → CString → Action World HttpRequest
  add_authorization_header r none = raise triggered_with_null
  add_authorization_header r (some access_token) = do
    jwt ←
        with_memory memory
          (λ allocated. string_util_concatenate allocated (literal "Bearer ") access_token)
    add_request_header memory r (literal "Authorization") jwt

  unfoldable pub add_http_headers_for_exchange :
      ConnectivityProcessor → HttpRequest → List ℕ → Action World HttpRequest
  add_http_headers_for_exchange processor r boundary = do
    r ← add_multipart_mixed_content_type_header r boundary
    r ← add_request_header memory r (literal "Accept") content_type_application_json
    add_authorization_header r (ConnectivityProcessor.access_token processor)

module _ {World Double Int : Type 0} (surroundings : Surroundings World Double Int) where
  abbrev pub memory_of : Memory World
  memory_of = Platform.memory (Surroundings.platform surroundings)

  abbrev pub crypto_of : Crypto World
  crypto_of = Platform.crypto (Surroundings.platform surroundings)

  -- `uninitialized` is what the buffer on the stack holds.
  unfoldable pub generate_correlation_id_string : List ℕ → Action World (List ℕ)
  generate_correlation_id_string uninitialized w =
      let answer = Crypto.security_generate_random_bytes crypto_of correlation_id_byte_length w in
      (correlation_text (correlation_id_string uninitialized answer.0), answer.1)

  -- The request of `connectivity_processor_exchange`.
  unfoldable pub exchange_request :
      ConnectivityProcessor → List ℕ → List ℕ → List ℕ → Action World HttpRequest
  exchange_request processor uninitialized boundary body = do
    r ← initialize_request memory_of
    address ← gets (Surroundings.body_address surroundings)
    r ← set_parameter memory_of r (parameter_body address)
    r ← set_parameter memory_of r (parameter_method http_post)
    r ← set_parameter memory_of r (parameter_body_size (length body))
    r ← set_url memory_of r (ConnectivityProcessor.exchange_url processor)
    r ← add_http_headers_for_exchange memory_of processor r boundary
    correlation_id ← generate_correlation_id_string uninitialized
    add_request_header memory_of r (literal "Correlation-ID") correlation_id

  -- The part of the loop behind the body.
  unfoldable pub transmit :
      ConnectivityProcessor → List ℕ → List ℕ → List ℕ → Action World (Unit {0})
  transmit processor uninitialized boundary body = do
    request ← exchange_request processor uninitialized boundary body
    response ← Surroundings.mcl_http_client_send surroundings request body
    from_result (evaluate_response_for_exchange response)

  -- The allocation of `multipart_generate_boundary` comes before its random bytes.
  unfoldable pub generate_boundary : Action World (List ℕ)
  generate_boundary = do
    malloc memory_of
    λ w.
        let answer = Crypto.security_generate_random_bytes crypto_of boundary_length w in
        (multipart_generate_boundary true answer.0, answer.1)

  -- What the loop over the requests of a store works with.
  unfoldable pub exchange_client : ConnectivityProcessor → List ℕ → Client World
  exchange_client processor uninitialized = record {
    generate_boundary = generate_boundary;
    allocate = Memory.allocate memory_of;
    transmit = transmit processor uninitialized;
  }
