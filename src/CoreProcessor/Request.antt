-- ===== src/CoreProcessor/Request.antt =====
-- The requests that mcl_core/src/core_processor.c composes for /register and /token, by the functions
-- of http_request.c.
pub mod Composed
use mindconnect_lib.Base.{ℕ, ◌+◌, Bool, true, false, Option, none, some, List, ◌++◌}
use mindconnect_lib.Base.Bits.{u32}
use mindconnect_lib.Base.Text.{literal}
use mindconnect_lib.Base.Code.{Result, ok, err, triggered_with_null}
use mindconnect_lib.Base.Action.{Action, Memory, malloc, from_result, gets, ◌>>=◌, ◌>>◌}
use mindconnect_lib.StringUtil.{CString, string_util_strlen, print_formatted_string}
use mindconnect_lib.Http.Request.{
  HttpRequest, Parameter, parameter_method, parameter_url, parameter_body, parameter_body_size,
  mcl_http_request_initialize, mcl_http_request_set_parameter, mcl_http_request_add_header,
}
use mindconnect_lib.Security.Handler.{with_memory}
use mindconnect_lib.Security.Jwt.{Platform}
use mindconnect_lib.Security.Random.{printed_text, generate_correlation_id_string}
use mindconnect_lib.CoreProcessor.Environment.{Environment}

-- `MCL_HTTP_POST` and `MCL_HTTP_PUT` of `E_MCL_HTTP_METHOD`.
abbrev pub http_post : ℕ
http_post = 2

abbrev pub http_put : ℕ
http_put = 3

-- A request that a function was given and hands back. It is lost in no call.
abbrev pub request_of : Result (Unit {0}) × Option HttpRequest → Result HttpRequest
request_of (err code, r) = err code
request_of (ok _, none) = err triggered_with_null
request_of (ok _, some r) = ok r

abbrev pub bearer_text : List ℕ → List ℕ
bearer_text token = literal "Bearer " ++ token

module _ {World : Type 0} (memory : Memory World) where
  unfoldable pub initialize_request : Action World HttpRequest
  initialize_request = do
    malloc memory
    list_code ← (λ w. let answer = Memory.list_answer memory w in (ok answer.0, answer.1))
    from_result (request_of (mcl_http_request_initialize true list_code))

  -- A parameter for which no memory is needed.
  unfoldable pub set_parameter : HttpRequest → Parameter → Action World HttpRequest
  set_parameter r value =
      from_result (request_of (mcl_http_request_set_parameter true (some r) (some value)))

  abbrev url_of : CString → Option Parameter
  url_of none = none
  url_of (some url) = some (parameter_url url)

  unfoldable pub set_url : HttpRequest → CString → Action World HttpRequest
  set_url r url =
      with_memory memory
        (λ allocated. request_of (mcl_http_request_set_parameter allocated (some r) (url_of url)))

  unfoldable pub add_line_to :
      HttpRequest → List ℕ → List ℕ → Bool × World → Result HttpRequest × World
  add_line_to r name value (false, w) =
      (request_of (mcl_http_request_add_header false (ok tt) (some r) (some name) (some value)), w)
  add_line_to r name value (true, w) =
      let answer = Memory.list_answer memory w in
      (
        request_of (mcl_http_request_add_header true answer.0 (some r) (some name) (some value)),
        answer.1,
      )

  unfoldable pub add_request_header : HttpRequest → List ℕ → List ℕ → Action World HttpRequest
  add_request_header r name value w = add_line_to r name value (Memory.allocate memory w)

  unfoldable pub auth_header : List ℕ → Action World (List ℕ)
  auth_header token_for_auth = do
    malloc memory
    from_result (
        printed_text (
          print_formatted_string (u32 (7 + string_util_strlen token_for_auth + 1))
            (bearer_text token_for_auth)))

module _ {World Double Int : Type 0} (environment : Environment World Double Int) where
  abbrev memory_of : Memory World
  memory_of = Platform.memory (Environment.platform environment)

  unfoldable pub correlation_id : Action World (List ℕ)
  correlation_id =
      generate_correlation_id_string (Platform.crypto (Environment.platform environment)) memory_of

  -- The request of `core_processor_register`, from the header of its authorization on.
  unfoldable pub registration_request : List ℕ → List ℕ → ℕ → CString → Action World HttpRequest
  registration_request payload token_for_auth http_method registration_uri = do
    auth_header_value ← auth_header memory_of token_for_auth
    r ← initialize_request memory_of
    r ← set_parameter memory_of r (parameter_method http_method)
    r ← set_url memory_of r registration_uri
    address ← gets (Environment.body_address environment)
    r ← set_parameter memory_of r (parameter_body address)
    r ← set_parameter memory_of r (parameter_body_size (string_util_strlen payload))
    r ← add_request_header memory_of r (literal "Content-Type") (literal "application/json")
    r ← add_request_header memory_of r (literal "Accept") (literal "application/json")
    r ← add_request_header memory_of r (literal "Authorization") auth_header_value
    correlation ← correlation_id
    add_request_header memory_of r (literal "Correlation-ID") correlation

  -- The request of `core_processor_get_access_token`.
  unfoldable pub access_token_request : List ℕ → CString → Action World HttpRequest
  access_token_request request_payload token_endpoint = do
    r ← initialize_request memory_of
    r ← set_parameter memory_of r (parameter_method http_post)
    r ← set_url memory_of r token_endpoint
    r ←
        add_request_header memory_of r (literal "Content-Type")
          (literal "application/x-www-form-urlencoded")
    correlation ← correlation_id
    r ← add_request_header memory_of r (literal "Correlation-ID") correlation
    address ← gets (Environment.body_address environment)
    r ← set_parameter memory_of r (parameter_body address)
    set_parameter memory_of r (parameter_body_size (string_util_strlen request_payload))
