-- ===== src/Http/Request.antt =====
-- mcl_core/src/http_request.c: a request, its header lines and its parameters.
use mindconnect_lib.Base.{
  ℕ, ◌+◌, Bool, true, false, Option, none, some, List, [], ◌∷◌, ◌++◌, if◌then◌else◌, ltb,
}
use mindconnect_lib.Base.Text.{literal}
use mindconnect_lib.Base.Code.{
  Result, ok, err, triggered_with_null, out_of_memory, invalid_parameter,
}
use mindconnect_lib.StringUtil.{
  CString, string_util_strlen, print_formatted_string, string_util_reset,
}

-- Pointers to a body, a callback and its data are numbers; 0 is `MCL_NULL`.
abbrev pub Address : Type 0
Address = ℕ

-- `E_MCL_HTTP_METHOD`: `MCL_HTTP_GET` is 0, and `MCL_HTTP_END` is behind the last method.
abbrev pub http_get : ℕ
http_get = 0

abbrev pub http_end : ℕ
http_end = 9

pub record HttpRequest : Type 0 where
  pub header : List (List ℕ)
  pub payload : Address
  pub payload_size : ℕ
  pub method : ℕ
  pub uri : CString
  pub stream_callback : Address
  pub stream_data : Address

-- `E_MCL_HTTP_REQUEST_PARAMETER` with what `value` points to or is.
pub data Parameter : Type 0 where
  parameter_method : ℕ → Parameter
  parameter_url : List ℕ → Parameter
  parameter_body : Address → Parameter
  parameter_body_size : ℕ → Parameter
  parameter_stream_callback : Address → Parameter
  parameter_stream_data : Address → Parameter
  parameter_end : Parameter

unfoldable pub new_request : HttpRequest
new_request = record {
  header = [];
  payload = 0;
  payload_size = 0;
  method = http_get;
  uri = none;
  stream_callback = 0;
  stream_data = 0;
}

-- `allocated` is the answer for the request and `list_code` that of `mcl_list_initialize`.
unfoldable pub mcl_http_request_initialize :
    Bool → Result (Unit {0}) → Result (Unit {0}) × Option HttpRequest
mcl_http_request_initialize false list_code = (err out_of_memory, none)
mcl_http_request_initialize true (ok _) = (ok tt, some new_request)
mcl_http_request_initialize true (err code) = (err code, none)

-- What the format "%s: %s" makes of a name and a value.
abbrev pub header_text : List ℕ → List ℕ → List ℕ
header_text header_name header_value = header_name ++ (literal ": " ++ header_value)

-- The line goes to the end of the list, or is freed.
unfoldable pub add_line :
    HttpRequest → Result (Unit {0}) × List ℕ → Result (Unit {0}) → Result (Unit {0}) × HttpRequest
add_line http_request (err code, line) list_code = (err code, http_request)
add_line http_request (ok _, line) (err code) = (err code, http_request)
add_line http_request (ok _, line) (ok _) =
    (ok tt, record http_request { header = HttpRequest.header http_request ++ (line ∷ []) })

unfoldable pub add_header :
    Bool → Result (Unit {0}) → HttpRequest → List ℕ → List ℕ → Result (Unit {0}) × HttpRequest
add_header allocated list_code http_request header_name header_value =
    let header_line_length = string_util_strlen header_name + string_util_strlen header_value + 2 in
    if allocated
    then add_line http_request
        (print_formatted_string (header_line_length + 1) (header_text header_name header_value))
        list_code
    else (err out_of_memory, http_request)

-- `allocated` is the answer for the line and `list_code` that of `mcl_list_add`.
unfoldable pub mcl_http_request_add_header :
    Bool
    → Result (Unit {0})
    → Option HttpRequest
    → CString
    → CString
    → Result (Unit {0}) × Option HttpRequest
mcl_http_request_add_header allocated list_code none header_name header_value =
    (err triggered_with_null, none)
mcl_http_request_add_header allocated list_code (some r) none header_value =
    (err triggered_with_null, some r)
mcl_http_request_add_header allocated list_code (some r) (some header_name) none =
    (err triggered_with_null, some r)
mcl_http_request_add_header allocated list_code (some r) (some header_name) (some header_value) =
    let added = add_header allocated list_code r header_name header_value in (added.0, some added.1)

-- A `value` that is not `MCL_NULL`; for a body, a callback and its data the address is the value.
unfoldable pub set_value : Bool → HttpRequest → Parameter → Result (Unit {0}) × HttpRequest
set_value allocated r (parameter_method method) =
    if ltb method http_end
    then (ok tt, record r { method = method })
    else (err invalid_parameter, r)
set_value allocated r (parameter_url url) =
    let target = string_util_reset allocated url (HttpRequest.uri r) in
    (target.0, record r { uri = target.1 })
set_value allocated r (parameter_body body) =
    (ok tt, record r { payload = body; stream_callback = 0 })
set_value allocated r (parameter_body_size size) = (ok tt, record r { payload_size = size })
set_value allocated r (parameter_stream_callback callback) =
    (ok tt, record r { stream_callback = callback; payload = 0 })
set_value allocated r (parameter_stream_data data') = (ok tt, record r { stream_data = data' })
set_value allocated r parameter_end = (err invalid_parameter, r)

unfoldable pub mcl_http_request_set_parameter :
    Bool → Option HttpRequest → Option Parameter → Result (Unit {0}) × Option HttpRequest
mcl_http_request_set_parameter allocated none value = (err triggered_with_null, none)
mcl_http_request_set_parameter allocated (some r) none = (err triggered_with_null, some r)
mcl_http_request_set_parameter allocated (some r) (some value) =
    let set = set_value allocated r value in (set.0, some set.1)
