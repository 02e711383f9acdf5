-- ===== src/Http/Response.antt =====
-- mcl_core/src/http_response.c: the header lines and the status of a response.
use mindconnect_lib.Base.{
  ℕ, ◌+◌, ◌-◌, Bool, true, false, Option, none, some, List, [], ◌∷◌, if◌then◌else◌, ◌==◌, get_or,
  take, drop,
}
use mindconnect_lib.Base.Code.{
  Result, ok, err, fail, triggered_with_null, out_of_memory, created, partial_content, bad_request,
  unauthorized, forbidden, not_found, conflict, precondition_fail, request_payload_too_large,
  too_many_requests, server_fail, unexpected_result_code,
}
use mindconnect_lib.StringUtil.{
  CString, string_util_strlen, string_util_find, string_util_find_case_insensitive,
}

pub record HttpResponse : Type 0 where
  pub header : List (List ℕ)
  pub payload : List ℕ
  pub payload_size : ℕ
  pub status_code : ℕ

-- `*start_index` after a search, which only a hit changes.
abbrev pub index_after : Option ℕ → ℕ → ℕ
index_after none index = index
index_after (some found) index = found

-- The value in a header line in which the name was found at `found`.
unfoldable pub header_value : Bool → List ℕ → ℕ → Result (List ℕ)
header_value allocated header found =
    let colon = index_after (string_util_find header (58 ∷ [])) found in
    let index = if get_or header (colon + 1) 0 == 32 then colon + 1 else colon in
    let value_length = string_util_strlen header - index - 1 in
    if allocated then ok (take value_length (drop (index + 1) header)) else err out_of_memory

-- The loop over the list; at its end `mcl_list_next` fails.
unfoldable pub found_value : Bool → List ℕ → Option ℕ → Result (List ℕ) → Result (List ℕ)
found_value allocated header none rest = rest
found_value allocated header (some index) rest = header_value allocated header index

unfoldable pub get_header_loop : Bool → List (List ℕ) → List ℕ → Result (List ℕ)
get_header_loop allocated [] header_name = err fail
get_header_loop allocated (header ∷ lines) header_name =
    found_value allocated header (string_util_find_case_insensitive header header_name)
      (get_header_loop allocated lines header_name)

unfoldable pub mcl_http_response_get_header : Bool → Option HttpResponse → CString → Result (List ℕ)
mcl_http_response_get_header allocated none header_name = err triggered_with_null
mcl_http_response_get_header allocated (some r) none = err triggered_with_null
mcl_http_response_get_header allocated (some r) (some header_name) =
    get_header_loop allocated (HttpResponse.header r) header_name

-- The `switch` over the status codes.
unfoldable pub status_result : ℕ → Result (Unit {0})
status_result status_code =
    if status_code == 200
    then ok tt
    else if status_code == 201
    then err created
    else if status_code == 206
    then err partial_content
    else if status_code == 400
    then err bad_request
    else if status_code == 401
    then err unauthorized
    else if status_code == 403
    then err forbidden
    else if status_code == 404
    then err not_found
    else if status_code == 409
    then err conflict
    else if status_code == 412
    then err precondition_fail
    else if status_code == 413
    then err request_payload_too_large
    else if status_code == 429
    then err too_many_requests
    else if status_code == 500
    then err server_fail
    else err unexpected_result_code

unfoldable pub mcl_http_response_get_status : Option HttpResponse → Result (Unit {0})
mcl_http_response_get_status none = err triggered_with_null
mcl_http_response_get_status (some r) = status_result (HttpResponse.status_code r)

-- `header` is `none` for a list that is `MCL_NULL`.
unfoldable pub mcl_http_response_initialize :
    Bool → Option (List (List ℕ)) → List ℕ → ℕ → ℕ → Result HttpResponse
mcl_http_response_initialize allocated none payload payload_size status_code =
    err triggered_with_null
mcl_http_response_initialize false (some header) payload payload_size status_code =
    err out_of_memory
mcl_http_response_initialize true (some header) payload payload_size status_code = ok (record {
  header = header;
  payload = payload;
  payload_size = payload_size;
  status_code = status_code;
})
