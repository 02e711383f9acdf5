-- ===== src/Http/Tests.antt =====
-- Runs of http_request.c and http_response.c, and their theorems at concrete inputs.
use mindconnect_lib.Base.{ℕ, ◌≡◌, ◌↔◌, refl, true, none, some, List, [], ◌∷◌, inl}
use mindconnect_lib.Base.Text.{literal}
use mindconnect_lib.Base.Code.{ok, err, fail}
use mindconnect_lib.StringUtil.{
  advance, find_loop, find_by, string_util_strlen, string_util_find,
  string_util_find_case_insensitive,
}
use mindconnect_lib.Http.Request.{
  parameter_body, new_request, header_text, mcl_http_request_initialize,
  mcl_http_request_set_parameter,
}
use mindconnect_lib.Http.Response.{
  HttpResponse, header_value, found_value, get_header_loop, mcl_http_response_get_header,
  mcl_http_response_get_status,
}
use mindconnect_lib.Http.Headers.{
  mcl_http_response_get_header-header_text, mcl_http_response_get_status_iff,
}
use mindconnect_lib.Http.Parameters.{ExclusiveOption, mcl_http_request_set_parameter-Exclusive}

abbrev with_lines : List (List ℕ) → HttpResponse
with_lines lines = record { header = lines; payload = []; payload_size = 0; status_code = 200 }

-- The name is found inside the value of another line, and that value is returned.
name_in_value :
    mcl_http_response_get_header true
      (some (with_lines (literal "Note: see etag" ∷ literal "ETag: 5" ∷ [])))
      (some (literal "ETag"))
    ≡ ok (literal "see etag")
unfolding mcl_http_response_get_header get_header_loop found_value header_value string_util_strlen
    string_util_find string_util_find_case_insensitive find_by find_loop advance
name_in_value = refl

no_header :
    mcl_http_response_get_header true (some (with_lines [])) (some (literal "ETag")) ≡ err fail
unfolding mcl_http_response_get_header get_header_loop
no_header = refl

not_in_length : string_util_find_case_insensitive (literal "Length: 5") (literal "ETag") ≡ none
unfolding string_util_find_case_insensitive find_by find_loop advance
not_in_length = refl

mcl_http_response_get_header-header_text_example :
    mcl_http_response_get_header true
      (some (with_lines (literal "Length: 5" ∷ header_text (literal "ETag") (literal "a:b") ∷ [])))
      (some (literal "ETag"))
    ≡ ok (literal "a:b")
mcl_http_response_get_header-header_text_example =
    mcl_http_response_get_header-header_text
      (with_lines (literal "Length: 5" ∷ header_text (literal "ETag") (literal "a:b") ∷ []))
      (literal "Length: 5" ∷ []) [] 69 (literal "Tag") (literal "a:b") refl
      (refl, (refl, (refl, (refl, tt)))) (not_in_length, tt)

mcl_http_response_get_status_iff_example :
    (mcl_http_response_get_status (some (with_lines [])) ≡ ok tt)
    ↔ (HttpResponse.status_code (with_lines []) ≡ 200)
mcl_http_response_get_status_iff_example = mcl_http_response_get_status_iff (with_lines [])

nothing_set : ExclusiveOption (some new_request)
unfolding new_request
nothing_set = inl refl

mcl_http_request_set_parameter-Exclusive_example :
    ExclusiveOption (mcl_http_request_initialize true (ok tt)).1
    × ExclusiveOption
        (mcl_http_request_set_parameter true (some new_request) (some (parameter_body 7))).1
mcl_http_request_set_parameter-Exclusive_example =
    mcl_http_request_set_parameter-Exclusive true (ok tt) (some new_request)
      (some (parameter_body 7)) nothing_set
