-- ===== src/Http/Headers.antt =====
-- A header line that http_request.c composes, as http_response.c reads it.
use mindconnect_lib.Base.{
  ℕ, suc, ◌+◌, ◌-◌, ◌≡◌, ◌↔◌, refl, ap, ◌∙◌, true, false, none, some, List, [], ◌∷◌, ◌++◌, length,
  length-append, get_or, drop, All, ◌==◌, arith,
}
use mindconnect_lib.Base.Code.{ok}
use mindconnect_lib.StringUtil.{string_util_strlen, string_util_find_case_insensitive}
use mindconnect_lib.StringUtil.Copy.{print_formatted_string-whole, take_all}
use mindconnect_lib.StringUtil.Prefix.{
  string_util_find_case_insensitive_prefix, string_util_find-first,
}
use mindconnect_lib.Http.Request.{
  HttpRequest, header_text, add_line, add_header, mcl_http_request_add_header,
}
use mindconnect_lib.Http.Response.{
  HttpResponse, header_value, found_value, get_header_loop, mcl_http_response_get_header,
  status_result, mcl_http_response_get_status,
}

pub mcl_http_request_add_header-append :
    (r : HttpRequest) (header_name header_value : List ℕ)
    → mcl_http_request_add_header true (ok tt) (some r) (some header_name) (some header_value) ≡ (
      ok tt,
      some (record r {
        header = HttpRequest.header r ++ (header_text header_name header_value ∷ []);
      }),
    )
unfolding mcl_http_request_add_header add_header add_line string_util_strlen
mcl_http_request_add_header-append r header_name header_value =
    let text : List ℕ = header_text header_name header_value in
    let n : length text ≡ length header_name + length header_value + 2 =
      omega (arith, length-append header_name (58 ∷ 32 ∷ header_value)) in
    rw
      (print_formatted_string-whole (length header_name + length header_value + 2 + 1) text
        (omega (arith, n)) (omega (arith, n)))
      refl

drop-append_self : (xs ys : List ℕ) (k : ℕ) → drop (length xs + k) (xs ++ ys) ≡ drop k ys
drop-append_self [] ys k = let e : 0 + k ≡ k = omega arith in rw e refl
drop-append_self (x ∷ xs) ys k =
    let e : suc (length xs) + k ≡ suc (length xs + k) = omega arith in
    rw e (drop-append_self xs ys k)

get_or-behind : (xs ys : List ℕ) (c : ℕ) → get_or (xs ++ (c ∷ (32 ∷ ys))) (length xs + 1) 0 ≡ 32
get_or-behind [] ys c = refl
get_or-behind (x ∷ xs) ys c =
    let e : suc (length xs) + 1 ≡ suc (length xs + 1) = omega arith in rw e (get_or-behind xs ys c)

header_value-header_text :
    (name value : List ℕ) (found : ℕ)
    → All (λ x. (x == 58) ≡ false) name
    → header_value true (header_text name value) found ≡ ok value
unfolding header_value string_util_strlen
header_value-header_text name value found no_colon =
    let line : List ℕ = header_text name value in
    let n : length line ≡ length name + 2 + length value =
      omega (arith, length-append name (58 ∷ 32 ∷ value)) in
    let width : length line - (length name + 1) - 1 ≡ length value = omega (arith, n) in
    let at : length name + 1 + 1 ≡ length name + 2 = omega arith in
    rw
      (
        string_util_find-first 58 name (32 ∷ value) no_colon,
        get_or-behind name value 58,
        width,
        at,
        drop-append_self name (58 ∷ 32 ∷ value) 2,
      )
      (ap ok (take_all (length value) value (omega arith)))

-- The lines before the first one that the name is found in are passed over.
get_header_loop-behind :
    (before lines : List (List ℕ)) (name : List ℕ)
    → All (λ l. string_util_find_case_insensitive l name ≡ none) before
    → get_header_loop true (before ++ lines) name ≡ get_header_loop true lines name
unfolding get_header_loop found_value
get_header_loop-behind [] lines name h = refl
get_header_loop-behind (l ∷ before) lines name h =
    rw h.0 (get_header_loop-behind before lines name h.1)

get_header_loop-hit :
    (c : ℕ) (name value : List ℕ) (lines : List (List ℕ))
    → All (λ x. (x == 58) ≡ false) (c ∷ name)
    → get_header_loop true (header_text (c ∷ name) value ∷ lines) (c ∷ name) ≡ ok value
unfolding get_header_loop found_value
get_header_loop-hit c name value lines no_colon =
    rw (string_util_find_case_insensitive_prefix c name (58 ∷ 32 ∷ value))
      (header_value-header_text (c ∷ name) value 0 no_colon)

-- Where a request's line "name: value" stands among the lines of a response, and no line before it has the
-- name anywhere in it, `mcl_http_response_get_header` returns the value. The name is not empty and has
-- no colon.
pub mcl_http_response_get_header-header_text :
    (r : HttpResponse) (before after : List (List ℕ)) (c : ℕ) (name value : List ℕ)
    → HttpResponse.header r ≡ before ++ (header_text (c ∷ name) value ∷ after)
    → All (λ x. (x == 58) ≡ false) (c ∷ name)
    → All (λ l. string_util_find_case_insensitive l (c ∷ name) ≡ none) before
    → mcl_http_response_get_header true (some r) (some (c ∷ name)) ≡ ok value
unfolding mcl_http_response_get_header
mcl_http_response_get_header-header_text r before after c name value lines no_colon first =
    ap (λ l. get_header_loop true l (c ∷ name)) lines
    ∙ (get_header_loop-behind before (header_text (c ∷ name) value ∷ after) (c ∷ name) first
        ∙ get_header_loop-hit c name value after no_colon)

-- Of all status codes only 200 gives `MCL_OK`.
pub mcl_http_response_get_status_iff :
    (r : HttpResponse)
    → (mcl_http_response_get_status (some r) ≡ ok tt) ↔ (HttpResponse.status_code r ≡ 200)
unfolding mcl_http_response_get_status status_result
mcl_http_response_get_status_iff r = ground arith
