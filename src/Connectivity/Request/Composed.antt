-- ===== src/Connectivity/Request/Composed.antt =====
-- The whole request that mcl_connectivity/src/connectivity_processor.c composes for an exchange.
use mindconnect_lib.Base.{
  ℕ, ◌+◌, ◌≡◌, true, some, List, [], ◌∷◌, ◌++◌, length, length-append, arith,
}
use mindconnect_lib.Base.Text.{literal}
use mindconnect_lib.Base.Code.{ok}
use mindconnect_lib.Base.Action.{Memory}
use mindconnect_lib.Base.Yields.{Yields}
use mindconnect_lib.StringUtil.{string_util_strlen, string_util_concatenate}
use mindconnect_lib.StringUtil.Copy.{print_formatted_string-whole}
use mindconnect_lib.Http.Request.{HttpRequest, header_text}
use mindconnect_lib.Security.Crypto.{Crypto}
use mindconnect_lib.Security.Random.{printed_text}
use mindconnect_lib.CoreProcessor.Request.{bearer_text}
use mindconnect_lib.CoreProcessor.Request.Composed.{add_request_header_lem}
use mindconnect_lib.Connectivity.Request.{
  multipart_mixed_text, add_multipart_mixed_content_type_header, add_authorization_header,
}

module _ {World : Type 0} (memory : Memory World)
    (enough : (w : World) → (Memory.allocate memory w).0 ≡ true)
    (listed : (w : World) → (Memory.list_answer memory w).0 ≡ ok tt) where
  pub mixed_header_lem :
      (r : HttpRequest) (boundary : List ℕ)
      → Yields (add_multipart_mixed_content_type_header memory r boundary) (record r {
        header =
            HttpRequest.header r
            ++ (header_text (literal "Content-Type") (multipart_mixed_text boundary) ∷ []);
      })
  unfolding add_multipart_mixed_content_type_header printed_text string_util_strlen
  mixed_header_lem r boundary w =
      let text : length (multipart_mixed_text boundary) ≡ length boundary + 39 =
        omega (arith, length-append boundary (literal ";charset=utf-8")) in
      rw
        (
          enough w,
          print_formatted_string-whole (15 + length boundary + 24 + 1)
              (multipart_mixed_text boundary) (omega (arith, text)) (omega (arith, text)),
        )
        (add_request_header_lem memory enough listed r (literal "Content-Type")
          (multipart_mixed_text boundary) _)

  pub authorization_header_lem :
      (r : HttpRequest) (token : List ℕ)
      → Yields (add_authorization_header memory r (some token)) (record r {
        header =
            HttpRequest.header r
            ++ (header_text (literal "Authorization") (bearer_text token) ∷ []);
      })
  unfolding add_authorization_header string_util_concatenate
  authorization_header_lem r token w = rw (enough w) (
      add_request_header_lem memory enough listed r (literal "Authorization") (bearer_text token) _)
