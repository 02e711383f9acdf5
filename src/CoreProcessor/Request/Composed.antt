-- ===== src/CoreProcessor/Request/Composed.antt =====
-- The whole request that mcl_core/src/core_processor.c composes for a registration.
use mindconnect_lib.Base.{ℕ, ◌≡◌, refl, Bool, true, false, some, List, [], ◌∷◌, ◌++◌}
use mindconnect_lib.Base.Code.{ok}
use mindconnect_lib.Base.Action.{Memory}
use mindconnect_lib.Base.Yields.{Yields}
use mindconnect_lib.StringUtil.{string_util_reset, string_util_strdup}
use mindconnect_lib.Http.Request.{
  HttpRequest, new_request, header_text, set_value, mcl_http_request_initialize,
  mcl_http_request_set_parameter,
}
use mindconnect_lib.Http.Headers.{mcl_http_request_add_header-append}
use mindconnect_lib.Security.Crypto.{Crypto}
use mindconnect_lib.Security.Random.{hex}
use mindconnect_lib.CoreProcessor.Environment.{Environment}
use mindconnect_lib.CoreProcessor.Request.{
  initialize_request, set_url, add_line_to, add_request_header,
}

-- Two hexadecimal digits for each byte.
abbrev pub hex_text : List ℕ → List ℕ
hex_text [] = []
hex_text (byte ∷ bytes) = hex 2 byte ++ hex_text bytes

module _ {World : Type 0} (memory : Memory World)
    (enough : (w : World) → (Memory.allocate memory w).0 ≡ true)
    (listed : (w : World) → (Memory.list_answer memory w).0 ≡ ok tt) where
  pub initialize_request_lem : Yields (initialize_request memory) new_request
  unfolding initialize_request mcl_http_request_initialize
  initialize_request_lem w = rw (enough w, listed) refl

  pub set_url_lem :
      (r : HttpRequest) (url : List ℕ)
      → Yields (set_url memory r (some url)) (record r { uri = some url })
  unfolding set_url mcl_http_request_set_parameter set_value string_util_reset string_util_strdup
  set_url_lem r url w = rw (enough w) refl

  add_line_to_lem :
      (r : HttpRequest) (name value : List ℕ) (answer : Bool × World)
      → answer.0 ≡ true
      → (add_line_to memory r name value answer).0
        ≡ ok (record r { header = HttpRequest.header r ++ (header_text name value ∷ []) })
  unfolding add_line_to
  add_line_to_lem r name value (true, w) h =
      rw (listed w, mcl_http_request_add_header-append r name value) refl
  add_line_to_lem r name value (false, w) h = absurd (cc)

  pub add_request_header_lem :
      (r : HttpRequest) (name value : List ℕ)
      → Yields
          (add_request_header memory r name value)
          (record r { header = HttpRequest.header r ++ (header_text name value ∷ []) })
  unfolding add_request_header
  add_request_header_lem r name value w =
      add_line_to_lem r name value (Memory.allocate memory w) (enough w)
