-- ===== src/Connectivity/Request/Accepted.antt =====
-- The whole exchange of a store of mcl_connectivity/src/connectivity_processor.c where the server
-- accepts every request.
use mindconnect_lib.Base.{
  ℕ, suc, ◌≤◌, ◌≡◌, refl, ap, ◌∙◌, true, some, List, [], ◌∷◌, ◌++◌, All, take, length, map,
}
use mindconnect_lib.Base.Code.{ok}
use mindconnect_lib.Base.Action.{Memory}
use mindconnect_lib.LinkedList.{size_max}
use mindconnect_lib.Http.Request.{
  HttpRequest, new_request, set_value, mcl_http_request_set_parameter,
}
use mindconnect_lib.Http.Response.{HttpResponse}
use mindconnect_lib.Multipart.Tuple.{boundary_character, multipart_generate_boundary}
use mindconnect_lib.Security.Crypto.{Crypto}
use mindconnect_lib.CoreProcessor.Request.{set_parameter}
use mindconnect_lib.CoreProcessor.Request.Composed.{
  hex_text, initialize_request_lem, set_url_lem, add_request_header_lem,
}
use mindconnect_lib.Exchange.Store.{StoreItem, Composer}
use mindconnect_lib.Exchange.Body.{Exact}
use mindconnect_lib.Exchange.Waiting.{Waiting}
use mindconnect_lib.Exchange.Complete.{Willing, exchange_store_complete}
use mindconnect_lib.Connectivity.Processor.{ConnectivityProcessor, Surroundings}
use mindconnect_lib.Connectivity.Correlation.{
  correlation_id_buffer_length, correlation_id_string-hex_text,
}
use mindconnect_lib.Connectivity.Body.{store, connectivity_processor_exchange}
use mindconnect_lib.Connectivity.Request.{
  memory_of, crypto_of, evaluate_response_for_exchange, transmit, generate_boundary,
  exchange_client, exchange_request, add_http_headers_for_exchange, generate_correlation_id_string,
  correlation_text,
}
use mindconnect_lib.Connectivity.Request.Composed.{mixed_header_lem, authorization_header_lem}

map-length : (f : ℕ → ℕ) (xs : List ℕ) → length (map f xs) ≡ length xs
map-length f [] = refl
map-length f (x ∷ xs) = ap suc (map-length f xs)

-- Surroundings in which nothing fails: there is memory, every asked number of random bytes, and an
-- answer with status 200 to every request.
pub record Favourable {World Double Int : Type 0} (surroundings : Surroundings World Double Int)
    : Type 0 where
  pub enough : (w : World) → (Memory.allocate (memory_of surroundings) w).0 ≡ true
  pub listed : (w : World) → (Memory.list_answer (memory_of surroundings) w).0 ≡ ok tt
  pub random :
      (size : ℕ) (w : World)
      → (bytes : List ℕ) × ((Crypto.security_generate_random_bytes
            (crypto_of surroundings)
            size
            w).0
          ≡ ok bytes)
        × (length bytes ≡ size)
  pub answered :
      (request : HttpRequest) (body : List ℕ) (w : World)
      → (response : HttpResponse) × ((Surroundings.mcl_http_client_send surroundings request body
            w).0
          ≡ ok response)
        × (HttpResponse.status_code response ≡ 200)

module _ {World Double Int : Type 0} (surroundings : Surroundings World Double Int)
    (favourable : Favourable surroundings) (processor : ConnectivityProcessor)
    (uninitialized token url : List ℕ) (fits : length uninitialized ≡ correlation_id_buffer_length)
    (authorized : ConnectivityProcessor.access_token processor ≡ some token)
    (addressed : ConnectivityProcessor.exchange_url processor ≡ some url) where
  correlation_lem :
      (w : World)
      → (generate_correlation_id_string surroundings uninitialized w).0
        ≡ ok (take 32 (hex_text (Favourable.random favourable 16 w).0 ++ (0 ∷ [])))
  unfolding generate_correlation_id_string correlation_text
  correlation_lem w =
      let r = Favourable.random favourable 16 w in
      rw (r.1, correlation_id_string-hex_text uninitialized r.0 fits r.2) refl

  answered_ok :
      (request : HttpRequest) (body : List ℕ) (w : World)
      → (Surroundings.mcl_http_client_send surroundings request body w).0
        ≡ ok (Favourable.answered favourable request body w).0
  answered_ok request body w = (Favourable.answered favourable request body w).1

  status_ok :
      (request : HttpRequest) (body : List ℕ) (w : World)
      → HttpResponse.status_code (Favourable.answered favourable request body w).0 ≡ 200
  status_ok request body w = (Favourable.answered favourable request body w).2

  accepted_lem :
      (boundary body : List ℕ) (w : World)
      → (transmit surroundings processor uninitialized boundary body w).0 ≡ ok tt
  unfolding transmit exchange_request add_http_headers_for_exchange set_parameter
      mcl_http_request_set_parameter set_value new_request evaluate_response_for_exchange
  accepted_lem boundary body w =
      let memory = memory_of surroundings in
      let enough = Favourable.enough favourable in
      let listed = Favourable.listed favourable in
      rw
        (
          initialize_request_lem memory enough listed,
          addressed,
          set_url_lem memory enough listed,
          authorized,
          mixed_header_lem memory enough listed,
          add_request_header_lem memory enough listed,
          authorization_header_lem memory enough listed,
          correlation_lem,
          add_request_header_lem memory enough listed,
          answered_ok,
          status_ok,
        )
        refl

  exchange_client-Willing : Willing (exchange_client surroundings processor uninitialized)
  unfolding exchange_client generate_boundary multipart_generate_boundary
  exchange_client-Willing = record {
    bounded = λ w.
        let memory = Memory.allocate (memory_of surroundings) w in
        let r = Favourable.random favourable 20 memory.1 in
        (
          map boundary_character r.0,
          rw (Favourable.enough favourable w, r.1) refl,
          map-length boundary_character r.0 ∙ r.2,
        );
    allocated = Favourable.enough favourable;
    accepted = accepted_lem;
  }

  -- In surroundings where nothing fails, with an access token and the address of the exchange, and a
  -- composer that writes an item in as many bytes as it reckons, the exchange of a store in which each
  -- item waits for its upload, fits into a request by itself and takes room uploads all of it: it
  -- returns `MCL_OK` and leaves no item, after at most one request more than there are items.
  pub connectivity_processor_exchange_complete :
      {Item : Type 0} (composer : Composer Item) (maximum : ℕ) (i : StoreItem Item)
      (items : List (StoreItem Item)) (w : World)
      → Exact composer
      → maximum ≤ size_max
      → All (Waiting composer maximum) (i ∷ items)
      → (w1 : World) × (connectivity_processor_exchange composer
            (exchange_client surroundings processor uninitialized)
            maximum
            (suc (length (i ∷ items)))
            true
            (store (i ∷ items))
            w
          ≡ some (ok tt, [], w1))
  unfolding connectivity_processor_exchange
  connectivity_processor_exchange_complete composer maximum i items w exact small waiting =
      exchange_store_complete composer maximum exact
        (exchange_client surroundings processor uninitialized) exchange_client-Willing i items w
        small waiting
