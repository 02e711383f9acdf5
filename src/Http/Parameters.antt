-- ===== src/Http/Parameters.antt =====
-- The parameters of a request in http_request.c: a body and a stream callback exclude each other, which
-- the HTTP clients rely on.
use mindconnect_lib.Base.{
  ℕ, ◌≡◌, refl, Bool, true, false, Bool-cases, Option, none, some, ◌⊎◌, inl, inr, ltb,
}
use mindconnect_lib.Base.Code.{Result, ok, err}
use mindconnect_lib.Http.Request.{
  HttpRequest, Parameter, parameter_method, parameter_url, parameter_body, parameter_body_size,
  parameter_stream_callback, parameter_stream_data, parameter_end, new_request, set_value,
  mcl_http_request_initialize, mcl_http_request_set_parameter,
}

-- At most one of the two is there.
abbrev pub Exclusive : HttpRequest → Type 0
Exclusive r = (HttpRequest.payload r ≡ 0) ⊎ (HttpRequest.stream_callback r ≡ 0)

abbrev pub ExclusiveOption : Option HttpRequest → Type 0
ExclusiveOption none = Unit
ExclusiveOption (some r) = Exclusive r

set_method-Exclusive :
    (allocated : Bool) (r : HttpRequest) (method : ℕ)
    → Exclusive r
    → Exclusive (set_value allocated r (parameter_method method)).1
unfolding set_value
set_method-Exclusive allocated r method h = elim (Bool-cases (ltb method 9)) [
  | inl e ↦ rw e h
  | inr e ↦ rw e h
]

set_value-Exclusive :
    (allocated : Bool) (r : HttpRequest) (value : Parameter)
    → Exclusive r
    → Exclusive (set_value allocated r value).1
unfolding set_value
set_value-Exclusive allocated r (parameter_method method) h =
    set_method-Exclusive allocated r method h
set_value-Exclusive allocated r (parameter_url url) h = h
set_value-Exclusive allocated r (parameter_body body) h = inr refl
set_value-Exclusive allocated r (parameter_body_size size) h = h
set_value-Exclusive allocated r (parameter_stream_callback callback) h = inl refl
set_value-Exclusive allocated r (parameter_stream_data data') h = h
set_value-Exclusive allocated r parameter_end h = h

-- A new request has neither a body nor a stream callback, and no call of
-- `mcl_http_request_set_parameter`, failed ones included, leaves a request with both that had not
-- both before.
pub mcl_http_request_set_parameter-Exclusive :
    (allocated : Bool) (list_code : Result (Unit {0})) (r : Option HttpRequest)
    (value : Option Parameter)
    → ExclusiveOption r
    → ExclusiveOption (mcl_http_request_initialize allocated list_code).1
      × ExclusiveOption (mcl_http_request_set_parameter allocated r value).1
unfolding mcl_http_request_initialize mcl_http_request_set_parameter new_request
mcl_http_request_set_parameter-Exclusive allocated list_code r value h =
    (initialized allocated list_code, set r value h)
  where
    initialized :
        (allocated : Bool) (list_code : Result (Unit {0}))
        → ExclusiveOption (mcl_http_request_initialize allocated list_code).1
    initialized false list_code = tt
    initialized true (ok _) = inl refl
    initialized true (err code) = tt

    set :
        (r : Option HttpRequest) (value : Option Parameter)
        → ExclusiveOption r
        → ExclusiveOption (mcl_http_request_set_parameter allocated r value).1
    set none value h = tt
    set (some r) none h = h
    set (some r) (some value) h = set_value-Exclusive allocated r value h
