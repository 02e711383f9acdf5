-- ===== src/Http.antt =====
-- HTTP requests and responses of the core: mcl_core/src/http_request.c and http_response.c. Of a list of
-- header lines the lines are kept in their order; what `mcl_list_add` answers is an argument.
pub mod Request
pub mod Response
pub mod Headers
pub mod Parameters
mod Tests
