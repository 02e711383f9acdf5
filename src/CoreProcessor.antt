-- ===== src/CoreProcessor.antt =====
-- mcl_core/src/core_processor.c: how an agent registers itself, rotates and updates its credentials,
-- and asks for access tokens. The HTTP client, the callbacks of the program and the libraries are
-- fields of `Environment`; every function takes and returns the state `CoreProcessor`.
pub mod Environment
pub mod Keeps
pub mod Request
pub mod Payload
pub mod Response
pub mod Register
pub mod Update
pub mod AccessToken
pub mod Initialize
mod Tests
