-- ===== src/Security.antt =====
-- What an agent signs with, in mcl_core/src: hmac.c, random.c, jwt.c and security_handler.c. The
-- functions of security.h, on OpenSSL or mbed TLS, are fields of `Crypto`.
pub mod Crypto
pub mod Hmac
pub mod Reference
pub mod Random
pub mod Guid
pub mod Handler
pub mod Jwt
pub mod Token
pub mod Samples
mod Tests
