-- ===== src/Multipart.antt =====
-- mcl_connectivity/src/multipart.c: one multipart tuple (meta and payload of an item) is composed
-- into a buffer by a loop over 19 states. `*buffer_size` is the free room from `buffer` on.
pub mod States
pub mod Copy
pub mod Tuple
pub mod Message
pub mod Step
pub mod Lines
pub mod Round
pub mod Compose
pub mod Size
pub mod Payload
mod Tests
