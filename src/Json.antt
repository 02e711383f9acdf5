-- ===== src/Json.antt =====
-- mcl_core/src/json_util.c: JSON documents, on the cJSON library. A node is its address; what cJSON
-- keeps behind it is part of the state `World`, and each call of cJSON is a field of `CJson`.
pub mod Library
pub mod Read
pub mod Build
pub mod Checked
