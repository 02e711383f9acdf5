-- ===== src/Connectivity.antt =====
-- mcl_connectivity/src/connectivity_processor.c around the exchange of a store: the requests, what
-- becomes of their responses, the exchange of a single item, and the mappings.
pub mod Processor
pub mod Correlation
pub mod Request
pub mod Body
pub mod Mapping
pub mod CustomData
pub mod Configuration
pub mod Facade
mod Tests
