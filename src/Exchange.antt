-- ===== src/Exchange.antt =====
-- The exchange of a store in mcl_connectivity/src/connectivity_processor.c: which of its items go
-- into the next request, the body of that request, and the loop over the requests.
pub mod Store
pub mod Add
pub mod Loop
pub mod Select
pub mod Body
pub mod Scan
pub mod Ends
pub mod Waiting
pub mod Complete
pub mod TextItems
mod Tests
