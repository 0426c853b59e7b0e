-- ===== src/Collections.antt =====
-- collections.go, one child for each part: the items of a request, the split into bounded requests,
-- the operations that send them, and the streams that are read back.
pub mod Split
pub mod Items
pub mod Create
pub mod Add
pub mod Streams
pub mod Limits
pub mod Received
pub mod Chunked
pub mod Acknowledged
pub mod Counts
