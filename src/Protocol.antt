-- ===== src/Protocol.antt =====
-- What the two programs say to one another: what one writes the other reads.
pub mod Requests
pub mod Answers
pub mod Report
pub mod Registration
pub mod Joining
pub mod Session
