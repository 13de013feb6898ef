-- ===== src/Tests.antt =====
-- The theorems at concrete inputs.
pub mod Data
pub mod Buffers
pub mod Protocol
pub mod FrontEnd
pub mod Node
pub mod Util
pub mod Clients
pub mod Service
pub mod Threads
pub mod Starts
