-- ===== src/Protocol.antt =====
-- src/protocol.rs: the framing of the input, and the admission of requests.
pub mod Framing
pub mod Listing
pub mod Methods
pub mod Serve
pub mod Steps
pub mod Handles
pub mod Session
pub mod Admission
pub mod Served
pub mod Answers
pub mod Shutdown
