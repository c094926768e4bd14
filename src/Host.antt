-- ===== src/Host.antt =====
-- src/host.rs: the calls that guests make to the host, and what answers or ends them.
pub mod Calls
pub mod Once
pub mod History
pub mod Ends
pub mod Cancelled
