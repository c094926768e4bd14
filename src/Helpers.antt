-- ===== src/Helpers.antt =====
-- src/helpers.rs: the values that a guest may hold, its table of handles, and the helpers on them.
pub mod Values
pub mod Table
pub mod Operations
pub mod Encoded
pub mod Handles
pub mod Waiting
pub mod Kept
pub mod History
pub mod RoundTrip
pub mod Granted
pub mod Memory
