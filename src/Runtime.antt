-- ===== src/Runtime.antt =====
-- src/runtime.rs: the life of an object, from its load to its end, and the table of all objects with
-- the host and the outbox that they share.
pub mod Object
pub mod Life
pub mod Reached
pub mod Table
pub mod Stop
pub mod Owned
pub mod Clearing
pub mod Steps
pub mod Serials
pub mod Valid
pub mod Whole
pub mod Methods
pub mod Ends
