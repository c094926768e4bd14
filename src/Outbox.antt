-- ===== src/Outbox.antt =====
-- src/outbox.rs: bounded output with reserved control capacity and round-robin object queues.
-- An `Outbox` value is what its clones share. The `await`s of `control`, `data` and `next` cut them
-- into polls, each of which runs one round of the method's loop with no other task in between.
-- `to_vec` is `serde_json::to_vec`, a parameter.
pub mod Queues
pub mod Frames
pub mod Valid
pub mod Push
pub mod Remove
pub mod Next
pub mod Fairness
pub mod Sound
pub mod Shrinks
pub mod History
pub mod Lanes
pub mod Refines
pub mod Rounds
pub mod Writing
pub mod Taken
pub mod Drained
