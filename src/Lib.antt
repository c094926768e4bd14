-- ===== src/Lib.antt =====
-- A model of spinfoam: an independent process that runs background loops as eBPF guests and speaks
-- JSON-RPC over its standard streams. The modules follow the files of src/.
--
-- Text: byte texts; Truncate has `truncate` of src/build/mod.rs, Order the order of strings, in which
--   a `BTreeMap` has its keys.
-- Json: `serde_json::Value` as the source takes it apart; numbers stay abstract.
-- Error: `RpcError` and the statuses of src/error.rs.
-- Outbox: src/outbox.rs. Queues has the state and the operations on encoded frames (`push_data`,
--   `remove_request`, `remove_object`, `next`), Frames those on values (`encode`, `control`,
--   `try_control`, `try_data`, `data`). An `async` method is cut at its awaits into a first part and
--   polls. Valid, Push, Remove, Next, Sound and History prove the invariant over any history of
--   calls, Fairness bounds the wait of an object, Lanes and Refines relate the calls to a view of
--   plain queues. Writing has the task of the writer of src/protocol.rs; Rounds, Taken and Drained
--   say what it writes and how it ends. It takes fuel, which is enough where it is more than the
--   number of queued frames.
-- Mailbox: `Mailbox` of src/runtime.rs, with its bounds, its order and its window of seen IDs
--   over any history of `deliver`, `receive` and `clear`.
-- Runtime: src/runtime.rs. Object has an object's states, its task and `stop`, Life the steps that
--   it can take, Reached what holds of every object that they lead to. Table and Stop have `Runtime`
--   with the table of objects, the host and the outbox, each `async` method cut at its waits; Steps
--   is the step relation of the whole. Owned, Clearing, Serials, Valid and Methods lead to Whole,
--   the invariant, and Ends says what is left when an object ends.
-- Build: src/build. Paths has `valid_path` and `virtual_path`, Requests the request, `validate` and
--   `compile`, Files the helpers of the compiler's guest over its memory-only files, Run has
--   `run` with them, and `compile` with it. Resolve and Accepted say what paths and requests get
--   through, Valid, Reading and History what the helpers keep over any calls of the guest.
-- Helpers: src/helpers.rs. Values has `valid_value`, Table the handles of `GuestContext`, Operations
--   and Encoded the helpers on values and bytes, Waiting those that sleep, wait, call the host or
--   log, Memory the clocks and `memcpy`, `memset`, `memcmp`. Handles, Kept and History prove the
--   table's invariant, RoundTrip that values put in are read back, Granted that calls need a
--   capability.
-- Host: src/host.rs. Calls has the pending calls of `Host`, with `call` cut at its awaits and the
--   drop of `CallGuard`; Once and History show that calls are answered at most once, Ends and
--   Cancelled what the end of a call and `cancel_object` leave.
-- Stdio: src/stdio.rs, with its flags and the loops of its polls; Polls says how they end and what
--   a read leaves in its buffer. The loops take fuel, which is enough
--   where it is more than the number of a round that ends them.
-- Protocol: src/protocol.rs. Framing has `frame`; Chunks and Lines say which lines the calls
--   read that run to their end, and `frame_dropped` what one leaves that the loop drops. Methods
--   has `Service` with `handle`, each method up to its await; Listing the pages of `sf.object.list`,
--   Following what follows an ID, Pages a client that goes through them. Serve has the
--   loop of `serve_with_config`: what a frame is, which requests are admitted, and their tasks. It
--   takes frames of any bytes, since a call of `frame` that is dropped loses those it read. Steps
--   is the step relation of the whole. Session treats `sf.initialize`,
--   Answers what becomes of a request, Shutdown `sf.shutdown`; Handles and Admission lead to Served,
--   the invariant, which has the runtime's in it.
--
-- Words: a `usize` or `u64` is a natural number. Additions stay far below 2 ^ 64 by the bounds
-- proved; `control_burst` counts frames, and would wrap after 2 ^ 64 of them. A subtraction wraps,
-- as in a release build.
-- Parameters: `to_vec` is serde_json's encoder and `from_i64` its conversion of an integer;
--   `lossy` and `is_utf8` are `String::from_utf8_lossy` and the test of `str::from_utf8`; the decoder
--   of a build request, SHA-256 and base64 are fields of `Builds`; `System` of Runtime/Table has what
--   the runtime calls, with the program loader, `Codec` of Protocol/Methods the derived decoders of
--   the methods' parameters.
-- Not modelled: the wake-ups by `Notify`, but for the list of those sent; timers; the wiring of
--   tasks by Tokio and its choice among the branches of a `select!`, with signals and the timeout of
--   the writer; async-ebpf; src/main.rs, src/lib.rs and build.rs, which are set-up; the
--   SDK and the guests, which are C.
mod Prelude
pub mod Text
pub mod Json
pub mod Error
pub mod Outbox
pub mod Mailbox
pub mod Build
pub mod Protocol
pub mod Helpers
pub mod Host
pub mod Runtime
pub mod Stdio
mod Tests
