-- ===== src/Runtime/Steps.antt =====
-- The whole of `Runtime` in src/runtime.rs as a step relation: its methods, the tasks of its objects,
-- and what the guests, the readers and the writer do to the host and the outbox.
use spinfoam.Prelude.{
  ℕ, ◌≤◌, ◌≡◌, Bool, true, List, [], Option, some, Result, lookup, count, ℕ_discrete,
}
use spinfoam.Text.{Text, text_discrete}
use spinfoam.Json.{Value}
use spinfoam.Error.{RpcResult}
use spinfoam.Mailbox.{Mailbox}
use spinfoam.Helpers.Table.{Capability}
use spinfoam.Outbox.Queues.{Bytes, initial}
use spinfoam.Outbox.Frames.{try_data}
use spinfoam.Outbox.History.{Op, step}
use spinfoam.Outbox.Shrinks.{sends_none}
use spinfoam.Host.Calls.{Stage, begin_call, poll_call, response, drop_guard}
use spinfoam.Runtime.Object.{spawned, polled, used}
use spinfoam.Runtime.Life.{past_loaded}
use spinfoam.Runtime.Table.{
  Entry, Runtime, System, put, with_out, load_begin, load_end, start_object, task_first, task_next,
  deliver_to,
}
use spinfoam.Runtime.Stop.{
  stop_begin, stop_wake, shutdown_begin, shutdown_stop, shutdown_wake, shutdown_end,
}

-- What may happen, in any order. A load ends that has begun; a task is polled first once it is
-- spawned, and goes on polled; only the running guest uses the mailbox, calls the host and logs; a
-- `stop` waits only for an object that has been started. The rest is control: responses of the host,
-- drops of calls, frames that are not an object's, and the writer.
pub data Step {N : Type 0} (y : System N) : Runtime N → Runtime N → Type 0 where
  load_begins :
      (config : Value N) (capabilities : List (Capability N)) (rt : Runtime N)
      → Step y rt (load_begin y config capabilities rt).0
  load_ends :
      (serial : ℕ) (config : Value N) (capabilities : List (Capability N)) (bytes : Bytes)
      (rt : Runtime N)
      → 1 ≤ count ℕ_discrete serial rt.loading
      → Step y rt (load_end y serial config capabilities bytes rt).0
  starts : (id : Text) (rt : Runtime N) → Step y rt (start_object y id rt).0
  firsts :
      (id : Text) (e : Entry N) (rt : Runtime N)
      → lookup text_discrete id rt.entries ≡ some e
      → e.object.task ≡ spawned
      → Step y rt (task_first y id rt)
  nexts :
      (id : Text) (e : Entry N) (result : Option (Result Text ℕ)) (rt : Runtime N)
      → lookup text_discrete id rt.entries ≡ some e
      → e.object.task ≡ polled
      → Step y rt (task_next y id result rt)
  stop_begins :
      (id : Text) (unload : Bool) (rt : Runtime N) → Step y rt (stop_begin y id unload rt).0
  stop_wakes :
      (id : Text) (unload : Bool) (e : Entry N) (rt : Runtime N)
      → lookup text_discrete id rt.entries ≡ some e
      → past_loaded e.object.state ≡ true
      → Step y rt (stop_wake y id unload rt).0
  delivers :
      (receive : Mailbox N → Mailbox N × RpcResult N) (id : Text) (rt : Runtime N)
      → Step y rt (deliver_to receive id rt).0
  uses :
      (id : Text) (e : Entry N) (m : Mailbox N) (wait : Text) (rt : Runtime N)
      → lookup text_discrete id rt.entries ≡ some e
      → e.object.task ≡ polled
      → Step y rt (put id e (used m wait e.object) rt)
  calls :
      (id : Text) (e : Entry N) (rt : Runtime N)
      → lookup text_discrete id rt.entries ≡ some e
      → e.object.task ≡ polled
      → Step y rt (record rt { host = (begin_call id rt.host).0 })
  call_polls :
      (id cid : Text) (e : Entry N) (s : Stage) (rt : Runtime N)
      → lookup text_discrete id rt.entries ≡ some e
      → e.object.task ≡ polled
      → Step y rt (record rt { host = (poll_call id cid s rt.host).0 })
  logs_sent :
      (id : Text) (e : Entry N) (v : Value N) (rt : Runtime N)
      → lookup text_discrete id rt.entries ≡ some e
      → e.object.task ≡ polled
      → Step y rt (record rt { host = with_out (λ o. (try_data y.to_vec id v o).0) rt.host })
  call_drops :
      (sent : Bool) (id cid : Text) (rt : Runtime N)
      → Step y rt (record rt { host = drop_guard y.to_vec sent id cid rt.host })
  responds :
      (frame : Value N) (rt : Runtime N)
      → Step y rt (record rt { host = response y.to_vec frame rt.host })
  writes :
      (op : Op N) (rt : Runtime N)
      → sends_none y.to_vec op ≡ true
      → Step y rt (record rt { host = with_out (step y.to_vec y.from_i64 op) rt.host })
  shutdown_begins : (rt : Runtime N) → Step y rt (shutdown_begin rt)
  shutdown_stops : (id : Text) (rt : Runtime N) → Step y rt (shutdown_stop id rt)
  shutdown_wakes :
      (id : Text) (e : Entry N) (rt : Runtime N)
      → lookup text_discrete id rt.entries ≡ some e
      → past_loaded e.object.state ≡ true
      → Step y rt (shutdown_wake id rt)
  shutdown_ends : (rt : Runtime N) → Step y rt (shutdown_end rt)

-- `Runtime::new`, of a session.
abbrev pub new : {N : Type 0} → Text → Runtime N
new session = record {
  entries = [];
  host = record {
    calls = [];
    next = 0;
    session = session;
    out = initial;
    ignored = 0;
    replies = [];
  };
  next = 0;
  loading = [];
}

pub data Reach {N : Type 0} (y : System N) : Runtime N → Type 0 where
  at_new : (session : Text) → Reach y (new session)
  after : {rt rt' : Runtime N} → Reach y rt → Step y rt rt' → Reach y rt'
