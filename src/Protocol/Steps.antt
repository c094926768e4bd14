-- ===== src/Protocol/Steps.antt =====
-- The server of src/protocol.rs as a step relation: the loop reads a frame, the task of a request goes
-- on, or the runtime does.
use spinfoam.Prelude.{ℕ, ◌≡◌, false, [], some, Result, lookup}
use spinfoam.Text.{Text, text_discrete}
use spinfoam.Json.{Value}
use spinfoam.Error.{RpcResult}
use spinfoam.Build.Requests.{Builds}
use spinfoam.Outbox.Queues.{Bytes}
use spinfoam.Runtime.Table.{Runtime, System}
use spinfoam.Runtime.Steps as Runtime
use spinfoam.Protocol.Methods.{Codec}
use spinfoam.Protocol.Serve.{
  unhandled, handling, answering, Request, Serving, put_runtime, set_stage, abort_all, incoming,
  task_handles, task_answers,
}

-- A frame is read while the loop runs; it may be any bytes, also the rest of a line of which a call
-- of `frame` that was dropped took the beginning. A task handles its request once; where `handle` waits, it
-- comes to its result later; then the task sends the result. Behind the loop all tasks are aborted.
pub data Step {N : Type 0} (y : System N) (codec : Codec N) (parse : Bytes → Result Text (Value N))
    : Serving N → Serving N → Type 0 where
  reads :
      (bytes : Bytes) (s : Serving N)
      → s.left ≡ false
      → s.service.shutdown ≡ false
      → Step y codec parse s (incoming y codec parse bytes s)
  handles :
      (uptime : ℕ) (id : Text) (r : Request N) (s : Serving N)
      → lookup text_discrete id s.tasks ≡ some r
      → r.stage ≡ unhandled
      → Step y codec parse s (task_handles y codec uptime id r s)
  resolves :
      (id : Text) (r : Request N) (x : RpcResult N) (s : Serving N)
      → lookup text_discrete id s.tasks ≡ some r
      → r.stage ≡ handling
      → Step y codec parse s (set_stage id r (answering x) s)
  sends :
      (id : Text) (r : Request N) (x : RpcResult N) (s : Serving N)
      → lookup text_discrete id s.tasks ≡ some r
      → r.stage ≡ answering x
      → Step y codec parse s (task_answers y codec id r x s)
  runs :
      (rt : Runtime N) (s : Serving N)
      → Runtime.Step y s.service.runtime rt
      → Step y codec parse s (put_runtime rt s)
  aborts : (s : Serving N) → Step y codec parse s (abort_all s)

-- The server at its start.
abbrev pub fresh : {N : Type 0} → Builds N → Text → Serving N
fresh builds session = record {
  service = record {
    runtime = Runtime.new session;
    builds = builds;
    initialized = false;
    shutdown = false;
  };
  ids = [];
  used = 0;
  tasks = [];
  left = false;
}

pub data Reach {N : Type 0} (y : System N) (codec : Codec N) (parse : Bytes → Result Text (Value N))
    : Serving N → Type 0 where
  at_start : (builds : Builds N) (session : Text) → Reach y codec parse (fresh builds session)
  after :
      {s s' : Serving N} → Reach y codec parse s → Step y codec parse s s' → Reach y codec parse s'
