-- ===== src/Runtime/Object.antt =====
-- `Object` of src/runtime.rs with the task that `start` spawns. The task runs from one await to the
-- next without interruption: its first poll, and the poll in which it ends.
use spinfoam.Prelude.{ℕ, Bool, true, false, Option, none, some, Result, ok, err, if◌then◌else◌}
use spinfoam.Text.{Text, text}
use spinfoam.Json.{Value, null, number, string, field, end}
use spinfoam.Error.{RpcResult, busy_error}
use spinfoam.Mailbox.{Mailbox, clear, empty}

pub data State : Type 0 where
  loaded starting running stopping stopped exited failed : State

-- How far the task of `start` is.
pub data Task : Type 0 where
  unspawned spawned polled finished : Task

-- The state without the identity and the capabilities, which never change. `program` tells whether
-- the program is still held.
pub record Object (N : Type 0) : Type 0 where
  pub state : State
  pub program : Bool
  pub config : Value N
  pub mailbox : Mailbox N
  pub wait : Text
  pub cancelled : Bool
  pub task : Task
  pub outcome : Option (Value N)

-- What `start` comes to; `panics` is its failed `expect("loaded program")`.
pub data Started : Type 0 where
  started refused panics : Started

abbrev pub accepts : State → Bool
accepts loaded = true
accepts starting = true
accepts running = true
accepts _ = false

module _ {N : Type 0} where
  abbrev pub load : Value N → Object N
  load config = record {
    state = loaded;
    program = true;
    config = config;
    mailbox = empty;
    wait = text "none";
    cancelled = false;
    task = unspawned;
    outcome = none;
  }

  -- `deliver`, given the mailbox's own.
  unfoldable pub deliver : (Mailbox N → Mailbox N × RpcResult N) → Object N → Object N × RpcResult N
  deliver put o =
      if accepts o.state
      then (record o { mailbox = (put o.mailbox).0 }, (put o.mailbox).1)
      else (o, err (busy_error (text "object no longer accepts events")))

  unfoldable pub start : Object N → Object N × Started
  start o = elim o.state [
    | loaded ↦
        if o.program then (record o { state = starting; task = spawned }, started) else (o, panics)
    | _ ↦ (o, refused)
  ]

  -- The end of the task, in a state and with an outcome.
  abbrev pub task_end : State → Option (Value N) → Object N → Object N
  task_end s outcome o = record o {
    state = s;
    outcome = outcome;
    wait = text "none";
    mailbox = clear o.mailbox;
    task = finished;
  }

  -- The task's first poll: a cancellation that came before is seen at once.
  unfoldable pub first_poll : Object N → Object N
  unfolding clear
  first_poll o =
      if o.cancelled
      then task_end stopped o.outcome (record o { config = null })
      else record o { config = null; state = running; task = polled }

  -- A later poll: the cancellation first, and else what the program came to, if it has ended.
  -- `from_u64` is serde_json's conversion of the exit code.
  unfoldable pub poll : (ℕ → N) → Option (Result Text ℕ) → Object N → Object N
  unfolding clear
  poll from_u64 result o = if o.cancelled then task_end stopped o.outcome o else elim result [
    | none ↦ o
    | some (ok code) ↦
        task_end exited
          (some (Value.object (field (text "exit_code") (number (from_u64 code)) end))) o
    | some (err e) ↦
        task_end failed
          (some (
            Value.object (
              field (text "error") (string e)
                (field (text "kind") (string (text "PROGRAM_FAULT")) end))))
          o
  ]

  -- The end of `stop`, behind its wait.
  abbrev pub release : Object N → Object N
  release o = record o { program = false; config = null; mailbox = clear o.mailbox }

  -- `stop` up to its wait for the task, and to its end where it does not wait.
  unfoldable pub stop : Object N → Object N
  unfolding clear
  stop o = elim o.state [
    | loaded ↦ release (record o { state = stopped })
    | starting ↦ record o { state = stopping; cancelled = true }
    | running ↦ record o { state = stopping; cancelled = true }
    | stopping ↦ record o { state = stopping; cancelled = true }
    | _ ↦ release o
  ]

  -- A `stop` that waits, woken: it ends once the state is not `stopping`.
  unfoldable pub stop_woken : Object N → Object N
  unfolding clear
  stop_woken o = elim o.state [ stopping ↦ o | _ ↦ release o ]

  -- `shutdown` cancels every object before it stops them.
  abbrev pub cancel : Object N → Object N
  cancel o = record o { cancelled = true }

  -- What the running guest does to the object: it takes events and shows what it waits for.
  abbrev pub used : Mailbox N → Text → Object N → Object N
  used m wait o = record o { mailbox = m; wait = wait }
