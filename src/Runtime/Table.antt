-- ===== src/Runtime/Table.antt =====
-- `Runtime` of src/runtime.rs: `load`, `get`, `start` and the task that it spawns, over the table of
-- objects and the host, which holds the outbox that the two share. The method `stop` and `shutdown`
-- stand in Runtime/Stop.
use spinfoam.Prelude.{
  ℕ, ◌+◌, ◌-◌, ◌^◌, Bool, true, false, not, ◌||◌, List, [], ◌∷◌, Option, none, some, Result, ok,
  err, ◌>>◌, fail_if, ltb, leb, if◌then◌else◌, length, lookup, insert, without, ℕ_discrete,
}
use spinfoam.Prelude.Int.{ℤ, neg}
use spinfoam.Text.{Text, text, text_discrete}
use spinfoam.Text.Decimal.{decimal}
use spinfoam.Json.{Value, null, number, string, Fields, field, end}
use spinfoam.Error.{RpcError, RpcResult, rpc_error, params_error, missing_error, busy_error}
use spinfoam.Outbox.Queues.{Bytes, Outbox, is_empty, remove_object}
use spinfoam.Outbox.Frames.{try_control}
use spinfoam.Host.Calls.{Host, cancel_object}
use spinfoam.Helpers.Values.{valid_value}
use spinfoam.Helpers.Table.{Capability}
use spinfoam.Runtime.Object.{
  State, loaded, starting, running, stopping, stopped, exited, failed, finished, Object, Started,
  started, refused, panics, load, deliver, start, first_poll, poll,
}
use spinfoam.Mailbox.{Mailbox}

-- An `Rc<Object>`. `listed` tells whether the table has it still: a task or a `stop` that waits holds
-- its object also when another call has unloaded it.
pub record Entry (N : Type 0) : Type 0 where
  pub hash : Text
  pub capabilities : List (Capability N)
  pub object : Object N
  pub listed : Bool

-- `host` holds the outbox too. `loading` lists the serials of the loads that wait for their program.
pub record Runtime (N : Type 0) : Type 0 where
  pub entries : List (Text × Entry N)
  pub host : Host N
  pub next : ℕ
  pub loading : List ℕ

-- What the code calls of other crates. `loader` is the program loader: an error, or whether the
-- program has the section `spinfoam.main`.
pub record System (N : Type 0) : Type 0 where
  pub to_vec : Value N → Result Text Bytes
  pub from_u64 : ℕ → N
  pub from_i64 : ℤ → N
  pub sha256 : Bytes → Text
  pub loader : Bytes → Result Text Bool

-- What a call comes to: a reply, a wait that another call goes on with, or a failed `expect`.
pub data Outcome (N : Type 0) : Type 0 where
  replies : RpcResult N → Outcome N
  waits panics_here : Outcome N

-- `format!("o{serial}")`
abbrev pub object_id : ℕ → Text
object_id serial = b'o' ∷ decimal serial

-- The derived `Serialize`, in snake case.
abbrev pub state_name : State → Text
state_name loaded = text "loaded"
state_name starting = text "starting"
state_name running = text "running"
state_name stopping = text "stopping"
state_name stopped = text "stopped"
state_name exited = text "exited"
state_name failed = text "failed"

module _ {N : Type 0} where
  abbrev pub or_null : Option (Value N) → Value N
  or_null none = null
  or_null (some v) = v

  abbrev pub status : (ℕ → N) → Text → Entry N → Value N
  status from_u64 id e = Value.object (
      field (text "object_id") (string id) (
        field (text "sha256") (string e.hash) (
          field (text "state") (string (state_name e.object.state)) (
            field (text "wait") (string e.object.wait) (
              field (text "mailbox_entries") (number (from_u64 (length e.object.mailbox.entries)))
                (field (text "outcome") (or_null e.object.outcome) end))))))

  abbrev pub if_listed : Option (Entry N) → Option (Entry N)
  if_listed none = none
  if_listed (some e) = if e.listed then some e else none

  -- `objects.borrow().get(id)`; `get` makes a missing one an error.
  abbrev pub find : Text → Runtime N → Option (Entry N)
  find id rt = if_listed (lookup text_discrete id rt.entries)

  unfoldable pub get : Text → Runtime N → Result (RpcError N) (Entry N)
  get id rt = elim (find id rt) [ none ↦ err missing_error | some e ↦ ok e ]

  -- The object under an ID is written back.
  abbrev pub put : Text → Entry N → Object N → Runtime N → Runtime N
  put id e o rt = record rt {
    entries = insert text_discrete id (record e { object = o }) rt.entries;
  }

  abbrev pub with_out : (Outbox → Outbox) → Host N → Host N
  with_out f h = record h { out = f h.out }

  -- `json!(c.arguments)`
  abbrev pub arguments_value : List (Text × Value N) → Fields N
  arguments_value [] = end
  arguments_value ((k, v) ∷ args) = field k v (arguments_value args)

module _ {N : Type 0} (y : System N) where
  -- `capabilities.iter().any(…)`
  abbrev pub any_bad : List (Capability N) → Bool
  any_bad [] = false
  any_bad (c ∷ cs) =
      is_empty c.name
      || ltb 128 (length c.name)
      || not (valid_value y.to_vec (Value.object (arguments_value c.arguments)))
      || any_bad cs

  unfoldable pub check_load : Value N → List (Capability N) → Result (RpcError N) (Unit {0})
  unfolding valid_value
  check_load config capabilities = do
    fail_if (not (valid_value y.to_vec config)) (params_error (text "config exceeds JSON limits"))
    fail_if (any_bad capabilities) (params_error (text "invalid capabilities"))

  -- `load` up to its await: the serial of the new object.
  unfoldable pub load_begin :
      Value N → List (Capability N) → Runtime N → Runtime N × Result (RpcError N) ℕ
  unfolding check_load
  load_begin config capabilities rt = elim (check_load config capabilities) [
    | err e ↦ (rt, err e)
    | ok u ↦
        if leb (2 ^ 64 - 1) rt.next then (rt, err (busy_error (text "object IDs exhausted"))) else (
          record rt { next = rt.next + 1; loading = (rt.next + 1) ∷ rt.loading },
          ok (rt.next + 1),
        )
  ]

  abbrev pub loaded_entry : Value N → List (Capability N) → Bytes → Entry N
  loaded_entry config capabilities bytes = record {
    hash = y.sha256 bytes;
    capabilities = capabilities;
    object = load config;
    listed = true;
  }

  -- `load` from its await on, when the loader is through.
  unfoldable pub load_end :
      ℕ → Value N → List (Capability N) → Bytes → Runtime N → Runtime N × RpcResult N
  load_end serial config capabilities bytes rt =
      let rt' = record rt { loading = without ℕ_discrete serial rt.loading } in
      elim (y.loader bytes) [
        | err e ↦ (rt', err (rpc_error (neg 32010) (text "INVALID_OBJECT") e))
        | ok false ↦ (rt', err (params_error (text "missing spinfoam.main section")))
        | ok true ↦ (
          record rt' {
            entries =
                insert text_discrete (object_id serial) (loaded_entry config capabilities bytes)
                  rt'.entries;
          },
          ok (status y.from_u64 (object_id serial) (loaded_entry config capabilities bytes)),
        )
      ]

  -- The answer of `start`, with the object as it leaves it.
  abbrev pub start_reply : Text → Entry N → Runtime N → Object N × Started → Runtime N × Outcome N
  start_reply id e rt (o, started) =
      (put id e o rt, replies (ok (status y.from_u64 id (record e { object = o }))))
  start_reply id e rt (o, refused) =
      (rt, replies (err (busy_error (text "object can only start once"))))
  start_reply id e rt (o, panics) = (rt, panics_here)

  unfoldable pub start_object : Text → Runtime N → Runtime N × Outcome N
  unfolding get start
  start_object id rt = elim (get id rt) [
    | err e ↦ (rt, replies (err e))
    | ok e ↦ start_reply id e rt (start e.object)
  ]

  -- `json!({"jsonrpc":"2.0","method":"sf.object.state","params":obj.status()})`
  abbrev pub state_frame : Text → Entry N → Value N
  state_frame id e = Value.object (
      field (text "jsonrpc") (string (text "2.0")) (
        field (text "method") (string (text "sf.object.state"))
          (field (text "params") (status y.from_u64 id e) end)))

  -- The end of the task, behind the object's own state: what is left of it in the host goes.
  abbrev pub clean_up : Text → Host N → Host N
  clean_up id h = with_out (remove_object id) (cancel_object y.to_vec id h)

  abbrev pub announce : Text → Entry N → Host N → Host N
  announce id e h = with_out (λ out. (try_control y.to_vec (state_frame id e) out).0) h

  -- A poll of the task has changed the object: where that is its end, the rest follows.
  unfoldable pub task_polled : Text → Entry N → Object N → Runtime N → Runtime N
  unfolding cancel_object remove_object try_control
  task_polled id e o rt = elim o.task [
    | finished ↦ record (put id e o rt) {
      host = announce id (record e { object = o }) (clean_up id rt.host);
    }
    | _ ↦ put id e o rt
  ]

  -- The first poll of the task of an object, which it holds whether the object is listed or not.
  unfoldable pub task_first : Text → Runtime N → Runtime N
  unfolding first_poll task_polled
  task_first id rt = elim (lookup text_discrete id rt.entries) [
    | none ↦ rt
    | some e ↦ task_polled id e (first_poll e.object) rt
  ]

  unfoldable pub task_next : Text → Option (Result Text ℕ) → Runtime N → Runtime N
  unfolding poll task_polled
  task_next id result rt = elim (lookup text_discrete id rt.entries) [
    | none ↦ rt
    | some e ↦ task_polled id e (poll y.from_u64 result e.object) rt
  ]

module _ {N : Type 0} where
  -- `deliver` of a listed object, given the mailbox's own.
  unfoldable pub deliver_to :
      (Mailbox N → Mailbox N × RpcResult N) → Text → Runtime N → Runtime N × RpcResult N
  unfolding get deliver
  deliver_to receive id rt = elim (get id rt) [
    | err e ↦ (rt, err e)
    | ok e ↦ (put id e (deliver receive e.object).0 rt, (deliver receive e.object).1)
  ]
