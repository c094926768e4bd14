-- ===== src/Helpers/Waiting.antt =====
-- The helpers of src/helpers.rs that wait or that send to the host: `h_sleep`, `h_event`, `h_call`
-- and `h_log`. One that waits is cut into what it does at once and what its task does at the end;
-- the end of the task drops the `WaitGuard`.
use spinfoam.Prelude.{
  ℕ, ◌+◌, ◌-◌, ◌^◌, min, Bool, true, false, not, ◌&&◌, ◌||◌, List, [], ◌∷◌, Option, none, some,
  Result, ok, err, ltb, leb, if◌then◌else◌, ite,
}
use spinfoam.Prelude.Int.{ℤ}
use spinfoam.Text.{Text, text, text_discrete}
use spinfoam.Json.{Value, string, object, field, end, get}
use spinfoam.Error.{invalid, limit, timeout, denied}
use spinfoam.Outbox.Queues.{Bytes, Outbox}
use spinfoam.Outbox.Frames.{try_data}
use spinfoam.Helpers.Table.{
  json_handle, Capability, Guest, Reply, faults, External, status, plain, insert_handle, json, give,
  read_text,
}

-- A day at most.
abbrev pub timeout_ms : ℕ → ℕ
timeout_ms n = min n 86400000

-- `drop(guard)`
abbrev pub unwait : {N : Type 0} → Guest N → Guest N
unwait g = record g { wait = text "none" }

-- What `h_call` comes to at once: a reply, or a call with its capability, arguments and timeout.
pub data Setup (N : Type 0) : Type 0 where
  refused : Reply → Setup N
  calls : Text → Value N → ℕ → Setup N

module _ {N : Type 0} where
  unfoldable pub h_sleep : Guest N → Guest N
  h_sleep g = record g { wait = text "timer" }

  unfoldable pub h_event : Guest N → Guest N
  h_event g = record g { wait = text "event" }

  -- `received` is nothing where the time ran out.
  unfoldable pub event_end : Option (Value N) → Guest N → Guest N × Reply
  unfolding insert_handle
  event_end none g = (unwait g, plain (status timeout))
  event_end (some v) g = give (json_handle v) (unwait g)

  unfoldable pub call_end : Result ℤ (Value N) → Guest N → Guest N × Reply
  unfolding insert_handle
  call_end (err e) g = (unwait g, plain (status e))
  call_end (ok v) g = give (json_handle v) (unwait g)

module _ {N : Type 0} (x : External N) where
  -- `args.get(k) == Some(v)`
  abbrev pub same : Option (Value N) → Value N → Bool
  same none v = false
  same (some w) v = x.equal w v

  abbrev pub all_same : Value N → List (Text × Value N) → Bool
  all_same args [] = true
  all_same args ((k, v) ∷ rest) = same (get args k) v && all_same args rest

  -- `capabilities.iter().any(…)`
  abbrev pub any_grants : Text → Value N → List (Capability N) → Bool
  any_grants capability args [] = false
  any_grants capability args (cap ∷ caps) =
      ite (text_discrete cap.name capability) true false && all_same args cap.arguments
      || any_grants capability args caps

  unfoldable pub h_call : Option Bytes → ℕ → ℕ → ℕ → Guest N → Guest N × Setup N
  unfolding read_text
  h_call memory n h ms g = elim (read_text x memory n) [
    | none ↦ (g, refused faults)
    | some capability ↦ elim (json h g) [
      | none ↦ (g, refused (plain (status invalid)))
      | some args ↦
          if not (any_grants capability args g.capabilities)
          then (g, refused (plain (status denied)))
          else (record g { wait = text "host_rpc" }, calls capability args (timeout_ms ms))
    ]
  ]

  -- `json!({"jsonrpc":"2.0","method":"sf.log","params":{"object_id":c.id,"message":message}})`
  abbrev pub log_frame : Text → Text → Value N
  log_frame id message = object (
      field (text "jsonrpc") (string (text "2.0")) (
        field (text "method") (string (text "sf.log")) (
          field (text "params")
            (object
              (field (text "object_id") (string id) (field (text "message") (string message) end)))
            end)))

  -- The test for a new window of a second: `now` is the clock.
  abbrev pub renew_window : ℕ → Guest N → Guest N
  renew_window now g =
      if leb (10 ^ 9) (now - g.log_window) then record g { log_window = now; logs = 0 } else g

  -- The counted part of `h_log`.
  unfoldable pub send_log : Text → Outbox → Guest N → (Guest N × Outbox) × Reply
  unfolding try_data
  send_log message o g =
      if leb 10 g.logs
      then ((g, o), plain (status limit))
      else let (o', sent) = try_data x.to_vec g.id (log_frame g.id message) o in
        ((record g { logs = g.logs + 1 }, o'), plain (if sent then 0 else status limit))

  unfoldable pub h_log : Option Bytes → ℕ → ℕ → Outbox → Guest N → (Guest N × Outbox) × Reply
  unfolding read_text send_log
  h_log memory n now o g =
      if ltb 1024 n then ((g, o), plain (status limit)) else elim (read_text x memory n) [
        | none ↦ ((g, o), faults)
        | some message ↦ send_log message o (renew_window now g)
      ]
