-- ===== src/Runtime/Stop.antt =====
-- `stop` and `shutdown` of `Runtime` in src/runtime.rs, each cut at its wait for the object's task.
use spinfoam.Prelude.{
  Bool, true, false, List, [], ◌∷◌, Option, none, some, ok, err, if◌then◌else◌, lookup, insert,
}
use spinfoam.Text.{Text, text, text_discrete}
use spinfoam.Json.{Value, boolean, field, end}
use spinfoam.Error.{missing_error}
use spinfoam.Outbox.Queues.{remove_object}
use spinfoam.Host.Calls.{cancel_object}
use spinfoam.Runtime.Object.{stopping, Object, stop, stop_woken, cancel}
use spinfoam.Runtime.Table.{
  Entry, Runtime, System, Outcome, replies, waits, status, find, put, clean_up,
}

module _ {N : Type 0} where
  -- `json!({"unloaded":true})`
  abbrev pub unloaded : Value N
  unloaded = Value.object (field (text "unloaded") (boolean true) end)

  -- An entry that the table does not have any more.
  abbrev pub unlisted : Entry N → Entry N
  unlisted e = record e { listed = false }

  abbrev unlist_entry : Option (Entry N) → Text → List (Text × Entry N) → List (Text × Entry N)
  unlist_entry none id entries = entries
  unlist_entry (some e) id entries = insert text_discrete id (unlisted e) entries

  -- `objects.borrow_mut().remove(id)`: others may hold the object still.
  abbrev pub unlist : Text → Runtime N → Runtime N
  unlist id rt = record rt {
    entries = unlist_entry (lookup text_discrete id rt.entries) id rt.entries;
  }

module _ {N : Type 0} (y : System N) where
  -- `stop` behind `object.stop().await`, `e` being the object as it is then.
  unfoldable pub stop_end : Text → Bool → Entry N → Runtime N → Runtime N × Outcome N
  unfolding cancel_object remove_object
  stop_end id unload e rt =
      let rt' = record rt { host = clean_up y id rt.host } in
      if unload
      then (unlist id rt', replies (ok unloaded))
      else (rt', replies (ok (status y.from_u64 id e)))

  -- The object's own `stop` is through, or waits.
  unfoldable pub stop_polled : Text → Bool → Entry N → Object N → Runtime N → Runtime N × Outcome N
  unfolding stop_end
  stop_polled id unload e o rt = elim o.state [
    | stopping ↦ (put id e o rt, waits)
    | _ ↦ stop_end id unload (record e { object = o }) (put id e o rt)
  ]

  -- `stop` up to its wait.
  unfoldable pub stop_begin : Text → Bool → Runtime N → Runtime N × Outcome N
  unfolding stop stop_polled
  stop_begin id unload rt = elim (find id rt) [
    | none ↦ (rt, replies (if unload then ok unloaded else err missing_error))
    | some e ↦ stop_polled id unload e (stop e.object) rt
  ]

  -- A `stop` that waits, woken. It holds the object, which may not be listed any more.
  unfoldable pub stop_wake : Text → Bool → Runtime N → Runtime N × Outcome N
  unfolding stop_woken stop_polled
  stop_wake id unload rt = elim (lookup text_discrete id rt.entries) [
    | none ↦ (rt, waits)
    | some e ↦ stop_polled id unload e (stop_woken e.object) rt
  ]

module _ {N : Type 0} where
  abbrev pub each : (Entry N → Entry N) → List (Text × Entry N) → List (Text × Entry N)
  each f [] = []
  each f ((id, e) ∷ entries) = (id, f e) ∷ each f entries

  -- The loop of `shutdown` that cancels is over the objects in the table.
  abbrev pub cancelled_entry : Entry N → Entry N
  cancelled_entry e = if e.listed then record e { object = cancel e.object } else e

  unfoldable pub shutdown_begin : Runtime N → Runtime N
  shutdown_begin rt = record rt { entries = each cancelled_entry rt.entries }

  -- `o.stop().await` of one object, up to its wait and from there on.
  unfoldable pub shutdown_stop : Text → Runtime N → Runtime N
  unfolding stop
  shutdown_stop id rt = elim (lookup text_discrete id rt.entries) [
    | none ↦ rt
    | some e ↦ put id e (stop e.object) rt
  ]

  unfoldable pub shutdown_wake : Text → Runtime N → Runtime N
  unfolding stop_woken
  shutdown_wake id rt = elim (lookup text_discrete id rt.entries) [
    | none ↦ rt
    | some e ↦ put id e (stop_woken e.object) rt
  ]

  -- `objects.borrow_mut().clear()`
  unfoldable pub shutdown_end : Runtime N → Runtime N
  shutdown_end rt = record rt { entries = each unlisted rt.entries }
