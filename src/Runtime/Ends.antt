-- ===== src/Runtime/Ends.antt =====
-- How an object of src/runtime.rs ends in the runtime: what is left of it, what a `stop` comes to, and
-- that another load does not take its place.
use spinfoam.Prelude.{
  ℕ, ◌≤◌, ◌≡◌, ◌≢◌, refl, sym, ap, subst, ◌∙◌, Bool, true, false, List, Option, none, some, Result,
  ok, lookup, count, ℕ_discrete, lookup-insert_self, lookup-insert_ne, Option-cases, Result-cases,
  ◌⊎◌, inl, inr,
}
use spinfoam.Text.{Text, text_discrete}
use spinfoam.Json.{Value}
use spinfoam.Helpers.Table.{Capability}
use spinfoam.Outbox.Queues.{Bytes, queue_of}
use spinfoam.Runtime.Object.{
  stopping, stopped, Task, unspawned, polled, spawned, finished, Object, Started, started, refused,
  panics, start, first_poll, poll, stop, stop_woken,
}
use spinfoam.Runtime.Life.{terminal, running_only, start_from}
use spinfoam.Runtime.Reached.{woken_state}
use spinfoam.Runtime.Table.{
  Entry, Runtime, System, Outcome, replies, waits, panics_here, object_id, find, get, put,
  loaded_entry, load_end, start_object, start_reply, clean_up, task_polled, task_first, task_next,
}
use spinfoam.Runtime.Stop.{unloaded, unlist, unlisted, stop_end, stop_polled, stop_begin, stop_wake}
use spinfoam.Runtime.Owned.{Active, ActiveEntry, Owned, IsClear, Owned-insert}
use spinfoam.Runtime.Clearing.{clean_up_lem}
use spinfoam.Runtime.Valid.{IsValid, find-lookup, stop_polled_cases}
use spinfoam.Runtime.Methods.{stop_task, woken_task}
use spinfoam.Runtime.Steps.{Reach}
use spinfoam.Runtime.Whole.{runtime-IsValid}

module _ {N : Type 0} (y : System N) where
  -- An object whose task does not run has nothing in the host.
  idle-IsClear :
      (id : Text) (rt : Runtime N) → IsValid rt → ¬ Active rt.entries id → IsClear id rt.host
  idle-IsClear id rt v idle = record {
    no_call = λ cid e. idle (v.owned.calls cid id e);
    no_queue = elim (Option-cases (queue_of id rt.host.out)) [
      | inl e ↦ e
      | inr (fs, e) ↦ absurd (idle (v.owned.queues id fs e))
    ];
  }

  -- In every runtime that can be reached, an object that has stopped, exited or failed has no call
  -- pending at the host and no data frame queued.
  pub ended-IsClear :
      (id : Text) (e : Entry N) (rt : Runtime N)
      → Reach y rt
      → lookup text_discrete id rt.entries ≡ some e
      → terminal e.object.state ≡ true
      → IsClear id rt.host
  ended-IsClear id e rt r h t =
      let v = runtime-IsValid y r in
      let valid = v.table.objects id e h in
      idle-IsClear id rt v (λ a. absurd (
        let alive =
          running_only e.object.state e.object.task e.object.cancelled e.object.program
            (subst ActiveEntry h a) valid.agree in
        cc))

  -- In every runtime that can be reached, a load that is waiting for its program leaves every object
  -- that is there as it is, however it ends.
  pub load_end-kept :
      (serial : ℕ) (config : Value N) (capabilities : List (Capability N)) (bytes : Bytes)
      (id : Text) (e : Entry N) (rt : Runtime N)
      → Reach y rt
      → 1 ≤ count ℕ_discrete serial rt.loading
      → lookup text_discrete id rt.entries ≡ some e
      → lookup text_discrete id (load_end y serial config capabilities bytes rt).0.entries ≡ some e
  unfolding load_end
  load_end-kept serial config capabilities bytes id e rt r there h =
      elim (Result-cases (y.loader bytes)) [
        | inl (x, p) ↦ rw (p, load_end) h
        | inr (false, p) ↦ rw (p, load_end) h
        | inr (true, p) ↦
            rw (p, load_end)
              (lookup-insert_ne text_discrete (object_id serial) id
                  (loaded_entry y config capabilities bytes) rt.entries
                  (λ q. absurd (
                    let gone = ((runtime-IsValid y r).table.absent serial there).1 in
                    let x : none ≡ some e =
                      sym gone ∙ ap (λ i. lookup text_discrete i rt.entries) q ∙ h in
                    cc))
                ∙ h)
      ]

  reply_safe :
      (id : Text) (e : Entry N) (rt : Runtime N) (r : Object N × Started)
      → r.1 ≢ panics
      → (start_reply y id e rt r).1 ≢ panics_here
  reply_safe id e rt (o, started) n = λ x. cc
  reply_safe id e rt (o, refused) n = λ x. cc
  reply_safe id e rt (o, panics) n = absurd (n refl)

  -- In every runtime that can be reached, `start` does not fail for want of the object's program.
  pub start_object-ne-panics :
      (id : Text) (rt : Runtime N) → Reach y rt → (start_object y id rt).1 ≢ panics_here
  unfolding start_object get
  start_object-ne-panics id rt r = elim (Option-cases (find id rt)) [
    | inl f ↦ rw (f, start_object, get) (λ x. cc)
    | inr (e, f) ↦
        let valid = (runtime-IsValid y r).table.objects id e (find-lookup id e rt f) in
        rw (f, start_object, get)
          (reply_safe id e rt (start e.object) (start_from e.object.state e.object valid).1)
  ]

  -- The object is not listed, nothing in the host is its own, and the reply says so.
  abbrev pub Gone : Text → Runtime N × Outcome N → Type 0
  Gone id r = (r.1 ≡ replies (ok unloaded)) × (find id r.0 ≡ none) × IsClear id r.0.host

  unlist-find :
      (id : Text) (e : Entry N) (rt : Runtime N)
      → lookup text_discrete id rt.entries ≡ some e
      → find id (unlist id rt) ≡ none
  unlist-find id e rt h = rw (h, lookup-insert_self text_discrete id (unlisted e) rt.entries) refl

  stop_polled-Gone :
      (id : Text) (e : Entry N) (o : Object N) (rt : Runtime N)
      → Owned (put id e o rt).entries rt.host
      → ((stop_polled y id true e o rt).1 ≡ waits) ⊎ Gone id (stop_polled y id true e o rt)
  unfolding stop_end
  stop_polled-Gone id e o rt v = elim (stop_polled_cases y id true e o.state o rt) [
    | inl (s, p) ↦ inl (ap (λ r. r.1) p)
    | inr (s, p) ↦ inr (
        subst (Gone id) (sym p) (
          refl,
          unlist-find id (record e { object = o })
              (record (put id e o rt) { host = clean_up y id rt.host })
              (lookup-insert_self text_discrete id (record e { object = o }) rt.entries),
          (clean_up_lem y (put id e o rt).entries id rt.host v).1,
        ))
  ]

  put-Owned :
      (id : Text) (e : Entry N) (o : Object N) (rt : Runtime N)
      → IsValid rt
      → lookup text_discrete id rt.entries ≡ some e
      → o.task ≡ e.object.task
      → Owned (put id e o rt).entries rt.host
  put-Owned id e o rt v h t =
      Owned-insert rt.entries rt.host id (record e { object = o }) v.owned
        (λ a. t ∙ subst ActiveEntry h a)

  -- In every runtime that can be reached, a `stop` that unloads an object of the table either waits
  -- or replies that it is unloaded; then the table does not have it, no call of it is pending at the
  -- host and no data frame of it is queued. The same holds when the `stop` is woken.
  pub unload-Gone :
      (id : Text) (e : Entry N) (rt : Runtime N)
      → Reach y rt
      → find id rt ≡ some e
      → (((stop_begin y id true rt).1 ≡ waits) ⊎ Gone id (stop_begin y id true rt))
        × (((stop_wake y id true rt).1 ≡ waits) ⊎ Gone id (stop_wake y id true rt))
  unfolding stop_begin stop_wake
  unload-Gone id e rt r f =
      let h = find-lookup id e rt f in
      let v = runtime-IsValid y r in
      (
        rw (f, stop_begin)
            (stop_polled-Gone id e (stop e.object) rt
              (put-Owned id e (stop e.object) rt v h (stop_task e.object))),
        rw (h, stop_wake)
            (stop_polled-Gone id e (stop_woken e.object) rt
              (put-Owned id e (stop_woken e.object) rt v h (woken_task e.object))),
      )

  first_poll_ends : (o : Object N) → o.cancelled ≡ true → (first_poll o).state ≡ stopped
  unfolding first_poll
  first_poll_ends o c = rw (c, first_poll) refl

  poll_ends :
      (result : Option (Result Text ℕ)) (o : Object N)
      → o.cancelled ≡ true
      → (poll y.from_u64 result o).state ≡ stopped
  unfolding poll
  poll_ends result o c = rw (c, poll) refl

  -- The entry that a poll of the task leaves.
  task_polled-lookup :
      (id : Text) (e : Entry N) (o : Object N) (rt : Runtime N)
      → lookup text_discrete id (task_polled y id e o rt).entries ≡ some (record e { object = o })
  unfolding task_polled
  task_polled-lookup id e o rt = stored o.task o
    where
      stored :
          (t : Task) (o : Object N)
          → lookup text_discrete id (task_polled y id e (record o { task = t }) rt).entries
            ≡ some (record e { object = record o { task = t } })
      stored unspawned o = lookup-insert_self text_discrete id _ rt.entries
      stored spawned o = lookup-insert_self text_discrete id _ rt.entries
      stored polled o = lookup-insert_self text_discrete id _ rt.entries
      stored finished o = lookup-insert_self text_discrete id _ rt.entries

  stop_end-replies :
      (id : Text) (unload : Bool) (e : Entry N) (rt : Runtime N)
      → (stop_end y id unload e rt).1 ≢ waits
  unfolding stop_end
  stop_end-replies id true e rt = λ x. cc
  stop_end-replies id false e rt = λ x. cc

  woken_replies :
      (id : Text) (unload : Bool) (e : Entry N) (rt : Runtime N)
      → lookup text_discrete id rt.entries ≡ some e
      → e.object.state ≡ stopped
      → (stop_wake y id unload rt).1 ≢ waits
  unfolding stop_wake
  woken_replies id unload e rt h s =
      rw (h, stop_wake)
        (elim (stop_polled_cases y id unload e (stop_woken e.object).state (stop_woken e.object)
          rt) [
            | inl (x, p) ↦
                absurd (let z : stopped ≡ stopping = sym s ∙ sym (woken_state e.object) ∙ x in cc)
            | inr (x, p) ↦ λ w.
                stop_end-replies id unload (record e { object = stop_woken e.object })
                  (put id e (stop_woken e.object) rt) (sym (ap (λ r. r.1) p) ∙ w)
          ])

  -- A `stop` that waits is through once the object's task has been polled again: a `stop` that is
  -- woken after the next poll of the task of a cancelled object, its first poll or a later one,
  -- replies, and does not wait on.
  pub stop_wake-replies :
      (id : Text) (unload : Bool) (result : Option (Result Text ℕ)) (e : Entry N) (rt : Runtime N)
      → lookup text_discrete id rt.entries ≡ some e
      → e.object.cancelled ≡ true
      → ((stop_wake y id unload (task_first y id rt)).1 ≢ waits)
        × ((stop_wake y id unload (task_next y id result rt)).1 ≢ waits)
  unfolding task_first task_next
  stop_wake-replies id unload result e rt h c = (
    woken_replies id unload (record e { object = first_poll e.object }) (task_first y id rt)
        (rw (h, task_first) (task_polled-lookup id e (first_poll e.object) rt))
        (first_poll_ends e.object c),
    woken_replies id unload (record e { object = poll y.from_u64 result e.object })
        (task_next y id result rt)
        (rw (h, task_next) (task_polled-lookup id e (poll y.from_u64 result e.object) rt))
        (poll_ends result e.object c),
  )
