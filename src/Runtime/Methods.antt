-- ===== src/Runtime/Methods.antt =====
-- The methods of `Runtime` in src/runtime.rs keep its invariant.
use spinfoam.Prelude.{
  ℕ, ◌-◌, ◌^◌, ◌≤◌, ◌≡◌, refl, subst, ◌∙◌, Bool, true, false, List, Option, none, some, Result, ok,
  err, lookup, count, leb, ℕ_discrete, Option-cases, Result-cases, Bool-cases, ◌⊎◌, inl, inr,
  without, arith,
}
use spinfoam.Text.{Text, text_discrete}
use spinfoam.Json.{Value}
use spinfoam.Error.{RpcResult}
use spinfoam.Mailbox.{Mailbox}
use spinfoam.Helpers.Table.{Capability}
use spinfoam.Outbox.Queues.{Bytes}
use spinfoam.Runtime.Object.{
  State, loaded, starting, running, stopping, stopped, exited, failed, spawned, polled, finished,
  Object, Started, started, refused, panics, deliver, start, first_poll, poll, stop, stop_woken,
}
use spinfoam.Runtime.Life as Life
use spinfoam.Runtime.Life.{past_loaded, Step-IsValid, running_only, start_from, load-IsValid}
use spinfoam.Runtime.Table.{
  object_id, Entry, Runtime, System, find, get, put, check_load, load_begin, load_end, loaded_entry,
  start_object, start_reply, task_first, task_next, deliver_to,
}
use spinfoam.Runtime.Stop.{stop_begin, stop_wake}
use spinfoam.Runtime.Owned.{ActiveEntry, Owned-insert}
use spinfoam.Runtime.Serials.{given-Serials, ended-Serials, loaded-Serials}
use spinfoam.Runtime.Valid.{
  IsValid, find-lookup, put-IsValid, task_polled-IsValid, stop_polled-IsValid,
}

module _ {N : Type 0} where
  deliver_task :
      (put : Mailbox N → Mailbox N × RpcResult N) (o : Object N) → (deliver put o).0.task ≡ o.task
  unfolding deliver
  deliver_task put o = ground arith

  pub stop_task : (o : Object N) → (stop o).task ≡ o.task
  unfolding stop
  stop_task o = ground arith

  pub woken_task : (o : Object N) → (stop_woken o).task ≡ o.task
  unfolding stop_woken
  woken_task o = ground arith

  first_poll_task :
      (o : Object N) → ((first_poll o).task ≡ finished) ⊎ ((first_poll o).task ≡ polled)
  unfolding first_poll
  first_poll_task o = elim (Bool-cases o.cancelled) [
    | inl b ↦ rw (b, first_poll) (inl refl)
    | inr b ↦ rw (b, first_poll) (inr refl)
  ]

  poll_task :
      (f : ℕ → N) (result : Option (Result Text ℕ)) (o : Object N)
      → o.task ≡ polled
      → ((poll f result o).task ≡ finished) ⊎ ((poll f result o).task ≡ polled)
  unfolding poll
  poll_task f result o t = elim (Bool-cases o.cancelled) [
    | inl b ↦ rw (b, poll) (inl refl)
    | inr b ↦ running f result o b t
  ]
    where
      running :
          (f : ℕ → N) (result : Option (Result Text ℕ)) (o : Object N)
          → o.cancelled ≡ false
          → o.task ≡ polled
          → ((poll f result o).task ≡ finished) ⊎ ((poll f result o).task ≡ polled)
      running f none o b t = rw (b, poll) (inr t)
      running f (some (ok code)) o b t = rw (b, poll) (inl refl)
      running f (some (err e)) o b t = rw (b, poll) (inl refl)

  -- An object whose task runs does not start.
  start_kept :
      (s : State) (o : Object N)
      → Life.IsValid (record o { state = s })
      → o.task ≡ polled
      → (start (record o { state = s })).0.task ≡ polled
  unfolding start
  start_kept loaded o v t = absurd (
      let x = running_only loaded o.task o.cancelled o.program t v.agree in
      ground (arith, v.agree, t))
  start_kept starting o v t = t
  start_kept running o v t = t
  start_kept stopping o v t = t
  start_kept stopped o v t = t
  start_kept exited o v t = t
  start_kept failed o v t = t

module _ {N : Type 0} (y : System N) where
  pub load_begin-IsValid :
      (config : Value N) (capabilities : List (Capability N)) (rt : Runtime N)
      → IsValid rt
      → IsValid (load_begin y config capabilities rt).0
  unfolding load_begin
  load_begin-IsValid config capabilities rt v =
      elim (Result-cases (check_load y config capabilities)) [
        | inl (e, h) ↦ rw (h, load_begin) v
        | inr (u, h) ↦ elim (Bool-cases (leb (2 ^ 64 - 1) rt.next)) [
          | inl b ↦ rw (h, b, load_begin) v
          | inr b ↦
              rw (h, b, load_begin)
                (record {
                  table = given-Serials rt.entries rt.next rt.loading v.table;
                  owned = v.owned;
                })
        ]
      ]

  pub load_end-IsValid :
      (serial : ℕ) (config : Value N) (capabilities : List (Capability N)) (bytes : Bytes)
      (rt : Runtime N)
      → 1 ≤ count ℕ_discrete serial rt.loading
      → IsValid rt
      → IsValid (load_end y serial config capabilities bytes rt).0
  unfolding load_end
  load_end-IsValid serial config capabilities bytes rt there v =
      let without_object : IsValid (record rt { loading = without ℕ_discrete serial rt.loading }) =
        record {
          table = ended-Serials serial rt.entries rt.next rt.loading v.table;
          owned = v.owned;
        } in
      elim (Result-cases (y.loader bytes)) [
        | inl (e, h) ↦ rw (h, load_end) without_object
        | inr (false, h) ↦ rw (h, load_end) without_object
        | inr (true, h) ↦
            rw (h, load_end)
              (record {
                table =
                    loaded-Serials serial (loaded_entry y config capabilities bytes) rt.entries
                      rt.next rt.loading v.table there (load-IsValid config);
                owned =
                    Owned-insert rt.entries rt.host (object_id serial)
                      (loaded_entry y config capabilities bytes) v.owned
                      (λ a. absurd (subst ActiveEntry (v.table.absent serial there).1 a));
              })
      ]

  start_reply-IsValid :
      (id : Text) (e : Entry N) (rt : Runtime N) (r : Object N × Started)
      → IsValid rt
      → IsValid (put id e r.0 rt)
      → IsValid (start_reply y id e rt r).0
  start_reply-IsValid id e rt (o, started) v w = w
  start_reply-IsValid id e rt (o, refused) v w = v
  start_reply-IsValid id e rt (o, panics) v w = v

  pub start_object-IsValid :
      (id : Text) (rt : Runtime N) → IsValid rt → IsValid (start_object y id rt).0
  unfolding start_object get
  start_object-IsValid id rt v = elim (Option-cases (find id rt)) [
    | inl f ↦ rw (f, start_object, get) v
    | inr (e, f) ↦
        let there = find-lookup id e rt f in
        let valid = v.table.objects id e there in
        rw (f, start_object, get)
          (start_reply-IsValid id e rt (start e.object) v (
            put-IsValid id e (start e.object).0 rt there (Step-IsValid (Life.starts e.object) valid)
              (start_kept e.object.state e.object valid) v))
  ]

  pub task_first-IsValid :
      (id : Text) (e : Entry N) (rt : Runtime N)
      → lookup text_discrete id rt.entries ≡ some e
      → e.object.task ≡ spawned
      → IsValid rt
      → IsValid (task_first y id rt)
  unfolding task_first
  task_first-IsValid id e rt h t v =
      rw (h, task_first)
        (task_polled-IsValid y id e (first_poll e.object) rt h
          (Step-IsValid (Life.first_polls e.object t) (v.table.objects id e h))
          (first_poll_task e.object) v)

  pub task_next-IsValid :
      (id : Text) (e : Entry N) (result : Option (Result Text ℕ)) (rt : Runtime N)
      → lookup text_discrete id rt.entries ≡ some e
      → e.object.task ≡ polled
      → IsValid rt
      → IsValid (task_next y id result rt)
  unfolding task_next
  task_next-IsValid id e result rt h t v =
      rw (h, task_next)
        (task_polled-IsValid y id e (poll y.from_u64 result e.object) rt h
          (Step-IsValid (Life.polls y.from_u64 result e.object t) (v.table.objects id e h))
          (poll_task y.from_u64 result e.object t) v)

  pub stop_begin-IsValid :
      (id : Text) (unload : Bool) (rt : Runtime N)
      → IsValid rt
      → IsValid (stop_begin y id unload rt).0
  unfolding stop_begin
  stop_begin-IsValid id unload rt v = elim (Option-cases (find id rt)) [
    | inl f ↦ rw (f, stop_begin) v
    | inr (e, f) ↦
        let there = find-lookup id e rt f in
        rw (f, stop_begin)
          (stop_polled-IsValid y id unload e (stop e.object) rt there
            (Step-IsValid (Life.stops e.object) (v.table.objects id e there))
            (λ t. stop_task e.object ∙ t) v)
  ]

  pub stop_wake-IsValid :
      (id : Text) (unload : Bool) (e : Entry N) (rt : Runtime N)
      → lookup text_discrete id rt.entries ≡ some e
      → past_loaded e.object.state ≡ true
      → IsValid rt
      → IsValid (stop_wake y id unload rt).0
  unfolding stop_wake
  stop_wake-IsValid id unload e rt h p v =
      rw (h, stop_wake)
        (stop_polled-IsValid y id unload e (stop_woken e.object) rt h
          (Step-IsValid (Life.wakes e.object p) (v.table.objects id e h))
          (λ t. woken_task e.object ∙ t) v)

  pub deliver_to-IsValid :
      (receive : Mailbox N → Mailbox N × RpcResult N) (id : Text) (rt : Runtime N)
      → IsValid rt
      → IsValid (deliver_to receive id rt).0
  unfolding deliver_to get
  deliver_to-IsValid receive id rt v = elim (Option-cases (find id rt)) [
    | inl f ↦ rw (f, deliver_to, get) v
    | inr (e, f) ↦
        let there = find-lookup id e rt f in
        rw (f, deliver_to, get)
          (put-IsValid id e (deliver receive e.object).0 rt there
            (Step-IsValid (Life.delivers receive e.object) (v.table.objects id e there))
            (λ t. deliver_task receive e.object ∙ t) v)
  ]
