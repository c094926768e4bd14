-- ===== src/Runtime/Whole.antt =====
-- What holds of the runtime (src/runtime.rs with src/host.rs and src/outbox.rs) in every history.
use spinfoam.Prelude.{
  if◌then◌else◌, ◌≡◌, refl, sym, subst, ◌∙◌, Bool, true, false, List, none, some, lookup, if_cases,
  Option-cases, inl, inr, arith,
}
use spinfoam.Text.{Text, text, text_discrete}
use spinfoam.Json.{Value, get_str}
use spinfoam.Outbox.Queues.{Outbox, remove_request}
use spinfoam.Outbox.Frames.{try_control, try_data, poll_data}
use spinfoam.Outbox.History.{
  step, step-IsValid, try_control-IsValid, try_data-IsValid, poll_data-IsValid,
}
use spinfoam.Outbox.Valid as Queues
use spinfoam.Outbox.Valid.{initial-IsValid}
use spinfoam.Outbox.Remove.{remove_request-IsValid}
use spinfoam.Outbox.Shrinks.{
  Shrinks, step-Shrinks, try_data_others, poll_data_others, remove_request-Shrinks,
  try_control-queue_of,
}
use spinfoam.Host.Calls.{
  ignore, settle, cancel_frame, Host, Stage, sending, waiting, begin_call, poll_call, response,
  drop_guard,
}
use spinfoam.Host.Once.{out-IsValid, settle-IsValid, removed-IsValid, was_there}
use spinfoam.Runtime.Object.{polled, stop, stop_woken, used}
use spinfoam.Runtime.Life as Life
use spinfoam.Runtime.Life.{past_loaded, terminal, running_only, start_from, load-IsValid}
use spinfoam.Runtime.Table.{Entry, Runtime, System}
use spinfoam.Runtime.Stop.{
  unlisted, cancelled_entry, shutdown_begin, shutdown_stop, shutdown_wake, shutdown_end,
}
use spinfoam.Runtime.Owned.{
  Owned-less, Active, ActiveEntry, Owned, Owned-out, Owned-sends, Owned-begins,
}
use spinfoam.Runtime.Valid.{IsValid, host-IsValid, put-IsValid, each-IsValid}
use spinfoam.Runtime.Methods.{
  stop_task, woken_task, load_begin-IsValid, load_end-IsValid, start_object-IsValid,
  task_first-IsValid, task_next-IsValid, stop_begin-IsValid, stop_wake-IsValid, deliver_to-IsValid,
}
use spinfoam.Runtime.Steps.{
  Step, load_begins, load_ends, starts, firsts, nexts, stop_begins, stop_wakes, delivers, uses,
  calls, call_polls, logs_sent, call_drops, responds, writes, shutdown_begins, shutdown_stops,
  shutdown_wakes, shutdown_ends, new, Reach, at_new, after,
}

module _ {N : Type 0} (y : System N) where
  is_active :
      (id : Text) (e : Entry N) (rt : Runtime N)
      → lookup text_discrete id rt.entries ≡ some e
      → e.object.task ≡ polled
      → Active rt.entries id
  is_active id e rt h t = subst ActiveEntry (sym h) t

  poll_call-Owned :
      (entries : List (Text × Entry N)) (id cid : Text) (s : Stage) (h : Host N)
      → Owned entries h
      → Active entries id
      → Owned entries (poll_call id cid s h).0
  unfolding poll_call
  poll_call-Owned entries id cid (sending bytes) h v a =
      Owned-sends entries h (poll_data id bytes (some cid) h.out).0 id v
        (poll_data-IsValid y.to_vec y.from_i64 id bytes (some cid) h.out v.out) a
        (poll_data_others id bytes (some cid) h.out)
  poll_call-Owned entries id cid waiting h v a = v

  ignored-Owned :
      (entries : List (Text × Entry N)) (h : Host N) → Owned entries h → Owned entries (ignore h)
  ignored-Owned entries h v =
      Owned-less entries h (ignore h) v (out-IsValid h.out (ignore h).ignored h v.host) v.out
        (λ j k g. g) (λ k g. g)

  response-Owned :
      (entries : List (Text × Entry N)) (frame : Value N) (h : Host N)
      → Owned entries h
      → Owned entries (response y.to_vec frame h)
  unfolding response
  response-Owned entries frame h v = elim (Option-cases (get_str frame (text "id"))) [
    | inl e ↦ rw (e, response) (ignored-Owned entries h v)
    | inr (cid, e) ↦ elim (Option-cases (lookup text_discrete cid h.calls)) [
      | inl f ↦ rw (e, f, response) (ignored-Owned entries h v)
      | inr (object, f) ↦
          rw (e, f, response)
            (Owned-less entries h (settle y.to_vec cid _ h) v
              (settle-IsValid y.to_vec cid object _ h v.host f) v.out
              (λ j k g. (was_there cid j h.calls k v.host.distinct g).1) (λ k g. g))
    ]
  ]

  cancelled_out :
      (sent : Bool) (cid : Text) (o : Outbox)
      → Queues.IsValid o
      → Queues.IsValid (if sent then (try_control y.to_vec (cancel_frame cid) o).0 else o)
        × Shrinks o (if sent then (try_control y.to_vec (cancel_frame cid) o).0 else o)
  cancelled_out true cid o v = (
    try_control-IsValid y.to_vec y.from_i64 (cancel_frame cid) o v,
    λ k g. try_control-queue_of y.to_vec (cancel_frame cid) o k ∙ g,
  )
  cancelled_out false cid o v = (v, λ k g. g)

  drop_guard-Owned :
      (entries : List (Text × Entry N)) (sent : Bool) (id cid : Text) (h : Host N)
      → Owned entries h
      → Owned entries (drop_guard y.to_vec sent id cid h)
  unfolding drop_guard
  drop_guard-Owned entries sent id cid h v =
      let valid = remove_request-IsValid id cid h.out v.out in
      elim (Option-cases (lookup text_discrete cid h.calls)) [
        | inl e ↦
            rw (e, drop_guard)
              (Owned-out entries h (remove_request id cid h.out) v valid
                (remove_request-Shrinks id cid h.out))
        | inr (o, e) ↦
            let (valid', shrinks) = cancelled_out sent cid (remove_request id cid h.out) valid in
            rw (e, drop_guard)
              (Owned-less entries h _ v (removed-IsValid cid _ h v.host) valid'
                (λ j k g. (was_there cid j h.calls k v.host.distinct g).1)
                (λ k g. shrinks k (remove_request-Shrinks id cid h.out k g)))
      ]

  shutdown_begin-IsValid : (rt : Runtime N) → IsValid rt → IsValid (shutdown_begin rt)
  unfolding shutdown_begin
  shutdown_begin-IsValid rt v =
      each-IsValid cancelled_entry rt
        (λ e w.
          if_cases (λ (x : Entry N). Life.IsValid x.object) e.listed _ _
            (λ _. Life.Step-IsValid (Life.cancels e.object) w) (λ _. w))
        (λ e.
          if_cases (λ (x : Entry N). x.object.task ≡ e.object.task) e.listed _ _ (λ _. refl)
            (λ _. refl))
        v

  shutdown_stop-IsValid : (id : Text) (rt : Runtime N) → IsValid rt → IsValid (shutdown_stop id rt)
  unfolding shutdown_stop
  shutdown_stop-IsValid id rt v = elim (Option-cases (lookup text_discrete id rt.entries)) [
    | inl h ↦ rw (h, shutdown_stop) v
    | inr (e, h) ↦
        rw (h, shutdown_stop)
          (put-IsValid id e (stop e.object) rt h
            (Life.Step-IsValid (Life.stops e.object) (v.table.objects id e h))
            (λ t. stop_task e.object ∙ t) v)
  ]

  shutdown_wake-IsValid :
      (id : Text) (e : Entry N) (rt : Runtime N)
      → lookup text_discrete id rt.entries ≡ some e
      → past_loaded e.object.state ≡ true
      → IsValid rt
      → IsValid (shutdown_wake id rt)
  unfolding shutdown_wake
  shutdown_wake-IsValid id e rt h p v =
      rw (h, shutdown_wake)
        (put-IsValid id e (stop_woken e.object) rt h
          (Life.Step-IsValid (Life.wakes e.object p) (v.table.objects id e h))
          (λ t. woken_task e.object ∙ t) v)

  shutdown_end-IsValid : (rt : Runtime N) → IsValid rt → IsValid (shutdown_end rt)
  unfolding shutdown_end
  shutdown_end-IsValid rt v = each-IsValid unlisted rt (λ e w. w) (λ e. refl) v

  new-IsValid : (session : Text) → IsValid (new {N = N} session)
  new-IsValid session = record {
    table = record {
      distinct = tt;
      objects = λ id e h. absurd (let x : none ≡ some e = h in cc);
      fresh = λ k b. refl;
      absent = λ k b. absurd (omega (arith, b));
    };
    owned = record {
      host = record {
        distinct = tt;
        few = omega arith;
        once = tt;
        apart = λ id o e. refl;
        issued = λ id o e. absurd (let x : none ≡ some o = e in cc);
        replied = λ id r e. absurd (let x : none ≡ some r = e in cc);
        counted = omega arith;
      };
      out = initial-IsValid;
      calls = λ cid id e. absurd (let x : none ≡ some id = e in cc);
      queues = λ id fs e. absurd (let x : none ≡ some fs = e in cc);
    };
  }

  Step-IsValid : {rt rt' : Runtime N} → Step y rt rt' → IsValid rt → IsValid rt'
  Step-IsValid (load_begins config capabilities rt) v =
      load_begin-IsValid y config capabilities rt v
  Step-IsValid (load_ends serial config capabilities bytes rt there) v =
      load_end-IsValid y serial config capabilities bytes rt there v
  Step-IsValid (starts id rt) v = start_object-IsValid y id rt v
  Step-IsValid (firsts id e rt h t) v = task_first-IsValid y id e rt h t v
  Step-IsValid (nexts id e result rt h t) v = task_next-IsValid y id e result rt h t v
  Step-IsValid (stop_begins id unload rt) v = stop_begin-IsValid y id unload rt v
  Step-IsValid (stop_wakes id unload e rt h p) v = stop_wake-IsValid y id unload e rt h p v
  Step-IsValid (delivers receive id rt) v = deliver_to-IsValid y receive id rt v
  Step-IsValid (uses id e m wait rt h t) v =
      put-IsValid id e (used m wait e.object) rt h
        (Life.Step-IsValid (Life.uses m wait e.object t) (v.table.objects id e h)) (λ _. t) v
  Step-IsValid (calls id e rt h t) v =
      host-IsValid (begin_call id rt.host).0 rt
        (Owned-begins rt.entries rt.host id v.owned (is_active id e rt h t)) v
  Step-IsValid (call_polls id cid e s rt h t) v =
      host-IsValid (poll_call id cid s rt.host).0 rt
        (poll_call-Owned rt.entries id cid s rt.host v.owned (is_active id e rt h t)) v
  Step-IsValid (logs_sent id e msg rt h t) v =
      host-IsValid (record rt.host { out = (try_data y.to_vec id msg rt.host.out).0 }) rt
        (Owned-sends rt.entries rt.host (try_data y.to_vec id msg rt.host.out).0 id v.owned
          (try_data-IsValid y.to_vec y.from_i64 id msg rt.host.out v.owned.out)
          (is_active id e rt h t) (try_data_others y.to_vec id msg rt.host.out))
        v
  Step-IsValid (call_drops sent id cid rt) v =
      host-IsValid (drop_guard y.to_vec sent id cid rt.host) rt
        (drop_guard-Owned rt.entries sent id cid rt.host v.owned) v
  Step-IsValid (responds frame rt) v =
      host-IsValid (response y.to_vec frame rt.host) rt
        (response-Owned rt.entries frame rt.host v.owned) v
  Step-IsValid (writes op rt n) v =
      host-IsValid (record rt.host { out = step y.to_vec y.from_i64 op rt.host.out }) rt
        (Owned-out rt.entries rt.host (step y.to_vec y.from_i64 op rt.host.out) v.owned
          (step-IsValid y.to_vec y.from_i64 op rt.host.out v.owned.out)
          (step-Shrinks y.to_vec y.from_i64 op rt.host.out n))
        v
  Step-IsValid (shutdown_begins rt) v = shutdown_begin-IsValid rt v
  Step-IsValid (shutdown_stops id rt) v = shutdown_stop-IsValid id rt v
  Step-IsValid (shutdown_wakes id e rt h p) v = shutdown_wake-IsValid id e rt h p v
  Step-IsValid (shutdown_ends rt) v = shutdown_end-IsValid rt v

  -- Of every runtime that can be reached: each object is in order; a serial number that is not given
  -- out, or whose program is still loading, has no object; the host's calls and the outbox's queues
  -- are in order; and each pending call and each queue of data frames is of an object whose task
  -- runs.
  pub runtime-IsValid : {rt : Runtime N} → Reach y rt → IsValid rt
  runtime-IsValid (at_new session) = new-IsValid session
  runtime-IsValid (after r s) = Step-IsValid s (runtime-IsValid r)
