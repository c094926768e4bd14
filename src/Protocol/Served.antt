-- ===== src/Protocol/Served.antt =====
-- What holds of the server of src/protocol.rs in every history of its steps.
use spinfoam.Prelude.{
  ℕ, ◌<◌, ◌≡◌, refl, subst, Bool, true, false, some, Result, ok, err, leb, if◌then◌else◌, if_cases,
  Result-cases, lookup, inl, inr, arith,
}
use spinfoam.Text.{Text, text, text_discrete}
use spinfoam.Json.{Value, string}
use spinfoam.Error.{RpcError, RpcResult, busy_error}
use spinfoam.Outbox.Queues.{Bytes, Poll, done, pending, panicked, SendError}
use spinfoam.Outbox.Frames.{control_frame, poll_control}
use spinfoam.Outbox.History.{controls, try_controls, control_with, step}
use spinfoam.Runtime.Table.{System}
use spinfoam.Runtime.Steps as Runtime
use spinfoam.Protocol.Methods.{
  Codec, Handled, replied, loads, stops, compiles, fails_here, Method, initialize, object_load,
  object_start, object_stop, object_unload, object_get, list_objects, event_deliver, stats_of,
  shutdown_now, build_compile, unknown, method_of, handle, response,
}
use spinfoam.Protocol.Handles.{handle-Reach}
use spinfoam.Protocol.Serve.{
  Stage, unhandled, handling, answering, Request, Serving, Incoming, rejects, answers, ignores,
  requests, contains, slots, put_runtime, put_out, spawn, set_stage, free, classify, answer_now,
  admit, take_in, incoming, handled, task_handles, task_ends, answer_polled, task_answers,
}
use spinfoam.Protocol.Steps.{
  Step, reads, handles, resolves, sends, runs, aborts, Reach, at_start, after,
}
use spinfoam.Protocol.Admission.{
  Admitted, spawned-Admitted, staged-Admitted, freed-Admitted, none-Admitted,
}

module _ {N : Type 0} (y : System N) (codec : Codec N) (parse : Bytes → Result Text (Value N)) where
  pub record IsValid (s : Serving N) : Type 0 where
    pub admitted : Admitted s.ids s.used s.tasks
    pub runtime : Runtime.Reach y s.service.runtime

  answer_now-IsValid :
      (id : Value N) (e : RpcError N) (s : Serving N)
      → IsValid s
      → IsValid (answer_now y codec id e s)
  unfolding answer_now step
  answer_now-IsValid id e s v = record {
    admitted = v.admitted;
    runtime =
        Runtime.after v.runtime
          (Runtime.writes (try_controls (response y codec id (err e))) s.service.runtime refl);
  }

  spawn-IsValid :
      (method : Text) (params : Value N) (permit : Bool) (id : Text) (s : Serving N)
      → IsValid s
      → contains id s.ids ≡ false
      → (permit ≡ true → s.used < slots)
      → (permit ≡ false → method_of method ≡ build_compile)
      → IsValid (spawn method params permit id s)
  spawn-IsValid method params permit id s v c room free_of = record {
    admitted =
        spawned-Admitted id
          (record { method = method; params = params; permit = permit; stage = unhandled }) s.ids
          s.used s.tasks v.admitted c room free_of;
    runtime = v.runtime;
  }

  -- A method that needs a slot.
  slot-IsValid :
      (method : Text) (params : Value N) (id : Text) (s : Serving N)
      → IsValid s
      → contains id s.ids ≡ false
      → IsValid (
          if leb slots s.used
          then answer_now y codec (string id) (busy_error (text "too many requests")) s
          else spawn method params true id s)
  slot-IsValid method params id s v c =
      if_cases IsValid (leb slots s.used) _ _
        (λ _. answer_now-IsValid (string id) (busy_error (text "too many requests")) s v)
        (λ b. spawn-IsValid method params true id s v c (λ _. ground (arith, b)) (λ x. cc))

  admit-IsValid :
      (method : Text) (params : Value N) (id : Text) (s : Serving N)
      → IsValid s
      → IsValid (admit y codec method params id s)
  unfolding admit
  admit-IsValid method params id s v =
      if_cases IsValid (contains id s.ids) _ _ (λ _. answer_now-IsValid (string id) _ s v)
        (λ c. by_method c (method_of method) refl)
    where
      by_method :
          contains id s.ids ≡ false
          → (m : Method) → method_of method ≡ m
          → IsValid (elim (method_of method) [
            | build_compile ↦ spawn method params false id s
            | _ ↦
                if leb slots s.used
                then answer_now y codec (string id) (busy_error (text "too many requests")) s
                else spawn method params true id s
          ])
      by_method c initialize e = rw e (slot-IsValid method params id s v c)
      by_method c object_load e = rw e (slot-IsValid method params id s v c)
      by_method c object_start e = rw e (slot-IsValid method params id s v c)
      by_method c object_stop e = rw e (slot-IsValid method params id s v c)
      by_method c object_unload e = rw e (slot-IsValid method params id s v c)
      by_method c object_get e = rw e (slot-IsValid method params id s v c)
      by_method c list_objects e = rw e (slot-IsValid method params id s v c)
      by_method c event_deliver e = rw e (slot-IsValid method params id s v c)
      by_method c stats_of e = rw e (slot-IsValid method params id s v c)
      by_method c shutdown_now e = rw e (slot-IsValid method params id s v c)
      by_method c unknown e = rw e (slot-IsValid method params id s v c)
      by_method c build_compile e =
          rw e (spawn-IsValid method params false id s v c (λ x. cc) (λ _. e))

  take_in-IsValid :
      (w : Value N) (i : Incoming N) (s : Serving N) → IsValid s → IsValid (take_in y codec w i s)
  take_in-IsValid w (rejects e) s v = answer_now-IsValid _ e s v
  take_in-IsValid w answers s v = record {
    admitted = v.admitted;
    runtime = Runtime.after v.runtime (Runtime.responds w s.service.runtime);
  }
  take_in-IsValid w ignores s v = v
  take_in-IsValid w (requests method params id) s v = admit-IsValid method params id s v

  incoming-IsValid :
      (bytes : Bytes) (s : Serving N) → IsValid s → IsValid (incoming y codec parse bytes s)
  unfolding incoming
  incoming-IsValid bytes s v = elim (Result-cases (parse bytes)) [
    | inl (e, h) ↦ rw (h, incoming) (answer_now-IsValid _ _ s v)
    | inr (w, h) ↦ rw (h, incoming) (take_in-IsValid w (classify w) s v)
  ]

  staged-IsValid :
      (id : Text) (r : Request N) (stage : Stage N) (s : Serving N)
      → IsValid s
      → lookup text_discrete id s.tasks ≡ some r
      → IsValid (set_stage id r stage s)
  staged-IsValid id r stage s v h = record {
    admitted = staged-Admitted id r stage s.ids s.used s.tasks v.admitted h;
    runtime = v.runtime;
  }

  freed-IsValid :
      (id : Text) (r : Request N) (s : Serving N)
      → IsValid s
      → lookup text_discrete id s.tasks ≡ some r
      → IsValid (free id r s)
  freed-IsValid id r s v h = record {
    admitted = freed-Admitted id r s.ids s.used s.tasks v.admitted h;
    runtime = v.runtime;
  }

  handled-IsValid :
      (id : Text) (r : Request N) (h : Handled N) (s : Serving N)
      → IsValid s
      → lookup text_discrete id s.tasks ≡ some r
      → IsValid (handled id r h s)
  handled-IsValid id r (replied x) s v e = staged-IsValid id r (answering x) s v e
  handled-IsValid id r fails_here s v e =
      let w = freed-IsValid id r s v e in record { admitted = w.admitted; runtime = w.runtime }
  handled-IsValid id r (loads serial l bytes) s v e = staged-IsValid id r handling s v e
  handled-IsValid id r (stops k unload) s v e = staged-IsValid id r handling s v e
  handled-IsValid id r (compiles params) s v e = staged-IsValid id r handling s v e

  task_handles-IsValid :
      (uptime : ℕ) (id : Text) (r : Request N) (s : Serving N)
      → IsValid s
      → lookup text_discrete id s.tasks ≡ some r
      → IsValid (task_handles y codec uptime id r s)
  unfolding task_handles
  task_handles-IsValid uptime id r s v e =
      let step = handle y codec uptime (method_of r.method) r.params s.service in
      handled-IsValid id r step.1 (record s { service = step.0 })
        (record {
          admitted = v.admitted;
          runtime = handle-Reach y codec uptime (method_of r.method) r.params s.service v.runtime;
        })
        e

  task_ends-IsValid :
      (id : Text) (r : Request N) (x : RpcResult N) (s : Serving N)
      → IsValid s
      → lookup text_discrete id s.tasks ≡ some r
      → IsValid (task_ends id r x s)
  task_ends-IsValid id r x s v e =
      let w = freed-IsValid id r s v e in record { admitted = w.admitted; runtime = w.runtime }

  answer_polled-IsValid :
      (id : Text) (r : Request N) (x : RpcResult N) (s : Serving N)
      (p : Poll (Result SendError (Unit {0})))
      → IsValid s
      → lookup text_discrete id s.tasks ≡ some r
      → IsValid (answer_polled id r x s p)
  answer_polled-IsValid id r x s pending v e = v
  answer_polled-IsValid id r x s panicked v e = task_ends-IsValid id r x s v e
  answer_polled-IsValid id r x s (done q) v e = task_ends-IsValid id r x s v e

  task_answers-IsValid :
      (id : Text) (r : Request N) (x : RpcResult N) (s : Serving N)
      → IsValid s
      → lookup text_discrete id s.tasks ≡ some r
      → IsValid (task_answers y codec id r x s)
  unfolding task_answers step control_with
  task_answers-IsValid id r x s v e =
      elim (Result-cases (control_frame y.to_vec y.from_i64 (response y codec (string id) x))) [
        | inl (z, h) ↦ rw (h, task_answers) (task_ends-IsValid id r x s v e)
        | inr (bytes, h) ↦
            rw (h, task_answers)
              (answer_polled-IsValid id r x
                (put_runtime
                  (put_out (poll_control bytes s.service.runtime.host.out).0 s.service.runtime) s)
                (poll_control bytes s.service.runtime.host.out).1
                (record { admitted = v.admitted; runtime = written bytes h }) e)
      ]
    where
      written :
          (bytes : Bytes)
          → control_frame y.to_vec y.from_i64 (response y codec (string id) x) ≡ ok bytes
          → Runtime.Reach y
              (put_out (poll_control bytes s.service.runtime.host.out).0 s.service.runtime)
      written bytes h =
          subst (λ o. Runtime.Reach y (put_out o s.service.runtime))
            (rw (step, h, control_with) refl)
            (Runtime.after v.runtime
              (Runtime.writes (controls (response y codec (string id) x)) s.service.runtime refl))

  Step-IsValid : {s s' : Serving N} → Step y codec parse s s' → IsValid s → IsValid s'
  Step-IsValid (reads bytes s l q) v = incoming-IsValid bytes s v
  Step-IsValid (handles uptime id r s e t) v = task_handles-IsValid uptime id r s v e
  Step-IsValid (resolves id r x s e t) v = staged-IsValid id r (answering x) s v e
  Step-IsValid (sends id r x s e t) v = task_answers-IsValid id r x s v e
  Step-IsValid (runs rt s step) v = record {
    admitted = v.admitted;
    runtime = Runtime.after v.runtime step;
  }
  Step-IsValid (aborts s) v = record { admitted = none-Admitted; runtime = v.runtime }

  -- Of every state of the server that can be reached: an ID is outstanding just where one task has
  -- it, and no two tasks have the same; the slots taken are those of the tasks, and at most 48; only
  -- tasks that compile have none; and the runtime is one that its own steps lead to.
  pub server-IsValid : {s : Serving N} → Reach y codec parse s → IsValid s
  server-IsValid (at_start builds session) = record {
    admitted = none-Admitted;
    runtime = Runtime.at_new session;
  }
  server-IsValid (after r step) = Step-IsValid step (server-IsValid r)
