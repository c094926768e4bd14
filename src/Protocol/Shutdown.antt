-- ===== src/Protocol/Shutdown.antt =====
-- `sf.shutdown` of src/protocol.rs: the loop ends only behind its response.
use spinfoam.Prelude.{
  ◌≡◌, refl, sym, ◌∙◌, Bool, true, false, ◌||◌, [], ◌∷◌, ◌++◌, ok, err, ltb, length, Bool-cases,
  Result-cases, ◌⊎◌, inl, inr,
}
use spinfoam.Text.{Text}
use spinfoam.Json.{Value, string}
use spinfoam.Error.{RpcResult}
use spinfoam.Outbox.Queues.{Bytes, SendError, control_slots, push_control}
use spinfoam.Outbox.Frames.{control_frame, poll_control}
use spinfoam.Runtime.Table.{System}
use spinfoam.Protocol.Methods.{
  Codec, Method, initialize, object_load, object_start, object_stop, object_unload, object_get,
  list_objects, event_deliver, stats_of, shutdown_now, build_compile, unknown, method_of, response,
}
use spinfoam.Protocol.Serve.{Request, Serving, is_shutdown, task_answers}

module _ {N : Type 0} where
  is_shutdown_only :
      (m : Method) (x : RpcResult N)
      → is_shutdown m x ≡ true
      → (m ≡ shutdown_now) × ((v : Value N) × (x ≡ ok v))
  is_shutdown_only shutdown_now (ok v) e = (refl, (v, refl))
  is_shutdown_only shutdown_now (err x) e = absurd (let z : false ≡ true = e in cc)
  is_shutdown_only initialize x e = absurd (let z : false ≡ true = e in cc)
  is_shutdown_only object_load x e = absurd (let z : false ≡ true = e in cc)
  is_shutdown_only object_start x e = absurd (let z : false ≡ true = e in cc)
  is_shutdown_only object_stop x e = absurd (let z : false ≡ true = e in cc)
  is_shutdown_only object_unload x e = absurd (let z : false ≡ true = e in cc)
  is_shutdown_only object_get x e = absurd (let z : false ≡ true = e in cc)
  is_shutdown_only list_objects x e = absurd (let z : false ≡ true = e in cc)
  is_shutdown_only event_deliver x e = absurd (let z : false ≡ true = e in cc)
  is_shutdown_only stats_of x e = absurd (let z : false ≡ true = e in cc)
  is_shutdown_only build_compile x e = absurd (let z : false ≡ true = e in cc)
  is_shutdown_only unknown x e = absurd (let z : false ≡ true = e in cc)

  -- A flag that was not set, and is, was set by the request.
  shuts_only :
      (b : Bool) (m : Method) (x : RpcResult N)
      → b ≡ false
      → b || is_shutdown m x ≡ true
      → (m ≡ shutdown_now) × ((v : Value N) × (x ≡ ok v))
  shuts_only true m x e f = cc
  shuts_only false m x e f = is_shutdown_only m x f

module _ {N : Type 0} (y : System N) (codec : Codec N) where
  -- The response is the last of the control frames, or it has nowhere to go: it is no frame, or the
  -- outbox is closed.
  abbrev pub Queued : Text → RpcResult N → Serving N → Serving N → Type 0
  Queued id x s s' =
      ((frame : Bytes) × (control_frame y.to_vec y.from_i64 (response y codec (string id) x)
          ≡ ok frame)
        × (s'.service.runtime.host.out.control ≡ s.service.runtime.host.out.control ++ frame ∷ []))
      ⊎ ((e : SendError) × (control_frame y.to_vec y.from_i64 (response y codec (string id) x)
            ≡ err e))
      ⊎ (s.service.runtime.host.out.closed ≡ true)

  -- Where a poll of a task that sends its result makes the server shut down: the task's request is
  -- `sf.shutdown`, its result is no error, and its response is queued already, behind the control
  -- frames that were queued, unless it cannot be encoded as a frame or the outbox is closed.
  pub shutdown-Queued :
      (id : Text) (r : Request N) (x : RpcResult N) (s : Serving N)
      → s.service.shutdown ≡ false
      → (task_answers y codec id r x s).service.shutdown ≡ true
      → (method_of r.method ≡ shutdown_now)
        × ((v : Value N) × (x ≡ ok v))
        × Queued id x s (task_answers y codec id r x s)
  unfolding task_answers poll_control push_control
  shutdown-Queued id r x s e f =
      elim (Result-cases (control_frame y.to_vec y.from_i64 (response y codec (string id) x))) [
        | inl (z, h) ↦
            let (m, ok_result) =
              shuts_only s.service.shutdown (method_of r.method) x e
                (sym (rw (h, task_answers) refl) ∙ f) in
            (m, ok_result, inr (inl (z, h)))
        | inr (frame, h) ↦ elim (Bool-cases s.service.runtime.host.out.closed) [
          | inl c ↦
              let (m, ok_result) =
                shuts_only s.service.shutdown (method_of r.method) x e
                  (sym (rw (h, c, task_answers, poll_control) refl) ∙ f) in
              (m, ok_result, inr (inr c))
          | inr c ↦
              elim (Bool-cases (ltb (length s.service.runtime.host.out.control) control_slots)) [
                | inl b ↦
                    let (m, ok_result) =
                      shuts_only s.service.shutdown (method_of r.method) x e
                        (sym (rw (h, c, b, task_answers, poll_control) refl) ∙ f) in
                    (
                      m,
                      ok_result,
                      inl (frame, h, rw (h, c, b, task_answers, poll_control, push_control) refl),
                    )
                | inr b ↦ absurd (
                    let z : false ≡ true =
                      sym e ∙ sym (rw (h, c, b, task_answers, poll_control) refl) ∙ f in
                    cc)
              ]
        ]
      ]
