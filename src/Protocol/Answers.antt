-- ===== src/Protocol/Answers.antt =====
-- No request that src/protocol.rs reads is passed over: it gets a task, an answer, or the loop is left.
use spinfoam.Prelude.{
  ◌≡◌, refl, sym, subst, Bool, true, false, ◌||◌, List, [], ◌∷◌, ◌++◌, Result, ok, err, leb, length,
  if◌then◌else◌, if_cases, Bool-cases, Result-cases, ◌⊎◌, inl, inr,
}
use spinfoam.Prelude.Int.{neg}
use spinfoam.Text.{Text, text}
use spinfoam.Json.{Value, string}
use spinfoam.Error.{RpcError, rpc_error, busy_error}
use spinfoam.Outbox.Queues.{Bytes, control_slots, push_control}
use spinfoam.Outbox.Frames.{encode, try_control}
use spinfoam.Runtime.Table.{System}
use spinfoam.Protocol.Methods.{
  Codec, Method, initialize, object_load, object_start, object_stop, object_unload, object_get,
  list_objects, event_deliver, stats_of, shutdown_now, build_compile, unknown, method_of, response,
}
use spinfoam.Protocol.Serve.{
  unhandled, Request, Serving, requests, contains, slots, spawn, classify, answer_now, admit,
  take_in, incoming,
}

module _ {N : Type 0} (y : System N) (codec : Codec N) where
  abbrev control_of : Serving N → List Bytes
  control_of s = s.service.runtime.host.out.control

  -- The error's response is queued behind the other control frames, or the loop is left.
  abbrev pub Refuses : Value N → RpcError N → Serving N → Serving N → Type 0
  Refuses id e s s' =
      (s'.tasks ≡ s.tasks)
      × (((frame : Bytes) × (encode y.to_vec (response y codec id (err e)) ≡ ok frame)
            × (control_of s' ≡ control_of s ++ frame ∷ []))
          ⊎ (s'.left ≡ true))

  answer_now-Refuses :
      (id : Value N) (e : RpcError N) (s : Serving N) → Refuses id e s (answer_now y codec id e s)
  unfolding answer_now try_control push_control
  answer_now-Refuses id e s = elim (Result-cases (encode y.to_vec (response y codec id (err e)))) [
    | inl (x, h) ↦ (refl, inr (rw (h, try_control) (or_true s.left)))
    | inr (frame, h) ↦
        elim (Bool-cases (
          s.service.runtime.host.out.closed
          || leb control_slots (length s.service.runtime.host.out.control))) [
            | inl b ↦ (refl, inr (rw (h, b, try_control) (or_true s.left)))
            | inr b ↦ (refl, inl (frame, h, rw (h, b, try_control, push_control) refl))
          ]
  ]
    where
      or_true : (b : Bool) → b || true ≡ true
      or_true true = refl
      or_true false = refl

  -- The new task, with a slot unless it compiles.
  abbrev pub new_task : Text → Value N → Bool → Request N
  new_task method params permit = record {
    method = method;
    params = params;
    permit = permit;
    stage = unhandled;
  }

  -- What becomes of a request.
  abbrev pub Answered : Text → Value N → Text → Serving N → Serving N → Type 0
  Answered method params id s s' =
      ((permit : Bool) × (contains id s.ids ≡ false)
        × (s'.tasks ≡ (id, new_task method params permit) ∷ s.tasks))
      ⊎ ((contains id s.ids ≡ true)
          × Refuses (string id)
              (rpc_error (neg 32600) (text "DUPLICATE_ID") (text "request ID already outstanding"))
              s s')
      ⊎ ((leb slots s.used ≡ true)
          × Refuses (string id) (busy_error (text "too many requests")) s s')

  slot-Answered :
      (method : Text) (params : Value N) (id : Text) (s : Serving N)
      → contains id s.ids ≡ false
      → Answered method params id s (
          if leb slots s.used
          then answer_now y codec (string id) (busy_error (text "too many requests")) s
          else spawn method params true id s)
  slot-Answered method params id s c =
      if_cases (Answered method params id s) (leb slots s.used) _ _
        (λ b.
          inr (inr (b, answer_now-Refuses (string id) (busy_error (text "too many requests")) s)))
        (λ b. inl (true, c, refl))

  admit-Answered :
      (method : Text) (params : Value N) (id : Text) (s : Serving N)
      → Answered method params id s (admit y codec method params id s)
  unfolding admit
  admit-Answered method params id s =
      if_cases (Answered method params id s) (contains id s.ids) _ _
        (λ c. inr (inl (c, answer_now-Refuses (string id) _ s)))
        (λ c. by_method c (method_of method) refl)
    where
      by_method :
          contains id s.ids ≡ false
          → (m : Method) → method_of method ≡ m
          → Answered method params id s (elim (method_of method) [
            | build_compile ↦ spawn method params false id s
            | _ ↦
                if leb slots s.used
                then answer_now y codec (string id) (busy_error (text "too many requests")) s
                else spawn method params true id s
          ])
      by_method c initialize e = rw e (slot-Answered method params id s c)
      by_method c object_load e = rw e (slot-Answered method params id s c)
      by_method c object_start e = rw e (slot-Answered method params id s c)
      by_method c object_stop e = rw e (slot-Answered method params id s c)
      by_method c object_unload e = rw e (slot-Answered method params id s c)
      by_method c object_get e = rw e (slot-Answered method params id s c)
      by_method c list_objects e = rw e (slot-Answered method params id s c)
      by_method c event_deliver e = rw e (slot-Answered method params id s c)
      by_method c stats_of e = rw e (slot-Answered method params id s c)
      by_method c shutdown_now e = rw e (slot-Answered method params id s c)
      by_method c unknown e = rw e (slot-Answered method params id s c)
      by_method c build_compile e = rw e (inl (false, c, refl))

  -- A frame that is read as a request of a method, with parameters and an ID, comes to one of these:
  -- it gets a task of its own, if its ID is not outstanding; its ID is, and it is refused as a
  -- duplicate; or all 48 slots are taken, and it is refused as one too many. A refusal is a response
  -- with the request's ID behind the control frames that are queued, or else the loop is left.
  pub incoming-Answered :
      (parse : Bytes → Result Text (Value N)) (bytes : Bytes) (v : Value N) (method : Text)
      (params : Value N) (id : Text) (s : Serving N)
      → parse bytes ≡ ok v
      → classify v ≡ requests method params id
      → Answered method params id s (incoming y codec parse bytes s)
  unfolding incoming
  incoming-Answered parse bytes v method params id s h k =
      rw (h, incoming)
        (subst (λ i. Answered method params id s (take_in y codec v i s)) (sym k)
          (admit-Answered method params id s))
