-- ===== src/Protocol/Handles.antt =====
-- What a method of src/protocol.rs does to the runtime is a step of it, or nothing.
use spinfoam.Prelude.{
  ℕ, ◌≡◌, ◌≢◌, ◌⊎◌, refl, subst, sym, true, false, not, ◌||◌, Result, ok, err, ltb, ◌==◌, if_cases,
  length, Result-cases, inl, inr,
}
use spinfoam.Text.{Text}
use spinfoam.Json.{Value}
use spinfoam.Error.{RpcError, params_error}
use spinfoam.Outbox.Queues.{Bytes}
use spinfoam.Mailbox as Mailbox
use spinfoam.Helpers.Values.{valid_value}
use spinfoam.Runtime.Table.{Runtime, System, load_begin}
use spinfoam.Runtime.Steps.{load_begins, starts, stop_begins, delivers, Reach, after}
use spinfoam.Protocol.Methods.{
  replied, Codec, Service, Load, Event, Handled, Method, initialize, object_load, object_start,
  object_stop, object_unload, object_get, list_objects, event_deliver, stats_of, shutdown_now,
  build_compile, unknown, with_params, page_size, guarded, start_session, load_answer, load_object,
  deliver_event, event_value, dispatch, handle,
}

module _ {N : Type 0} (y : System N) (codec : Codec N) where
  abbrev Ran : Service N × Handled N → Type 0
  Ran r = Reach y r.0.runtime

  params_Ran :
      {A : Type 0} (p : Result Text A) (e : RpcError N → Service N × Handled N)
      (f : A → Service N × Handled N)
      → ((x : RpcError N) → Ran (e x))
      → ((a : A) → Ran (f a))
      → Ran (with_params p e f)
  params_Ran (ok a) e f u v = v a
  params_Ran (err m) e f u v = u (params_error m)

  load_object-Ran : (l : Load N) (s : Service N) → Reach y s.runtime → Ran (load_object y codec l s)
  unfolding load_object
  load_object-Ran l s r = elim (Result-cases (codec.base64 l.elf)) [
    | inl (e, h) ↦ rw (h, load_object) r
    | inr (bytes, h) ↦
        rw (h, load_object)
          (answered (load_begin y l.config l.capabilities s.runtime) bytes
            (after r (load_begins l.config l.capabilities s.runtime)))
  ]
    where
      answered :
          (a : Runtime N × Result (RpcError N) ℕ) (bytes : Bytes)
          → Reach y a.0
          → Ran (load_answer y codec l bytes s a)
      answered (rt, ok serial) bytes q = q
      answered (rt, err e) bytes q = q

  deliver_event-Ran :
      (e : Event N) (s : Service N) → Reach y s.runtime → Ran (deliver_event y codec e s)
  unfolding deliver_event
  deliver_event-Ran e s r =
      if_cases Ran (ltb 128 (length e.topic) || not (valid_value y.to_vec e.payload)) _ _ (λ _. r)
        (λ _.
          after r
            (delivers (Mailbox.deliver y.to_vec (event_value y codec e)) e.object_id s.runtime))

  dispatch-Ran :
      (uptime : ℕ) (m : Method) (params : Value N) (s : Service N)
      → Reach y s.runtime
      → Ran (dispatch y codec uptime m params s)
  unfolding dispatch
  dispatch-Ran uptime initialize params s r = r
  dispatch-Ran uptime object_load params s r =
      params_Ran (codec.decode_load params) _ _ (λ e. r) (λ l. load_object-Ran l s r)
  dispatch-Ran uptime object_start params s r =
      params_Ran (codec.decode_id params) _ _ (λ e. r) (λ id. after r (starts id s.runtime))
  dispatch-Ran uptime object_stop params s r =
      params_Ran (codec.decode_id params) _ _ (λ e. r)
        (λ id. after r (stop_begins id false s.runtime))
  dispatch-Ran uptime object_unload params s r =
      params_Ran (codec.decode_id params) _ _ (λ e. r)
        (λ id. after r (stop_begins id true s.runtime))
  dispatch-Ran uptime object_get params s r =
      params_Ran (codec.decode_id params) _ _ (λ e. r) (λ id. r)
  dispatch-Ran uptime list_objects params s r =
      params_Ran (codec.decode_range page_size params) _ _ (λ e. r) (λ q. r)
  dispatch-Ran uptime event_deliver params s r =
      params_Ran (codec.decode_event params) _ _ (λ e. r) (λ e. deliver_event-Ran e s r)
  dispatch-Ran uptime stats_of params s r = r
  dispatch-Ran uptime shutdown_now params s r = r
  dispatch-Ran uptime build_compile params s r = r
  dispatch-Ran uptime unknown params s r = r

  start_session-Ran :
      (version : ℕ) (s : Service N) → Reach y s.runtime → Ran (start_session y codec version s)
  start_session-Ran version s r =
      if_cases Ran (not (version == 1)) _ _ (λ _. r)
        (λ _. if_cases Ran s.initialized _ _ (λ _. r) (λ _. r))

  -- `sf.initialize` or a method behind the test.
  pub handle_cases :
      (uptime : ℕ) (m : Method) (params : Value N) (s : Service N)
      → ((m ≡ initialize)
          × (handle y codec uptime m params s
              ≡ with_params
                  (codec.decode_version params)
                  (λ e. (s, replied (err e)))
                  (λ v. start_session y codec v s)))
        ⊎ ((m ≢ initialize)
            × (handle y codec uptime m params s ≡ guarded y codec uptime m params s))
  unfolding handle
  handle_cases uptime initialize params s = inl (refl, refl)
  handle_cases uptime object_load params s = inr (λ x. cc, refl)
  handle_cases uptime object_start params s = inr (λ x. cc, refl)
  handle_cases uptime object_stop params s = inr (λ x. cc, refl)
  handle_cases uptime object_unload params s = inr (λ x. cc, refl)
  handle_cases uptime object_get params s = inr (λ x. cc, refl)
  handle_cases uptime list_objects params s = inr (λ x. cc, refl)
  handle_cases uptime event_deliver params s = inr (λ x. cc, refl)
  handle_cases uptime stats_of params s = inr (λ x. cc, refl)
  handle_cases uptime shutdown_now params s = inr (λ x. cc, refl)
  handle_cases uptime build_compile params s = inr (λ x. cc, refl)
  handle_cases uptime unknown params s = inr (λ x. cc, refl)

  -- Every call of a method leads from a runtime that can be reached to one that can be reached.
  pub handle-Reach :
      (uptime : ℕ) (m : Method) (params : Value N) (s : Service N)
      → Reach y s.runtime
      → Reach y (handle y codec uptime m params s).0.runtime
  handle-Reach uptime m params s r = elim (handle_cases uptime m params s) [
    | inl (p, e) ↦
        subst Ran (sym e)
          (params_Ran (codec.decode_version params) _ _ (λ x. r) (λ v. start_session-Ran v s r))
    | inr (p, e) ↦
        subst Ran (sym e)
          (if_cases Ran s.initialized _ _ (λ _. dispatch-Ran uptime m params s r) (λ _. r))
  ]
