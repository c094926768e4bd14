-- ===== src/Protocol/Session.antt =====
-- The session that `sf.initialize` of src/protocol.rs begins.
use spinfoam.Prelude.{
  ℕ, ◌+◌, ltb, length, ◌||◌, ◌≡◌, ◌≢◌, refl, sym, ap, subst, ◌∙◌, Bool, true, false, not, List, [],
  ◌∷◌, Result, ok, err, ◌==◌, if_cases, Result-cases, ◌⊎◌, inl, inr, arith,
}
use spinfoam.Text.{Text}
use spinfoam.Json.{Value}
use spinfoam.Error.{RpcError, params_error}
use spinfoam.Outbox.Queues.{Bytes}
use spinfoam.Helpers.Values.{valid_value}
use spinfoam.Runtime.Table.{Runtime, System, load_begin}
use spinfoam.Protocol.Methods.{
  Codec, Service, Load, Event, load_answer, load_object, deliver_event, dispatch, page_size,
  object_load, object_start, object_stop, object_unload, object_get, list_objects, event_deliver,
  stats_of, shutdown_now, build_compile, unknown, Handled, replied, loads, stops, compiles,
  fails_here, Method, initialize, method_of, with_params, start_session, not_initialized, handle,
}
use spinfoam.Protocol.Handles.{handle_cases}

pub record Call (N : Type 0) : Type 0 where
  pub uptime : ℕ
  pub method : Text
  pub params : Value N

module _ {N : Type 0} (y : System N) (codec : Codec N) where
  abbrev is_ok : Handled N → ℕ
  is_ok (replied (ok v)) = 1
  is_ok (replied (err e)) = 0
  is_ok (loads serial l bytes) = 0
  is_ok (stops id unload) = 0
  is_ok (compiles params) = 0
  is_ok fails_here = 0

  -- 1 for an `sf.initialize` that is answered with a result, and 0 else.
  abbrev greets : Method → Handled N → ℕ
  greets initialize h = is_ok h
  greets _ h = 0

  -- One call after the other, the first first: how many of them greet, and the service behind them.
  unfoldable pub session : List (Call N) → Service N → ℕ × Service N
  unfolding handle method_of
  session [] s = (0, s)
  session (c ∷ calls) s =
      let (s', h) = handle y codec c.uptime (method_of c.method) c.params s in
      let (n, last) = session calls s' in (greets (method_of c.method) h + n, last)

  abbrev flag : Bool → ℕ
  flag true = 1
  flag false = 0

  abbrev Keeps : Service N → Service N × Handled N → Type 0
  Keeps s r = r.0.initialized ≡ s.initialized

  params_Keeps :
      {A : Type 0} (s : Service N) (p : Result Text A) (e : RpcError N → Service N × Handled N)
      (f : A → Service N × Handled N)
      → ((x : RpcError N) → Keeps s (e x))
      → ((a : A) → Keeps s (f a))
      → Keeps s (with_params p e f)
  params_Keeps s (ok a) e f u v = v a
  params_Keeps s (err m) e f u v = u (params_error m)

  load_object_kept : (l : Load N) (s : Service N) → Keeps s (load_object y codec l s)
  unfolding load_object
  load_object_kept l s = elim (Result-cases (codec.base64 l.elf)) [
    | inl (e, h) ↦ rw (h, load_object) refl
    | inr (bytes, h) ↦
        rw (h, load_object) (answered (load_begin y l.config l.capabilities s.runtime) bytes)
  ]
    where
      answered :
          (a : Runtime N × Result (RpcError N) ℕ) (bytes : Bytes)
          → Keeps s (load_answer y codec l bytes s a)
      answered (rt, ok serial) bytes = refl
      answered (rt, err e) bytes = refl

  deliver_event_kept : (e : Event N) (s : Service N) → Keeps s (deliver_event y codec e s)
  unfolding deliver_event
  deliver_event_kept e s =
      if_cases (Keeps s) (ltb 128 (length e.topic) || not (valid_value y.to_vec e.payload)) _ _
        (λ _. refl) (λ _. refl)

  dispatch_kept :
      (uptime : ℕ) (m : Method) (params : Value N) (s : Service N)
      → Keeps s (dispatch y codec uptime m params s)
  unfolding dispatch
  dispatch_kept uptime initialize params s = refl
  dispatch_kept uptime object_load params s =
      params_Keeps s (codec.decode_load params) _ _ (λ e. refl) (λ l. load_object_kept l s)
  dispatch_kept uptime object_start params s =
      params_Keeps s (codec.decode_id params) _ _ (λ e. refl) (λ id. refl)
  dispatch_kept uptime object_stop params s =
      params_Keeps s (codec.decode_id params) _ _ (λ e. refl) (λ id. refl)
  dispatch_kept uptime object_unload params s =
      params_Keeps s (codec.decode_id params) _ _ (λ e. refl) (λ id. refl)
  dispatch_kept uptime object_get params s =
      params_Keeps s (codec.decode_id params) _ _ (λ e. refl) (λ id. refl)
  dispatch_kept uptime list_objects params s =
      params_Keeps s (codec.decode_range page_size params) _ _ (λ e. refl) (λ q. refl)
  dispatch_kept uptime event_deliver params s =
      params_Keeps s (codec.decode_event params) _ _ (λ e. refl) (λ e. deliver_event_kept e s)
  dispatch_kept uptime stats_of params s = refl
  dispatch_kept uptime shutdown_now params s = refl
  dispatch_kept uptime build_compile params s = refl
  dispatch_kept uptime unknown params s = refl

  greets_other : (m : Method) (h : Handled N) → m ≢ initialize → greets m h ≡ 0
  greets_other initialize h n = absurd (n refl)
  greets_other object_load h n = refl
  greets_other object_start h n = refl
  greets_other object_stop h n = refl
  greets_other object_unload h n = refl
  greets_other object_get h n = refl
  greets_other list_objects h n = refl
  greets_other event_deliver h n = refl
  greets_other stats_of h n = refl
  greets_other shutdown_now h n = refl
  greets_other build_compile h n = refl
  greets_other unknown h n = refl

  -- A call greets just where it begins the session, and changes nothing before that.
  abbrev Greets : Method → Service N → Service N × Handled N → Type 0
  Greets m s r =
      (flag r.0.initialized ≡ greets m r.1 + flag s.initialized)
      × (s.initialized ≡ false → greets m r.1 ≡ 0 → r.0 ≡ s)

  start_session-Greets :
      (version : ℕ) (s : Service N) → Greets initialize s (start_session y codec version s)
  start_session-Greets version s =
      if_cases (Greets initialize s) (not (version == 1)) _ _ (λ _. (omega arith, λ _ _. refl))
        (λ _.
          if_cases (Greets initialize s) s.initialized _ _ (λ b. (omega arith, λ _ _. refl))
            (λ b. (omega (arith, ap flag b), λ _ z. absurd (omega (arith, z)))))

  params_Greets :
      (s : Service N) (p : Result Text ℕ)
      → Greets initialize s
          (with_params p (λ e. (s, replied (err e))) (λ v. start_session y codec v s))
  params_Greets s (ok v) = start_session-Greets v s
  params_Greets s (err m) = (omega arith, λ _ _. refl)

  handle-Greets :
      (uptime : ℕ) (m : Method) (params : Value N) (s : Service N)
      → Greets m s (handle y codec uptime m params s)
  handle-Greets uptime m params s = elim (handle_cases y codec uptime m params s) [
    | inl (p, e) ↦
        subst (λ n. Greets n s (handle y codec uptime m params s)) (sym p)
          (subst (Greets initialize s) (sym e) (params_Greets s (codec.decode_version params)))
    | inr (p, e) ↦ subst (Greets m s) (sym e) (
        if_cases (Greets m s) s.initialized _ _
          (λ b. (
            omega (
              arith,
              greets_other m (dispatch y codec uptime m params s).1 p,
              ap flag (dispatch_kept uptime m params s),
            ),
            λ c _. absurd (let x : true ≡ false = sym b ∙ c in cc),
          ))
          (λ b. (
            omega (arith, greets_other m (replied (err (not_initialized y codec))) p),
            λ _ _. refl,
          )))
  ]

  session_flag :
      (calls : List (Call N)) (s : Service N)
      → flag (session calls s).1.initialized ≡ (session calls s).0 + flag s.initialized
  unfolding session
  session_flag [] s = omega arith
  session_flag (c ∷ calls) s =
      let r = handle y codec c.uptime (method_of c.method) c.params s in
      omega
        (arith, session_flag calls r.0, (handle-Greets c.uptime (method_of c.method) c.params s).0)

  session_unchanged :
      (calls : List (Call N)) (s : Service N)
      → s.initialized ≡ false
      → (session calls s).0 ≡ 0
      → (session calls s).1 ≡ s
  unfolding session
  session_unchanged [] s b n = refl
  session_unchanged (c ∷ calls) s b n =
      let r = handle y codec c.uptime (method_of c.method) c.params s in
      let same : r.0 ≡ s =
        (handle-Greets c.uptime (method_of c.method) c.params s).1 b (omega (arith, n)) in
      session_unchanged calls r.0 (ap (λ t. t.initialized) same ∙ b) (omega (arith, n)) ∙ same

  flag_cases : (b : Bool) → (flag b ≡ 0) ⊎ ((flag b ≡ 1) × (b ≡ true))
  flag_cases true = inr (refl, refl)
  flag_cases false = inl refl

  -- Of any sequence of method calls to a service that is not initialized: either none of them is an
  -- `sf.initialize` that gets a result, and then the service, with its runtime, is as it was before;
  -- or just one is, and then the service is initialized.
  pub initialize_first :
      (calls : List (Call N)) (s : Service N)
      → s.initialized ≡ false
      → (((session calls s).0 ≡ 0) × ((session calls s).1 ≡ s))
        ⊎ (((session calls s).0 ≡ 1) × ((session calls s).1.initialized ≡ true))
  initialize_first calls s b = elim (flag_cases (session calls s).1.initialized) [
    | inl z ↦
        let n : (session calls s).0 ≡ 0 = omega (arith, session_flag calls s, z) in
        inl (n, session_unchanged calls s b n)
    | inr (z, t) ↦ inr (omega (arith, session_flag calls s, z, ap flag b), t)
  ]
