-- ===== src/Helpers/Kept.antt =====
-- Every helper of src/helpers.rs keeps the table of handles in order.
use spinfoam.Prelude.{
  ℕ, ◌-◌, ◌*◌, ◌^◌, ◌≡◌, refl, Bool, true, false, not, Option, none, some, Result, ok, err, ltb,
  leb, if◌then◌else◌, if_cases, Option-cases, lookup, ℕ_discrete, inl, inr, arith,
}
use spinfoam.Prelude.Int.{ℤ}
use spinfoam.Text.{Text}
use spinfoam.Json.{Value, null, boolean, number, string, array, object}
use spinfoam.Outbox.Queues.{Bytes, Outbox}
use spinfoam.Helpers.Values.{valid_value}
use spinfoam.Helpers.Table.{
  Handle, json_handle, bytes_handle, Guest, Reply, External, json, read_text, as_json, give,
}
use spinfoam.Helpers.Operations.{set_field, push_item, h_string_read, h_bytes, h_read}
use spinfoam.Helpers.Encoded.{
  h_parse, h_get, h_i64, h_equals, h_string, store, set_in, h_set, push_in, h_push, h_dump, encoded,
}
use spinfoam.Helpers.Waiting.{
  event_end, call_end, h_call, Setup, any_grants, renew_window, send_log, h_log,
}
use spinfoam.Helpers.Handles.{IsValid, give-IsValid, give_or_invalid-IsValid, replace-IsValid}

module _ {N : Type 0} where
  -- The table does not depend on the other fields.
  pub touched-IsValid :
      (wait : Text) (window count : ℕ) (g : Guest N)
      → IsValid g
      → IsValid (record g { wait = wait; log_window = window; logs = count })
  touched-IsValid wait window count g v = record {
    distinct = v.distinct;
    few = v.few;
    fresh = v.fresh;
    started = v.started;
    bounded = v.bounded;
  }

  pub h_bytes-IsValid :
      (memory : Option Bytes) (n : ℕ) (g : Guest N) → IsValid g → IsValid (h_bytes memory n g).0
  unfolding h_bytes
  h_bytes-IsValid none n g v =
      if_cases {A = Guest N × Reply} (λ r. IsValid r.0) (ltb (16 * 1024) n) _ _ (λ _. v) λ _. v
  h_bytes-IsValid (some bytes) n g v =
      if_cases {A = Guest N × Reply} (λ r. IsValid r.0) (ltb (16 * 1024) n) _ _ (λ _. v)
        λ _. give-IsValid (bytes_handle bytes) g v

  pub h_read_same :
      (h offset : ℕ) (writable : ℕ → Bool) (n : ℕ) (g : Guest N)
      → (h_read h offset writable n g).0 ≡ g
  unfolding h_read
  h_read_same h offset writable n g = ground arith

  pub h_string_read_same :
      (h : ℕ) (dst : Option ℕ) (n : ℕ) (g : Guest N) → (h_string_read h dst n g).0 ≡ g
  unfolding h_string_read
  h_string_read_same h dst n g = ground arith

  pub event_end-IsValid :
      (received : Option (Value N)) (g : Guest N) → IsValid g → IsValid (event_end received g).0
  unfolding event_end
  event_end-IsValid none g v = touched-IsValid _ _ _ g v
  event_end-IsValid (some w) g v = give-IsValid (json_handle w) _ (touched-IsValid _ _ _ g v)

  pub call_end-IsValid :
      (result : Result ℤ (Value N)) (g : Guest N) → IsValid g → IsValid (call_end result g).0
  unfolding call_end
  call_end-IsValid (err e) g v = touched-IsValid _ _ _ g v
  call_end-IsValid (ok w) g v = give-IsValid (json_handle w) _ (touched-IsValid _ _ _ g v)

module _ {N : Type 0} (x : External N) where
  pub h_dump-IsValid : (h : ℕ) (g : Guest N) → IsValid g → IsValid (h_dump x h g).0
  unfolding h_dump
  h_dump-IsValid h g v = elim (Option-cases (encoded x (json h g))) [
    | inl e ↦ rw (e, h_dump) v
    | inr (bytes, e) ↦ rw (e, h_dump) (give-IsValid (bytes_handle bytes) g v)
  ]

  given_if :
      (c : Bool) (r : Reply) (w : Value N) (g : Guest N)
      → IsValid g
      → IsValid (let z : Guest N × Reply = if c then (g, r) else give (json_handle w) g in z).0
  given_if true r w g v = v
  given_if false r w g v = give-IsValid (json_handle w) g v

  pub h_parse-IsValid :
      (memory : Option Bytes) (n : ℕ) (g : Guest N) → IsValid g → IsValid (h_parse x memory n g).0
  unfolding h_parse
  h_parse-IsValid memory n g v =
      if_cases {A = Guest N × Reply} (λ r. IsValid r.0) (ltb (16 * 1024) n) _ _ (λ _. v)
        λ _. elim (Option-cases (read_text x memory n)) [
          | inl e ↦ rw e v
          | inr (input, e) ↦ rw e (elim (Option-cases (x.from_str input)) [
            | inl f ↦ rw f v
            | inr (w, f) ↦ rw f (given_if _ _ w g v)
          ])
        ]

  pub h_string-IsValid :
      (memory : Option Bytes) (n : ℕ) (g : Guest N) → IsValid g → IsValid (h_string x memory n g).0
  unfolding h_string
  h_string-IsValid memory n g v = elim (Option-cases (read_text x memory n)) [
    | inl e ↦ rw (e, h_string) v
    | inr (s, e) ↦ rw (e, h_string) (given_if _ _ (string s) g v)
  ]

  pub h_get-IsValid :
      (h : ℕ) (memory : Option Bytes) (n : ℕ) (g : Guest N)
      → IsValid g
      → IsValid (h_get x h memory n g).0
  unfolding h_get
  h_get-IsValid h memory n g v = elim (Option-cases (read_text x memory n)) [
    | inl e ↦ rw (e, h_get) v
    | inr (key, e) ↦ rw (e, h_get) (give_or_invalid-IsValid _ g v)
  ]

  pub h_equals_same :
      (h : ℕ) (km : Option Bytes) (kn : ℕ) (vm : Option Bytes) (vn : ℕ) (g : Guest N)
      → (h_equals x h km kn vm vn g).0 ≡ g
  unfolding h_equals
  h_equals_same h km kn vm vn g = ground arith

  pub h_i64_same : (h : ℕ) (writable : Bool) (g : Guest N) → (h_i64 x h writable g).0 ≡ g
  unfolding h_i64
  h_i64_same h writable g = ground arith

  store-IsValid :
      (h : ℕ) (target : Value N) (held : Handle N) (g : Guest N)
      → IsValid g
      → lookup ℕ_discrete h g.handles ≡ some held
      → IsValid (store x h target g).0
  unfolding store
  store-IsValid h target held g v e =
      if_cases {A = Guest N × Reply} (λ r. IsValid r.0) (not (valid_value x.to_vec target)) _ _
        (λ _. v) λ _. replace-IsValid h held (json_handle target) g v e

  set_in-IsValid :
      (h : ℕ) (key : Text) (value : Value N) (o : Option (Handle N)) (g : Guest N)
      → IsValid g
      → lookup ℕ_discrete h g.handles ≡ o
      → IsValid (set_in x h key value (as_json o) g).0
  unfolding set_in
  set_in-IsValid h key value none g v e = v
  set_in-IsValid h key value (some (bytes_handle b)) g v e = v
  set_in-IsValid h key value (some (json_handle (object fs))) g v e =
      store-IsValid h (object (set_field key value fs)) (json_handle (object fs)) g v e
  set_in-IsValid h key value (some (json_handle (array xs))) g v e = v
  set_in-IsValid h key value (some (json_handle null)) g v e = v
  set_in-IsValid h key value (some (json_handle (boolean b))) g v e = v
  set_in-IsValid h key value (some (json_handle (number n))) g v e = v
  set_in-IsValid h key value (some (json_handle (string s))) g v e = v

  push_in-IsValid :
      (h : ℕ) (value : Value N) (o : Option (Handle N)) (g : Guest N)
      → IsValid g
      → lookup ℕ_discrete h g.handles ≡ o
      → IsValid (push_in x h value (as_json o) g).0
  unfolding push_in
  push_in-IsValid h value none g v e = v
  push_in-IsValid h value (some (bytes_handle b)) g v e = v
  push_in-IsValid h value (some (json_handle (array xs))) g v e =
      store-IsValid h (array (push_item value xs)) (json_handle (array xs)) g v e
  push_in-IsValid h value (some (json_handle (object fs))) g v e = v
  push_in-IsValid h value (some (json_handle null)) g v e = v
  push_in-IsValid h value (some (json_handle (boolean b))) g v e = v
  push_in-IsValid h value (some (json_handle (number n))) g v e = v
  push_in-IsValid h value (some (json_handle (string s))) g v e = v

  pub h_set-IsValid :
      (h : ℕ) (memory : Option Bytes) (n value : ℕ) (g : Guest N)
      → IsValid g
      → IsValid (h_set x h memory n value g).0
  unfolding h_set
  h_set-IsValid h memory n value g v = elim (Option-cases (read_text x memory n)) [
    | inl e ↦ rw (e, h_set) v
    | inr (key, e) ↦ elim (Option-cases (json value g)) [
      | inl f ↦ rw (e, f, h_set) v
      | inr (w, f) ↦ rw (e, f, h_set) (set_in-IsValid h key w _ g v refl)
    ]
  ]

  pub h_push-IsValid : (h value : ℕ) (g : Guest N) → IsValid g → IsValid (h_push x h value g).0
  unfolding h_push
  h_push-IsValid h value g v = elim (Option-cases (json value g)) [
    | inl f ↦ rw (f, h_push) v
    | inr (w, f) ↦ rw (f, h_push) (push_in-IsValid h w _ g v refl)
  ]

  pub h_call-IsValid :
      (memory : Option Bytes) (n h ms : ℕ) (g : Guest N)
      → IsValid g
      → IsValid (h_call x memory n h ms g).0
  unfolding h_call
  h_call-IsValid memory n h ms g v = elim (Option-cases (read_text x memory n)) [
    | inl e ↦ rw (e, h_call) v
    | inr (capability, e) ↦ elim (Option-cases (json h g)) [
      | inl f ↦ rw (e, f, h_call) v
      | inr (args, f) ↦
          rw (e, f, h_call)
            (if_cases {A = Guest N × Setup N} (λ r. IsValid r.0)
              (not (any_grants x capability args g.capabilities)) _ _ (λ _. v)
              λ _. touched-IsValid _ _ _ g v)
    ]
  ]

  renew_window-IsValid : (now : ℕ) (g : Guest N) → IsValid g → IsValid (renew_window x now g)
  renew_window-IsValid now g v =
      if_cases {A = Guest N} IsValid (leb (10 ^ 9) (now - g.log_window)) _ _
        (λ _. touched-IsValid _ _ _ g v) λ _. v

  send_log-IsValid :
      (message : Text) (o : Outbox) (g : Guest N) → IsValid g → IsValid (send_log x message o g).0.0
  unfolding send_log
  send_log-IsValid message o g v =
      if_cases {A = (Guest N × Outbox) × Reply} (λ r. IsValid r.0.0) (leb 10 g.logs) _ _ (λ _. v)
        λ _. touched-IsValid _ _ _ g v

  pub h_log-IsValid :
      (memory : Option Bytes) (n now : ℕ) (o : Outbox) (g : Guest N)
      → IsValid g
      → IsValid (h_log x memory n now o g).0.0
  unfolding h_log
  h_log-IsValid memory n now o g v =
      if_cases {A = (Guest N × Outbox) × Reply} (λ r. IsValid r.0.0) (ltb 1024 n) _ _ (λ _. v)
        λ _. elim (Option-cases (read_text x memory n)) [
          | inl e ↦ rw e v
          | inr (message, e) ↦
              rw e
                (send_log-IsValid message o (renew_window x now g) (renew_window-IsValid now g v))
        ]
