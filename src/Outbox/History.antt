-- ===== src/Outbox/History.antt =====
-- Histories of calls on the outbox of src/outbox.rs: tasks interleave between the polls, so any
-- sequence of calls may happen. `to_vec` and `from_i64` are serde_json's, parameters.
use spinfoam.Prelude.{
  ◌≤◌, ◌≡◌, ◌≢◌, refl, subst, true, inl, inr, List, [], ◌∷◌, Option, some, Result, ok, err, length,
  length-append, Option-cases, arith,
}
use spinfoam.Prelude.Int.{ℤ}
use spinfoam.Text.{Text, text}
use spinfoam.Json.{Value, get, get_str}
use spinfoam.Outbox.Queues.{
  Bytes, Outbox, done, panicked, SendError, max_frame, initial, remove_request, remove_object, next,
}
use spinfoam.Outbox.Frames.{
  encode, too_large, control_frame, try_control, count_dropped, try_data, data_frame, poll_control,
  poll_data,
}
use spinfoam.Outbox.Valid.{IsValid, initial-IsValid}
use spinfoam.Outbox.Push.{push_data-IsValid, push_control-IsValid}
use spinfoam.Outbox.Remove.{remove_object-IsValid, remove_request-IsValid}
use spinfoam.Outbox.Next.{next-IsValid}
use spinfoam.Outbox.Sound.{Sound, Sound-safe, next-Sound}

-- One poll of an `async` method, or one call of another; `closes` is `closed.cancel()`.
pub data Op (N : Type 0) : Type 0 where
  controls try_controls : Value N → Op N
  sends_data try_sends : Text → Value N → Op N
  removes_request : Text → Text → Op N
  removes_object : Text → Op N
  nexts closes : Op N

count_dropped-IsValid :
    (r : Outbox × Result Bytes (Unit {0})) → IsValid r.0 → IsValid (count_dropped r).0
unfolding count_dropped
count_dropped-IsValid (o, ok u) h = h
count_dropped-IsValid (o, err b) h = record {
  distinct = h.distinct;
  summed = h.summed;
  bounded = h.bounded;
  fits = h.fits;
  slots = h.slots;
  framed = h.framed;
}

module _ {N : Type 0} (to_vec : Value N → Result Text Bytes) (from_i64 : ℤ → N) where
  unfoldable pub control_with : Result SendError Bytes → Outbox → Outbox
  control_with (ok bytes) o = (poll_control bytes o).0
  control_with (err e) o = o

  unfoldable pub data_with : Text → Option Text → Result SendError Bytes → Outbox → Outbox
  data_with k id (ok bytes) o = (poll_data k bytes id o).0
  data_with k id (err e) o = o

  unfoldable pub step : Op N → Outbox → Outbox
  step (controls v) o = control_with (control_frame to_vec from_i64 v) o
  step (try_controls v) o = (try_control to_vec v o).0
  step (sends_data k v) o = data_with k (get_str v (text "id")) (data_frame to_vec v) o
  step (try_sends k v) o = (try_data to_vec k v o).0
  step (removes_request k id) o = remove_request k id o
  step (removes_object k) o = remove_object k o
  step nexts o = (next o).0
  step closes o = record o { closed = true }

  -- The last call of the list is the latest.
  unfoldable pub run : List (Op N) → Outbox
  run [] = initial
  run (op ∷ ops) = step op (run ops)

  encode_bound : (v : Value N) {b : Bytes} → encode to_vec v ≡ ok b → length b ≤ max_frame
  unfolding encode
  encode_bound v {b} e = go (to_vec v) refl
    where
      go : (r : Result Text Bytes) → to_vec v ≡ r → length b ≤ max_frame
      go (ok raw) h = ground (arith, length-append raw (b'\n' ∷ []))
      go (err m) h = ground arith

  control_frame_bound :
      (v : Value N) {b : Bytes} → control_frame to_vec from_i64 v ≡ ok b → length b ≤ max_frame
  unfolding control_frame
  control_frame_bound v {b} e = elim (Option-cases (get v (text "id"))) [
    | inl h ↦ ground (arith, encode_bound v {b = b}, h)
    | inr (id, h) ↦
        ground (arith, encode_bound v {b = b}, encode_bound (too_large from_i64 id) {b = b}, h)
  ]

  poll_control-IsValid :
      (b : Bytes) (o : Outbox) → IsValid o → length b ≤ max_frame → IsValid (poll_control b o).0
  unfolding poll_control
  poll_control-IsValid b o v h = ground (arith, push_control-IsValid b o v)

  pub try_control-IsValid :
      (v : Value N) (o : Outbox) → IsValid o → IsValid (try_control to_vec v o).0
  unfolding try_control
  try_control-IsValid v o h = go (encode to_vec v) refl
    where
      go : (r : Result (Unit {0}) Bytes) → encode to_vec v ≡ r → IsValid (try_control to_vec v o).0
      go (ok b) e =
          rw (e, try_control) (ground (arith, push_control-IsValid b o h, encode_bound v e))
      go (err m) e = rw (e, try_control) h

  pub poll_data-IsValid :
      (k : Text) (b : Bytes) (id : Option Text) (o : Outbox)
      → IsValid o
      → IsValid (poll_data k b id o).0
  unfolding poll_data
  poll_data-IsValid k b id o v = ground (arith, push_data-IsValid k b id o v)

  pub try_data-IsValid :
      (k : Text) (v : Value N) (o : Outbox) → IsValid o → IsValid (try_data to_vec k v o).0
  unfolding try_data
  try_data-IsValid k v o h = go (encode to_vec v) refl
    where
      go : (r : Result (Unit {0}) Bytes) → encode to_vec v ≡ r → IsValid (try_data to_vec k v o).0
      go (ok b) e =
          rw (e, try_data)
            (count_dropped-IsValid _ (push_data-IsValid k b (get_str v (text "id")) o h))
      go (err m) e = rw (e, try_data) h

  -- Every call keeps the queues valid.
  pub step-IsValid : (op : Op N) (o : Outbox) → IsValid o → IsValid (step op o)
  unfolding step control_with data_with
  step-IsValid (controls v) o h = go (control_frame to_vec from_i64 v) refl
    where
      go :
          (r : Result SendError Bytes)
          → control_frame to_vec from_i64 v ≡ r
          → IsValid (control_with r o)
      go (ok b) e = poll_control-IsValid b o h (control_frame_bound v e)
      go (err m) e = h
  step-IsValid (try_controls v) o h = try_control-IsValid v o h
  step-IsValid (sends_data k v) o h = go (data_frame to_vec v)
    where
      go : (r : Result SendError Bytes) → IsValid (data_with k (get_str v (text "id")) r o)
      go (ok b) = poll_data-IsValid k b (get_str v (text "id")) o h
      go (err m) = h
  step-IsValid (try_sends k v) o h = try_data-IsValid k v o h
  step-IsValid (removes_request k id) o h = remove_request-IsValid k id o h
  step-IsValid (removes_object k) o h = remove_object-IsValid k o h
  step-IsValid nexts o h = next-IsValid o h
  step-IsValid closes o h = record {
    distinct = h.distinct;
    summed = h.summed;
    bounded = h.bounded;
    fits = h.fits;
    slots = h.slots;
    framed = h.framed;
  }

  -- After any history of calls: `bytes` is the sum of the queued frames' lengths and at most 4 MiB,
  -- each object's queue holds at most 64 KiB, no queue is empty, the ready queue holds exactly the
  -- objects with a queue, each once, at most 64 control frames wait, and none is above 256 KiB.
  pub run-IsValid : (ops : List (Op N)) → IsValid (run ops)
  unfolding run
  run-IsValid [] = initial-IsValid
  run-IsValid (op ∷ ops) = step-IsValid op (run ops) (run-IsValid ops)

  -- After any history of calls `next` does not panic: the queue of an object that is ready is there
  -- and holds a frame.
  pub next-ne-panicked : (ops : List (Op N)) → (next (run ops)).1 ≢ panicked
  next-ne-panicked ops = Sound-safe _ (next-Sound (run ops) (run-IsValid ops))

  -- After any history of calls the frame that `next` returns is at most 256 KiB long.
  pub next-le-max_frame :
      (ops : List (Op N)) (b : Bytes) → (next (run ops)).1 ≡ done (some b) → length b ≤ max_frame
  next-le-max_frame ops b e = subst Sound e (next-Sound (run ops) (run-IsValid ops))
