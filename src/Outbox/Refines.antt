-- ===== src/Outbox/Refines.antt =====
-- The calls of src/outbox.rs on JSON values refine the moves of its two-level queue view.
use spinfoam.Prelude.{
  ◌≡◌, refl, Bool, true, false, ◌||◌, Option, none, Result, ok, err, length, arith, if◌then◌else◌,
  ltb, leb,
}
use spinfoam.Prelude.Int.{ℤ}
use spinfoam.Text.{Text, text}
use spinfoam.Json.{Value, get_str}
use spinfoam.Outbox.Queues.{Bytes, Outbox, SendError, control_slots, push_data, push_control, next}
use spinfoam.Outbox.Frames.{
  encode, control_frame, try_control, count_dropped, try_data, data_frame, poll_control, poll_data,
}
use spinfoam.Outbox.Valid.{IsValid}
use spinfoam.Outbox.Lanes.{
  view, Move, keeps, closes, queues_control, withdraws, drops, output, push_data-Move,
  remove_object-Writes, remove_request-Writes, next-Move,
}
use spinfoam.Outbox.History.{
  Op, controls, try_controls, sends_data, try_sends, removes_request, removes_object, nexts,
  closes as closing, control_with, data_with, step,
}

if_state :
    {A : Type 0} (P : Outbox → Type 0) (c : Bool) (a b : Outbox × A)
    → P a.0
    → (c ≡ false → P b.0)
    → P (if c then a else b).0
if_state P true a b p q = p
if_state P false a b p q = q refl

-- A call that changes nothing but by a move.
abbrev Moves : Outbox → Outbox → Type 0
Moves o o' = Move (view o) (view o') none

poll_control-Move : (b : Bytes) (o : Outbox) → Moves o (poll_control b o).0
unfolding poll_control push_control
poll_control-Move b o = if_state (Moves o) o.closed _ _ (keeps refl refl) λ e.
    if_state (Moves o) (ltb (length o.control) control_slots) _ _ (queues_control b e refl refl)
      λ f. keeps refl refl

poll_data-Move :
    (k : Text) (b : Bytes) (id : Option Text) (o : Outbox) → Moves o (poll_data k b id o).0
unfolding poll_data
poll_data-Move k b id o =
    if_state (Moves o) o.closed _ _ (keeps refl refl) λ e. push_data-Move k b id o

view-count_dropped : (r : Outbox × Result Bytes (Unit {0})) → view (count_dropped r).0 ≡ view r.0
unfolding count_dropped
view-count_dropped (o, ok u) = refl
view-count_dropped (o, err b) = refl

module _ {N : Type 0} (to_vec : Value N → Result Text Bytes) (from_i64 : ℤ → N) where
  try_control-Move : (v : Value N) (o : Outbox) → Moves o (try_control to_vec v o).0
  unfolding try_control push_control
  try_control-Move v o = go (encode to_vec v) refl
    where
      go : (r : Result (Unit {0}) Bytes) → encode to_vec v ≡ r → Moves o (try_control to_vec v o).0
      go (ok b) e =
          rw (e, try_control)
            (if_state (Moves o) (o.closed || leb control_slots (length o.control)) _ _
              (keeps refl refl) λ f. queues_control b (ground arith) refl refl)
      go (err m) e = rw (e, try_control) (keeps refl refl)

  try_data-Move : (k : Text) (v : Value N) (o : Outbox) → Moves o (try_data to_vec k v o).0
  unfolding try_data
  try_data-Move k v o = go (encode to_vec v) refl
    where
      go : (r : Result (Unit {0}) Bytes) → encode to_vec v ≡ r → Moves o (try_data to_vec k v o).0
      go (ok b) e =
          rw (e, try_data)
            (rw (view-count_dropped (push_data k b (get_str v (text "id")) o))
              (push_data-Move k b (get_str v (text "id")) o))
      go (err m) e = rw (e, try_data) (keeps refl refl)

  -- What a call hands to the writer: the frame that a poll of `next` returns.
  abbrev pub handed : Op N → Outbox → Option Bytes
  handed nexts o = output (next o).1
  handed (controls v) o = none
  handed (try_controls v) o = none
  handed (sends_data k v) o = none
  handed (try_sends k v) o = none
  handed (removes_request k id) o = none
  handed (removes_object k) o = none
  handed closing o = none

  -- On valid queues every call is one move of the view: it changes nothing, closes, puts a frame at
  -- the end of the control queue or of one object's queue, takes the frames of a request or of an
  -- object out of that object's queue, or hands the first frame of a queue to the writer. No other
  -- queue changes.
  pub step-Move :
      (op : Op N) (o : Outbox)
      → IsValid o
      → Move (view o) (view (step to_vec from_i64 op o)) (handed op o)
  unfolding step control_with data_with
  step-Move (controls v) o h = go (control_frame to_vec from_i64 v)
    where
      go :
          (r : Result SendError Bytes)
          → Move (view o) (view (control_with to_vec from_i64 r o)) none
      go (ok b) = poll_control-Move b o
      go (err m) = keeps refl refl
  step-Move (try_controls v) o h = try_control-Move v o
  step-Move (sends_data k v) o h = go (data_frame to_vec v)
    where
      go :
          (r : Result SendError Bytes)
          → Move (view o) (view (data_with to_vec from_i64 k (get_str v (text "id")) r o)) none
      go (ok b) = poll_data-Move k b (get_str v (text "id")) o
      go (err m) = keeps refl refl
  step-Move (try_sends k v) o h = try_data-Move k v o
  step-Move (removes_request k id) o h = withdraws k id (remove_request-Writes k id o h) refl
  step-Move (removes_object k) o h = drops k (remove_object-Writes k o h) refl
  step-Move nexts o h = next-Move o h
  step-Move closing o h = closes refl refl
