-- ===== src/Outbox/Shrinks.antt =====
-- Which operations of src/outbox.rs can give an object a queue that it did not have: the sends of
-- its own data, and no others.
use spinfoam.Prelude.{
  ◌≡◌, ◌≢◌, refl, sym, ap, ◌∙◌, Bool, true, false, List, [], ◌∷◌, Option, none, some, Result, ok,
  err, if_cases, lookup, insert, lookup-insert_ne, lookup-remove_self, lookup-remove_absent,
  Option-cases, inl, inr, arith,
}
use spinfoam.Prelude.Int.{ℤ}
use spinfoam.Text.{Text, text, text_discrete}
use spinfoam.Json.{Value, get_str}
use spinfoam.Outbox.Queues.{
  Bytes, Outbox, Poll, SendError, DataFrame, queue_of, push_data, push_control, retain, is_empty,
  remove_request, remove_object, take_data, poll_data_queues, take_control, poll_queues, next,
}
use spinfoam.Outbox.Frames.{
  encode, control_frame, try_control, count_dropped, try_data, poll_control, poll_data,
}
use spinfoam.Outbox.Valid.{IsValid}
use spinfoam.Outbox.Push.{queue_of-enqueue_ne}
use spinfoam.Outbox.History.{
  Op, controls, try_controls, sends_data, try_sends, removes_request, removes_object, nexts, closes,
  control_with, step,
}

-- An object without a queue is still without one.
abbrev pub Shrinks : Outbox → Outbox → Type 0
Shrinks o o' = (k : Text) → queue_of k o ≡ none → queue_of k o' ≡ none

-- A write under a key that was there leaves the missing ones missing.
insert-lookup_absent :
    (j k : Text) (fs gs : List DataFrame) (m : List (Text × List DataFrame))
    → lookup text_discrete j m ≡ some gs
    → lookup text_discrete k m ≡ none
    → lookup text_discrete k (insert text_discrete j fs m) ≡ none
insert-lookup_absent j k fs gs m e h = elim (text_discrete j k) [
  | yes p ↦ absurd (let x : some gs ≡ none = sym e ∙ ap (λ i. lookup text_discrete i m) p ∙ h in cc)
  | no p ↦ lookup-insert_ne text_discrete j k fs m p ∙ h
]

pub remove_request-Shrinks :
    (object id : Text) (o : Outbox) → Shrinks o (remove_request object id o)
unfolding remove_request
remove_request-Shrinks object id o k h = elim (Option-cases (queue_of object o)) [
  | inl e ↦ rw (e, remove_request) h
  | inr (fs, e) ↦
      rw (e, remove_request)
        (if_cases {A = Outbox} (λ r. queue_of k r ≡ none) (is_empty (retain id fs)) _ _
          (λ _. lookup-remove_absent text_discrete object k o.queues h)
          λ _. insert-lookup_absent object k (retain id fs) fs o.queues e h)
]

pub remove_object-Shrinks : (object : Text) (o : Outbox) → Shrinks o (remove_object object o)
unfolding remove_object
remove_object-Shrinks object o k h = elim (Option-cases (queue_of object o)) [
  | inl e ↦ rw (e, remove_object) h
  | inr (fs, e) ↦ rw (e, remove_object) (lookup-remove_absent text_discrete object k o.queues h)
]

-- An object whose queue is removed has none.
pub remove_object_gone :
    (object : Text) (o : Outbox) → IsValid o → queue_of object (remove_object object o) ≡ none
unfolding remove_object
remove_object_gone object o v = elim (Option-cases (queue_of object o)) [
  | inl e ↦ rw (e, remove_object) e
  | inr (fs, e) ↦
      rw (e, remove_object) (lookup-remove_self text_discrete object o.queues v.distinct)
]

take_data-Shrinks : (id : Text) (rest : List Text) (o : Outbox) → Shrinks o (take_data id rest o).0
unfolding take_data
take_data-Shrinks id rest o k h = elim (Option-cases (queue_of id o)) [
  | inl e ↦ rw (e, take_data) h
  | inr ([], e) ↦ rw (e, take_data) h
  | inr (f ∷ [], e) ↦ rw (e, take_data) (lookup-remove_absent text_discrete id k o.queues h)
  | inr (f ∷ g ∷ fs, e) ↦
      rw (e, take_data) (insert-lookup_absent id k (g ∷ fs) (f ∷ g ∷ fs) o.queues e h)
]

poll_data_queues-Shrinks : (ready : List Text) (o : Outbox) → Shrinks o (poll_data_queues ready o).0
unfolding poll_data_queues
poll_data_queues-Shrinks [] o k h = h
poll_data_queues-Shrinks (id ∷ rest) o k h = take_data-Shrinks id rest o k h

poll_queues-Shrinks : (cs : List Bytes) (o : Outbox) → Shrinks o (poll_queues cs o).0
unfolding poll_queues take_control
poll_queues-Shrinks [] o k h = poll_data_queues-Shrinks o.ready o k h
poll_queues-Shrinks (c ∷ cs) o k h =
    if_cases {A = Outbox × Poll (Option Bytes)} (λ r. queue_of k r.0 ≡ none) _ _ _ (λ _. h)
      λ _. poll_data_queues-Shrinks o.ready o k h

-- The data that an object sends leaves the queues of all others as they are.
pub push_data_others :
    (object : Text) (bytes : Bytes) (id : Option Text) (o : Outbox) (k : Text)
    → object ≢ k
    → queue_of k (push_data object bytes id o).0 ≡ queue_of k o
unfolding push_data
push_data_others object bytes id o k h =
    if_cases {A = Outbox × Result Bytes (Unit {0})} (λ r. queue_of k r.0 ≡ queue_of k o) _ _ _
      (λ _. refl) λ _. queue_of-enqueue_ne object k (record { bytes = bytes; request_id = id }) o h

pub poll_data_others :
    (object : Text) (bytes : Bytes) (id : Option Text) (o : Outbox) (k : Text)
    → object ≢ k
    → queue_of k (poll_data object bytes id o).0 ≡ queue_of k o
unfolding poll_data
poll_data_others object bytes id o k h = ground (arith, push_data_others object bytes id o k h)

module _ {N : Type 0} (to_vec : Value N → Result Text Bytes) where
  pub try_control-queue_of :
      (v : Value N) (o : Outbox) (k : Text) → queue_of k (try_control to_vec v o).0 ≡ queue_of k o
  unfolding try_control push_control
  try_control-queue_of v o k = ground arith

  count_dropped-queue_of :
      (r : Outbox × Result Bytes (Unit {0})) (k : Text)
      → queue_of k (count_dropped r).0 ≡ queue_of k r.0
  unfolding count_dropped
  count_dropped-queue_of (o, ok u) k = refl
  count_dropped-queue_of (o, err b) k = refl

  pub try_data_others :
      (object : Text) (v : Value N) (o : Outbox) (k : Text)
      → object ≢ k
      → queue_of k (try_data to_vec object v o).0 ≡ queue_of k o
  unfolding try_data
  try_data_others object v o k h = go (encode to_vec v) refl
    where
      go :
          (r : Result (Unit {0}) Bytes)
          → encode to_vec v ≡ r
          → queue_of k (try_data to_vec object v o).0 ≡ queue_of k o
      go (err e) f = rw (f, try_data) refl
      go (ok b) f =
          rw (f, try_data)
            (count_dropped-queue_of _ k ∙ push_data_others object b (get_str v (text "id")) o k h)

  -- The calls on the outbox that send no object's data.
  abbrev pub sends_none : Op N → Bool
  sends_none (sends_data k v) = false
  sends_none (try_sends k v) = false
  sends_none _ = true

module _ {N : Type 0} (to_vec : Value N → Result Text Bytes) (from_i64 : ℤ → N) where
  control_with-Shrinks :
      (r : Result SendError Bytes) (o : Outbox) → Shrinks o (control_with to_vec from_i64 r o)
  unfolding control_with poll_control push_control
  control_with-Shrinks (ok b) o k h = ground arith
  control_with-Shrinks (err e) o k h = h

  pub step-Shrinks :
      (op : Op N) (o : Outbox) → sends_none to_vec op ≡ true → Shrinks o (step to_vec from_i64 op o)
  unfolding step next
  step-Shrinks (controls v) o e k h = control_with-Shrinks (control_frame to_vec from_i64 v) o k h
  step-Shrinks (try_controls v) o e k h = try_control-queue_of to_vec v o k ∙ h
  step-Shrinks (sends_data j v) o e k h = cc
  step-Shrinks (try_sends j v) o e k h = cc
  step-Shrinks (removes_request j id) o e k h = remove_request-Shrinks j id o k h
  step-Shrinks (removes_object j) o e k h = remove_object-Shrinks j o k h
  step-Shrinks nexts o e k h = poll_queues-Shrinks o.control o k h
  step-Shrinks closes o e k h = h
