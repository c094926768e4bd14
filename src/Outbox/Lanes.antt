-- ===== src/Outbox/Lanes.antt =====
-- What src/outbox.rs promises, without its bookkeeping: a queue of control frames and one queue of
-- frames for each object, first in, first out. Each call refines one move of this view.
use spinfoam.Prelude.{
  ◌+◌, ◌≡◌, refl, sym, ap, ◌∙◌, Bool, true, false, inl, inr, ◌||◌, List, [], ◌∷◌, ◌++◌, Option,
  none, some, length, lookup, remove, lookup-insert, lookup-remove_ne, lookup-remove_self,
  Option-cases, Bool-cases, if_pos, if_neg, arith, ltb,
}
use spinfoam.Text.{Text, text_discrete}
use spinfoam.Outbox.Queues.{
  Bytes, DataFrame, Outbox, Poll, done, pending, panicked, object_bytes, data_bytes, used, queue_of,
  or_default, enqueue, push_data, retain, is_empty, remove_request, remove_object, take_data,
  poll_data_queues, take_control, poll_queues, next,
}
use spinfoam.Outbox.Valid.{IsValid}
use spinfoam.Outbox.Push.{queue_of-enqueue_self, queue_of-enqueue_ne}
use spinfoam.Outbox.Next.{head_queue}
use spinfoam.Outbox.Fairness.{take_data_serves}

pub record View : Type 0 where
  pub control : List Bytes
  pub lane : Text → List DataFrame
  pub closed : Bool

abbrev pub view : Outbox → View
view o = record { control = o.control; lane = λ k. or_default (queue_of k o); closed = o.closed }

-- One lane is written; all else stays.
abbrev pub Writes : View → View → Text → List DataFrame → Type 0
Writes v w k q =
    (w.lane k ≡ q)
    × ((j : Text) → ¬ (j ≡ k) → w.lane j ≡ v.lane j)
    × (w.control ≡ v.control)
    × (w.closed ≡ v.closed)

-- A move from view `v` to view `w`, with the frame that it hands to the writer, if any.
pub data Move (v w : View) (out : Option Bytes) : Type 0 where
  keeps : w ≡ v → out ≡ none → Move v w out
  closes : w ≡ record v { closed = true } → out ≡ none → Move v w out
  queues_control :
      (b : Bytes)
      → v.closed ≡ false
      → w ≡ record v { control = v.control ++ b ∷ [] }
      → out ≡ none
      → Move v w out
  queues_data :
      (k : Text) (f : DataFrame)
      → v.closed ≡ false
      → Writes v w k (v.lane k ++ f ∷ [])
      → out ≡ none
      → Move v w out
  withdraws : (k id : Text) → Writes v w k (retain id (v.lane k)) → out ≡ none → Move v w out
  drops : (k : Text) → Writes v w k [] → out ≡ none → Move v w out
  emits_control :
      (b : Bytes)
      → v.control ≡ b ∷ w.control
      → w.lane ≡ v.lane
      → w.closed ≡ v.closed
      → out ≡ some b
      → Move v w out
  emits_data :
      (k : Text) (f : DataFrame) (q : List DataFrame)
      → v.lane k ≡ f ∷ q
      → Writes v w k q
      → out ≡ some f.bytes
      → Move v w out

pub enqueue-Writes :
    (k : Text) (f : DataFrame) (o : Outbox)
    → Writes (view o) (view (enqueue k f o)) k ((view o).lane k ++ f ∷ [])
enqueue-Writes k f o = (
  ap or_default (queue_of-enqueue_self k f o),
  λ j h. ap or_default (queue_of-enqueue_ne k j f o (λ p. h (sym p))),
  unfold enqueue in refl,
  unfold enqueue in refl,
)

is_refused : Text → Bytes → Outbox → Bool
is_refused k b o =
    o.closed || ltb object_bytes (used k o + length b) || ltb data_bytes (o.bytes + length b)

open_of_accepted : (k : Text) (b : Bytes) (o : Outbox) → is_refused k b o ≡ false → o.closed ≡ false
unfolding is_refused
open_of_accepted k b o e = ground arith

pub push_data-Move :
    (k : Text) (b : Bytes) (id : Option Text) (o : Outbox)
    → Move (view o) (view (push_data k b id o).0) none
unfolding push_data is_refused
push_data-Move k b id o = elim (Bool-cases (is_refused k b o)) [
  | inl e ↦ rw (e, push_data) (keeps refl refl)
  | inr e ↦
      rw (e, push_data)
        (queues_data k (record { bytes = b; request_id = id }) (open_of_accepted k b o e)
          (enqueue-Writes k _ o) refl)
]

lane_after_remove :
    (k : Text) (o : Outbox)
    → IsValid o
    → lookup text_discrete k (remove text_discrete k o.queues) ≡ none
lane_after_remove k o v = lookup-remove_self text_discrete k o.queues v.distinct

pub remove_object-Writes :
    (k : Text) (o : Outbox) → IsValid o → Writes (view o) (view (remove_object k o)) k []
unfolding remove_object
remove_object-Writes k o v = elim (Option-cases (queue_of k o)) [
  | inl e ↦ rw (remove_object, e) (ap or_default e, λ j h. refl, refl, refl)
  | inr (fs, e) ↦
      rw (remove_object, e)
        (
          ap or_default (lane_after_remove k o v),
          λ j h. ap or_default (lookup-remove_ne text_discrete k j o.queues h),
          refl,
          refl,
        )
]

is_empty-eq : (fs : List DataFrame) → is_empty fs ≡ true → fs ≡ []
is_empty-eq [] e = refl
is_empty-eq (f ∷ fs) e = cc

pub remove_request-Writes :
    (k id : Text) (o : Outbox)
    → IsValid o
    → Writes (view o) (view (remove_request k id o)) k (retain id ((view o).lane k))
unfolding remove_request
remove_request-Writes k id o v = elim (Option-cases (queue_of k o)) [
  | inl e ↦ rw (remove_request, e) (ap or_default e, λ j h. refl, refl, refl)
  | inr (fs, e) ↦ elim (Bool-cases (is_empty (retain id fs))) [
    | inl b ↦
        rw (remove_request, e, b)
          (
            ap or_default (lane_after_remove k o v) ∙ sym (is_empty-eq (retain id fs) b),
            λ j h. ap or_default (lookup-remove_ne text_discrete k j o.queues h),
            refl,
            refl,
          )
    | inr b ↦
        rw (remove_request, e, b)
          (
            ap or_default (
                lookup-insert text_discrete k k (retain id fs) o.queues
                ∙ if_pos (text_discrete k k) refl _ _),
            λ j h. ap or_default (
                lookup-insert text_discrete k j (retain id fs) o.queues
                ∙ if_neg (text_discrete k j) (λ p. h (sym p)) _ _),
            refl,
            refl,
          )
  ]
]

pub take_data-Writes :
    (id : Text) (rest : List Text) (o : Outbox) (f : DataFrame) (fs : List DataFrame)
    → IsValid o
    → queue_of id o ≡ some (f ∷ fs)
    → Writes (view o) (view (take_data id rest o).0) id fs
unfolding take_data
take_data-Writes id rest o f [] v e =
    rw (e, take_data)
      (
        ap or_default (lane_after_remove id o v),
        λ j h. ap or_default (lookup-remove_ne text_discrete id j o.queues h),
        refl,
        refl,
      )
take_data-Writes id rest o f (g ∷ fs) v e =
    rw (e, take_data)
      (
        ap or_default (
            lookup-insert text_discrete id id (g ∷ fs) o.queues
            ∙ if_pos (text_discrete id id) refl _ _),
        λ j h. ap or_default (
            lookup-insert text_discrete id j (g ∷ fs) o.queues
            ∙ if_neg (text_discrete id j) (λ p. h (sym p)) _ _),
        refl,
        refl,
      )

-- What a poll of `next` hands to the writer.
abbrev pub output : Poll (Option Bytes) → Option Bytes
output (done r) = r
output pending = none
output panicked = none

take_data-Move :
    (id : Text) (rest : List Text) (o : Outbox)
    → IsValid o
    → o.ready ≡ id ∷ rest
    → Move (view o) (view (take_data id rest o).0) (output (take_data id rest o).1)
take_data-Move id rest o v e =
    let (f, fs, h, z) = head_queue id rest o v e in
    emits_data id f fs (ap or_default h) (take_data-Writes id rest o f fs v h)
      (ap output (take_data_serves id rest o f fs h).0)

poll_data_queues-Move :
    (r : List Text) (o : Outbox)
    → IsValid o
    → o.ready ≡ r
    → Move (view o) (view (poll_data_queues r o).0) (output (poll_data_queues r o).1)
unfolding poll_data_queues
poll_data_queues-Move [] o v e =
    keeps refl (elim (Bool-cases o.closed) [ inl b ↦ rw b refl | inr b ↦ rw b refl ])
poll_data_queues-Move (id ∷ rest) o v e = take_data-Move id rest o v e

poll_queues-Move :
    (c : List Bytes) (o : Outbox)
    → IsValid o
    → o.control ≡ c
    → Move (view o) (view (poll_queues c o).0) (output (poll_queues c o).1)
unfolding poll_queues take_control
poll_queues-Move [] o v e = poll_data_queues-Move o.ready o v refl
poll_queues-Move (item ∷ items) o v e =
    elim (Bool-cases (ltb o.control_burst 8 || is_empty o.ready)) [
      | inl b ↦ rw b (emits_control item e refl refl refl)
      | inr b ↦ rw b (poll_data_queues-Move o.ready o v refl)
    ]

pub next-Move : (o : Outbox) → IsValid o → Move (view o) (view (next o).0) (output (next o).1)
unfolding next
next-Move o v = poll_queues-Move o.control o v refl
