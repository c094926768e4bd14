-- ===== src/Outbox/Push.antt =====
-- Pushing a frame in src/outbox.rs keeps the queues valid.
use spinfoam.Prelude.{
  ◌+◌, ◌≤◌, ◌<◌, ◌≡◌, refl, ap, subst, ◌∙◌, inl, inr, [], ◌∷◌, ◌++◌, Option, none, some, length,
  count, lookup-insert, insert-Distinct, total-insert, count-append, length-append, Option-cases,
  if_pos, if_neg, arith,
}
use spinfoam.Text.{Text, text_discrete}
use spinfoam.Outbox.Queues.{
  Bytes, DataFrame, Outbox, max_frame, control_slots, data_bytes, object_bytes, queue_bytes,
  queue_of, used, or_default, enqueue, push_data, push_control,
}
use spinfoam.Outbox.Valid.{
  Fits, IsValid, AllFit-append, Fits-push, or_default-bytes, queue_bytes-append, count_single_self,
  count_single_ne,
}

pub queue_of-enqueue_self :
    (object : Text) (f : DataFrame) (o : Outbox)
    → queue_of object (enqueue object f o) ≡ some (or_default (queue_of object o) ++ f ∷ [])
unfolding enqueue
queue_of-enqueue_self object f o =
    lookup-insert text_discrete object object _ o.queues
    ∙ if_pos (text_discrete object object) refl _ _

pub queue_of-enqueue_ne :
    (object k : Text) (f : DataFrame) (o : Outbox)
    → ¬ (object ≡ k)
    → queue_of k (enqueue object f o) ≡ queue_of k o
unfolding enqueue
queue_of-enqueue_ne object k f o h =
    lookup-insert text_discrete object k _ o.queues ∙ if_neg (text_discrete object k) h _ _

ready-enqueue_self :
    (object : Text) (f : DataFrame) (o : Outbox)
    → count text_discrete object (enqueue object f o).ready ≡ elim (queue_of object o) [
      | none ↦ count text_discrete object o.ready + 1
      | some _ ↦ count text_discrete object o.ready
    ]
unfolding enqueue
ready-enqueue_self object f o = elim (Option-cases (queue_of object o)) [
  | inl e ↦
      rw (e, enqueue)
        (count-append text_discrete object o.ready (object ∷ [])
          ∙ ap (◌+◌ (count text_discrete object o.ready)) (count_single_self object))
  | inr (fs, e) ↦ rw (e, enqueue) refl
]

ready-enqueue_ne :
    (object k : Text) (f : DataFrame) (o : Outbox)
    → ¬ (object ≡ k)
    → count text_discrete k (enqueue object f o).ready ≡ count text_discrete k o.ready
unfolding enqueue
ready-enqueue_ne object k f o h = elim (Option-cases (queue_of object o)) [
  | inl e ↦
      rw (e, enqueue)
        (omega
          (arith, count-append text_discrete k o.ready (object ∷ []), count_single_ne object k h))
  | inr (fs, e) ↦ rw (e, enqueue) refl
]

enqueue-Fits :
    (object : Text) (f : DataFrame) (o : Outbox)
    → IsValid o
    → used object o + length f.bytes ≤ object_bytes
    → (k : Text)
    → Fits (count text_discrete k (enqueue object f o).ready) (queue_of k (enqueue object f o))
enqueue-Fits object f o v h k = elim (text_discrete object k) [
  | yes p ↦
      subst
        (λ j.
          Fits (count text_discrete j (enqueue object f o).ready) (queue_of j (enqueue object f o)))
        p
        (rw (queue_of-enqueue_self object f o, ready-enqueue_self object f o)
          (Fits-push _ (queue_of object o) f (v.fits object) h))
  | no p ↦ rw (queue_of-enqueue_ne object k f o p, ready-enqueue_ne object k f o p) (v.fits k)
]

pub enqueue-IsValid :
    (object : Text) (f : DataFrame) (o : Outbox)
    → IsValid o
    → used object o + length f.bytes ≤ object_bytes
    → o.bytes + length f.bytes ≤ data_bytes
    → IsValid (enqueue object f o)
enqueue-IsValid object f o v h k = record {
  distinct = unfold enqueue in insert-Distinct text_discrete object _ o.queues v.distinct;
  summed =
      unfold enqueue in
      omega (
        arith,
        v.summed,
        total-insert text_discrete queue_bytes object (or_default (queue_of object o) ++ f ∷ [])
            o.queues,
        queue_bytes-append (or_default (queue_of object o)) (f ∷ []),
        or_default-bytes (queue_of object o),
      );
  bounded = unfold enqueue in k;
  fits = enqueue-Fits object f o v h;
  slots = unfold enqueue in v.slots;
  framed = unfold enqueue in v.framed;
}

pub push_data-IsValid :
    (object : Text) (bytes : Bytes) (id : Option Text) (o : Outbox)
    → IsValid o
    → IsValid (push_data object bytes id o).0
unfolding push_data
push_data-IsValid object bytes id o v =
    ground (arith, enqueue-IsValid object (record { bytes = bytes; request_id = id }) o v)

pub push_control-IsValid :
    (bytes : Bytes) (o : Outbox)
    → IsValid o
    → length o.control < control_slots
    → length bytes ≤ max_frame
    → IsValid (push_control bytes o)
unfolding push_control
push_control-IsValid bytes o v h k = record {
  distinct = v.distinct;
  summed = v.summed;
  bounded = v.bounded;
  fits = v.fits;
  slots = omega (arith, length-append o.control (bytes ∷ []));
  framed = AllFit-append o.control bytes v.framed k;
}
