-- ===== src/Outbox/Remove.antt =====
-- Taking frames away in src/outbox.rs (`remove_request`, `remove_object`) keeps the queues valid.
use spinfoam.Prelude.{
  ℕ, ◌+◌, ◌-◌, ◌≤◌, ◌≡◌, refl, sym, ap, subst, true, false, inl, inr, List, [], ◌∷◌, some, lookup,
  insert, remove, weight, without, total, count, lookup-insert, lookup-remove_ne,
  lookup-remove_self, insert-Distinct, remove-Distinct, remove_absent, total-insert, total-remove,
  count-without_self, count-without_ne, Option-cases, Bool-cases, if_pos, if_neg, arith,
}
use spinfoam.Text.{Text, text_discrete}
use spinfoam.Outbox.Queues.{
  DataFrame, Outbox, sub_usize, queue_bytes, queue_of, has_id, retain, removed, is_empty,
  remove_request, remove_object,
}
use spinfoam.Outbox.Valid.{Fits, IsValid, used-le-total}

pub sub_usize_exact : (a b : ℕ) → b ≤ a → sub_usize a b ≡ a - b
sub_usize_exact a b h = ground arith

pub gone-Fits :
    (object : Text) (o : Outbox)
    → IsValid o
    → (k : Text)
    → Fits
        (count text_discrete k (without text_discrete object o.ready))
        (lookup text_discrete k (remove text_discrete object o.queues))
gone-Fits object o v k = elim (text_discrete k object) [
  | yes p ↦
      subst
        (λ j.
          Fits (count text_discrete j (without text_discrete object o.ready))
            (lookup text_discrete j (remove text_discrete object o.queues)))
        (sym p)
        (rw (lookup-remove_self text_discrete object o.queues v.distinct)
          (count-without_self text_discrete object o.ready))
  | no p ↦
      rw
        (
          lookup-remove_ne text_discrete object k o.queues p,
          count-without_ne text_discrete object k o.ready p,
        )
        (v.fits k)
]

-- A queue that stays, with no more bytes than before.
pub kept-Fits :
    (object : Text) (o : Outbox) (fs gs : List DataFrame)
    → IsValid o
    → queue_of object o ≡ some fs
    → is_empty gs ≡ false
    → queue_bytes gs ≤ queue_bytes fs
    → (k : Text)
    → Fits
        (count text_discrete k o.ready)
        (lookup text_discrete k (insert text_discrete object gs o.queues))
kept-Fits object o fs gs v e g h k = elim (text_discrete object k) [
  | yes p ↦
      rw (lookup-insert text_discrete object k gs o.queues, if_pos (text_discrete object k) p)
        (shrink (count text_discrete k o.ready) fs gs g h (
          subst (Fits (count text_discrete k o.ready)) (subst (λ j. queue_of j o ≡ some fs) p e)
            (v.fits k)))
  | no p ↦
      rw (lookup-insert text_discrete object k gs o.queues, if_neg (text_discrete object k) p)
        (v.fits k)
]
  where
    shrink :
        (n : ℕ) (fs gs : List DataFrame)
        → is_empty gs ≡ false
        → queue_bytes gs ≤ queue_bytes fs
        → Fits n (some fs)
        → Fits n (some gs)
    shrink n fs [] g h w = cc
    shrink n [] (x ∷ gs) g h w = absurd w
    shrink n (f ∷ fs) (x ∷ gs) g h w = (w.0, omega arith)

queue_bytes-retain :
    (id : Text) (fs : List DataFrame) → queue_bytes (retain id fs) + removed id fs ≡ queue_bytes fs
queue_bytes-retain id [] = omega arith
queue_bytes-retain id (f ∷ fs) = elim (Bool-cases (has_id id f)) [
  | inl e ↦ rw e (omega (arith, queue_bytes-retain id fs))
  | inr e ↦ rw e (omega (arith, queue_bytes-retain id fs))
]

-- The bytes counted never exceed those queued, so the subtraction does not wrap.
pub used_of_queue :
    (object : Text) (o : Outbox) (fs : List DataFrame)
    → IsValid o
    → queue_of object o ≡ some fs
    → queue_bytes fs ≤ o.bytes
used_of_queue object o fs v e =
    omega (arith, v.summed, ap (weight queue_bytes) e, used-le-total object o)

pub total-gone :
    (object : Text) (o : Outbox) (fs : List DataFrame)
    → IsValid o
    → queue_of object o ≡ some fs
    → total queue_bytes (remove text_discrete object o.queues) + queue_bytes fs ≡ o.bytes
total-gone object o fs v e = omega (
  arith,
  v.summed,
  ap (weight queue_bytes) e,
  total-remove text_discrete queue_bytes object o.queues,
)

pub total-kept :
    (object : Text) (o : Outbox) (fs gs : List DataFrame)
    → IsValid o
    → queue_of object o ≡ some fs
    → total queue_bytes (insert text_discrete object gs o.queues) + queue_bytes fs
      ≡ o.bytes + queue_bytes gs
total-kept object o fs gs v e = omega (
  arith,
  v.summed,
  ap (weight queue_bytes) e,
  total-insert text_discrete queue_bytes object gs o.queues,
)

pub remove_object-IsValid :
    (object : Text) (o : Outbox) → IsValid o → IsValid (remove_object object o)
unfolding remove_object
remove_object-IsValid object o v = elim (Option-cases (queue_of object o)) [
  | inl e ↦
      rw (remove_object, e)
        (record {
          distinct = v.distinct;
          summed = v.summed;
          bounded = v.bounded;
          fits = λ k.
              subst
                (λ m.
                  Fits (count text_discrete k (without text_discrete object o.ready))
                    (lookup text_discrete k m))
                (remove_absent text_discrete object o.queues e) (gone-Fits object o v k);
          slots = v.slots;
          framed = v.framed;
        })
  | inr (fs, e) ↦
      rw (remove_object, e)
        (record {
          distinct = remove-Distinct text_discrete object o.queues v.distinct;
          summed =
              rw (sub_usize_exact o.bytes (queue_bytes fs) (used_of_queue object o fs v e))
                (omega (arith, total-gone object o fs v e));
          bounded =
              rw (sub_usize_exact o.bytes (queue_bytes fs) (used_of_queue object o fs v e))
                (omega (arith, v.bounded));
          fits = gone-Fits object o v;
          slots = v.slots;
          framed = v.framed;
        })
]

is_empty-bytes : (fs : List DataFrame) → is_empty fs ≡ true → queue_bytes fs ≡ 0
is_empty-bytes [] e = refl
is_empty-bytes (f ∷ fs) e = cc

removed-le :
    (object id : Text) (o : Outbox) (fs : List DataFrame)
    → IsValid o
    → queue_of object o ≡ some fs
    → removed id fs ≤ o.bytes
removed-le object id o fs v e =
    omega (arith, queue_bytes-retain id fs, used_of_queue object o fs v e)

pub remove_request-IsValid :
    (object id : Text) (o : Outbox) → IsValid o → IsValid (remove_request object id o)
unfolding remove_request
remove_request-IsValid object id o v = elim (Option-cases (queue_of object o)) [
  | inl e ↦ rw (remove_request, e) v
  | inr (fs, e) ↦ elim (Bool-cases (is_empty (retain id fs))) [
    | inl b ↦
        rw (remove_request, e, b)
          (record {
            distinct = remove-Distinct text_discrete object o.queues v.distinct;
            summed = rw (sub_usize_exact o.bytes (removed id fs) (removed-le object id o fs v e)) (
                omega (
                  arith,
                  total-gone object o fs v e,
                  queue_bytes-retain id fs,
                  is_empty-bytes (retain id fs) b,
                ));
            bounded =
                rw (sub_usize_exact o.bytes (removed id fs) (removed-le object id o fs v e))
                  (omega (arith, v.bounded));
            fits = gone-Fits object o v;
            slots = v.slots;
            framed = v.framed;
          })
    | inr b ↦
        rw (remove_request, e, b)
          (record {
            distinct = insert-Distinct text_discrete object (retain id fs) o.queues v.distinct;
            summed = rw (sub_usize_exact o.bytes (removed id fs) (removed-le object id o fs v e)) (
                omega (
                  arith,
                  total-kept object o fs (retain id fs) v e,
                  queue_bytes-retain id fs,
                  used_of_queue object o fs v e,
                ));
            bounded =
                rw (sub_usize_exact o.bytes (removed id fs) (removed-le object id o fs v e))
                  (omega (arith, v.bounded));
            fits =
                kept-Fits object o fs (retain id fs) v e b
                  (omega (arith, queue_bytes-retain id fs));
            slots = v.slots;
            framed = v.framed;
          })
  ]
]
