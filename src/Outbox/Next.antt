-- ===== src/Outbox/Next.antt =====
-- `next` of src/outbox.rs keeps the queues valid, and its `expect`s hold.
use spinfoam.Prelude.{
  suc, ◌+◌, ◌-◌, ◌≡◌, refl, sym, ap, subst, ◌∙◌, inl, inr, List, [], ◌∷◌, ◌++◌, Option, none, some,
  length, lookup, insert, remove, count, lookup-remove_ne, lookup-remove_self, insert-Distinct,
  remove-Distinct, count-append, Bool-cases, if_pos, if_neg, arith, ltb, ◌||◌,
}
use spinfoam.Text.{Text, text_discrete}
use spinfoam.Outbox.Queues.{
  Bytes, DataFrame, Outbox, sub_usize, queue_of, is_empty, take_data, poll_data_queues,
  take_control, poll_queues, next,
}
use spinfoam.Outbox.Valid.{Fits, IsValid, AllFit}
use spinfoam.Outbox.Remove.{sub_usize_exact, used_of_queue, total-gone, total-kept, kept-Fits}

-- The object at the head of the ready queue has a frame, and stands there once.
pub head_queue :
    (id : Text) (rest : List Text) (o : Outbox)
    → IsValid o
    → o.ready ≡ id ∷ rest
    → (f : DataFrame) × (fs : List DataFrame) × (queue_of id o ≡ some (f ∷ fs))
      × (count text_discrete id rest ≡ 0)
head_queue id rest o v e =
    go (queue_of id o) refl
      (subst (λ r. Fits (count text_discrete id r) (queue_of id o)) e (v.fits id))
  where
    once : count text_discrete id (id ∷ rest) ≡ suc (count text_discrete id rest)
    once = if_pos (text_discrete id id) refl _ _

    go :
        (q : Option (List DataFrame))
        → queue_of id o ≡ q
        → Fits (count text_discrete id (id ∷ rest)) q
        → (f : DataFrame) × (fs : List DataFrame) × (queue_of id o ≡ some (f ∷ fs))
          × (count text_discrete id rest ≡ 0)
    go none h w = absurd (omega (arith, once))
    go (some []) h w = absurd w
    go (some (f ∷ fs)) h w = (f, fs, h, omega (arith, once, w.0))

count_tail_ne :
    (id k : Text) (rest : List Text)
    → ¬ (k ≡ id)
    → count text_discrete k (id ∷ rest) ≡ count text_discrete k rest
count_tail_ne id k rest h = if_neg (text_discrete id k) (λ p. h (sym p)) _ _

count-rotate :
    (id k : Text) (rest : List Text)
    → count text_discrete k (rest ++ id ∷ []) ≡ count text_discrete k (id ∷ rest)
count-rotate id k rest = elim (text_discrete id k) [
  | yes p ↦
      count-append text_discrete k rest (id ∷ [])
      ∙ ap (◌+◌ (count text_discrete k rest)) (if_pos (text_discrete id k) p _ _)
      ∙ (let one : count text_discrete k rest + 1 ≡ suc (count text_discrete k rest) =
            omega arith in
          one)
      ∙ sym (if_pos (text_discrete id k) p _ _)
  | no p ↦
      count-append text_discrete k rest (id ∷ [])
      ∙ ap (◌+◌ (count text_discrete k rest)) (if_neg (text_discrete id k) p _ _)
      ∙ (let same : count text_discrete k rest + 0 ≡ count text_discrete k rest = omega arith in
          same)
      ∙ sym (if_neg (text_discrete id k) p _ _)
]

last-Fits :
    (id : Text) (rest : List Text) (o : Outbox)
    → IsValid o
    → o.ready ≡ id ∷ rest
    → count text_discrete id rest ≡ 0
    → (k : Text)
    → Fits (count text_discrete k rest) (lookup text_discrete k (remove text_discrete id o.queues))
last-Fits id rest o v e z k = elim (text_discrete k id) [
  | yes p ↦
      subst
        (λ j.
          Fits (count text_discrete j rest)
            (lookup text_discrete j (remove text_discrete id o.queues)))
        (sym p) (rw (lookup-remove_self text_discrete id o.queues v.distinct) z)
  | no p ↦ rw (lookup-remove_ne text_discrete id k o.queues p) (
      subst (λ n. Fits n (queue_of k o)) (ap (count text_discrete k) e ∙ count_tail_ne id k rest p)
        (v.fits k))
]

rotate-Fits :
    (id : Text) (rest : List Text) (f g : DataFrame) (fs : List DataFrame) (o : Outbox)
    → IsValid o
    → o.ready ≡ id ∷ rest
    → queue_of id o ≡ some (f ∷ g ∷ fs)
    → (k : Text)
    → Fits
        (count text_discrete k (rest ++ id ∷ []))
        (lookup text_discrete k (insert text_discrete id (g ∷ fs) o.queues))
rotate-Fits id rest f g fs o v e h k =
    subst (λ n. Fits n (lookup text_discrete k (insert text_discrete id (g ∷ fs) o.queues)))
      (ap (count text_discrete k) e ∙ sym (count-rotate id k rest))
      (kept-Fits id o (f ∷ g ∷ fs) (g ∷ fs) v h refl (omega arith) k)

take_data-IsValid :
    (id : Text) (rest : List Text) (o : Outbox)
    → IsValid o
    → o.ready ≡ id ∷ rest
    → IsValid (take_data id rest o).0
unfolding take_data
take_data-IsValid id rest o v e = let (f, fs, h, z) = head_queue id rest o v e in go f fs h z
  where
    go :
        (f : DataFrame) (fs : List DataFrame)
        → queue_of id o ≡ some (f ∷ fs)
        → count text_discrete id rest ≡ 0
        → IsValid (take_data id rest o).0
    go f [] h z =
        let exact : sub_usize o.bytes (length f.bytes) ≡ o.bytes - length f.bytes =
          sub_usize_exact o.bytes (length f.bytes) (omega (arith, used_of_queue id o _ v h)) in
        rw (h, take_data)
          (record {
            distinct = remove-Distinct text_discrete id o.queues v.distinct;
            summed = exact ∙ omega (arith, total-gone id o _ v h);
            bounded = omega (arith, exact, v.bounded);
            fits = last-Fits id rest o v e z;
            slots = v.slots;
            framed = v.framed;
          })
    go f (g ∷ fs) h z =
        let exact : sub_usize o.bytes (length f.bytes) ≡ o.bytes - length f.bytes =
          sub_usize_exact o.bytes (length f.bytes) (omega (arith, used_of_queue id o _ v h)) in
        rw (h, take_data)
          (record {
            distinct = insert-Distinct text_discrete id (g ∷ fs) o.queues v.distinct;
            summed =
                exact ∙ omega (arith, total-kept id o _ (g ∷ fs) v h, used_of_queue id o _ v h);
            bounded = omega (arith, exact, v.bounded);
            fits = rotate-Fits id rest f g fs o v e h;
            slots = v.slots;
            framed = v.framed;
          })

poll_data_queues-IsValid :
    (r : List Text) (o : Outbox) → IsValid o → o.ready ≡ r → IsValid (poll_data_queues r o).0
unfolding poll_data_queues
poll_data_queues-IsValid [] o v e = v
poll_data_queues-IsValid (id ∷ rest) o v e = take_data-IsValid id rest o v e

poll_queues-IsValid :
    (c : List Bytes) (o : Outbox) → IsValid o → o.control ≡ c → IsValid (poll_queues c o).0
unfolding poll_queues take_control
poll_queues-IsValid [] o v e = poll_data_queues-IsValid o.ready o v refl
poll_queues-IsValid (item ∷ rest) o v e =
    elim (Bool-cases (ltb o.control_burst 8 || is_empty o.ready)) [
      | inl b ↦ rw b (record {
        distinct = v.distinct;
        summed = v.summed;
        bounded = v.bounded;
        fits = v.fits;
        slots = omega (arith, ap length e, v.slots);
        framed = (subst AllFit e v.framed).1;
      })
      | inr b ↦ rw b (poll_data_queues-IsValid o.ready o v refl)
    ]

pub next-IsValid : (o : Outbox) → IsValid o → IsValid (next o).0
unfolding next
next-IsValid o v = poll_queues-IsValid o.control o v refl
