-- ===== src/Outbox/Fairness.antt =====
-- Who is served by `next` of src/outbox.rs, and how soon.
use spinfoam.Prelude.{
  ℕ, zero, suc, ◌+◌, ◌*◌, ◌≤◌, ◌<◌, ◌≡◌, refl, sym, ap, subst, ◌∙◌, ◌⊎◌, inl, inr, List, [], ◌∷◌,
  ◌++◌, append_assoc, append-nil, some, length, lookup, count, lookup-insert, lookup-remove_ne,
  count-append, Bool-cases, if_pos, if_neg, arith, ltb,
}
use spinfoam.Text.{Text, text_discrete}
use spinfoam.Outbox.Queues.{
  Bytes, DataFrame, Outbox, done, queue_of, take_data, poll_data_queues, take_control, poll_queues,
  next,
}
use spinfoam.Outbox.Valid.{IsValid}
use spinfoam.Outbox.Next.{head_queue, next-IsValid}

-- The property holds before one of the next `k` calls of `next`, when no other call comes between.
abbrev pub Within : (Outbox → Type 0) → ℕ → Outbox → Type 0
Within P zero o = ⊥
Within P (suc k) o = P o ⊎ Within P k (next o).0

Within-mono : (P : Outbox → Type 0) (a b : ℕ) (o : Outbox) → a ≤ b → Within P a o → Within P b o
Within-mono P zero b o h w = absurd w
Within-mono P (suc a) zero o h w = absurd (omega arith)
Within-mono P (suc a) (suc b) o h (inl p) = inl p
Within-mono P (suc a) (suc b) o h (inr w) = inr (Within-mono P a b (next o).0 (omega arith) w)

abbrev Turn : Outbox → Text → List Text → Type 0
Turn o id rest =
    (next o ≡ take_data id rest o)
    ⊎ ((item : Bytes) × (items : List Bytes) × (o.control_burst < 8)
        × (next o ≡ take_control item items o))

-- With an object ready, `next` serves it, or it serves a control frame within the burst.
next-Turn : (o : Outbox) (id : Text) (rest : List Text) → o.ready ≡ id ∷ rest → Turn o id rest
unfolding next poll_queues poll_data_queues
next-Turn o id rest e = go o.control refl
  where
    behind : poll_data_queues o.ready o ≡ take_data id rest o
    behind = rw e refl

    go : (c : List Bytes) → o.control ≡ c → Turn o id rest
    go [] h = inl (ap (λ c. poll_queues c o) h ∙ behind)
    go (item ∷ items) h = elim (Bool-cases (ltb o.control_burst 8)) [
      | inl b ↦ inr (item, items, ground arith, ap (λ c. poll_queues c o) h ∙ rw b refl)
      | inr b ↦ inl (ap (λ c. poll_queues c o) h ∙ rw (b, e) refl)
    ]

-- Serving an object returns its oldest frame and leaves the other objects' queues alone; it then
-- stands last in the ready queue, or not at all.
pub take_data_serves :
    (id : Text) (rest : List Text) (o : Outbox) (f : DataFrame) (fs : List DataFrame)
    → queue_of id o ≡ some (f ∷ fs)
    → ((take_data id rest o).1 ≡ done (some f.bytes))
      × ((tail : List Text) × ((take_data id rest o).0.ready ≡ rest ++ tail))
      × ((take_data id rest o).0.control_burst ≡ 0)
      × ((k : Text) → ¬ (k ≡ id) → queue_of k (take_data id rest o).0 ≡ queue_of k o)
unfolding take_data
take_data_serves id rest o f [] e =
    rw (e, take_data)
      (
        refl,
        ([], sym (append-nil rest)),
        refl,
        λ k h. lookup-remove_ne text_discrete id k o.queues h,
      )
take_data_serves id rest o f (g ∷ fs) e =
    rw (e, take_data)
      (
        refl,
        (id ∷ [], refl),
        refl,
        λ k h.
            lookup-insert text_discrete id k (g ∷ fs) o.queues
            ∙ if_neg (text_discrete id k) (λ p. h (sym p)) _ _,
      )

abbrev turns : ℕ → ℕ → ℕ
turns zero m = m
turns (suc k) m = suc (turns k m)

turns-add : (k m : ℕ) → turns k m ≡ k + m
turns-add zero m = omega arith
turns-add (suc k) m = omega (arith, turns-add k m)

-- The burst limit: at most `k` control frames go out before the object at the head is served.
through_head :
    (P : Outbox → Type 0) (id : Text) (rest : List Text) (qs : List (Text × List DataFrame))
    (m k : ℕ) (o : Outbox)
    → ((o : Outbox)
        → IsValid o
        → o.ready ≡ id ∷ rest
        → o.queues ≡ qs
        → next o ≡ take_data id rest o
        → Within P (suc m) o)
    → IsValid o
    → o.ready ≡ id ∷ rest
    → o.queues ≡ qs
    → 8 ≤ k + o.control_burst
    → Within P (turns k (suc m)) o
through_head P id rest qs m zero o serve v e h b = elim (next-Turn o id rest e) [
  | inl t ↦ serve o v e h t
  | inr (item, items, below, t) ↦ absurd (omega arith)
]
through_head P id rest qs m (suc k) o serve v e h b = elim (next-Turn o id rest e) [
  | inl t ↦
      Within-mono P (suc m) (turns (suc k) (suc m)) o (omega (arith, turns-add k (suc m)))
        (serve o v e h t)
  | inr (item, items, below, t) ↦ inr (
      subst (λ r. Within P (turns k (suc m)) r.0) (sym t)
        (through_head P id rest qs m k (take_control item items o).0 serve
          (subst (λ r. IsValid r.0) t (next-IsValid o v)) (unfold take_control in e)
          (unfold take_control in h) (unfold take_control in omega arith)))
]

abbrev pub Delivers : Bytes → Outbox → Type 0
Delivers bytes o = (next o).1 ≡ done (some bytes)

deliver_head :
    (id : Text) (rest : List Text) (f : DataFrame) (fs : List DataFrame) (o : Outbox)
    → queue_of id o ≡ some (f ∷ fs)
    → next o ≡ take_data id rest o
    → Delivers f.bytes o
deliver_head id rest f fs o e t = ap (λ r. r.1) t ∙ (take_data_serves id rest o f fs e).0

-- With other objects `before` it in the ready queue, the oldest frame of an object is what one of
-- the next 9 * (number of these objects + 1) calls of `next` returns, however many control frames
-- wait, if no other call comes between.
pub served-Within :
    (before : List Text) (id : Text) (after : List Text) (f : DataFrame) (fs : List DataFrame)
    (o : Outbox)
    → IsValid o
    → o.ready ≡ before ++ id ∷ after
    → queue_of id o ≡ some (f ∷ fs)
    → Within (Delivers f.bytes) (9 * suc (length before)) o
served-Within [] id after f fs o v e h =
    through_head (Delivers f.bytes) id after o.queues 0 8 o
      (λ o1 v1 e1 q1 t1.
        inl (deliver_head id after f fs o1 (ap (lookup text_discrete id) q1 ∙ h) t1))
      v e refl (omega arith)
served-Within (b ∷ bs) id after f fs o v e h =
    Within-mono (Delivers f.bytes) (turns 8 (suc (9 * suc (length bs)))) (9 * suc (length (b ∷ bs)))
      o (omega arith)
      (through_head (Delivers f.bytes) b (bs ++ id ∷ after) o.queues (9 * suc (length bs)) 8 o
        (λ o1 v1 e1 q1 t1. inr (pass o1 v1 e1 q1 t1 (served-Within bs id))) v e refl (omega arith))
  where
    other : count text_discrete b (bs ++ id ∷ after) ≡ 0 → ¬ (id ≡ b)
    other z p =
        let c : count text_discrete b (id ∷ after) ≡ suc (count text_discrete b after) =
          if_pos (text_discrete id b) p _ _ in
        absurd (omega (arith, count-append text_discrete b bs (id ∷ after), c))

    pass :
        (o1 : Outbox)
        → IsValid o1
        → o1.ready ≡ b ∷ (bs ++ id ∷ after)
        → o1.queues ≡ o.queues
        → next o1 ≡ take_data b (bs ++ id ∷ after) o1
        → ((after : List Text) (f : DataFrame) (fs : List DataFrame) (o : Outbox)
            → IsValid o
            → o.ready ≡ bs ++ id ∷ after
            → queue_of id o ≡ some (f ∷ fs)
            → Within (Delivers f.bytes) (9 * suc (length bs)) o)
        → Within (Delivers f.bytes) (9 * suc (length bs)) (next o1).0
    pass o1 v1 e1 q1 t1 rec =
        let (g, gs, h1, once) = head_queue b (bs ++ id ∷ after) o1 v1 e1 in
        let (_, (tail, r), _, others) = take_data_serves b (bs ++ id ∷ after) o1 g gs h1 in
        rec (after ++ tail) f fs (next o1).0 (next-IsValid o1 v1)
          (ap (λ r. r.0.ready) t1 ∙ r ∙ append_assoc bs (id ∷ after) tail)
          (ap (λ r. queue_of id r.0) t1
            ∙ others id (other once)
            ∙ (ap (lookup text_discrete id) q1 ∙ h))
