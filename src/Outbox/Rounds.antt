-- ===== src/Outbox/Rounds.antt =====
-- What a round of `next` (src/outbox.rs) takes: a frame, until none is left.
use spinfoam.Prelude.{
  ℕ, ◌+◌, ◌≡◌, refl, sym, ap, subst, ◌∙◌, Bool, false, ◌||◌, List, [], ◌∷◌, Option, none, some, ltb,
  if_cases, if◌then◌else◌, length, lookup, total, weight, total-insert, total-remove, count, if_pos,
  ◌⊎◌, inl, inr, arith,
}
use spinfoam.Text.{Text, text_discrete}
use spinfoam.Outbox.Queues.{
  Bytes, Outbox, DataFrame, Poll, done, pending, queue_of, is_empty, take_data, poll_data_queues,
  take_control, poll_queues, next,
}
use spinfoam.Outbox.Valid.{IsValid, Fits}
use spinfoam.Outbox.Next.{head_queue}

-- All frames that are queued.
abbrev pub frames_of : Outbox → ℕ
frames_of o = length o.control + total length o.queues

-- A round takes a frame, or there is none to take.
abbrev pub Round : Outbox → Outbox × Poll (Option Bytes) → Type 0
Round o r =
    ((b : Bytes) × (r.1 ≡ done (some b))
      × (frames_of r.0 + 1 ≡ frames_of o)
      × (r.0.closed ≡ o.closed))
    ⊎ ((frames_of o ≡ 0) × (r ≡ (o, if o.closed then done none else pending)))

no_queues :
    (m : List (Text × List DataFrame))
    → ((k : Text) → lookup text_discrete k m ≡ none)
    → total length m ≡ 0
no_queues [] h = refl
no_queues ((k, fs) ∷ m) h =
    absurd (let x : some fs ≡ none = sym (if_pos (text_discrete k k) refl _ _) ∙ h k in cc)

take_data-Round :
    (id : Text) (rest : List Text) (o : Outbox)
    → IsValid o
    → o.ready ≡ id ∷ rest
    → Round o (take_data id rest o)
unfolding take_data
take_data-Round id rest o v e =
    let (f, fs, h, none_left) = head_queue id rest o v e in by_queue f fs h
  where
    by_queue :
        (f : DataFrame) (fs : List DataFrame)
        → queue_of id o ≡ some (f ∷ fs)
        → Round o (take_data id rest o)
    by_queue f [] h =
        rw (h, take_data)
          (inl (
            f.bytes,
            refl,
            omega (
              arith,
              total-remove text_discrete (length {A = DataFrame}) id o.queues,
              ap (weight (length {A = DataFrame})) h,
            ),
            refl,
          ))
    by_queue f (g ∷ fs) h =
        rw (h, take_data)
          (inl (
            f.bytes,
            refl,
            omega (
              arith,
              total-insert text_discrete (length {A = DataFrame}) id (g ∷ fs) o.queues,
              ap (weight (length {A = DataFrame})) h,
            ),
            refl,
          ))

behind_control :
    (o : Outbox)
    → IsValid o
    → (length o.control ≡ 0) ⊎ ((id : Text) × (rest : List Text) × (o.ready ≡ id ∷ rest))
    → Round o (poll_data_queues o.ready o)
unfolding poll_data_queues
behind_control o v (inr (id, rest, e)) =
    subst (λ r. Round o (poll_data_queues r o)) (sym e) (take_data-Round id rest o v e)
behind_control o v (inl z) = by_ready o.ready refl
  where
    by_ready : (r : List Text) → o.ready ≡ r → Round o (poll_data_queues r o)
    by_ready [] e = inr (
      omega (
        arith,
        z,
        no_queues o.queues (λ k.
            empty_queue k (queue_of k o) refl
              (subst (λ r. Fits (count text_discrete k r) (queue_of k o)) e (v.fits k))),
      ),
      refl,
    )
      where
        empty_queue :
            (k : Text) (q : Option (List DataFrame))
            → queue_of k o ≡ q
            → Fits 0 q
            → queue_of k o ≡ none
        empty_queue k none h w = h
        empty_queue k (some []) h w = absurd w
        empty_queue k (some (f ∷ fs)) h w = absurd (omega (arith, w.0))
    by_ready (id ∷ rest) e = take_data-Round id rest o v e

pub next-Round : (o : Outbox) → IsValid o → Round o (next o)
unfolding next poll_queues take_control
next-Round o v = by_control o.control refl
  where
    some_ready :
        (r : List Text)
        → o.ready ≡ r
        → is_empty r ≡ false
        → (id : Text) × (rest : List Text) × (o.ready ≡ id ∷ rest)
    some_ready [] e b = cc
    some_ready (id ∷ rest) e b = (id, rest, e)

    right_false : (a b : Bool) → a || b ≡ false → b ≡ false
    right_false a b h = ground (arith, h)

    by_control : (c : List Bytes) → o.control ≡ c → Round o (poll_queues c o)
    by_control [] e = behind_control o v (inl (ap length e))
    by_control (item ∷ rest) e =
        if_cases (Round o) (ltb o.control_burst 8 || is_empty o.ready) _ _
          (λ _. inl (item, refl, omega (arith, ap length e), refl))
          (λ b. behind_control o v (
            inr
              (some_ready o.ready refl (right_false (ltb o.control_burst 8) (is_empty o.ready) b))))
