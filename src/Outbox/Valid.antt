-- ===== src/Outbox/Valid.antt =====
-- The invariant of the queues of src/outbox.rs, kept by every operation on encoded frames.
use spinfoam.Prelude.{
  ℕ, ◌+◌, ◌≤◌, ◌≡◌, refl, List, [], ◌∷◌, ◌++◌, Option, none, some, length, weight, total, count,
  Distinct, total-remove, if_pos, if_neg, arith,
}
use spinfoam.Text.{Text, text_discrete}
use spinfoam.Outbox.Queues.{
  Bytes, DataFrame, Outbox, max_frame, control_slots, data_bytes, object_bytes, initial,
  queue_bytes, queue_of, used, or_default,
}

-- An object stands in the ready queue once if it has frames, which fit its share, and not at all
-- if it has none. No queue is empty.
abbrev pub Fits : ℕ → Option (List DataFrame) → Type 0
Fits n none = n ≡ 0
Fits n (some []) = ⊥
Fits n (some (f ∷ fs)) = (n ≡ 1) × (queue_bytes (f ∷ fs) ≤ object_bytes)

abbrev pub AllFit : List Bytes → Type 0
AllFit [] = Unit
AllFit (b ∷ bs) = (length b ≤ max_frame) × AllFit bs

pub record IsValid (o : Outbox) : Type 0 where
  pub distinct : Distinct text_discrete o.queues
  pub summed : o.bytes ≡ total queue_bytes o.queues
  pub bounded : o.bytes ≤ data_bytes
  pub fits : (k : Text) → Fits (count text_discrete k o.ready) (queue_of k o)
  pub slots : length o.control ≤ control_slots
  pub framed : AllFit o.control

pub initial-IsValid : IsValid initial
initial-IsValid = record {
  distinct = tt;
  summed = refl;
  bounded = omega arith;
  fits = λ k. refl;
  slots = omega arith;
  framed = tt;
}

pub AllFit-append :
    (bs : List Bytes) (b : Bytes) → AllFit bs → length b ≤ max_frame → AllFit (bs ++ b ∷ [])
AllFit-append [] b v h = (h, tt)
AllFit-append (c ∷ bs) b v h = (v.0, AllFit-append bs b v.1 h)

pub queue_bytes-append :
    (fs gs : List DataFrame) → queue_bytes (fs ++ gs) ≡ queue_bytes fs + queue_bytes gs
queue_bytes-append [] gs = omega arith
queue_bytes-append (f ∷ fs) gs = omega (arith, queue_bytes-append fs gs)

-- What is under a key weighs no more than the whole.
pub used-le-total : (k : Text) (o : Outbox) → used k o ≤ total queue_bytes o.queues
used-le-total k o = omega (arith, total-remove text_discrete queue_bytes k o.queues)

pub or_default-bytes :
    (q : Option (List DataFrame)) → queue_bytes (or_default q) ≡ weight queue_bytes q
or_default-bytes none = refl
or_default-bytes (some fs) = refl

-- One more frame at the end of a queue that has room.
pub Fits-push :
    (n : ℕ) (q : Option (List DataFrame)) (f : DataFrame)
    → Fits n q
    → weight queue_bytes q + length f.bytes ≤ object_bytes
    → Fits (elim q [ none ↦ n + 1 | some _ ↦ n ]) (some (or_default q ++ f ∷ []))
Fits-push n none f v h = (omega arith, omega arith)
Fits-push n (some []) f v h = absurd v
Fits-push n (some (g ∷ gs)) f v h = (v.0, omega (arith, queue_bytes-append gs (f ∷ [])))

pub count_single_self : (k : Text) → count text_discrete k (k ∷ []) ≡ 1
count_single_self k = if_pos (text_discrete k k) refl _ _

pub count_single_ne : (j k : Text) → ¬ (j ≡ k) → count text_discrete k (j ∷ []) ≡ 0
count_single_ne j k h = if_neg (text_discrete j k) h _ _
