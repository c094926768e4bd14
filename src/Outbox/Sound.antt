-- ===== src/Outbox/Sound.antt =====
-- The result of one poll of `next` of src/outbox.rs.
use spinfoam.Prelude.{
  ◌≤◌, ◌≡◌, ◌≢◌, refl, sym, subst, inl, inr, ◌||◌, List, [], ◌∷◌, Option, none, some, length, count,
  Bool-cases, arith, ltb,
}
use spinfoam.Text.{Text, text_discrete}
use spinfoam.Json.{Value}
use spinfoam.Outbox.Queues.{
  Bytes, Outbox, Poll, done, pending, panicked, max_frame, take_data, poll_data_queues,
  take_control, poll_queues, next, is_empty,
}
use spinfoam.Outbox.Valid.{IsValid, Fits, AllFit}
use spinfoam.Outbox.Next.{head_queue}
use spinfoam.Outbox.Fairness.{take_data_serves}

-- One poll of an `async` method, or one call of another; `closes` is `closed.cancel()`.
pub data Op (N : Type 0) : Type 0 where
  controls try_controls : Value N → Op N
  sends_data try_sends : Text → Value N → Op N
  removes_request : Text → Text → Op N
  removes_object : Text → Op N
  nexts closes : Op N

abbrev pub Sound : Poll (Option Bytes) → Type 0
Sound panicked = ⊥
Sound pending = Unit
Sound (done none) = Unit
Sound (done (some b)) = length b ≤ max_frame

pub Sound-safe : (p : Poll (Option Bytes)) → Sound p → p ≢ panicked
Sound-safe panicked h e = h
Sound-safe pending h e = cc
Sound-safe (done r) h e = cc

take_data-Sound :
    (id : Text) (rest : List Text) (o : Outbox)
    → IsValid o
    → o.ready ≡ id ∷ rest
    → Sound (take_data id rest o).1
take_data-Sound id rest o v e =
    let (f, fs, h, z) = head_queue id rest o v e in
    subst Sound (sym (take_data_serves id rest o f fs h).0) (
      let w : Fits (count text_discrete id o.ready) (some (f ∷ fs)) =
        subst (Fits (count text_discrete id o.ready)) h (v.fits id) in
      omega arith)

pub next-Sound : (o : Outbox) → IsValid o → Sound (next o).1
unfolding next poll_queues poll_data_queues take_control
next-Sound o v = go o.control refl
  where
    behind : (r : List Text) → o.ready ≡ r → Sound (poll_data_queues r o).1
    behind [] e = elim (Bool-cases o.closed) [ inl b ↦ rw b tt | inr b ↦ rw b tt ]
    behind (id ∷ rest) e = take_data-Sound id rest o v e

    go : (c : List Bytes) → o.control ≡ c → Sound (poll_queues c o).1
    go [] e = behind o.ready refl
    go (item ∷ items) e = elim (Bool-cases (ltb o.control_burst 8 || is_empty o.ready)) [
      | inl b ↦ rw b ((subst AllFit e v.framed).0)
      | inr b ↦ rw b (behind o.ready refl)
    ]
