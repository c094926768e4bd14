-- ===== src/Host/Ends.antt =====
-- What the end of a call or of an object leaves behind in the host (src/host.rs).
use spinfoam.Prelude.{
  ◌≡◌, Bool, false, List, [], ◌∷◌, Option, none, Result, if_cases, lookup, Distinct,
  lookup-insert_self, lookup-remove_self, Option-cases, inl, inr, arith,
}
use spinfoam.Text.{Text, text_discrete}
use spinfoam.Json.{Value}
use spinfoam.Outbox.Queues.{
  Bytes, Outbox, DataFrame, has_id, retain, queue_of, or_default, is_empty, remove_request,
  push_control,
}
use spinfoam.Outbox.Frames.{try_control}
use spinfoam.Host.Calls.{Host, drop_guard, cancel_frame}

-- No frame belongs to the request.
abbrev pub NoneHas : Text → List DataFrame → Type 0
NoneHas id [] = Unit
NoneHas id (f ∷ fs) = (has_id id f ≡ false) × NoneHas id fs

retain-NoneHas : (id : Text) (fs : List DataFrame) → NoneHas id (retain id fs)
retain-NoneHas id [] = tt
retain-NoneHas id (f ∷ fs) =
    if_cases (NoneHas id) (has_id id f) _ _ (λ _. retain-NoneHas id fs)
      λ b. (b, retain-NoneHas id fs)

none_left :
    (object id : Text) (o : Outbox) (q : Option (List DataFrame))
    → queue_of object o ≡ q
    → NoneHas id (or_default q)
    → NoneHas id (or_default (queue_of object o))
none_left object id o q e h = rw e h

remove_request-NoneHas :
    (object id : Text) (o : Outbox)
    → Distinct text_discrete o.queues
    → NoneHas id (or_default (queue_of object (remove_request object id o)))
unfolding remove_request
remove_request-NoneHas object id o d = elim (Option-cases (queue_of object o)) [
  | inl e ↦ rw (e, remove_request) (none_left object id o none e tt)
  | inr (fs, e) ↦
      rw (e, remove_request)
        (if_cases {A = Outbox} (λ r. NoneHas id (or_default (queue_of object r)))
          (is_empty (retain id fs)) _ _
          (λ _. rw (lookup-remove_self text_discrete object o.queues d) tt)
          λ _.
            rw (lookup-insert_self text_discrete object (retain id fs) o.queues)
              (retain-NoneHas id fs))
]

module _ {N : Type 0} (to_vec : Value N → Result Text Bytes) where
  try_control-queues : (v : Value N) (o : Outbox) → (try_control to_vec v o).0.queues ≡ o.queues
  unfolding try_control push_control
  try_control-queues v o = ground arith

  -- Where no ID is pending twice and no object has two queues: however a call ends, its ID is then
  -- not pending, and no frame of its request is left in its object's queue.
  pub drop_guard_clears :
      (sent : Bool) (object id : Text) (h : Host N)
      → Distinct text_discrete h.calls
      → Distinct text_discrete h.out.queues
      → (lookup text_discrete id (drop_guard to_vec sent object id h).calls ≡ none)
        × NoneHas id (or_default (queue_of object (drop_guard to_vec sent object id h).out))
  unfolding drop_guard
  drop_guard_clears sent object id h d q = elim (Option-cases (lookup text_discrete id h.calls)) [
    | inl e ↦ rw (e, drop_guard) (e, remove_request-NoneHas object id h.out q)
    | inr (o, e) ↦
        rw (e, drop_guard)
          (
            lookup-remove_self text_discrete id h.calls d,
            if_cases (λ out. NoneHas id (or_default (queue_of object out))) sent _ _
                (λ _.
                  rw (try_control-queues (cancel_frame id) (remove_request object id h.out))
                    (remove_request-NoneHas object id h.out q))
                λ _. remove_request-NoneHas object id h.out q,
          )
  ]
