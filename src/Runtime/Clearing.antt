-- ===== src/Runtime/Clearing.antt =====
-- `cancel_object` and `remove_object` as src/runtime.rs calls them leave nothing of an object behind.
use spinfoam.Prelude.{◌≡◌, refl, ◌∙◌, List, [], ◌∷◌, lookup, Option-cases, inl, inr}
use spinfoam.Text.{Text, text_discrete}
use spinfoam.Outbox.Queues.{queue_of, remove_object}
use spinfoam.Outbox.Frames.{try_control}
use spinfoam.Outbox.Valid as Queues
use spinfoam.Outbox.Remove.{remove_object-IsValid}
use spinfoam.Outbox.Shrinks.{remove_object-Shrinks, remove_object_gone, try_control-queue_of}
use spinfoam.Outbox.History.{try_control-IsValid}
use spinfoam.Host.Calls.{Host, cancel_frame, cancel_call, cancel_calls, cancel_object, ids_of}
use spinfoam.Host.Once.{cancel_calls-IsValid}
use spinfoam.Host.Cancelled.{cancel_object_iff}
use spinfoam.Runtime.Table.{Entry, System, clean_up, announce, state_frame}
use spinfoam.Runtime.Owned.{Owned, IsClear, Owned-less, Owned-out}

module _ {N : Type 0} (y : System N) where
  cancel_call-out :
      (id : Text) (h : Host N)
      → Queues.IsValid h.out
      → Queues.IsValid (cancel_call y.to_vec id h).out
        × ((k : Text) → queue_of k (cancel_call y.to_vec id h).out ≡ queue_of k h.out)
  unfolding cancel_call
  cancel_call-out id h v = elim (Option-cases (lookup text_discrete id h.calls)) [
    | inl e ↦ rw (e, cancel_call) (v, λ k. refl)
    | inr (o, e) ↦
        rw (e, cancel_call)
          (
            try_control-IsValid y.to_vec y.from_i64 (cancel_frame id) h.out v,
            λ k. try_control-queue_of y.to_vec (cancel_frame id) h.out k,
          )
  ]

  cancel_calls-out :
      (ids : List Text) (h : Host N)
      → Queues.IsValid h.out
      → Queues.IsValid (cancel_calls y.to_vec ids h).out
        × ((k : Text) → queue_of k (cancel_calls y.to_vec ids h).out ≡ queue_of k h.out)
  unfolding cancel_calls
  cancel_calls-out [] h v = (v, λ k. refl)
  cancel_calls-out (id ∷ ids) h v =
      let (valid, same) = cancel_call-out id h v in
      let (valid', same') = cancel_calls-out ids (cancel_call y.to_vec id h) valid in
      (valid', λ k. same' k ∙ same k)

  pub cancel_object-Owned :
      (entries : List (Text × Entry N)) (id : Text) (h : Host N)
      → Owned entries h
      → Owned entries (cancel_object y.to_vec id h)
  unfolding cancel_object
  cancel_object-Owned entries id h v =
      let (valid, same) = cancel_calls-out (ids_of y.to_vec id h.calls) h v.out in
      Owned-less entries h (cancel_object y.to_vec id h) v
        (cancel_calls-IsValid y.to_vec (ids_of y.to_vec id h.calls) h v.host) valid
        (λ cid k e. ((cancel_object_iff y.to_vec id h cid k v.host.distinct).0 e).1)
        (λ k e. same k ∙ e)

  -- With the calls and the queue gone, the host is owned as it was, and nothing in it is the object's.
  pub clean_up_lem :
      (entries : List (Text × Entry N)) (id : Text) (h : Host N)
      → Owned entries h
      → Owned entries (clean_up y id h) × IsClear id (clean_up y id h)
  clean_up_lem entries id h v =
      let less = cancel_object-Owned entries id h v in
      let out = (cancel_object y.to_vec id h).out in
      (
        Owned-out entries (cancel_object y.to_vec id h) (remove_object id out) less
            (remove_object-IsValid id out less.out) (remove_object-Shrinks id out),
        record {
          no_call = λ cid e. ((cancel_object_iff y.to_vec id h cid id v.host.distinct).0 e).0 refl;
          no_queue = remove_object_gone id out less.out;
        },
      )

  pub announce_lem :
      (entries : List (Text × Entry N)) (id k : Text) (e : Entry N) (h : Host N)
      → Owned entries h
      → IsClear k h
      → Owned entries (announce y id e h) × IsClear k (announce y id e h)
  announce_lem entries id k e h v clear = (
    Owned-out entries h (try_control y.to_vec (state_frame y id e) h.out).0 v
        (try_control-IsValid y.to_vec y.from_i64 (state_frame y id e) h.out v.out)
        (λ j f. try_control-queue_of y.to_vec (state_frame y id e) h.out j ∙ f),
    record {
      no_call = clear.no_call;
      no_queue = try_control-queue_of y.to_vec (state_frame y id e) h.out k ∙ clear.no_queue;
    },
  )
