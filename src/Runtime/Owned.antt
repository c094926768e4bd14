-- ===== src/Runtime/Owned.antt =====
-- Which objects the calls pending at the host and the frames queued in the outbox are of
-- (src/runtime.rs, src/host.rs, src/outbox.rs): of those alone whose task runs.
use spinfoam.Prelude.{
  ◌≡◌, ◌≢◌, refl, sym, ap, subst, ◌∙◌, List, Option, none, some, lookup, insert, lookup-insert_self,
  lookup-insert_ne, lookup-insert, if_pos, leb, Bool-cases, ◌⊎◌, Option-cases, inl, inr, length,
  ◌+◌, ◌-◌, ◌^◌,
}
use spinfoam.Text.{Text, text_discrete}
use spinfoam.Outbox.Queues.{Outbox, DataFrame, queue_of}
use spinfoam.Outbox.Valid as Queues
use spinfoam.Outbox.Shrinks.{Shrinks}
use spinfoam.Host.Calls.{Host, call_id, begin_call}
use spinfoam.Host.Once as Once
use spinfoam.Host.Once.{out-IsValid, begin_call-IsValid, cancel_calls-IsValid}
use spinfoam.Runtime.Object.{polled}
use spinfoam.Runtime.Table.{Entry}

module _ {N : Type 0} where
  -- The task runs: it was polled and is not finished.
  abbrev pub ActiveEntry : Option (Entry N) → Type 0
  ActiveEntry none = ⊥
  ActiveEntry (some e) = e.object.task ≡ polled

  abbrev pub Active : List (Text × Entry N) → Text → Type 0
  Active entries id = ActiveEntry (lookup text_discrete id entries)

  pub record Owned (entries : List (Text × Entry N)) (h : Host N) : Type 0 where
    pub host : Once.IsValid h
    pub out : Queues.IsValid h.out
    pub calls : (cid id : Text) → lookup text_discrete cid h.calls ≡ some id → Active entries id
    pub queues : (id : Text) (fs : List DataFrame) → queue_of id h.out ≡ some fs → Active entries id

  -- Nothing in the host is the object's.
  pub record IsClear (id : Text) (h : Host N) : Type 0 where
    pub no_call : (cid : Text) → lookup text_discrete cid h.calls ≢ some id
    pub no_queue : queue_of id h.out ≡ none

  -- A host with less in it is owned by the same objects.
  pub Owned-less :
      (entries : List (Text × Entry N)) (h h' : Host N)
      → Owned entries h
      → Once.IsValid h'
      → Queues.IsValid h'.out
      → ((cid id : Text)
          → lookup text_discrete cid h'.calls ≡ some id
          → lookup text_discrete cid h.calls ≡ some id)
      → Shrinks h.out h'.out
      → Owned entries h'
  Owned-less entries h h' v host out calls shrinks = record {
    host = host;
    out = out;
    calls = λ cid id e. v.calls cid id (calls cid id e);
    queues = λ id fs e. elim (Option-cases (queue_of id h.out)) [
      | inl f ↦ absurd (let x : none ≡ some fs = sym (shrinks id f) ∙ e in cc)
      | inr (gs, f) ↦ v.queues id gs f
    ];
  }

  pub Owned-out :
      (entries : List (Text × Entry N)) (h : Host N) (o : Outbox)
      → Owned entries h
      → Queues.IsValid o
      → Shrinks h.out o
      → Owned entries (record h { out = o })
  Owned-out entries h o v out shrinks =
      Owned-less entries h (record h { out = o }) v (out-IsValid o h.ignored h v.host) out
        (λ cid id e. e) shrinks

  -- A sending object that runs may get a queue.
  pub Owned-sends :
      (entries : List (Text × Entry N)) (h : Host N) (o : Outbox) (object : Text)
      → Owned entries h
      → Queues.IsValid o
      → Active entries object
      → ((k : Text) → object ≢ k → queue_of k o ≡ queue_of k h.out)
      → Owned entries (record h { out = o })
  Owned-sends entries h o object v out active others = record {
    host = out-IsValid o h.ignored h v.host;
    out = out;
    calls = v.calls;
    queues = λ id fs e. elim (text_discrete object id) [
      | yes p ↦ subst (Active entries) p active
      | no p ↦ v.queues id fs (sym (others id p) ∙ e)
    ];
  }

  abbrev begun : Text → Host N → Host N
  begun object h = record h {
    next = h.next + 1;
    calls = insert text_discrete (call_id h.session (h.next + 1)) object h.calls;
  }

  begin_call_cases :
      (object : Text) (h : Host N)
      → ((begin_call object h).0 ≡ h) ⊎ ((begin_call object h).0 ≡ begun object h)
  unfolding begin_call
  begin_call_cases object h = elim (Bool-cases (leb 16384 (length h.calls))) [
    | inl b ↦ rw b (inl refl)
    | inr b ↦ elim (Bool-cases (leb (2 ^ 64 - 1) h.next)) [
      | inl c ↦ rw (b, c) (inl refl)
      | inr c ↦ rw (b, c) (inr refl)
    ]
  ]

  -- A call that a running object begins.
  pub Owned-begins :
      (entries : List (Text × Entry N)) (h : Host N) (object : Text)
      → Owned entries h
      → Active entries object
      → Owned entries (begin_call object h).0
  Owned-begins entries h object v active = elim (begin_call_cases object h) [
    | inl e ↦ subst (Owned entries) (sym e) v
    | inr e ↦ subst (Owned entries) (sym e) (record {
      host = subst Once.IsValid e (begin_call-IsValid object h v.host);
      out = v.out;
      calls = λ cid id f. elim (text_discrete (call_id h.session (h.next + 1)) cid) [
        | yes p ↦
            let same : some object ≡ some id =
              sym (
                lookup-insert text_discrete (call_id h.session (h.next + 1)) cid object h.calls
                ∙ if_pos (text_discrete (call_id h.session (h.next + 1)) cid) p _ _)
              ∙ f in
            let named : object ≡ id = cc in subst (Active entries) named active
        | no p ↦ v.calls cid id (
            sym
              (lookup-insert_ne text_discrete (call_id h.session (h.next + 1)) cid object h.calls p)
            ∙ f)
      ];
      queues = v.queues;
    })
  ]

  -- An object is written back: the calls and queues that are its own must be allowed by it.
  pub Owned-insert :
      (entries : List (Text × Entry N)) (h : Host N) (id : Text) (e : Entry N)
      → Owned entries h
      → (Active entries id → e.object.task ≡ polled)
      → Owned (insert text_discrete id e entries) h
  Owned-insert entries h id e v kept = record {
    host = v.host;
    out = v.out;
    calls = λ cid k f. active k (v.calls cid k f);
    queues = λ k fs f. active k (v.queues k fs f);
  }
    where
      active : (k : Text) → Active entries k → Active (insert text_discrete id e entries) k
      active k a = elim (text_discrete id k) [
        | yes p ↦
            subst ActiveEntry
              (sym (
                ap (λ i. lookup text_discrete i (insert text_discrete id e entries)) (sym p)
                ∙ lookup-insert_self text_discrete id e entries))
              (kept (subst (Active entries) (sym p) a))
        | no p ↦ subst ActiveEntry (sym (lookup-insert_ne text_discrete id k e entries p)) a
      ]

  -- Any change of an object of which nothing is in the host.
  pub Owned-insert_clear :
      (entries : List (Text × Entry N)) (h : Host N) (id : Text) (e : Entry N)
      → Owned entries h
      → IsClear id h
      → Owned (insert text_discrete id e entries) h
  Owned-insert_clear entries h id e v clear = record {
    host = v.host;
    out = v.out;
    calls = λ cid k f. elim (text_discrete id k) [
      | yes p ↦ absurd (clear.no_call cid (f ∙ ap some (sym p)))
      | no p ↦
          subst ActiveEntry (sym (lookup-insert_ne text_discrete id k e entries p))
            (v.calls cid k f)
    ];
    queues = λ k fs f. elim (text_discrete id k) [
      | yes p ↦ absurd (
          let x : some fs ≡ none = sym f ∙ ap (λ i. queue_of i h.out) (sym p) ∙ clear.no_queue in
          cc)
      | no p ↦
          subst ActiveEntry (sym (lookup-insert_ne text_discrete id k e entries p))
            (v.queues k fs f)
    ];
  }
