-- ===== src/Runtime/Valid.antt =====
-- The invariant of `Runtime` (src/runtime.rs), and that the parts of its methods keep it.
use spinfoam.Prelude.{
  ◌≡◌, ◌≢◌, refl, sym, ap, subst, ◌∙◌, Bool, true, false, List, [], ◌∷◌, Option, none, some, lookup,
  insert, Distinct, Option-cases, Bool-cases, ◌⊎◌, inl, inr, arith,
}
use spinfoam.Text.{Text, text_discrete}
use spinfoam.Host.Calls.{Host}
use spinfoam.Runtime.Object.{
  State, loaded, starting, running, stopping, stopped, exited, failed, polled, finished, Object,
}
use spinfoam.Runtime.Life as Life
use spinfoam.Runtime.Table.{
  Entry, Runtime, System, Outcome, find, put, clean_up, announce, task_polled,
}
use spinfoam.Runtime.Stop.{each, unlist, unlisted, stop_end, stop_polled}
use spinfoam.Runtime.Owned.{Active, ActiveEntry, Owned, Owned-insert, Owned-insert_clear}
use spinfoam.Runtime.Clearing.{clean_up_lem, announce_lem}
use spinfoam.Runtime.Serials.{Serials, insert-Serials}

module _ {N : Type 0} where
  pub record IsValid (rt : Runtime N) : Type 0 where
    pub table : Serials rt.entries rt.next rt.loading
    pub owned : Owned rt.entries rt.host

  pub find-lookup :
      (id : Text) (e : Entry N) (rt : Runtime N)
      → find id rt ≡ some e
      → lookup text_discrete id rt.entries ≡ some e
  find-lookup id e rt h = elim (Option-cases (lookup text_discrete id rt.entries)) [
    | inl f ↦ absurd (let x : none ≡ some e = sym (rw f refl) ∙ h in cc)
    | inr (e', f) ↦ elim (Bool-cases e'.listed) [
      | inl b ↦ f ∙ sym (rw (f, b) refl) ∙ h
      | inr b ↦ absurd (let x : none ≡ some e = sym (rw (f, b) refl) ∙ h in cc)
    ]
  ]

  pub host-IsValid :
      (h : Host N) (rt : Runtime N)
      → Owned rt.entries h
      → IsValid rt
      → IsValid (record rt { host = h })
  host-IsValid h rt o v = record { table = v.table; owned = o }

  active_entry :
      (id : Text) (e : Entry N) (rt : Runtime N)
      → lookup text_discrete id rt.entries ≡ some e
      → Active rt.entries id
      → e.object.task ≡ polled
  active_entry id e rt h a = subst ActiveEntry h a

  pub entry-IsValid :
      (id : Text) (e e' : Entry N) (rt : Runtime N)
      → lookup text_discrete id rt.entries ≡ some e
      → Life.IsValid e'.object
      → (e.object.task ≡ polled → e'.object.task ≡ polled)
      → IsValid rt
      → IsValid (record rt { entries = insert text_discrete id e' rt.entries })
  entry-IsValid id e e' rt h valid kept v = record {
    table = insert-Serials id e e' rt.entries rt.next rt.loading v.table h valid;
    owned = Owned-insert rt.entries rt.host id e' v.owned (λ a. kept (active_entry id e rt h a));
  }

  pub put-IsValid :
      (id : Text) (e : Entry N) (o : Object N) (rt : Runtime N)
      → lookup text_discrete id rt.entries ≡ some e
      → Life.IsValid o
      → (e.object.task ≡ polled → o.task ≡ polled)
      → IsValid rt
      → IsValid (put id e o rt)
  put-IsValid id e o rt h valid kept v =
      entry-IsValid id e (record e { object = o }) rt h valid kept v

  pub unlist-IsValid : (id : Text) (rt : Runtime N) → IsValid rt → IsValid (unlist id rt)
  unlist-IsValid id rt v = elim (Option-cases (lookup text_discrete id rt.entries)) [
    | inl h ↦ rw h v
    | inr (e, h) ↦ rw h (entry-IsValid id e (unlisted e) rt h (v.table.objects id e h) (λ t. t) v)
  ]

  abbrev mapped : (Entry N → Entry N) → Option (Entry N) → Option (Entry N)
  mapped f none = none
  mapped f (some e) = some (f e)

  lookup-each :
      (f : Entry N → Entry N) (id : Text) (m : List (Text × Entry N))
      → lookup text_discrete id (each f m) ≡ mapped f (lookup text_discrete id m)
  lookup-each f id [] = refl
  lookup-each f id ((j, e) ∷ m) = ground (arith, lookup-each f id m)

  each-Distinct :
      (f : Entry N → Entry N) (m : List (Text × Entry N))
      → Distinct text_discrete m
      → Distinct text_discrete (each f m)
  each-Distinct f [] d = tt
  each-Distinct f ((j, e) ∷ m) d = (lookup-each f j m ∙ ap (mapped f) d.0, each-Distinct f m d.1)

  pub each-IsValid :
      (f : Entry N → Entry N) (rt : Runtime N)
      → ((e : Entry N) → Life.IsValid e.object → Life.IsValid (f e).object)
      → ((e : Entry N) → (f e).object.task ≡ e.object.task)
      → IsValid rt
      → IsValid (record rt { entries = each f rt.entries })
  each-IsValid f rt valid task v = record {
    table = record {
      distinct = each-Distinct f rt.entries v.table.distinct;
      objects = λ id e h. elim (Option-cases (lookup text_discrete id rt.entries)) [
        | inl g ↦
            absurd (
              let x : none ≡ some e = sym (lookup-each f id rt.entries ∙ ap (mapped f) g) ∙ h in cc)
        | inr (e', g) ↦
            let same : some (f e') ≡ some e =
              sym (lookup-each f id rt.entries ∙ ap (mapped f) g) ∙ h in
            let named : f e' ≡ e = cc in
            subst (λ x. Life.IsValid x.object) named (valid e' (v.table.objects id e' g))
      ];
      fresh = λ k b. lookup-each f _ rt.entries ∙ ap (mapped f) (v.table.fresh k b);
      absent = λ k b. (
        (v.table.absent k b).0,
        lookup-each f _ rt.entries ∙ ap (mapped f) (v.table.absent k b).1,
      );
    };
    owned = record {
      host = v.owned.host;
      out = v.owned.out;
      calls = λ cid id e. active id (v.owned.calls cid id e);
      queues = λ id fs e. active id (v.owned.queues id fs e);
    };
  }
    where
      active : (id : Text) → Active rt.entries id → Active (each f rt.entries) id
      active id a = elim (Option-cases (lookup text_discrete id rt.entries)) [
        | inl g ↦ absurd (subst ActiveEntry g a)
        | inr (e, g) ↦
            subst ActiveEntry (sym (lookup-each f id rt.entries ∙ ap (mapped f) g))
              (task e ∙ subst ActiveEntry g a)
      ]

module _ {N : Type 0} (y : System N) where
  finish_state :
      (id : Text) (e : Entry N) (o : Object N) (rt : Runtime N)
      → lookup text_discrete id rt.entries ≡ some e
      → Life.IsValid o
      → IsValid rt
      → IsValid (record (put id e o rt) {
        host = announce y id (record e { object = o }) (clean_up y id rt.host);
      })
  finish_state id e o rt h valid v =
      let (owned, clear) = clean_up_lem y rt.entries id rt.host v.owned in
      let (owned', clear') =
        announce_lem y rt.entries id id (record e { object = o }) (clean_up y id rt.host) owned
          clear in
      record {
        table =
            insert-Serials id e (record e { object = o }) rt.entries rt.next rt.loading v.table h
              valid;
        owned =
            Owned-insert_clear rt.entries
              (announce y id (record e { object = o }) (clean_up y id rt.host)) id
              (record e { object = o }) owned' clear';
      }

  -- A poll of the task leaves it finished or running.
  pub task_polled-IsValid :
      (id : Text) (e : Entry N) (o : Object N) (rt : Runtime N)
      → lookup text_discrete id rt.entries ≡ some e
      → Life.IsValid o
      → ((o.task ≡ finished) ⊎ (o.task ≡ polled))
      → IsValid rt
      → IsValid (task_polled y id e o rt)
  unfolding task_polled
  task_polled-IsValid id e o rt h valid (inl t) v =
      rw (t, task_polled) (finish_state id e o rt h valid v)
  task_polled-IsValid id e o rt h valid (inr t) v =
      rw (t, task_polled) (put-IsValid id e o rt h valid (λ _. t) v)

  clean_up-IsValid :
      (id : Text) (rt : Runtime N)
      → IsValid rt
      → IsValid (record rt { host = clean_up y id rt.host })
  clean_up-IsValid id rt v =
      host-IsValid (clean_up y id rt.host) rt (clean_up_lem y rt.entries id rt.host v.owned).0 v

  stop_end-IsValid :
      (id : Text) (unload : Bool) (e : Entry N) (rt : Runtime N)
      → IsValid rt
      → IsValid (stop_end y id unload e rt).0
  unfolding stop_end
  stop_end-IsValid id true e rt v =
      unlist-IsValid id (record rt { host = clean_up y id rt.host }) (clean_up-IsValid id rt v)
  stop_end-IsValid id false e rt v = clean_up-IsValid id rt v

  -- `stop` waits, or comes to its end.
  pub stop_polled_cases :
      (id : Text) (unload : Bool) (e : Entry N) (s : State) (o : Object N) (rt : Runtime N)
      → ((s ≡ stopping)
          × (stop_polled y id unload e (record o { state = s }) rt
              ≡ (put id e (record o { state = s }) rt, Outcome.waits)))
        ⊎ ((s ≢ stopping)
            × (stop_polled y id unload e (record o { state = s }) rt
                ≡ stop_end y id unload
                    (record e { object = record o { state = s } })
                    (put id e (record o { state = s }) rt)))
  unfolding stop_polled
  stop_polled_cases id unload e loaded o rt = inr (λ x. cc, refl)
  stop_polled_cases id unload e starting o rt = inr (λ x. cc, refl)
  stop_polled_cases id unload e running o rt = inr (λ x. cc, refl)
  stop_polled_cases id unload e stopping o rt = inl (refl, refl)
  stop_polled_cases id unload e stopped o rt = inr (λ x. cc, refl)
  stop_polled_cases id unload e exited o rt = inr (λ x. cc, refl)
  stop_polled_cases id unload e failed o rt = inr (λ x. cc, refl)

  pub stop_polled-IsValid :
      (id : Text) (unload : Bool) (e : Entry N) (o : Object N) (rt : Runtime N)
      → lookup text_discrete id rt.entries ≡ some e
      → Life.IsValid o
      → (e.object.task ≡ polled → o.task ≡ polled)
      → IsValid rt
      → IsValid (stop_polled y id unload e o rt).0
  stop_polled-IsValid id unload e o rt h valid kept v =
      let stored = put-IsValid id e o rt h valid kept v in
      elim (stop_polled_cases id unload e o.state o rt) [
        | inl (s, p) ↦ subst IsValid (sym (ap (λ r. r.0) p)) stored
        | inr (s, p) ↦
            subst IsValid (sym (ap (λ r. r.0) p))
              (stop_end-IsValid id unload (record e { object = o }) (put id e o rt) stored)
      ]
