-- ===== src/Helpers/Handles.antt =====
-- The table of handles of src/helpers.rs: how `insert` changes it, and what keeps it in order.
use spinfoam.Prelude.{
  ℕ, ◌-◌, ◌^◌, ◌≤◌, ◌<◌, ◌≡◌, refl, sym, ◌∙◌, Option, none, some, ltb, leb, if_cases, length,
  lookup, insert, Distinct, insert-Distinct, remove-Distinct, length-insert, length-insert_present,
  length-remove, lookup-insert_self, lookup-insert_ne, lookup-remove_absent, Option-cases,
  Bool-cases, inl, inr, ℕ_discrete, arith,
}
use spinfoam.Json.{Value}
use spinfoam.Error.{limit}
use spinfoam.Helpers.Table.{Handle, json_handle, Guest, max_handles, insert_handle, give, status}
use spinfoam.Helpers.Operations.{give_or_invalid, h_drop}

module _ {N : Type 0} where
  pub record IsValid (g : Guest N) : Type 0 where
    pub distinct : Distinct ℕ_discrete g.handles
    pub few : length g.handles ≤ max_handles
    pub fresh : (h : ℕ) → g.next_handle ≤ h → lookup ℕ_discrete h g.handles ≡ none
    pub started : 1 ≤ g.next_handle
    pub bounded : g.next_handle < 2 ^ 63

  -- Either the table is full or the numbers are used up, and nothing changes but for the status
  -- `LIMIT` given back; or the handle stands under a number that was free and that no status looks
  -- like, and all others stand as they did.
  pub record Inserted (handle : Handle N) (g : Guest N) (r : Guest N × ℕ) : Type 0 where
    pub valid : IsValid r.0
    pub kept :
        (h : ℕ) (held : Handle N)
        → lookup ℕ_discrete h g.handles ≡ some held
        → lookup ℕ_discrete h r.0.handles ≡ some held
    pub refused : 2 ^ 63 ≤ r.1 → (r.0 ≡ g) × (r.1 ≡ status limit)
    pub stored :
        r.1 < 2 ^ 63
        → (lookup ℕ_discrete r.1 g.handles ≡ none)
          × (lookup ℕ_discrete r.1 r.0.handles ≡ some handle)

  refusal : (handle : Handle N) (g : Guest N) → IsValid g → Inserted handle g (g, status limit)
  refusal handle g v = record {
    valid = v;
    kept = λ h held e. e;
    refused = λ h. (refl, refl);
    stored = λ h. absurd (omega arith);
  }

  -- A handle that is held has a number below the next one.
  pub held_below :
      (g : Guest N) (h : ℕ) (held : Handle N)
      → IsValid g
      → lookup ℕ_discrete h g.handles ≡ some held
      → h < g.next_handle
  held_below g h held v e = elim (Bool-cases (ltb h g.next_handle)) [
    | inl b ↦ ground arith
    | inr b ↦ absurd (let x : none ≡ some held = sym (v.fresh h (ground arith)) ∙ e in cc)
  ]

  -- On a valid guest `insert` either refuses, with the status `LIMIT` and nothing changed, or gives
  -- the value a number that was not in use, that is below 2 ^ 63 as no status is, and under which
  -- the value then stands, beside all handles that there were.
  pub insert_handle-Inserted :
      (handle : Handle N) (g : Guest N) → IsValid g → Inserted handle g (insert_handle handle g)
  unfolding insert_handle
  insert_handle-Inserted handle g v =
      if_cases {A = Guest N × ℕ} (Inserted handle g) (leb max_handles (length g.handles)) _ _
        (λ _. refusal handle g v)
        λ room.
          if_cases {A = Guest N × ℕ} (Inserted handle g) (ltb g.next_handle (2 ^ 63 - 1)) _ _
            (λ left. record {
              valid = record {
                distinct = insert-Distinct ℕ_discrete g.next_handle handle g.handles v.distinct;
                few = ground (arith, length-insert ℕ_discrete g.next_handle handle g.handles);
                fresh = λ h k.
                    lookup-insert_ne ℕ_discrete g.next_handle h handle g.handles
                      (λ p. absurd (omega arith))
                    ∙ v.fresh h (omega arith);
                started = omega (arith, v.started);
                bounded = ground arith;
              };
              kept = λ h held e.
                  lookup-insert_ne ℕ_discrete g.next_handle h handle g.handles
                    (λ p. absurd (omega (arith, held_below g h held v e)))
                  ∙ e;
              refused = λ h. absurd (ground arith);
              stored = λ h. (
                v.fresh g.next_handle (omega arith),
                lookup-insert_self ℕ_discrete g.next_handle handle g.handles,
              );
            })
            λ _. refusal handle g v

  pub give-IsValid : (handle : Handle N) (g : Guest N) → IsValid g → IsValid (give handle g).0
  give-IsValid handle g v = (insert_handle-Inserted handle g v).valid

  pub give_or_invalid-IsValid :
      (o : Option (Value N)) (g : Guest N) → IsValid g → IsValid (give_or_invalid o g).0
  give_or_invalid-IsValid none g v = v
  give_or_invalid-IsValid (some w) g v = give-IsValid (json_handle w) g v

  pub h_drop-IsValid : (h : ℕ) (g : Guest N) → IsValid g → IsValid (h_drop h g).0
  unfolding h_drop
  h_drop-IsValid h g v = elim (Option-cases (lookup ℕ_discrete h g.handles)) [
    | inl e ↦ rw (e, h_drop) v
    | inr (held, e) ↦
        rw (e, h_drop)
          (record {
            distinct = remove-Distinct ℕ_discrete h g.handles v.distinct;
            few = omega (arith, length-remove ℕ_discrete h g.handles, v.few);
            fresh = λ k f. lookup-remove_absent ℕ_discrete h k g.handles (v.fresh k f);
            started = v.started;
            bounded = v.bounded;
          })
  ]

  -- A handle's value may be replaced.
  pub replace-IsValid :
      (h : ℕ) (held new : Handle N) (g : Guest N)
      → IsValid g
      → lookup ℕ_discrete h g.handles ≡ some held
      → IsValid (record g { handles = insert ℕ_discrete h new g.handles })
  replace-IsValid h held new g v e = record {
    distinct = insert-Distinct ℕ_discrete h new g.handles v.distinct;
    few = omega (arith, length-insert_present ℕ_discrete h new held g.handles e, v.few);
    fresh = λ k f.
        lookup-insert_ne ℕ_discrete h k new g.handles
          (λ p. absurd (omega (arith, held_below g h held v e)))
        ∙ v.fresh k f;
    started = v.started;
    bounded = v.bounded;
  }
