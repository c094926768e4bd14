-- ===== src/Host/Cancelled.antt =====
-- `cancel_object` of src/host.rs ends the calls of one object, and no others.
use spinfoam.Prelude.{
  ◌≡◌, ◌≢◌, refl, ap, sym, subst, ◌∙◌, ◌↔◌, List, [], ◌∷◌, none, some, Result, lookup, remove,
  Distinct, remove-Distinct, remove_absent, lookup-remove_ne, if_pos, if_neg, Option-cases, inl,
  inr, arith,
}
use spinfoam.Text.{Text, text_discrete}
use spinfoam.Json.{Value}
use spinfoam.Outbox.Queues.{Bytes}
use spinfoam.Host.Calls.{Host, ids_of, cancel_call, cancel_calls, cancel_object}
use spinfoam.Host.Once.{was_there}

abbrev NotIn : Text → List Text → Type 0
NotIn j [] = Unit
NotIn j (i ∷ ids) = (i ≢ j) × NotIn j ids

module _ {N : Type 0} (to_vec : Value N → Result Text Bytes) where
  cancel_call-calls :
      (id : Text) (h : Host N) → (cancel_call to_vec id h).calls ≡ remove text_discrete id h.calls
  unfolding cancel_call
  cancel_call-calls id h = elim (Option-cases (lookup text_discrete id h.calls)) [
    | inl e ↦ rw (e, cancel_call) (sym (remove_absent text_discrete id h.calls e))
    | inr (o, e) ↦ rw (e, cancel_call) refl
  ]

  cancel_calls_left :
      (ids : List Text) (h : Host N) (j o : Text)
      → Distinct text_discrete h.calls
      → lookup text_discrete j (cancel_calls to_vec ids h).calls ≡ some o
      → NotIn j ids × (lookup text_discrete j h.calls ≡ some o)
  unfolding cancel_calls
  cancel_calls_left [] h j o d e = (tt, e)
  cancel_calls_left (id ∷ ids) h j o d e =
      let same = cancel_call-calls id h in
      let (out, held) =
        cancel_calls_left ids (cancel_call to_vec id h) j o
          (subst (Distinct text_discrete) (sym same) (remove-Distinct text_discrete id h.calls d))
          e in
      let (other, there) =
        was_there id j h.calls o d (ap (lookup text_discrete j) (sym same) ∙ held) in
      ((other, out), there)

  collected :
      (j object : Text) (calls : List (Text × Text))
      → lookup text_discrete j calls ≡ some object
      → ¬ NotIn j (ids_of to_vec object calls)
  collected j object [] e n = cc
  collected j object ((id, o) ∷ calls) e n = ground (arith, collected j object calls)

  cancel_calls_others :
      (ids : List Text) (h : Host N) (j : Text)
      → NotIn j ids
      → lookup text_discrete j (cancel_calls to_vec ids h).calls ≡ lookup text_discrete j h.calls
  unfolding cancel_calls
  cancel_calls_others [] h j n = refl
  cancel_calls_others (id ∷ ids) h j n =
      cancel_calls_others ids (cancel_call to_vec id h) j n.1
      ∙ ap (lookup text_discrete j) (cancel_call-calls id h)
      ∙ lookup-remove_ne text_discrete id j h.calls (λ e. n.0 (sym e))

  if_NotIn :
      (j object : Text) (id p : Text) (calls : List (Text × Text))
      → (p ≡ object → id ≢ j)
      → NotIn j (ids_of to_vec object calls)
      → NotIn j (ids_of to_vec object ((id, p) ∷ calls))
  if_NotIn j object id p calls h n = elim (text_discrete p object) [
    | yes e ↦ rw (if_pos (text_discrete p object) e) (h e, n)
    | no e ↦ rw (if_neg (text_discrete p object) e) n
  ]

  unheld :
      (j object : Text) (calls : List (Text × Text))
      → lookup text_discrete j calls ≡ none
      → NotIn j (ids_of to_vec object calls)
  unheld j object [] e = tt
  unheld j object ((id, p) ∷ calls) e = elim (text_discrete id j) [
    | yes q ↦ absurd (let x : some p ≡ none = sym (if_pos (text_discrete id j) q _ _) ∙ e in cc)
    | no q ↦
        if_NotIn j object id p calls (λ _. q)
          (unheld j object calls (sym (if_neg (text_discrete id j) q _ _) ∙ e))
  ]

  uncollected :
      (j object o : Text) (calls : List (Text × Text))
      → Distinct text_discrete calls
      → lookup text_discrete j calls ≡ some o
      → o ≢ object
      → NotIn j (ids_of to_vec object calls)
  uncollected j object o [] d e n = tt
  uncollected j object o ((id, p) ∷ calls) d e n = elim (text_discrete id j) [
    | yes q ↦
        let same : some p ≡ some o = sym (if_pos (text_discrete id j) q _ _) ∙ e in
        let other : p ≢ object = λ r. n (cc) in
        if_NotIn j object id p calls (λ r. absurd (other r))
          (unheld j object calls (subst (λ k. lookup text_discrete k calls ≡ none) q d.0))
    | no q ↦
        if_NotIn j object id p calls (λ _. q)
          (uncollected j object o calls d.1 (sym (if_neg (text_discrete id j) q _ _) ∙ e) n)
  ]

  -- Where no ID is pending twice: once an object's calls are cancelled, the calls pending are those
  -- that were and that are not of that object.
  pub cancel_object_iff :
      (object : Text) (h : Host N) (id o : Text)
      → Distinct text_discrete h.calls
      → (lookup text_discrete id (cancel_object to_vec object h).calls ≡ some o)
        ↔ ((o ≢ object) × (lookup text_discrete id h.calls ≡ some o))
  unfolding cancel_object
  cancel_object_iff object h id o d = (
    λ e.
        (let (out, held) = cancel_calls_left (ids_of to_vec object h.calls) h id o d e in
          (λ p. collected id object h.calls (held ∙ ap some p) out, held)),
    λ (other, held).
        cancel_calls_others (ids_of to_vec object h.calls) h id
          (uncollected id object o h.calls d held other)
        ∙ held,
  )
