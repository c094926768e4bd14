-- ===== src/Host/Once.antt =====
-- Every operation of src/host.rs keeps its calls in order: an ID is pending once and answered once.
use spinfoam.Prelude.{
  ℕ, ◌+◌, ◌-◌, ◌^◌, ◌≤◌, ◌<◌, ◌≡◌, ap, sym, ◌∙◌, Bool, List, [], ◌∷◌, ◌++◌, none, some, Result, leb,
  if_cases, length, lookup, remove, Distinct, insert-Distinct, remove-Distinct, length-insert,
  length-remove, lookup-insert_ne, lookup-remove_self, lookup-remove_ne, if_neg, Option-cases, inl,
  inr, arith,
}
use spinfoam.Prelude.Int.{ℤ}
use spinfoam.Text.{Text, text, text_discrete}
use spinfoam.Text.Decimal.{decimal, decimal_inj}
use spinfoam.Json.{Value, get_str}
use spinfoam.Outbox.Queues.{Bytes, Outbox}
use spinfoam.Host.Calls.{
  Host, Stage, sending, waiting, call_id, begin_call, poll_call, settle, response, drop_guard,
  cancel_call, cancel_calls,
}

after_prefix : (p : Text) (s t : Text) → p ++ s ≡ p ++ t → s ≡ t
after_prefix [] s t e = e
after_prefix (b ∷ p) s t e = after_prefix p s t (cc)

call_id_inj : (session : Text) (a b : ℕ) → call_id session a ≡ call_id session b → a ≡ b
call_id_inj session a b e =
    let f : session ++ b':' ∷ decimal a ≡ session ++ b':' ∷ decimal b =
      after_prefix (text "sf:") _ _ e in
    let g : b':' ∷ decimal a ≡ b':' ∷ decimal b = after_prefix session _ _ f in decimal_inj a b (cc)

-- An entry of a map with one less was in the map.
pub was_there :
    {V : Type 0} (k j : Text) (m : List (Text × V)) (v : V)
    → Distinct text_discrete m
    → lookup text_discrete j (remove text_discrete k m) ≡ some v
    → (¬ (k ≡ j)) × (lookup text_discrete j m ≡ some v)
was_there k j m v d e = elim (text_discrete j k) [
  | yes p ↦ absurd (
      let x : none ≡ some v =
        sym (
          ap (λ i. lookup text_discrete i (remove text_discrete k m)) p
          ∙ lookup-remove_self text_discrete k m d)
        ∙ e in
      cc)
  | no p ↦ (λ q. p (sym q), sym (lookup-remove_ne text_discrete k j m p) ∙ e)
]

module _ {N : Type 0} where
  abbrev next_id : Host N → Text
  next_id h = call_id h.session (h.next + 1)

  abbrev Issued : Host N → Text → Type 0
  Issued h id = (k : ℕ) × (k ≤ h.next) × (id ≡ call_id h.session k)

  pub record IsValid (h : Host N) : Type 0 where
    pub distinct : Distinct text_discrete h.calls
    pub few : length h.calls ≤ 16384
    pub once : Distinct text_discrete h.replies
    pub apart :
        (id object : Text)
        → lookup text_discrete id h.calls ≡ some object
        → lookup text_discrete id h.replies ≡ none
    pub issued : (id object : Text) → lookup text_discrete id h.calls ≡ some object → Issued h id
    pub replied :
        (id : Text) (r : Result ℤ (Value N))
        → lookup text_discrete id h.replies ≡ some r
        → Issued h id
    pub counted : h.next < 2 ^ 64

  -- Neither a pending call nor an answered one has the next ID.
  fresh_id :
      {V : Type 0} (h : Host N) (m : List (Text × V))
      → ((id : Text) (v : V) → lookup text_discrete id m ≡ some v → Issued h id)
      → lookup text_discrete (call_id h.session (h.next + 1)) m ≡ none
  fresh_id h m f = elim (Option-cases (lookup text_discrete (call_id h.session (h.next + 1)) m)) [
    | inl e ↦ e
    | inr (v, e) ↦
        let (k, small, same) = f _ v e in
        absurd (omega (arith, call_id_inj h.session (h.next + 1) k same))
  ]

  pub begin_call-IsValid :
      (object : Text) (h : Host N) → IsValid h → IsValid (begin_call object h).0
  unfolding begin_call
  begin_call-IsValid object h v =
      if_cases {A = Host N × Result ℤ Text} (λ r. IsValid r.0) (leb 16384 (length h.calls)) _ _
        (λ _. v)
        λ room.
          if_cases {A = Host N × Result ℤ Text} (λ r. IsValid r.0) (leb (2 ^ 64 - 1) h.next) _ _
            (λ _. v)
            λ left. record {
              distinct = insert-Distinct text_discrete (next_id h) object h.calls v.distinct;
              few = ground (arith, length-insert text_discrete (next_id h) object h.calls);
              once = v.once;
              apart = λ j o e. elim (text_discrete (next_id h) j) [
                | yes p ↦
                    ap (λ i. lookup text_discrete i h.replies) (sym p)
                    ∙ fresh_id h h.replies v.replied
                | no p ↦
                    v.apart j o
                      (sym (lookup-insert_ne text_discrete (next_id h) j object h.calls p) ∙ e)
              ];
              issued = λ j o e. elim (text_discrete (next_id h) j) [
                | yes p ↦ (h.next + 1, omega arith, sym p)
                | no p ↦
                    let (k, small, same) =
                      v.issued j o
                        (sym (lookup-insert_ne text_discrete (next_id h) j object h.calls p) ∙ e) in
                    (k, omega arith, same)
              ];
              replied = λ j r e. let (k, small, same) = v.replied j r e in (k, omega arith, same);
              counted = ground arith;
            }

  pub removed-IsValid :
      (id : Text) (out : Outbox) (h : Host N)
      → IsValid h
      → IsValid (record h { calls = remove text_discrete id h.calls; out = out })
  removed-IsValid id out h v = record {
    distinct = remove-Distinct text_discrete id h.calls v.distinct;
    few = omega (arith, length-remove text_discrete id h.calls, v.few);
    once = v.once;
    apart = λ j o e. v.apart j o (was_there id j h.calls o v.distinct e).1;
    issued = λ j o e. v.issued j o (was_there id j h.calls o v.distinct e).1;
    replied = v.replied;
    counted = v.counted;
  }

  pub out-IsValid :
      (out : Outbox) (ignored : ℕ) (h : Host N)
      → IsValid h
      → IsValid (record h { out = out; ignored = ignored })
  out-IsValid out ignored h v = record {
    distinct = v.distinct;
    few = v.few;
    once = v.once;
    apart = v.apart;
    issued = v.issued;
    replied = v.replied;
    counted = v.counted;
  }

module _ {N : Type 0} (to_vec : Value N → Result Text Bytes) where
  pub settle-IsValid :
      (id object : Text) (r : Result ℤ (Value N)) (h : Host N)
      → IsValid h
      → lookup text_discrete id h.calls ≡ some object
      → IsValid (settle to_vec id r h)
  settle-IsValid id object r h v e = record {
    distinct = remove-Distinct text_discrete id h.calls v.distinct;
    few = omega (arith, length-remove text_discrete id h.calls, v.few);
    once = (v.apart id object e, v.once);
    apart = λ j o f.
        let (other, held) = was_there id j h.calls o v.distinct f in
        if_neg (text_discrete id j) other _ _ ∙ v.apart j o held;
    issued = λ j o f. v.issued j o (was_there id j h.calls o v.distinct f).1;
    replied = λ j s f. elim (text_discrete id j) [
      | yes p ↦ let (k, small, same) = v.issued id object e in (k, small, sym p ∙ same)
      | no p ↦ v.replied j s (sym (if_neg (text_discrete id j) p _ _) ∙ f)
    ];
    counted = v.counted;
  }

  pub response-IsValid :
      (frame : Value N) (h : Host N) → IsValid h → IsValid (response to_vec frame h)
  unfolding response
  response-IsValid frame h v = elim (Option-cases (get_str frame (text "id"))) [
    | inl e ↦ rw (e, response) (out-IsValid _ _ h v)
    | inr (id, e) ↦ elim (Option-cases (lookup text_discrete id h.calls)) [
      | inl f ↦ rw (e, f, response) (out-IsValid _ _ h v)
      | inr (object, f) ↦ rw (e, f, response) (settle-IsValid id object _ h v f)
    ]
  ]

  pub drop_guard-IsValid :
      (sent : Bool) (object id : Text) (h : Host N)
      → IsValid h
      → IsValid (drop_guard to_vec sent object id h)
  unfolding drop_guard
  drop_guard-IsValid sent object id h v = elim (Option-cases (lookup text_discrete id h.calls)) [
    | inl e ↦ rw (e, drop_guard) (out-IsValid _ _ h v)
    | inr (o, e) ↦ rw (e, drop_guard) (removed-IsValid id _ h v)
  ]

  cancel_call-IsValid : (id : Text) (h : Host N) → IsValid h → IsValid (cancel_call to_vec id h)
  unfolding cancel_call
  cancel_call-IsValid id h v = elim (Option-cases (lookup text_discrete id h.calls)) [
    | inl e ↦ rw (e, cancel_call) v
    | inr (o, e) ↦ rw (e, cancel_call) (settle-IsValid id o _ _ (out-IsValid _ h.ignored h v) e)
  ]

  pub cancel_calls-IsValid :
      (ids : List Text) (h : Host N) → IsValid h → IsValid (cancel_calls to_vec ids h)
  unfolding cancel_calls
  cancel_calls-IsValid [] h v = v
  cancel_calls-IsValid (id ∷ ids) h v =
      cancel_calls-IsValid ids (cancel_call to_vec id h) (cancel_call-IsValid id h v)

  pub poll_call-IsValid :
      (object id : Text) (s : Stage) (h : Host N) → IsValid h → IsValid (poll_call object id s h).0
  unfolding poll_call
  poll_call-IsValid object id (sending bytes) h v = out-IsValid _ h.ignored h v
  poll_call-IsValid object id waiting h v = v
