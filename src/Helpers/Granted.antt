-- ===== src/Helpers/Granted.antt =====
-- Which calls a guest's `h_call` (src/helpers.rs) lets out to the host.
use spinfoam.Prelude.{
  ℕ, zero, suc, ◌≤◌, ◌≡◌, refl, ap, ◌∙◌, true, false, not, ◌&&◌, List, [], ◌∷◌, Option, some,
  if_cases, get_elem?, Bool-cases, Option-cases, inl, inr, arith,
}
use spinfoam.Text.{Text, text_discrete}
use spinfoam.Json.{Value, get}
use spinfoam.Outbox.Queues.{Bytes}
use spinfoam.Helpers.Table.{Capability, Guest, External, json, read_text}
use spinfoam.Helpers.Waiting.{Setup, refused, calls, all_same, any_grants, h_call}

module _ {N : Type 0} (x : External N) where
  -- A capability has the name, and every argument that it fixes is given with an equal value.
  pub record Grants (capability : Text) (args : Value N) (cap : Capability N) : Type 0 where
    pub named : cap.name ≡ capability
    pub fixed :
        (i : ℕ) (k : Text) (v : Value N)
        → get_elem? cap.arguments i ≡ some (k, v)
        → (w : Value N) × (get args k ≡ some w) × (x.equal w v ≡ true)

  all_same_fixed :
      (args : Value N) (fields : List (Text × Value N))
      → all_same x args fields ≡ true
      → (i : ℕ) (k : Text) (v : Value N) → get_elem? fields i ≡ some (k, v)
      → (w : Value N) × (get args k ≡ some w) × (x.equal w v ≡ true)
  all_same_fixed args [] e i k v h = cc
  all_same_fixed args ((j, u) ∷ fields) e (suc i) k v h =
      all_same_fixed args fields (ground arith) i k v h
  all_same_fixed args ((j, u) ∷ fields) e zero k v h = elim (Option-cases (get args j)) [
    | inl f ↦ absurd (let z : false ≡ true = rw f at e in cc)
    | inr (w, f) ↦
        let z : (x.equal w u && all_same x args fields) ≡ true = rw f at e in
        let same_key : k ≡ j = cc in
        let same_value : v ≡ u = cc in
        (w, ap (get args) same_key ∙ f, ap (x.equal w) same_value ∙ ground arith)
  ]

  any_grants-some :
      (capability : Text) (args : Value N) (caps : List (Capability N))
      → any_grants x capability args caps ≡ true
      → (i : ℕ) × (cap : Capability N) × (get_elem? caps i ≡ some cap) × Grants capability args cap
  any_grants-some capability args [] e = cc
  any_grants-some capability args (cap ∷ caps) e =
      elim (Bool-cases (all_same x args cap.arguments)) [
        | inr f ↦
            let (i, c, at_i, grants) = any_grants-some capability args caps (ground arith) in
            (suc i, c, at_i, grants)
        | inl f ↦ elim (text_discrete cap.name capability) [
          | yes p ↦
              (zero, cap, refl, record { named = p; fixed = all_same_fixed args cap.arguments f })
          | no p ↦
              let (i, c, at_i, grants) = any_grants-some capability args caps (ground arith) in
              (suc i, c, at_i, grants)
        ]
      ]

  -- What a call let out is: the name and the value that the guest names, for a day at most, under
  -- one of the capabilities that it was given.
  pub record Called (memory : Option Bytes) (n h ms : ℕ) (g : Guest N) (c : Text) (a : Value N)
      (t : ℕ) : Type 0 where
    pub name_read : read_text x memory n ≡ some c
    pub value_held : json h g ≡ some a
    pub within_a_day : t ≤ 86400000
    pub in_time : t ≤ ms
    pub granted :
        (i : ℕ) × (cap : Capability N) × (get_elem? g.capabilities i ≡ some cap) × Grants c a cap

  abbrev pub LetsOut : Option Bytes → ℕ → ℕ → ℕ → Guest N → Setup N → Type 0
  LetsOut memory n h ms g (refused r) = Unit
  LetsOut memory n h ms g (calls c a t) = Called memory n h ms g c a t

  -- A call that `h_call` lets out has the capability's name that the guest's memory holds and the
  -- value that its handle holds, waits for a day at most and no longer than asked, and falls under
  -- one of the capabilities that the guest was given: its name, and every argument that it fixes,
  -- with an equal value.
  pub h_call-LetsOut :
      (memory : Option Bytes) (n h ms : ℕ) (g : Guest N)
      → LetsOut memory n h ms g (h_call x memory n h ms g).1
  unfolding h_call
  h_call-LetsOut memory n h ms g = elim (Option-cases (read_text x memory n)) [
    | inl e ↦ rw (e, h_call) tt
    | inr (c, e) ↦ elim (Option-cases (json h g)) [
      | inl f ↦ rw (e, f, h_call) tt
      | inr (a, f) ↦
          rw (e, f, h_call)
            (if_cases {A = Guest N × Setup N} (λ r. LetsOut memory n h ms g r.1)
              (not (any_grants x c a g.capabilities)) _ _ (λ _. tt)
              λ b. record {
                name_read = e;
                value_held = f;
                within_a_day = omega arith;
                in_time = omega arith;
                granted = any_grants-some c a g.capabilities (ground arith);
              })
    ]
  ]
