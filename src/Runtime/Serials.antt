-- ===== src/Runtime/Serials.antt =====
-- The table of objects in src/runtime.rs: every object in it is in order, and the serial numbers that
-- are not given out, or whose program is still loading, have none.
use spinfoam.Prelude.{
  ℕ, ◌+◌, ◌≤◌, ◌<◌, ◌≡◌, sym, ap, subst, ◌∙◌, List, ◌∷◌, none, some, lookup, insert, Distinct,
  insert-Distinct, lookup-insert_self, lookup-insert_ne, count, without, count-without_self,
  count-without_ne, ℕ_discrete, if_neg, arith,
}
use spinfoam.Text.{Text, text_discrete}
use spinfoam.Text.Decimal.{decimal, decimal_inj}
use spinfoam.Runtime.Life as Life
use spinfoam.Runtime.Table.{Entry, object_id}

pub object_id_inj : (a b : ℕ) → object_id a ≡ object_id b → a ≡ b
unfolding decimal
object_id_inj a b e = decimal_inj a b (cc)

module _ {N : Type 0} where
  pub record Serials (entries : List (Text × Entry N)) (next : ℕ) (loading : List ℕ) : Type 0 where
    pub distinct : Distinct text_discrete entries
    pub objects :
        (id : Text) (e : Entry N) → lookup text_discrete id entries ≡ some e → Life.IsValid e.object
    pub fresh : (k : ℕ) → next < k → lookup text_discrete (object_id k) entries ≡ none
    pub absent :
        (k : ℕ)
        → 1 ≤ count ℕ_discrete k loading
        → (k ≤ next) × (lookup text_discrete (object_id k) entries ≡ none)

  -- An object that is there is written back.
  pub insert-Serials :
      (id : Text) (e e' : Entry N) (entries : List (Text × Entry N)) (next : ℕ) (loading : List ℕ)
      → Serials entries next loading
      → lookup text_discrete id entries ≡ some e
      → Life.IsValid e'.object
      → Serials (insert text_discrete id e' entries) next loading
  insert-Serials id e e' entries next loading v h valid = record {
    distinct = insert-Distinct text_discrete id e' entries v.distinct;
    objects = λ k f g. elim (text_discrete id k) [
      | yes p ↦
          let same : some e' ≡ some f =
            sym (
              ap (λ i. lookup text_discrete i (insert text_discrete id e' entries)) (sym p)
              ∙ lookup-insert_self text_discrete id e' entries)
            ∙ g in
          let named : e' ≡ f = cc in subst (λ x. Life.IsValid x.object) named valid
      | no p ↦ v.objects k f (sym (lookup-insert_ne text_discrete id k e' entries p) ∙ g)
    ];
    fresh = λ k b. others (object_id k) (v.fresh k b);
    absent = λ k b. ((v.absent k b).0, others (object_id k) (v.absent k b).1);
  }
    where
      others :
          (k : Text)
          → lookup text_discrete k entries ≡ none
          → lookup text_discrete k (insert text_discrete id e' entries) ≡ none
      others k g = elim (text_discrete id k) [
        | yes p ↦ absurd (
            let x : none ≡ some e = sym g ∙ ap (λ i. lookup text_discrete i entries) (sym p) ∙ h in
            cc)
        | no p ↦ lookup-insert_ne text_discrete id k e' entries p ∙ g
      ]

  -- A number is given out.
  pub given-Serials :
      (entries : List (Text × Entry N)) (next : ℕ) (loading : List ℕ)
      → Serials entries next loading
      → Serials entries (next + 1) ((next + 1) ∷ loading)
  given-Serials entries next loading v = record {
    distinct = v.distinct;
    objects = v.objects;
    fresh = λ k b. v.fresh k (omega arith);
    absent = λ k b. elim (ℕ_discrete (next + 1) k) [
      | yes p ↦ (omega (arith, p), v.fresh k (omega (arith, p)))
      | no p ↦
          let there : 1 ≤ count ℕ_discrete k loading =
            subst (λ n. 1 ≤ n) (if_neg (ℕ_discrete (next + 1) k) p _ _) b in
          (omega (arith, (v.absent k there).0), (v.absent k there).1)
    ];
  }

  -- A load ends without an object.
  pub ended-Serials :
      (serial : ℕ) (entries : List (Text × Entry N)) (next : ℕ) (loading : List ℕ)
      → Serials entries next loading
      → Serials entries next (without ℕ_discrete serial loading)
  ended-Serials serial entries next loading v = record {
    distinct = v.distinct;
    objects = v.objects;
    fresh = v.fresh;
    absent = λ k b. elim (ℕ_discrete k serial) [
      | yes p ↦ absurd (
          omega (
            arith,
            b,
            ap (λ i. count ℕ_discrete i (without ℕ_discrete serial loading)) p,
            count-without_self ℕ_discrete serial loading,
          ))
      | no p ↦ v.absent k (subst (λ n. 1 ≤ n) (count-without_ne ℕ_discrete serial k loading p) b)
    ];
  }

  -- A load ends with its object, under a number that had none.
  pub loaded-Serials :
      (serial : ℕ) (e : Entry N) (entries : List (Text × Entry N)) (next : ℕ) (loading : List ℕ)
      → Serials entries next loading
      → 1 ≤ count ℕ_discrete serial loading
      → Life.IsValid e.object
      → Serials
          (insert text_discrete (object_id serial) e entries)
          next
          (without ℕ_discrete serial loading)
  loaded-Serials serial e entries next loading v there valid = record {
    distinct = insert-Distinct text_discrete (object_id serial) e entries v.distinct;
    objects = λ k f g. elim (text_discrete (object_id serial) k) [
      | yes p ↦
          let same : some e ≡ some f =
            sym (
              ap (λ i. lookup text_discrete i (insert text_discrete (object_id serial) e entries))
                (sym p)
              ∙ lookup-insert_self text_discrete (object_id serial) e entries)
            ∙ g in
          let named : e ≡ f = cc in subst (λ x. Life.IsValid x.object) named valid
      | no p ↦
          v.objects k f (sym (lookup-insert_ne text_discrete (object_id serial) k e entries p) ∙ g)
    ];
    fresh = λ k b. other k (λ p. omega (arith, p, b, (v.absent serial there).0)) ∙ v.fresh k b;
    absent = λ k b. elim (ℕ_discrete k serial) [
      | yes p ↦ absurd (
          omega (
            arith,
            b,
            ap (λ i. count ℕ_discrete i (without ℕ_discrete serial loading)) p,
            count-without_self ℕ_discrete serial loading,
          ))
      | no p ↦
          let was =
            v.absent k (subst (λ n. 1 ≤ n) (count-without_ne ℕ_discrete serial k loading p) b) in
          (was.0, other k (λ q. p (sym q)) ∙ was.1)
    ];
  }
    where
      other :
          (k : ℕ)
          → ¬ (serial ≡ k)
          → lookup text_discrete (object_id k) (insert text_discrete (object_id serial) e entries)
            ≡ lookup text_discrete (object_id k) entries
      other k p =
          lookup-insert_ne text_discrete (object_id serial) (object_id k) e entries
            (λ q. p (object_id_inj serial k q))
