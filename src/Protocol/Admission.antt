-- ===== src/Protocol/Admission.antt =====
-- The outstanding IDs and the slots of src/protocol.rs: each task has one of each, or needs no slot.
use spinfoam.Prelude.{
  ℕ, suc, ◌+◌, ◌-◌, ◌≤◌, ◌<◌, ◌≡◌, refl, sym, ap, subst, ◌∙◌, Bool, true, false, List, [], ◌∷◌,
  none, some, if◌then◌else◌, Bool-cases, lookup, insert, remove, without, count, weight, total,
  Distinct, insert-Distinct, remove-Distinct, lookup-insert_self, lookup-insert_ne,
  lookup-remove_self, lookup-remove_ne, total-insert, total-remove, count-without_self,
  count-without_ne, Option-cases, inl, inr, if_pos, if_neg, arith,
}
use spinfoam.Text.{Text, text_discrete}
use spinfoam.Protocol.Methods.{method_of, build_compile}
use spinfoam.Protocol.Serve.{Stage, Request, contains, add_id, slots}

abbrev slot_of : Bool → ℕ
slot_of true = 1
slot_of false = 0

module _ {N : Type 0} where
  abbrev pub slots_of : Request N → ℕ
  slots_of r = slot_of r.permit

  pub record Admitted (ids : List Text) (used : ℕ) (tasks : List (Text × Request N)) : Type 0 where
    pub distinct : Distinct text_discrete tasks
    pub outstanding :
        (id : Text) → count text_discrete id ids ≡ weight (λ _. 1) (lookup text_discrete id tasks)
    pub taken : used ≡ total slots_of tasks
    pub few : used ≤ slots
    pub exempt :
        (id : Text) (r : Request N)
        → lookup text_discrete id tasks ≡ some r
        → r.permit ≡ false
        → method_of r.method ≡ build_compile

  -- An ID that is not outstanding has no task.
  pub absent_task :
      (id : Text) (ids : List Text) (used : ℕ) (tasks : List (Text × Request N))
      → Admitted ids used tasks
      → contains id ids ≡ false
      → (count text_discrete id ids ≡ 0) × (lookup text_discrete id tasks ≡ none)
  absent_task id ids used tasks v c =
      let zero_count : count text_discrete id ids ≡ 0 = ground (arith, c) in
      (
        zero_count,
        elim (Option-cases (lookup text_discrete id tasks)) [
          | inl e ↦ e
          | inr (r, e) ↦
              absurd (omega (arith, v.outstanding id, zero_count, ap (weight (λ _. 1)) e))
        ],
      )

  pub spawned-Admitted :
      (id : Text) (r : Request N) (ids : List Text) (used : ℕ) (tasks : List (Text × Request N))
      → Admitted ids used tasks
      → contains id ids ≡ false
      → (r.permit ≡ true → used < slots)
      → (r.permit ≡ false → method_of r.method ≡ build_compile)
      → Admitted (add_id id ids) (if r.permit then used + 1 else used) ((id, r) ∷ tasks)
  spawned-Admitted id r ids used tasks v c room free_of =
      let (zero_count, gone) = absent_task id ids used tasks v c in
      record {
        distinct = (gone, v.distinct);
        outstanding = λ k. rw c (elim (text_discrete id k) [
          | yes p ↦
              rw (if_pos (text_discrete id k) p, if_pos (text_discrete id k) p)
                (ap suc (ap (λ i. count text_discrete i ids) (sym p) ∙ zero_count))
          | no p ↦
              rw (if_neg (text_discrete id k) p, if_neg (text_discrete id k) p) (v.outstanding k)
        ]);
        taken = elim (Bool-cases r.permit) [
          | inl b ↦ rw b (omega (arith, v.taken))
          | inr b ↦ rw b (omega (arith, v.taken))
        ];
        few = elim (Bool-cases r.permit) [
          | inl b ↦ rw b (omega (arith, room b))
          | inr b ↦ rw b v.few
        ];
        exempt = λ k q e b. elim (text_discrete id k) [
          | yes p ↦
              let same : some r ≡ some q = sym (if_pos (text_discrete id k) p _ _) ∙ e in
              let named : r ≡ q = cc in
              subst (λ t. method_of t.method ≡ build_compile) named
                (free_of (ap (λ t. t.permit) named ∙ b))
          | no p ↦ v.exempt k q (sym (if_neg (text_discrete id k) p _ _) ∙ e) b
        ];
      }

  pub staged-Admitted :
      (id : Text) (r : Request N) (stage : Stage N) (ids : List Text) (used : ℕ)
      (tasks : List (Text × Request N))
      → Admitted ids used tasks
      → lookup text_discrete id tasks ≡ some r
      → Admitted ids used (insert text_discrete id (record r { stage = stage }) tasks)
  staged-Admitted id r stage ids used tasks v h = record {
    distinct = insert-Distinct text_discrete id (record r { stage = stage }) tasks v.distinct;
    outstanding = λ k. elim (text_discrete id k) [
      | yes p ↦
          subst
            (λ i.
              count text_discrete i ids
              ≡ weight (λ _. 1)
                  (lookup text_discrete i
                    (insert text_discrete id (record r { stage = stage }) tasks)))
            p
            (v.outstanding id
              ∙ ap (weight (λ _. 1)) h
              ∙ sym (
                  ap (weight (λ _. 1))
                    (lookup-insert_self text_discrete id (record r { stage = stage }) tasks)))
      | no p ↦
          v.outstanding k
          ∙ sym (
              ap (weight (λ _. 1))
                (lookup-insert_ne text_discrete id k (record r { stage = stage }) tasks p))
    ];
    taken = omega (
      arith,
      v.taken,
      ap (weight slots_of) h,
      total-insert text_discrete slots_of id (record r { stage = stage }) tasks,
    );
    few = v.few;
    exempt = λ k q e b. elim (text_discrete id k) [
      | yes p ↦
          let same : some (record r { stage = stage }) ≡ some q =
            sym (
              ap
                (λ i.
                  lookup text_discrete i
                    (insert text_discrete id (record r { stage = stage }) tasks))
                (sym p)
              ∙ lookup-insert_self text_discrete id (record r { stage = stage }) tasks)
            ∙ e in
          let named : record r { stage = stage } ≡ q = cc in
          subst (λ t. method_of t.method ≡ build_compile) named
            (v.exempt id r h (ap (λ t. t.permit) named ∙ b))
      | no p ↦
          v.exempt k q
            (sym (lookup-insert_ne text_discrete id k (record r { stage = stage }) tasks p) ∙ e) b
    ];
  }

  pub freed-Admitted :
      (id : Text) (r : Request N) (ids : List Text) (used : ℕ) (tasks : List (Text × Request N))
      → Admitted ids used tasks
      → lookup text_discrete id tasks ≡ some r
      → Admitted
          (without text_discrete id ids)
          (if r.permit then used - 1 else used)
          (remove text_discrete id tasks)
  freed-Admitted id r ids used tasks v h = record {
    distinct = remove-Distinct text_discrete id tasks v.distinct;
    outstanding = λ k. elim (text_discrete k id) [
      | yes p ↦
          subst
            (λ i.
              count text_discrete i (without text_discrete id ids)
              ≡ weight (λ _. 1) (lookup text_discrete i (remove text_discrete id tasks)))
            (sym p)
            (count-without_self text_discrete id ids
              ∙ sym (ap (weight (λ _. 1)) (lookup-remove_self text_discrete id tasks v.distinct)))
      | no p ↦
          count-without_ne text_discrete id k ids p
          ∙ v.outstanding k
          ∙ sym (ap (weight (λ _. 1)) (lookup-remove_ne text_discrete id k tasks p))
    ];
    taken = elim (Bool-cases r.permit) [
      | inl b ↦ rw b (omega (arith, v.taken, left_over, ap slot_of b))
      | inr b ↦ rw b (omega (arith, v.taken, left_over, ap slot_of b))
    ];
    few = elim (Bool-cases r.permit) [ inl b ↦ rw b (omega (arith, v.few)) | inr b ↦ rw b v.few ];
    exempt = λ k q e b. elim (text_discrete k id) [
      | yes p ↦ absurd (
          let x : none ≡ some q =
            sym (
              ap (λ i. lookup text_discrete i (remove text_discrete id tasks)) p
              ∙ lookup-remove_self text_discrete id tasks v.distinct)
            ∙ e in
          cc)
      | no p ↦ v.exempt k q (sym (lookup-remove_ne text_discrete id k tasks p) ∙ e) b
    ];
  }
    where
      left_over : total slots_of (remove text_discrete id tasks) + slots_of r ≡ total slots_of tasks
      left_over =
          ap (λ t. total slots_of (remove text_discrete id tasks) + t)
            (sym (ap (weight slots_of) h))
          ∙ total-remove text_discrete slots_of id tasks

  pub none-Admitted : Admitted [] 0 []
  none-Admitted = record {
    distinct = tt;
    outstanding = λ k. refl;
    taken = refl;
    few = omega arith;
    exempt = λ k q e b. absurd (let x : none ≡ some q = e in cc);
  }
