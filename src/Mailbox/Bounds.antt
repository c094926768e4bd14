-- ===== src/Mailbox/Bounds.antt =====
-- The bounds of an object's mailbox (src/runtime.rs), kept by its operations.
use spinfoam.Prelude.{
  ℕ, ◌+◌, ◌-◌, ◌*◌, ◌≤◌, ◌<◌, ◌≡◌, refl, inl, inr, List, [], ◌∷◌, ◌++◌, Result, ok, err, ltb, ◌==◌,
  length, length-append, Bool-cases, Option-cases, if_cases, arith,
}
use spinfoam.Text.{Text, text}
use spinfoam.Json.{Value, get_str}
use spinfoam.Error.{RpcResult, params_error}
use spinfoam.Outbox.Queues.{Bytes}
use spinfoam.Mailbox.{
  Mailbox, empty, seen, pop_front, push_recent, admit, receive, clear, deliver_named, deliver,
}

length-pop_front : (xs : List Text) → length (pop_front xs) ≡ length xs - 1
length-pop_front [] = omega arith
length-pop_front (x ∷ xs) = omega arith

length-push_recent :
    (id : Text) (xs : List Text) → length xs ≤ 128 → length (push_recent id xs) ≤ 128
unfolding push_recent
length-push_recent id xs h = elim (Bool-cases (length xs == 128)) [
  | inl e ↦ rw e (omega (arith, length-append (pop_front xs) (id ∷ []), length-pop_front xs))
  | inr e ↦ rw e (
      let below : length xs < 128 = ground arith in
      omega (arith, below, length-append xs (id ∷ [])))
]

module _ {N : Type 0} where
  abbrev pub sizes : List (Value N × ℕ) → ℕ
  sizes [] = 0
  sizes ((v, n) ∷ es) = n + sizes es

  pub record IsValid (m : Mailbox N) : Type 0 where
    pub summed : m.bytes ≡ sizes m.entries
    pub bounded : m.bytes ≤ 32 * 1024
    pub slots : length m.entries ≤ 32
    pub window : length m.recent ≤ 128

  sizes-append :
      (es : List (Value N × ℕ)) (v : Value N) (n : ℕ) → sizes (es ++ (v, n) ∷ []) ≡ sizes es + n
  sizes-append [] v n = omega arith
  sizes-append (e ∷ es) v n = omega (arith, sizes-append es v n)

  abbrev Keeps : Mailbox N × RpcResult N → Type 0
  Keeps r = IsValid r.0

  pub empty-IsValid : IsValid (empty {N = N})
  empty-IsValid = record {
    summed = refl;
    bounded = omega arith;
    slots = omega arith;
    window = omega arith;
  }

  pub clear-IsValid : (m : Mailbox N) → IsValid (clear m)
  unfolding clear
  clear-IsValid m = record {
    summed = refl;
    bounded = omega arith;
    slots = omega arith;
    window = omega arith;
  }

  admit-IsValid :
      (event : Value N) (id : Text) (n : ℕ) (m : Mailbox N)
      → IsValid m
      → IsValid (admit event id n m).0
  unfolding admit
  admit-IsValid event id n m v = ground (
    arith,
    sizes-append m.entries event n,
    length-append m.entries ((event, n) ∷ []),
    length-push_recent id m.recent,
  )

  pub receive-IsValid : (m : Mailbox N) → IsValid m → IsValid (receive m).0
  unfolding receive
  receive-IsValid m v = ground arith

  module _ (to_vec : Value N → Result Text Bytes) where
    deliver_named-IsValid :
        (event : Value N) (id : Text) (m : Mailbox N)
        → IsValid m
        → IsValid (deliver_named to_vec event id m).0
    unfolding deliver_named
    deliver_named-IsValid event id m v =
        if_cases Keeps (ltb 128 (length id)) _ _ (λ _. v)
          λ _. if_cases Keeps (seen id m.recent) _ _ (λ _. v) λ _. go (to_vec event)
      where
        go :
            (r : Result Text Bytes)
            → IsValid (
                let out : Mailbox N × RpcResult N = elim r [
                  | err e ↦ (m, err (params_error e))
                  | ok raw ↦ admit event id (length raw) m
                ] in
                out.0)
        go (ok raw) = admit-IsValid event id (length raw) m v
        go (err e) = v

    pub deliver-IsValid :
        (event : Value N) (m : Mailbox N) → IsValid m → IsValid (deliver to_vec event m).0
    unfolding deliver
    deliver-IsValid event m v = elim (Option-cases (get_str event (text "event_id"))) [
      | inl e ↦ rw (e, deliver) v
      | inr (id, e) ↦ rw (e, deliver) (deliver_named-IsValid event id m v)
    ]
