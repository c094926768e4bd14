-- ===== src/Mailbox/Window.antt =====
-- What an object's mailbox (src/runtime.rs) delivers, and which IDs it takes for duplicates.
use spinfoam.Prelude.{
  ℕ, zero, suc, ◌+◌, ◌-◌, ◌*◌, ◌≤◌, ◌<◌, ◌≡◌, refl, sym, ap, subst, ◌∙◌, Bool, true, false, ◌||◌,
  inl, inr, List, [], ◌∷◌, ◌++◌, append_assoc, append-nil, map, map-append, some, Result, ok, err,
  ltb, leb, ◌==◌, if_cases, length, drop, length-append, Bool-cases, arith,
}
use spinfoam.Text.{Text, text, text_discrete}
use spinfoam.Json.{Value, get_str}
use spinfoam.Error.{RpcResult, params_error}
use spinfoam.Outbox.Queues.{Bytes}
use spinfoam.Mailbox.{
  Mailbox, max_value_bytes, accepted, seen, pop_front, push_recent, admit, receive, clear,
  deliver_named, deliver,
}
use spinfoam.Mailbox.Bounds.{
  IsValid, empty-IsValid, clear-IsValid, receive-IsValid, deliver-IsValid,
}
use spinfoam.Mailbox.Deliveries.{Delivery, refused, repeated, admitted, deliver-Delivery}
use spinfoam.Mailbox.History.{
  Session, Call, delivers, receives, clears, received, thrown, event_of, waiting, log_clear,
  is_duplicate, id_of, log_delivery, log_receipt, step, run,
}

-- The last `n` entries of a list.
abbrev pub last {ℓ} : {A : Type ℓ} → ℕ → List A → List A
last n xs = drop (length xs - n) xs

-- What ties the mailbox to the log.
pub record Tracks {N : Type 0} (s : Session N) : Type 0 where
  pub valid : IsValid s.mailbox
  pub in_order : map event_of s.left ++ waiting s.mailbox ≡ s.log
  pub window : s.mailbox.recent ≡ last 128 s.ids

length-drop : (n : ℕ) (xs : List Text) → length (drop n xs) ≡ length xs - n
length-drop zero xs = omega arith
length-drop (suc n) [] = omega arith
length-drop (suc n) (x ∷ xs) = omega (arith, length-drop n xs)

drop-append : (n : ℕ) (xs ys : List Text) → n ≤ length xs → drop n (xs ++ ys) ≡ drop n xs ++ ys
drop-append zero xs ys h = refl
drop-append (suc n) [] ys h = absurd (omega arith)
drop-append (suc n) (x ∷ xs) ys h = drop-append n xs ys (omega arith)

pop_front-drop : (n : ℕ) (xs : List Text) → pop_front (drop n xs) ≡ drop (suc n) xs
pop_front-drop zero [] = refl
pop_front-drop zero (x ∷ xs) = refl
pop_front-drop (suc n) [] = refl
pop_front-drop (suc n) (x ∷ xs) = pop_front-drop n xs

-- The window slides by one ID.
push_recent-last :
    (id : Text) (xs : List Text) → push_recent id (last 128 xs) ≡ last 128 (xs ++ id ∷ [])
unfolding push_recent
push_recent-last id xs = elim (Bool-cases (length (last 128 xs) == 128)) [
  | inl e ↦
      let full : 128 ≤ length xs = ground (arith, length-drop (length xs - 128) xs) in
      let shift : length (xs ++ id ∷ []) - 128 ≡ suc (length xs - 128) =
        omega (arith, length-append xs (id ∷ [])) in
      rw e (
        rw (shift, drop-append (suc (length xs - 128)) xs (id ∷ []) (omega arith))
          (ap (λ r. r ++ id ∷ []) (pop_front-drop (length xs - 128) xs)))
  | inr e ↦
      let short : length xs < 128 = ground (arith, length-drop (length xs - 128) xs) in
      let none_before : length xs - 128 ≡ 0 = omega arith in
      let none_after : length (xs ++ id ∷ []) - 128 ≡ 0 =
        omega (arith, length-append xs (id ∷ [])) in
      rw e (rw (none_before, none_after) refl)
]

module _ {N : Type 0} (to_vec : Value N → Result Text Bytes) where
  map-append_one :
      (es : List (Value N × ℕ)) (v : Value N) (n : ℕ)
      → map (λ e. e.0) (es ++ (v, n) ∷ []) ≡ map (λ e. e.0) es ++ v ∷ []
  map-append_one [] v n = refl
  map-append_one (e ∷ es) v n = ap (◌∷◌ e.0) (map-append_one es v n)

  id_of-some :
      (event : Value N) (id : Text)
      → get_str event (text "event_id") ≡ some id
      → id_of event ≡ id ∷ []
  id_of-some event id e = rw (e, id_of) refl

  is_duplicate-accepted : (b : Bool) → is_duplicate {N = N} (ok (accepted b)) ≡ b
  unfolding text_discrete
  is_duplicate-accepted true = refl
  is_duplicate-accepted false = refl

  admit_not_duplicate :
      (event : Value N) (id : Text) (n : ℕ) (m : Mailbox N)
      → is_duplicate (admit event id n m).1 ≡ false
  unfolding admit
  admit_not_duplicate event id n m =
      if_cases {A = Mailbox N × RpcResult N} (λ r. is_duplicate r.1 ≡ false) (ltb max_value_bytes n)
        _ _ (λ _. refl)
        λ _.
          if_cases {A = Mailbox N × RpcResult N} (λ r. is_duplicate r.1 ≡ false)
            (leb 32 (length m.entries) || ltb (32 * 1024) (m.bytes + n)) _ _ (λ _. refl)
            λ _. is_duplicate-accepted false

  log_delivery-Tracks :
      (event : Value N) (s : Session N) {r : Mailbox N × RpcResult N}
      → Delivery to_vec event s.mailbox r
      → IsValid r.0
      → Tracks s
      → Tracks (log_delivery event r s)
  unfolding text_discrete
  log_delivery-Tracks event s (refused {r} e f) v t =
      rw e (record { valid = v; in_order = t.in_order; window = t.window })
  log_delivery-Tracks event s (repeated id e f) v t = record {
    valid = v;
    in_order = t.in_order;
    window = t.window;
  }
  log_delivery-Tracks event s (admitted id raw e f g) v t = record {
    valid = v;
    in_order =
        ap (◌++◌ (map event_of s.left)) (map-append_one s.mailbox.entries event (length raw))
        ∙ sym (append_assoc (map event_of s.left) _ (event ∷ []))
        ∙ ap (λ l. l ++ event ∷ []) t.in_order;
    window =
        ap (push_recent id) t.window
        ∙ push_recent-last id s.ids
        ∙ ap (λ l. last 128 (s.ids ++ l)) (sym (id_of-some event id e));
  }

  receive-Tracks : (s : Session N) → Tracks s → Tracks (log_receipt (receive s.mailbox) s)
  unfolding receive
  receive-Tracks s t = go s.mailbox.entries refl (receive-IsValid s.mailbox t.valid)
    where
      go :
          (es : List (Value N × ℕ))
          → s.mailbox.entries ≡ es
          → IsValid (receive s.mailbox).0
          → Tracks (log_receipt (receive s.mailbox) s)
      go [] e v = rw (e, receive) t
      go ((x, n) ∷ es) e v =
          rw (e, receive)
            (record {
              valid = rw (e, receive) at v;
              in_order =
                  ap (λ l. l ++ map (λ y. y.0) es) (map-append event_of s.left (received x ∷ []))
                  ∙ append_assoc (map event_of s.left) (x ∷ []) (map (λ y. y.0) es)
                  ∙ ap (λ l. map event_of s.left ++ map (λ y. y.0) l) (sym e)
                  ∙ t.in_order;
              window = t.window;
            })

  event_of-thrown : (vs : List (Value N)) → map event_of (map thrown vs) ≡ vs
  event_of-thrown [] = refl
  event_of-thrown (v ∷ vs) = ap (◌∷◌ v) (event_of-thrown vs)

  clear-Tracks : (s : Session N) → Tracks s → Tracks (log_clear (clear s.mailbox) s)
  unfolding clear
  clear-Tracks s t = record {
    valid = clear-IsValid s.mailbox;
    in_order =
        append-nil (map event_of (s.left ++ map thrown (waiting s.mailbox)))
        ∙ map-append event_of s.left (map thrown (waiting s.mailbox))
        ∙ ap (◌++◌ (map event_of s.left)) (event_of-thrown (waiting s.mailbox))
        ∙ t.in_order;
    window = refl;
  }

  pub run-Tracks : (cs : List (Call N)) → Tracks (run to_vec cs)
  unfolding run step
  run-Tracks [] = record { valid = empty-IsValid; in_order = refl; window = refl }
  run-Tracks (delivers event ∷ cs) =
      log_delivery-Tracks event (run to_vec cs)
        (deliver-Delivery to_vec event (run to_vec cs).mailbox)
        (deliver-IsValid to_vec event (run to_vec cs).mailbox (run-Tracks cs).valid) (run-Tracks cs)
  run-Tracks (receives ∷ cs) = receive-Tracks (run to_vec cs) (run-Tracks cs)
  run-Tracks (clears ∷ cs) = clear-Tracks (run to_vec cs) (run-Tracks cs)

  -- After any history of deliveries, receipts and clears an event with an ID of at most 128 bytes is
  -- answered as a duplicate exactly when its ID is one of the last 128 of those accepted since the
  -- last clear, received or not.
  pub duplicate_window :
      (cs : List (Call N)) (event : Value N) (id : Text)
      → get_str event (text "event_id") ≡ some id
      → length id ≤ 128
      → is_duplicate (deliver to_vec event (run to_vec cs).mailbox).1
        ≡ seen id (last 128 (run to_vec cs).ids)
  unfolding deliver deliver_named
  duplicate_window cs event id e h =
      subst (λ w. is_duplicate (deliver to_vec event (run to_vec cs).mailbox).1 ≡ seen id w)
        (run-Tracks cs).window (rw (e, deliver) (answer (run to_vec cs).mailbox))
    where
      undecided :
          (m : Mailbox N) (r : Result Text Bytes)
          → is_duplicate (
              let out : Mailbox N × RpcResult N = elim r [
                | err e ↦ (m, err (params_error e))
                | ok raw ↦ admit event id (length raw) m
              ] in
              out.1)
            ≡ false
      undecided m (err x) = refl
      undecided m (ok raw) = admit_not_duplicate event id (length raw) m

      answer : (m : Mailbox N) → is_duplicate (deliver_named to_vec event id m).1 ≡ seen id m.recent
      answer m =
          if_cases {A = Mailbox N × RpcResult N} (λ r. is_duplicate r.1 ≡ seen id m.recent)
            (ltb 128 (length id)) _ _ (λ f. absurd (ground arith))
            λ _.
              if_cases {A = Mailbox N × RpcResult N} (λ r. is_duplicate r.1 ≡ seen id m.recent)
                (seen id m.recent) _ _ (λ f. is_duplicate-accepted true ∙ sym f)
                λ f. undecided m (to_vec event) ∙ sym f

  -- After any history of deliveries, receipts and clears the events that left the mailbox, each
  -- received or thrown away by a clear, and then those that wait are the accepted ones, in the order
  -- of their acceptance, each as often as it was accepted.
  pub received_in_order :
      (cs : List (Call N))
      → map event_of (run to_vec cs).left ++ waiting (run to_vec cs).mailbox ≡ (run to_vec cs).log
  received_in_order cs = (run-Tracks cs).in_order

  -- After any history of deliveries, receipts and clears a mailbox holds at most 32 events and 32 KiB of them, and `bytes` is the sum
  -- of their encoded lengths; it remembers at most 128 IDs.
  pub run-mailbox-IsValid : (cs : List (Call N)) → IsValid (run to_vec cs).mailbox
  run-mailbox-IsValid cs = (run-Tracks cs).valid
