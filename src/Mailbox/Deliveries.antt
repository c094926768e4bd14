-- ===== src/Mailbox/Deliveries.antt =====
-- What a delivery to an object's mailbox (src/runtime.rs) comes to.
use spinfoam.Prelude.{
  ◌+◌, ◌*◌, ◌≡◌, refl, true, false, ◌||◌, inl, inr, [], ◌∷◌, ◌++◌, some, Result, ok, err, ltb, leb,
  if_cases, length, Option-cases,
}
use spinfoam.Text.{Text, text}
use spinfoam.Json.{Value, get_str}
use spinfoam.Error.{RpcResult, params_error}
use spinfoam.Outbox.Queues.{Bytes}
use spinfoam.Mailbox.{
  Mailbox, max_value_bytes, accepted, seen, push_recent, admit, deliver_named, deliver,
}
use spinfoam.Mailbox.History.{is_new, is_duplicate}

module _ {N : Type 0} (to_vec : Value N → Result Text Bytes) where
  -- The three outcomes of a delivery.
  pub data Delivery (event : Value N) (m : Mailbox N) : Mailbox N × RpcResult N → Type 0 where
    refused :
        {r : RpcResult N} → is_new r ≡ false → is_duplicate r ≡ false → Delivery event m (m, r)
    repeated :
        (id : Text)
        → get_str event (text "event_id") ≡ some id
        → seen id m.recent ≡ true
        → Delivery event m (m, ok (accepted true))
    admitted :
        (id : Text) (raw : Bytes)
        → get_str event (text "event_id") ≡ some id
        → seen id m.recent ≡ false
        → to_vec event ≡ ok raw
        → Delivery event m (
          record m {
            entries = m.entries ++ (event, length raw) ∷ [];
            bytes = m.bytes + length raw;
            recent = push_recent id m.recent;
            changed = m.changed + 1;
          },
          ok (accepted false),
        )

  admit-Delivery :
      (event : Value N) (id : Text) (raw : Bytes) (m : Mailbox N)
      → get_str event (text "event_id") ≡ some id
      → seen id m.recent ≡ false
      → to_vec event ≡ ok raw
      → Delivery event m (admit event id (length raw) m)
  unfolding admit
  admit-Delivery event id raw m e f g =
      if_cases (Delivery event m) (ltb max_value_bytes (length raw)) _ _ (λ _. refused refl refl)
        λ _.
          if_cases (Delivery event m)
            (leb 32 (length m.entries) || ltb (32 * 1024) (m.bytes + length raw)) _ _
            (λ _. refused refl refl) λ _. admitted id raw e f g

  pub deliver-Delivery :
      (event : Value N) (m : Mailbox N) → Delivery event m (deliver to_vec event m)
  unfolding deliver deliver_named
  deliver-Delivery event m = elim (Option-cases (get_str event (text "event_id"))) [
    | inl e ↦ rw (e, deliver) (refused refl refl)
    | inr (id, e) ↦
        rw (e, deliver)
          (if_cases (Delivery event m) (ltb 128 (length id)) _ _ (λ _. refused refl refl)
            λ _.
              if_cases (Delivery event m) (seen id m.recent) _ _ (repeated id e)
                λ f. go id e f (to_vec event) refl)
  ]
    where
      go :
          (id : Text)
          → get_str event (text "event_id") ≡ some id
          → seen id m.recent ≡ false
          → (r : Result Text Bytes) → to_vec event ≡ r
          → Delivery event m (elim r [
            | err e ↦ (m, err (params_error e))
            | ok raw ↦ admit event id (length raw) m
          ])
      go id e f (ok raw) g = admit-Delivery event id raw m e f g
      go id e f (err msg) g = refused refl refl
