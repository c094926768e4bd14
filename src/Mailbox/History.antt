-- ===== src/Mailbox/History.antt =====
-- Histories of an object's mailbox (src/runtime.rs), with a log of what was accepted and of what
-- became of it.
use spinfoam.Prelude.{
  Bool, true, false, List, [], ◌∷◌, ◌++◌, map, none, some, Result, ok, err, if◌then◌else◌,
}
use spinfoam.Text.{Text, text}
use spinfoam.Json.{Value, boolean, get, get_str}
use spinfoam.Error.{RpcResult}
use spinfoam.Outbox.Queues.{Bytes, Poll, done, pending, panicked}
use spinfoam.Mailbox.{Mailbox, empty, receive, clear, deliver}

-- How an event leaves the mailbox: received, or thrown away by a clear.
pub data Fate (N : Type 0) : Type 0 where
  received thrown : Value N → Fate N

-- In order of time, `log` has the accepted events, `left` those that left the mailbox, and `ids` the
-- IDs accepted since the last clear.
pub record Session (N : Type 0) : Type 0 where
  pub mailbox : Mailbox N
  pub log : List (Value N)
  pub ids : List Text
  pub left : List (Fate N)

pub data Call (N : Type 0) : Type 0 where
  delivers : Value N → Call N
  receives clears : Call N

module _ {N : Type 0} where
  abbrev pub event_of : Fate N → Value N
  event_of (received v) = v
  event_of (thrown v) = v

  -- A reply that says `accepted`, and not `duplicate`.
  abbrev pub is_new : RpcResult N → Bool
  is_new (err e) = false
  is_new (ok v) = elim (get v (text "duplicate")) [ some (boolean false) ↦ true | _ ↦ false ]

  -- A reply that says `duplicate`.
  abbrev pub is_duplicate : RpcResult N → Bool
  is_duplicate (err e) = false
  is_duplicate (ok v) = elim (get v (text "duplicate")) [ some (boolean true) ↦ true | _ ↦ false ]

  abbrev pub id_of : Value N → List Text
  id_of event = elim (get_str event (text "event_id")) [ none ↦ [] | some id ↦ id ∷ [] ]

  abbrev pub log_delivery : Value N → Mailbox N × RpcResult N → Session N → Session N
  log_delivery event (m, r) s =
      if is_new r
      then record s { mailbox = m; log = s.log ++ event ∷ []; ids = s.ids ++ id_of event }
      else record s { mailbox = m }

  abbrev pub log_receipt : Mailbox N × Poll (Value N) → Session N → Session N
  log_receipt (m, done v) s = record s { mailbox = m; left = s.left ++ received v ∷ [] }
  log_receipt (m, pending) s = record s { mailbox = m }
  log_receipt (m, panicked) s = record s { mailbox = m }

  abbrev pub waiting : Mailbox N → List (Value N)
  waiting m = map (λ e. e.0) m.entries

  -- What waits when the mailbox is cleared is thrown away.
  abbrev pub log_clear : Mailbox N → Session N → Session N
  log_clear m s = record s {
    mailbox = m;
    ids = [];
    left = s.left ++ map thrown (waiting s.mailbox);
  }

  abbrev pub fresh : Session N
  fresh = record { mailbox = empty; log = []; ids = []; left = [] }

  module _ (to_vec : Value N → Result Text Bytes) where
    unfoldable pub step : Call N → Session N → Session N
    step (delivers event) s = log_delivery event (deliver to_vec event s.mailbox) s
    step receives s = log_receipt (receive s.mailbox) s
    step clears s = log_clear (clear s.mailbox) s

    -- The last call of the list is the latest.
    unfoldable pub run : List (Call N) → Session N
    run [] = fresh
    run (c ∷ cs) = step c (run cs)
