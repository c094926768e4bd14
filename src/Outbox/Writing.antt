-- ===== src/Outbox/Writing.antt =====
-- The task of the writer in `serve_with_config` (src/protocol.rs), which takes frames by `next` of
-- src/outbox.rs until that gives none, and then flushes. Between its rounds, at the awaits of the
-- writes, no other task changes the outbox.
use spinfoam.Prelude.{ℕ, zero, suc, true, List, [], ◌∷◌, Option, none, some, Result, err}
use spinfoam.Text.{Text}
use spinfoam.Outbox.Queues.{Bytes, Outbox, Poll, done, pending, panicked, next, Wake, next_woken}

-- What the writer comes to: its end, with the result of the task; a wait for a frame, on which the
-- task goes on with a wake-up; a failed `expect`; or a run that was cut off.
pub data Written : Type 0 where
  ended : Result Text (Unit {0}) → Written
  waits panics cut_off : Written

-- `next` from its call on, or from the wake-up of its wait.
abbrev pub polled : Option Wake → Outbox → Outbox × Poll (Option Bytes)
polled none o = next o
polled (some w) o = next_woken w o

-- What the body of the loop does with what the write of `b` comes to; a write that fails closes the
-- outbox. `rest` is what comes of the rounds that follow.
abbrev pub written :
    Option Text → Bytes → Outbox → Outbox × List Bytes × Written → Outbox × List Bytes × Written
written none b o (last, out, w) = (last, b ∷ out, w)
written (some e) b o rest = (record o { closed = true }, [], ended (err e))

-- A round, with what `next` came to; `sink` has the error of the write, if any, and `flush` the
-- result of the flush.
abbrev pub round :
    (Bytes → Option Text)
    → Result Text (Unit {0})
    → Outbox × Poll (Option Bytes)
    → Outbox × List Bytes × Written
    → Outbox × List Bytes × Written
round sink flush (o, done none) rest = (o, [], ended flush)
round sink flush (o, pending) rest = (o, [], waits)
round sink flush (o, panicked) rest = (o, [], panics)
round sink flush (o, done (some b)) rest = written (sink b) b o rest

-- The task from a call of `next` on, or from a wake-up, until it ends or waits, with the frames
-- that are written whole. The first write is number `i`.
unfoldable pub writer :
    ℕ
    → (ℕ → Bytes → Option Text)
    → Result Text (Unit {0})
    → Option Wake
    → ℕ
    → Outbox
    → Outbox × List Bytes × Written
unfolding next next_woken
writer zero sink flush wake i o = (o, [], cut_off)
writer (suc n) sink flush wake i o =
    let r = polled wake o in
    let rest = writer n sink flush none (suc i) r.0 in round (sink i) flush r rest
